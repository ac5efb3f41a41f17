-- ===== src/Mutation/Answers.antt =====
-- What a mutation may do on each of its branches.
use ai_smart_flow.Shared.{
  ◌≡◌, ◌⊎◌, ◌&&◌, not, refl, Bool, true, false, String, Option, none, some, Bool-cases, inl, inr,
  ◌∙◌,
}
use ai_smart_flow.Errors.{Failure, Result, ok, err, Result-cases, has_code, StoreCode}
use ai_smart_flow.Protocol.Json.{Json}
use ai_smart_flow.State.Records.{ProjectState}
use ai_smart_flow.State.Refine.{refine_state}
use ai_smart_flow.Store.Database.{Database, Env, row_of, read_state}
use ai_smart_flow.Store.Leases.{write_state_with_lease, renew_mutation_lease}
use ai_smart_flow.Store.Handle.{
  Handle, write_state, assert_owned, renew, assert_usable, check_again, renew_then_check,
  record_renewal,
}
use ai_smart_flow.Store.Writes.{Commits, write-Commits}
use ai_smart_flow.Store.Schedule.{run}
use ai_smart_flow.Store.Versions.{renew-state_row}
use ai_smart_flow.Mutation.Executor.{
  Request, Draft, Outcome, Build, Prepare, Session, canonical_replay, check_guards,
  mutation_context, committed_state, replay_outcome, fresh_outcome, write_draft, is_current_epoch,
  recover_write, start_effect, owned_outcome,
}
use ai_smart_flow.Mutation.Mutate.{
  after_write, after_build, apply_change, after_guards, after_replay, mutate_body,
}

usable-check_again :
    (h : Handle) (u : Unit {0}) (next : ProjectState) (db : Database)
    (r : Result ProjectState × Database)
    → assert_usable h ≡ ok u
    → Commits next db r
    → Commits next db (check_again h r)
usable-check_again h u next db (ok s, after) usable c = rw usable c
usable-check_again h u next db (err e, after) usable c = c

-- A write under a lease changes the row only to that of the state given, and then returns that state.
handle-Commits :
    (env : Env) (h : Handle) (next : ProjectState) (db : Database)
    → Commits next db (write_state env h next db)
unfolding write_state
handle-Commits env h next db = elim (Result-cases (assert_usable h)) [
  | inr (e, refused) ↦ rw refused refl
  | inl (u, usable) ↦ rw usable (
      usable-check_again h u next db (write_state_with_lease env (some h.token) next db) usable
        (write-Commits env (some h.token) next db))
]

draft-Commits :
    (env : Env) (h : Handle) (next : ProjectState) (db : Database)
    → Commits next db (write_draft env h next db)
unfolding write_draft
draft-Commits env h next db = elim (Bool-cases (refine_state next)) [
  | inr refused ↦ rw refused refl
  | inl accepted ↦ rw accepted (handle-Commits env h next db)
]

record_renewal-state_row :
    (h : Handle) (r : Result (Unit {0}) × Database)
    → (renew_then_check (record_renewal h r)).2.state_row ≡ r.1.state_row
record_renewal-state_row h (ok _, db) = refl
record_renewal-state_row h (err e, db) = refl

assert_owned-state_row :
    (env : Env) (h : Handle) (db : Database) → (assert_owned env h db).2.state_row ≡ db.state_row
unfolding assert_owned renew
assert_owned-state_row env h db = elim (Result-cases (assert_usable h)) [
  | inr (e, refused) ↦ rw refused refl
  | inl (u, usable) ↦ rw usable (
      record_renewal-state_row h (renew_mutation_lease env h.token db)
      ∙ renew-state_row env h.token db)
]

module _ (canonical_hash : Json → String) (session : Session) (r : Request) (build : Build)
    (s : ProjectState) where
  -- The draft of the builder, under the guards and without an earlier receipt, is stored.
  pub record IsCommitted (after : Database) (draft : Draft) : Type 0 where
    pub built : build s (mutation_context r s) ≡ ok draft
    pub guarded : check_guards r s ≡ ok tt
    pub unanswered : canonical_replay s r.request_id (canonical_hash r.payload) ≡ ok none
    pub accepted : refine_state (committed_state canonical_hash r s draft session.updated_at) ≡ true
    pub stored :
        after.state_row
        ≡ some (row_of (committed_state canonical_hash r s draft session.updated_at))

  -- The outcome of a draft that was stored.
  pub record IsFresh (o : Outcome) (after : Database) : Type 0 where
    pub draft : Draft
    pub committed : IsCommitted after draft
    pub response : o.response ≡ draft.response
    pub state : o.state ≡ committed_state canonical_hash r s draft session.updated_at
    pub replayed : o.replayed ≡ false

  -- The outcome of a request that has a receipt.
  pub record IsReplay (db : Database) (o : Outcome) (after : Database) : Type 0 where
    pub outcome : o ≡ replay_outcome s o.response
    pub receipt : canonical_replay s r.request_id (canonical_hash r.payload) ≡ ok (some o.response)
    pub unchanged : after ≡ db

  abbrev pub Answers : Database → Result Outcome × Database → Type 0
  Answers db (ok o, after) = IsReplay db o after ⊎ IsFresh o after
  Answers db (err e, after) =
      (after.state_row ≡ db.state_row) ⊎ ((draft : Draft) × IsCommitted after draft)

  module _ (db : Database) (draft : Draft) where
    moved : (a b : Database) → b.state_row ≡ a.state_row → IsCommitted a draft → IsCommitted b draft
    moved a b same c = record {
      built = c.built;
      guarded = c.guarded;
      unanswered = c.unanswered;
      accepted = c.accepted;
      stored = same ∙ c.stored;
    }

    fresh-Answers :
        (after : Database) (started : Bool)
        → IsCommitted after draft
        → Answers db (
          ok (
              fresh_outcome
                (committed_state canonical_hash r s draft session.updated_at)
                draft.response
                started),
          after,
        )
    fresh-Answers after started c =
        inr
          (record { draft = draft; committed = c; response = refl; state = refl; replayed = refl })

    owned-Answers :
        (base : Database) (p : Result (Unit {0}) × Handle × Database)
        → p.2.state_row ≡ base.state_row
        → IsCommitted base draft
        → Answers db (
            owned_outcome
              (committed_state canonical_hash r s draft session.updated_at)
              draft.response
              p)
    owned-Answers base (ok _, h, after) same c = fresh-Answers after true (moved base after same c)
    owned-Answers base (err e, h, after) same c = inr (draft, moved base after same c)

    start_effect-Answers :
        (prepare : Option Prepare) (h : Handle) (after : Database)
        → ((d : Database) → (run session.during_prepare d).state_row ≡ d.state_row)
        → IsCommitted after draft
        → Answers db (
            start_effect session prepare h
              (committed_state canonical_hash r s draft session.updated_at)
              draft.response
              after)
    unfolding start_effect
    start_effect-Answers none h after quiet c = fresh-Answers after false c
    start_effect-Answers (some prepare) h after quiet c =
        let state = committed_state canonical_hash r s draft session.updated_at in
        let later = run session.during_prepare after in
        elim (Result-cases (prepare state draft.response)) [
          | inr (e, failed) ↦ rw failed (inr (draft, moved after later (quiet after) c))
          | inl (u, prepared) ↦ rw prepared (
              owned-Answers later (assert_owned session.assert_env h later)
                (assert_owned-state_row session.assert_env h later)
                (moved after later (quiet after) c))
        ]

  recover_write_err :
      (e : Failure) (db : Database)
      → read_state db ≡ ok s
      → canonical_replay s r.request_id (canonical_hash r.payload) ≡ ok none
      → recover_write canonical_hash r e db ≡ err e
  unfolding recover_write
  recover_write_err e db readable unanswered =
      elim (Bool-cases
        (has_code StoreCode.state_version_mismatch e && not (is_current_epoch r.replay_policy))) [
          | inl again ↦ rw again (rw readable (rw unanswered refl))
          | inr thrown ↦ rw thrown refl
        ]

  write-Answers :
      (prepare : Option Prepare) (h : Handle) (db : Database) (draft : Draft)
      (p : Result ProjectState × Database)
      → read_state db ≡ ok s
      → ((d : Database) → (run session.during_prepare d).state_row ≡ d.state_row)
      → build s (mutation_context r s) ≡ ok draft
      → check_guards r s ≡ ok tt
      → canonical_replay s r.request_id (canonical_hash r.payload) ≡ ok none
      → Commits (committed_state canonical_hash r s draft session.updated_at) db p
      → Answers db (after_write canonical_hash session r build prepare h draft.response p)
  write-Answers prepare h db draft (ok st, after) readable quiet b g u (same, row, accepted, _) =
      rw same (
        start_effect-Answers db draft prepare h after quiet
          (record { built = b; guarded = g; unanswered = u; accepted = accepted; stored = row }))
  write-Answers prepare h db draft (err e, after) readable quiet b g u same =
      rw (same, recover_write_err e db readable u) (inl refl)

  build-Answers :
      (prepare : Option Prepare) (h : Handle) (db : Database) (drafted : Result Draft)
      → read_state db ≡ ok s
      → ((d : Database) → (run session.during_prepare d).state_row ≡ d.state_row)
      → build s (mutation_context r s) ≡ drafted
      → check_guards r s ≡ ok tt
      → canonical_replay s r.request_id (canonical_hash r.payload) ≡ ok none
      → Answers db (after_build canonical_hash session r build prepare h s drafted db)
  build-Answers prepare h db (err e) readable quiet b g u = inl refl
  build-Answers prepare h db (ok draft) readable quiet b g u =
      write-Answers prepare h db draft _ readable quiet b g u (
        draft-Commits session.write_env h
          (committed_state canonical_hash r s draft session.updated_at) db)

  guards-Answers :
      (prepare : Option Prepare) (h : Handle) (db : Database) (checked : Result (Unit {0}))
      → read_state db ≡ ok s
      → run session.during_build db ≡ db
      → ((d : Database) → (run session.during_prepare d).state_row ≡ d.state_row)
      → check_guards r s ≡ checked
      → canonical_replay s r.request_id (canonical_hash r.payload) ≡ ok none
      → Answers db (after_guards canonical_hash session r build prepare h s none db checked)
  unfolding apply_change
  guards-Answers prepare h db (err e) readable still quiet g u = inl refl
  guards-Answers prepare h db (ok _) readable still quiet g u =
      rw still (build-Answers prepare h db (build s (mutation_context r s)) readable quiet refl g u)

  late-Answers :
      (prepare : Option Prepare) (h : Handle) (db : Database) (response : Json)
      (checked : Result (Unit {0}))
      → canonical_replay s r.request_id (canonical_hash r.payload) ≡ ok (some response)
      → Answers db
          (after_guards canonical_hash session r build prepare h s (some response) db checked)
  late-Answers prepare h db response (err e) u = inl refl
  late-Answers prepare h db response (ok _) u =
      inl (record { outcome = refl; receipt = u; unchanged = refl })

  replay-Answers :
      (prepare : Option Prepare) (h : Handle) (db : Database) (replay : Result (Option Json))
      → read_state db ≡ ok s
      → run session.during_build db ≡ db
      → ((d : Database) → (run session.during_prepare d).state_row ≡ d.state_row)
      → canonical_replay s r.request_id (canonical_hash r.payload) ≡ replay
      → Answers db (after_replay canonical_hash session r build prepare h s db replay)
  replay-Answers prepare h db (err e) readable still quiet u = inl refl
  replay-Answers prepare h db (ok none) readable still quiet u =
      guards-Answers prepare h db (check_guards r s) readable still quiet refl u
  replay-Answers prepare h db (ok (some response)) readable still quiet u =
      elim (Bool-cases (is_current_epoch r.replay_policy)) [
        | inl current ↦ rw current (late-Answers prepare h db response (check_guards r s) u)
        | inr earlier ↦ rw earlier (inl (record { outcome = refl; receipt = u; unchanged = refl }))
      ]

  -- Under the lease, while the other processes leave the row alone, a mutation of the state `s` does
  -- one of three things. It answers from the receipt of the request and changes nothing. Or its
  -- guards hold, there was no receipt, the schema accepts the state made of the builder's draft, and
  -- that state is stored and returned. Or it fails, and either the row is as before or such a state
  -- was stored before the hand-over to the effect failed.
  pub mutate_body-Answers :
      (prepare : Option Prepare) (h : Handle) (db : Database)
      → read_state db ≡ ok s
      → run session.during_build db ≡ db
      → ((d : Database) → (run session.during_prepare d).state_row ≡ d.state_row)
      → Answers db (mutate_body canonical_hash session r build prepare h db)
  unfolding mutate_body
  mutate_body-Answers prepare h db readable still quiet = rw readable (
      replay-Answers prepare h db (canonical_replay s r.request_id (canonical_hash r.payload))
        readable still quiet refl)
