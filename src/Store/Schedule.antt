-- ===== src/Store/Schedule.antt =====
-- The operations that the processes of a project make on its database, in any order.
use ai_smart_flow.Shared.{◌≡◌, ◌≢◌, refl, Option, none, some, String, List, [], ◌∷◌, ap, ◌∙◌, All}
use ai_smart_flow.Errors.{ok}
use ai_smart_flow.State.Records.{ProjectState}
use ai_smart_flow.Store.Database.{LeaseRow, Database, Env, initialize, read_state}
use ai_smart_flow.Store.Leases.{
  acquire_round, renew_mutation_lease, release_mutation_lease, write_state_with_lease,
}
use ai_smart_flow.Store.Exclusion.{
  IsHeld, acquire_held, write_unleased_held, write_other_held, renew_other_held, release_other_held,
}

pub data Operation : Type 0 where
  initializes : ProjectState → Operation
  acquires : String → String → Operation
  renews : String → Operation
  releases : String → Operation
  writes : Option String → ProjectState → Operation

unfoldable pub perform : Env → Operation → Database → Database
perform env (initializes s) db = (initialize env s db).1
perform env (acquires token start_token) db = (acquire_round env token start_token db).1
perform env (renews token) db = (renew_mutation_lease env token db).1
perform env (releases token) db = (release_mutation_lease env token db).1
perform env (writes owner next) db = (write_state_with_lease env owner next db).1

unfoldable pub run : List (Env × Operation) → Database → Database
run [] db = db
run ((env, op) ∷ ops) db = run ops (perform env op db)

-- The operation is not made under this token.
abbrev pub IsForeign : String → Operation → Type 0
IsForeign token (initializes s) = Unit
IsForeign token (acquires t start_token) = Unit
IsForeign token (renews t) = token ≢ t
IsForeign token (releases t) = token ≢ t
IsForeign token (writes none next) = Unit
IsForeign token (writes (some t) next) = token ≢ t

module _ (state : ProjectState) (lease : LeaseRow) where
  initialize_present :
      (env : Env) (s : ProjectState) (db : Database)
      → read_state db ≡ ok state
      → (initialize env s db).1 ≡ db
  unfolding initialize
  initialize_present env s db readable = rw readable refl

  perform_held :
      (env : Env) (op : Operation) (db : Database)
      → db.lease ≡ some lease
      → read_state db ≡ ok state
      → IsHeld env lease
      → IsForeign lease.owner_token op
      → perform env op db ≡ db
  unfolding perform
  perform_held env (initializes s) db p r h f = initialize_present env s db r
  perform_held env (acquires t st) db p r h f = λ i. (acquire_held env db lease p h t st i).1
  perform_held env (renews t) db p r h f = λ i. ((renew_other_held env db lease p h t f).1 i).1
  perform_held env (releases t) db p r h f = release_other_held env db lease p h t f
  perform_held env (writes none s) db p r h f =
      λ i. ((write_unleased_held env db lease p h s).1 i).1
  perform_held env (writes (some t) s) db p r h f =
      λ i. ((write_other_held env db lease p h t f s).1 i).1

  -- While the owner of the lease is alive in the eyes of every process, and there is a readable state,
  -- nothing that is done under other tokens changes the database, whatever the order: neither the
  -- state nor the lease.
  pub run_held :
      (ops : List (Env × Operation)) (db : Database)
      → db.lease ≡ some lease
      → read_state db ≡ ok state
      → All (λ step. IsHeld step.0 lease × IsForeign lease.owner_token step.1) ops
      → run ops db ≡ db
  unfolding run
  run_held [] db p r all = refl
  run_held ((env, op) ∷ ops) db p r all =
      let same = perform_held env op db p r all.0.0 all.0.1 in
      ap (run ops) same ∙ run_held ops db p r all.1
