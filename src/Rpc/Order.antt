-- ===== src/Rpc/Order.antt =====
-- packages/provider-pi/src/rpc-client.ts: what the event queue delivers, over any sequence of calls.
use ai_smart_flow.Shared.{
  ◌≡◌, ◌⊎◌, inl, inr, refl, sym, ap, ◌∙◌, ℕ, Bool, true, false, String, List, [], ◌∷◌, ◌++◌, Option,
  none, some, if◌then◌else◌, arith,
}
use mathlib.Core.List.{append-nil, append_assoc}
use ai_smart_flow.Rpc.Queue.{
  Answer, got, failed, done, AsyncEventQueue, Settled, empty_queue, push_open, push, all_with, fail,
  end, next_empty, next_of, next, Call, pushes, fails, ends, asks, call,
}

cons_nil {ℓ} : {B : Type ℓ} (x : B) (xs : List B) → (x ∷ xs) ≡ [] → ⊥
cons_nil x xs h = absurd (ground arith)

if_cases {ℓ κ} :
    {B : Type ℓ} (P : B → Type κ) (b : Bool) (x y : B)
    → (b ≡ true → P x)
    → (b ≡ false → P y)
    → P (if b then x else y)
if_cases P true x y h k = h refl
if_cases P false x y h k = k refl

module _ {ℓ} {A : Type ℓ} where
  -- The values that are delivered, in order.
  abbrev pub delivered : Settled A → List A
  delivered [] = []
  delivered ((promise, got value) ∷ rest) = value ∷ delivered rest
  delivered ((promise, failed error) ∷ rest) = delivered rest
  delivered ((promise, done) ∷ rest) = delivered rest

  -- The promises that are settled, in order.
  abbrev pub promises : Settled A → List ℕ
  promises [] = []
  promises ((promise, answer) ∷ rest) = promise ∷ promises rest

  abbrev new_values : Call A → Bool → List A
  new_values (pushes value) closed = if closed then [] else value ∷ []
  new_values _ closed = []

  abbrev new_promises : Call A → List ℕ
  new_promises (asks promise) = promise ∷ []
  new_promises _ = []

-- The queue after some calls, with what was settled, the promises that were asked for, and the values
-- that were pushed before the queue was closed.
pub record Trace {ℓ} (A : Type ℓ) : Type ℓ where
  pub queue : AsyncEventQueue A
  pub settled : Settled A
  pub asked : List ℕ
  pub accepted : List A

module _ {ℓ} {A : Type ℓ} where
  abbrev pub step : Call A → Trace A → Trace A
  step c t =
      let after = call c t.queue in
      record {
        queue = after.0;
        settled = t.settled ++ after.1;
        asked = t.asked ++ new_promises c;
        accepted = t.accepted ++ new_values c t.queue.closed;
      }

  abbrev pub steps : List (Call A) → Trace A → Trace A
  steps [] t = t
  steps (c ∷ cs) t = steps cs (step c t)

  abbrev pub start : Trace A
  start = record { queue = empty_queue; settled = []; asked = []; accepted = [] }

  -- Nobody waits while there are values, nor after the queue was closed.
  pub record IsIdle (q : AsyncEventQueue A) : Type ℓ where
    pub no_wait : (q.values ≡ []) ⊎ (q.waiters ≡ [])
    pub closed_idle : q.closed ≡ true → q.waiters ≡ []
    pub failed_closed : (error : String) → q.terminal_error ≡ some error → q.closed ≡ true

  pub record IsOrdered (t : Trace A) : Type ℓ where
    pub in_order : delivered t.settled ++ t.queue.values ≡ t.accepted
    pub each_once : promises t.settled ++ t.queue.waiters ≡ t.asked
    pub idle : IsIdle t.queue

  -- What one call adds.
  record IsStep (c : Call A) (q : AsyncEventQueue A) (after : AsyncEventQueue A × Settled A)
      : Type ℓ where
    values : delivered after.1 ++ after.0.values ≡ q.values ++ new_values c q.closed
    waiters : promises after.1 ++ after.0.waiters ≡ q.waiters ++ new_promises c
    idle : IsIdle after.0

  delivered-append : (a b : Settled A) → delivered (a ++ b) ≡ delivered a ++ delivered b
  delivered-append [] b = refl
  delivered-append ((p, got v) ∷ a) b = ap (λ l. v ∷ l) (delivered-append a b)
  delivered-append ((p, failed e) ∷ a) b = delivered-append a b
  delivered-append ((p, done) ∷ a) b = delivered-append a b

  promises-append : (a b : Settled A) → promises (a ++ b) ≡ promises a ++ promises b
  promises-append [] b = refl
  promises-append ((p, answer) ∷ a) b = ap (λ l. p ∷ l) (promises-append a b)

  delivered-failed :
      (error : String) (ws : List ℕ) → delivered {A = A} (all_with (failed error) ws) ≡ []
  delivered-failed error [] = refl
  delivered-failed error (w ∷ ws) = delivered-failed error ws

  delivered-done : (ws : List ℕ) → delivered {A = A} (all_with done ws) ≡ []
  delivered-done [] = refl
  delivered-done (w ∷ ws) = delivered-done ws

  promises-all_with : (answer : Answer A) (ws : List ℕ) → promises (all_with answer ws) ≡ ws
  promises-all_with answer [] = refl
  promises-all_with answer (w ∷ ws) = ap (λ l. w ∷ l) (promises-all_with answer ws)

  -- A closed queue is left as it is.
  closed-IsStep :
      (c : Call A) (q : AsyncEventQueue A)
      → new_values c q.closed ≡ []
      → new_promises c ≡ []
      → IsIdle q
      → IsStep c q (q, [])
  closed-IsStep c q values promises idle = record {
    values = sym (append-nil q.values) ∙ ap (λ l. q.values ++ l) (sym values);
    waiters = sym (append-nil q.waiters) ∙ ap (λ l. q.waiters ++ l) (sym promises);
    idle = idle;
  }

  nobody :
      {q : AsyncEventQueue A} (v : A) (vs : List A) → IsIdle q → q.values ≡ v ∷ vs → q.waiters ≡ []
  nobody v vs idle some_values = elim idle.no_wait [
    | inl empty ↦ absurd (cons_nil v vs (sym some_values ∙ empty))
    | inr none_waits ↦ none_waits
  ]

  no_values :
      {q : AsyncEventQueue A} (w : ℕ) (ws : List ℕ) → IsIdle q → q.waiters ≡ w ∷ ws → q.values ≡ []
  no_values w ws idle waiting = elim idle.no_wait [
    | inl empty ↦ empty
    | inr none_waits ↦ absurd (cons_nil w ws (sym waiting ∙ none_waits))
  ]

  push_open-IsStep :
      (v : A) (q : AsyncEventQueue A) (ws : List ℕ)
      → q.closed ≡ false
      → q.waiters ≡ ws
      → IsIdle q
      → IsStep (pushes v) q (push_open v q ws)
  push_open-IsStep v q [] unclosed waiting idle = record {
    values = rw unclosed refl;
    waiters = sym (append-nil q.waiters);
    idle = record {
      no_wait = inr waiting;
      closed_idle = idle.closed_idle;
      failed_closed = idle.failed_closed;
    };
  }
  push_open-IsStep v q (w ∷ ws) unclosed waiting idle =
      let empty = no_values w ws idle waiting in
      record {
        values = rw (unclosed, empty) refl;
        waiters = sym waiting ∙ sym (append-nil q.waiters);
        idle = record {
          no_wait = inl empty;
          closed_idle = λ shut. absurd (ground (arith, unclosed, shut));
          failed_closed = idle.failed_closed;
        };
      }

  push-IsStep : (v : A) (q : AsyncEventQueue A) → IsIdle q → IsStep (pushes v) q (push v q)
  unfolding push
  push-IsStep v q idle =
      if_cases (IsStep (pushes v) q) q.closed _ _
        (λ shut. closed-IsStep (pushes v) q (rw shut refl) refl idle)
        (λ unclosed. push_open-IsStep v q q.waiters unclosed refl idle)

  fail-IsStep :
      (error : String) (q : AsyncEventQueue A) → IsIdle q → IsStep (fails error) q (fail error q)
  unfolding fail
  fail-IsStep error q idle =
      if_cases (IsStep (fails error) q) q.closed _ _
        (λ shut. closed-IsStep (fails error) q refl refl idle)
        (λ unclosed. record {
          values =
              ap (λ l. l ++ q.values) (delivered-failed error q.waiters)
              ∙ sym (append-nil q.values);
          waiters = ap (λ l. l ++ []) (promises-all_with (failed error) q.waiters);
          idle = record {
            no_wait = inr refl;
            closed_idle = λ shut. refl;
            failed_closed = λ e h. refl;
          };
        })

  end-IsStep : (q : AsyncEventQueue A) → IsIdle q → IsStep ends q (end q)
  unfolding end
  end-IsStep q idle =
      if_cases (IsStep ends q) q.closed _ _ (λ shut. closed-IsStep ends q refl refl idle)
        (λ unclosed. record {
          values = ap (λ l. l ++ q.values) (delivered-done q.waiters) ∙ sym (append-nil q.values);
          waiters = ap (λ l. l ++ []) (promises-all_with done q.waiters);
          idle = record {
            no_wait = inr refl;
            closed_idle = λ shut. refl;
            failed_closed = λ e h. refl;
          };
        })

  -- A promise that is settled at once, when nobody waits.
  settled-IsStep :
      (promise : ℕ) (q : AsyncEventQueue A) (answer : Answer A) (values : List A)
      → delivered ((promise, answer) ∷ []) ++ values ≡ q.values
      → q.waiters ≡ []
      → IsIdle q
      → IsStep (asks promise) q (record q { values = values }, (promise, answer) ∷ [])
  settled-IsStep promise q answer values same nobody_waits idle = record {
    values = same ∙ sym (append-nil q.values);
    waiters = rw nobody_waits refl;
    idle = record {
      no_wait = inr nobody_waits;
      closed_idle = idle.closed_idle;
      failed_closed = idle.failed_closed;
    };
  }

  next_empty-IsStep :
      (promise : ℕ) (q : AsyncEventQueue A) (error : Option String)
      → q.values ≡ []
      → q.terminal_error ≡ error
      → IsIdle q
      → IsStep (asks promise) q (next_empty promise q error)
  next_empty-IsStep promise q (some error) empty with_error idle =
      settled-IsStep promise q (failed error) q.values refl
        (idle.closed_idle (idle.failed_closed error with_error)) idle
  next_empty-IsStep promise q none empty no_error idle =
      if_cases (IsStep (asks promise) q) q.closed _ _
        (λ shut. settled-IsStep promise q done q.values refl (idle.closed_idle shut) idle)
        (λ unclosed. record {
          values = sym (append-nil q.values);
          waiters = refl;
          idle = record {
            no_wait = inl empty;
            closed_idle = λ shut. absurd (ground (arith, unclosed, shut));
            failed_closed = idle.failed_closed;
          };
        })

  next_of-IsStep :
      (promise : ℕ) (q : AsyncEventQueue A) (vs : List A)
      → q.values ≡ vs
      → IsIdle q
      → IsStep (asks promise) q (next_of promise q vs)
  next_of-IsStep promise q [] same idle =
      next_empty-IsStep promise q q.terminal_error same refl idle
  next_of-IsStep promise q (v ∷ vs) same idle =
      settled-IsStep promise q (got v) vs (sym same) (nobody v vs idle same) idle

  call-IsStep : (c : Call A) (q : AsyncEventQueue A) → IsIdle q → IsStep c q (call c q)
  unfolding next
  call-IsStep (pushes v) q idle = push-IsStep v q idle
  call-IsStep (fails error) q idle = fail-IsStep error q idle
  call-IsStep ends q idle = end-IsStep q idle
  call-IsStep (asks promise) q idle = next_of-IsStep promise q q.values refl idle

  step-IsOrdered : (c : Call A) (t : Trace A) → IsOrdered t → IsOrdered (step c t)
  step-IsOrdered c t ordered =
      let after = call c t.queue in
      let one = call-IsStep c t.queue ordered.idle in
      record {
        in_order =
            ap (λ l. l ++ after.0.values) (delivered-append t.settled after.1)
            ∙ append_assoc (delivered t.settled) (delivered after.1) after.0.values
            ∙ ap (λ l. delivered t.settled ++ l) one.values
            ∙ sym (append_assoc (delivered t.settled) t.queue.values (new_values c t.queue.closed))
            ∙ ap (λ l. l ++ new_values c t.queue.closed) ordered.in_order;
        each_once =
            ap (λ l. l ++ after.0.waiters) (promises-append t.settled after.1)
            ∙ append_assoc (promises t.settled) (promises after.1) after.0.waiters
            ∙ ap (λ l. promises t.settled ++ l) one.waiters
            ∙ sym (append_assoc (promises t.settled) t.queue.waiters (new_promises c))
            ∙ ap (λ l. l ++ new_promises c) ordered.each_once;
        idle = one.idle;
      }

  steps-kept : (cs : List (Call A)) (t : Trace A) → IsOrdered t → IsOrdered (steps cs t)
  steps-kept [] t ordered = ordered
  steps-kept (c ∷ cs) t ordered = steps-kept cs (step c t) (step-IsOrdered c t ordered)

  -- Over any calls of a new queue, values are delivered once and in the order in which they were
  -- pushed: those delivered, followed by those still kept, are those pushed before the queue was
  -- closed. Promises are settled once and in the order in which they were asked for: those settled,
  -- followed by those that wait, are those asked for. Nobody waits while values are kept, nor after
  -- the queue was closed, and a queue that has failed is closed.
  pub steps-IsOrdered : (cs : List (Call A)) → IsOrdered (steps cs start)
  steps-IsOrdered cs = steps-kept cs start (record {
    in_order = refl;
    each_once = refl;
    idle = record {
      no_wait = inl refl;
      closed_idle = λ h. refl;
      failed_closed = λ e h. absurd (ground arith);
    };
  })
