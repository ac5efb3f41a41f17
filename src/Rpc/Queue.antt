-- ===== src/Rpc/Queue.antt =====
-- packages/provider-pi/src/rpc-client.ts: `AsyncEventQueue`. The promise that a call of `next` returns
-- is a number, and an operation says which promises it settles, and how.
use ai_smart_flow.Shared.{
  ℕ, Bool, true, false, String, List, [], ◌∷◌, ◌++◌, Option, none, some, if◌then◌else◌,
}

pub data Answer {ℓ} (A : Type ℓ) : Type ℓ where
  got : A → Answer A
  failed : String → Answer A
  done : Answer A

pub record AsyncEventQueue {ℓ} (A : Type ℓ) : Type ℓ where
  pub values : List A
  pub waiters : List ℕ
  pub terminal_error : Option String
  pub closed : Bool

abbrev pub Settled {ℓ} : Type ℓ → Type ℓ
Settled A = List (ℕ × Answer A)

-- A call of the queue; `asks` is one of `next`.
pub data Call {ℓ} (A : Type ℓ) : Type ℓ where
  pushes : A → Call A
  fails : String → Call A
  ends : Call A
  asks : ℕ → Call A

module _ {ℓ} {A : Type ℓ} where
  abbrev pub empty_queue : AsyncEventQueue A
  empty_queue = record { values = []; waiters = []; terminal_error = none; closed = false }

  abbrev pub push_open : A → AsyncEventQueue A → List ℕ → AsyncEventQueue A × Settled A
  push_open value q [] = (record q { values = q.values ++ value ∷ [] }, [])
  push_open value q (waiter ∷ waiters) = (record q { waiters = waiters }, (waiter, got value) ∷ [])

  -- `push`
  unfoldable pub push : A → AsyncEventQueue A → AsyncEventQueue A × Settled A
  push value q = if q.closed then (q, []) else push_open value q q.waiters

  abbrev pub all_with : Answer A → List ℕ → Settled A
  all_with answer [] = []
  all_with answer (waiter ∷ waiters) = (waiter, answer) ∷ all_with answer waiters

  -- `fail`
  unfoldable pub fail : String → AsyncEventQueue A → AsyncEventQueue A × Settled A
  fail error q = if q.closed then (q, []) else (
    record q { closed = true; terminal_error = some error; waiters = [] },
    all_with (failed error) q.waiters,
  )

  -- `end`
  unfoldable pub end : AsyncEventQueue A → AsyncEventQueue A × Settled A
  end q =
      if q.closed
      then (q, [])
      else (record q { closed = true; waiters = [] }, all_with done q.waiters)

  abbrev pub next_empty : ℕ → AsyncEventQueue A → Option String → AsyncEventQueue A × Settled A
  next_empty promise q (some error) = (q, (promise, failed error) ∷ [])
  next_empty promise q none =
      if q.closed
      then (q, (promise, done) ∷ [])
      else (record q { waiters = q.waiters ++ promise ∷ [] }, [])

  abbrev pub next_of : ℕ → AsyncEventQueue A → List A → AsyncEventQueue A × Settled A
  next_of promise q (value ∷ values) = (record q { values = values }, (promise, got value) ∷ [])
  next_of promise q [] = next_empty promise q q.terminal_error

  -- `next`
  unfoldable pub next : ℕ → AsyncEventQueue A → AsyncEventQueue A × Settled A
  next promise q = next_of promise q q.values

  abbrev pub call : Call A → AsyncEventQueue A → AsyncEventQueue A × Settled A
  call (pushes value) q = push value q
  call (fails error) q = fail error q
  call ends q = end q
  call (asks promise) q = next promise q
