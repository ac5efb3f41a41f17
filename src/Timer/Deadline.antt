-- ===== src/Timer/Deadline.antt =====
-- The operations of `RollingDeadlineTimer`. A deadline is `none` where it is not a finite number. A
-- call reads the clock several times: `clock i` is its i-th reading. `timer` is the instant for which
-- the timeout is armed, and `calls` counts the calls of `onDeadline`.
use ai_smart_flow.Shared.{
  ℕ, ◌+◌, ◌-◌, Bool, true, false, List, [], ◌∷◌, Option, none, some, not, leb, if◌then◌else◌,
}

pub record RollingDeadlineTimer : Type 0 where
  pub active : Bool
  pub deadline : Option ℕ
  pub expired : Bool
  pub timer : Option ℕ
  pub calls : ℕ

-- `!Number.isFinite(deadline) || deadline <= Date.now()`
abbrev pub is_past : Option ℕ → ℕ → Bool
is_past none now = true
is_past (some deadline) now = leb deadline now

unfoldable pub expire : RollingDeadlineTimer → RollingDeadlineTimer
expire t =
    if t.active
    then record t { active = false; expired = true; timer = none; calls = t.calls + 1 }
    else t

-- `now + Math.max(1, deadline - now)`; the deadline is finite where it is used.
abbrev pub wakes_at : Option ℕ → ℕ → Option ℕ
wakes_at none now = none
wakes_at (some deadline) now = some (now + (if leb 1 (deadline - now) then deadline - now else 1))

unfoldable pub arm : (ℕ → ℕ) → Option ℕ → RollingDeadlineTimer → RollingDeadlineTimer
arm clock deadline t =
    if is_past deadline (clock 0)
    then expire (record t { deadline = deadline; timer = none })
    else record t { deadline = deadline; timer = wakes_at deadline (clock 1) }

-- The constructor.
unfoldable pub new_timer : (ℕ → ℕ) → Option ℕ → RollingDeadlineTimer
new_timer clock initial_deadline = arm clock initial_deadline (record {
  active = true;
  deadline = initial_deadline;
  expired = false;
  timer = none;
  calls = 0;
})

unfoldable pub renew : (ℕ → ℕ) → Option ℕ → RollingDeadlineTimer → Bool × RollingDeadlineTimer
renew clock deadline t =
    if not t.active
    then (false, t)
    else if is_past t.deadline (clock 0)
    then (false, expire t)
    else if is_past deadline (clock 1)
    then (false, t)
    else (true, arm (λ i. clock (2 + i)) deadline t)

unfoldable pub stop : (ℕ → ℕ) → RollingDeadlineTimer → Bool × RollingDeadlineTimer
stop clock t =
    if not t.active
    then (t.expired, t)
    else if is_past t.deadline (clock 0)
    then (true, expire t)
    else (false, record t { active = false; timer = none })

-- What happens to a timer: its methods are called, or an armed timeout fires.
pub data Event : Type 0 where
  renewed : (ℕ → ℕ) → Option ℕ → Event
  stopped : (ℕ → ℕ) → Event
  fired : Event

abbrev pub fire : RollingDeadlineTimer → Option ℕ → RollingDeadlineTimer
fire t none = t
fire t (some instant) = expire t

abbrev pub react : Event → RollingDeadlineTimer → RollingDeadlineTimer
react (renewed clock deadline) t = (renew clock deadline t).1
react (stopped clock) t = (stop clock t).1
react fired t = fire t t.timer

unfoldable pub history : List Event → RollingDeadlineTimer → RollingDeadlineTimer
history [] t = t
history (e ∷ es) t = history es (react e t)
