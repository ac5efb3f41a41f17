-- ===== src/Timer/Expiry.antt =====
-- When the callback of a rolling deadline timer is called.
use ai_smart_flow.Shared.{
  ℕ, ◌≡◌, ◌+◌, refl, sym, true, false, List, [], ◌∷◌, Option, none, some, arith, inl, inr,
  Bool-cases, if◌then◌else◌,
}
use ai_smart_flow.Timer.Deadline.{
  RollingDeadlineTimer, is_past, expire, arm, new_timer, renew, stop, Event, renewed, stopped,
  fired, fire, react, history,
}

-- A timer that is running has not called back, one that is not has no timeout, and the callback was
-- called once if the timer has expired and never otherwise.
pub record IsSound (t : RollingDeadlineTimer) : Type 0 where
  pub running : t.active ≡ true → t.expired ≡ false
  pub idle : t.active ≡ false → t.timer ≡ none
  pub once : t.calls ≡ (if t.expired then 1 else 0)

expire-IsSound :
    (t : RollingDeadlineTimer)
    → (t.active ≡ true → t.expired ≡ false)
    → (t.calls ≡ (if t.expired then 1 else 0))
    → IsSound (expire (record t { timer = none }))
unfolding expire
expire-IsSound t running once = elim (Bool-cases t.active) [
  | inl on ↦
      simp on
        (record { running = λ h. cc; idle = λ h. refl; once = ground (arith, running on, once) })
  | inr off ↦ simp off (record { running = λ h. cc; idle = λ h. refl; once = once })
]

expired-IsSound : (t : RollingDeadlineTimer) → IsSound t → IsSound (expire t)
unfolding expire
expired-IsSound t s = elim (Bool-cases t.active) [
  | inl on ↦
      simp on (record {
        running = λ h. cc;
        idle = λ h. refl;
        once = ground (arith, s.running on, s.once);
      })
  | inr off ↦ simp off s
]

arm-IsSound :
    (clock : ℕ → ℕ) (deadline : Option ℕ) (t : RollingDeadlineTimer)
    → t.active ≡ true
    → t.expired ≡ false
    → t.calls ≡ 0
    → IsSound (arm clock deadline t)
unfolding arm
arm-IsSound clock deadline t on fresh none_yet = elim (Bool-cases (is_past deadline (clock 0))) [
  | inl past ↦
      simp past
        (expire-IsSound (record t { deadline = deadline }) (λ h. fresh) (simp (fresh, none_yet)))
  | inr ahead ↦
      simp ahead (record { running = λ h. fresh; idle = λ h. cc; once = simp (fresh, none_yet) })
]

never_called : (t : RollingDeadlineTimer) → IsSound t → t.active ≡ true → t.calls ≡ 0
never_called t s on = ground (arith, s.running on, s.once)

renew-IsSound :
    (clock : ℕ → ℕ) (deadline : Option ℕ) (t : RollingDeadlineTimer)
    → IsSound t
    → IsSound (renew clock deadline t).1
unfolding renew
renew-IsSound clock deadline t s = elim (Bool-cases t.active) [
  | inr off ↦ simp off s
  | inl on ↦ elim (Bool-cases (is_past t.deadline (clock 0))) [
    | inl past ↦ simp (on, past) (expired-IsSound t s)
    | inr ahead ↦ elim (Bool-cases (is_past deadline (clock 1))) [
      | inl late ↦ simp (on, ahead, late) s
      | inr good ↦
          simp (on, ahead, good)
            (arm-IsSound (λ i. clock (2 + i)) deadline t on (s.running on) (never_called t s on))
    ]
  ]
]

stop-IsSound : (clock : ℕ → ℕ) (t : RollingDeadlineTimer) → IsSound t → IsSound (stop clock t).1
unfolding stop
stop-IsSound clock t s = elim (Bool-cases t.active) [
  | inr off ↦ simp off s
  | inl on ↦ elim (Bool-cases (is_past t.deadline (clock 0))) [
    | inl past ↦ simp (on, past) (expired-IsSound t s)
    | inr ahead ↦ simp (on, ahead) (record { running = λ h. cc; idle = λ h. refl; once = s.once })
  ]
]

renew_idle :
    (clock : ℕ → ℕ) (deadline : Option ℕ) (t : RollingDeadlineTimer)
    → t.active ≡ false
    → (renew clock deadline t).1 ≡ t
unfolding renew
renew_idle clock deadline t off = simp off refl

stop_idle : (clock : ℕ → ℕ) (t : RollingDeadlineTimer) → t.active ≡ false → (stop clock t).1 ≡ t
unfolding stop
stop_idle clock t off = simp off refl

stop_off : (clock : ℕ → ℕ) (t : RollingDeadlineTimer) → IsSound t → (stop clock t).1.active ≡ false
unfolding stop expire
stop_off clock t s = elim (Bool-cases t.active) [
  | inr off ↦ simp off refl
  | inl on ↦ elim (Bool-cases (is_past t.deadline (clock 0))) [
    | inl past ↦ simp (on, past) refl
    | inr ahead ↦ simp (on, ahead) refl
  ]
]

stop_answer :
    (clock : ℕ → ℕ) (t : RollingDeadlineTimer)
    → IsSound t
    → (stop clock t).0 ≡ (stop clock t).1.expired
unfolding stop expire
stop_answer clock t s = elim (Bool-cases t.active) [
  | inr off ↦ simp off refl
  | inl on ↦ elim (Bool-cases (is_past t.deadline (clock 0))) [
    | inl past ↦ simp (on, past) refl
    | inr ahead ↦ simp (on, ahead) (sym (s.running on))
  ]
]

react-IsSound : (e : Event) (t : RollingDeadlineTimer) → IsSound t → IsSound (react e t)
react-IsSound (renewed clock deadline) t s = renew-IsSound clock deadline t s
react-IsSound (stopped clock) t s = stop-IsSound clock t s
react-IsSound fired t s = fire-IsSound t.timer
  where
    fire-IsSound : (timer : Option ℕ) → IsSound (fire t timer)
    fire-IsSound none = s
    fire-IsSound (some instant) = expired-IsSound t s

events-IsSound : (es : List Event) (t : RollingDeadlineTimer) → IsSound t → IsSound (history es t)
unfolding history
events-IsSound [] t s = s
events-IsSound (e ∷ es) t s = events-IsSound es (react e t) (react-IsSound e t s)

-- Whatever calls and timeouts a new timer goes through, its callback has been called once if the timer
-- has expired and never otherwise, and only a running timer has a timeout.
pub history-IsSound :
    (clock : ℕ → ℕ) (initial : Option ℕ) (es : List Event)
    → IsSound (history es (new_timer clock initial))
unfolding new_timer
history-IsSound clock initial es = events-IsSound es _ (arm-IsSound clock initial _ refl refl refl)

idle_still :
    (es : List Event) (t : RollingDeadlineTimer) → IsSound t → t.active ≡ false → history es t ≡ t
unfolding history
idle_still [] t s off = refl
idle_still (renewed clock deadline ∷ es) t s off =
    rw (renew_idle clock deadline t off) (idle_still es t s off)
idle_still (stopped clock ∷ es) t s off = rw (stop_idle clock t off) (idle_still es t s off)
idle_still (fired ∷ es) t s off = simp (s.idle off) (idle_still es t s off)

-- Once `stop` has been called, nothing that follows calls the callback or changes the timer, and the
-- answer of `stop` says whether the callback has been called.
pub stop_final :
    (clock clock' : ℕ → ℕ) (initial : Option ℕ) (es later : List Event)
    → let t = stop clock (history es (new_timer clock' initial)) in
      (history later t.1 ≡ t.1) × (t.1.calls ≡ (if t.0 then 1 else 0))
stop_final clock clock' initial es later =
    let t = history es (new_timer clock' initial) in
    let s = history-IsSound clock' initial es in
    let after = stop-IsSound clock t s in
    (
      idle_still later (stop clock t).1 after (stop_off clock t s),
      rw (stop_answer clock t s) after.once,
    )
