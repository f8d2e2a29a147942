-- ===== src/Timer/Timeout.antt =====
-- src/event/timer.c, `timer_next_timeout_ms`: how long the event loop may sleep.
use sharegres.Base.{
  ◌<◌, ◌+◌, ◌*◌, ℕ, ◌≤◌, ◌≡◌, ◌⊎◌, refl, ap, sym, zero, suc, subst, inl, inr, arith, Bool,
  Bool-cases, true, false, List, [], ◌∷◌, All, ◌&&◌, if◌then◌else◌, ltb,
}
use sharegres.Timer.Clock.{nanoseconds, millisecond, IsNormal, timespec_diff_ms-near}
use sharegres.Timer.Fire.{is_due-soon}
use sharegres.Base.Int.{pos_part, neg_part, ℤ, pos, negsuc, ◌≤ℤ◌, leb_ℤ}
use sharegres.Timer.{
  Timespec, Timer, TimerQueue, timespec_diff_ms, is_due, narrow, min_timeout, next_timeout_ms,
}

-- A sleep of `ms` does not go past the next time of an active timer.
abbrev pub InTime : Timespec → ℕ → Timer → Type 0
InTime now ms t = t.active ≡ true → (ms ≡ 0) ⊎ (pos ms ≤ℤ timespec_diff_ms t.next_fire now)

-- Some active timer is the reason for a sleep of `ms`.
abbrev pub Reason : Timespec → ℕ → List Timer → Type 0
Reason now ms [] = ⊥
Reason now ms (t ∷ ts) =
    ((t.active ≡ true)
      × (((is_due now t ≡ true) × (ms ≡ 0)) ⊎ (pos ms ≡ timespec_diff_ms t.next_fire now)))
    ⊎ Reason now ms ts

abbrev Sleep : Timespec → ℕ → List Timer → ℕ → Type 0
Sleep now min_ms ts ms = (ms ≤ min_ms) × All (InTime now ms) ts × ((ms ≡ min_ms) ⊎ Reason now ms ts)

-- The sleep that a timer leaves, from the sleep `ms` of the timers behind it.
abbrev slept : Bool → ℤ → ℕ → ℕ
slept active diff ms = if active && leb_ℤ diff (pos 0) then 0 else ms

slept-InTime :
    (active : Bool) (diff : ℤ) (min_ms ms : ℕ)
    → ms ≤ narrow min_ms diff active
    → (slept active diff ms ≤ min_ms)
      × (active ≡ true → (slept active diff ms ≡ 0) ⊎ (pos (slept active diff ms) ≤ℤ diff))
slept-InTime false diff min_ms ms h = (h, λ e. cc)
slept-InTime true (pos zero) min_ms ms h = (omega arith, λ e. inl refl)
slept-InTime true (pos (suc n)) min_ms ms h = (ground arith, λ e. inr (ground arith))
slept-InTime true (negsuc n) min_ms ms h = (ground arith, λ e. inl (ground arith))

-- Either the timer is due, or the sleep is that of the timers behind it.
slept-cases :
    (active : Bool) (diff : ℤ) (min_ms ms : ℕ)
    → ((active ≡ true) × (leb_ℤ diff (pos 0) ≡ true) × (slept active diff ms ≡ 0))
      ⊎ ((slept active diff ms ≡ ms)
          × (ms ≡ narrow min_ms diff active → (ms ≡ min_ms) ⊎ ((active ≡ true) × (pos ms ≡ diff))))
slept-cases false diff min_ms ms = inr (refl, λ e. inl e)
slept-cases true (pos zero) min_ms ms = inl (refl, refl, refl)
slept-cases true (pos (suc n)) min_ms ms = inr (
  ground arith,
  elim (Bool-cases (ltb (suc n) min_ms)) [
    | inl less ↦ λ e. inr (refl, ap pos (ground arith))
    | inr more ↦ λ e. inl (ground arith)
  ],
)
slept-cases true (negsuc n) min_ms ms = inl (refl, ground arith, ground arith)

InTime-zero : (now : Timespec) (ts : List Timer) → All (InTime now 0) ts
InTime-zero now [] = tt
InTime-zero now (t ∷ ts) = ((λ e. inl refl), InTime-zero now ts)

-- What one timer does to the sleep, from what the timers behind it do.
Sleep-cons :
    (now : Timespec) (min_ms : ℕ) (t : Timer) (ts : List Timer) (ms : ℕ)
    → Sleep now (narrow min_ms (timespec_diff_ms t.next_fire now) t.active) ts ms
    → Sleep now min_ms (t ∷ ts) (slept t.active (timespec_diff_ms t.next_fire now) ms)
Sleep-cons now min_ms t ts ms (bound, in_time, reason) =
    let diff = timespec_diff_ms t.next_fire now in
    let (below, first) = slept-InTime t.active diff min_ms ms bound in
    elim (slept-cases t.active diff min_ms ms) [
      | inl (on, due, none_left) ↦ (
        below,
        (first, subst (λ r. All (InTime now r) ts) (sym none_left) (InTime-zero now ts)),
        inr (inl (on, inl (due, none_left))),
      )
      | inr (same, why) ↦ (
        below,
        (first, subst (λ r. All (InTime now r) ts) (sym same) in_time),
        subst (λ r. (r ≡ min_ms) ⊎ Reason now r (t ∷ ts)) (sym same)
            (elim reason [
              | inl narrowed ↦ elim (why narrowed) [
                | inl e ↦ inl e
                | inr (on, e) ↦ inr (inl (on, inr e))
              ]
              | inr behind ↦ inr (inr behind)
            ]),
      )
    ]

min_timeout-Sleep :
    (now : Timespec) (min_ms : ℕ) (ts : List Timer)
    → Sleep now min_ms ts (min_timeout min_ms now ts)
unfolding min_timeout
min_timeout-Sleep now min_ms [] = (omega arith, tt, inl refl)
min_timeout-Sleep now min_ms (t ∷ ts) =
    Sleep-cons now min_ms t ts _
      (min_timeout-Sleep now (narrow min_ms (timespec_diff_ms t.next_fire now) t.active) ts)

-- A sleep of `ms` is no sleep, or ends less than a millisecond past the time of an active timer.
abbrev pub Wakes : Timespec → ℕ → Timer → Type 0
Wakes now ms t =
    t.active ≡ true
    → (ms ≡ 0) ⊎ (nanoseconds now + ms * millisecond < nanoseconds t.next_fire + millisecond)

-- Some active timer's time comes less than a millisecond past the end of a sleep of `ms`.
abbrev pub Awaited : Timespec → ℕ → List Timer → Type 0
Awaited now ms [] = ⊥
Awaited now ms (t ∷ ts) =
    ((t.active ≡ true)
      × (nanoseconds t.next_fire < nanoseconds now + ms * millisecond + millisecond))
    ⊎ Awaited now ms ts

InTime-Wakes :
    (now : Timespec) (ms : ℕ) (ts : List Timer)
    → IsNormal now
    → All (λ t. IsNormal t.next_fire) ts
    → All (InTime now ms) ts
    → All (Wakes now ms) ts
InTime-Wakes now ms [] n h i = tt
InTime-Wakes now ms (t ∷ ts) n (h, hs) (i, is) =
    let near = timespec_diff_ms-near t.next_fire now h n in
    (
      λ on. elim (i on) [ inl zero_ms ↦ inl zero_ms | inr within ↦ inr (ground arith) ],
      InTime-Wakes now ms ts n hs is,
    )

Reason-Awaited :
    (now : Timespec) (ms : ℕ) (ts : List Timer)
    → IsNormal now
    → All (λ t. IsNormal t.next_fire) ts
    → Reason now ms ts
    → Awaited now ms ts
Reason-Awaited now ms [] n h why = why
Reason-Awaited now ms (t ∷ ts) n (h, hs) (inr why) = inr (Reason-Awaited now ms ts n hs why)
Reason-Awaited now ms (t ∷ ts) n (h, hs) (inl (on, inl (due, none_left))) =
    let soon = is_due-soon now t n h due in inl (on, omega (arith, soon, none_left))
Reason-Awaited now ms (t ∷ ts) n (h, hs) (inl (on, inr exact)) =
    let near = timespec_diff_ms-near t.next_fire now h n in
    let whole : pos_part (timespec_diff_ms t.next_fire now) ≡ ms = sym (ap pos_part exact) in
    let no_part : neg_part (timespec_diff_ms t.next_fire now) ≡ 0 = sym (ap neg_part exact) in
    inl (on, omega (arith, near, whole, no_part))

module _ (World : Type 0) (clock_gettime : World → Timespec × World) (run : ℕ → World → World) where
  next_timeout : List Timer → World → ℕ
  next_timeout ts w = (next_timeout_ms World clock_gettime run (record { timers = ts }) w).0

  next_timeout-Sleep :
      (ts : List Timer) (w : World) → Sleep (clock_gettime w).0 1000 ts (next_timeout ts w)
  unfolding next_timeout_ms next_timeout
  next_timeout-Sleep [] w = (omega arith, tt, inl refl)
  next_timeout-Sleep (t ∷ ts) w = min_timeout-Sleep (clock_gettime w).0 1000 (t ∷ ts)

  -- The sleep of the event loop, by the clock that it reads, where the times of that reading and of the
  -- timers have less than a second of nanoseconds. It is at most a second. It ends less than a
  -- millisecond past the time of any active timer, and is 0 if that has come. A sleep of less than a
  -- second has a reason: the time of some active timer comes less than a millisecond past its end.
  pub next_timeout_ms-Sleep :
      (tq : TimerQueue) (w : World)
      → let now = (clock_gettime w).0 in
        IsNormal now
        → All (λ t. IsNormal t.next_fire) tq.timers
        → let ms = (next_timeout_ms World clock_gettime run tq w).0 in
          (ms ≤ 1000) × All (Wakes now ms) tq.timers × ((ms ≡ 1000) ⊎ Awaited now ms tq.timers)
  unfolding next_timeout
  next_timeout_ms-Sleep tq w n h =
      let now = (clock_gettime w).0 in
      let (bound, in_time, reason) = next_timeout-Sleep tq.timers w in
      (
        bound,
        InTime-Wakes now (next_timeout tq.timers w) tq.timers n h in_time,
        elim reason [
          | inl second_long ↦ inl second_long
          | inr why ↦ inr (Reason-Awaited now (next_timeout tq.timers w) tq.timers n h why)
        ],
      )
