-- ===== src/Timer/Fire.antt =====
-- src/event/timer.c, `timer_process_expired`, `timer_add` and `timer_remove`: which callbacks run.
use sharegres.Base.{
  All, ◌⊎◌, ◌+◌, ◌*◌, ℕ, ◌<◌, ◌≡◌, refl, inl, inr, arith, Bool-cases, true, false, List, [], ◌∷◌,
  ◌++◌, ◌&&◌, if◌then◌else◌, some, length, leb,
}
use sharegres.Base.Int.{pos}
use sharegres.Timer.Clock.{
  nanoseconds, millisecond, IsNormal, timespec_add_ms-later, timespec_diff_ms-near,
}
use sharegres.Timer.{
  Timespec, Timer, TimerQueue, timespec_add_ms, is_due, fire, fire_expired, process_expired, add,
  remove, deactivate, max_timers,
}

-- The callbacks of the active timers that are due, in the order of the queue.
abbrev pub due_callbacks : Timespec → List Timer → List ℕ
due_callbacks now [] = []
due_callbacks now (t ∷ ts) =
    if t.active && is_due now t then t.callback ∷ due_callbacks now ts else due_callbacks now ts

-- A removed timer does not run, and the others run as before.
due_callbacks-deactivate :
    (now : Timespec) (ts : List Timer) (t : Timer)
    → due_callbacks now (deactivate (ts ++ t ∷ []) (length ts)) ≡ due_callbacks now ts
unfolding deactivate
due_callbacks-deactivate now [] t = refl
due_callbacks-deactivate now (u ∷ us) t = rw (due_callbacks-deactivate now us t)

pub is_due-soon :
    (now : Timespec) (t : Timer)
    → IsNormal now
    → IsNormal t.next_fire
    → is_due now t ≡ true
    → nanoseconds t.next_fire < nanoseconds now + millisecond
is_due-soon now t n h due = let near = timespec_diff_ms-near t.next_fire now h n in ground arith

not_due-later :
    (now : Timespec) (t : Timer)
    → IsNormal now
    → IsNormal t.next_fire
    → (t.active && is_due now t) ≡ false
    → (t.active ≡ false) ⊎ (nanoseconds now < nanoseconds t.next_fire)
not_due-later now t n h idle = elim (Bool-cases t.active) [
  | inr off ↦ inl off
  | inl on ↦ let near = timespec_diff_ms-near t.next_fire now h n in inr (ground arith)
]

module _ (World : Type 0) (clock_gettime : World → Timespec × World) (run : ℕ → World → World) where
  -- The timers of the queue one after the other, with the world as the callbacks leave it. A timer stays
  -- as it is if it is inactive or its time has not come. A timer fires if it is active and its time
  -- comes in less than a millisecond: its callback runs, then the clock is read, and its next time is
  -- later than that by its interval.
  pub data Fired (now : Timespec) : List Timer → List Timer → World → World → Type 0 where
    none_left : {w : World} → Fired now [] [] w w
    stays :
        {t : Timer} {ts ts' : List Timer} {w w' : World}
        → (t.active ≡ false) ⊎ (nanoseconds now < nanoseconds t.next_fire)
        → Fired now ts ts' w w'
        → Fired now (t ∷ ts) (t ∷ ts') w w'
    fires :
        {t : Timer} {ts ts' : List Timer} {w w' : World} {next : Timespec}
        → t.active ≡ true
        → nanoseconds t.next_fire < nanoseconds now + millisecond
        → IsNormal next
        → nanoseconds next
          ≡ nanoseconds (clock_gettime (run t.callback w)).0 + t.interval_ms * millisecond
        → Fired now ts ts' (clock_gettime (run t.callback w)).1 w'
        → Fired now (t ∷ ts) (record t { next_fire = next } ∷ ts') w w'

  fire_expired-Fired :
      (now : Timespec) (ts : List Timer) (w : World)
      → IsNormal now
      → All (λ t. IsNormal t.next_fire) ts
      → let (ts', w') = fire_expired World clock_gettime run now ts w in Fired now ts ts' w w'
  unfolding fire_expired fire
  fire_expired-Fired now [] w n h = none_left
  fire_expired-Fired now (t ∷ ts) w n (h, hs) = elim (Bool-cases (t.active && is_due now t)) [
    | inl due ↦
        let w₁ = (clock_gettime (run t.callback w)).1 in
        let (normal, later) =
          timespec_add_ms-later (clock_gettime (run t.callback w)).0 t.interval_ms in
        rw (due, fire_expired)
          (fires (ground arith) (is_due-soon now t n h (ground arith)) normal later
            (fire_expired-Fired now ts w₁ n hs))
    | inr idle ↦
        rw (idle, fire_expired)
          (stays (not_due-later now t n h idle) (fire_expired-Fired now ts w n hs))
  ]

  -- `timer_process_expired`, by the clock that it reads first, where the times of that reading and of the
  -- timers have less than a second of nanoseconds: every active timer whose time has come fires, no
  -- timer fires a millisecond early or more, and an inactive one does not fire. The callbacks run once
  -- each, in the order of the queue. A timer that has fired is set to its interval behind the reading of
  -- the clock that follows its callback; all others stay as they are.
  pub process_expired-Fired :
      (tq : TimerQueue) (w : World)
      → let (now, w₀) = clock_gettime w in
        IsNormal now
        → All (λ t. IsNormal t.next_fire) tq.timers
        → let (tq', w') = process_expired World clock_gettime run tq w in
          Fired now tq.timers tq'.timers w₀ w'
  unfolding process_expired
  process_expired-Fired tq w = fire_expired-Fired (clock_gettime w).0 tq.timers (clock_gettime w).1

  -- A queue with less than 32 timers takes a new one, with the number of timers as its id and the timers
  -- before it unchanged. When it is removed by that id, the callbacks that are due at any time are again
  -- those of the queue before.
  pub add-remove :
      (tq : TimerQueue) (interval_ms cb : ℕ) (w : World) (now : Timespec)
      → length tq.timers < max_timers
      → let (id, tq', w') = add World clock_gettime run tq interval_ms cb w in
        (id ≡ some (length tq.timers))
        × ((t : Timer) × (tq'.timers ≡ tq.timers ++ t ∷ []) × (t.callback ≡ cb) × (t.active ≡ true))
        × (due_callbacks now (remove tq' (pos (length tq.timers))).timers
            ≡ due_callbacks now tq.timers)
  unfolding add remove
  add-remove tq interval_ms cb w now h =
      let room : leb max_timers (length tq.timers) ≡ false = ground arith in
      rw room (
        refl,
        (
          record {
            interval_ms = interval_ms;
            callback = cb;
            next_fire = timespec_add_ms (clock_gettime w).0 interval_ms;
            active = true;
          },
          refl,
          refl,
          refl,
        ),
        due_callbacks-deactivate now tq.timers _,
      )
