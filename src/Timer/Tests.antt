-- ===== src/Timer/Tests.antt =====
-- Timers over a clock that is a number of milliseconds; a callback takes as many as its number says.
use sharegres.Base.{arith, ℕ, ◌+◌, ◌*◌, ◌/◌, ◌%◌, ◌≤◌, ◌<◌, ◌≡◌, ◌⊎◌, refl, true, [], ◌∷◌, All}
use sharegres.Timer.Clock.{timespec_add_ms-later, nanoseconds}
use sharegres.Timer.Fire.{process_expired-Fired, Fired}
use sharegres.Timer.Timeout.{next_timeout_ms-Sleep, Wakes, Awaited}
use sharegres.Timer.{
  Timespec, Timer, TimerQueue, timespec_add_ms, second, next_timeout_ms, process_expired,
}

abbrev at_ms : ℕ → Timespec
at_ms n = record { sec = n / 1000; nsec = (n % 1000) * 1000000 }

abbrev read : ℕ → Timespec × ℕ
read n = (at_ms n, n)

abbrev run : ℕ → ℕ → ℕ
run cb n = n + cb

abbrev early : Timer
early = record { interval_ms = 500; callback = 3; next_fire = at_ms 1200; active = true }

abbrev late : Timer
late = record { interval_ms = 500; callback = 4; next_fire = at_ms 2900; active = true }

abbrev queue : TimerQueue
queue = record { timers = early ∷ late ∷ [] }

timespec_add_ms-later_example :
    ((timespec_add_ms (at_ms 1999) 2500).nsec < second)
    × (nanoseconds (timespec_add_ms (at_ms 1999) 2500) ≡ nanoseconds (at_ms 1999) + 2500 * 1000000)
timespec_add_ms-later_example = timespec_add_ms-later (at_ms 1999) 2500

sleep_of_queue : next_timeout_ms ℕ read run queue 1100 ≡ (100, 1100)
unfolding next_timeout_ms
sleep_of_queue = refl

next_timeout_ms-Sleep_example :
    let now = (read 1100).0 in
    let ms = (next_timeout_ms ℕ read run queue 1100).0 in
    (ms ≤ 1000) × All (Wakes now ms) queue.timers × ((ms ≡ 1000) ⊎ Awaited now ms queue.timers)
next_timeout_ms-Sleep_example =
    next_timeout_ms-Sleep ℕ read run queue 1100 (omega arith) (omega arith, (omega arith, tt))

process_expired-Fired_example :
    let (now, w₀) = read 1200 in
    let (tq', w') = process_expired ℕ read run queue 1200 in
    Fired ℕ read run now queue.timers tq'.timers w₀ w'
process_expired-Fired_example =
    process_expired-Fired ℕ read run queue 1200 (omega arith) (omega arith, (omega arith, tt))
