-- ===== src/Timer.antt =====
-- src/event/timer.c and timer.h: repeating timers over the monotonic clock. `timers` is the used part
-- of the array, so `count` is its length. A callback with its data is a number, and `run` is what it
-- does to the world; the callback of the program, a health check, does not touch the queue. Intervals
-- are not negative. A product of an `int` with a million and a nanosecond count fit a `long`.
pub mod Clock
pub mod Timeout
pub mod Fire
pub mod Tests
use sharegres.Base.{
  ℕ, zero, suc, ◌+◌, ◌-◌, ◌*◌, ◌/◌, Bool, true, false, List, [], ◌∷◌, ◌++◌, Option, none, some,
  length, leb, if◌then◌else◌, ◌&&◌,
}
use sharegres.Base.Int.{ℤ, pos, negsuc, ◌+ℤ◌, pos_part, sub_ℕ, leb_ℤ, ltb_ℤ}

pub record Timespec : Type 0 where
  pub sec : ℕ
  pub nsec : ℕ

pub record Timer : Type 0 where
  pub interval_ms : ℕ
  pub callback : ℕ
  pub next_fire : Timespec
  pub active : Bool

pub record TimerQueue : Type 0 where
  pub timers : List Timer

abbrev pub max_timers : ℕ
max_timers = 32

abbrev pub second : ℕ
second = 1000000000

-- `while (ts->tv_nsec >= 1000000000L)`. A round takes a second off.
unfoldable pub carry : ℕ → Timespec → Timespec
carry zero ts = ts
carry (suc fuel) ts =
    let rest = carry fuel (record { sec = ts.sec + 1; nsec = ts.nsec - second }) in
    if leb second ts.nsec then rest else ts

unfoldable pub timespec_add_ms : Timespec → ℕ → Timespec
unfolding carry
timespec_add_ms ts ms = let nsec = ts.nsec + ms * 1000000 in carry nsec (record ts { nsec = nsec })

-- The quotient of the nanoseconds is rounded towards zero.
unfoldable pub timespec_diff_ms : Timespec → Timespec → ℤ
unfolding ◌+ℤ◌
timespec_diff_ms a b =
    sub_ℕ (a.sec * 1000) (b.sec * 1000)
    +ℤ sub_ℕ ((a.nsec - b.nsec) / 1000000) ((b.nsec - a.nsec) / 1000000)

abbrev pub init : TimerQueue
init = record { timers = [] }

-- `diff <= 0`
abbrev pub is_due : Timespec → Timer → Bool
is_due now t = leb_ℤ (timespec_diff_ms t.next_fire now) (pos 0)

-- `if (diff < min_ms) min_ms = (int)diff;` for an active timer.
abbrev pub narrow : ℕ → ℤ → Bool → ℕ
narrow min_ms diff false = min_ms
narrow min_ms diff true = if ltb_ℤ diff (pos min_ms) then pos_part diff else min_ms

-- The loop of `timer_next_timeout_ms`.
unfoldable pub min_timeout : ℕ → Timespec → List Timer → ℕ
unfolding timespec_diff_ms
min_timeout min_ms now [] = min_ms
min_timeout min_ms now (t ∷ ts) =
    let rest = min_timeout (narrow min_ms (timespec_diff_ms t.next_fire now) t.active) now ts in
    if t.active && is_due now t then 0 else rest

unfoldable pub deactivate : List Timer → ℕ → List Timer
deactivate [] id = []
deactivate (t ∷ ts) zero = record t { active = false } ∷ ts
deactivate (t ∷ ts) (suc id) = t ∷ deactivate ts id

unfoldable pub remove : TimerQueue → ℤ → TimerQueue
unfolding deactivate
remove tq (pos id) = record tq { timers = deactivate tq.timers id }
remove tq (negsuc id) = tq

module _ (World : Type 0) (clock_gettime : World → Timespec × World) (run : ℕ → World → World) where
  -- `none` is the return value -1.
  unfoldable pub add : TimerQueue → ℕ → ℕ → World → Option ℕ × TimerQueue × World
  unfolding timespec_add_ms
  add tq interval_ms cb w =
      if leb max_timers (length tq.timers)
      then (none, tq, w)
      else let (now, w') = clock_gettime w in
        let timer : Timer = record {
          interval_ms = interval_ms;
          callback = cb;
          next_fire = timespec_add_ms now interval_ms;
          active = true;
        } in
        (some (length tq.timers), record { timers = tq.timers ++ timer ∷ [] }, w')

  unfoldable pub next_timeout_ms : TimerQueue → World → ℕ × World
  unfolding min_timeout
  next_timeout_ms tq w = elim tq.timers [
    | [] ↦ (1000, w)
    | t ∷ ts ↦ let (now, w') = clock_gettime w in (min_timeout 1000 now (t ∷ ts), w')
  ]

  -- The call of a timer's callback, and its next time by the clock behind the call.
  unfoldable pub fire : Timer → World → Timer × World
  unfolding timespec_add_ms
  fire t w =
      let (now, w') = clock_gettime (run t.callback w) in
      (record t { next_fire = timespec_add_ms now t.interval_ms }, w')

  -- The loop of `timer_process_expired`.
  unfoldable pub fire_expired : Timespec → List Timer → World → List Timer × World
  unfolding fire timespec_diff_ms
  fire_expired now [] w = ([], w)
  fire_expired now (t ∷ ts) w =
      let (t', w') = if t.active && is_due now t then fire t w else (t, w) in
      let (ts', w'') = fire_expired now ts w' in (t' ∷ ts', w'')

  unfoldable pub process_expired : TimerQueue → World → TimerQueue × World
  unfolding fire_expired
  process_expired tq w =
      let (now, w') = clock_gettime w in
      let (ts, w'') = fire_expired now tq.timers w' in (record { timers = ts }, w'')
