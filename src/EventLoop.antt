-- ===== src/EventLoop.antt =====
-- src/event/event_loop.c and event_loop.h: the epoll loop. The handlers lie in memory that the callbacks
-- may free, and a handler that is not allocated any more is `none`; reading it has no result. epoll, the
-- memory of the handlers and the callbacks are calls over a world. A signal handler of src/main.c calls
-- event_loop_stop: epoll_wait and a callback give a Boolean that says whether a signal came in during
-- the call. Signals during the callbacks of timers are left out.
pub mod Dispatch
pub mod Tests
use sharegres.Base.{
  ℕ, zero, suc, Bool, true, false, List, [], ◌∷◌, Option, none, some, if◌then◌else◌, ◌>>=◌,
}
use sharegres.Base.Int.{ℤ, pos, negsuc, ltb_ℤ}
use sharegres.Timer.{Timespec, TimerQueue, next_timeout_ms, process_expired}
use sharegres.Timer

pub record EventHandler : Type 0 where
  pub fd : ℤ
  pub events : ℕ
  pub callback : Option ℕ

-- `struct epoll_event`: the ready events, and the handler that was registered.
pub data Event : Type 0 where
  event : ℕ → Option ℕ → Event

pub record EventLoop : Type 0 where
  pub epfd : ℤ
  pub running : Bool
  pub timers : TimerQueue

abbrev pub max_events : ℕ
max_events = 256

pub data Ctl : Type 0 where
  ctl_add ctl_mod ctl_del : Ctl

-- What `epoll_wait` gives: events, or -1 with EINTR or with another error.
pub data Wait : Type 0 where
  ready : List Event → Wait
  interrupted wait_failed : Wait

pub record Os (W : Type 0) : Type 0 where
  pub epoll_create : W → ℤ × W
  pub close_fd : ℤ → W → W
  pub epoll_wait : ℤ → ℕ → ℕ → W → Wait × Bool × W
  pub epoll_ctl : ℤ → Ctl → ℤ → Option Event → W → ℤ × W
  pub clock_gettime : W → Timespec × W
  pub handler_at : ℕ → W → Option EventHandler
  pub store_events : ℕ → ℕ → W → W
  pub call : ℕ → ℕ → ℕ → W → Bool × W
  pub run_timer : ℕ → W → W

abbrev pub init_failed : ℤ
init_failed = negsuc 0

unfoldable pub stop : EventLoop → EventLoop
stop loop = record loop { running = false }

-- The loop behind a call during which a signal may have come in.
abbrev pub signalled : Bool → EventLoop → EventLoop
signalled came loop = if came then stop loop else loop

-- How a round ends: the loop goes on to its test, or breaks.
pub data Flow : Type 0 where
  again leave : Flow

module _ (W : Type 0) (os : Os W) where
  unfoldable pub init : EventLoop → W → ℤ × EventLoop × W
  init loop w =
      let (epfd, w') = os.epoll_create w in
      if ltb_ℤ epfd (pos 0)
      then (init_failed, record loop { epfd = epfd }, w')
      else (pos 0, record { epfd = epfd; running = false; timers = Timer.init }, w')

  unfoldable pub destroy : EventLoop → W → EventLoop × W
  destroy loop w =
      if ltb_ℤ loop.epfd (pos 0)
      then (loop, w)
      else (record loop { epfd = init_failed }, os.close_fd loop.epfd w)

  -- A handler is registered with the events that are stored in it.
  unfoldable pub control : Ctl → EventLoop → ℕ → ℕ → W → Option (ℤ × W)
  control op loop h events w =
      let w₁ = os.store_events h events w in
      os.handler_at h w₁ >>= λ handler.
      let (res, w₂) = os.epoll_ctl loop.epfd op handler.fd (some (event events (some h))) w₁ in
      some (if ltb_ℤ res (pos 0) then init_failed else pos 0, w₂)

  unfoldable pub add : EventLoop → ℕ → ℕ → W → Option (ℤ × W)
  unfolding control
  add loop h events w = os.handler_at h w >>= λ handler. control ctl_add loop h events w

  unfoldable pub mod_events : EventLoop → ℕ → ℕ → W → Option (ℤ × W)
  unfolding control
  mod_events loop h events w = os.handler_at h w >>= λ handler. control ctl_mod loop h events w

  unfoldable pub del : EventLoop → ℕ → W → Option (ℤ × W)
  del loop h w = os.handler_at h w >>= λ handler.
      let (res, w') = os.epoll_ctl loop.epfd ctl_del handler.fd none w in
      some (if ltb_ℤ res (pos 0) then init_failed else pos 0, w')

  -- One event: the handler's callback is called, if there are a handler and a callback.
  unfoldable pub serve : Event → EventLoop → W → Option (EventLoop × W)
  serve (event ready_events none) loop w = some (loop, w)
  serve (event ready_events (some h)) loop w = os.handler_at h w >>= λ handler.
      elim handler.callback [
        | none ↦ some (loop, w)
        | some callback ↦
            let (came, w') = os.call callback h ready_events w in some (signalled came loop, w')
      ]

  -- The inner loop of `event_loop_run`.
  unfoldable pub dispatch : List Event → EventLoop → W → Option (EventLoop × W)
  unfolding serve
  dispatch [] loop w = some (loop, w)
  dispatch (e ∷ es) loop w =
      serve e loop w >>= λ served. let (loop', w') = served in dispatch es loop' w'

  unfoldable pub fire_timers : EventLoop → W → EventLoop × W
  unfolding process_expired
  fire_timers loop w =
      let (timers, w') = process_expired W os.clock_gettime os.run_timer loop.timers w in
      (record loop { timers = timers }, w')

  unfoldable pub handle_wait : Wait → EventLoop → W → Option (Flow × EventLoop × W)
  unfolding dispatch fire_timers
  handle_wait interrupted loop w = some (again, loop, w)
  handle_wait wait_failed loop w = some (leave, loop, w)
  handle_wait (ready events) loop w = dispatch events loop w >>= λ served.
      let (loop₁, w₁) = served in let (loop₂, w₂) = fire_timers loop₁ w₁ in some (again, loop₂, w₂)

  -- A round of `while (loop->running)`.
  unfoldable pub round : EventLoop → W → Option (Flow × EventLoop × W)
  unfolding next_timeout_ms handle_wait
  round loop w =
      let (timeout_ms, w₁) = next_timeout_ms W os.clock_gettime os.run_timer loop.timers w in
      let (waited, came, w₂) = os.epoll_wait loop.epfd max_events timeout_ms w₁ in
      handle_wait waited (signalled came loop) w₂

  -- `none` inside is a loop that still runs when the fuel is used up.
  unfoldable pub rounds : ℕ → EventLoop → W → Option (Option (EventLoop × W))
  unfolding round
  rounds zero loop w = some none
  rounds (suc fuel) loop w = elim loop.running [
    | false ↦ some (some (loop, w))
    | true ↦ round loop w >>= λ next.
        let (flow, loop', w') = next in
        elim flow [ again ↦ rounds fuel loop' w' | leave ↦ some (some (loop', w')) ]
  ]

  unfoldable pub run : ℕ → EventLoop → W → Option (Option (EventLoop × W))
  unfolding rounds
  run fuel loop w = rounds fuel (record loop { running = true }) w
