-- ===== src/EventLoop/Tests.antt =====
-- A batch in which a callback frees its own handler, and one during which a signal comes in.
use sharegres.Base.{
  ℕ, ◌≡◌, refl, Bool, true, false, List, [], ◌∷◌, ◌++◌, none, some, if◌then◌else◌, ◌==◌, ◌+◌, ◌&&◌,
  ◌>>=◌,
}
use sharegres.Base.Int.{pos}
use sharegres.Timer.{Timespec, next_timeout_ms}
use sharegres.Timer
use sharegres.EventLoop.Dispatch.{run-Served, Served}
use sharegres.EventLoop.{event, EventHandler, EventLoop, Os, dispatch, ready, run, stop}

record World : Type 0 where
  alive : ℕ → Bool
  calls : List ℕ

-- The callback of the handler 3 frees the handler, and a signal comes in during that of handler 4.
abbrev handler_of_id : ℕ → EventHandler
handler_of_id h = record { fd = pos h; events = 1; callback = some (h + 10) }

abbrev os : Os World
os = record {
  epoll_create = λ w. (pos 5, w);
  close_fd = λ fd w. w;
  epoll_wait = λ epfd size timeout_ms w.
      (ready (event 1 (some 3) ∷ event 0 none ∷ event 4 (some 4) ∷ []), false, w);
  epoll_ctl = λ epfd op fd e w. (pos 0, w);
  clock_gettime = λ w. (record { sec = 7; nsec = 0 }, w);
  handler_at = λ h w. if w.alive h then some (handler_of_id h) else none;
  store_events = λ h n w. w;
  call = λ cb h n w. (
    cb == 14,
    record {
      alive = λ g. if (cb == 13) && (g == h) then false else w.alive g;
      calls = w.calls ++ cb ∷ [];
    },
  );
  run_timer = λ cb w. w;
}

abbrev world : World
world = record { alive = λ h. true; calls = [] }

abbrev loop : EventLoop
loop = record { epfd = pos 5; running = false; timers = Timer.init }

run-Served_example :
    Served World os 1
      (event 1 (some 3) ∷ event 0 none ∷ event 4 (some 4) ∷ [])
      false
      loop
      world
      (run World os 2 loop world)
unfolding next_timeout_ms
run-Served_example =
    run-Served World os 0 (event 1 (some 3) ∷ event 0 none ∷ event 4 (some 4) ∷ []) false loop world
      world refl

-- The second event of a freed handler is a fault.
fault_of_run : dispatch World os (event 1 (some 3) ∷ event 1 (some 3) ∷ []) loop world ≡ none
unfolding dispatch
fault_of_run = refl

-- Both callbacks have run, the signal has ended the loop, and only handler 3 is freed.
calls_of_run :
    (run World os 2 loop world >>= λ res. res >>= λ ended. some (ended.1).calls)
    ≡ some (13 ∷ 14 ∷ [])
unfolding run stop
calls_of_run = refl
