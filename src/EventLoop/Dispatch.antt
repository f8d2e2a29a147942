-- ===== src/EventLoop/Dispatch.antt =====
-- src/event/event_loop.c, `event_loop_run`: the callbacks of a batch of events.
use sharegres.Base.{
  ◌++◌, ◌⊎◌, ◌∷◌, ℕ, suc, inl, inr, ap, Option-cases, ◌∙◌, ◌≡◌, refl, Bool, true, false, List, [],
  ◌∷◌, Option, none, some, ◌||◌,
}
use sharegres.Timer.{next_timeout_ms}
use sharegres.EventLoop.{
  Event, event, EventHandler, EventLoop, Os, dispatch, fire_timers, handle_wait, max_events, ready,
  round, rounds, run, serve, signalled, stop,
}

signalled-twice :
    (came later : Bool) (loop : EventLoop)
    → signalled later (signalled came loop) ≡ signalled (came || later) loop
unfolding stop
signalled-twice false later loop = refl
signalled-twice true false loop = refl
signalled-twice true true loop = refl

module _ (W : Type 0) (os : Os W) where
  -- One event's callback, or nothing if there is no handler or no callback; the Boolean says whether a
  -- signal came in.
  pub data Call : Event → W → Bool → W → Type 0 where
    no_handler : {n : ℕ} {w : W} → Call (event n none) w false w
    no_callback :
        {n h : ℕ} {w : W} {handler : EventHandler}
        → os.handler_at h w ≡ some handler
        → handler.callback ≡ none
        → Call (event n (some h)) w false w
    called :
        {n h cb : ℕ} {w : W} {handler : EventHandler}
        → os.handler_at h w ≡ some handler
        → handler.callback ≡ some cb
        → Call (event n (some h)) w (os.call cb h n w).0 (os.call cb h n w).1

  -- The callbacks of a batch, each once, in the order of the batch.
  pub data Calls : List Event → W → Bool → W → Type 0 where
    all_done : {w : W} → Calls [] w false w
    then_call :
        {e : Event} {es : List Event} {w w' w'' : W} {came later : Bool}
        → Call e w came w'
        → Calls es w' later w''
        → Calls (e ∷ es) w (came || later) w''

  -- The callback of some event has freed the handler of a later one, behind which nothing is called.
  abbrev pub Faulted : List Event → W → Type 0
  Faulted es w =
      (before : List Event) × (n : ℕ) × (h : ℕ) × (after : List Event) × (came : Bool) × (w' : W)
      × (es ≡ before ++ event n (some h) ∷ after)
      × Calls before w came w'
      × (os.handler_at h w' ≡ none)

  -- What a batch comes to: the callbacks are called, and the loop stops if a signal came in; or a freed
  -- handler is read.
  abbrev pub Dispatched : List Event → EventLoop → W → Option (EventLoop × W) → Type 0
  Dispatched es loop w res =
      ((came : Bool) × (w' : W) × Calls es w came w' × (res ≡ some (signalled came loop, w')))
      ⊎ (Faulted es w × (res ≡ none))

  -- What is left to do behind the round: nothing if a signal came in, and else further rounds.
  abbrev pub rest_of_run : ℕ → Bool → EventLoop × W → Option (Option (EventLoop × W))
  rest_of_run fuel true (loop, w) = some (some (loop, w))
  rest_of_run fuel false (loop, w) = rounds W os fuel loop w

  abbrev pub Served :
      ℕ → List Event → Bool → EventLoop → W → Option (Option (EventLoop × W)) → Type 0
  Served fuel es came loop w res =
      ((later : Bool) × (w' : W) × Calls es w later w'
        × (res
            ≡ rest_of_run fuel (came || later)
                (fire_timers W os (signalled (came || later) (record loop { running = true })) w')))
      ⊎ (Faulted es w × (res ≡ none))

  stopped :
      (fuel : ℕ) (came : Bool) (loop : EventLoop) (w : W)
      → let (loop', w') = fire_timers W os (signalled came (record loop { running = true })) w in
        rounds W os (suc fuel) loop' w' ≡ rest_of_run (suc fuel) came (loop', w')
  unfolding rounds fire_timers stop
  stopped fuel true loop w = refl
  stopped fuel false loop w = refl

  -- An event in front of a batch, after its own callback.
  Dispatched-cons :
      (e : Event) (es : List Event) (came : Bool) (loop : EventLoop) (w w₁ : W)
      (res : Option (EventLoop × W))
      → Call e w came w₁
      → Dispatched es (signalled came loop) w₁ res
      → Dispatched (e ∷ es) loop w res
  Dispatched-cons e es came loop w w₁ res call (inl (later, w', calls, is)) = inl (
    came || later,
    w',
    then_call call calls,
    is ∙ ap (λ l. some (l, w')) (signalled-twice came later loop),
  )
  Dispatched-cons e es came loop w w₁ res call
        (inr ((before, n, h, after, later, w', split, calls, freed), is)) =
      inr (
        (e ∷ before, n, h, after, came || later, w', ap (◌∷◌ e) split, then_call call calls, freed),
        is,
      )

  dispatch-Dispatched :
      (es : List Event) (loop : EventLoop) (w : W) → Dispatched es loop w (dispatch W os es loop w)
  unfolding dispatch serve
  dispatch-Dispatched [] loop w = inl (false, w, all_done, refl)
  dispatch-Dispatched (event n none ∷ es) loop w =
      Dispatched-cons (event n none) es false loop w w _ no_handler (dispatch-Dispatched es loop w)
  dispatch-Dispatched (event n (some h) ∷ es) loop w = elim (Option-cases (os.handler_at h w)) [
    | inl freed ↦
        rw (freed, dispatch, serve) (inr (([], n, h, es, false, w, refl, all_done, freed), refl))
    | inr (handler, at) ↦ elim (Option-cases handler.callback) [
      | inl no_cb ↦
          rw (at, no_cb)
            (Dispatched-cons (event n (some h)) es false loop w w _ (no_callback at no_cb)
              (dispatch-Dispatched es loop w))
      | inr (cb, is_cb) ↦
          let (came, w₁) = os.call cb h n w in
          rw (at, is_cb)
            (Dispatched-cons (event n (some h)) es came loop w w₁ _ (called at is_cb)
              (dispatch-Dispatched es (signalled came loop) w₁))
    ]
  ]

  -- `event_loop_run` in a round in which `epoll_wait` gives events, whatever the callbacks do to the
  -- handlers. Either the callbacks of all events are called once each, in the order of the events, and
  -- each handler is allocated when its event's turn comes. Then the expired timers fire. If a signal
  -- came in while `epoll_wait` waited or during a callback, the run ends here, and else it goes on with
  -- the next round. Or, at the first event whose handler is not allocated any more behind the callbacks
  -- of the events before it, the freed handler is read, which has no result.
  pub run-Served :
      (fuel : ℕ) (es : List Event) (came : Bool) (loop : EventLoop) (w w' : W)
      → let (timeout_ms, w₁) = next_timeout_ms W os.clock_gettime os.run_timer loop.timers w in
        os.epoll_wait loop.epfd max_events timeout_ms w₁ ≡ (ready es, came, w')
        → Served (suc fuel) es came loop w' (run W os (suc (suc fuel)) loop w)
  unfolding run rounds round handle_wait
  run-Served fuel es came loop w w' waited =
      let running : EventLoop = record loop { running = true } in
      elim (dispatch-Dispatched es (signalled came running) w') [
        | inl (later, w'', calls, res) ↦ inl (
          later,
          w'',
          calls,
          rw (waited, res, signalled-twice came later running)
              (stopped fuel (came || later) loop w''),
        )
        | inr (fault, res) ↦ inr (fault, rw (waited, res) refl)
      ]
