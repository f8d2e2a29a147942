-- ===== src/Session/ScatterReadable/Hangup.antt =====
-- A shard that hangs up while a query is scattered. Its connection stays registered with epoll, which
-- reports the condition again for as long as it holds.
use sharegres.Base.{
  ℕ, zero, suc, ◌+◌, ◌≡◌, ◌∙◌, refl, ap, arith, true, false, List, [], ◌∷◌, Option, some, length,
  leb, ◌>>=◌,
}
use sharegres.Base.Bytes.{Bytes}
use sharegres.Libpq.{Libpq}
use sharegres.Session.BackendReadable.{Fate, alive, destroyed, flush}
use sharegres.Session.ScatterReadable.{
  mark_done, count_entry, complete, check_complete, on_scatter_readable,
}
use sharegres.Session.Send.{SendResult}
use sharegres.Session.{ClientSession, ScatterConn, State}

pub length-mark_done : (scs : List ScatterConn) (i : ℕ) → length (mark_done scs i) ≡ length scs
length-mark_done [] i = refl
length-mark_done (sc ∷ scs) zero = refl
length-mark_done (sc ∷ scs) (suc i) = ap suc (length-mark_done scs i)

mark_done-mark_done :
    (scs : List ScatterConn) (i : ℕ) → mark_done (mark_done scs i) i ≡ mark_done scs i
mark_done-mark_done [] i = refl
mark_done-mark_done (sc ∷ scs) zero = refl
mark_done-mark_done (sc ∷ scs) (suc i) = ap (◌∷◌ sc) (mark_done-mark_done scs i)

-- The entry is done, and so many are counted.
abbrev pub counted : ℕ → ℕ → ClientSession → ClientSession
counted i n s = record s { scatter = mark_done s.scatter i; scatter_done = n }

module _ (pq : Libpq) (Net : Type 0) (send : Net → Bytes → SendResult × Net) where
  abbrev pub go_on :
      (State pq → Net → Option (Fate × State pq × Net))
      → Fate × State pq × Net
      → Option (Fate × State pq × Net)
  go_on next (alive, st, w) = next st w
  go_on next (destroyed, st, w) = some (destroyed, st, w)

  -- The callback for entry `i` with a hangup, and then so many times more.
  abbrev pub hangups : ℕ → ℕ → ℕ → State pq → Net → Option (Fate × State pq × Net)
  hangups fuel i zero st w = on_scatter_readable pq Net send fuel true i st w
  hangups fuel i (suc k) st w =
      on_scatter_readable pq Net send fuel true i st w >>= go_on (λ st' w'. hangups fuel i k st' w')

  abbrev pub completed : ℕ → ℕ → State pq → Net → Option (Fate × State pq × Net)
  completed i n st w =
      flush pq Net send (complete pq (record st { session = counted i n st.session })) w

  -- One shard that hangs up ends a scattered query, even if no other shard has answered: once its
  -- entry's callback has run as often as there are entries left to count, the query is completed as if
  -- all shards had answered, its messages are sent, and the connections of all shards are released.
  -- Only that one entry is marked as done. The other entries may be in any state.
  pub hangups-completed :
      (fuel i k : ℕ) (st : State pq) (w : Net)
      → st.session.scatter_done + suc k ≡ length st.session.scatter
      → hangups fuel i k st w ≡ completed i (length st.session.scatter) st w
  unfolding on_scatter_readable check_complete
  hangups-completed fuel i zero st w h =
      let all : leb (length (mark_done st.session.scatter i)) (suc st.session.scatter_done) ≡ true =
        ground (arith, length-mark_done st.session.scatter i) in
      let last : suc st.session.scatter_done ≡ length st.session.scatter = omega (arith, h) in
      rw all (ap (λ n. completed i n st w) last)
  hangups-completed fuel i (suc k) st w h =
      let scs = st.session.scatter in
      let more : leb (length (mark_done scs i)) (suc st.session.scatter_done) ≡ false =
        ground (arith, length-mark_done scs i) in
      let st₁ : State pq = record st { session = count_entry i st.session } in
      let same : length (mark_done scs i) ≡ length scs = length-mark_done scs i in
      let rest : hangups fuel i k st₁ w ≡ completed i (length (mark_done scs i)) st₁ w =
        hangups-completed fuel i k st₁ w (omega (arith, h, same)) in
      rw more (
        rest
        ∙ ap (λ n. completed i n st₁ w) same
        ∙ ap
            (λ m.
              flush pq Net send
                (complete pq (record st {
                  session = record st.session { scatter = m; scatter_done = length scs };
                }))
                w)
            (mark_done-mark_done scs i))
