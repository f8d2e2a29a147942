-- ===== src/FeProtocol/Scatter.antt =====
-- src/protocol/fe_protocol.c, `execute_scatter`: the connections that a scattered query waits for.
use sharegres.Base.{
  ℕ, ◌≤◌, ◌<◌, ◌≡◌, ◌⊎◌, inl, inr, refl, ap, ◌∙◌, sym, leb→le, Bool-cases, Option-cases, true,
  false, List, [], ◌∷◌, ◌++◌, none, some, arith, length, leb, ltb, All,
}
use sharegres.Base.Bytes.{Bytes, codes}
use sharegres.FeProtocol.Reply.{queued, stream, bytes-report}
use sharegres.FeProtocol.{scatter_to, scatter_loop, count_done, execute_scatter, report}
use sharegres.Libpq.{Libpq}
use sharegres.Message.Frames.{error, ready_for_query}
use sharegres.Session.Backend.{acquire_from, release_to}
use sharegres.Session.{
  ClientSession, ScatterConn, SessionState, State, max_scatter_shards, send_error, queue_ready,
  queue_send,
}
use sharegres.ShardMap.{Shard}

-- A shard's entry has failed and holds no connection, or it waits on a watched one of the pool.
abbrev pub Started : ScatterConn → Type 0
Started sc =
    ((sc.done ≡ true) × (sc.conn ≡ none))
    ⊎ ((c : ℕ) × (sc.done ≡ false)
        × (sc.conn ≡ some c)
        × (sc.watched ≡ true)
        × (sc.from_pool ≡ true))

abbrev pub shards_of : List ScatterConn → List Shard
shards_of [] = []
shards_of (sc ∷ scs) = sc.shard ∷ shards_of scs

count_done-le : (scs : List ScatterConn) → count_done scs ≤ length scs
count_done-le [] = omega arith
count_done-le (sc ∷ scs) = ground (arith, count_done-le scs)

length-shards_of : (scs : List ScatterConn) → length (shards_of scs) ≡ length scs
length-shards_of [] = refl
length-shards_of (sc ∷ scs) = omega (arith, length-shards_of scs)

-- What `execute_scatter` leaves behind, over the shards and from what was queued before.
pub record Scattered (before : Bytes) (shards : List Shard) (s : ClientSession) : Type 0 where
  pub entries : shards_of s.scatter ≡ shards
  pub started : All Started s.scatter
  pub counted : s.scatter_done ≡ count_done s.scatter
  pub waits :
      ((s.state ≡ SessionState.scatter) × (s.scatter_done < length shards))
      ⊎ ((s.state ≡ SessionState.ready)
          × (s.scatter_done ≡ length shards)
          × (queued s
              ≡ before
                ++ stream (
                    error (codes "ERROR") (codes "08001") (codes "all scatter connections failed")
                    ∷ ready_for_query b'I'
                    ∷ [])))

-- The session once the error is reported.
abbrev reported : ClientSession → ClientSession
reported s = report s (codes "ERROR") (codes "08001") (codes "all scatter connections failed")

reported-Scattered :
    (before : Bytes) (s : ClientSession) (shards : List Shard)
    → queued s ≡ before
    → shards_of s.scatter ≡ shards
    → All Started s.scatter
    → s.scatter_done ≡ count_done s.scatter
    → s.scatter_done ≡ length shards
    → Scattered before shards (record (reported s) { state = SessionState.ready })
unfolding report send_error queue_ready queue_send
reported-Scattered before s shards same of_shards started counted all_done = record {
  entries = of_shards;
  started = started;
  counted = counted;
  waits = inr (
    refl,
    all_done,
    rw (← same)
        (bytes-report s (codes "ERROR") (codes "08001") (codes "all scatter connections failed")),
  );
}

module _ (pq : Libpq) where
  -- What one round does: an entry of the shard, and no change of the session.
  abbrev Round : Shard → ClientSession → ScatterConn × State pq → Type 0
  Round shard s (sc, st) = (sc.shard ≡ shard) × Started sc × (st.session ≡ s)

  scatter_to-Round :
      (sql : Bytes) (shard : Shard) (st : State pq)
      → Round shard st.session (scatter_to pq sql shard st)
  unfolding scatter_to acquire_from release_to
  scatter_to-Round sql shard st = elim (Option-cases (acquire_from pq shard st).0) [
    | inl e ↦ rw (e, scatter_to) (refl, inl (refl, refl), refl)
    | inr (c, e) ↦
        let st' = (acquire_from pq shard st).1 in
        elim (Bool-cases (pq.send_query (pq.setnonblocking st'.env c) c sql).0) [
          | inl sent ↦ rw (e, scatter_to, sent) (refl, inr (c, refl, refl, refl, refl), refl)
          | inr refused ↦ rw (e, scatter_to, refused) (refl, inl (refl, refl), refl)
        ]
  ]

  scatter_loop-Started :
      (sql : Bytes) (shards : List Shard) (st : State pq)
      → let (scs, st') = scatter_loop pq sql shards st in
        (shards_of scs ≡ shards) × All Started scs × (st'.session ≡ st.session)
  unfolding scatter_loop
  scatter_loop-Started sql [] st = (refl, tt, refl)
  scatter_loop-Started sql (shard ∷ shards) st =
      let (of_shard, started, same) = scatter_to-Round sql shard st in
      let (of_shards, all_started, all_same) =
        scatter_loop-Started sql shards (scatter_to pq sql shard st).1 in
      (rw of_shard (ap (◌∷◌ shard) of_shards), (started, all_started), all_same ∙ same)

  -- For at most 64 shards `execute_scatter` never fails. Afterwards the session has one entry for each shard, in
  -- the order of the shards; an entry is done and without a connection, or it is not done and has one
  -- of the pool; `scatter_done` is the number of the done ones. The session waits for results if some
  -- entry is not done. If all are done it is ready, and behind what was queued before the client gets
  -- an error and a ReadyForQuery.
  pub execute_scatter-Scattered :
      (sql : Bytes) (shards : List Shard) (st : State pq)
      → length shards ≤ max_scatter_shards
      → let (ok, st') = execute_scatter pq sql shards st in
        (ok ≡ true) × Scattered (queued st.session) shards st'.session
  unfolding execute_scatter
  execute_scatter-Scattered sql shards st h =
      let (of_shards, all_started, same) = scatter_loop-Started sql shards st in
      let scs = (scatter_loop pq sql shards st).0 in
      let waiting = record (scatter_loop pq sql shards st).1.session {
        scatter = scs;
        scatter_done = count_done scs;
        scatter_header_sent = false;
      } in
      let count : length scs ≡ length shards = sym (length-shards_of scs) ∙ ap length of_shards in
      let few : ltb max_scatter_shards (length shards) ≡ false = ground arith in
      elim (Bool-cases (leb (length shards) (count_done scs))) [
        | inl none_left ↦
            rw (few, none_left)
              (
                refl,
                reported-Scattered (queued st.session) waiting shards (ap queued same) of_shards
                    all_started refl
                    (omega (arith, count, count_done-le scs, leb→le _ _ none_left)),
              )
        | inr some_left ↦
            rw (few, some_left)
              (
                refl,
                record {
                  entries = of_shards;
                  started = all_started;
                  counted = refl;
                  waits = inl (refl, ground arith);
                },
              )
      ]
