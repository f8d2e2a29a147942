-- ===== src/ConnPool/Refine.antt =====
-- The pool as a counter of connections: what its clients may rely on.
use sharegres.Base.{
  ℕ, suc, ◌≤◌, ◌<◌, ◌≡◌, ◌∙◌, inl, inr, refl, ap, subst, Bool-cases, List, [], ◌∷◌, ◌++◌, Option,
  none, some, arith, length, length-append, ltb,
}
use sharegres.Base.Bytes.{Bytes}
use sharegres.Base.Int.{pos, leb_ℤ}
use sharegres.ConnPool.History.{
  System, Reach, here, next, Step, acquires, releases, checks, outside, fresh, Reach-fresh-Sound,
}
use sharegres.ConnPool.Limit.{take_idle-none, sweep-length}
use sharegres.ConnPool.Owners.{with_lease}
use sharegres.ConnPool.{
  ConnPool, init, take_idle, connect, grant, acquire, put_back, release, health_check, is_idle,
}
use sharegres.Libpq.{Libpq, Accounting}

-- What a client sees of a step.
pub data Label : Type 0 where
  granted denied released checked elsewhere : Label

abbrev pub outcome : Option ℕ → Label
outcome none = denied
outcome (some c) = granted

-- One move of a counter with `i` idle and `a` leased connections, to `i'` and `a'`. A connection is
-- granted by reusing an idle one, where some may be dropped, or by opening a new one, below the limit
-- and when no idle one is left. None is granted only when no idle one is left. A released connection
-- becomes idle, below the limit, or is closed. A check drops idle ones, and nothing else moves it.
pub data Move (max i a i' a' : ℕ) : Label → Type 0 where
  reuses : i' < i → a' ≡ suc a → Move max i a i' a' granted
  opens : a < max → i' ≡ 0 → a' ≡ suc a → Move max i a i' a' granted
  denies : i' ≡ 0 → a' ≡ a → Move max i a i' a' denied
  returns : i < max → i' ≡ suc i → a ≡ suc a' → Move max i a i' a' released
  closes : i' ≡ i → a ≡ suc a' → Move max i a i' a' released
  drops : i' ≤ i → a' ≡ a → Move max i a i' a' checked
  rests : i' ≡ i → a' ≡ a → Move max i a i' a' elsewhere

-- A run of the counter that begins with no connections; the last label stands first.
pub data Run (max : ℕ) : List Label → ℕ → ℕ → Type 0 where
  begins : Run max [] 0 0
  moves :
      {ls : List Label} {l : Label} {i a i' a' : ℕ}
      → Run max ls i a
      → Move max i a i' a' l
      → Run max (l ∷ ls) i' a'

module _ (pq : Libpq) where
  open pq use {Env, is_ok, connectdb, finish, transaction_status}

  -- The pool keeps its limit and moves as the counter does.
  abbrev Moved : ConnPool → ℕ → ConnPool → ℕ → Label → Type 0
  Moved p a p' a' l =
      (p'.max_size ≡ p.max_size)
      × Move p.max_size (length p.idle_conns) a (length p'.idle_conns) a' l

  take_idle-some :
      (idle : List ℕ) (e : Env) (c : ℕ)
      → (take_idle pq idle e).0 ≡ some c
      → length (take_idle pq idle e).1 < length idle
  unfolding take_idle
  take_idle-some [] e c h = cc
  take_idle-some (d ∷ ds) e c h = elim (Bool-cases (is_ok e d)) [
    | inl good ↦ rw (good, take_idle) (omega arith)
    | inr dead ↦
        rw (dead, take_idle)
          (omega (arith, take_idle-some ds (finish e d) c (rw (dead, take_idle) at h)))
  ]

  connect-Moved :
      (p : ConnPool) (leased : List ℕ) (e : Env) (i : ℕ)
      → p.idle_conns ≡ []
      → p.active_count ≡ pos (length leased)
      → let (o, p', _) = connect pq p e in
        (p'.max_size ≡ p.max_size)
        × Move p.max_size i
            (length leased)
            (length p'.idle_conns)
            (length (with_lease o leased))
            (outcome o)
  unfolding connect
  connect-Moved p leased e i none_idle counted =
      let empty : length p.idle_conns ≡ 0 = ap length none_idle in
      elim (Bool-cases (leb_ℤ (pos p.max_size) p.active_count)) [
        | inl full ↦ rw (full, connect) (refl, denies empty refl)
        | inr room ↦
            let below : length leased < p.max_size = ground arith in
            elim (Bool-cases (is_ok (connectdb e p.conninfo).1 (connectdb e p.conninfo).0)) [
              | inl good ↦ rw (room, connect, good) (refl, opens below empty refl)
              | inr dead ↦ rw (room, connect, dead) (refl, denies empty refl)
            ]
      ]

  grant-Moved :
      (p : ConnPool) (leased : List ℕ) (r : Option ℕ × List ℕ × Env)
      → p.active_count ≡ pos (length leased)
      → ((c : ℕ) → r.0 ≡ some c → length r.1 < length p.idle_conns)
      → (r.0 ≡ none → r.1 ≡ [])
      → let (o, p', _) = grant pq p r in
        Moved p (length leased) p' (length (with_lease o leased)) (outcome o)
  unfolding grant
  grant-Moved p leased (none, left, e) counted fewer empty =
      connect-Moved (record p { idle_conns = left }) leased e (length p.idle_conns) (empty refl)
        counted
  grant-Moved p leased (some c, left, e) counted fewer empty = (refl, reuses (fewer c refl) refl)

  acquire-Moved :
      (p : ConnPool) (leased : List ℕ) (e : Env)
      → p.active_count ≡ pos (length leased)
      → let (o, p', _) = acquire pq p e in
        Moved p (length leased) p' (length (with_lease o leased)) (outcome o)
  unfolding acquire
  acquire-Moved p leased e counted =
      grant-Moved p leased (take_idle pq p.idle_conns e) counted (take_idle-some p.idle_conns e)
        (take_idle-none pq p.idle_conns e)

  release-Moved :
      (p : ConnPool) (c a : ℕ) (e : Env) → Moved p (suc a) (release pq p (some c) e).0 a released
  unfolding release put_back
  release-Moved p c a e = elim (Bool-cases (is_ok e c)) [
    | inr dead ↦ rw (dead, put_back) (refl, closes refl refl)
    | inl good ↦ elim (Bool-cases (is_idle (transaction_status e c))) [
      | inr busy ↦ rw (good, busy, put_back) (refl, closes refl refl)
      | inl idle ↦ elim (Bool-cases (ltb (length p.idle_conns) p.max_size)) [
        | inl room ↦ rw (good, idle, room, put_back) (refl, returns (ground arith) refl refl)
        | inr full ↦ rw (good, idle, full, put_back) (refl, closes refl refl)
      ]
    ]
  ]

  health_check-Moved :
      (p : ConnPool) (a : ℕ) (e : Env) → Moved p a (health_check pq p e).0 a checked
  unfolding health_check
  health_check-Moved p a e = (refl, drops (sweep-length pq p.idle_conns e) refl)

module _ (pq : Libpq) (acc : Accounting pq) where
  abbrev pub label : {s t : System pq} → Step pq acc s t → Label
  label {s} acquires = outcome (acquire pq s.pool s.env).0
  label (releases c before after e) = released
  label checks = checked
  label (outside e' others' same) = elsewhere

  abbrev pub trace : {s t : System pq} → Reach pq acc s t → List Label
  trace here = []
  trace (next r step) = label step ∷ trace r

  Step-Moved :
      {s t : System pq} (step : Step pq acc s t)
      → s.pool.active_count ≡ pos (length s.leased)
      → Moved pq s.pool (length s.leased) t.pool (length t.leased) (label step)
  Step-Moved {s} acquires counted = acquire-Moved pq s.pool s.leased s.env counted
  Step-Moved {s} (releases c before after e) counted =
      let one_less : length s.leased ≡ suc (length (before ++ after)) =
        rw e (omega (arith, length-append before (c ∷ after), length-append before after)) in
      rw one_less (release-Moved pq s.pool c (length (before ++ after)) s.env)
  Step-Moved {s} checks counted = health_check-Moved pq s.pool (length s.leased) s.env
  Step-Moved {s} (outside e' others' same) counted = (refl, rests refl refl)

  -- The pool refines the counter, step by step. Whatever its history, where libpq counts open
  -- connections as documented, clients release only what they hold, and other code opens and closes only
  -- connections of its own, its limit is `max_size`, and the same sequence of grants, denials, releases,
  -- checks and other steps takes the counter, from no connections, to the pool's numbers of idle and of
  -- held connections. So an acquire grants a connection by reusing an idle one, or, when no idle one is
  -- left, by opening one below the limit; it denies one only when no idle one is left; and a released
  -- connection is kept only below the limit.
  pub Reach-fresh-Run :
      (conninfo : Bytes) (max_size : ℕ) (e : pq.Env) {t : System pq}
      (r : Reach pq acc (fresh (acc.opened e) conninfo max_size e) t)
      → (t.pool.max_size ≡ max_size)
        × Run max_size (trace r) (length t.pool.idle_conns) (length t.leased)
  unfolding init
  Reach-fresh-Run conninfo max_size e here = (refl, begins)
  Reach-fresh-Run conninfo max_size e (next {t} {u} r step) =
      let (limit, run) = Reach-fresh-Run conninfo max_size e r in
      let (same, move) =
        Step-Moved step (Reach-fresh-Sound pq acc conninfo max_size e r).bounded.counted in
      (
        same ∙ limit,
        moves run (
            subst
              (λ m.
                Move m (length t.pool.idle_conns) (length t.leased) (length u.pool.idle_conns)
                  (length u.leased) (label step))
              limit move),
      )
