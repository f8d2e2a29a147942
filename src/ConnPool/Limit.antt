-- ===== src/ConnPool/Limit.antt =====
-- The pool's limit: how many connections there are.
use sharegres.Base.{
  ℕ, ◌+◌, ◌≤◌, ◌≡◌, inl, inr, refl, ap, Bool-cases, List, [], ◌∷◌, Option, none, some, arith,
  length,
}
use sharegres.Base.Int.{pos, ◌-ℤ◌, leb_ℤ}
use sharegres.ConnPool.Owners.{with_lease}
use sharegres.Libpq.{Libpq}
use sharegres.ConnPool.{
  ConnPool, take_idle, connect, grant, acquire, put_back, release, sweep, health_check,
}

-- `active_count` counts the leases, and the limit bounds all connections of the pool.
pub record IsBounded (p : ConnPool) (leased : List ℕ) : Type 0 where
  pub counted : p.active_count ≡ pos (length leased)
  pub within : length p.idle_conns + length leased ≤ p.max_size

module _ (pq : Libpq) where
  open pq use {Env, is_ok, connectdb, finish}

  take_idle-length :
      (idle leased : List ℕ) (e : Env)
      → let (o, left, _) = take_idle pq idle e in
        length left + length (with_lease o leased) ≤ length idle + length leased
  unfolding take_idle
  take_idle-length [] leased e = omega arith
  take_idle-length (c ∷ cs) leased e = elim (Bool-cases (is_ok e c)) [
    | inl good ↦ rw (good, take_idle) (omega arith)
    | inr dead ↦ rw (dead, take_idle) (omega (arith, take_idle-length cs leased (finish e c)))
  ]

  -- Where no idle connection is good, none is left.
  pub take_idle-none :
      (idle : List ℕ) (e : Env) → (take_idle pq idle e).0 ≡ none → (take_idle pq idle e).1 ≡ []
  unfolding take_idle
  take_idle-none [] e h = refl
  take_idle-none (c ∷ cs) e h = elim (Bool-cases (is_ok e c)) [
    | inl good ↦ absurd (cc (rw (good, take_idle) at h))
    | inr dead ↦ rw (dead, take_idle) (take_idle-none cs (finish e c) (rw (dead, take_idle) at h))
  ]

  connect-IsBounded :
      (p : ConnPool) (leased : List ℕ) (e : Env)
      → p.idle_conns ≡ []
      → IsBounded p leased
      → let (o, p', _) = connect pq p e in IsBounded p' (with_lease o leased)
  unfolding connect
  connect-IsBounded p leased e none_idle v =
      elim (Bool-cases (leb_ℤ (pos p.max_size) p.active_count)) [
        | inl full ↦ rw (full, connect) v
        | inr room ↦
            elim (Bool-cases (is_ok (connectdb e p.conninfo).1 (connectdb e p.conninfo).0)) [
              | inl good ↦
                  rw (room, connect, good)
                    (record {
                      counted = ground arith;
                      within = ground (arith, ap length none_idle);
                    })
              | inr dead ↦ rw (room, connect, dead) v
            ]
      ]

  grant-IsBounded :
      (p : ConnPool) (leased : List ℕ) (r : Option ℕ × List ℕ × Env)
      → IsBounded p leased
      → length r.1 + length (with_lease r.0 leased) ≤ length p.idle_conns + length leased
      → (r.0 ≡ none → r.1 ≡ [])
      → let (o, p', _) = grant pq p r in IsBounded p' (with_lease o leased)
  unfolding grant
  grant-IsBounded p leased (none, left, e) v fits empty =
      connect-IsBounded (record p { idle_conns = left }) leased e (empty refl)
        (record { counted = v.counted; within = omega arith })
  grant-IsBounded p leased (some c, left, e) v fits empty = record {
    counted = ground arith;
    within = omega arith;
  }

  pub acquire-IsBounded :
      (p : ConnPool) (leased : List ℕ) (e : Env)
      → IsBounded p leased
      → let (o, p', _) = acquire pq p e in IsBounded p' (with_lease o leased)
  unfolding acquire
  acquire-IsBounded p leased e v =
      grant-IsBounded p leased (take_idle pq p.idle_conns e) v
        (take_idle-length p.idle_conns leased e) (take_idle-none p.idle_conns e)

  pub release-IsBounded :
      (p : ConnPool) (c : ℕ) (leased : List ℕ) (e : Env)
      → IsBounded p (c ∷ leased)
      → IsBounded (release pq p (some c) e).0 leased
  unfolding release put_back ◌-ℤ◌
  release-IsBounded p c leased e v = record { counted = ground arith; within = ground arith }

  pub sweep-length : (idle : List ℕ) (e : Env) → length (sweep pq idle e).0 ≤ length idle
  unfolding sweep
  sweep-length [] e = omega arith
  sweep-length (c ∷ cs) e = elim (Bool-cases (is_ok e c)) [
    | inl good ↦ rw (good, sweep) (omega (arith, sweep-length cs e))
    | inr dead ↦ rw (dead, sweep) (omega (arith, sweep-length cs (finish e c)))
  ]

  pub health_check-IsBounded :
      (p : ConnPool) (leased : List ℕ) (e : Env)
      → IsBounded p leased
      → IsBounded (health_check pq p e).0 leased
  unfolding health_check
  health_check-IsBounded p leased e v = record {
    counted = v.counted;
    within = omega (arith, v.within, sweep-length p.idle_conns e);
  }
