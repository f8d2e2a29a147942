-- ===== src/ConnPool/Owners.antt =====
-- Who holds the connections that are open: the pool, a lease, or somebody else.
use sharegres.Base.{
  ℕ, ◌+◌, ◌≡◌, inl, inr, true, false, Bool, Bool-cases, List, [], ◌∷◌, Option, none, some, arith,
  length, ltb, if◌then◌else◌,
}
use sharegres.Base.Int.{pos, ◌-ℤ◌, leb_ℤ}
use sharegres.Libpq.{Libpq, Accounting, one_if_eq}
use sharegres.ConnPool.{
  ConnPool, take_idle, connect, grant, acquire, put_back, release, sweep, health_check, is_idle,
}

abbrev pub count : ℕ → List ℕ → ℕ
count x [] = 0
count x (c ∷ cs) = one_if_eq c x + count x cs

abbrev pub with_lease : Option ℕ → List ℕ → List ℕ
with_lease none leased = leased
with_lease (some c) leased = c ∷ leased

count_self : (c : ℕ) → one_if_eq c c ≡ 1
count_self c = ground arith

module _ (pq : Libpq) (acc : Accounting pq) (others : ℕ → ℕ) where
  open pq use {Env, is_ok, connectdb, finish}
  open acc use {opened, opened-connectdb, opened-finish}

  -- Every open connection is idle in the pool, or leased, or none of the pool's business (`others`).
  abbrev pub Owned : Env → List ℕ → List ℕ → Type 0
  Owned e idle leased = (x : ℕ) → opened e x ≡ others x + count x idle + count x leased

  finish-Owned :
      (e : Env) (c : ℕ) (cs leased : List ℕ)
      → Owned e (c ∷ cs) leased
      → Owned (finish e c) cs leased
  finish-Owned e c cs leased o x =
      omega (arith, o x, opened-finish e c x (omega (arith, o c, count_self c)))

  finish_lease-Owned :
      (e : Env) (c : ℕ) (cs leased : List ℕ)
      → Owned e cs (c ∷ leased)
      → Owned (finish e c) cs leased
  finish_lease-Owned e c cs leased o x =
      omega (arith, o x, opened-finish e c x (omega (arith, o c, count_self c)))

  take_idle-Owned :
      (idle leased : List ℕ) (e : Env)
      → Owned e idle leased
      → let (o, left, e') = take_idle pq idle e in Owned e' left (with_lease o leased)
  unfolding take_idle
  take_idle-Owned [] leased e o = o
  take_idle-Owned (c ∷ cs) leased e o = elim (Bool-cases (is_ok e c)) [
    | inl good ↦ rw (good, take_idle) (λ x. omega (arith, o x))
    | inr dead ↦
        rw (dead, take_idle) (take_idle-Owned cs leased (finish e c) (finish-Owned e c cs leased o))
  ]

  connect-Owned :
      (p : ConnPool) (leased : List ℕ) (e : Env)
      → Owned e p.idle_conns leased
      → let (o, p', e') = connect pq p e in Owned e' p'.idle_conns (with_lease o leased)
  unfolding connect
  connect-Owned p leased e o = elim (Bool-cases (leb_ℤ (pos p.max_size) p.active_count)) [
    | inl full ↦ rw (full, connect) o
    | inr room ↦
        let c = (connectdb e p.conninfo).0 in
        let e₁ = (connectdb e p.conninfo).1 in
        let grown : Owned e₁ p.idle_conns (c ∷ leased) =
          λ x. omega (arith, o x, opened-connectdb e p.conninfo x) in
        elim (Bool-cases (is_ok e₁ c)) [
          | inl good ↦ rw (room, connect, good) grown
          | inr dead ↦ rw (room, connect, dead) (finish_lease-Owned e₁ c p.idle_conns leased grown)
        ]
  ]

  grant-Owned :
      (p : ConnPool) (leased : List ℕ) (r : Option ℕ × List ℕ × Env)
      → Owned r.2 r.1 (with_lease r.0 leased)
      → let (o, p', e') = grant pq p r in Owned e' p'.idle_conns (with_lease o leased)
  unfolding grant
  grant-Owned p leased (none, left, e) h = connect-Owned (record p { idle_conns = left }) leased e h
  grant-Owned p leased (some c, left, e) h = h

  pub acquire-Owned :
      (p : ConnPool) (leased : List ℕ) (e : Env)
      → Owned e p.idle_conns leased
      → let (o, p', e') = acquire pq p e in Owned e' p'.idle_conns (with_lease o leased)
  unfolding acquire
  acquire-Owned p leased e o =
      grant-Owned p leased (take_idle pq p.idle_conns e) (take_idle-Owned p.idle_conns leased e o)

  put_back-Owned :
      (p : ConnPool) (c : ℕ) (leased : List ℕ) (e : Env)
      → Owned e p.idle_conns (c ∷ leased)
      → let (p', e') = put_back pq p c e in Owned e' p'.idle_conns leased
  unfolding put_back
  put_back-Owned p c leased e o =
      let closed = finish_lease-Owned e c p.idle_conns leased o in
      let kept : Owned e (c ∷ p.idle_conns) leased = λ x. omega (arith, o x) in
      choose (is_ok e c) (is_idle (pq.transaction_status e c))
        (ltb (length p.idle_conns) p.max_size) kept closed
    where
      choose :
          (a b d : Bool)
          → Owned e (c ∷ p.idle_conns) leased
          → Owned (finish e c) p.idle_conns leased
          → let r : ConnPool × Env =
              if a
              then (if b
                  then (if d
                      then (record p { idle_conns = c ∷ p.idle_conns }, e)
                      else (p, finish e c))
                  else (p, finish e c))
              else (p, finish e c) in
            Owned r.1 r.0.idle_conns leased
      choose true true true kept closed = kept
      choose true true false kept closed = closed
      choose true false d kept closed = closed
      choose false b d kept closed = closed

  pub release-Owned :
      (p : ConnPool) (c : ℕ) (leased : List ℕ) (e : Env)
      → Owned e p.idle_conns (c ∷ leased)
      → let (p', e') = release pq p (some c) e in Owned e' p'.idle_conns leased
  unfolding release
  release-Owned p c leased e o =
      put_back-Owned (record p { active_count = p.active_count -ℤ pos 1 }) c leased e o

  sweep-Owned :
      (idle leased : List ℕ) (e : Env)
      → Owned e idle leased
      → let (kept, e') = sweep pq idle e in Owned e' kept leased
  unfolding sweep
  sweep-Owned [] leased e o = o
  sweep-Owned (c ∷ cs) leased e o = elim (Bool-cases (is_ok e c)) [
    | inl good ↦
        rw (good, sweep)
          (λ x. omega (arith, sweep-Owned cs (c ∷ leased) e (λ y. omega (arith, o y)) x))
    | inr dead ↦
        rw (dead, sweep) (sweep-Owned cs leased (finish e c) (finish-Owned e c cs leased o))
  ]

  pub health_check-Owned :
      (p : ConnPool) (leased : List ℕ) (e : Env)
      → Owned e p.idle_conns leased
      → let (p', e') = health_check pq p e in Owned e' p'.idle_conns leased
  unfolding health_check
  health_check-Owned p leased e o = sweep-Owned p.idle_conns leased e o
