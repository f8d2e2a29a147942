-- ===== src/ConnPool/Health.antt =====
-- The connections that the pool hands out, takes back and keeps.
use sharegres.Base.{
  ℕ, ◌≤◌, ◌<◌, ◌≡◌, ◌≢◌, ◌⊎◌, inl, inr, refl, ap, ◌∙◌, true, false, Bool, Bool-cases, List, [], ◌∷◌,
  Option, none, some, arith, length, All, if◌then◌else◌,
}
use sharegres.Base.Int.{ltb_ℤ, pos, ◌≤ℤ◌, leb_ℤ, ◌-ℤ◌}
use sharegres.Libpq.{Libpq, TxnStatus, Independent}
use sharegres.ConnPool.{ConnPool, take_idle, connect, grant, acquire, release, sweep, health_check}

-- The elements that pass a test, in their order.
abbrev pub keep : (ℕ → Bool) → List ℕ → List ℕ
keep test [] = []
keep test (c ∷ cs) = if test c then c ∷ keep test cs else keep test cs

abbrev pub Distinct : List ℕ → Type 0
Distinct [] = Unit {0}
Distinct (c ∷ cs) = All (λ d. c ≢ d) cs × Distinct cs

module _ (pq : Libpq) where
  open pq use {Env, is_ok, connectdb, finish, transaction_status}

  -- All of them are closed, from the first on.
  abbrev pub discard : List ℕ → Env → Env
  discard [] e = e
  discard (c ∷ cs) e = discard cs (finish e c)

  -- What a connect comes to that gives none: the limit is reached and nothing was tried; or the limit is
  -- not reached, and the new connection is not good and is closed.
  abbrev pub Refused : ConnPool → Env → Env → Type 0
  Refused p e e' =
      ((pos p.max_size ≤ℤ p.active_count) × (e' ≡ e))
      ⊎ ((ltb_ℤ p.active_count (pos p.max_size) ≡ true)
          × (is_ok (connectdb e p.conninfo).1 (connectdb e p.conninfo).0 ≡ false)
          × (e' ≡ finish (connectdb e p.conninfo).1 (connectdb e p.conninfo).0))

  -- What the caller of `acquire` gets: a live connection; or none, and then all idle connections were
  -- closed, and the connect behind that gave none.
  abbrev pub Acquired : ConnPool → Env → Option ℕ × ConnPool × Env → Type 0
  Acquired p e (some c, _, e') = is_ok e' c ≡ true
  Acquired p e (none, p', e') =
      (p' ≡ record p { idle_conns = [] }) × Refused p (discard p.idle_conns e) e'

  take_idle-is_ok :
      (idle : List ℕ) (e : Env) (c : ℕ)
      → (take_idle pq idle e).0 ≡ some c
      → is_ok (take_idle pq idle e).2 c ≡ true
  unfolding take_idle
  take_idle-is_ok [] e c h = cc
  take_idle-is_ok (d ∷ ds) e c h = elim (Bool-cases (is_ok e d)) [
    | inl good ↦ rw (good, take_idle) (ground (arith, rw (good, take_idle) at h))
    | inr dead ↦
        rw (dead, take_idle) (take_idle-is_ok ds (finish e d) c (rw (dead, take_idle) at h))
  ]

  take_idle-discard :
      (idle : List ℕ) (e : Env)
      → (take_idle pq idle e).0 ≡ none
      → ((take_idle pq idle e).1 ≡ []) × ((take_idle pq idle e).2 ≡ discard idle e)
  unfolding take_idle
  take_idle-discard [] e h = (refl, refl)
  take_idle-discard (d ∷ ds) e h = elim (Bool-cases (is_ok e d)) [
    | inl good ↦ absurd (some-not_none (rw (good, take_idle) at h))
    | inr dead ↦
        rw (dead, take_idle) (take_idle-discard ds (finish e d) (rw (dead, take_idle) at h))
  ]
    where
      some-not_none : some d ≡ none → ⊥
      some-not_none q = cc

  connect-Acquired :
      (p : ConnPool) (e : Env)
      → let (o, p', e') = connect pq p e in
        (((c : ℕ) → o ≡ some c → is_ok e' c ≡ true)) × (o ≡ none → (p' ≡ p) × Refused p e e')
  unfolding connect
  connect-Acquired p e = elim (Bool-cases (leb_ℤ (pos p.max_size) p.active_count)) [
    | inl full ↦ rw (full, connect) ((λ c h. cc), (λ h. (refl, inl (ground arith, refl))))
    | inr room ↦ elim (Bool-cases (is_ok (connectdb e p.conninfo).1 (connectdb e p.conninfo).0)) [
      | inl good ↦ rw (room, connect, good) ((λ c h. ground (arith, good)), (λ h. cc))
      | inr dead ↦
          rw (room, connect, dead) ((λ c h. cc), (λ h. (refl, inr (ground arith, refl, refl))))
    ]
  ]

  grant-Acquired :
      (p : ConnPool) (e : Env) (r : Option ℕ × List ℕ × Env)
      → ((c : ℕ) → r.0 ≡ some c → is_ok r.2 c ≡ true)
      → (r.0 ≡ none → (r.1 ≡ []) × (r.2 ≡ discard p.idle_conns e))
      → Acquired p e (grant pq p r)
  unfolding grant
  grant-Acquired p e (some c, left, e') h all = h c refl
  grant-Acquired p e (none, left, e') h all =
      let (empty, closed) = all refl in
      rw (empty, closed)
        (tied (connect pq (record p { idle_conns = [] }) (discard p.idle_conns e))
          (connect-Acquired (record p { idle_conns = [] }) (discard p.idle_conns e)))
    where
      tied :
          (q : Option ℕ × ConnPool × Env)
          → ((c : ℕ) → q.0 ≡ some c → is_ok q.2 c ≡ true)
            × (q.0 ≡ none
                → (q.1 ≡ record p { idle_conns = [] })
                  × Refused (record p { idle_conns = [] }) (discard p.idle_conns e) q.2)
          → Acquired p e q
      tied (some c, p', e'') f = f.0 c refl
      tied (none, p', e'') f = f.1 refl

  -- `acquire` gives a connection whose status is good in the state that it leaves, or none. Where it
  -- gives none, it has closed all idle connections, from the top of the stack on, and the pool is
  -- otherwise unchanged. Then either the active count had reached `max_size`, and nothing more was done,
  -- or it had not, and the new connection that was made is not good and was closed.
  pub acquire-Acquired : (p : ConnPool) (e : Env) → Acquired p e (acquire pq p e)
  unfolding acquire
  acquire-Acquired p e =
      grant-Acquired p e (take_idle pq p.idle_conns e) (take_idle-is_ok p.idle_conns e)
        (take_idle-discard p.idle_conns e)

  -- `release` puts a connection back exactly if it is good, outside a transaction, and there is room;
  -- otherwise it closes it. Either way the other idle connections stay and one fewer is active.
  pub release-puts_back :
      (p : ConnPool) (c : ℕ) (e : Env)
      → let (p', e') = release pq p (some c) e in
        (p'.active_count ≡ p.active_count -ℤ pos 1)
        × (((is_ok e c ≡ true)
              × (transaction_status e c ≡ TxnStatus.idle)
              × (length p.idle_conns < p.max_size)
              × (p'.idle_conns ≡ c ∷ p.idle_conns)
              × (e' ≡ e))
            ⊎ (((is_ok e c ≡ false)
                  ⊎ (transaction_status e c ≢ TxnStatus.idle)
                  ⊎ (p.max_size ≤ length p.idle_conns))
                × (p'.idle_conns ≡ p.idle_conns)
                × (e' ≡ finish e c)))
  unfolding release
  release-puts_back p c e = ground arith

  module _ (ind : Independent pq) where
    open ind use {is_ok-finish}

    keep-finish :
        (e : Env) (c : ℕ) (cs : List ℕ)
        → All (λ d. c ≢ d) cs
        → keep (is_ok (finish e c)) cs ≡ keep (is_ok e) cs
    keep-finish e c [] h = refl
    keep-finish e c (d ∷ ds) h = rw (is_ok-finish e c d h.0, keep-finish e c ds h.1)

    sweep-keep :
        (idle : List ℕ) (e : Env) → Distinct idle → (sweep pq idle e).0 ≡ keep (is_ok e) idle
    unfolding sweep
    sweep-keep [] e h = refl
    sweep-keep (c ∷ cs) e h = elim (Bool-cases (is_ok e c)) [
      | inl good ↦ rw (good, sweep) (ap (◌∷◌ c) (sweep-keep cs e h.1))
      | inr dead ↦ rw (dead, sweep) (sweep-keep cs (finish e c) h.1 ∙ keep-finish e c cs h.0)
    ]

    -- Where the pool holds no connection twice and closing one leaves the status of the others, a
    -- health check keeps exactly the good idle connections, in their order, and nothing else changes.
    pub health_check-keep :
        (p : ConnPool) (e : Env)
        → Distinct p.idle_conns
        → (health_check pq p e).0 ≡ record p { idle_conns = keep (is_ok e) p.idle_conns }
    unfolding health_check
    health_check-keep p e h = rw (sweep-keep p.idle_conns e h)
