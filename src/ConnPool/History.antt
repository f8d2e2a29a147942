-- ===== src/ConnPool/History.antt =====
-- Histories of a pool: calls of its operations, between which its connections are used elsewhere.
use sharegres.Base.{
  ℕ, ◌+◌, ◌≡◌, ◌∙◌, ap, refl, List, [], ◌∷◌, ◌++◌, some, arith, length, length-append,
}
use sharegres.Base.Bytes.{Bytes}
use sharegres.Base.Int.{pos}
use sharegres.Libpq.{Libpq, Accounting}
use sharegres.ConnPool.Owners.{count, with_lease, acquire-Owned, release-Owned, health_check-Owned}
use sharegres.ConnPool.Limit.{
  IsBounded, acquire-IsBounded, release-IsBounded, health_check-IsBounded,
}
use sharegres.ConnPool.{ConnPool, init, acquire, release, health_check}

-- A pool, the connections that its clients hold, libpq's state, and how many connections of each handle
-- are open that are not the pool's.
pub record System (pq : Libpq) : Type 0 where
  pub others : ℕ → ℕ
  pub pool : ConnPool
  pub leased : List ℕ
  pub env : pq.Env

count-append : (x : ℕ) (cs bs : List ℕ) → count x (cs ++ bs) ≡ count x cs + count x bs
count-append x [] bs = omega arith
count-append x (c ∷ cs) bs = omega (arith, count-append x cs bs)

module _ (pq : Libpq) (acc : Accounting pq) where
  open acc use {opened}

  abbrev pub after_acquire : System pq → System pq
  after_acquire s =
      let (o, p', e') = acquire pq s.pool s.env in
      record { others = s.others; pool = p'; leased = with_lease o s.leased; env = e' }

  abbrev pub after_release : System pq → ℕ → List ℕ → System pq
  after_release s c leased =
      let (p', e') = release pq s.pool (some c) s.env in
      record { others = s.others; pool = p'; leased = leased; env = e' }

  abbrev pub after_check : System pq → System pq
  after_check s =
      let (p', e') = health_check pq s.pool s.env in
      record { others = s.others; pool = p'; leased = s.leased; env = e' }

  -- Clients release what they hold, and nothing else. `outside` is what happens between the pool's
  -- calls: queries, failing servers, and connections of other pools, or of none, that are opened or
  -- closed. What it opens and closes is not the pool's: it goes to the others' account.
  pub data Step (s : System pq) : System pq → Type 0 where
    acquires : Step s (after_acquire s)
    releases :
        (c : ℕ) (before after : List ℕ)
        → s.leased ≡ before ++ c ∷ after
        → Step s (after_release s c (before ++ after))
    checks : Step s (after_check s)
    outside :
        (e' : pq.Env) (others' : ℕ → ℕ)
        → ((x : ℕ) → opened e' x + s.others x ≡ opened s.env x + others' x)
        → Step s (record s { others = others'; env = e' })

  pub data Reach (s : System pq) : System pq → Type 0 where
    here : Reach s s
    next : {t u : System pq} → Reach s t → Step t u → Reach s u

  pub record Sound (s : System pq) : Type 0 where
    pub bounded : IsBounded s.pool s.leased
    pub owned : (x : ℕ) → opened s.env x ≡ s.others x + count x s.pool.idle_conns + count x s.leased

  reorder :
      (s : System pq) (c : ℕ) (before after : List ℕ)
      → s.leased ≡ before ++ c ∷ after
      → Sound s
      → IsBounded s.pool (c ∷ (before ++ after))
        × ((x : ℕ)
            → opened s.env x
              ≡ s.others x + count x s.pool.idle_conns + count x (c ∷ (before ++ after)))
  reorder s c before after e v =
      let sizes : length s.leased ≡ length (c ∷ (before ++ after)) =
        rw e (omega (arith, length-append before (c ∷ after), length-append before after)) in
      let counts : (x : ℕ) → count x s.leased ≡ count x (c ∷ (before ++ after)) =
        λ x. rw e (omega (arith, count-append x before (c ∷ after), count-append x before after)) in
      (
        record {
          counted = v.bounded.counted ∙ ap pos sizes;
          within = omega (arith, v.bounded.within, sizes);
        },
        λ x. omega (arith, v.owned x, counts x),
      )

  Step-Sound : {s t : System pq} → Step s t → Sound s → Sound t
  Step-Sound {s} acquires v = record {
    bounded = acquire-IsBounded pq s.pool s.leased s.env v.bounded;
    owned = acquire-Owned pq acc s.others s.pool s.leased s.env v.owned;
  }
  Step-Sound {s} (releases c before after e) v =
      let (b, o) = reorder s c before after e v in
      record {
        bounded = release-IsBounded pq s.pool c (before ++ after) s.env b;
        owned = release-Owned pq acc s.others s.pool c (before ++ after) s.env o;
      }
  Step-Sound {s} checks v = record {
    bounded = health_check-IsBounded pq s.pool s.leased s.env v.bounded;
    owned = health_check-Owned pq acc s.others s.pool s.leased s.env v.owned;
  }
  Step-Sound (outside e' others' same) v = record {
    bounded = v.bounded;
    owned = λ x. omega (arith, same x, v.owned x);
  }

  Reach-Sound : {s t : System pq} → Reach s t → Sound s → Sound t
  Reach-Sound here v = v
  Reach-Sound (next r st) v = Step-Sound st (Reach-Sound r v)

-- A pool that begins with no connections, of size `max_size`; `e` is the state of libpq then.
abbrev pub fresh : {pq : Libpq} → (ℕ → ℕ) → Bytes → ℕ → pq.Env → System pq
fresh others conninfo max_size e = record {
  others = others;
  pool = init conninfo max_size;
  leased = [];
  env = e;
}

-- Whatever the history of a pool, where libpq counts open connections as documented, clients release
-- only what they hold, and other code opens and closes only connections of its own: its active count is
-- the number of connections that are held by its clients, these and the idle ones are at most
-- `max_size`, and of each connection handle exactly as many are open as are other code's, are idle in
-- the pool and are held, together.
pub Reach-fresh-Sound :
    (pq : Libpq) (acc : Accounting pq) (conninfo : Bytes) (max_size : ℕ) (e : pq.Env)
    {t : System pq}
    → Reach pq acc (fresh (acc.opened e) conninfo max_size e) t
    → Sound pq acc t
unfolding init
Reach-fresh-Sound pq acc conninfo max_size e r =
    Reach-Sound pq acc r (record {
      bounded = record { counted = refl; within = omega arith };
      owned = λ x. omega arith;
    })
