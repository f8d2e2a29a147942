-- ===== src/ConnPool/Tests.antt =====
-- A pool over a small libpq.
use sharegres.Base.{◌≤◌, ◌<◌, ◌≡◌, ◌≢◌, ◌⊎◌, refl, true, false, [], ◌∷◌, some, arith, length}
use sharegres.Base.Bytes.{codes}
use sharegres.Base.Int.{pos, ◌-ℤ◌}
use sharegres.ConnPool.Health.{
  acquire-Acquired, release-puts_back, health_check-keep, keep, Acquired,
}
use sharegres.ConnPool.History.{
  Reach-fresh-Sound, Reach, here, next, acquires, releases, checks, outside, System, Sound, fresh,
  after_acquire, after_check, after_release,
}
use sharegres.ConnPool.Refine.{Run, trace, Reach-fresh-Run}
use sharegres.ConnPool.{ConnPool, acquire, release, health_check, init}
use sharegres.Libpq.Tests.{listed, listed_accounting, listed_independent}
use sharegres.Libpq.{TxnStatus}

abbrev start : System listed
start = fresh (listed_accounting.opened (9 ∷ [])) (codes "host=a") 1 (9 ∷ [])

-- A client gets a connection, a second one is refused, another pool opens connection 6, the first
-- connection is released, and the pool is checked.
abbrev refused : System listed
refused = after_acquire listed listed_accounting (after_acquire listed listed_accounting start)

abbrev with_other : System listed
with_other = record refused {
  others = listed_accounting.opened (6 ∷ 9 ∷ []);
  env = 6 ∷ refused.env;
}

abbrev last : System listed
last = after_check listed listed_accounting (after_release listed listed_accounting with_other 1 [])

abbrev history : Reach listed listed_accounting start last
unfolding acquire init
history =
    next
      (next
        (next (next (next here acquires) acquires)
          (outside (6 ∷ refused.env) (listed_accounting.opened (6 ∷ 9 ∷ [])) (λ x. omega arith)))
        (releases 1 [] [] refl))
      checks

Reach-fresh-Sound_example : Sound listed listed_accounting last
Reach-fresh-Sound_example =
    Reach-fresh-Sound listed listed_accounting (codes "host=a") 1 (9 ∷ []) history

Reach-fresh-Run_example :
    (last.pool.max_size ≡ 1)
    × Run 1
        (trace listed listed_accounting history)
        (length last.pool.idle_conns)
        (length last.leased)
Reach-fresh-Run_example =
    Reach-fresh-Run listed listed_accounting (codes "host=a") 1 (9 ∷ []) history

-- Connection 5 was closed behind the pool's back.
abbrev stale : ConnPool
stale = record {
  conninfo = codes "host=a";
  idle_conns = 5 ∷ 3 ∷ [];
  max_size = 4;
  active_count = pos 1;
}

acquire-stale :
    acquire listed stale (3 ∷ 7 ∷ [])
    ≡ (some 3, record stale { idle_conns = []; active_count = pos 2 }, 3 ∷ 7 ∷ [])
unfolding acquire
acquire-stale = refl

acquire-Acquired_example : Acquired listed stale (3 ∷ 7 ∷ []) (acquire listed stale (3 ∷ 7 ∷ []))
acquire-Acquired_example = acquire-Acquired listed stale (3 ∷ 7 ∷ [])

release-puts_back_example :
    let (p', e') = release listed stale (some 7) (3 ∷ 7 ∷ []) in
    (p'.active_count ≡ stale.active_count -ℤ pos 1)
    × (((listed.is_ok (3 ∷ 7 ∷ []) 7 ≡ true)
          × (listed.transaction_status (3 ∷ 7 ∷ []) 7 ≡ TxnStatus.idle)
          × (length stale.idle_conns < stale.max_size)
          × (p'.idle_conns ≡ 7 ∷ stale.idle_conns)
          × (e' ≡ 3 ∷ 7 ∷ []))
        ⊎ (((listed.is_ok (3 ∷ 7 ∷ []) 7 ≡ false)
              ⊎ (listed.transaction_status (3 ∷ 7 ∷ []) 7 ≢ TxnStatus.idle)
              ⊎ (stale.max_size ≤ length stale.idle_conns))
            × (p'.idle_conns ≡ stale.idle_conns)
            × (e' ≡ listed.finish (3 ∷ 7 ∷ []) 7)))
release-puts_back_example = release-puts_back listed stale 7 (3 ∷ 7 ∷ [])

health_check-keep_example :
    (health_check listed stale (3 ∷ 7 ∷ [])).0
    ≡ record stale { idle_conns = keep (listed.is_ok (3 ∷ 7 ∷ [])) stale.idle_conns }
health_check-keep_example =
    health_check-keep listed listed_independent stale (3 ∷ 7 ∷ [])
      (((λ e. omega (arith, e)), tt), (tt, tt))
