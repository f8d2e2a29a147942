-- ===== src/ConnPool.antt =====
-- src/pool/conn_pool.c and conn_pool.h: the pool of connections to one shard; src/pool/health_check.c.
-- `idle_conns` is a list with the last used slot first, the end at which connections are taken and
-- returned, so `idle_count` is its length. `active_count` is an `int`, which the code never bounds
-- from below. `max_size` is the size asked for, 0 where that is negative.
pub mod History
pub mod Limit
pub mod Owners
pub mod Health
pub mod Refine
pub mod Tests
use sharegres.Base.{
  ℕ, suc, ◌+◌, Bool, true, false, List, [], ◌∷◌, Option, none, some, length, ltb, if◌then◌else◌,
}
use sharegres.Base.Bytes.{Bytes}
use sharegres.Base.Int.{ℤ, pos, ◌+ℤ◌, ◌-ℤ◌, leb_ℤ}
use sharegres.Libpq.{Libpq, TxnStatus}
use sharegres.ShardMap.{ShardMap, Shard}

pub record ConnPool : Type 0 where
  pub conninfo : Bytes
  pub idle_conns : List ℕ
  pub max_size : ℕ
  pub active_count : ℤ

unfoldable pub init : Bytes → ℕ → ConnPool
init conninfo max_size = record {
  conninfo = conninfo;
  idle_conns = [];
  max_size = max_size;
  active_count = pos 0;
}

abbrev pub is_idle : TxnStatus → Bool
is_idle TxnStatus.idle = true
is_idle _ = false

module _ (pq : Libpq) where
  open pq use {Env, is_ok, transaction_status, connectdb, finish}

  -- From the first slot to the last.
  unfoldable pub finish_all : List ℕ → Env → Env
  finish_all [] e = e
  finish_all (c ∷ cs) e = finish (finish_all cs e) c

  -- The pool's memory is freed and zeroed.
  unfoldable pub destroy : ConnPool → Env → ConnPool × Env
  unfolding finish_all init
  destroy p e = (init [] 0, finish_all p.idle_conns e)

  -- `while (pool->idle_count > 0)`: a connection that is still good, the idle ones that are left.
  unfoldable pub take_idle : List ℕ → Env → Option ℕ × List ℕ × Env
  take_idle [] e = (none, [], e)
  take_idle (c ∷ cs) e = elim (is_ok e c) [
    | true ↦ (some c, cs, e)
    | false ↦ take_idle cs (finish e c)
  ]

  -- A new connection, if the limit allows it.
  unfoldable pub connect : ConnPool → Env → Option ℕ × ConnPool × Env
  unfolding ◌+ℤ◌
  connect p e =
      if leb_ℤ (pos p.max_size) p.active_count
      then (none, p, e)
      else let (conn, e') = connectdb e p.conninfo in
        if is_ok e' conn
        then (some conn, record p { active_count = p.active_count +ℤ pos 1 }, e')
        else (none, p, finish e' conn)

  -- Behind the loop: a reused connection counts as active, and without one a new one is made.
  unfoldable pub grant : ConnPool → Option ℕ × List ℕ × Env → Option ℕ × ConnPool × Env
  unfolding connect ◌+ℤ◌
  grant p (none, left, e) = connect (record p { idle_conns = left }) e
  grant p (some c, left, e) =
      (some c, record p { idle_conns = left; active_count = p.active_count +ℤ pos 1 }, e)

  unfoldable pub acquire : ConnPool → Env → Option ℕ × ConnPool × Env
  unfolding take_idle grant
  acquire p e = grant p (take_idle p.idle_conns e)

  -- A live connection outside any transaction goes back, if there is room; any other is closed.
  unfoldable pub put_back : ConnPool → ℕ → Env → ConnPool × Env
  put_back p conn e =
      if is_ok e conn
      then (if is_idle (transaction_status e conn)
          then (if ltb (length p.idle_conns) p.max_size
              then (record p { idle_conns = conn ∷ p.idle_conns }, e)
              else (p, finish e conn))
          else (p, finish e conn))
      else (p, finish e conn)

  unfoldable pub release : ConnPool → Option ℕ → Env → ConnPool × Env
  unfolding put_back ◌-ℤ◌
  release p none e = (p, e)
  release p (some conn) e = put_back (record p { active_count = p.active_count -ℤ pos 1 }) conn e

  -- The loop from the last slot to the first; what is behind a removed slot moves up.
  unfoldable pub sweep : List ℕ → Env → List ℕ × Env
  sweep [] e = ([], e)
  sweep (c ∷ cs) e =
      let (kept, e') = sweep cs (if is_ok e c then e else finish e c) in
      (if is_ok e c then c ∷ kept else kept, e')

  unfoldable pub health_check : ConnPool → Env → ConnPool × Env
  unfolding sweep
  health_check p e = let (kept, e') = sweep p.idle_conns e in (record p { idle_conns = kept }, e')

  -- `health_check_all` and the pools' parts of `shard_map_init` and `shard_map_destroy`, over the
  -- pools of the shards in their order.
  unfoldable pub health_check_all : List ConnPool → Env → List ConnPool × Env
  unfolding health_check
  health_check_all [] e = ([], e)
  health_check_all (p ∷ ps) e =
      let (p', e') = health_check p e in let (ps', e'') = health_check_all ps e' in (p' ∷ ps', e'')

  unfoldable pub destroy_all : List ConnPool → Env → List ConnPool × Env
  unfolding destroy
  destroy_all [] e = ([], e)
  destroy_all (p ∷ ps) e =
      let (p', e') = destroy p e in let (ps', e'') = destroy_all ps e' in (p' ∷ ps', e'')

unfoldable pub shard_map_init : List Shard → ℕ → List ConnPool
unfolding init
shard_map_init [] pool_size = []
shard_map_init (s ∷ ss) pool_size = init s.conninfo pool_size ∷ shard_map_init ss pool_size
