-- ===== src/Config/Tests.antt =====
-- The shards and a rule of the example configuration, with a rule that lists an unknown shard.
use sharegres.Base.{◌≡◌, refl, All, true, false, List, [], ◌∷◌, ◌++◌, none, some}
use sharegres.Base.Bytes.{Bytes, codes}
use sharegres.Base.Int.{pos, negsuc}
use sharegres.Config.Load.{config_load}
use sharegres.Config.Text.{atoi, strtoull}
use sharegres.Config.Valid.{IsValid, config_load-IsValid}
use sharegres.Config.{ShagresCfg, default_settings}
use sharegres.Config.Start.Routable.{config_load-scatters}
use sharegres.Config.Start.{Opt, Started, shard_map_of, start}
use sharegres.ConnPool
use sharegres.ConnPool.{shard_map_init}
use sharegres.FeProtocol.Reply.{queued}
use sharegres.FeProtocol.Scatter.{Scattered}
use sharegres.FeProtocol.Tests.{ready_session, received}
use sharegres.FeProtocol.{execute_scatter}
use sharegres.Libpq.Tests.{listed}
use sharegres.QueryParser.{ParseResult, StmtType, empty_result}
use sharegres.Router.{decide}
use sharegres.Session.{State}
use sharegres.ShardMap.Range.{Among}
use sharegres.ShardMap.{Shard, ShardMap, ShardMethod}

abbrev text : List Bytes → Bytes
text [] = []
text (l ∷ ls) = l ++ 10 ∷ text ls

abbrev sample : Bytes
sample = text (
    codes "# Shard definitions"
    ∷ codes "[pool]"
    ∷ codes "default_pool_size = 20"
    ∷ []
    ∷ codes "[shard:shard_0]"
    ∷ codes "conninfo = port=5432"
    ∷ codes "key_range_start = 0"
    ∷ codes "key_range_end = 1000000"
    ∷ codes "[shard:shard_1]"
    ∷ codes "key_range_start = 1000000"
    ∷ codes "[table:orders]"
    ∷ codes "shard_column = user_id"
    ∷ codes "method = hash"
    ∷ codes "shards = shard_1, shard_9 , shard_0"
    ∷ codes "[table:users]"
    ∷ codes "broadcast = true"
    ∷ [])

abbrev loaded : ShagresCfg
loaded = record {
  settings = default_settings;
  shards =
      record {
        name = codes "shard_0";
        conninfo = some (codes "port=5432");
        key_range_start = 0;
        key_range_end = 1000000;
      }
      ∷ record {
        name = codes "shard_1";
        conninfo = none;
        key_range_start = 1000000;
        key_range_end = 0;
      }
      ∷ [];
  table_rules =
      record {
        table_name = codes "orders";
        shard_column = some (codes "user_id");
        method = ShardMethod.hash;
        broadcast = false;
        shards = 1 ∷ 0 ∷ [];
      }
      ∷ record {
        table_name = codes "users";
        shard_column = none;
        method = ShardMethod.range;
        broadcast = true;
        shards = 0 ∷ 1 ∷ [];
      }
      ∷ [];
  pool_size = pos 20;
}

config_load-sample : config_load (some sample) ≡ some loaded
unfolding config_load
config_load-sample = refl

atoi-negative : atoi (codes " -12x") ≡ negsuc 11
unfolding atoi
atoi-negative = refl

-- The low 32 bits of 2 ^ 32 + 5.
atoi-wraps : atoi (codes "4294967301") ≡ pos 5
unfolding atoi
atoi-wraps = refl

strtoull-negative : strtoull (codes "-1") ≡ 18446744073709551615
unfolding strtoull
strtoull-negative = refl

config_load-IsValid_example :
    (cfg : ShagresCfg) × (config_load (some sample) ≡ some cfg) × IsValid cfg
config_load-IsValid_example = config_load-IsValid sample

-- Two shards, and a table on both.
abbrev broadcast_file : Bytes
broadcast_file = text (
    codes "[shard:a]"
    ∷ codes "conninfo = port=1"
    ∷ codes "key_range_end = 9"
    ∷ codes "[shard:b]"
    ∷ codes "conninfo = port=2"
    ∷ codes "[table:users]"
    ∷ codes "broadcast = true"
    ∷ [])

abbrev broadcast_cfg : ShagresCfg
broadcast_cfg = record {
  settings = default_settings;
  shards =
      record {
        name = codes "a";
        conninfo = some (codes "port=1");
        key_range_start = 0;
        key_range_end = 9;
      }
      ∷ record {
        name = codes "b";
        conninfo = some (codes "port=2");
        key_range_start = 0;
        key_range_end = 0;
      }
      ∷ [];
  table_rules =
      record {
        table_name = codes "users";
        shard_column = none;
        method = ShardMethod.range;
        broadcast = true;
        shards = 0 ∷ 1 ∷ [];
      }
      ∷ [];
  pool_size = pos 20;
}

abbrev both : List Shard
both =
    record {
      id = 0;
      name = codes "a";
      conninfo = codes "port=1";
      key_range_start = 0;
      key_range_end = 9;
    }
    ∷ record {
      id = 1;
      name = codes "b";
      conninfo = codes "port=2";
      key_range_start = 0;
      key_range_end = 0;
    }
    ∷ []

abbrev broadcast_map : ShardMap
broadcast_map = record {
  shards = both;
  table_rules =
      record {
        table_name = codes "users";
        shard_column = none;
        method = ShardMethod.range;
        broadcast = true;
        shards = both;
      }
      ∷ [];
  pool_size = 20;
}

abbrev select_users : ParseResult
select_users = record empty_result {
  stmt_type = StmtType.select;
  table_name = some (codes "users");
}

abbrev state : State listed
state = record {
  session = ready_session (received []);
  pools = λ id. ConnPool.init (codes "port=1") 4;
  env = [];
}

config_load-scatters_example :
    All (λ s. Among s both) both
    × (let (ok, st') = execute_scatter listed (codes "SELECT 1") both state in
        (ok ≡ true) × Scattered (queued state.session) both st'.session)
config_load-scatters_example =
    unfold config_load shard_map_of decide in
    config_load-scatters listed broadcast_file (codes "SELECT 1") broadcast_cfg broadcast_map
      select_users both state refl refl refl

-- A help option ends the program, and the port of the command line overrides the file's.
start-help : start (λ path. none) (Opt.debug ∷ Opt.help ∷ []) ≡ Started.exits 0
unfolding start
start-help = refl

start-port :
    start
      (λ path. some broadcast_file)
      (Opt.config_file (codes "f") ∷ Opt.listen_port (codes "99") ∷ [])
    ≡ Started.runs
        (record broadcast_cfg { settings = record default_settings { listen_port = pos 99 } })
        broadcast_map
        (shard_map_init both 20)
unfolding start
start-port = refl
