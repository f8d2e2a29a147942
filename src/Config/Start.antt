-- ===== src/Config/Start.antt =====
-- src/main.c: the command line, the choice of the configuration, and the shard map with its pools. What
-- `getopt` gives is a list of options; `open_file` is the file system.
pub mod Routable
use sharegres.Base.{
  ℕ, suc, Bool, true, false, List, [], ◌∷◌, ◌++◌, Option, none, some, ◌⊎◌, inl, inr, take,
  get_elem?, if◌then◌else◌, ◌>>=◌,
}
use sharegres.Base.Bytes.{Bytes, codes}
use sharegres.Base.Int.{ℤ, pos, pos_part, ltb_ℤ}
use sharegres.Config.Load.{config_load}
use sharegres.Config.Text.{atoi}
use sharegres.Config.{ShagresCfg, ShardEntry, RuleEntry, LogLevel, config_default}
use sharegres.ConnPool.{ConnPool, shard_map_init}
use sharegres.ShardMap.{Shard, ShardMap, TableRule}

-- `-c`, `-d`, `-l`, `-b`, `-D`, `-h`, and any other.
pub data Opt : Type 0 where
  config_file basedir listen_port backend : Bytes → Opt
  debug help unknown : Opt

-- The local variables that the options set.
pub record Cli : Type 0 where
  pub config_file : Option Bytes
  pub basedir : Option Bytes
  pub cli_backend : Option Bytes
  pub cli_port : ℤ
  pub debug : Bool

abbrev pub no_options : Cli
no_options = record {
  config_file = none;
  basedir = none;
  cli_backend = none;
  cli_port = pos 0;
  debug = false;
}

-- The exit code, or the options.
unfoldable pub read_options : List Opt → Cli → ℕ ⊎ Cli
unfolding atoi
read_options [] cli = inr cli
read_options (Opt.config_file arg ∷ opts) cli =
    read_options opts (record cli { config_file = some arg })
read_options (Opt.basedir arg ∷ opts) cli = read_options opts (record cli { basedir = some arg })
read_options (Opt.listen_port arg ∷ opts) cli =
    read_options opts (record cli { cli_port = atoi arg })
read_options (Opt.backend arg ∷ opts) cli =
    read_options opts (record cli { cli_backend = some arg })
read_options (Opt.debug ∷ opts) cli = read_options opts (record cli { debug = true })
read_options (Opt.help ∷ opts) cli = inl 0
read_options (Opt.unknown ∷ opts) cli = inl 1

-- The path in a buffer of 1024 bytes.
abbrev pub config_path : Option Bytes → Option Bytes → Bytes
config_path (some file) _ = take 1023 file
config_path none (some dir) = take 1023 (dir ++ codes "/sharegres.cnf")
config_path none none = []

module _ (open_file : Bytes → Option Bytes) where
  unfoldable pub load_path : Bytes → Option ShagresCfg
  unfolding config_load
  load_path [] = some config_default
  load_path (c ∷ cs) = config_load (open_file (c ∷ cs))

  -- The options that override the file.
  abbrev pub override_port : ℤ → ShagresCfg → ShagresCfg
  override_port port cfg =
      if ltb_ℤ (pos 0) port
      then record cfg { settings = record cfg.settings { listen_port = port } }
      else cfg

  abbrev pub override_backend : Option Bytes → ShagresCfg → ShagresCfg
  override_backend none cfg = cfg
  override_backend (some conninfo) cfg = record cfg {
    settings = record cfg.settings { backend_conninfo = conninfo };
  }

  abbrev pub override_debug : Bool → ShagresCfg → ShagresCfg
  override_debug true cfg = record cfg {
    settings = record cfg.settings { log_level = LogLevel.debug };
  }
  override_debug false cfg = cfg

  unfoldable pub overridden : Cli → ShagresCfg → ShagresCfg
  overridden cli cfg =
      override_debug cli.debug (override_backend cli.cli_backend (override_port cli.cli_port cfg))

  unfoldable pub configure : Cli → Option ShagresCfg
  unfolding load_path overridden
  configure cli =
      load_path (config_path cli.config_file cli.basedir) >>= λ cfg. some (overridden cli cfg)

-- The array of shards, as the pools are made for it: `none` where a shard has no `conninfo`, which
-- `conn_pool_init` gives to `strdup`.
unfoldable pub open_shards : ℕ → List ShardEntry → Option (List Shard)
open_shards i [] = some []
open_shards i (s ∷ ss) = s.conninfo >>= λ conninfo. open_shards (suc i) ss >>= λ rest. some (
    record {
      id = i;
      name = s.name;
      conninfo = conninfo;
      key_range_start = s.key_range_start;
      key_range_end = s.key_range_end;
    }
    ∷ rest)

-- The shards at these places. A place past the end would be a pointer behind the array, and is a fault;
-- it does not occur (`Routable`).
unfoldable pub pick : List Shard → List ℕ → Option (List Shard)
pick shards [] = some []
pick shards (i ∷ is) = get_elem? shards i >>= λ s. pick shards is >>= λ rest. some (s ∷ rest)

unfoldable pub rule_of : List Shard → RuleEntry → Option TableRule
unfolding pick
rule_of shards r = pick shards r.shards >>= λ picked. some (record {
  table_name = r.table_name;
  shard_column = r.shard_column;
  method = r.method;
  broadcast = r.broadcast;
  shards = picked;
})

unfoldable pub rules_of : List Shard → List RuleEntry → Option (List TableRule)
unfolding rule_of
rules_of shards [] = some []
rules_of shards (r ∷ rs) =
    rule_of shards r >>= λ rule. rules_of shards rs >>= λ rules. some (rule ∷ rules)

unfoldable pub shard_map_of : ShagresCfg → Option ShardMap
unfolding open_shards rules_of
shard_map_of cfg = open_shards 0 cfg.shards >>= λ shards.
    rules_of shards cfg.table_rules >>= λ rules.
    some (record { shards = shards; table_rules = rules; pool_size = pos_part cfg.pool_size })

-- What `main` has before the event loop runs.
pub data Started : Type 0 where
  exits : ℕ → Started
  faults : Started
  runs : ShagresCfg → ShardMap → List ConnPool → Started

abbrev pub with_map : ShagresCfg → Option ShardMap → Started
with_map cfg none = faults
with_map cfg (some m) = runs cfg m (shard_map_init m.shards m.pool_size)

abbrev pub after_options : (Bytes → Option Bytes) → ℕ ⊎ Cli → Started
after_options open_file (inl code) = exits code
after_options open_file (inr cli) = elim (configure open_file cli) [
  | none ↦ exits 1
  | some cfg ↦ with_map cfg (shard_map_of cfg)
]

unfoldable pub start : (Bytes → Option Bytes) → List Opt → Started
unfolding configure shard_map_of shard_map_init read_options
start open_file opts = after_options open_file (read_options opts no_options)
