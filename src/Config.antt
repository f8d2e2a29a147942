-- ===== src/Config.antt =====
-- src/config.c and config.h: the configuration file. Numbers of type `int` are signed integers; names
-- and values are C strings.
pub mod Text
pub mod Sections
pub mod Load
pub mod Names
pub mod Sound
pub mod Valid
pub mod Start
pub mod Tests
use sharegres.Base.{ℕ, Bool, List, [], Option, none}
use sharegres.Base.Bytes.{Bytes, codes}
use sharegres.Base.Int.{ℤ, pos}
use sharegres.ShardMap.{ShardMethod}

-- src/log.h
pub data LogLevel : Type 0 where
  debug info warn error fatal : LogLevel

-- The fields of `ShagresCfg` but `shard_map`.
pub record Settings : Type 0 where
  pub listen_addr : Bytes
  pub listen_port : ℤ
  pub max_clients : ℤ
  pub log_level : LogLevel
  pub auth_method : ℕ
  pub default_pool_size : ℤ
  pub max_pool_size : ℤ
  pub idle_timeout : ℤ
  pub backend_conninfo : Bytes

-- A `Shard` without its pool. `conninfo` is NULL until the file gives one.
pub record ShardEntry : Type 0 where
  pub name : Bytes
  pub conninfo : Option Bytes
  pub key_range_start : ℕ
  pub key_range_end : ℕ

-- `TmpTableRule`
pub record TmpTableRule : Type 0 where
  pub table_name : Bytes
  pub shard_column : Bytes
  pub method : Bytes
  pub shard_list : Bytes
  pub broadcast : Bool

-- A `TableRule` as it is built: a shard is its place in the array of shards.
pub record RuleEntry : Type 0 where
  pub table_name : Bytes
  pub shard_column : Option Bytes
  pub method : ShardMethod
  pub broadcast : Bool
  pub shards : List ℕ

-- `ShagresCfg`
pub record ShagresCfg : Type 0 where
  pub settings : Settings
  pub shards : List ShardEntry
  pub table_rules : List RuleEntry
  pub pool_size : ℤ

abbrev pub max_shards : ℕ
max_shards = 64

abbrev pub max_tables : ℕ
max_tables = 64

abbrev pub default_settings : Settings
default_settings = record {
  listen_addr = codes "0.0.0.0";
  listen_port = pos 15432;
  max_clients = pos 1024;
  log_level = LogLevel.info;
  auth_method = 0;
  default_pool_size = pos 20;
  max_pool_size = pos 100;
  idle_timeout = pos 300;
  backend_conninfo = codes "host=127.0.0.1 port=5432 dbname=postgres";
}

-- `config_default`: `calloc` leaves the shard map empty.
abbrev pub config_default : ShagresCfg
config_default = record {
  settings = default_settings;
  shards = [];
  table_rules = [];
  pool_size = pos 0;
}
