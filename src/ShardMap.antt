-- ===== src/ShardMap.antt =====
-- src/router/shard_map.c and shard_map.h: shards, table rules, and the search for a key's shard.
-- Shards and rules do not change after the configuration is read, so a `Shard *` is the shard itself,
-- with its place in the global array as `id`; its connection pool is kept apart (ConnPool). `uint64_t`
-- is a number below 2 ^ 64; `char` is signed, as on x86-64.
pub mod Range
pub mod Hash
pub mod Rules
pub mod Tests
use sharegres.Base.{
  ℕ, suc, ◌+◌, ◌-◌, ◌*◌, ◌%◌, ◌^◌, Bool, true, false, ◌&&◌, List, [], ◌∷◌, Option, none, some,
  length, get_elem?, leb, ltb, if◌then◌else◌,
}
use sharegres.Base.Bytes.{Bytes, equal}
use sharegres.Base.Int.{ℤ, pos, negsuc}

pub data ShardMethod : Type 0 where
  range hash : ShardMethod

pub record Shard : Type 0 where
  pub id : ℕ
  pub name : Bytes
  pub conninfo : Bytes
  pub key_range_start : ℕ
  pub key_range_end : ℕ

-- `shards` is the array `shards` with its `shard_count`.
pub record TableRule : Type 0 where
  pub table_name : Bytes
  pub shard_column : Option Bytes
  pub method : ShardMethod
  pub broadcast : Bool
  pub shards : List Shard

pub record ShardMap : Type 0 where
  pub shards : List Shard
  pub table_rules : List TableRule
  pub pool_size : ℕ

abbrev pub u64_mod : ℕ
u64_mod = 2 ^ 64

-- `(uint64_t)key` of an `int64_t`
unfoldable pub to_u64 : ℤ → ℕ
to_u64 (pos n) = n % u64_mod
to_u64 (negsuc n) = u64_mod - 1 - n % u64_mod

unfoldable pub find_rule_in : List TableRule → Bytes → Option TableRule
unfolding equal
find_rule_in [] table_name = none
find_rule_in (rule ∷ rules) table_name =
    let rest = find_rule_in rules table_name in
    if equal rule.table_name table_name then some rule else rest

unfoldable pub find_rule : ShardMap → Option Bytes → Option TableRule
unfolding find_rule_in
find_rule map_ none = none
find_rule map_ (some table_name) = find_rule_in map_.table_rules table_name

abbrev pub in_range : ℕ → Shard → Bool
in_range key s = leb s.key_range_start key && ltb key s.key_range_end

-- The loop over the ranges, and the shard that is taken where no range fits.
unfoldable pub scan_ranges : ℕ → List Shard → Shard → Shard
scan_ranges key [] fallback = fallback
scan_ranges key (s ∷ shards) fallback =
    let rest = scan_ranges key shards fallback in if in_range key s then s else rest

-- `rule->shards[(int)(key % rule->shard_count)]`
abbrev pub nth_shard : ℕ → List Shard → Option Shard
nth_shard key shards = get_elem? shards (key % length shards)

unfoldable pub find_in_range : ℕ → List Shard → Option Shard
unfolding scan_ranges
find_in_range key [] = none
find_in_range key (s ∷ shards) = some (scan_ranges key (s ∷ shards) s)

unfoldable pub find_by_u64 : ShardMethod → ℕ → List Shard → Option Shard
unfolding find_in_range
find_by_u64 ShardMethod.range key shards = find_in_range key shards
find_by_u64 ShardMethod.hash key [] = none
find_by_u64 ShardMethod.hash key (s ∷ shards) = nth_shard key (s ∷ shards)

unfoldable pub find_by_int : TableRule → ℤ → Option Shard
unfolding find_by_u64 to_u64
find_by_int rule key = find_by_u64 rule.method (to_u64 key) rule.shards

-- `(uint64_t)*p` of a signed `char`
abbrev pub char_u64 : ℕ → ℕ
char_u64 c = if ltb c 128 then c else u64_mod + c - 256

-- `hash = ((hash << 5) + hash) + (uint64_t)*p;`
unfoldable pub string_hash : ℕ → Bytes → ℕ
string_hash h [] = h
string_hash h (c ∷ cs) = string_hash (((h * 32) % u64_mod + h + char_u64 c) % u64_mod) cs

unfoldable pub find_by_str : TableRule → Bytes → Option Shard
unfolding find_by_u64 string_hash
find_by_str rule key = find_by_u64 rule.method (string_hash 5381 key) rule.shards

unfoldable pub get_all : TableRule → List Shard
get_all rule = rule.shards
