-- ===== src/Config/Load.antt =====
-- src/config.c: `config_load`. The contents of the file are an argument, `none` if it cannot be opened.
use sharegres.Base.{ℕ, zero, suc, Bool, List, [], ◌∷◌, Option, none, some, length, if◌then◌else◌}
use sharegres.Base.Bytes.{Bytes, codes, equal}
use sharegres.Config.Sections.{Parsed, nothing_parsed, read_lines}
use sharegres.Config.Text.{trim, tokens, lines_from, line_room}
use sharegres.Config.{ShagresCfg, ShardEntry, TmpTableRule, RuleEntry}
use sharegres.ShardMap.{ShardMethod}

-- From the place `i` on; `none` stands for -1.
unfoldable pub find_shard_index : ℕ → List ShardEntry → Bytes → Option ℕ
unfolding equal
find_shard_index i [] name = none
find_shard_index i (s ∷ ss) name =
    let rest = find_shard_index (suc i) ss name in if equal s.name name then some i else rest

-- The loop over the words of a shard list, while there is room in the array. A word that names no shard
-- is left out with a warning.
unfoldable pub resolve : List ShardEntry → ℕ → List Bytes → List ℕ
unfolding find_shard_index trim
resolve shards zero words = []
resolve shards (suc room) [] = []
resolve shards (suc room) (w ∷ ws) = elim (find_shard_index 0 shards (trim w)) [
  | none ↦ resolve shards (suc room) ws
  | some i ↦ i ∷ resolve shards room ws
]

-- The places from `i` on.
unfoldable pub places : ℕ → List ShardEntry → List ℕ
places i [] = []
places i (s ∷ ss) = i ∷ places (suc i) ss

abbrev pub rule_shards : List ShardEntry → Bytes → Bool → List ℕ
rule_shards [] shard_list broadcast = []
rule_shards (s ∷ ss) [] broadcast = if broadcast then places 0 (s ∷ ss) else []
rule_shards (s ∷ ss) (c ∷ cs) broadcast = resolve (s ∷ ss) (length (s ∷ ss)) (tokens (c ∷ cs))

abbrev pub non_empty_text : Bytes → Option Bytes
non_empty_text [] = none
non_empty_text (c ∷ cs) = some (c ∷ cs)

unfoldable pub build_rule : List ShardEntry → TmpTableRule → RuleEntry
unfolding resolve places tokens equal
build_rule shards r = record {
  table_name = r.table_name;
  shard_column = non_empty_text r.shard_column;
  method = if equal r.method (codes "hash") then ShardMethod.hash else ShardMethod.range;
  broadcast = r.broadcast;
  shards = rule_shards shards r.shard_list r.broadcast;
}

unfoldable pub build_rules : List ShardEntry → List TmpTableRule → List RuleEntry
unfolding build_rule
build_rules shards [] = []
build_rules shards (r ∷ rs) = build_rule shards r ∷ build_rules shards rs

unfoldable pub build : Parsed → ShagresCfg
unfolding build_rules
build st = record {
  settings = st.settings;
  shards = st.shards;
  table_rules = build_rules st.shards st.rules;
  pool_size = st.settings.default_pool_size;
}

unfoldable pub config_load : Option Bytes → Option ShagresCfg
unfolding build read_lines lines_from
config_load none = none
config_load (some file) = some (build (read_lines (lines_from line_room file) nothing_parsed))
