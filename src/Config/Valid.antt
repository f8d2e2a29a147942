-- ===== src/Config/Valid.antt =====
-- Whatever the file holds, the configuration that is built from it is valid.
use sharegres.Base.{
  ℕ, zero, suc, ◌+◌, ◌≤◌, ◌<◌, ◌≡◌, refl, ap, subst, arith, Bool, Bool-cases, Option-cases, inl,
  inr, true, false, List, [], ◌∷◌, Option, none, some, length, All,
}
use sharegres.Base.Bytes.{Bytes, equal}
use sharegres.Config.Load.{
  find_shard_index, resolve, places, rule_shards, non_empty_text, build_rule, build_rules, build,
  config_load,
}
use sharegres.Config.Names.{Distinct, names_of}
use sharegres.Config.Sections.{Parsed, nothing_parsed, read_lines}
use sharegres.Config.Sound.{IsSound, read_lines-IsSound}
use sharegres.Config.Text.{trim, tokens, lines_from, line_room}
use sharegres.Config.{ShagresCfg, ShardEntry, TmpTableRule, RuleEntry, max_shards, max_tables}

abbrev pub IsColumn : Option Bytes → Type 0
IsColumn none = Unit
IsColumn (some column) = 0 < length column

-- A rule's shards are shards of the map, and not more than there are; its column has a name.
abbrev pub IsRule : List ShardEntry → RuleEntry → Type 0
IsRule shards r =
    All (λ i. i < length shards) r.shards
    × (length r.shards ≤ length shards)
    × IsColumn r.shard_column

pub record IsValid (cfg : ShagresCfg) : Type 0 where
  pub few_shards : length cfg.shards ≤ max_shards
  pub few_rules : length cfg.table_rules ≤ max_tables
  pub shard_names : Distinct (names_of (λ s. s.name) cfg.shards)
  pub table_names : Distinct (names_of (λ r. r.table_name) cfg.table_rules)
  pub rules : All (λ r. IsRule cfg.shards r) cfg.table_rules

Within : ℕ → Option ℕ → Type 0
Within n none = Unit
Within n (some i) = i < n

find_shard_index-Within :
    (i : ℕ) (ss : List ShardEntry) (name : Bytes) (n : ℕ)
    → i + length ss ≤ n
    → Within n (find_shard_index i ss name)
unfolding find_shard_index Within
find_shard_index-Within i [] name n h = tt
find_shard_index-Within i (s ∷ ss) name n h = elim (Bool-cases (equal s.name name)) [
  | inl same ↦ rw same (omega (arith, h))
  | inr differs ↦ rw differs (find_shard_index-Within (suc i) ss name n (omega (arith, h)))
]

-- What `resolve` gives for the room that is left.
abbrev AllWithin : ℕ → ℕ → List ℕ → Type 0
AllWithin n room is = All (λ i. i < n) is × (length is ≤ room)

resolve-AllWithin :
    (shards : List ShardEntry) (room : ℕ) (words : List Bytes)
    → AllWithin (length shards) room (resolve shards room words)
unfolding resolve Within
resolve-AllWithin shards zero words = (tt, omega arith)
resolve-AllWithin shards (suc room) [] = (tt, omega arith)
resolve-AllWithin shards (suc room) (w ∷ ws) =
    let found = find_shard_index-Within 0 shards (trim w) (length shards) (omega arith) in
    elim (Option-cases (find_shard_index 0 shards (trim w))) [
      | inl e ↦ rw (resolve, e) (resolve-AllWithin shards (suc room) ws)
      | inr (i, e) ↦
          let (within, few) = resolve-AllWithin shards room ws in
          let known : i < length shards = subst (λ o. Within (length shards) o) e found in
          rw (resolve, e) ((known, within), omega (arith, few))
    ]

places-AllWithin :
    (i : ℕ) (ss : List ShardEntry) (n : ℕ)
    → i + length ss ≤ n
    → AllWithin n (length ss) (places i ss)
unfolding places
places-AllWithin i [] n h = (tt, omega arith)
places-AllWithin i (s ∷ ss) n h =
    let (within, few) = places-AllWithin (suc i) ss n (omega (arith, h)) in
    ((omega (arith, h), within), omega (arith, few))

rule_shards-AllWithin :
    (shards : List ShardEntry) (shard_list : Bytes) (broadcast : Bool)
    → AllWithin (length shards) (length shards) (rule_shards shards shard_list broadcast)
rule_shards-AllWithin [] shard_list broadcast = (tt, omega arith)
rule_shards-AllWithin (s ∷ ss) [] true = places-AllWithin 0 (s ∷ ss) (length (s ∷ ss)) (omega arith)
rule_shards-AllWithin (s ∷ ss) [] false = (tt, omega arith)
rule_shards-AllWithin (s ∷ ss) (c ∷ cs) broadcast =
    resolve-AllWithin (s ∷ ss) (length (s ∷ ss)) (tokens (c ∷ cs))

non_empty_text-IsColumn : (text : Bytes) → IsColumn (non_empty_text text)
non_empty_text-IsColumn [] = tt
non_empty_text-IsColumn (c ∷ cs) = omega arith

build_rules-IsRule :
    (shards : List ShardEntry) (rs : List TmpTableRule)
    → All (λ r. IsRule shards r) (build_rules shards rs)
unfolding build_rules build_rule
build_rules-IsRule shards [] = tt
build_rules-IsRule shards (r ∷ rs) =
    let (within, few) = rule_shards-AllWithin shards r.shard_list r.broadcast in
    ((within, few, non_empty_text-IsColumn r.shard_column), build_rules-IsRule shards rs)

names-build_rules :
    (shards : List ShardEntry) (rs : List TmpTableRule)
    → names_of (λ r. r.table_name) (build_rules shards rs) ≡ names_of (λ r. r.table_name) rs
unfolding build_rules build_rule
names-build_rules shards [] = refl
names-build_rules shards (r ∷ rs) = ap (◌∷◌ r.table_name) (names-build_rules shards rs)

length-build_rules :
    (shards : List ShardEntry) (rs : List TmpTableRule) → length (build_rules shards rs) ≡ length rs
unfolding build_rules
length-build_rules shards [] = refl
length-build_rules shards (r ∷ rs) = ap suc (length-build_rules shards rs)

build-IsValid : (st : Parsed) → IsSound st → IsValid (build st)
unfolding build
build-IsValid st h = record {
  few_shards = h.few_shards;
  few_rules = rw (length-build_rules st.shards st.rules) h.few_rules;
  shard_names = h.shard_names;
  table_names = rw (names-build_rules st.shards st.rules) h.table_names;
  rules = build_rules-IsRule st.shards st.rules;
}

-- Any file that can be opened is loaded, whatever it holds. The configuration has at most 64 shards and
-- at most 64 table rules, no two shards of one name and no two rules for one table. The shards of a rule
-- are shards of the configuration, not more than there are, and a rule's column, if it has one, is
-- not the empty name.
pub config_load-IsValid :
    (file : Bytes) → (cfg : ShagresCfg) × (config_load (some file) ≡ some cfg) × IsValid cfg
unfolding config_load
config_load-IsValid file =
    let st = read_lines (lines_from line_room file) nothing_parsed in
    (
      build st,
      refl,
      build-IsValid st (
          read_lines-IsSound (lines_from line_room file) nothing_parsed (record {
            few_shards = omega arith;
            few_rules = omega arith;
            shard_names = tt;
            table_names = tt;
            short_arg = omega arith;
          })),
    )
