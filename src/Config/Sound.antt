-- ===== src/Config/Sound.antt =====
-- What the loop of `config_load` over the lines keeps, whatever the lines are.
use sharegres.Base.{
  ℕ, zero, suc, ◌≤◌, ◌≡◌, refl, ap, arith, Bool, Bool-cases, inl, inr, true, false, List, [], ◌∷◌,
  Option, none, some, length, take, leb, ◌==◌, if◌then◌else◌,
}
use sharegres.Base.Bytes.{Bytes, codes, equal}
use sharegres.Config.Names.{Distinct, names_of, Distinct-update, length-update}
use sharegres.Config.Sections.{
  Parsed, set_shard, set_rule, new_shard, new_rule, update_shard, update_rule, shard_line,
  table_line, set_key, read_key, read_header, set_section, read_line, read_lines,
}
use sharegres.Config.Text.{trim, cut_at, c_prefix}
use sharegres.Config.{Settings, ShardEntry, TmpTableRule, max_shards, max_tables}

name-set_shard : (key val : Bytes) (s : ShardEntry) → (set_shard key val s).name ≡ s.name
name-set_shard key val s = ground arith

table_name-set_rule :
    (key val : Bytes) (r : TmpTableRule) → (set_rule key val r).table_name ≡ r.table_name
table_name-set_rule key val r = ground arith

take-small : (n : ℕ) (xs : Bytes) → length xs ≤ n → take n xs ≡ xs
take-small zero [] h = refl
take-small zero (x ∷ xs) h = ground arith
take-small (suc n) [] h = refl
take-small (suc n) (x ∷ xs) h = ap (◌∷◌ x) (take-small n xs (omega arith))

-- What the loop over the lines keeps.
pub record IsSound (st : Parsed) : Type 0 where
  pub few_shards : length st.shards ≤ max_shards
  pub few_rules : length st.rules ≤ max_tables
  pub shard_names : Distinct (names_of (λ s. s.name) st.shards)
  pub table_names : Distinct (names_of (λ r. r.table_name) st.rules)
  pub short_arg : length st.section_arg ≤ 127

shard_line-IsSound :
    (arg key val : Bytes) (st : Parsed) → IsSound st → IsSound (shard_line arg key val st)
unfolding update_shard
shard_line-IsSound [] key val st h = h
shard_line-IsSound (c ∷ cs) key val st h = elim (Bool-cases (leb max_shards (length st.shards))) [
  | inl full ↦ rw full h
  | inr room ↦
      let new = new_shard (c ∷ cs) in
      let keeps = name-set_shard key val in
      rw room (record {
        few_shards = ground (
          arith,
          length-update (λ s. s.name) (set_shard key val) keeps (c ∷ cs) new refl st.shards,
        );
        few_rules = h.few_rules;
        shard_names =
            Distinct-update (λ s. s.name) (set_shard key val) keeps (c ∷ cs) new refl st.shards
              h.shard_names;
        table_names = h.table_names;
        short_arg = h.short_arg;
      })
]

table_line-IsSound :
    (arg key val : Bytes) (st : Parsed)
    → length arg ≤ 127
    → IsSound st
    → IsSound (table_line arg key val st)
unfolding update_rule
table_line-IsSound [] key val st short h = h
table_line-IsSound (c ∷ cs) key val st short h =
    elim (Bool-cases (leb max_tables (length st.rules))) [
      | inl full ↦ rw full h
      | inr room ↦
          let new = new_rule (c ∷ cs) in
          let keeps = table_name-set_rule key val in
          let named : take 127 (c ∷ cs) ≡ c ∷ cs = take-small 127 (c ∷ cs) short in
          rw room (record {
            few_shards = h.few_shards;
            few_rules = ground (
              arith,
              length-update (λ r. r.table_name) (set_rule key val) keeps (c ∷ cs) new named
                  st.rules,
            );
            shard_names = h.shard_names;
            table_names =
                Distinct-update (λ r. r.table_name) (set_rule key val) keeps (c ∷ cs) new named
                  st.rules h.table_names;
            short_arg = h.short_arg;
          })
    ]

settings-IsSound : (s : Settings) (st : Parsed) → IsSound st → IsSound (record st { settings = s })
settings-IsSound s st h = record {
  few_shards = h.few_shards;
  few_rules = h.few_rules;
  shard_names = h.shard_names;
  table_names = h.table_names;
  short_arg = h.short_arg;
}

IsSound-if : (b : Bool) (x y : Parsed) → IsSound x → IsSound y → IsSound (if b then x else y)
IsSound-if true x y hx hy = hx
IsSound-if false x y hx hy = hy

set_key-IsSound : (key val : Bytes) (st : Parsed) → IsSound st → IsSound (set_key key val st)
unfolding set_key
set_key-IsSound key val st h =
    IsSound-if (equal st.section (codes "global")) _ _ (settings-IsSound _ st h) (
      IsSound-if (equal st.section (codes "auth")) _ _ (settings-IsSound _ st h) (
        IsSound-if (equal st.section (codes "pool")) _ _ (settings-IsSound _ st h) (
          IsSound-if (equal st.section (codes "backend")) _ _ (settings-IsSound _ st h) (
            IsSound-if (equal st.section (codes "shard")) _ _
              (shard_line-IsSound st.section_arg key val st h)
              (IsSound-if (equal st.section (codes "table")) _ _
                (table_line-IsSound st.section_arg key val st h.short_arg h) h)))))

length-take_le : (n : ℕ) (xs : Bytes) → length (take n xs) ≤ n
length-take_le zero xs = omega arith
length-take_le (suc n) [] = omega arith
length-take_le (suc n) (x ∷ xs) = omega (arith, length-take_le n xs)

section-IsSound :
    (section arg : Bytes) (st : Parsed)
    → length arg ≤ 127
    → IsSound st
    → IsSound (record st { section = section; section_arg = arg })
section-IsSound section arg st short h = record {
  few_shards = h.few_shards;
  few_rules = h.few_rules;
  shard_names = h.shard_names;
  table_names = h.table_names;
  short_arg = short;
}

set_section-IsSound :
    (parts : Option (Bytes × Bytes)) (header : Bytes) (st : Parsed)
    → IsSound st
    → IsSound (set_section parts header st)
set_section-IsSound none header st h = section-IsSound (take 127 header) [] st (omega arith) h
set_section-IsSound (some (section, arg)) header st h =
    section-IsSound (take 127 section) (take 127 arg) st (length-take_le 127 arg) h

read_header-IsSound :
    (parts : Option (Bytes × Bytes)) (st : Parsed) → IsSound st → IsSound (read_header parts st)
read_header-IsSound none st h = h
read_header-IsSound (some (header, rest)) st h =
    set_section-IsSound (cut_at b':' header) header st h

read_key-IsSound :
    (parts : Option (Bytes × Bytes)) (st : Parsed) → IsSound st → IsSound (read_key parts st)
read_key-IsSound none st h = h
read_key-IsSound (some (key, val)) st h = set_key-IsSound (trim key) (trim val) st h

read_line-IsSound : (line : Bytes) (st : Parsed) → IsSound st → IsSound (read_line line st)
unfolding read_line
read_line-IsSound [] st h = h
read_line-IsSound (c ∷ cs) st h = IsSound-if (c == b'#') _ _ h (
    IsSound-if (c == b';') _ _ h (
      IsSound-if (c == b'[') _ _ (read_header-IsSound (cut_at b']' cs) st h)
        (read_key-IsSound (cut_at b'=' (c ∷ cs)) st h)))

pub read_lines-IsSound :
    (lines : List Bytes) (st : Parsed) → IsSound st → IsSound (read_lines lines st)
unfolding read_lines
read_lines-IsSound [] st h = h
read_lines-IsSound (l ∷ ls) st h =
    read_lines-IsSound ls (read_line (trim (c_prefix l)) st)
      (read_line-IsSound (trim (c_prefix l)) st h)
