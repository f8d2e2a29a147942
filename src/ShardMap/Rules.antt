-- ===== src/ShardMap/Rules.antt =====
-- The search for a table's rule.
use sharegres.Base.{
  ◌≡◌, ◌≢◌, inl, inr, refl, ap, true, false, List, [], ◌∷◌, ◌++◌, Option, none, some, All,
  Bool-cases,
}
use sharegres.Base.Bytes.{Bytes, equal, equal_iff}
use sharegres.ShardMap.{ShardMap, TableRule, find_rule, find_rule_in}

-- Where the rule stands: the rules before it are for other tables.
abbrev FirstFor : Bytes → List TableRule → Option TableRule → Type 0
FirstFor name rules none = All (λ r. r.table_name ≢ name) rules
FirstFor name rules (some rule) =
    (before : List TableRule) × (after : List TableRule) × (rules ≡ before ++ rule ∷ after)
    × (rule.table_name ≡ name)
    × All (λ r. r.table_name ≢ name) before

FirstFor-cons :
    (name : Bytes) (rule : TableRule) (rules : List TableRule) (found : Option TableRule)
    → rule.table_name ≢ name
    → FirstFor name rules found
    → FirstFor name (rule ∷ rules) found
FirstFor-cons name rule rules none ne f = (ne, f)
FirstFor-cons name rule rules (some r) ne (before, after, split, named, others) =
    (rule ∷ before, after, ap (◌∷◌ rule) split, named, (ne, others))

find_rule_in-FirstFor :
    (rules : List TableRule) (name : Bytes) → FirstFor name rules (find_rule_in rules name)
unfolding find_rule_in
find_rule_in-FirstFor [] name = tt
find_rule_in-FirstFor (rule ∷ rules) name = elim (Bool-cases (equal rule.table_name name)) [
  | inl same ↦ rw same ([], rules, refl, (equal_iff _ _).0 same, tt)
  | inr other ↦ rw other (
      FirstFor-cons name rule rules (find_rule_in rules name)
        (λ e. differ ((equal_iff rule.table_name name).1 e) other)
        (find_rule_in-FirstFor rules name))
]
  where
    differ : equal rule.table_name name ≡ true → equal rule.table_name name ≡ false → ⊥
    differ p q = cc

-- The search gives the first rule that names the table, and NULL exactly if no rule names it.
find_rule-FirstFor :
    (m : ShardMap) (name : Bytes) → FirstFor name m.table_rules (find_rule m (some name))
unfolding find_rule
find_rule-FirstFor m name = find_rule_in-FirstFor m.table_rules name
