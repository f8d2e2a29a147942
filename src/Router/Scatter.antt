-- ===== src/Router/Scatter.antt =====
-- Statements that go to all shards of a rule, to the default backend, or to no backend.
use sharegres.Base.{
  Bool-cases, ◌≡◌, ◌≢◌, ◌⊎◌, inl, inr, refl, ◌∙◌, true, false, Bool, Option, none, some, arith,
  ◌>>=◌, if◌then◌else◌,
}
use sharegres.Base.Bytes.{Bytes, equal, equal_iff}
use sharegres.QueryParser.{ParseResult}
use sharegres.ShardMap.Hash.{find_by_int-Among_rule, find_by_str-Among_rule}
use sharegres.ShardMap.Range.{Among}
use sharegres.ShardMap.{Shard, TableRule, ShardMap, find_rule, get_all}
use sharegres.Router.{
  RouteDecision, single, scatter, local, default, StmtClass, stmt_class, insert, other, ddl,
  handled_locally, transaction, unknown, decide, decide_at, decide_for_rule, decide_keyed,
  decide_by_key, with_insert_key, key_target, str_target, scatter_all, single_or_scatter, for_found,
  is_ddl,
}

-- The scanner fails on the tree of an INSERT, or the rule has no column to compare with.
abbrev pub Faulty : StmtClass → TableRule → ParseResult → Type 0
Faulty class rule p = (with_insert_key class rule p ≡ none) ⊎ (rule.shard_column ≡ none)

-- One of the rule's shards, all of them in the rule's order, or a fault.
abbrev pub OneOrAll : StmtClass → TableRule → ParseResult → Option RouteDecision → Type 0
OneOrAll class rule p (some (scatter shards)) = shards ≡ rule.shards
OneOrAll class rule p (some (single s)) = Among s rule.shards
OneOrAll class rule p (some local) = ⊥
OneOrAll class rule p (some default) = ⊥
OneOrAll class rule p none = Faulty class rule p

-- What a table's rule leaves open, by whether it is broadcast.
abbrev pub WithinRule : Bool → StmtClass → TableRule → ParseResult → Option RouteDecision → Type 0
WithinRule true class rule p d = d ≡ some (scatter rule.shards)
WithinRule false class rule p d = OneOrAll class rule p d

abbrev pub ByRule : StmtClass → Option TableRule → ParseResult → Option RouteDecision → Type 0
ByRule class none p d = d ≡ some default
ByRule ddl (some rule) p d = d ≡ some (scatter rule.shards)
ByRule class (some rule) p d = WithinRule rule.broadcast class rule p d

-- What each class of statement and each outcome of the rule search allows.
abbrev pub Allowed : StmtClass → Option TableRule → ParseResult → Option RouteDecision → Type 0
Allowed handled_locally o p d = d ≡ some local
Allowed transaction o p d = d ≡ some default
Allowed unknown o p d = d ≡ some default
Allowed class o p d = ByRule class o p d

key_target-Among :
    (rule : TableRule) (q : ParseResult) (s : Shard)
    → key_target rule q ≡ some s
    → Among s rule.shards
unfolding key_target
key_target-Among rule q s h = elim (Bool-cases q.shard_key_is_int) [
  | inl int ↦ find_by_int-Among_rule rule q.shard_key_int s (rw (int, key_target) at h)
  | inr not_int ↦ by_str q.shard_key_str (rw (not_int, key_target) at h)
]
  where
    by_str : (k : Option Bytes) → str_target rule k ≡ some s → Among s rule.shards
    by_str none e = cc
    by_str (some str) e = find_by_str-Among_rule rule str s e

single_or_scatter-OneOrAll :
    (class : StmtClass) (rule : TableRule) (p : ParseResult) (o : Option Shard)
    → ((s : Shard) → o ≡ some s → Among s rule.shards)
    → OneOrAll class rule p (some (single_or_scatter rule o))
unfolding get_all
single_or_scatter-OneOrAll class rule p none h = refl
single_or_scatter-OneOrAll class rule p (some s) h = h s refl

decide_by_key-OneOrAll :
    (class : StmtClass) (rule : TableRule) (p q : ParseResult) (found : Bool)
    (column : Option Bytes)
    → OneOrAll class rule p (decide_by_key rule q found column rule.shard_column)
unfolding decide_by_key get_all
decide_by_key-OneOrAll class rule p q found column = by_column rule.shard_column refl found column
  where
    by_test :
        (b : Bool)
        → OneOrAll class rule p
            (some (if b then single_or_scatter rule (key_target rule q) else scatter_all rule))
    by_test true =
        single_or_scatter-OneOrAll class rule p (key_target rule q) (key_target-Among rule q)
    by_test false = refl

    by_column :
        (shard_column : Option Bytes)
        → rule.shard_column ≡ shard_column
        → (f : Bool) (c : Option Bytes)
        → OneOrAll class rule p (decide_by_key rule q f c shard_column)
    by_column sc e false c = refl
    by_column sc e true none = refl
    by_column none e true (some c) = inr e
    by_column (some d) e true (some c) = by_test (equal c d)

keyed-OneOrAll :
    (class : StmtClass) (rule : TableRule) (p : ParseResult) (m : Option ParseResult)
    → with_insert_key class rule p ≡ m
    → OneOrAll class rule p (m >>= decide_keyed rule)
unfolding decide_keyed
keyed-OneOrAll class rule p none e = inl e
keyed-OneOrAll class rule p (some q) e =
    decide_by_key-OneOrAll class rule p q q.shard_key_found q.shard_key_column

branch-WithinRule :
    (class : StmtClass) (p : ParseResult) (rule : TableRule) (broadcast ddl_stmt : Bool)
    → ddl_stmt ≡ false
    → WithinRule broadcast class rule p (
        if broadcast
        then some (scatter_all rule)
        else if ddl_stmt
        then some (scatter_all rule)
        else (with_insert_key class rule p >>= decide_keyed rule))
unfolding get_all
branch-WithinRule class p rule true ddl_stmt not_ddl = refl
branch-WithinRule class p rule false true not_ddl = cc
branch-WithinRule class p rule false false not_ddl =
    keyed-OneOrAll class rule p (with_insert_key class rule p) refl

decide_for_rule-WithinRule :
    (class : StmtClass) (p : ParseResult) (rule : TableRule)
    → is_ddl class ≡ false
    → WithinRule rule.broadcast class rule p (decide_for_rule class rule p)
unfolding decide_for_rule
decide_for_rule-WithinRule class p rule not_ddl =
    branch-WithinRule class p rule rule.broadcast (is_ddl class) not_ddl

decide_for_rule-ddl :
    (p : ParseResult) (rule : TableRule) → decide_for_rule ddl rule p ≡ some (scatter rule.shards)
unfolding decide_for_rule get_all
decide_for_rule-ddl p rule = ground arith

for_found-ByRule :
    (class : StmtClass) (p : ParseResult) (o : Option TableRule)
    → ByRule class o p (for_found class p o)
for_found-ByRule class p none = refl
for_found-ByRule ddl p (some rule) = decide_for_rule-ddl p rule
for_found-ByRule handled_locally p (some rule) =
    decide_for_rule-WithinRule handled_locally p rule refl
for_found-ByRule transaction p (some rule) = decide_for_rule-WithinRule transaction p rule refl
for_found-ByRule unknown p (some rule) = decide_for_rule-WithinRule unknown p rule refl
for_found-ByRule insert p (some rule) = decide_for_rule-WithinRule insert p rule refl
for_found-ByRule other p (some rule) = decide_for_rule-WithinRule other p rule refl

decide_at-Allowed :
    (class : StmtClass) (m : ShardMap) (p : ParseResult)
    → Allowed class (find_rule m p.table_name) p (decide_at class m p)
unfolding decide_at
decide_at-Allowed handled_locally m p = refl
decide_at-Allowed transaction m p = refl
decide_at-Allowed unknown m p = refl
decide_at-Allowed ddl m p = for_found-ByRule ddl p (find_rule m p.table_name)
decide_at-Allowed insert m p = for_found-ByRule insert p (find_rule m p.table_name)
decide_at-Allowed other m p = for_found-ByRule other p (find_rule m p.table_name)

-- SET, SHOW and DISCARD are answered locally. A transaction statement, a statement of an unknown kind,
-- and any other whose table has no rule go to the default backend. DDL on a table with a rule, and any
-- other statement on a broadcast table, go to exactly the rule's shards, in the rule's order. All
-- others go to one of the rule's shards, or to exactly all of them; or there is a fault, and then the
-- scanner fails on the tree of an INSERT, or the rule has no shard column.
pub decide-Allowed :
    (m : ShardMap) (p : ParseResult)
    → Allowed (stmt_class p.stmt_type) (find_rule m p.table_name) p (decide m p)
unfolding decide
decide-Allowed m p = decide_at-Allowed (stmt_class p.stmt_type) m p

-- A statement that must reach every shard: its table is broadcast, or it is DDL.
abbrev pub ForAllShards : TableRule → ParseResult → Type 0
ForAllShards rule p = (rule.broadcast ≡ true) ⊎ (stmt_class p.stmt_type ≡ ddl)

-- A statement that the rule of its table covers and that has no key on the rule's column.
abbrev pub Unkeyed : TableRule → ParseResult → Type 0
Unkeyed rule p =
    (stmt_class p.stmt_type ≡ other)
    × ((p.shard_key_found ≡ false)
        ⊎ ((column : Bytes) × (shard_column : Bytes) × (p.shard_key_column ≡ some column)
            × (rule.shard_column ≡ some shard_column)
            × (column ≢ shard_column)))

decide_for_rule-all :
    (class : StmtClass) (rule : TableRule) (p : ParseResult)
    → (rule.broadcast ≡ true) ⊎ (class ≡ ddl)
    → decide_for_rule class rule p ≡ some (scatter rule.shards)
unfolding decide_for_rule get_all
decide_for_rule-all class rule p (inl b) = rw b
decide_for_rule-all class rule p (inr d) = ground arith

decide_for_rule-Unkeyed :
    (rule : TableRule) (p : ParseResult)
    → Unkeyed rule p
    → decide_for_rule other rule p ≡ some (scatter rule.shards)
unfolding decide_for_rule decide_keyed with_insert_key get_all
decide_for_rule-Unkeyed rule p (o, inl k) = ground arith
decide_for_rule-Unkeyed rule p (o, inr (column, shard_column, c, d, ne)) =
    ground (arith, equal_iff column shard_column, decide_by_key-other column shard_column ne)
  where
    decide_by_key-other : (c' d' : Bytes) → c' ≢ d' → equal c' d' ≡ false
    decide_by_key-other c' d' ne' = ground (arith, equal_iff c' d')

decide_covered :
    (m : ShardMap) (p : ParseResult) (rule : TableRule)
    → (stmt_class p.stmt_type ≡ ddl)
      ⊎ (stmt_class p.stmt_type ≡ insert)
      ⊎ (stmt_class p.stmt_type ≡ other)
    → find_rule m p.table_name ≡ some rule
    → decide m p ≡ decide_for_rule (stmt_class p.stmt_type) rule p
unfolding decide
decide_covered m p rule (inl c) f = rw (c, decide_at, f)
decide_covered m p rule (inr (inl c)) f = rw (c, decide_at, f)
decide_covered m p rule (inr (inr c)) f = rw (c, decide_at, f)

-- DDL, every statement on a broadcast table, and a SELECT, UPDATE, DELETE or COPY with no key or with
-- a key on another column than the rule's, are sent to all of the rule's shards.
pub decide-all_shards :
    (m : ShardMap) (p : ParseResult) (rule : TableRule)
    → (stmt_class p.stmt_type ≡ ddl)
      ⊎ (stmt_class p.stmt_type ≡ insert)
      ⊎ (stmt_class p.stmt_type ≡ other)
    → find_rule m p.table_name ≡ some rule
    → ForAllShards rule p ⊎ Unkeyed rule p
    → decide m p ≡ some (scatter rule.shards)
decide-all_shards m p rule c f (inl all) =
    decide_covered m p rule c f ∙ decide_for_rule-all (stmt_class p.stmt_type) rule p all
decide-all_shards m p rule c f (inr u) =
    decide_covered m p rule c f ∙ rw u.0 (decide_for_rule-Unkeyed rule p u)
