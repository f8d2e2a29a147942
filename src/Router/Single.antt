-- ===== src/Router/Single.antt =====
-- Statements that go to one shard, and the statement that has no decision.
use sharegres.Base.{
  ◌≡◌, refl, ◌∙◌, true, false, Bool, Option, none, some, arith, ◌>>=◌, if◌then◌else◌,
}
use sharegres.Base.Bytes.{Bytes, equal_iff}
use sharegres.QueryParser.{ParseResult, StmtType}
use sharegres.ShardMap.{Shard, ShardMethod, TableRule, ShardMap, find_rule, to_u64}
use sharegres.ShardMap.Range.{Holds, Disjoint, Among, find_by_int-Among}
use sharegres.Router.{
  single, StmtClass, stmt_class, insert, other, ddl, handled_locally, transaction, unknown, decide,
  decide_at, decide_for_rule, decide_keyed, decide_by_key, is_ddl, with_insert_key, key_target,
  scatter_all, for_found,
}

-- A statement with a key on the rule's column, as the router sees it after the second pass.
pub record KeyedBy (rule : TableRule) (p : ParseResult) (s : Shard) : Type 0 where
  pub found : p.shard_key_found ≡ true
  pub column : p.shard_key_column ≡ rule.shard_column
  pub target : key_target rule p ≡ some s

decide_by_key-single :
    (rule : TableRule) (p : ParseResult) (found : Bool) (column shard_column : Option Bytes)
    (s : Shard)
    → decide_by_key rule p found column shard_column ≡ some (single s)
    → (found ≡ true) × (column ≡ shard_column) × (key_target rule p ≡ some s)
unfolding decide_by_key
decide_by_key-single rule p false column shard_column s e = cc
decide_by_key-single rule p true none shard_column s e = cc
decide_by_key-single rule p true (some c) none s e = cc
decide_by_key-single rule p true (some c) (some d) s e = ground (arith, equal_iff c d)

decide_keyed-single :
    (rule : TableRule) (p : ParseResult) (s : Shard)
    → decide_keyed rule p ≡ some (single s)
    → KeyedBy rule p s
unfolding decide_keyed
decide_keyed-single rule p s e =
    let (f, c, t) =
      decide_by_key-single rule p p.shard_key_found p.shard_key_column rule.shard_column s e in
    record { found = f; column = c; target = t }

>>=-eq-some :
    {A B : Type 0} (m : Option A) (f : A → Option B) {b : B}
    → (m >>= f) ≡ some b
    → (a : A) × (m ≡ some a) × (f a ≡ some b)
>>=-eq-some none f e = cc
>>=-eq-some (some a) f e = (a, refl, e)

-- What a decision for one shard says of the statement.
pub record GoesTo (m : ShardMap) (p : ParseResult) (s : Shard) : Type 0 where
  pub rule : TableRule
  pub keyed : ParseResult
  pub rule_found : find_rule m p.table_name ≡ some rule
  pub not_broadcast : rule.broadcast ≡ false
  pub second_pass : with_insert_key (stmt_class p.stmt_type) rule p ≡ some keyed
  pub by_key : KeyedBy rule keyed s

-- A guard of `decide_for_rule` that passes leads to a scatter.
keyed_branch :
    (rule : TableRule) (s : Shard) (broadcast ddl_stmt : Bool) (m : Option ParseResult)
    → (if broadcast
        then some (scatter_all rule)
        else if ddl_stmt
        then some (scatter_all rule)
        else (m >>= decide_keyed rule))
      ≡ some (single s)
    → (q : ParseResult) × (broadcast ≡ false) × (m ≡ some q) × KeyedBy rule q s
keyed_branch rule s true ddl_stmt m e = cc
keyed_branch rule s false true m e = cc
keyed_branch rule s false false m e =
    let (q, passed, keyed) = >>=-eq-some m (decide_keyed rule) e in
    (q, refl, passed, decide_keyed-single rule q s keyed)

found_branch :
    (m : ShardMap) (p : ParseResult) (s : Shard) (o : Option TableRule)
    → find_rule m p.table_name ≡ o
    → for_found (stmt_class p.stmt_type) p o ≡ some (single s)
    → GoesTo m p s
unfolding decide_for_rule
found_branch m p s none f e = cc
found_branch m p s (some rule) f e =
    let class = stmt_class p.stmt_type in
    let (q, b, w, k) =
      keyed_branch rule s rule.broadcast (is_ddl class) (with_insert_key class rule p) e in
    record {
      rule = rule;
      keyed = q;
      rule_found = f;
      not_broadcast = b;
      second_pass = w;
      by_key = k;
    }

decide_at-single :
    (class : StmtClass) (m : ShardMap) (p : ParseResult) (s : Shard)
    → class ≡ stmt_class p.stmt_type
    → decide_at class m p ≡ some (single s)
    → GoesTo m p s
unfolding decide_at
decide_at-single handled_locally m p s c e = cc
decide_at-single transaction m p s c e = cc
decide_at-single unknown m p s c e = cc
decide_at-single ddl m p s c e = found_branch m p s (find_rule m p.table_name) refl (rw (← c) e)
decide_at-single insert m p s c e = found_branch m p s (find_rule m p.table_name) refl (rw (← c) e)
decide_at-single other m p s c e = found_branch m p s (find_rule m p.table_name) refl (rw (← c) e)

-- A statement is sent to one shard only if its table has a rule that is not broadcast, the statement
-- (for an INSERT without a key: after its tree is read again with the rule's column) has a key on
-- exactly the rule's shard column, and that shard is the key's.
pub decide-single :
    (m : ShardMap) (p : ParseResult) (s : Shard) → decide m p ≡ some (single s) → GoesTo m p s
unfolding decide
decide-single m p s e = decide_at-single (stmt_class p.stmt_type) m p s refl e

-- A SELECT, UPDATE, DELETE or COPY.
abbrev pub IsPlain : StmtType → Type 0
IsPlain t = stmt_class t ≡ other

pub decide_plain :
    (m : ShardMap) (p : ParseResult) (rule : TableRule)
    → IsPlain p.stmt_type
    → find_rule m p.table_name ≡ some rule
    → rule.broadcast ≡ false
    → decide m p ≡ decide_keyed rule p
unfolding decide decide_at decide_for_rule with_insert_key
decide_plain m p rule plain found single_rule = rw (plain, decide_at, found, single_rule)

-- Where the ranges of a RANGE rule do not overlap and the rule is not broadcast, a SELECT, UPDATE,
-- DELETE or COPY on the rule's table with an integer key on the rule's column goes to the shard of the
-- rule whose range holds the key, read as an unsigned 64-bit number.
pub decide-owner :
    (m : ShardMap) (p : ParseResult) (rule : TableRule) (column : Bytes) (s : Shard)
    → IsPlain p.stmt_type
    → find_rule m p.table_name ≡ some rule
    → rule.broadcast ≡ false
    → rule.method ≡ ShardMethod.range
    → rule.shard_column ≡ some column
    → p.shard_key_found ≡ true
    → p.shard_key_is_int ≡ true
    → p.shard_key_column ≡ some column
    → Disjoint rule.shards
    → Among s rule.shards
    → Holds (to_u64 p.shard_key_int) s
    → decide m p ≡ some (single s)
unfolding decide_keyed key_target
decide-owner m p rule column s plain found br method col kf ki kc d a h =
    decide_plain m p rule plain found br
    ∙ ground (arith, equal_iff column column, find_by_int-Among rule p.shard_key_int s method d a h)
