-- ===== src/Router/Keyed.antt =====
-- A key on the rule's column always names one shard.
use sharegres.Base.{◌≡◌, ◌≢◌, ◌⊎◌, ◌∙◌, inl, inr, refl, true, false, [], some}
use sharegres.Base.Bytes.{Bytes, equal_iff}
use sharegres.QueryParser.{ParseResult}
use sharegres.Router.Single.{IsPlain, decide_plain}
use sharegres.Router.{single, decide, decide_keyed, decide_by_key, key_target}
use sharegres.ShardMap.Hash.{find_by_key-total}
use sharegres.ShardMap.Range.{Among}
use sharegres.ShardMap.{Shard, TableRule, ShardMap, find_rule}

-- The key of a condition: an integer, or a string.
abbrev pub HasKey : ParseResult → Type 0
HasKey p =
    (p.shard_key_is_int ≡ true)
    ⊎ ((p.shard_key_is_int ≡ false) × ((str : Bytes) × (p.shard_key_str ≡ some str)))

key_target-Among :
    (rule : TableRule) (p : ParseResult)
    → rule.shards ≢ []
    → HasKey p
    → (s : Shard) × (key_target rule p ≡ some s) × Among s rule.shards
unfolding key_target
key_target-Among rule p h (inl int) =
    let (s, found, among) = (find_by_key-total rule p.shard_key_int [] h).0 in
    (s, rw int found, among)
key_target-Among rule p h (inr (not_int, (str, e))) =
    let (s, found, among) = (find_by_key-total rule p.shard_key_int str h).1 in
    (s, rw (not_int, e) found, among)

decide_keyed-target :
    (rule : TableRule) (p : ParseResult) (column : Bytes) (s : Shard)
    → rule.shard_column ≡ some column
    → p.shard_key_found ≡ true
    → p.shard_key_column ≡ some column
    → key_target rule p ≡ some s
    → decide_keyed rule p ≡ some (single s)
unfolding decide_keyed decide_by_key
decide_keyed-target rule p column s col kf kc target =
    rw (kf, kc, col, decide_by_key, (equal_iff column column).1 refl, target) refl

-- A SELECT, UPDATE, DELETE or COPY on a table whose rule has shards and is not broadcast, with a key,
-- integer or string, on the rule's column, always goes to exactly one shard, by either method. It is
-- one of the rule's shards, and the one that the key alone names.
pub decide-key_target :
    (m : ShardMap) (p : ParseResult) (rule : TableRule) (column : Bytes)
    → IsPlain p.stmt_type
    → find_rule m p.table_name ≡ some rule
    → rule.broadcast ≡ false
    → rule.shards ≢ []
    → rule.shard_column ≡ some column
    → p.shard_key_found ≡ true
    → p.shard_key_column ≡ some column
    → HasKey p
    → (s : Shard) × (decide m p ≡ some (single s))
      × (key_target rule p ≡ some s)
      × Among s rule.shards
decide-key_target m p rule column plain found br h col kf kc key =
    let (s, target, among) = key_target-Among rule p h key in
    (
      s,
      decide_plain m p rule plain found br ∙ decide_keyed-target rule p column s col kf kc target,
      target,
      among,
    )
