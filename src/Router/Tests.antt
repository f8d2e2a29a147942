-- ===== src/Router/Tests.antt =====
-- The router over two shards.
use sharegres.Base.{false, ◌≡◌, refl, inl, inr, true, [], ◌∷◌, some, none, arith}
use sharegres.Base.Bytes.{codes}
use sharegres.Base.Int.{pos}
use sharegres.QueryParser.Tests.{insert_tree}
use sharegres.Json.Value.{obj, print}
use sharegres.QueryParser.Parse.{parse_query}
use sharegres.QueryParser.SampleTree.{tree, tree_IsSelect, zero_members, zero_IsConstant}
use sharegres.Router.Statement.{parse_query-scatters}
use sharegres.QueryParser.{ParseResult, StmtType, empty_result}
use sharegres.Router.Keyed.{decide-key_target}
use sharegres.ShardMap.Range.{Among}
use sharegres.Router.{key_target}
use sharegres.ShardMap.{Shard}
use sharegres.Router.Scatter.{decide-Allowed, decide-all_shards, Allowed}
use sharegres.Router.Single.{decide-single, decide-owner, GoesTo}
use sharegres.Router.{single, scatter, decide, stmt_class}
use sharegres.ShardMap.Tests.{low, high, orders, two_shards}
use sharegres.ShardMap.{find_rule, find_by_int, to_u64}

-- SELECT * FROM orders WHERE user_id = 142
abbrev select_key : ParseResult
select_key = record empty_result {
  stmt_type = StmtType.select;
  table_name = some (codes "orders");
  shard_key_found = true;
  shard_key_column = some (codes "user_id");
  shard_key_int = pos 142;
  shard_key_is_int = true;
}

-- INSERT INTO orders (id, user_id) VALUES (7, 150), before its second pass
abbrev insert_row : ParseResult
insert_row = record empty_result {
  stmt_type = StmtType.insert;
  table_name = some (codes "orders");
  parse_tree_json = some insert_tree;
}

insert_decision : decide two_shards insert_row ≡ some (single high)
unfolding decide find_by_int
insert_decision = refl

decide-single_example : GoesTo two_shards insert_row high
decide-single_example = decide-single two_shards insert_row high insert_decision

decide-owner_example : decide two_shards select_key ≡ some (single high)
decide-owner_example =
    unfold find_rule to_u64 in
    decide-owner two_shards select_key orders (codes "user_id") high refl refl refl refl refl refl
      refl refl (((inr (omega arith)), tt), (tt, tt)) (inr (inl refl)) (omega arith, omega arith)

decide-Allowed_example :
    Allowed
      (stmt_class select_key.stmt_type)
      (find_rule two_shards select_key.table_name)
      select_key
      (decide two_shards select_key)
decide-Allowed_example = decide-Allowed two_shards select_key

-- DELETE FROM orders
abbrev delete_all : ParseResult
delete_all = record empty_result { stmt_type = StmtType.delete; table_name = some (codes "orders") }

decide-all_shards_example : decide two_shards delete_all ≡ some (scatter (low ∷ high ∷ []))
decide-all_shards_example =
    unfold find_rule in
    decide-all_shards two_shards delete_all orders (inr (inr refl)) refl (inr (refl, inl refl))

-- SELECT * FROM orders WHERE user_id = 'bob'
abbrev select_name : ParseResult
select_name = record select_key { shard_key_str = some (codes "bob"); shard_key_is_int = false }

decide-key_target_example :
    (s : Shard) × (decide two_shards select_name ≡ some (single s))
    × (key_target orders select_name ≡ some s)
    × Among s orders.shards
decide-key_target_example =
    unfold find_rule in
    decide-key_target two_shards select_name orders (codes "user_id") refl refl refl (λ e. cc) refl
      refl refl (inr (refl, (codes "bob", refl)))

-- SELECT ... FROM orders WHERE user_id = 0
parse_query-scatters_example :
    (p : ParseResult) × (parse_query
        (λ sql. some (print (obj (tree zero_members)) []))
        (codes "SELECT")
      ≡ some (some p))
    × (decide two_shards p ≡ some (scatter (low ∷ high ∷ [])))
parse_query-scatters_example =
    unfold find_rule in
    parse_query-scatters (λ sql. some (print (obj (tree zero_members)) [])) (codes "SELECT")
      (tree zero_members) (codes "orders") (codes "user_id") two_shards orders
      (tree_IsSelect zero_members none zero_IsConstant) refl refl
