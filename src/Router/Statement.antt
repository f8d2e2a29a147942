-- ===== src/Router/Statement.antt =====
-- From the text of a statement to its shard: `parse_query` and then `router_decide`.
use sharegres.Base.{none, inl, inr, ◌≡◌, refl, [], Option, some}
use sharegres.Base.Bytes.{Bytes}
use sharegres.Json.Value.{Members, obj, print}
use sharegres.QueryParser.Parse.{parse_query}
use sharegres.QueryParser.Select.{IsSelect, parse_query-select}
use sharegres.QueryParser.{ParseResult, StmtType, empty_result}
use sharegres.QueryParser.Equality.{with_key}
use sharegres.Router.Scatter.{decide-all_shards}
use sharegres.Router.{scatter, decide}
use sharegres.ShardMap.{ShardMap, TableRule, find_rule}

-- The same SELECT goes to all shards of the table's rule, whatever the rule, if libpg_query prints the
-- constant without digits: as an integer without a value, as it prints 0, or as no integer and no
-- string, as it prints an integer beyond 32 bits.
pub parse_query-scatters :
    (pg_query_parse : Bytes → Option Bytes) (sql : Bytes) (tree : Members) (table column : Bytes)
    (m : ShardMap) (rule : TableRule)
    → IsSelect tree table column none
    → pg_query_parse sql ≡ some (print (obj tree) [])
    → find_rule m (some table) ≡ some rule
    → (p : ParseResult) × (parse_query pg_query_parse sql ≡ some (some p))
      × (decide m p ≡ some (scatter rule.shards))
parse_query-scatters pg_query_parse sql tree table column m rule is_select parsed found =
    let p = with_key column none (record empty_result {
      stmt_type = StmtType.select;
      table_name = some table;
      parse_tree_json = some (print (obj tree) []);
    }) in
    (
      p,
      parse_query-select tree table column none is_select pg_query_parse sql parsed,
      decide-all_shards m p rule (inr (inr refl)) found (inr (refl, inl refl)),
    )
