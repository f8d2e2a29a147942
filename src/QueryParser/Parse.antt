-- ===== src/QueryParser/Parse.antt =====
-- src/parser/query_parser.c: `parse_query`. libpg_query's `pg_query_parse` is a parameter: it gives
-- the parse tree of a statement, or `none` where it reports an error.
use sharegres.Base.{Option, none, some, if◌then◌else◌, ◌>>=◌}
use sharegres.Base.Bytes.{Bytes, codes}
use sharegres.Json.Search.{find_key_recursive}
use sharegres.Json.{Scan, find_key, get_string, skip_whitespace, skip_byte, at}
use sharegres.QueryParser.Condition.{extract_shard_key_from_where}
use sharegres.QueryParser.{
  ParseResult, StmtType, on_key, on_ptr, empty_result, detect_stmt_type,
  extract_table_from_rangevar,
}

-- The table of an UPDATE, a DELETE or an INSERT.
unfoldable pub extract_relation : Bytes → ParseResult → Scan ParseResult
unfolding find_key extract_table_from_rangevar
extract_relation stmt r =
    on_key stmt (codes "relation") r (λ rel. extract_table_from_rangevar rel r)

unfoldable pub extract_where_clause : Bytes → ParseResult → Scan ParseResult
unfolding find_key extract_shard_key_from_where
extract_where_clause stmt r =
    on_key stmt (codes "whereClause") r (λ where_json. extract_shard_key_from_where where_json r)

-- `result->table_name = json_get_string(rv)`, where a value was found.
unfoldable pub extract_relname : Bytes → ParseResult → Scan ParseResult
unfolding find_key_recursive get_string
extract_relname json r = find_key_recursive json (codes "relname") >>= λ rv.
    on_ptr rv r (λ name. get_string name >>= λ s. some (record r { table_name = s }))

unfoldable pub extract_from : Bytes → ParseResult → Scan ParseResult
unfolding find_key_recursive extract_table_from_rangevar extract_relname
extract_from from r =
    find_key_recursive from (codes "RangeVar")
    >>= elim [ none ↦ extract_relname from r | some rv ↦ extract_table_from_rangevar rv r ]

-- `switch (result->stmt_type)`
unfoldable pub extract_stmt : StmtType → Bytes → ParseResult → Scan ParseResult
unfolding find_key extract_from extract_relation extract_where_clause extract_relname
extract_stmt StmtType.select stmt_obj r = on_key stmt_obj (codes "SelectStmt") r (λ ss.
    on_key ss (codes "fromClause") r (λ from. extract_from from r) >>= λ r'.
    extract_where_clause ss r')
extract_stmt StmtType.insert stmt_obj r =
    on_key stmt_obj (codes "InsertStmt") r (λ is. extract_relation is r)
extract_stmt StmtType.update stmt_obj r =
    on_key stmt_obj (codes "UpdateStmt") r
      (λ us. extract_relation us r >>= λ r'. extract_where_clause us r')
extract_stmt StmtType.delete stmt_obj r =
    on_key stmt_obj (codes "DeleteStmt") r
      (λ ds. extract_relation ds r >>= λ r'. extract_where_clause ds r')
extract_stmt StmtType.ddl stmt_obj r = extract_relname stmt_obj r
extract_stmt _ stmt_obj r = some r

-- The first statement of the tree. `none` inside the scan is the return value -1.
unfoldable pub parse_tree : Bytes → Scan (Option ParseResult)
unfolding find_key skip_whitespace detect_stmt_type extract_stmt
parse_tree tree =
    let result = record empty_result { parse_tree_json = some tree } in
    on_key tree (codes "stmts") none (λ stmts.
      let first = skip_whitespace (skip_byte b'[' stmts) in
      if at b'[' stmts
      then (if at b']' first
          then some (some result)
          else on_key first (codes "stmt") none (λ stmt_obj.
            let type = detect_stmt_type stmt_obj in
            extract_stmt type stmt_obj (record result { stmt_type = type }) >>= λ r. some (some r)))
      else some none)

unfoldable pub parse_query : (Bytes → Option Bytes) → Bytes → Scan (Option ParseResult)
unfolding parse_tree
parse_query pg_query_parse sql = elim (pg_query_parse sql) [
  | none ↦ some none
  | some tree ↦ parse_tree tree
]
