-- ===== src/QueryParser/Select.antt =====
-- `parse_query` on `SELECT ... FROM table WHERE column = number`, in the shape that libpg_query prints.
use native.Mathlib.Numerals.{add-one}
use sharegres.Base.{◌≡◌, refl, true, false, [], ◌∷◌, Option, some, length}
use sharegres.Base.Bytes.{Bytes, codes, equal}
use sharegres.Json.Field.{
  Field, here, Lacks, behind, plain_key-IsPlain, find_key-Field, find_key-Lacks, get_string-print,
}
use sharegres.Json.Recursive.{deep, deep_items, find_key_recursive-print}
use sharegres.Json.Search.{find_key_recursive}
use sharegres.Json.Value.{
  IsRaw, Value, str, arr, obj, Items, item, Members, print, items, more_items, more_members,
  members,
}
use sharegres.Json.{at, skip_byte, skip_whitespace}
use sharegres.QueryParser.Condition.{extract_shard_key_from_where}
use sharegres.QueryParser.Equality.{named, IsEquality, with_key, extract_where-equality}
use sharegres.QueryParser.Parse.{
  extract_from, extract_where_clause, extract_stmt, parse_tree, parse_query,
}
use sharegres.QueryParser.{
  ParseResult, StmtType, empty_result, detect_stmt_type, extract_table_from_rangevar,
}

-- The members of {"stmts":[{"stmt":{"SelectStmt":{"fromClause":[{"RangeVar":a table}],
-- "whereClause":an equality}}}]}, with any others between them. The table has no schema.
pub record IsSelect (tree : Members) (table column : Bytes) (key : Option Bytes) : Type 0 where
  pub stmt : Members
  pub more_nodes : Members
  pub select : Members
  pub rangevar : Members
  pub more_vars : Members
  pub condition : Members
  pub stmts : Items
  pub froms : Items
  pub table_raw : IsRaw table
  pub at_stmts : Field (codes "stmts") (arr (item (obj stmt) stmts)) tree
  pub at_stmt :
      Field (codes "stmt") (obj (named (codes "SelectStmt") refl (obj select) more_nodes)) stmt
  pub at_from :
      Field
        (codes "fromClause")
        (arr (item (obj (named (codes "RangeVar") refl (obj rangevar) more_vars)) froms))
        select
  pub at_relname : Field (codes "relname") (str table table_raw) rangevar
  pub no_schema : Lacks (codes "schemaname") rangevar
  pub at_where : Field (codes "whereClause") (obj condition) select
  pub equality : IsEquality condition column key

extract_table-name :
    (rv : Members) (table : Bytes) (raw : IsRaw table) (rest : Bytes) (r : ParseResult)
    → Field (codes "relname") (str table raw) rv
    → Lacks (codes "schemaname") rv
    → extract_table_from_rangevar (print (obj rv) rest) r
      ≡ some (record r { table_name = some table })
unfolding extract_table_from_rangevar
extract_table-name rv table raw rest r f lacks =
    rw
      (
        find_key-Field (codes "relname") f rest refl,
        get_string-print table raw (behind f rest),
        find_key-Lacks (codes "schemaname") rv rest lacks refl,
      )
      refl

detect-select :
    (v : Value) (more : Members) (rest : Bytes)
    → detect_stmt_type (print (obj (named (codes "SelectStmt") refl v more)) rest) ≡ StmtType.select
unfolding detect_stmt_type print members
detect-select v more rest = refl

starts_array : (xs : Items) (rest : Bytes) → at b'[' (print (arr xs) rest) ≡ true
unfolding print
starts_array xs rest = refl

no_array_end : (ms : Members) (rest : Bytes) → at b']' (print (obj ms) rest) ≡ false
unfolding print
no_array_end ms rest = refl

module _ (tree : Members) (table column : Bytes) (key : Option Bytes)
    (h : IsSelect tree table column key) where
  rangevar-found :
      (rest : Bytes)
      → find_key_recursive
          (print
            (arr (item (obj (named (codes "RangeVar") refl (obj h.rangevar) h.more_vars)) h.froms))
            rest)
          (codes "RangeVar")
        ≡ some (
            some (
              print
                (obj h.rangevar)
                (more_members h.more_vars (b'}' ∷ more_items h.froms (b']' ∷ rest)))))
  unfolding deep deep_items equal
  rangevar-found rest =
      find_key_recursive-print (codes "RangeVar")
        (arr (item (obj (named (codes "RangeVar") refl (obj h.rangevar) h.more_vars)) h.froms)) rest
        (plain_key-IsPlain (codes "RangeVar") refl)

  extract_from-table :
      (rest : Bytes) (r : ParseResult)
      → extract_from
          (print
            (arr (item (obj (named (codes "RangeVar") refl (obj h.rangevar) h.more_vars)) h.froms))
            rest)
          r
        ≡ some (record r { table_name = some table })
  unfolding extract_from
  extract_from-table rest r =
      rw (rangevar-found rest)
        (extract_table-name h.rangevar table h.table_raw _ r h.at_relname h.no_schema)

  extract_where_clause-key :
      (rest : Bytes) (r : ParseResult)
      → extract_where_clause (print (obj h.select) rest) r ≡ some (with_key column key r)
  unfolding extract_where_clause extract_shard_key_from_where
  extract_where_clause-key rest r =
      let where_rest = behind h.at_where rest in
      let fuel = length (print (obj h.condition) where_rest) in
      rw (find_key-Field (codes "whereClause") h.at_where rest refl) (
        rw (add-one fuel)
          (extract_where-equality h.condition column key h.equality fuel where_rest r))

  extract_stmt-select :
      (rest : Bytes) (r : ParseResult)
      → extract_stmt StmtType.select
          (print (obj (named (codes "SelectStmt") refl (obj h.select) h.more_nodes)) rest)
          r
        ≡ some (with_key column key (record r { table_name = some table }))
  unfolding extract_stmt
  extract_stmt-select rest r =
      let select_here : Field (codes "SelectStmt") (obj h.select)
          (named (codes "SelectStmt") refl (obj h.select) h.more_nodes) =
        here in
      let select_rest = behind select_here rest in
      rw
        (
          find_key-Field (codes "SelectStmt") select_here rest refl,
          find_key-Field (codes "fromClause") h.at_from select_rest refl,
          extract_from-table (behind h.at_from select_rest) r,
        )
        (extract_where_clause-key select_rest (record r { table_name = some table }))

  -- The first element of the list of statements.
  first_statement :
      (rest : Bytes)
      → skip_whitespace (skip_byte b'[' (print (arr (item (obj h.stmt) h.stmts)) rest))
        ≡ print (obj h.stmt) (more_items h.stmts (b']' ∷ rest))
  unfolding print items skip_whitespace
  first_statement rest = refl

  parse_tree-select :
      (rest : Bytes)
      → let text = print (obj tree) rest in
        parse_tree text
        ≡ some (
            some (
              with_key column key (record empty_result {
                parse_tree_json = some text;
                stmt_type = StmtType.select;
                table_name = some table;
              })))
  unfolding parse_tree
  parse_tree-select rest =
      let stmts_rest = behind h.at_stmts rest in
      let stmt_rest = more_items h.stmts (b']' ∷ stmts_rest) in
      let node_rest = behind h.at_stmt stmt_rest in
      let result = record empty_result { parse_tree_json = some (print (obj tree) rest) } in
      rw
        (
          find_key-Field (codes "stmts") h.at_stmts rest refl,
          starts_array (item (obj h.stmt) h.stmts) stmts_rest,
          first_statement stmts_rest,
          no_array_end h.stmt stmt_rest,
          find_key-Field (codes "stmt") h.at_stmt stmt_rest refl,
          detect-select (obj h.select) h.more_nodes node_rest,
          extract_stmt-select node_rest (record result { stmt_type = StmtType.select }),
        )
        refl

  -- Where libpg_query gives, for a statement, the tree of a SELECT from one table, without a schema, whose
  -- condition is an equality of a column and a constant, `parse_query` reports just that: a SELECT, the
  -- table, and the column's name (the first name, if it is qualified). If the constant is printed as
  -- an integer with digits, these are the shard key, as `json_get_int` reads them. No key is found if
  -- the constant is printed as an integer without digits, as 0 is, or as no integer and no string, as
  -- an integer beyond 32 bits is. Other members, whatever they are, may stand between those that are
  -- read, behind the first of each name, and other elements behind the first of each list.
  pub parse_query-select :
      (pg_query_parse : Bytes → Option Bytes) (sql : Bytes)
      → pg_query_parse sql ≡ some (print (obj tree) [])
      → parse_query pg_query_parse sql
        ≡ some (
            some (
              with_key column key (record empty_result {
                stmt_type = StmtType.select;
                table_name = some table;
                parse_tree_json = some (print (obj tree) []);
              })))
  unfolding parse_query
  parse_query-select pg_query_parse sql parsed = rw (parse_query, parsed) (parse_tree-select [])
