-- ===== src/QueryParser/Insert.antt =====
-- src/parser/query_parser.c: `extract_shard_key_from_insert` and `parse_extract_insert_shard_key`.
use sharegres.Base.{
  ◌==◌, ℕ, zero, suc, ◌+◌, Bool, false, List, [], ◌∷◌, Option, none, some, if◌then◌else◌, ◌>>=◌,
}
use sharegres.Base.Bytes.{Bytes, codes, equal}
use sharegres.Json.Search.{find_key_recursive, find_all_values}
use sharegres.Json.{
  Scan, find_key, get_string, skip_whitespace, skip_value, skip_sep, skip_byte, at,
}
use sharegres.QueryParser.{ParseResult, StmtType, on_key, on_ptr, extract_const}

abbrev names_column : Option Bytes → Bytes → Bool
names_column none shard_column = false
names_column (some name) shard_column = equal name shard_column

-- The position of the shard column among the names, from `at` on; `none` is -1.
unfoldable pub column_position : ℕ → List Bytes → Bytes → Scan (Option ℕ)
unfolding get_string equal
column_position n [] shard_column = some none
column_position n (value ∷ values) shard_column = get_string value >>= λ name.
    let rest = column_position (n + 1) values shard_column in
    if names_column name shard_column then some (some n) else rest

-- `for (i = 0; i < target_pos && *p && *p != ']'; i++)`
unfoldable pub skip_elements : ℕ → Bytes → Scan Bytes
unfolding skip_value
skip_elements zero p = some p
skip_elements (suc n) [] = some []
skip_elements (suc n) (c ∷ cs) =
    if c == b']'
    then some (c ∷ cs)
    else skip_value (c ∷ cs) >>= λ q. skip_elements n (skip_sep b',' q)

-- The constant at the element's front. A key that is found gets the shard column's name.
abbrev set_column : Bytes → ParseResult → ParseResult
set_column shard_column r = record r { shard_key_column = some shard_column }

unfoldable pub extract_element : Bytes → ParseResult → Bytes → Scan ParseResult
unfolding find_key_recursive extract_const
extract_element p r shard_column =
    if at b']' p
    then some r
    else find_key_recursive p (codes "A_Const") >>= λ aconst.
        on_ptr aconst r (λ node. extract_const (set_column shard_column) node r)

-- The first list of VALUES, at a position.
unfoldable pub extract_values : Bytes → ParseResult → Bytes → ℕ → Scan ParseResult
unfolding find_key find_key_recursive skip_elements skip_whitespace extract_element
extract_values insert_json r shard_column target_pos =
    on_key insert_json (codes "selectStmt") r (λ select_stmt.
      on_key select_stmt (codes "SelectStmt") r (λ ss.
        on_key ss (codes "valuesLists") r (λ values_lists.
          find_key_recursive values_lists (codes "items") >>= λ first_list.
          on_ptr first_list r (λ items.
            if at b'[' items
            then skip_elements target_pos (skip_byte b'[' items)
              >>= (λ p. extract_element (skip_whitespace p) r shard_column)
            else some r))))

unfoldable pub extract_shard_key_from_insert : Bytes → ParseResult → Bytes → Scan ParseResult
unfolding find_key find_all_values column_position extract_values
extract_shard_key_from_insert insert_json r shard_column =
    on_key insert_json (codes "cols") r (λ cols.
      if at b'[' cols
      then find_all_values cols (codes "name") >>= (λ names.
        column_position 0 names shard_column >>= elim [
          | none ↦ some r
          | some target_pos ↦ extract_values insert_json r shard_column target_pos
        ])
      else some r)

-- `stmts + 1`, which the source takes of any value.
abbrev first_element : Bytes → Scan Bytes
first_element [] = none
first_element (_ ∷ p) = some p

-- The second pass over the tree of an INSERT, with the shard column known.
unfoldable pub insert_pass : Bytes → ParseResult → Bytes → Scan ParseResult
unfolding find_key skip_whitespace extract_shard_key_from_insert
insert_pass tree r shard_column = on_key tree (codes "stmts") r (λ stmts.
    first_element stmts >>= λ first. on_key (skip_whitespace first) (codes "stmt") r (λ stmt.
      on_key stmt (codes "InsertStmt") r (λ is. extract_shard_key_from_insert is r shard_column)))

unfoldable pub second_pass : StmtType → Option Bytes → Option Bytes → ParseResult → Scan ParseResult
unfolding insert_pass
second_pass StmtType.insert (some tree) (some column) r = insert_pass tree r column
second_pass _ _ _ r = some r

unfoldable pub parse_extract_insert_shard_key : ParseResult → Option Bytes → Scan ParseResult
unfolding second_pass
parse_extract_insert_shard_key r shard_column =
    second_pass r.stmt_type r.parse_tree_json shard_column r
