-- ===== src/QueryParser/Condition.antt =====
-- src/parser/query_parser.c: `extract_shard_key_from_where`.
use sharegres.Base.{
  ℕ, zero, suc, ◌+◌, Bool, false, not, [], ◌∷◌, Option, none, some, length, if◌then◌else◌, ◌>>=◌,
}
use sharegres.Base.Bytes.{Bytes, codes, equal}
use sharegres.Json.Search.{find_key_recursive}
use sharegres.Json.{
  Scan, find_key, get_string, skip_whitespace, skip_value, skip_sep, skip_byte, at,
}
use sharegres.QueryParser.{ParseResult, on_key, on_ptr, extract_const}

-- `op && strcmp(op, "=") == 0`
abbrev is_equality : Option Bytes → Bool
is_equality none = false
is_equality (some op) = equal op (codes "=")

-- The column name: the first `String` node of the fields.
unfoldable pub extract_column : Bytes → ParseResult → Scan ParseResult
unfolding find_key_recursive find_key get_string
extract_column fields r = find_key_recursive fields (codes "String") >>= λ str_node.
    on_ptr str_node r (λ node.
      on_key node (codes "sval") r
        (λ sv. get_string sv >>= λ s. some (record r { shard_key_column = s })))

-- The right-hand side, once a column is known.
unfoldable pub extract_rexpr : Bytes → ParseResult → Option Bytes → Scan ParseResult
unfolding find_key extract_const
extract_rexpr aexpr r none = some r
extract_rexpr aexpr r (some column) =
    on_key aexpr (codes "rexpr") r
      (λ rexpr. on_key rexpr (codes "A_Const") r (λ aconst. extract_const (λ r'. r') aconst r))

-- An operator node: `column = constant`.
unfoldable pub extract_a_expr : Bytes → ParseResult → Scan ParseResult
unfolding find_key find_key_recursive get_string extract_column extract_rexpr equal
extract_a_expr aexpr r = on_key aexpr (codes "name") r (λ name_arr.
    find_key_recursive name_arr (codes "sval") >>= λ sval. on_ptr sval r (λ op_value.
      get_string op_value >>= λ op.
      if not (is_equality op)
      then some r
      else on_key aexpr (codes "lexpr") r (λ lexpr. on_key lexpr (codes "ColumnRef") r (λ colref.
        on_key colref (codes "fields") r (λ fields.
          extract_column fields r >>= λ named. extract_rexpr aexpr named named.shard_key_column)))))

-- The arguments of an AND, OR or NOT, past the bracket, until one gives a key.
unfoldable pub extract_args :
    (Bytes → ParseResult → Scan ParseResult) → ℕ → Bytes → ParseResult → Scan ParseResult
unfolding skip_whitespace skip_value
extract_args extract zero p r = none
extract_args extract (suc fuel) [] r = some r
extract_args extract (suc fuel) (c ∷ cs) r =
    let p = skip_whitespace (c ∷ cs) in
    if at b']' p
    then some r
    else extract p r >>= λ r'.
        if r'.shard_key_found
        then some r'
        else skip_value p >>= λ q. extract_args extract fuel (skip_sep b',' q) r'

unfoldable pub extract_bool_expr :
    (Bytes → ParseResult → Scan ParseResult) → Bytes → ParseResult → Scan ParseResult
unfolding find_key extract_args
extract_bool_expr extract where_json r = on_key where_json (codes "BoolExpr") r (λ boolexpr.
    on_key boolexpr (codes "args") r (λ args.
      if at b'[' args
      then extract_args extract (length args + 1) (skip_byte b'[' args) r
      else some r))

-- The nesting of conditions is bounded by the length of the text.
unfoldable pub extract_where : ℕ → Bytes → ParseResult → Scan ParseResult
unfolding find_key extract_a_expr extract_bool_expr
extract_where zero where_json r = none
extract_where (suc depth) where_json r = find_key where_json (codes "A_Expr") >>= elim [
  | some aexpr ↦ extract_a_expr aexpr r
  | none ↦ extract_bool_expr (λ p r'. extract_where depth p r') where_json r
]

unfoldable pub extract_shard_key_from_where : Bytes → ParseResult → Scan ParseResult
unfolding extract_where
extract_shard_key_from_where where_json r = extract_where (length where_json + 1) where_json r
