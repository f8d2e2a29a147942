-- ===== src/QueryParser/Equality.antt =====
-- The shard key of a condition `column = constant`, in the shape that libpg_query prints.
use sharegres.Base.{none, Option, ℕ, suc, ◌≡◌, refl, true, ◌∷◌, some, All}
use sharegres.Base.Bytes.{Bytes, codes, equal}
use sharegres.Json.Field.{
  Field, here, behind, plain_key, plain_key-IsRaw, plain_key-IsPlain, find_key-Field,
  find_key-Lacks, Lacks, get_string-print, get_int-atom, behind-EndsValue,
}
use sharegres.Json.Recursive.{deep, deep_items, deep_members, find_key_recursive-print}
use sharegres.Json.Search.{get_int, find_key_recursive}
use sharegres.Json.Value.{
  IsRaw, IsAtomByte, Value, str, atom, arr, obj, Items, item, Members, end, member, print,
  more_items, more_members,
}
use sharegres.QueryParser.Condition.{extract_a_expr, extract_column, extract_rexpr, extract_where}
use sharegres.QueryParser.{ParseResult, extract_const, extract_string_const}

abbrev pub named : (key : Bytes) → plain_key key ≡ true → Value → Members → Members
named key p v ms = member key (plain_key-IsRaw key p) v ms

-- {"String":{"sval":s}}
abbrev pub string_node : (s : Bytes) → IsRaw s → Value
string_node s r =
    obj (named (codes "String") refl (obj (named (codes "sval") refl (str s r) end)) end)

-- The members of an A_Const, and the digits if it has a key in them: {"ival":{"ival":digits}}. The
-- constant 0 is {"ival":{}}, and integers beyond 32 bits are {"fval":...}.
pub data IsConstant (const : Members) : Option Bytes → Type 0 where
  digits :
      {ival : Members} {c : ℕ} {cs : Bytes} (number : All IsAtomByte (c ∷ cs))
      → Field (codes "ival") (obj ival) const
      → Field (codes "ival") (atom c cs number) ival
      → IsConstant const (some (c ∷ cs))
  no_digits :
      {ival : Members}
      → Field (codes "ival") (obj ival) const
      → Lacks (codes "ival") ival
      → Lacks (codes "sval") const
      → IsConstant const none
  not_int : Lacks (codes "ival") const → Lacks (codes "sval") const → IsConstant const none

-- The members of a node {"A_Expr":{"name":["="],"lexpr":a column,"rexpr":a constant}}, with any others
-- between them. `key` is the text of the number, if the constant has one.
pub record IsEquality (ms : Members) (column : Bytes) (key : Option Bytes) : Type 0 where
  pub aexpr : Members
  pub lexpr : Members
  pub colref : Members
  pub rexpr : Members
  pub const : Members
  pub ops : Items
  pub names : Items
  pub op_raw : IsRaw (codes "=")
  pub column_raw : IsRaw column
  pub at_aexpr : Field (codes "A_Expr") (obj aexpr) ms
  pub at_name : Field (codes "name") (arr (item (string_node (codes "=") op_raw) ops)) aexpr
  pub at_lexpr : Field (codes "lexpr") (obj lexpr) aexpr
  pub at_colref : Field (codes "ColumnRef") (obj colref) lexpr
  pub at_fields : Field (codes "fields") (arr (item (string_node column column_raw) names)) colref
  pub at_rexpr : Field (codes "rexpr") (obj rexpr) aexpr
  pub at_const : Field (codes "A_Const") (obj const) rexpr
  pub constant : IsConstant const key

-- The result with the number, if there is one.
abbrev pub with_number : Option Bytes → ParseResult → ParseResult
with_number none r = r
with_number (some number) r = record r {
  shard_key_int = get_int number;
  shard_key_is_int = true;
  shard_key_found = true;
}

-- The result with the column and the number.
abbrev pub with_key : Bytes → Option Bytes → ParseResult → ParseResult
with_key column key r = with_number key (record r { shard_key_column = some column })

abbrev sval_node : (s : Bytes) → IsRaw s → Value
sval_node s r = obj (named (codes "sval") refl (str s r) end)

abbrev sval_here :
    (s : Bytes) (r : IsRaw s)
    → Field (codes "sval") (str s r) (named (codes "sval") refl (str s r) end)
sval_here s r = here

extract_const-number :
    (const : Members) (key : Option Bytes) (rest : Bytes) (r : ParseResult)
    → IsConstant const key
    → extract_const (λ r'. r') (print (obj const) rest) r ≡ some (with_number key r)
unfolding extract_const extract_string_const
extract_const-number const key rest r (digits {c = c} {cs} number f g) =
    rw
      (
        find_key-Field (codes "ival") f rest refl,
        find_key-Field (codes "ival") g (behind f rest) refl,
        get_int-atom c cs number (behind-EndsValue g (behind f rest)),
      )
      refl
extract_const-number const key rest r (no_digits {ival} f no_ival no_sval) =
    rw
      (
        find_key-Field (codes "ival") f rest refl,
        find_key-Lacks (codes "ival") ival (behind f rest) no_ival refl,
        find_key-Lacks (codes "sval") const rest no_sval refl,
      )
      refl
extract_const-number const key rest r (not_int no_ival no_sval) =
    rw
      (
        find_key-Lacks (codes "ival") const rest no_ival refl,
        find_key-Lacks (codes "sval") const rest no_sval refl,
      )
      refl

extract_column-name :
    (s : Bytes) (raw : IsRaw s) (names : Items) (rest : Bytes) (r : ParseResult)
    → extract_column (print (arr (item (string_node s raw) names)) rest) r
      ≡ some (record r { shard_key_column = some s })
unfolding extract_column deep deep_items equal more_members
extract_column-name s raw names rest r =
    let behind_node = more_items names (b']' ∷ rest) in
    let found : find_key_recursive (print (arr (item (string_node s raw) names)) rest)
          (codes "String")
        ≡ some (some (print (sval_node s raw) (b'}' ∷ behind_node))) =
      find_key_recursive-print (codes "String") (arr (item (string_node s raw) names)) rest
        (plain_key-IsPlain (codes "String") refl) in
    rw
      (
        found,
        find_key-Field (codes "sval") (sval_here s raw) (b'}' ∷ behind_node) refl,
        get_string-print s raw (b'}' ∷ b'}' ∷ behind_node),
      )
      refl

operator-name :
    (s : Bytes) (raw : IsRaw s) (ops : Items) (rest : Bytes)
    → find_key_recursive (print (arr (item (string_node s raw) ops)) rest) (codes "sval")
      ≡ some (some (print (str s raw) (b'}' ∷ b'}' ∷ more_items ops (b']' ∷ rest))))
unfolding deep deep_items deep_members equal more_members
operator-name s raw ops rest =
    find_key_recursive-print (codes "sval") (arr (item (string_node s raw) ops)) rest
      (plain_key-IsPlain (codes "sval") refl)

module _ (ms : Members) (column : Bytes) (key : Option Bytes) (h : IsEquality ms column key) where
  extract_rexpr-number :
      (rest : Bytes) (r : ParseResult)
      → extract_rexpr (print (obj h.aexpr) rest) r (some column) ≡ some (with_number key r)
  unfolding extract_rexpr
  extract_rexpr-number rest r =
      rw
        (
          find_key-Field (codes "rexpr") h.at_rexpr rest refl,
          find_key-Field (codes "A_Const") h.at_const (behind h.at_rexpr rest) refl,
        )
        (extract_const-number h.const key (behind h.at_const (behind h.at_rexpr rest)) r h.constant)

  extract_a_expr-equality :
      (rest : Bytes) (r : ParseResult)
      → extract_a_expr (print (obj h.aexpr) rest) r ≡ some (with_key column key r)
  unfolding extract_a_expr equal
  extract_a_expr-equality rest r =
      let name_rest = behind h.at_name rest in
      let lexpr_rest = behind h.at_lexpr rest in
      let colref_rest = behind h.at_colref lexpr_rest in
      let fields_rest = behind h.at_fields colref_rest in
      rw
        (
          find_key-Field (codes "name") h.at_name rest refl,
          operator-name (codes "=") h.op_raw h.ops name_rest,
          get_string-print (codes "=") h.op_raw (b'}' ∷ b'}' ∷ more_items h.ops (b']' ∷ name_rest)),
          find_key-Field (codes "lexpr") h.at_lexpr rest refl,
          find_key-Field (codes "ColumnRef") h.at_colref lexpr_rest refl,
          find_key-Field (codes "fields") h.at_fields colref_rest refl,
          extract_column-name column h.column_raw h.names fields_rest r,
        )
        (extract_rexpr-number rest (record r { shard_key_column = some column }))

  -- One level of the search, which ends at the node.
  pub extract_where-equality :
      (depth : ℕ) (rest : Bytes) (r : ParseResult)
      → extract_where (suc depth) (print (obj ms) rest) r ≡ some (with_key column key r)
  unfolding extract_where
  extract_where-equality depth rest r =
      rw (find_key-Field (codes "A_Expr") h.at_aexpr rest refl)
        (extract_a_expr-equality (behind h.at_aexpr rest) r)
