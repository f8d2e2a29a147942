-- ===== src/QueryParser.antt =====
-- src/parser/query_parser.c and query_parser.h: what the router needs to know of a statement, taken
-- from the parse tree. A step is `none` where the JSON scanner faults (Json). `strdup` and `free` of
-- the strings that a result owns are left out: a string is its bytes.
pub mod Condition
pub mod Insert
pub mod Parse
pub mod Equality
pub mod Select
pub mod SampleTree
pub mod Tests
use sharegres.Base.{Bool, true, false, List, [], ◌∷◌, Option, none, some, if◌then◌else◌, ◌>>=◌}
use sharegres.Base.Bytes.{Bytes, codes}
use sharegres.Base.Int.{ℤ, pos}
use sharegres.Json.Search.{get_int}
use sharegres.Json.{Scan, Ptr, starts_with_key, find_key, get_string}

pub data StmtType : Type 0 where
  select insert update delete ddl transaction set show discard copy unknown : StmtType

pub record ParseResult : Type 0 where
  pub stmt_type : StmtType
  pub table_name : Option Bytes
  pub schema_name : Option Bytes
  pub shard_key_found : Bool
  pub shard_key_column : Option Bytes
  pub shard_key_int : ℤ
  pub shard_key_str : Option Bytes
  pub shard_key_is_int : Bool
  pub parse_tree_json : Option Bytes

-- `memset(result, 0, ...)` and `stmt_type = STMT_UNKNOWN`
abbrev pub empty_result : ParseResult
empty_result = record {
  stmt_type = StmtType.unknown;
  table_name = none;
  schema_name = none;
  shard_key_found = false;
  shard_key_column = none;
  shard_key_int = pos 0;
  shard_key_str = none;
  shard_key_is_int = false;
  parse_tree_json = none;
}

-- The node names of each kind of statement, in the order of the tests.
abbrev pub stmt_nodes : List (Bytes × StmtType)
stmt_nodes =
    (codes "SelectStmt", StmtType.select)
    ∷ (codes "InsertStmt", StmtType.insert)
    ∷ (codes "UpdateStmt", StmtType.update)
    ∷ (codes "DeleteStmt", StmtType.delete)
    ∷ (codes "TransactionStmt", StmtType.transaction)
    ∷ (codes "VariableSetStmt", StmtType.set)
    ∷ (codes "VariableShowStmt", StmtType.show)
    ∷ (codes "DiscardStmt", StmtType.discard)
    ∷ (codes "CopyStmt", StmtType.copy)
    ∷ (codes "CreateStmt", StmtType.ddl)
    ∷ (codes "AlterTableStmt", StmtType.ddl)
    ∷ (codes "DropStmt", StmtType.ddl)
    ∷ (codes "IndexStmt", StmtType.ddl)
    ∷ (codes "CreateSchemaStmt", StmtType.ddl)
    ∷ (codes "ViewStmt", StmtType.ddl)
    ∷ (codes "CreateFunctionStmt", StmtType.ddl)
    ∷ (codes "TruncateStmt", StmtType.ddl)
    ∷ (codes "RenameStmt", StmtType.ddl)
    ∷ (codes "CreateSeqStmt", StmtType.ddl)
    ∷ (codes "AlterSeqStmt", StmtType.ddl)
    ∷ []

unfoldable pub first_match : List (Bytes × StmtType) → Bytes → StmtType
unfolding starts_with_key
first_match [] stmt_json = StmtType.unknown
first_match ((node, type) ∷ nodes) stmt_json =
    let rest = first_match nodes stmt_json in if starts_with_key stmt_json node then type else rest

unfoldable pub detect_stmt_type : Bytes → StmtType
unfolding first_match
detect_stmt_type stmt_json = first_match stmt_nodes stmt_json

abbrev pub on_ptr : {A : Type 0} → Ptr → A → (Bytes → Scan A) → Scan A
on_ptr none missing found = some missing
on_ptr (some p) missing found = found p

-- `p = json_find_key(json, key); if (!p) return result; ...`
abbrev pub on_key : {A : Type 0} → Bytes → Bytes → A → (Bytes → Scan A) → Scan A
on_key json key missing found = find_key json key >>= λ p. on_ptr p missing found

-- The string behind a key, stored by `store`, or the result as it is.
abbrev store_string :
    Bytes → Bytes → (Ptr → ParseResult → ParseResult) → ParseResult → Scan ParseResult
store_string json key store r = on_key json key r (λ p. get_string p >>= λ s. some (store s r))

unfoldable pub extract_table_from_rangevar : Bytes → ParseResult → Scan ParseResult
unfolding find_key get_string
extract_table_from_rangevar rv_json result = do
  named ← store_string rv_json (codes "relname") (λ s r. record r { table_name = s }) result
  store_string rv_json (codes "schemaname") (λ s r. record r { schema_name = s }) named

-- The value of a constant: an integer under "ival", or else a string under "sval".
abbrev pub set_int_key : Bytes → ParseResult → ParseResult
set_int_key ival r = record r {
  shard_key_int = get_int ival;
  shard_key_is_int = true;
  shard_key_found = true;
}

abbrev pub set_str_key : Ptr → ParseResult → ParseResult
set_str_key s r = record r { shard_key_str = s; shard_key_is_int = false; shard_key_found = true }

-- `finish` is what the caller adds where a value is found.
unfoldable pub extract_string_const :
    (ParseResult → ParseResult) → Bytes → ParseResult → Scan ParseResult
unfolding find_key get_string
extract_string_const finish aconst r = on_key aconst (codes "sval") r (λ sval_obj.
    on_key sval_obj (codes "sval") r (λ sv. get_string sv >>= λ s. some (finish (set_str_key s r))))

unfoldable pub extract_const : (ParseResult → ParseResult) → Bytes → ParseResult → Scan ParseResult
unfolding find_key extract_string_const get_int
extract_const finish aconst r = find_key aconst (codes "ival") >>= elim [
  | none ↦ extract_string_const finish aconst r
  | some ival_obj ↦ find_key ival_obj (codes "ival") >>= elim [
    | none ↦ extract_string_const finish aconst r
    | some ival ↦ some (finish (set_int_key ival r))
  ]
]
