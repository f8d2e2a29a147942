-- ===== src/QueryParser/SampleTree.antt =====
-- The tree of SELECT ... FROM orders WHERE user_id = a constant, as a JSON value.
use sharegres.Base.{refl, some, none, Option, All}
use sharegres.Base.Bytes.{Bytes, codes, equal}
use sharegres.Json.Field.{here, there, plain_key-IsRaw}
use sharegres.Json.Value.{IsAtomByte, Value, str, atom, arr, obj, none_left, item, Members, end}
use sharegres.Json.{isspace}
use sharegres.QueryParser.Equality.{named, string_node, IsEquality, IsConstant, digits, no_digits}
use sharegres.QueryParser.Select.{IsSelect}

abbrev pub one_IsAtomByte : IsAtomByte b'1'
unfolding isspace
one_IsAtomByte = record {
  no_space = refl;
  no_quote = refl;
  no_comma = refl;
  no_brace = (refl, refl);
  no_bracket = (refl, refl);
}

abbrev pub five_IsAtomByte : IsAtomByte b'5'
unfolding isspace
five_IsAtomByte = record {
  no_space = refl;
  no_quote = refl;
  no_comma = refl;
  no_brace = (refl, refl);
  no_bracket = (refl, refl);
}

abbrev pub zero_IsAtomByte : IsAtomByte b'0'
unfolding isspace
zero_IsAtomByte = record {
  no_space = refl;
  no_quote = refl;
  no_comma = refl;
  no_brace = (refl, refl);
  no_bracket = (refl, refl);
}

abbrev number_IsAtomByte : All IsAtomByte (codes "150")
number_IsAtomByte = (one_IsAtomByte, (five_IsAtomByte, (zero_IsAtomByte, tt)))

abbrev number : Value
number = atom b'1' (codes "50") number_IsAtomByte

abbrev kind : Value
kind = str (codes "AEXPR_OP") (plain_key-IsRaw (codes "AEXPR_OP") refl)

abbrev ival_members : Members
ival_members = named (codes "ival") refl number end

abbrev pub const_members : Members
const_members = named (codes "ival") refl (obj ival_members) end

abbrev pub const_IsConstant : IsConstant const_members (some (codes "150"))
unfolding equal
const_IsConstant = digits number_IsAtomByte here here

-- The constant 0: {"ival":{}}
abbrev pub zero_members : Members
zero_members = named (codes "ival") refl (obj end) end

abbrev pub zero_IsConstant : IsConstant zero_members none
unfolding equal
zero_IsConstant = no_digits here tt (refl, tt)

abbrev rexpr_members : Members → Members
rexpr_members const = named (codes "A_Const") refl (obj const) end

abbrev colref_members : Members
colref_members =
    named (codes "fields") refl
      (arr
        (item (string_node (codes "user_id") (plain_key-IsRaw (codes "user_id") refl)) none_left))
      end

abbrev lexpr_members : Members
lexpr_members = named (codes "ColumnRef") refl (obj colref_members) end

abbrev aexpr_members : Members → Members
aexpr_members const = named (codes "kind") refl kind (
    named (codes "name") refl
      (arr (item (string_node (codes "=") (plain_key-IsRaw (codes "=") refl)) none_left))
      (named (codes "lexpr") refl (obj lexpr_members)
        (named (codes "rexpr") refl (obj (rexpr_members const)) end)))

abbrev condition_members : Members → Members
condition_members const = named (codes "A_Expr") refl (obj (aexpr_members const)) end

abbrev condition_IsEquality :
    (const : Members) (key : Option Bytes)
    → IsConstant const key
    → IsEquality (condition_members const) (codes "user_id") key
unfolding equal
condition_IsEquality const key is_constant = record {
  aexpr = (aexpr_members const);
  lexpr = lexpr_members;
  colref = colref_members;
  rexpr = (rexpr_members const);
  const = const;
  ops = none_left;
  names = none_left;
  op_raw = plain_key-IsRaw (codes "=") refl;
  column_raw = plain_key-IsRaw (codes "user_id") refl;
  at_aexpr = here;
  at_name = there refl here;
  at_lexpr = there refl (there refl here);
  at_colref = here;
  at_fields = here;
  at_rexpr = there refl (there refl (there refl here));
  at_const = here;
  constant = is_constant;
}

abbrev rangevar_members : Members
rangevar_members =
    named (codes "relname") refl (str (codes "orders") (plain_key-IsRaw (codes "orders") refl))
      (named (codes "inh") refl kind end)

abbrev select_members : Members → Members
select_members const =
    named (codes "fromClause") refl
      (arr (item (obj (named (codes "RangeVar") refl (obj rangevar_members) end)) none_left))
      (named (codes "whereClause") refl (obj (condition_members const)) end)

abbrev stmt_members : Members → Members
stmt_members const =
    named (codes "stmt") refl
      (obj (named (codes "SelectStmt") refl (obj (select_members const)) end)) end

abbrev pub tree : Members → Members
tree const =
    named (codes "version") refl number
      (named (codes "stmts") refl (arr (item (obj (stmt_members const)) none_left)) end)

abbrev pub tree_IsSelect :
    (const : Members) (key : Option Bytes)
    → IsConstant const key
    → IsSelect (tree const) (codes "orders") (codes "user_id") key
unfolding equal
tree_IsSelect const key is_constant = record {
  stmt = (stmt_members const);
  more_nodes = end;
  select = (select_members const);
  rangevar = rangevar_members;
  more_vars = end;
  condition = (condition_members const);
  stmts = none_left;
  froms = none_left;
  table_raw = plain_key-IsRaw (codes "orders") refl;
  at_stmts = there refl here;
  at_stmt = here;
  at_from = here;
  at_relname = here;
  no_schema = (refl, (refl, tt));
  at_where = there refl here;
  equality = condition_IsEquality const key is_constant;
}
