-- ===== src/Router.antt =====
-- src/router/router.c and router.h: where a parsed statement is sent. A decision is `none` where the
-- JSON scanner faults, or where the key's column is compared with the NULL of a rule that has no
-- shard column (`strcmp` with a null pointer). The logging is left out.
pub mod Single
pub mod Scatter
pub mod Keyed
pub mod Statement
pub mod Tests
use sharegres.Base.{Bool, true, false, List, [], ◌∷◌, Option, none, some, if◌then◌else◌, ◌>>=◌}
use sharegres.Base.Bytes.{Bytes, equal}
use sharegres.QueryParser.{ParseResult, StmtType}
use sharegres.QueryParser.Insert.{parse_extract_insert_shard_key}
use sharegres.ShardMap.{Shard, TableRule, ShardMap, find_rule, find_by_int, find_by_str, get_all}

-- `RouteType` with what each kind of route carries: one shard, or all shards of a rule.
pub data RouteDecision : Type 0 where
  single : Shard → RouteDecision
  scatter : List Shard → RouteDecision
  local default : RouteDecision

-- What a statement needs before a rule is looked up.
pub data StmtClass : Type 0 where
  handled_locally transaction unknown ddl insert other : StmtClass

abbrev pub stmt_class : StmtType → StmtClass
stmt_class StmtType.set = handled_locally
stmt_class StmtType.show = handled_locally
stmt_class StmtType.discard = handled_locally
stmt_class StmtType.transaction = transaction
stmt_class StmtType.unknown = unknown
stmt_class StmtType.ddl = ddl
stmt_class StmtType.insert = insert
stmt_class StmtType.select = other
stmt_class StmtType.update = other
stmt_class StmtType.delete = other
stmt_class StmtType.copy = other

abbrev pub scatter_all : TableRule → RouteDecision
scatter_all rule = scatter (get_all rule)

-- `target` of a key: by integer, or by the string if there is one.
abbrev pub str_target : TableRule → Option Bytes → Option Shard
str_target rule none = none
str_target rule (some key) = find_by_str rule key

unfoldable pub key_target : TableRule → ParseResult → Option Shard
key_target rule parsed =
    if parsed.shard_key_is_int
    then find_by_int rule parsed.shard_key_int
    else str_target rule parsed.shard_key_str

abbrev pub single_or_scatter : TableRule → Option Shard → RouteDecision
single_or_scatter rule none = scatter_all rule
single_or_scatter rule (some target) = single target

-- `parsed->shard_key_found && parsed->shard_key_column && strcmp(...) == 0`
unfoldable pub decide_by_key :
    TableRule → ParseResult → Bool → Option Bytes → Option Bytes → Option RouteDecision
unfolding key_target equal get_all
decide_by_key rule parsed false column shard_column = some (scatter_all rule)
decide_by_key rule parsed true none shard_column = some (scatter_all rule)
decide_by_key rule parsed true (some column) none = none
decide_by_key rule parsed true (some column) (some shard_column) = some (
    if equal column shard_column
    then single_or_scatter rule (key_target rule parsed)
    else scatter_all rule)

unfoldable pub decide_keyed : TableRule → ParseResult → Option RouteDecision
unfolding decide_by_key
decide_keyed rule parsed =
    decide_by_key rule parsed parsed.shard_key_found parsed.shard_key_column rule.shard_column

-- For an INSERT without a key the tree is read again, with the rule's column.
unfoldable pub with_insert_key : StmtClass → TableRule → ParseResult → Option ParseResult
unfolding parse_extract_insert_shard_key
with_insert_key insert rule parsed =
    if parsed.shard_key_found
    then some parsed
    else parse_extract_insert_shard_key parsed rule.shard_column
with_insert_key _ rule parsed = some parsed

abbrev pub is_ddl : StmtClass → Bool
is_ddl ddl = true
is_ddl _ = false

unfoldable pub decide_for_rule : StmtClass → TableRule → ParseResult → Option RouteDecision
unfolding with_insert_key decide_keyed get_all
decide_for_rule class rule parsed =
    if rule.broadcast
    then some (scatter_all rule)
    else if is_ddl class
    then some (scatter_all rule)
    else with_insert_key class rule parsed >>= decide_keyed rule

abbrev pub for_found : StmtClass → ParseResult → Option TableRule → Option RouteDecision
for_found class parsed none = some default
for_found class parsed (some rule) = decide_for_rule class rule parsed

unfoldable pub decide_at : StmtClass → ShardMap → ParseResult → Option RouteDecision
unfolding find_rule decide_for_rule
decide_at handled_locally map_ parsed = some local
decide_at transaction map_ parsed = some default
decide_at unknown map_ parsed = some default
decide_at class map_ parsed = for_found class parsed (find_rule map_ parsed.table_name)

unfoldable pub decide : ShardMap → ParseResult → Option RouteDecision
unfolding decide_at
decide map_ parsed = decide_at (stmt_class parsed.stmt_type) map_ parsed
