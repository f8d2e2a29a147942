-- ===== src/QueryParser/Tests.antt =====
-- Parse trees as libpg_query prints them, run through the definitions.
use sharegres.Base.{◌≡◌, refl, true, [], some}
use sharegres.Base.Bytes.{Bytes, codes}
use sharegres.Base.Int.{pos}
use sharegres.Json.Search.{get_int}
use sharegres.Json.Value.{obj, print}
use sharegres.QueryParser.Parse.{parse_tree, parse_query}
use sharegres.QueryParser.SampleTree.{tree, tree_IsSelect, const_members, const_IsConstant}
use sharegres.QueryParser.Select.{parse_query-select}
use sharegres.QueryParser.Insert.{parse_extract_insert_shard_key}
use sharegres.QueryParser.{StmtType, empty_result}

-- SELECT * FROM orders WHERE user_id = 42
abbrev pub select_tree : Bytes
select_tree =
    codes
      "{\"version\":160001,\"stmts\":[{\"stmt\":{\"SelectStmt\":{\"targetList\":[{\"ResTarget\":{\"val\":{\"ColumnRef\":{\"fields\":[{\"A_Star\":{}}],\"location\":7}},\"location\":7}}],\"fromClause\":[{\"RangeVar\":{\"relname\":\"orders\",\"inh\":true,\"relpersistence\":\"p\",\"location\":14}}],\"whereClause\":{\"A_Expr\":{\"kind\":\"AEXPR_OP\",\"name\":[{\"String\":{\"sval\":\"=\"}}],\"lexpr\":{\"ColumnRef\":{\"fields\":[{\"String\":{\"sval\":\"user_id\"}}],\"location\":27}},\"rexpr\":{\"A_Const\":{\"ival\":{\"ival\":42},\"location\":37}},\"location\":35}},\"limitOption\":\"LIMIT_OPTION_DEFAULT\",\"op\":\"SETOP_NONE\"}}}]}"

select_result :
    parse_tree select_tree
    ≡ some (
        some (record empty_result {
          stmt_type = StmtType.select;
          table_name = some (codes "orders");
          shard_key_found = true;
          shard_key_column = some (codes "user_id");
          shard_key_int = pos 42;
          shard_key_is_int = true;
          parse_tree_json = some select_tree;
        }))
unfolding parse_tree
select_result = refl

-- INSERT INTO orders (id, user_id) VALUES (7, 150)
abbrev pub insert_tree : Bytes
insert_tree =
    codes
      "{\"version\":160001,\"stmts\":[{\"stmt\":{\"InsertStmt\":{\"relation\":{\"relname\":\"orders\",\"inh\":true,\"relpersistence\":\"p\",\"location\":12},\"cols\":[{\"ResTarget\":{\"name\":\"id\",\"location\":20}},{\"ResTarget\":{\"name\":\"user_id\",\"location\":24}}],\"selectStmt\":{\"SelectStmt\":{\"valuesLists\":[{\"List\":{\"items\":[{\"A_Const\":{\"ival\":{\"ival\":7},\"location\":41}},{\"A_Const\":{\"ival\":{\"ival\":150},\"location\":44}}]}}],\"limitOption\":\"LIMIT_OPTION_DEFAULT\",\"op\":\"SETOP_NONE\"}},\"override\":\"OVERRIDING_NOT_SET\"}},\"stmt_len\":48}]}"

insert_result :
    parse_tree insert_tree
    ≡ some (
        some (record empty_result {
          stmt_type = StmtType.insert;
          table_name = some (codes "orders");
          parse_tree_json = some insert_tree;
        }))
unfolding parse_tree
insert_result = refl

insert_key :
    parse_extract_insert_shard_key
      (record empty_result { stmt_type = StmtType.insert; parse_tree_json = some insert_tree })
      (some (codes "user_id"))
    ≡ some (record empty_result {
      stmt_type = StmtType.insert;
      parse_tree_json = some insert_tree;
      shard_key_found = true;
      shard_key_column = some (codes "user_id");
      shard_key_int = pos 150;
      shard_key_is_int = true;
    })
unfolding parse_extract_insert_shard_key
insert_key = refl

parse_query-select_example :
    parse_query (λ sql. some (print (obj (tree const_members)) [])) (codes "SELECT")
    ≡ some (
        some (record empty_result {
          stmt_type = StmtType.select;
          table_name = some (codes "orders");
          shard_key_found = true;
          shard_key_column = some (codes "user_id");
          shard_key_int = get_int (codes "150");
          shard_key_is_int = true;
          parse_tree_json = some (print (obj (tree const_members)) []);
        }))
parse_query-select_example =
    parse_query-select (tree const_members) (codes "orders") (codes "user_id") (some (codes "150"))
      (tree_IsSelect const_members (some (codes "150")) const_IsConstant)
      (λ sql. some (print (obj (tree const_members)) [])) (codes "SELECT") refl
