-- ===== src/ShardMap/Tests.antt =====
-- The shard map at two shards of the keys 0 to 99 and 100 to 199.
use sharegres.Base.{◌≡◌, refl, inl, inr, false, [], ◌∷◌, some, none, arith}
use sharegres.Base.Bytes.{codes}
use sharegres.Base.Int.{pos, negsuc}
use sharegres.ShardMap.Hash.{find_by_key-total}
use sharegres.ShardMap.Range.{find_by_int-Among, find_by_int-NoneHolds, Among}
use sharegres.ShardMap.{Shard, ShardMethod, TableRule, ShardMap, find_by_int, find_by_str, to_u64}

abbrev pub low : Shard
low = record {
  id = 0;
  name = codes "low";
  conninfo = codes "host=a";
  key_range_start = 0;
  key_range_end = 100;
}

abbrev pub high : Shard
high = record {
  id = 1;
  name = codes "high";
  conninfo = codes "host=b";
  key_range_start = 100;
  key_range_end = 200;
}

abbrev pub orders : TableRule
orders = record {
  table_name = codes "orders";
  shard_column = some (codes "user_id");
  method = ShardMethod.range;
  broadcast = false;
  shards = low ∷ high ∷ [];
}

abbrev pub countries : TableRule
countries = record orders { table_name = codes "countries"; shard_column = none }

abbrev pub two_shards : ShardMap
two_shards = record {
  shards = low ∷ high ∷ [];
  table_rules = orders ∷ countries ∷ [];
  pool_size = 4;
}

find_by_int-Among_example : find_by_int orders (pos 150) ≡ some high
find_by_int-Among_example =
    unfold to_u64 in
    find_by_int-Among orders (pos 150) high refl (((inr (omega arith)), tt), (tt, tt))
      (inr (inl refl)) (omega arith, omega arith)

find_by_int-NoneHolds_example : find_by_int orders (negsuc 0) ≡ some low
find_by_int-NoneHolds_example =
    unfold to_u64 in
    find_by_int-NoneHolds orders (negsuc 0) low (high ∷ []) refl refl
      ((λ h. omega (arith, h.1)), ((λ h. omega (arith, h.1)), tt))

find_by_key-total_example :
    ((s : Shard) × (find_by_int orders (negsuc 4) ≡ some s) × Among s orders.shards)
    × ((s : Shard) × (find_by_str orders (codes "bob") ≡ some s) × Among s orders.shards)
find_by_key-total_example = find_by_key-total orders (negsuc 4) (codes "bob") (λ e. cc)
