-- ===== src/ShardMap/Hash.antt =====
-- Every key gets a shard of its rule, by range or by hash.
use sharegres.Base.{
  ℕ, zero, suc, ◌%◌, ◌<◌, ◌≡◌, ◌≢◌, inl, inr, refl, List, [], ◌∷◌, subst, some, arith, get_elem?,
  length,
}
use sharegres.Base.Bytes.{Bytes}
use sharegres.Base.Int.{ℤ}
use sharegres.ShardMap.Range.{Among}
use sharegres.ShardMap.{
  Shard, ShardMethod, TableRule, scan_ranges, find_in_range, find_by_u64, find_by_int, find_by_str,
  string_hash, to_u64,
}

scan_ranges-Among-all :
    (key : ℕ) (shards all : List Shard) (fallback : Shard)
    → ((t : Shard) → Among t shards → Among t all)
    → Among fallback all
    → Among (scan_ranges key shards fallback) all
unfolding scan_ranges
scan_ranges-Among-all key [] all fallback sub f = f
scan_ranges-Among-all key (s ∷ ss) all fallback sub f =
    ground
      (arith, sub s (inl refl), scan_ranges-Among-all key ss all fallback (λ t m. sub t (inr m)) f)

get_elem?-Among :
    (shards : List Shard) (i : ℕ)
    → i < length shards
    → (s : Shard) × (get_elem? shards i ≡ some s) × Among s shards
get_elem?-Among [] i h = absurd (omega arith)
get_elem?-Among (s ∷ ss) zero h = (s, refl, inl refl)
get_elem?-Among (s ∷ ss) (suc i) h =
    let (t, e, m) = get_elem?-Among ss i (omega arith) in (t, e, inr m)

find_by_u64-total :
    (method : ShardMethod) (key : ℕ) (shards : List Shard)
    → shards ≢ []
    → (s : Shard) × (find_by_u64 method key shards ≡ some s) × Among s shards
unfolding find_by_u64
find_by_u64-total ShardMethod.range key [] h = absurd (h refl)
find_by_u64-total ShardMethod.range key (s ∷ ss) h = (
  scan_ranges key (s ∷ ss) s,
  refl,
  scan_ranges-Among-all key (s ∷ ss) (s ∷ ss) s (λ t m. m) (inl refl),
)
find_by_u64-total ShardMethod.hash key [] h = absurd (h refl)
find_by_u64-total ShardMethod.hash key (s ∷ ss) h =
    get_elem?-Among (s ∷ ss) (key % length (s ∷ ss)) (omega arith)

-- In a rule with shards, by either method, every integer key and every string key gets a shard, and
-- it is one of the rule's.
pub find_by_key-total :
    (rule : TableRule) (key : ℤ) (str : Bytes)
    → rule.shards ≢ []
    → ((s : Shard) × (find_by_int rule key ≡ some s) × Among s rule.shards)
      × ((s : Shard) × (find_by_str rule str ≡ some s) × Among s rule.shards)
unfolding find_by_int find_by_str
find_by_key-total rule key str h = (
  find_by_u64-total rule.method (to_u64 key) rule.shards h,
  find_by_u64-total rule.method (string_hash 5381 str) rule.shards h,
)

-- A shard that the search gives is one of the rule's, and an empty rule gives none.
find_by_u64-Among :
    (method : ShardMethod) (key : ℕ) (shards : List Shard) (s : Shard)
    → find_by_u64 method key shards ≡ some s
    → Among s shards
unfolding find_by_u64 find_in_range
find_by_u64-Among ShardMethod.range key [] s h = cc
find_by_u64-Among ShardMethod.hash key [] s h = cc
find_by_u64-Among method key (t ∷ ts) s h =
    let (u, found, among) = find_by_u64-total method key (t ∷ ts) (λ e. cc) in
    let same : u ≡ s = cc in subst (λ v. Among v (t ∷ ts)) same among

pub find_by_int-Among_rule :
    (rule : TableRule) (key : ℤ) (s : Shard) → find_by_int rule key ≡ some s → Among s rule.shards
unfolding find_by_int
find_by_int-Among_rule rule key s h = find_by_u64-Among rule.method (to_u64 key) rule.shards s h

pub find_by_str-Among_rule :
    (rule : TableRule) (str : Bytes) (s : Shard)
    → find_by_str rule str ≡ some s
    → Among s rule.shards
unfolding find_by_str
find_by_str-Among_rule rule str s h =
    find_by_u64-Among rule.method (string_hash 5381 str) rule.shards s h
