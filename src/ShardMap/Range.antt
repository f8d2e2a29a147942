-- ===== src/ShardMap/Range.antt =====
-- Range sharding: which shard a key gets.
use sharegres.Base.{
  ℕ, ◌≤◌, ◌<◌, ◌≡◌, ◌⊎◌, inl, inr, refl, ap, List, [], ◌∷◌, some, arith, Bool-cases,
}
use sharegres.ShardMap.{
  Shard, ShardMethod, TableRule, in_range, scan_ranges, find_by_u64, find_by_int, to_u64,
}
use sharegres.Base.Int.{ℤ}

-- The range of `s` holds the key.
abbrev pub Holds : ℕ → Shard → Type 0
Holds key s = (s.key_range_start ≤ key) × (key < s.key_range_end)

-- No key lies in two ranges of the list.
abbrev pub DisjointFrom : Shard → List Shard → Type 0
DisjointFrom s [] = Unit {0}
DisjointFrom s (t ∷ ts) =
    ((t.key_range_end ≤ s.key_range_start) ⊎ (s.key_range_end ≤ t.key_range_start))
    × DisjointFrom s ts

abbrev pub Disjoint : List Shard → Type 0
Disjoint [] = Unit {0}
Disjoint (s ∷ ss) = DisjointFrom s ss × Disjoint ss

-- `s` stands in the list.
abbrev pub Among : Shard → List Shard → Type 0
Among s [] = ⊥
Among s (t ∷ ts) = (s ≡ t) ⊎ Among s ts

abbrev pub NoneHolds : ℕ → List Shard → Type 0
NoneHolds key [] = Unit {0}
NoneHolds key (s ∷ ss) = ¬ (Holds key s) × NoneHolds key ss

DisjointFrom-Among :
    (key : ℕ) (s t : Shard) (ts : List Shard)
    → DisjointFrom s ts
    → Among t ts
    → Holds key s
    → Holds key t
    → ⊥
DisjointFrom-Among key s t [] d m hs ht = m
DisjointFrom-Among key s t (u ∷ ts) d (inl e) hs ht = ground arith
DisjointFrom-Among key s t (u ∷ ts) d (inr m) hs ht = DisjointFrom-Among key s t ts d.1 m hs ht

scan_ranges-Among :
    (key : ℕ) (s fallback : Shard) (shards : List Shard)
    → Disjoint shards
    → Among s shards
    → Holds key s
    → scan_ranges key shards fallback ≡ s
unfolding scan_ranges
scan_ranges-Among key s fallback [] d m h = absurd m
scan_ranges-Among key s fallback (t ∷ ts) d (inl e) h = ground arith
scan_ranges-Among key s fallback (t ∷ ts) d (inr m) h = elim (Bool-cases (in_range key t)) [
  | inl holds ↦ absurd (DisjointFrom-Among key t s ts d.0 m (ground arith) h)
  | inr misses ↦ rw misses (scan_ranges-Among key s fallback ts d.1 m h)
]

scan_ranges-NoneHolds :
    (key : ℕ) (fallback : Shard) (shards : List Shard)
    → NoneHolds key shards
    → scan_ranges key shards fallback ≡ fallback
unfolding scan_ranges
scan_ranges-NoneHolds key fallback [] h = refl
scan_ranges-NoneHolds key fallback (t ∷ ts) h =
    ground (arith, scan_ranges-NoneHolds key fallback ts h.1, h.0)

-- In a RANGE rule whose ranges do not overlap, an integer key goes to the shard of the rule whose
-- range holds it, read as an unsigned 64-bit number, wherever that shard stands in the rule.
pub find_by_int-Among :
    (rule : TableRule) (key : ℤ) (s : Shard)
    → rule.method ≡ ShardMethod.range
    → Disjoint rule.shards
    → Among s rule.shards
    → Holds (to_u64 key) s
    → find_by_int rule key ≡ some s
unfolding find_by_int
find_by_int-Among rule key s m d a h = rw m (found rule.shards d a)
  where
    found :
        (shards : List Shard)
        → Disjoint shards
        → Among s shards
        → find_by_u64 ShardMethod.range (to_u64 key) shards ≡ some s
    found [] d' a' = absurd a'
    found (t ∷ ts) d' a' = ap some (scan_ranges-Among (to_u64 key) s t (t ∷ ts) d' a' h)

-- A key outside every range of a RANGE rule with shards goes to the first shard.
pub find_by_int-NoneHolds :
    (rule : TableRule) (key : ℤ) (s : Shard) (ss : List Shard)
    → rule.method ≡ ShardMethod.range
    → rule.shards ≡ s ∷ ss
    → NoneHolds (to_u64 key) (s ∷ ss)
    → find_by_int rule key ≡ some s
unfolding find_by_int
find_by_int-NoneHolds rule key s ss m e h =
    rw (m, e) (ap some (scan_ranges-NoneHolds (to_u64 key) s (s ∷ ss) h))
