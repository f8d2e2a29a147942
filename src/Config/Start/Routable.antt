-- ===== src/Config/Start/Routable.antt =====
-- From a configuration file to the execution of a scattered query.
use sharegres.Base.{
  Bool, true, false, ℕ, zero, suc, ◌<◌, ◌≤◌, ◌≡◌, refl, sym, ap, subst, arith, Bool-cases,
  Option-cases, inl, inr, true, List, [], ◌∷◌, Option, none, some, length, get_elem?, All,
}
use sharegres.Base.Bytes.{Bytes, equal}
use sharegres.Config.Load.{config_load}
use sharegres.Config.Start.{open_shards, pick, rule_of, rules_of, shard_map_of}
use sharegres.Config.Valid.{IsValid, IsRule, config_load-IsValid}
use sharegres.Config.{ShagresCfg, ShardEntry, RuleEntry}
use sharegres.FeProtocol.Reply.{queued}
use sharegres.FeProtocol.Scatter.{Scattered, execute_scatter-Scattered}
use sharegres.FeProtocol.{execute_scatter}
use sharegres.Libpq.{Libpq}
use sharegres.QueryParser.{ParseResult}
use sharegres.Router.Scatter.{Allowed, WithinRule, decide-Allowed}
use sharegres.Router.{
  scatter, StmtClass, stmt_class, handled_locally, transaction, unknown, ddl, insert, other, decide,
}
use sharegres.Session.{State, max_scatter_shards}
use sharegres.ShardMap.Range.{Among}
use sharegres.ShardMap.{Shard, ShardMap, TableRule, find_rule, find_rule_in}

-- What holds of a result, if there is one.
abbrev OnSome {ℓ} : {A : Type ℓ} → (A → Type 0) → Option A → Type 0
OnSome P none = Unit
OnSome P (some a) = P a

at_some {ℓ} : {A : Type ℓ} (P : A → Type 0) (o : Option A) (a : A) → OnSome P o → o ≡ some a → P a
at_some P o a h e = subst (λ x. OnSome P x) e h

get_elem?-Among :
    (shards : List Shard) (i : ℕ)
    → i < length shards
    → (s : Shard) × (get_elem? shards i ≡ some s) × Among s shards
get_elem?-Among [] i h = absurd (omega (arith, h))
get_elem?-Among (t ∷ ts) zero h = (t, refl, inl refl)
get_elem?-Among (t ∷ ts) (suc i) h =
    let (s, e, m) = get_elem?-Among ts i (omega (arith, h)) in (s, e, inr m)

-- Shards of the map, and not more than the places.
abbrev Picked : List Shard → ℕ → List Shard → Type 0
Picked shards n picked = All (λ s. Among s shards) picked × (length picked ≤ n)

-- Places in range are all found.
pick-Picked :
    (shards : List Shard) (is : List ℕ)
    → All (λ i. i < length shards) is
    → (picked : List Shard) × (pick shards is ≡ some picked) × Picked shards (length is) picked
unfolding pick
pick-Picked shards [] h = ([], refl, (tt, omega arith))
pick-Picked shards (i ∷ is) (h, hs) =
    let (s, at, known) = get_elem?-Among shards i h in
    let (picked, found, (among, few)) = pick-Picked shards is hs in
    (s ∷ picked, rw (at, found) refl, ((known, among), omega (arith, few)))

abbrev RulePicked : List Shard → ℕ → TableRule → Type 0
RulePicked shards n rule = Picked shards n rule.shards

rules_of-RulePicked :
    (shards : List Shard) (entries : List ShardEntry) (rs : List RuleEntry)
    → length shards ≡ length entries
    → All (λ r. IsRule entries r) rs
    → (rules : List TableRule) × (rules_of shards rs ≡ some rules)
      × All (λ rule. RulePicked shards (length entries) rule) rules
unfolding rules_of rule_of
rules_of-RulePicked shards entries [] same valid = ([], refl, tt)
rules_of-RulePicked shards entries (r ∷ rs) same ((within, few, column), valid) =
    let places : All (λ i. i < length shards) r.shards =
      subst (λ n. All (λ i. i < n) r.shards) (sym same) within in
    let (picked, found, (among, count)) = pick-Picked shards r.shards places in
    let (rules, rest, all) = rules_of-RulePicked shards entries rs same valid in
    let rule : TableRule = record {
      table_name = r.table_name;
      shard_column = r.shard_column;
      method = r.method;
      broadcast = r.broadcast;
      shards = picked;
    } in
    (rule ∷ rules, rw (found, rest) refl, ((among, omega (arith, count, few)), all))

find_rule_in-All :
    (P : TableRule → Type 0) (rules : List TableRule) (name : Bytes)
    → All P rules
    → OnSome P (find_rule_in rules name)
unfolding find_rule_in
find_rule_in-All P [] name all = tt
find_rule_in-All P (rule ∷ rules) name (first, all) =
    elim (Bool-cases (equal rule.table_name name)) [
      | inl same ↦ rw same first
      | inr differs ↦ rw differs (find_rule_in-All P rules name all)
    ]

length-open_shards :
    (i : ℕ) (ss : List ShardEntry) → OnSome (λ shards. length shards ≡ length ss) (open_shards i ss)
unfolding open_shards
length-open_shards i [] = refl
length-open_shards i (s ∷ ss) = elim (Option-cases s.conninfo) [
  | inl e ↦ rw e tt
  | inr (c, e) ↦
      let rest = length-open_shards (suc i) ss in
      elim (Option-cases (open_shards (suc i) ss)) [
        | inl e' ↦ rw (e, e') tt
        | inr (shards, e') ↦
            rw (e, e')
              (ap suc (at_some (λ x. length x ≡ length ss) (open_shards (suc i) ss) shards rest e'))
      ]
]

-- Every rule of the map that is built from a valid configuration.
RulesPicked : ShardMap → Type 0
RulesPicked m =
    (name : Bytes)
    → OnSome (λ rule. Picked m.shards max_scatter_shards rule.shards)
        (find_rule_in m.table_rules name)

shard_map_of-RulesPicked :
    (cfg : ShagresCfg) → IsValid cfg → OnSome (λ m. RulesPicked m) (shard_map_of cfg)
unfolding shard_map_of RulesPicked
shard_map_of-RulesPicked cfg valid = elim (Option-cases (open_shards 0 cfg.shards)) [
  | inl e ↦ rw e tt
  | inr (shards, e) ↦
      let same : length shards ≡ length cfg.shards =
        at_some (λ x. length x ≡ length cfg.shards) (open_shards 0 cfg.shards) shards
          (length-open_shards 0 cfg.shards) e in
      let (rules, made, all) =
        rules_of-RulePicked shards cfg.shards cfg.table_rules same valid.rules in
      rw (e, made)
        (λ name.
          weaken shards (find_rule_in rules name)
            (find_rule_in-All (λ rule. RulePicked shards (length cfg.shards) rule) rules name all))
]
  where
    weaken :
        (shards : List Shard) (o : Option TableRule)
        → OnSome (λ rule. Picked shards (length cfg.shards) rule.shards) o
        → OnSome (λ rule. Picked shards max_scatter_shards rule.shards) o
    weaken shards none h = tt
    weaken shards (some rule) (among, few) = (among, omega (arith, few, valid.few_shards))

find_rule-Picked :
    (m : ShardMap) (table : Option Bytes)
    → RulesPicked m
    → OnSome (λ rule. Picked m.shards max_scatter_shards rule.shards) (find_rule m table)
unfolding find_rule RulesPicked
find_rule-Picked m none h = tt
find_rule-Picked m (some name) h = h name

-- A scatter is over the shards of a rule that was found.
WithinRule-scatter :
    (broadcast : Bool) (class : StmtClass) (rule : TableRule) (p : ParseResult)
    (shards : List Shard)
    → WithinRule broadcast class rule p (some (scatter shards))
    → shards ≡ rule.shards
WithinRule-scatter true class rule p shards d = cc
WithinRule-scatter false class rule p shards d = d

Allowed-scatter :
    (class : StmtClass) (found : Option TableRule) (p : ParseResult) (shards : List Shard)
    → Allowed class found p (some (scatter shards))
    → (rule : TableRule) × (found ≡ some rule) × (shards ≡ rule.shards)
Allowed-scatter handled_locally found p shards d = cc
Allowed-scatter transaction found p shards d = cc
Allowed-scatter unknown found p shards d = cc
Allowed-scatter ddl none p shards d = cc
Allowed-scatter ddl (some rule) p shards d = (rule, refl, cc)
Allowed-scatter insert none p shards d = cc
Allowed-scatter insert (some rule) p shards d =
    (rule, refl, WithinRule-scatter rule.broadcast insert rule p shards d)
Allowed-scatter other none p shards d = cc
Allowed-scatter other (some rule) p shards d =
    (rule, refl, WithinRule-scatter rule.broadcast other rule p shards d)

decide-Picked :
    (m : ShardMap) (p : ParseResult) (shards : List Shard)
    → RulesPicked m
    → decide m p ≡ some (scatter shards)
    → Picked m.shards max_scatter_shards shards
decide-Picked m p shards picked decided =
    let allowed : Allowed (stmt_class p.stmt_type) (find_rule m p.table_name) p
        (some (scatter shards)) =
      subst (λ d. Allowed (stmt_class p.stmt_type) (find_rule m p.table_name) p d) decided
        (decide-Allowed m p) in
    let (rule, found, same) =
      Allowed-scatter (stmt_class p.stmt_type) (find_rule m p.table_name) p shards allowed in
    subst (λ x. Picked m.shards max_scatter_shards x) (sym same)
      (at_some (λ r. Picked m.shards max_scatter_shards r.shards) (find_rule m p.table_name) rule
        (find_rule-Picked m p.table_name picked) found)

-- Whatever the configuration file holds: if a shard map can be made of what is loaded from it, and the
-- router scatters a statement by that map, then the statement goes to shards of the map only, and
-- `execute_scatter` does not fail: afterwards the session has one entry for each of the shards, which
-- has failed or waits on a connection, and it waits for results, or it is ready and the client has been
-- told that all connections have failed.
pub config_load-scatters :
    (pq : Libpq) (file sql : Bytes) (cfg : ShagresCfg) (m : ShardMap) (p : ParseResult)
    (shards : List Shard) (st : State pq)
    → config_load (some file) ≡ some cfg
    → shard_map_of cfg ≡ some m
    → decide m p ≡ some (scatter shards)
    → All (λ s. Among s m.shards) shards
      × (let (ok, st') = execute_scatter pq sql shards st in
          (ok ≡ true) × Scattered (queued st.session) shards st'.session)
config_load-scatters pq file sql cfg m p shards st loaded mapped decided =
    let (cfg', loaded', valid) = config_load-IsValid file in
    let is_valid : IsValid cfg =
      at_some (λ c. IsValid c) (config_load (some file)) cfg
        (subst (λ o. OnSome (λ c. IsValid c) o) (sym loaded') valid) loaded in
    let picked : RulesPicked m =
      at_some (λ x. RulesPicked x) (shard_map_of cfg) m (shard_map_of-RulesPicked cfg is_valid)
        mapped in
    let (among, few) = decide-Picked m p shards picked decided in
    (among, execute_scatter-Scattered pq sql shards st few)
