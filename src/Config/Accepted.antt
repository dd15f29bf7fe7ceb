-- ===== src/Config/Accepted.antt =====
-- What the validators of src/solfleet/config.py promise to the operations.
use mathlib.Core.Path.{subst₂}
use Prim.Native.Nat.{◌≤◌, ◌<◌}
use solfleet.Prelude.{
  true, false, not, List, [], ◌∷◌, String, none, some, mem, is_some, is_empty, select, ltb, ◌≡◌,
  arith, All, All-map, inl, inr, Option-cases, ◌∙◌,
}
use solfleet.Prelude.Dict.{Dict, lookup, is_some-lookup}
use solfleet.Config.{Node, InstallConfig, build, Cluster, Pool, DnsConfig, Fleet}
use solfleet.Config.Find.{
  names, find_in, find_node, find_builder, is_some-find_node, NodeIn, Found, FoundIn,
  find_node_sound,
}
use solfleet.Config.Validate.{
  IsAccepted, count, check_unique_names, check_pool, check_pool_members, All-first_error,
  mem-all_names, check_builders_exist, check_builder, builder_exists, cluster_builder_exists,
  install_error, ClusterAccepted,
}

-- `all(m in known for m in members)`, as the list of the missing ones.
none_missing :
    (known members : List String)
    → is_empty (select (λ m. not (mem m known)) members) ≡ true
    → All (λ m. mem m known ≡ true) members
none_missing known [] h = tt
none_missing known (m ∷ members) h = ground (arith, none_missing known members)

check_pool-members :
    (fleet : Fleet) (pool : Pool)
    → check_pool fleet.clusters pool ≡ none
    → (cluster : Cluster) × (lookup pool.cluster fleet.clusters ≡ some cluster)
      × All (λ m. mem m (names cluster.nodes) ≡ true) pool.members
unfolding check_pool
check_pool-members fleet pool h = elim (Option-cases (lookup pool.cluster fleet.clusters)) [
  | inl absent ↦ absurd (ground arith)
  | inr (cluster, e) ↦ (cluster, e, none_missing (names cluster.nodes) pool.members (ground arith))
]

-- On a fleet that the validators accept, find_node finds every member of every pool.
pub pool_members_found :
    (fleet : Fleet) (dns : DnsConfig)
    → IsAccepted fleet
    → fleet.dns ≡ some dns
    → All (λ pool. All (λ m. is_some (find_node fleet m) ≡ true) pool.members) dns.pools
unfolding check_pool_members
pool_members_found fleet dns accepted e =
    All-map dns.pools
      (λ pool h.
        let (cluster, at, within) = check_pool-members fleet pool h in
        All-map pool.members
          (λ m k.
            is_some-find_node fleet m ∙ mem-all_names m pool.cluster fleet.clusters cluster at k)
          within)
      (All-first_error (check_pool fleet.clusters) dns.pools
        (rw (e, check_pool_members) at accepted.pools))

-- No name is counted twice.
abbrev Unique : List String → List String → Type 0
Unique all ns = All (λ n. ltb 1 (count n all) ≡ false) ns

no_dupes :
    (all ns : List String) → is_empty (select (λ n. ltb 1 (count n all)) ns) ≡ true → Unique all ns
no_dupes all [] h = tt
no_dupes all (n ∷ ns) h = ground (arith, no_dupes all ns)

count-pos :
    (node : Node) (nodes : List Node) → NodeIn node nodes → 0 < count node.name (names nodes)
count-pos node [] h = absurd h
count-pos node (n ∷ nodes) (inl e) = rw (← e) (ground arith)
count-pos node (n ∷ nodes) (inr h) = ground (arith, count-pos node nodes h)

find_in_unique :
    (node : Node) (nodes : List Node)
    → count node.name (names nodes) ≤ 1
    → NodeIn node nodes
    → find_in node.name nodes ≡ some node
find_in_unique node [] le h = absurd h
find_in_unique node (n ∷ nodes) le (inl e) = rw (← e) (ground arith)
find_in_unique node (n ∷ nodes) le (inr h) =
    ground (arith, count-pos node nodes h, find_in_unique node nodes)

Unique-at :
    (all : List String) (node : Node) (nodes : List Node)
    → Unique all (names nodes)
    → NodeIn node nodes
    → count node.name all ≤ 1
Unique-at all node [] u h = absurd h
Unique-at all node (n ∷ nodes) u (inl e) = rw (← e) (ground (arith, u.0))
Unique-at all node (n ∷ nodes) u (inr h) = Unique-at all node nodes u.1 h

-- In a cluster whose names pass the check for duplicates, the search by the name of a node of the cluster
-- finds that node.
find_in-unique_names :
    (cluster : Cluster) (node : Node)
    → check_unique_names cluster ≡ none
    → NodeIn node cluster.nodes
    → find_in node.name cluster.nodes ≡ some node
unfolding check_unique_names
find_in-unique_names cluster node ok h =
    find_in_unique node cluster.nodes
      (Unique-at (names cluster.nodes) node cluster.nodes
        (no_dupes (names cluster.nodes) (names cluster.nodes) (ground arith)) h)
      h

-- What holds of every entry holds of the one that was found.
at_found :
    (P : String × Cluster → Type 0) (clusters : Dict Cluster) (found : Found)
    → All P clusters
    → FoundIn found clusters
    → P (found.0, found.1)
at_found P [] found h within = absurd within
at_found P ((name, cluster) ∷ rest) found h (inl (same_name, same, _)) =
    subst₂ (λ n c. P (n, c)) same_name same h.0
at_found P (entry ∷ rest) found h (inr within) = at_found P rest found h.1 within

builder_exists-found :
    (fleet : Fleet) (name : String) (install : InstallConfig)
    → install.strategy ≡ build
    → check_builder install ≡ none
    → builder_exists fleet.builders name install ≡ none
    → is_some (find_builder fleet install.builder) ≡ true
unfolding check_builder find_builder
builder_exists-found fleet name install built named exists = elim (Option-cases install.builder) [
  | inl absent ↦ ground arith
  | inr (builder, e) ↦ ground (arith, is_some-lookup builder fleet.builders)
]

-- On a fleet that the validators accept, the builder of a found node whose cluster builds from source is
-- found.
install_builder_found :
    (fleet : Fleet) (name : String) (found : Found) (install : InstallConfig)
    → IsAccepted fleet
    → find_node fleet name ≡ some found
    → found.1.install ≡ some install
    → install.strategy ≡ build
    → is_some (find_builder fleet install.builder) ≡ true
unfolding check_builders_exist
install_builder_found fleet name found install accepted at e built =
    let within = (find_node_sound fleet name found at).1 in
    let named = at_found ClusterAccepted fleet.clusters found accepted.clusters within in
    let exists =
      at_found (λ entry. cluster_builder_exists fleet.builders entry ≡ none) fleet.clusters found
        (All-first_error (cluster_builder_exists fleet.builders) fleet.clusters accepted.builders)
        within in
    builder_exists-found fleet found.0 install built (rw (e, install_error) at named.1)
      (rw (e, cluster_builder_exists) at exists)
