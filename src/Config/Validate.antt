-- ===== src/Config/Validate.antt =====
-- The validators of src/solfleet/config.py, each as the exception that it raises, or `none`. pydantic
-- accepts a fleet only if none of them raises, for the fleet and for all that it holds.
use Prim.Native.Nat.{◌+◌}
use solfleet.Prelude.{
  ℕ, Bool, true, false, ◌&&◌, not, List, [], ◌∷◌, String, Option, none, some, mem, truthy, ◌==◌,
  is_empty, select, sorted_set, ltb, if◌then◌else◌, ◌≡◌, arith, Error, value_error, All, mem-append,
}
use solfleet.Prelude.Text.{str, repr, strs}
use solfleet.Prelude.Dict.{Dict, lookup, keys}
use solfleet.Config.{
  Node, Role, rpc, validator, InstallConfig, Strategy, build, Cluster, Pool, Fleet, BuilderHost,
}
use solfleet.Config.Find.{names, all_names}

abbrev is_rpc : Role → Bool
is_rpc rpc = true
is_rpc validator = false

unfoldable pub check_role_fields : Node → Option Error
check_role_fields node =
    if is_rpc node.role && not (truthy node.rpc_url)
    then some (value_error (str "node " ∷ str node.name ∷ str ": role=rpc requires rpc_url" ∷ []))
    else if not (is_rpc node.role) && not (truthy node.identity)
    then some
        (value_error (str "node " ∷ str node.name ∷ str ": role=validator requires identity" ∷ []))
    else none

abbrev pub is_build : Strategy → Bool
is_build build = true
is_build _ = false

unfoldable pub check_builder : InstallConfig → Option Error
check_builder install =
    if is_build install.strategy && not (truthy install.builder)
    then some (value_error (str "install.strategy=build requires install.builder" ∷ []))
    else none

-- `names.count(n)`
abbrev pub count : String → List String → ℕ
count a [] = 0
count a (x ∷ xs) = (if a == x then 1 else 0) + count a xs

unfoldable pub check_unique_names : Cluster → Option Error
check_unique_names cluster =
    let dupes = select (λ n. ltb 1 (count n (names cluster.nodes))) (names cluster.nodes) in
    if is_empty dupes
    then none
    else some (value_error (str "duplicate node names: " ∷ strs (sorted_set dupes) ∷ []))

-- The first `raise` in a loop over `clusters.items()` or over the pools.
abbrev pub first_error {ℓ} : {A : Type ℓ} → (A → Option Error) → List A → Option Error
first_error f [] = none
first_error f (x ∷ xs) = let rest = first_error f xs in elim (f x) [ none ↦ rest | some e ↦ some e ]

abbrev pub unknown_builder : String → Option String → Error
unknown_builder name builder = value_error (
    str "cluster "
    ∷ str name
    ∷ str ": install.builder "
    ∷ repr builder
    ∷ str " is not defined in the top-level builders: map"
    ∷ [])

abbrev pub builder_exists : Dict BuilderHost → String → InstallConfig → Option Error
builder_exists builders name install = elim install.builder [
  | none ↦ none
  | some builder ↦
      if is_build install.strategy && truthy (some builder) && not (mem builder (keys builders))
      then some (unknown_builder name (some builder))
      else none
]

abbrev pub cluster_builder_exists : Dict BuilderHost → String × Cluster → Option Error
cluster_builder_exists builders (name, cluster) = elim cluster.install [
  | none ↦ none
  | some install ↦ builder_exists builders name install
]

unfoldable pub check_builders_exist : Fleet → Option Error
check_builders_exist fleet = first_error (cluster_builder_exists fleet.builders) fleet.clusters

abbrev members_in : Pool → Option Cluster → Option Error
members_in pool none = some (
    value_error (
      str "pool "
      ∷ str pool.record_name
      ∷ str ": unknown cluster "
      ∷ repr (some pool.cluster)
      ∷ []))
members_in pool (some cluster) =
    let missing = select (λ m. not (mem m (names cluster.nodes))) pool.members in
    if is_empty missing
    then none
    else some (
        value_error (
          str "pool "
          ∷ str pool.record_name
          ∷ str ": members not in cluster "
          ∷ str pool.cluster
          ∷ str ": "
          ∷ strs missing
          ∷ []))

unfoldable pub check_pool : Dict Cluster → Pool → Option Error
check_pool clusters pool = members_in pool (lookup pool.cluster clusters)

unfoldable pub check_pool_members : Fleet → Option Error
check_pool_members fleet = elim fleet.dns [
  | none ↦ none
  | some dns ↦ first_error (check_pool fleet.clusters) dns.pools
]

-- The validators of a cluster and of all that it holds.
abbrev pub install_error : Option InstallConfig → Option Error
install_error none = none
install_error (some install) = check_builder install

abbrev pub ClusterAccepted : String × Cluster → Type 0
ClusterAccepted (_, cluster) =
    All (λ node. check_role_fields node ≡ none) cluster.nodes
    × (install_error cluster.install ≡ none)
    × (check_unique_names cluster ≡ none)

-- `Fleet.model_validate` accepts the fleet.
pub record IsAccepted (fleet : Fleet) : Type 0 where
  pub clusters : All ClusterAccepted fleet.clusters
  pub builders : check_builders_exist fleet ≡ none
  pub pools : check_pool_members fleet ≡ none

pub All-first_error {ℓ} :
    {A : Type ℓ} (f : A → Option Error) (xs : List A)
    → first_error f xs ≡ none
    → All (λ x. f x ≡ none) xs
All-first_error f [] h = tt
All-first_error f (x ∷ xs) h = ground (arith, All-first_error f xs)

-- Some cluster of the list that has the name lists the node too.
pub mem-all_names :
    (m name : String) (clusters : Dict Cluster) (cluster : Cluster)
    → lookup name clusters ≡ some cluster
    → mem m (names cluster.nodes) ≡ true
    → mem m (all_names clusters) ≡ true
unfolding lookup
mem-all_names m name [] cluster h k = cc
mem-all_names m name ((n, c) ∷ rest) cluster h k =
    ground (arith, mem-append m (names c.nodes) (all_names rest), mem-all_names m name rest cluster)
