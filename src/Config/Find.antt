-- ===== src/Config/Find.antt =====
-- `Fleet.find_node` and `Fleet.find_builder` of src/solfleet/config.py.
use solfleet.Prelude.{
  List, [], ◌∷◌, ◌++◌, String, Option, none, some, map, mem, truthy, ◌==◌, is_some, if◌then◌else◌,
  ◌≡◌, ◌⊎◌, refl, arith, Option-cases, Bool-cases, inl, inr, mem-append,
}
use mathlib.Core.Path.{subst}
use mathlib.Core.Option.{some-injective}
use solfleet.Prelude.Dict.{Dict, lookup}
use solfleet.Config.{Node, Cluster, BuilderHost, Fleet}

unfoldable pub find_builder : Fleet → Option String → Option BuilderHost
unfolding lookup
find_builder fleet none = none
find_builder fleet (some name) = if truthy (some name) then lookup name fleet.builders else none

abbrev pub Found : Type 0
Found = String × Cluster × Node

-- The inner loop: the first node of the cluster with the name.
abbrev pub find_in : String → List Node → Option Node
find_in name [] = none
find_in name (node ∷ nodes) = if node.name == name then some node else find_in name nodes

abbrev pub find_in_clusters : String → Dict Cluster → Option Found
find_in_clusters name [] = none
find_in_clusters name ((cluster_name, cluster) ∷ rest) =
    let later = find_in_clusters name rest in
    elim (find_in name cluster.nodes) [
      | none ↦ later
      | some node ↦ some (cluster_name, cluster, node)
    ]

unfoldable pub find_node : Fleet → String → Option Found
find_node fleet name = find_in_clusters name fleet.clusters

abbrev pub names : List Node → List String
names nodes = map (λ n. n.name) nodes

-- The names of all nodes, cluster by cluster.
abbrev pub all_names : Dict Cluster → List String
all_names [] = []
all_names ((_, cluster) ∷ rest) = names cluster.nodes ++ all_names rest

is_some-find_in :
    (name : String) (nodes : List Node) → is_some (find_in name nodes) ≡ mem name (names nodes)
is_some-find_in name [] = refl
is_some-find_in name (node ∷ nodes) = ground (arith, is_some-find_in name nodes)

is_some-find_in_clusters :
    (name : String) (clusters : Dict Cluster)
    → is_some (find_in_clusters name clusters) ≡ mem name (all_names clusters)
is_some-find_in_clusters name [] = refl
is_some-find_in_clusters name ((_, cluster) ∷ rest) = ground (
  arith,
  is_some-find_in name cluster.nodes,
  is_some-find_in_clusters name rest,
  mem-append name (names cluster.nodes) (all_names rest),
)

-- `find_node` finds a node exactly for the names that some cluster lists.
pub is_some-find_node :
    (fleet : Fleet) (name : String)
    → is_some (find_node fleet name) ≡ mem name (all_names fleet.clusters)
unfolding find_node
is_some-find_node fleet name = is_some-find_in_clusters name fleet.clusters

-- The node stands in the list.
abbrev pub NodeIn : Node → List Node → Type 0
NodeIn node [] = ⊥
NodeIn node (n ∷ nodes) = (n ≡ node) ⊎ NodeIn node nodes

-- The cluster stands under its name in the fleet, and the node stands in it.
abbrev pub FoundIn : Found → Dict Cluster → Type 0
FoundIn found [] = ⊥
FoundIn found ((cluster_name, cluster) ∷ rest) =
    ((cluster_name ≡ found.0) × (cluster ≡ found.1) × NodeIn found.2 cluster.nodes)
    ⊎ FoundIn found rest

find_in_sound :
    (name : String) (nodes : List Node) (node : Node)
    → find_in name nodes ≡ some node
    → (node.name ≡ name) × NodeIn node nodes
find_in_sound name [] node h = cc
find_in_sound name (n ∷ nodes) node h = elim (Bool-cases (n.name == name)) [
  | inl same ↦ ground arith
  | inr other ↦
      let (named, within) = find_in_sound name nodes node (rw other at h) in (named, inr within)
]

find_in_clusters_sound :
    (name : String) (clusters : Dict Cluster) (found : Found)
    → find_in_clusters name clusters ≡ some found
    → (found.2.name ≡ name) × FoundIn found clusters
find_in_clusters_sound name [] found h = cc
find_in_clusters_sound name ((cluster_name, cluster) ∷ rest) found h =
    elim (Option-cases (find_in name cluster.nodes)) [
      | inl absent ↦
          let (named, within) =
            find_in_clusters_sound name rest found (rw (absent, find_in_clusters) at h) in
          (named, inr within)
      | inr (node, e) ↦
          let (named, within) = find_in_sound name cluster.nodes node e in
          subst (λ f. (f.2.name ≡ name) × FoundIn f ((cluster_name, cluster) ∷ rest))
            (some-injective (cluster_name, cluster, node) found (rw (e, find_in_clusters) at h))
            (named, inl (refl, refl, within))
    ]

-- What find_node returns is a node of that name, with the cluster that lists it and the cluster's name.
pub find_node_sound :
    (fleet : Fleet) (name : String) (found : Found)
    → find_node fleet name ≡ some found
    → (found.2.name ≡ name) × FoundIn found fleet.clusters
unfolding find_node
find_node_sound fleet name found h = find_in_clusters_sound name fleet.clusters found h
