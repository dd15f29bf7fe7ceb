-- ===== src/Mcp/Lookup.antt =====
-- `node_detail` of src/solfleet/mcp_server.py: it finds the probe of the node that `find_node` finds.
use mathlib.Core.Option.{some-injective}
use solfleet.Prelude.{
  ℕ, ◌≡◌, refl, sym, ap, ◌∙◌, inl, inr, List, [], ◌∷◌, map, String, Option, none, some, ◌==◌,
  if◌then◌else◌, Bool-cases, Option-cases, arith, eq_self,
}
use solfleet.Prelude.Dict.{Dict, lookup}
use solfleet.Config.{Node, Cluster, Fleet}
use solfleet.Config.Find.{Found, find_in, find_in_clusters, find_node}
use solfleet.Probe.{NodeStatus}
use solfleet.Probe.Run.{
  Answer, result, rpc_error, http_error, Rpc, VoteEntry, with_votes, with_version, with_health,
  probe_url, probe_node,
}
use solfleet.Probe.Clusters.{probe_reference, probe_cluster, probe_fleet}
use solfleet.Operations.{unknown_node}
use solfleet.Cli.Operate.{known_nodes}
use solfleet.Cli.Attention.{probed}
use solfleet.Mcp.{
  Detail, unknown, detail, ReferenceData, reference_data, find_status, find_detail, node_detail,
}

-- A probe keeps the name of the node.
name-with_votes :
    (status : NodeStatus) (identity : Option String) (votes : Option (Dict VoteEntry))
    → (with_votes status identity votes).name ≡ status.name
name-with_votes status none votes = refl
name-with_votes status (some i) none = refl
name-with_votes status (some i) (some votes) = elim (Bool-cases (i == "")) [
  | inl empty ↦ rw empty refl
  | inr named ↦ elim (Option-cases (lookup i votes)) [
    | inl absent ↦ rw (named, absent) refl
    | inr (entry, e) ↦ rw (named, e) refl
  ]
]

name-with_version :
    (reference : Option ℕ) (status : NodeStatus) (version : Answer (Option String))
    (slot : Answer (Option ℕ))
    → (with_version reference status version slot).name ≡ status.name
name-with_version reference status (result v) (result s) = refl
name-with_version reference status (result v) (rpc_error e) = refl
name-with_version reference status (result v) (http_error e) = refl
name-with_version reference status (rpc_error e) slot = refl
name-with_version reference status (http_error e) slot = refl

name-with_health :
    (rpc : Rpc) (reference : Option ℕ) (status : NodeStatus) (url : String)
    (health : Answer (Option String))
    → (with_health rpc reference status url health).name ≡ status.name
name-with_health rpc reference status url (http_error e) = refl
name-with_health rpc reference status url (rpc_error e) =
    name-with_version reference _ (rpc.version url) (rpc.slot url)
name-with_health rpc reference status url (result h) =
    name-with_version reference _ (rpc.version url) (rpc.slot url)

name-probe_url :
    (rpc : Rpc) (reference : Option ℕ) (status : NodeStatus) (url : Option String)
    → (probe_url rpc reference status url).name ≡ status.name
name-probe_url rpc reference status none = refl
name-probe_url rpc reference status (some url) = elim (Bool-cases (url == "")) [
  | inl empty ↦ rw empty refl
  | inr named ↦ rw named (name-with_health rpc reference status url (rpc.health url))
]

name-probe_node :
    (rpc : Rpc) (cluster_name : String) (reference : Option ℕ) (votes : Option (Dict VoteEntry))
    (node : Node)
    → (probe_node rpc cluster_name reference votes node).name ≡ node.name
unfolding probe_node
name-probe_node rpc cluster_name reference votes node =
    name-probe_url rpc reference _ node.rpc_url ∙ name-with_votes _ node.identity votes

module _ (rpc : Rpc) (name : String) where
  name-probed : (c : String × Cluster) (node : Node) → (probed rpc c node).name ≡ node.name
  name-probed (k, cluster) node =
      let r = probe_reference rpc cluster in name-probe_node rpc k r.slot r.votes node

  find_status-absent :
      (c : String × Cluster) (nodes : List Node) (about : ReferenceData) (rest : Detail)
      → find_in name nodes ≡ none
      → find_status name about (map (probed rpc c) nodes) rest ≡ rest
  find_status-absent c [] about rest h = refl
  find_status-absent c (node ∷ nodes) about rest h = elim (Bool-cases (node.name == name)) [
    | inl e ↦ ground (arith, h, e)
    | inr e ↦
        rw (name-probed c node, e) (find_status-absent c nodes about rest (ground (arith, h, e)))
  ]

  find_status-found :
      (c : String × Cluster) (nodes : List Node) (about : ReferenceData) (rest : Detail)
      (node : Node)
      → find_in name nodes ≡ some node
      → find_status name about (map (probed rpc c) nodes) rest ≡ detail (probed rpc c node) about
  find_status-found c [] about rest node h = cc
  find_status-found c (n ∷ nodes) about rest node h = elim (Bool-cases (n.name == name)) [
    | inl e ↦
        let named = ap (λ s. s == name) (name-probed c n) ∙ e in
        let first = ap (λ b. if b then some n else find_in name nodes) e in
        rw named (ap (λ m. detail (probed rpc c m) about) (some-injective _ _ (sym first ∙ h)))
    | inr e ↦
        rw (name-probed c n, e) (find_status-found c nodes about rest node (ground (arith, h, e)))
  ]

  -- The detail of a node that was found.
  abbrev pub detail_of : Found → Detail
  detail_of (cluster_name, cluster, node) =
      detail (probed rpc (cluster_name, cluster) node)
        (reference_data (probe_cluster rpc (cluster_name, cluster)))

  find_detail-found :
      (clusters : Dict Cluster) (found : Found)
      → find_in_clusters name clusters ≡ some found
      → find_detail name found.0 (map (probe_cluster rpc) clusters) ≡ detail_of found
  unfolding probe_cluster
  find_detail-found [] found h = cc
  find_detail-found ((k, c) ∷ clusters) found h =
      let step = λ (o : Option Node). elim o as (λ _. Option Found) [
        | none ↦ find_in_clusters name clusters
        | some n ↦ some (k, c, n)
      ] in
      elim (Option-cases (find_in name c.nodes)) [
        | inl absent ↦
            let rest = find_detail-found clusters found (sym (ap step absent) ∙ h) in
            elim (Bool-cases (k == found.0)) [
              | inl e ↦ rw (e) (find_status-absent (k, c) c.nodes _ _ absent ∙ rest)
              | inr e ↦ rw (e) rest
            ]
        | inr (n, e) ↦
            let same = some-injective _ _ (sym (ap step e) ∙ h) in
            let named = ap (λ (f : Found). k == f.0) (sym same) ∙ eq_self k in
            rw named (find_status-found (k, c) c.nodes _ _ n e ∙ ap detail_of same)
      ]

-- The tool node_detail answers every name: an unknown one with the known names, and a known one with the
-- probe and the reference data of the node that find_node finds, so never that there is no result.
pub node_detail_exact :
    (rpc : Rpc) (fleet : Fleet) (name : String)
    → node_detail rpc fleet name ≡ elim (find_node fleet name) [
      | none ↦ unknown (unknown_node name) (known_nodes fleet)
      | some found ↦ detail_of rpc name found
    ]
unfolding node_detail probe_fleet
node_detail_exact rpc fleet name = elim (Option-cases (find_node fleet name)) [
  | inl absent ↦ rw absent refl
  | inr (found, e) ↦ rw e (find_detail-found rpc name fleet.clusters found (unfold find_node in e))
]
