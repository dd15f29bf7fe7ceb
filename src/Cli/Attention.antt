-- ===== src/Cli/Attention.antt =====
-- The exit code of `cmd_status` of src/solfleet/cli.py, against what the nodes answer.
use solfleet.Prelude.{
  ℕ, if◌then◌else◌, ap, ◌∙◌, String-discrete, Bool, true, ◌||◌, not, ◌≡◌, refl, List, [], ◌∷◌, map,
  String, Option, none, some, ◌==◌, any, arith, inl, inr, Bool-cases,
}
use solfleet.Prelude.Dict.{Dict}
use solfleet.Config.{Node, Cluster, Fleet}
use solfleet.Probe.{NodeStatus}
use solfleet.Probe.Run.{
  Answer, result, rpc_error, http_error, Rpc, VoteEntry, with_version, with_health, probe_url,
  probe_node,
}
use solfleet.Probe.Clusters.{probe_reference, probe_cluster, probe_fleet}
use solfleet.Probe.Facts.{is_up, unhealthy-probe_node}
use solfleet.Watch as Watch
use solfleet.Cli.Table.{text_truthy}
use solfleet.Cli.Fleet.{needs_attention, unhealthy, cmd_status, is_true}

-- A node that was not reached has an error to show.
abbrev IsExplained : NodeStatus → Type 0
IsExplained n = (n.reachable || text_truthy n.error) ≡ true

with_version-IsExplained :
    (reference : Option ℕ) (status : NodeStatus) (version : Answer (Option String))
    (slot : Answer (Option ℕ))
    → status.reachable ≡ true
    → IsExplained (with_version reference status version slot)
with_version-IsExplained reference status (result v) (result n) h = rw h refl
with_version-IsExplained reference status (result v) (rpc_error e) h = rw h refl
with_version-IsExplained reference status (result v) (http_error e) h = rw h refl
with_version-IsExplained reference status (rpc_error e) slot h = rw h refl
with_version-IsExplained reference status (http_error e) slot h = rw h refl

module _ (rpc : Rpc) (reference : Option ℕ) (status : NodeStatus) where
  with_health-IsExplained :
      (url : String) (health : Answer (Option String))
      → IsExplained (with_health rpc reference status url health)
  unfolding String-discrete
  with_health-IsExplained url (http_error e) = ground arith
  with_health-IsExplained url (rpc_error e) =
      with_version-IsExplained reference _ (rpc.version url) (rpc.slot url) refl
  with_health-IsExplained url (result health) =
      with_version-IsExplained reference _ (rpc.version url) (rpc.slot url) refl

  probe_url-IsExplained : (url : Option String) → IsExplained (probe_url rpc reference status url)
  unfolding String-discrete
  probe_url-IsExplained none = ground arith
  probe_url-IsExplained (some url) = elim (Bool-cases (url == "")) [
    | inl empty ↦ rw empty (ground arith)
    | inr named ↦ rw named (with_health-IsExplained url (rpc.health url))
  ]

-- The node counts as delinquent.
abbrev pub counts_delinquent : NodeStatus → Bool
counts_delinquent n = is_true n.delinquent

needs_attention-IsExplained :
    (n : NodeStatus)
    → IsExplained n
    → needs_attention n ≡ (Watch.unhealthy (some n) || counts_delinquent n)
needs_attention-IsExplained n h = ground (arith, h)

needs_attention-probe_node :
    (rpc : Rpc) (cluster_name : String) (reference : Option ℕ) (votes : Option (Dict VoteEntry))
    (node : Node)
    → needs_attention (probe_node rpc cluster_name reference votes node) ≡ (
        not (is_up rpc node.rpc_url)
        || counts_delinquent (probe_node rpc cluster_name reference votes node))
unfolding probe_node
needs_attention-probe_node rpc cluster_name reference votes node =
    needs_attention-IsExplained (probe_node rpc cluster_name reference votes node)
      (probe_url-IsExplained rpc reference _ node.rpc_url)
    ∙ ap (λ b. b || counts_delinquent (probe_node rpc cluster_name reference votes node))
        (unhealthy-probe_node rpc cluster_name reference votes node)

-- The status of a node of a cluster, as the fleet is probed.
abbrev pub probed : Rpc → String × Cluster → Node → NodeStatus
probed rpc (name, cluster) node =
    let r = probe_reference rpc cluster in probe_node rpc name r.slot r.votes node

-- The node has no RPC address, does not answer getHealth with ok there, or is reported as delinquent.
abbrev pub is_down : Rpc → String × Cluster → Node → Bool
is_down rpc c node = not (is_up rpc node.rpc_url) || counts_delinquent (probed rpc c node)

any-map-probed :
    (rpc : Rpc) (c : String × Cluster) (nodes : List Node)
    → any (map (probed rpc c) nodes) needs_attention ≡ any nodes (is_down rpc c)
any-map-probed rpc c [] = refl
any-map-probed rpc (name, cluster) (node ∷ nodes) =
    let r = probe_reference rpc cluster in
    rw
      (
        needs_attention-probe_node rpc name r.slot r.votes node,
        any-map-probed rpc (name, cluster) nodes,
      )
      refl

unhealthy-probed :
    (rpc : Rpc) (clusters : Dict Cluster)
    → any (map (probe_cluster rpc) clusters) (λ c. any c.nodes needs_attention)
      ≡ any clusters (λ c. any c.1.nodes (is_down rpc c))
unfolding probe_cluster
unhealthy-probed rpc [] = refl
unhealthy-probed rpc ((name, cluster) ∷ clusters) =
    rw (any-map-probed rpc (name, cluster) cluster.nodes, unhealthy-probed rpc clusters) refl

-- The command status ends with exit code 1 exactly if some node of the fleet has no RPC address, does not
-- answer getHealth with ok there, or is probed as delinquent, and with 0 otherwise, as JSON or as a table.
pub cmd_status-code :
    (rpc : Rpc) (fleet : Fleet) (as_json : Bool)
    → (cmd_status rpc fleet as_json).code
      ≡ (if any fleet.clusters (λ c. any c.1.nodes (is_down rpc c)) then 1 else 0)
unfolding cmd_status unhealthy probe_fleet
cmd_status-code rpc fleet as_json = rw (unhealthy-probed rpc fleet.clusters) refl
