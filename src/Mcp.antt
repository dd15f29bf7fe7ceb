-- ===== src/Mcp.antt =====
-- src/solfleet/mcp_server.py: the tools. The fleet and the policy are those that the files hold, and the
-- world's audit log is the one that is opened. Serving the tools is the library of the protocol.
pub mod Lookup
pub mod Tools
use solfleet.Prelude.{
  ℕ, Bool, false, ◌&&◌, not, List, [], ◌∷◌, map, String, Option, none, some, any, ◌==◌,
  if◌then◌else◌,
}
use solfleet.Prelude.Text.{Text, str, repr}
use solfleet.Config.{Cluster, Fleet, rpc, validator}
use solfleet.Config.Find.{Found, find_node}
use solfleet.Schedule.{LeaderReport}
use solfleet.Probe.{NodeStatus, ClusterStatus}
use solfleet.Probe.Run.{Rpc, Answer, result, rpc_error, http_error}
use solfleet.Probe.Clusters.{probe_fleet}
use solfleet.Voting as Voting
use solfleet.Operations.{Reply, refused, reply, unknown_node}
use solfleet.Operations.Override as Override
use solfleet.Cli.Operate.{known_nodes}

-- The dict of `node_detail`: an unknown name with the known ones, the result of the probe with the
-- cluster's reference, or the error that there is no result.
pub record ReferenceData : Type 0 where
  pub name : String
  pub reference_slot : Option ℕ
  pub reference_version : Option String
  pub reference_error : Option Text

pub data Detail : Type 0 where
  unknown : Text → List String → Detail
  detail : NodeStatus → ReferenceData → Detail
  no_result : Text → Detail

abbrev pub reference_data : ClusterStatus → ReferenceData
reference_data c = record {
  name = c.name;
  reference_slot = c.reference_slot;
  reference_version = c.reference_version;
  reference_error = c.reference_error;
}

-- The inner loop, with what follows it.
abbrev pub find_status : String → ReferenceData → List NodeStatus → Detail → Detail
find_status name data_of [] rest = rest
find_status name data_of (n ∷ nodes) rest =
    let later = find_status name data_of nodes rest in
    if n.name == name then detail n data_of else later

abbrev pub find_detail : String → String → List ClusterStatus → Detail
find_detail name cluster_name [] =
    no_result (str "probe returned no result for " ∷ repr (some name) ∷ [])
find_detail name cluster_name (c ∷ clusters) =
    let rest = find_detail name cluster_name clusters in
    if c.name == cluster_name then find_status name (reference_data c) c.nodes rest else rest

-- A node of the report of `version_drift`.
pub record NodeVersion : Type 0 where
  pub name : String
  pub version : Option String
  pub matches_reference : Option Bool

pub record ClusterDrift : Type 0 where
  pub cluster : String
  pub reference_version : Option String
  pub nodes : List NodeVersion
  pub drift : Bool

abbrev pub matches : Option String → Option String → Option Bool
matches (some reference) (some version) = some (version == reference)
matches _ _ = none

abbrev is_false : Option Bool → Bool
is_false none = false
is_false (some b) = not b

abbrev pub node_version : Option String → NodeStatus → NodeVersion
node_version reference n = record {
  name = n.name;
  version = n.version;
  matches_reference = matches reference n.version;
}

abbrev pub cluster_drift : ClusterStatus → ClusterDrift
cluster_drift c =
    let nodes = map (node_version c.reference_version) c.nodes in
    record {
      cluster = c.name;
      reference_version = c.reference_version;
      nodes = nodes;
      drift = any nodes (λ n. is_false n.matches_reference);
    }

module _ (rpc_calls : Rpc) (fleet : Fleet) where
  unfoldable pub fleet_status : List ClusterStatus
  unfolding probe_fleet
  fleet_status = probe_fleet rpc_calls fleet

  abbrev detail_from : String → Option Found → Detail
  detail_from name none = unknown (unknown_node name) (known_nodes fleet)
  detail_from name (some (cluster_name, _, _)) =
      find_detail name cluster_name (probe_fleet rpc_calls fleet)

  unfoldable pub node_detail : String → Detail
  unfolding find_node probe_fleet
  node_detail name = detail_from name (find_node fleet name)

  unfoldable pub version_drift : List ClusterDrift
  unfolding probe_fleet
  version_drift = map cluster_drift (probe_fleet rpc_calls fleet)

-- The answer of `leader_windows` for an endpoint, an identity and a number of minutes; what it raises is
-- its text.
module _ (leader : String → String → ℕ → Answer LeaderReport) (fleet : Fleet) where
  abbrev unavailable : String → Reply LeaderReport
  unavailable e = refused (str "leader schedule unavailable: " ∷ str e ∷ [])

  abbrev answered : Answer LeaderReport → Reply LeaderReport
  answered (result report) = reply report
  answered (rpc_error e) = unavailable e
  answered (http_error e) = unavailable e

  abbrev not_voting : String → Reply LeaderReport
  not_voting name = refused (str name ∷ str " is not a voting validator" ∷ [])

  abbrev leader_of : String → ℕ → Cluster → Option String → Reply LeaderReport
  leader_of name minutes cluster none = not_voting name
  leader_of name minutes cluster (some identity) =
      if identity == ""
      then not_voting name
      else answered (leader cluster.reference_rpc identity minutes)

  abbrev schedule_from : String → ℕ → Option Found → Reply LeaderReport
  schedule_from name minutes none = refused (unknown_node name)
  schedule_from name minutes (some (_, cluster, node)) = elim node.role [
    | rpc ↦ not_voting name
    | validator ↦ leader_of name minutes cluster node.identity
  ]

  unfoldable pub leader_schedule : String → ℕ → Reply LeaderReport
  unfolding find_node
  leader_schedule name minutes = schedule_from name minutes (find_node fleet name)
