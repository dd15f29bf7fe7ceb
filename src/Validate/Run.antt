-- ===== src/Validate/Run.antt =====
-- `validate_fleet` of src/solfleet/validate.py.
use solfleet.Prelude.{Bool, not, List, [], ◌∷◌, ◌++◌, String, Option, none, some, map, any}
use solfleet.Prelude.Dict.{Dict, lookup, insert_all}
use solfleet.Safety.{PolicyRules, Policy, for_cluster}
use solfleet.Config.{Node, Cluster, BuilderHost, Fleet, Role}
use solfleet.Probe.{NodeStatus, ClusterStatus}
use solfleet.Executor.{Env, Effect, probed_fleet, after, Action, ◌>>=◌, pure, builder_target, run}
use solfleet.Executor.Inspect.{inspect_node}
use solfleet.Validate.{
  Status, is_fail, Check, node_checks, specs_command, builder_specs, builder_checks, dns_checks,
  worst,
}

pub record NodeReport : Type 0 where
  pub name : String
  pub cluster : String
  pub role : Role
  pub status : Status
  pub checks : List Check

pub record BuilderReport : Type 0 where
  pub name : String
  pub status : Status
  pub checks : List Check

pub record DnsReport : Type 0 where
  pub status : Status
  pub checks : List Check

pub record FleetReport : Type 0 where
  pub ok : Bool
  pub nodes : List NodeReport
  pub builders : List BuilderReport
  pub dns : Option DnsReport

abbrev named : List NodeStatus → List (String × NodeStatus)
named [] = []
named (n ∷ ns) = (n.name, n) ∷ named ns

abbrev all_named : List ClusterStatus → List (String × NodeStatus)
all_named [] = []
all_named (c ∷ cs) = named c.nodes ++ all_named cs

-- `{n.name: n for c in clusters for n in c.nodes}`
unfoldable pub status_by_name : List ClusterStatus → Dict NodeStatus
unfolding insert_all
status_by_name clusters = insert_all [] (all_named clusters)

abbrev pub dns_report : List Check → Option DnsReport
dns_report [] = none
dns_report (c ∷ cs) = some (record { status = worst (c ∷ cs); checks = c ∷ cs })

abbrev pub dns_statuses : Option DnsReport → List Status
dns_statuses none = []
dns_statuses (some d) = d.status ∷ []

abbrev pub all_statuses : List NodeReport → List BuilderReport → Option DnsReport → List Status
all_statuses nodes builders dns =
    map (λ n. n.status) nodes ++ (map (λ b. b.status) builders ++ dns_statuses dns)

module _ (env : Env) where
  module _ (rules : PolicyRules) (statuses : Dict NodeStatus) (cluster_name : String) where
    abbrev node_report : Node → List Check → NodeReport
    node_report node checks = record {
      name = node.name;
      cluster = cluster_name;
      role = node.role;
      status = worst checks;
      checks = checks;
    }

    -- The inner loop.
    unfoldable pub validate_nodes : List Node → Action (List NodeReport)
    unfolding inspect_node node_checks lookup worst
    validate_nodes [] = pure []
    validate_nodes (node ∷ nodes) = do
      insp ← inspect_node env node
      rest ← validate_nodes nodes
      pure (node_report node (node_checks node (lookup node.name statuses) rules insp) ∷ rest)

  module _ (policy : Policy) (statuses : Dict NodeStatus) where
    unfoldable pub validate_clusters : Dict Cluster → Action (List NodeReport)
    unfolding for_cluster validate_nodes
    validate_clusters [] = pure []
    validate_clusters ((cluster_name, cluster) ∷ clusters) = do
      nodes ← validate_nodes (for_cluster policy cluster_name) statuses cluster_name cluster.nodes
      rest ← validate_clusters clusters
      pure (nodes ++ rest)

  abbrev builder_report : String → List Check → BuilderReport
  builder_report name checks = record { name = name; status = worst checks; checks = checks }

  unfoldable pub validate_builders : Dict BuilderHost → Action (List BuilderReport)
  unfolding run builder_specs builder_checks worst
  validate_builders [] = pure []
  validate_builders ((name, builder) ∷ builders) = do
    r ← run env (builder_target builder) specs_command
    rest ← validate_builders builders
    pure (builder_report name (builder_checks (builder_specs r)) ∷ rest)

  abbrev fleet_report : List NodeReport → List BuilderReport → Option DnsReport → FleetReport
  fleet_report nodes builders dns = record {
    ok = not (any (all_statuses nodes builders dns) is_fail);
    nodes = nodes;
    builders = builders;
    dns = dns;
  }

  -- `await prober(fleet)`: the prober answers from all that happened before.
  unfoldable pub probe_with : (List Effect → List ClusterStatus) → Action (List ClusterStatus)
  probe_with prober w = (prober w.effects, after w probed_fleet)

  unfoldable pub validate_fleet :
      Fleet
      → Policy
      → (List Effect → List ClusterStatus)
      → (String → Option String)
      → Action FleetReport
  unfolding probe_with status_by_name validate_clusters validate_builders dns_checks worst
  validate_fleet fleet policy prober environ = do
    clusters ← probe_with prober
    nodes ← validate_clusters policy (status_by_name clusters) fleet.clusters
    builders ← validate_builders fleet.builders
    pure (fleet_report nodes builders (dns_report (dns_checks environ fleet.dns)))
