-- ===== src/Validate/Reads.antt =====
-- What `validate_fleet` of src/solfleet/validate.py runs.
use mathlib.Core.List.{Mem, mem-cons_self, mem-cons_of_mem}
use solfleet.Prelude.{List, [], ◌∷◌, String, Option}
use solfleet.Prelude.Dict.{Dict}
use solfleet.Safety.{PolicyRules, Policy, for_cluster}
use solfleet.Config.{Node, Cluster, BuilderHost, Fleet}
use solfleet.Probe.{NodeStatus, ClusterStatus}
use solfleet.Executor.{Env, World, Effect, ran, probed_fleet, builder_target, ssh_argv}
use solfleet.Executor.Frames.{adds, Adds, Keeps, chain, run-Keeps}
use solfleet.Operations.Restart.Planned.{inspection_effects}
use solfleet.Operations.Upgrade.Kept.{inspect_node-Keeps}
use solfleet.Operations.Upgrade.Staged.{All-sub}
use solfleet.Validate.{specs_command}
use solfleet.Validate.Run.{
  probe_with, validate_nodes, validate_clusters, validate_builders, validate_fleet, status_by_name,
}

-- The probe of the fleet, a command of the inspection of a node of the fleet, or the question for the specs of one of its builders.
pub data Reading (fleet : Fleet) : Effect → Type 0 where
  probes : Reading fleet probed_fleet
  inspects :
      (cluster_name : String) (cluster : Cluster) (node : Node) (e : Effect)
      → Mem (cluster_name, cluster) fleet.clusters
      → Mem node cluster.nodes
      → Mem e (inspection_effects node)
      → Reading fleet e
  asks :
      (name : String) (builder : BuilderHost)
      → Mem (name, builder) fleet.builders
      → Reading fleet (ran (ssh_argv (builder_target builder) specs_command))

module _ (env : Env) (fleet : Fleet) where
  module _ (cluster_name : String) (cluster : Cluster)
      (is_cluster : Mem (cluster_name, cluster) fleet.clusters) (rules : PolicyRules)
      (statuses : Dict NodeStatus) where
    validate_nodes-Keeps :
        (nodes : List Node)
        → ((n : Node) → Mem n nodes → Mem n cluster.nodes)
        → Keeps (adds (Reading fleet)) (validate_nodes env rules statuses cluster_name nodes)
    unfolding validate_nodes
    validate_nodes-Keeps [] sub w = (adds (Reading fleet)).kept_refl w
    validate_nodes-Keeps (node ∷ nodes) sub w =
        chain (adds (Reading fleet))
          (inspect_node-Keeps (adds (Reading fleet)) env node
            (All-sub _ (inspection_effects node)
              (λ e m. inspects cluster_name cluster node e is_cluster (sub node mem-cons_self) m))
            w)
          (validate_nodes-Keeps nodes (λ n m. sub n (mem-cons_of_mem node m)) _)

  validate_clusters-Keeps :
      (policy : Policy) (statuses : Dict NodeStatus) (clusters : Dict Cluster)
      → ((c : String × Cluster) → Mem c clusters → Mem c fleet.clusters)
      → Keeps (adds (Reading fleet)) (validate_clusters env policy statuses clusters)
  unfolding validate_clusters
  validate_clusters-Keeps policy statuses [] sub w = (adds (Reading fleet)).kept_refl w
  validate_clusters-Keeps policy statuses ((cluster_name, cluster) ∷ clusters) sub w =
      chain (adds (Reading fleet))
        (validate_nodes-Keeps cluster_name cluster (sub (cluster_name, cluster) mem-cons_self)
          (for_cluster policy cluster_name) statuses cluster.nodes (λ n m. m) w)
        (validate_clusters-Keeps policy statuses clusters
          (λ c m. sub c (mem-cons_of_mem (cluster_name, cluster) m)) _)

  validate_builders-Keeps :
      (builders : Dict BuilderHost)
      → ((b : String × BuilderHost) → Mem b builders → Mem b fleet.builders)
      → Keeps (adds (Reading fleet)) (validate_builders env builders)
  unfolding validate_builders
  validate_builders-Keeps [] sub w = (adds (Reading fleet)).kept_refl w
  validate_builders-Keeps ((name, builder) ∷ builders) sub w =
      chain (adds (Reading fleet))
        (run-Keeps (adds (Reading fleet)) env (builder_target builder) specs_command
          (asks name builder (sub (name, builder) mem-cons_self)) w)
        (validate_builders-Keeps builders (λ b m. sub b (mem-cons_of_mem (name, builder) m)) _)

  -- A validation does nothing outside but the probe of the fleet, the commands of the inspection of its
  -- nodes, and the question for the specs on its builders.
  pub validate_fleet_reads :
      (policy : Policy) (prober : List Effect → List ClusterStatus)
      (environ : String → Option String) (w : World)
      → Adds (Reading fleet) w (validate_fleet env fleet policy prober environ w).1
  unfolding validate_fleet probe_with
  validate_fleet_reads policy prober environ w =
      chain (adds (Reading fleet)) ((adds (Reading fleet)).kept_after w probed_fleet probes) (
        chain (adds (Reading fleet))
          (validate_clusters-Keeps policy (status_by_name (prober w.effects)) fleet.clusters
            (λ c m. m) _)
          (validate_builders-Keeps fleet.builders (λ b m. m) _))
