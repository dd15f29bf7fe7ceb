-- ===== src/Operations/Restart/Run.antt =====
-- The run of `restart_node` of src/solfleet/operations.py against the outside.
use solfleet.Prelude.{ℕ, Bool, true, ◌&&◌, String, Option, none, some, truthy, if◌then◌else◌}
use solfleet.Safety.{PolicyRules, Policy, for_cluster, execute, GateDecision, gate}
use solfleet.Schedule.{LeaderReport}
use solfleet.Config.{Node, Cluster, Fleet, rpc, validator}
use solfleet.Config.Find.{Found, find_node}
use solfleet.Executor.{Env, asked_leader, Action, ◌>>=◌, ◌>>◌, pure, after, record_audit}
use solfleet.Executor.Inspect.{Inspection, inspect_node}
use solfleet.Executor.Steps.{stop_service, start_service, validator_safe_exit}
use solfleet.Operations.{Reply, refused, reply, unknown_node}
use solfleet.Operations.Catchup.{take_sample, wait_for_catchup}
use solfleet.Operations.Restart.{
  restart_plan, restart_checks, Cycle, safe_exit, stop_start, cycle_ok, Restarted, Outcome, planned,
  executed, planned_json, restarted_json, restart_entry,
}

module _ (env : Env) (rules : PolicyRules) (max_lag : ℕ) where
  -- `_leader_info`: only a validator with an identity asks.
  abbrev ask_leader : Node → String → Option String → Action (Option LeaderReport)
  ask_leader node reference_rpc none w = (none, w)
  ask_leader node reference_rpc (some identity) w =
      let minutes = rules.require_leader_window_minutes in
      (
        env.leader w.effects reference_rpc identity minutes,
        after w (asked_leader reference_rpc identity minutes),
      )

  unfoldable pub leader_info : Node → String → Action (Option LeaderReport)
  leader_info node reference_rpc = elim node.role [
    | rpc ↦ pure none
    | validator ↦
        if truthy node.identity then ask_leader node reference_rpc node.identity else pure none
  ]

  unfoldable pub cycle_service : Node → Action Cycle
  unfolding stop_service start_service validator_safe_exit
  cycle_service node = elim node.role [
    | validator ↦ do
      step ← validator_safe_exit env node rules.require_leader_window_minutes
      pure (safe_exit step)
    | rpc ↦ do
      stop ← stop_service env node
      start ← start_service env node
      pure (stop_start stop start)
  ]

  -- The part behind the gate, with the preflight that was done.
  unfoldable pub execute_restart :
      GateDecision → Option LeaderReport → String → String → Cluster → Node → Action Outcome
  unfolding take_sample cycle_service wait_for_catchup inspect_node
  execute_restart decision leader node_name cluster_name cluster node = do
    before ← take_sample env node.name cluster.reference_rpc
    cycle ← cycle_service node
    catch ← wait_for_catchup env node.name cluster.reference_rpc max_lag 600 5
    after_cycle ← inspect_node env node
    let result : Restarted = record {
      decision = decision;
      before_slot = before.node_slot;
      cycle = cycle;
      catchup = catch;
      after = after_cycle;
      leader = leader;
      succeeded = cycle_ok cycle && catch.caught_up;
    }
    record_audit
        (restart_entry cluster_name node_name execute true (restarted_json rules node result))
    pure (executed result)

  -- A plan is recorded and returned.
  abbrev pub plan_only :
      GateDecision → Inspection → Option LeaderReport → String → String → Action Outcome
  plan_only decision before leader node_name cluster_name = do
    record_audit (
        restart_entry cluster_name node_name decision.mode decision.allowed
          (planned_json decision before leader))
    pure (planned decision before leader)

  -- What follows the gate: `if not confirm or not decision.allowed`, and the execution behind it.
  unfoldable pub finish_restart :
      Bool
      → GateDecision
      → Inspection
      → Option LeaderReport
      → String
      → String
      → Cluster
      → Node
      → Action Outcome
  unfolding execute_restart
  finish_restart confirm decision before leader node_name cluster_name cluster node =
      if confirm && decision.allowed
      then execute_restart decision leader node_name cluster_name cluster node
      else plan_only decision before leader node_name cluster_name

  -- The preflight and the gate.
  unfoldable pub restart_found : Bool → String → String → Cluster → Node → Action Outcome
  unfolding inspect_node leader_info gate restart_checks finish_restart
  restart_found confirm node_name cluster_name cluster node = do
    before ← inspect_node env node
    leader ← leader_info node cluster.reference_rpc
    let decision : GateDecision =
        gate "restart_node" cluster_name node_name confirm
          (restart_plan rules node cluster.reference_rpc max_lag) (restart_checks rules before)
    finish_restart confirm decision before leader node_name cluster_name cluster node

module _ (env : Env) (policy : Policy) (max_lag : ℕ) (confirm : Bool) (node_name : String) where
  abbrev restart_from : Option Found → Action (Reply Outcome)
  restart_from none = pure (refused (unknown_node node_name))
  restart_from (some (cluster_name, cluster, node)) = do
    outcome ←
        restart_found env (for_cluster policy cluster_name) max_lag confirm node_name cluster_name
          cluster node
    pure (reply outcome)

  unfoldable pub restart_node : Fleet → Action (Reply Outcome)
  unfolding find_node
  restart_node fleet = restart_from (find_node fleet node_name)
