-- ===== src/Operations/Restart/Recorded.antt =====
-- What `restart_node` of src/solfleet/operations.py writes to the audit log.
use solfleet.Prelude.{
  ℕ, zero, suc, Bool, true, ◌&&◌, List, [], ◌∷◌, String, Option, none, leb, ◌≡◌, refl, arith, inl,
  inr, Bool-cases, all, ap, ◌∙◌, sym,
}
use solfleet.Safety.{PolicyRules, execute, GateDecision, gate}
use solfleet.Safety.Gate.{passed, gate-allowed}
use solfleet.Schedule.{LeaderReport}
use solfleet.Audit.{Entry, audit_with}
use solfleet.Config.{Node, Cluster, Role, rpc, validator}
use solfleet.Executor.{Env, Sample, World, Effect}
use solfleet.Executor.Inspect.{Inspection, inspect_node}
use solfleet.Operations.Catchup.{take_sample, catchup_loop, is_caught_up, wait_for_catchup}
use solfleet.Operations.Restart.{
  Outcome, planned, executed, restart_plan, restart_checks, planned_json, restarted_json,
  restart_entry,
}
use solfleet.Operations.Restart.Run.{
  cycle_service, leader_info, execute_restart, finish_restart, restart_found,
}
use solfleet.Operations.Restart.Planned.{
  after_all, inspection_effects, leader_effects, inspect_node-effects, leader_info-effects,
}

audit-after_all : (w : World) (es : List Effect) → (after_all w es).audit ≡ w.audit
audit-after_all w [] = refl
audit-after_all w (e ∷ es) = audit-after_all _ es

module _ (env : Env) (node reference_rpc : String) (max_lag timeout_s interval_s : ℕ) where
  audit-catchup_loop :
      (fuel waited : ℕ) (last : Option Sample) (w : World)
      → (catchup_loop env node reference_rpc max_lag timeout_s interval_s fuel waited last
          w).1.audit
        ≡ w.audit
  unfolding catchup_loop
  audit-catchup_loop zero waited last w = refl
  audit-catchup_loop (suc fuel) waited last w = elim (Bool-cases (leb waited timeout_s)) [
    | inr out ↦ rw (out, catchup_loop) refl
    | inl more ↦ elim (Bool-cases (is_caught_up max_lag (take_sample env node reference_rpc w).0)) [
      | inl there ↦ rw (more, catchup_loop, there, catchup_loop) refl
      | inr behind ↦ rw (more, catchup_loop, behind, catchup_loop) (audit-catchup_loop fuel _ _ _)
    ]
  ]

audit-cycle_service :
    (env : Env) (rules : PolicyRules) (max_lag : ℕ) (node : Node) (role : Role) (w : World)
    → (cycle_service env rules max_lag (record node { role = role }) w).1.audit ≡ w.audit
unfolding cycle_service
audit-cycle_service env rules max_lag node rpc w = refl
audit-cycle_service env rules max_lag node validator w = refl

-- One entry was added to the audit, which names the operation, the cluster and the node, and says whether
-- the preflight checks passed.
abbrev pub Recorded : World → World → String → String → Bool → Type 0
Recorded w w' cluster_name node_name allowed =
    (e : Entry) × (w'.audit ≡ audit_with w.audit e)
    × (e.operation ≡ "restart_node")
    × (e.cluster ≡ cluster_name)
    × (e.node ≡ node_name)
    × (e.allowed ≡ allowed)

-- The entry of a restart that was executed.
abbrev executed_entry : PolicyRules → Node → String → String → Outcome → Entry
executed_entry rules node cluster_name node_name (executed r) =
    restart_entry cluster_name node_name execute true (restarted_json rules node r)
executed_entry rules node cluster_name node_name (planned decision before leader) =
    restart_entry cluster_name node_name decision.mode decision.allowed
      (planned_json decision before leader)

audit-inspect_node :
    (env : Env) (node : Node) (w : World) → (inspect_node env node w).1.audit ≡ w.audit
audit-inspect_node env node w =
    ap (λ v. v.audit) (inspect_node-effects env node w)
    ∙ audit-after_all w (inspection_effects node)

&&-true : (a b : Bool) → (a && b) ≡ true → (a ≡ true) × (b ≡ true)
&&-true a b h = ground arith

module _ (env : Env) (rules : PolicyRules) (max_lag : ℕ) (node_name cluster_name : String)
    (cluster : Cluster) (node : Node) where
  audit-leader_info :
      (w : World) → (leader_info env rules max_lag node cluster.reference_rpc w).1.audit ≡ w.audit
  audit-leader_info w =
      ap (λ v. v.audit) (leader_info-effects env rules max_lag node cluster.reference_rpc w)
      ∙ audit-after_all w (leader_effects rules cluster.reference_rpc node)

  execute_restart-Recorded :
      (decision : GateDecision) (leader : Option LeaderReport) (w : World) (allowed : Bool)
      → allowed ≡ true
      → Recorded w
          (execute_restart env rules max_lag decision leader node_name cluster_name cluster node
            w).1
          cluster_name
          node_name
          allowed
  unfolding execute_restart
  execute_restart-Recorded decision leader w allowed h =
      let w1 = (take_sample env node.name cluster.reference_rpc w).1 in
      let w2 = (cycle_service env rules max_lag node w1).1 in
      let w3 = (wait_for_catchup env node.name cluster.reference_rpc max_lag 600 5 w2).1 in
      let e =
        executed_entry rules node cluster_name node_name
          (execute_restart env rules max_lag decision leader node_name cluster_name cluster node
            w).0 in
      (
        e,
        ap (λ a. audit_with a e)
            (audit-inspect_node env node w3
              ∙ audit-catchup_loop env node.name cluster.reference_rpc max_lag 600 5 601 0 none w2
              ∙ audit-cycle_service env rules max_lag node node.role w1),
        refl,
        refl,
        refl,
        sym h,
      )

  finish_restart-Recorded :
      (confirm : Bool) (decision : GateDecision) (before : Inspection)
      (leader : Option LeaderReport) (w : World)
      → Recorded w
          (finish_restart env rules max_lag confirm decision before leader node_name cluster_name
            cluster node w).1
          cluster_name
          node_name
          decision.allowed
  unfolding finish_restart
  finish_restart-Recorded confirm decision before leader w =
      elim (Bool-cases (confirm && decision.allowed)) [
        | inl go ↦
            let (_, allowed) = &&-true confirm decision.allowed go in
            rw go (execute_restart-Recorded decision leader w decision.allowed allowed)
        | inr stay ↦ rw stay (_, refl, refl, refl, refl, refl)
      ]

  -- A restart of a known node adds one entry to the audit log if there is one, executed or not, which
  -- names the operation, the cluster and the node and says whether every preflight check passed.
  pub restart_found-Recorded :
      (confirm : Bool) (w : World)
      → Recorded w
          (restart_found env rules max_lag confirm node_name cluster_name cluster node w).1
          cluster_name
          node_name
          (all (restart_checks rules (inspect_node env node w).0) passed)
  unfolding restart_found
  restart_found-Recorded confirm w =
      let before = (inspect_node env node w).0 in
      let v =
        (leader_info env rules max_lag node cluster.reference_rpc (inspect_node env node w).1) in
      let (e, logged, operation, in_cluster, on_node, allowed) =
        finish_restart-Recorded confirm
          (gate "restart_node" cluster_name node_name confirm
            (restart_plan rules node cluster.reference_rpc max_lag) (restart_checks rules before))
          before v.0 v.1 in
      (
        e,
        logged ∙ ap (λ a. audit_with a e) (audit-leader_info _ ∙ audit-inspect_node env node w),
        operation,
        in_cluster,
        on_node,
        allowed
            ∙ gate-allowed "restart_node" cluster_name node_name
                (restart_plan rules node cluster.reference_rpc max_lag)
                (restart_checks rules before) confirm,
      )
