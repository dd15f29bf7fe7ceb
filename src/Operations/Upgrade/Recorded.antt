-- ===== src/Operations/Upgrade/Recorded.antt =====
-- What `execute_upgrade` of src/solfleet/operations.py writes to the audit log.
use solfleet.Prelude.{
  ℕ, All, Bool, true, false, List, [], ◌∷◌, String, Option, none, some, Bool-cases, inl, inr, ◌==◌,
  ◌≡◌, refl, ◌∙◌, ap,
}
use solfleet.Safety.{PolicyRules, Policy, for_cluster, GateDecision}
use solfleet.Audit.{audit_with}
use solfleet.Config.{Node, Cluster, Role, rpc, validator, Fleet, InstallConfig, BuilderHost}
use solfleet.Config.Find.{Found}
use solfleet.Builder.{BuildResult}
use solfleet.Builder.Kept.{build_artifacts-Keeps}
use solfleet.Executor.{Env, World, builder_target}
use solfleet.Executor.Frames.{quiet, Keeps}
use solfleet.Executor.Inspect.{Inspection}
use solfleet.Executor.Steps.{Swap}
use solfleet.Operations.Catchup.Kept.{wait_for_catchup-Keeps}
use solfleet.Operations.Restart.Planned.{inspection_effects}
use solfleet.Operations.Upgrade.Distribute.{Placement, update_marker, update_marker_at}
use solfleet.Operations.Upgrade.Execute.{entry_of}
use solfleet.Operations.Upgrade.Kept.{inspect_node-Keeps, distribute-Keeps}
use solfleet.Operations.Upgrade.Run.{
  swap_and_mark, install_and_cycle, apply_upgrade, after_distribute, distribute_build, after_build,
  build_and_install, attempt, upgrade_found,
}

pub All-Unit : {A : Type 0} (xs : List A) → All {A = A} (λ x. Unit {0}) xs
All-Unit [] = tt
All-Unit (x ∷ xs) = (tt, All-Unit xs)

module _ (env : Env) where
  update_marker_at-quiet :
      (node : Node) (version : String) (marker : Option String)
      → Keeps quiet (update_marker_at env node version marker)
  unfolding solfleet.Executor.run
  update_marker_at-quiet node version none w = refl
  update_marker_at-quiet node version (some path) w = elim (Bool-cases (path == "")) [
    | inl empty ↦ rw empty refl
    | inr named ↦ rw named refl
  ]

module _ (env : Env) (rules : PolicyRules) (max_lag : ℕ) (node : Node)
    (target_version : String) where
  swap_and_mark-quiet :
      (swaps : List Swap) → Keeps quiet (swap_and_mark env rules max_lag node target_version swaps)
  unfolding swap_and_mark update_marker
  swap_and_mark-quiet swaps w =
      update_marker_at-quiet env node target_version node.service.version_marker _

role-install_and_cycle-quiet :
    (env : Env) (rules : PolicyRules) (max_lag : ℕ) (node : Node) (role : Role)
    (target_version : String) (swaps : List Swap)
    → Keeps quiet
        (install_and_cycle env rules max_lag (record node { role = role }) target_version swaps)
unfolding install_and_cycle
role-install_and_cycle-quiet env rules max_lag node rpc target_version swaps w =
    swap_and_mark-quiet env rules max_lag (record node { role = rpc }) target_version swaps _
role-install_and_cycle-quiet env rules max_lag node validator target_version swaps w =
    swap_and_mark-quiet env rules max_lag (record node { role = validator }) target_version swaps _

module _ (env : Env) (rules : PolicyRules) (max_lag : ℕ) (node : Node) (target_version : String)
    (decision : GateDecision) (cluster : Cluster) (staging : String) where
  apply_upgrade-quiet :
      (build : BuildResult) (placements : List Placement)
      → Keeps quiet
          (apply_upgrade env rules max_lag node target_version decision cluster build placements)
  unfolding apply_upgrade
  apply_upgrade-quiet build placements w =
      inspect_node-Keeps quiet env node (All-Unit (inspection_effects node)) _
      ∙ wait_for_catchup-Keeps quiet env node.name cluster.reference_rpc max_lag 600 5 tt tt _
      ∙ role-install_and_cycle-quiet env rules max_lag node node.role target_version _ w

  after_distribute-quiet :
      (build : BuildResult) (dist : Bool × List Placement)
      → Keeps quiet (
          after_distribute env rules max_lag node target_version decision cluster staging build
            dist)
  unfolding after_distribute
  after_distribute-quiet build (true, ps) w = apply_upgrade-quiet build ps w
  after_distribute-quiet build (false, ps) w = refl

  after_build-quiet :
      (builder : BuilderHost) (build : BuildResult)
      → Keeps quiet
          (after_build env rules max_lag node target_version decision cluster staging builder build)
  unfolding after_build distribute_build
  after_build-quiet builder build w = elim (Bool-cases build.ok) [
    | inl good ↦
        rw (good, after_build)
          (after_distribute-quiet build _ _
            ∙ distribute-Keeps quiet env (builder_target builder) node staging (λ a b. tt)
                (λ a b. tt) (λ p. tt) build.artifacts w)
    | inr bad ↦ rw (bad, after_build) refl
  ]

  attempt-quiet :
      (force : Bool) (before : Inspection) (install : Option InstallConfig)
      (builder : Option BuilderHost) (go : Bool)
      → Keeps quiet (
          attempt env rules max_lag node target_version decision cluster staging force before
            install builder go)
  unfolding attempt build_and_install
  attempt-quiet force before none builder go w = refl
  attempt-quiet force before (some install) none go w = refl
  attempt-quiet force before (some install) (some builder) false w = refl
  attempt-quiet force before (some install) (some builder) true w =
      after_build-quiet builder _ _
      ∙ build_artifacts-Keeps quiet env (builder_target builder) (λ cmd. tt) install target_version
          force w

module _ (env : Env) (fleet : Fleet) (policy : Policy) (max_lag : ℕ) (staging : String)
    (force confirm : Bool) (node_name target_version : String) where
  -- An upgrade of a known node, however it ends, adds one entry to the audit log if there is one, the
  -- entry of its outcome.
  upgrade_found-Recorded :
      (found : Found) (w : World)
      → (upgrade_found env fleet policy max_lag staging force confirm node_name target_version found
          w).1.audit
        ≡ audit_with w.audit (
            entry_of
              (for_cluster policy found.0)
              found.2
              staging
              found.0
              node_name
              (upgrade_found env fleet policy max_lag staging force confirm node_name target_version
                found w).0)
  unfolding upgrade_found
  upgrade_found-Recorded (cluster_name, cluster, node) w =
      let e =
        entry_of (for_cluster policy cluster_name) node staging cluster_name node_name
          (upgrade_found env fleet policy max_lag staging force confirm node_name target_version
            (cluster_name, cluster, node) w).0 in
      ap (λ a. audit_with a e)
        (attempt-quiet env (for_cluster policy cluster_name) max_lag node target_version _ cluster
            staging force _ cluster.install _ _ _
          ∙ inspect_node-Keeps quiet env node (All-Unit (inspection_effects node)) w)
