-- ===== src/Operations/Upgrade/Planned.antt =====
-- When `execute_upgrade` of src/solfleet/operations.py goes past its plan.
use solfleet.Prelude.{
  ℕ, Bool, true, false, ◌&&◌, List, String, Option, none, some, Bool-cases, inl, inr, ◌≡◌, refl,
  ◌∙◌, ap, sym, all, not, is_some, arith,
}
use solfleet.Safety.{PolicyRules, Policy, for_cluster, GateDecision}
use solfleet.Safety.Gate.{passed, gate-allowed}
use solfleet.Config.{Node, Cluster, Fleet, InstallConfig, BuilderHost}
use solfleet.Config.Find.{Found, find_builder}
use solfleet.Builder.{BuildResult}
use solfleet.Executor.{Env, World, builder_target}
use solfleet.Executor.Inspect.{Inspection, inspect_node}
use solfleet.Operations.Upgrade.{builder_of, upgrade_plan, upgrade_checks}
use solfleet.Operations.Upgrade.Distribute.{Placement, distribute}
use solfleet.Operations.Upgrade.Execute.{preflight_checks}
use solfleet.Operations.Upgrade.Staged.{is_planned}
use solfleet.Operations.Upgrade.Run.{
  apply_upgrade, after_distribute, distribute_build, after_build, build_and_install, attempt,
  upgrade_found,
}

pub &&-right : (a b : Bool) → (a && b) ≡ true → b ≡ true
&&-right a b h = ground arith

module _ (env : Env) (rules : PolicyRules) (max_lag : ℕ) (node : Node) (target_version : String)
    (decision : GateDecision) (cluster : Cluster) (staging : String) where
  is_planned-after_distribute :
      (build : BuildResult) (dist : Bool × List Placement) (w : World)
      → is_planned
          (after_distribute env rules max_lag node target_version decision cluster staging build
            dist w).0
        ≡ false
  unfolding after_distribute apply_upgrade
  is_planned-after_distribute build (true, ps) w = refl
  is_planned-after_distribute build (false, ps) w = refl

  is_planned-after_build :
      (builder : BuilderHost) (build : BuildResult) (w : World)
      → is_planned
          (after_build env rules max_lag node target_version decision cluster staging builder build
            w).0
        ≡ false
  unfolding after_build distribute_build
  is_planned-after_build builder build w = elim (Bool-cases build.ok) [
    | inl good ↦
        rw (good, after_build)
          (is_planned-after_distribute build
            (distribute env (builder_target builder) node staging build.artifacts w).0 _)
    | inr bad ↦ rw (bad, after_build) refl
  ]

  is_planned-attempt :
      (force : Bool) (before : Inspection) (install : Option InstallConfig)
      (builder : Option BuilderHost) (go : Bool) (w : World)
      → (go ≡ true → (is_some install ≡ true) × (is_some builder ≡ true))
      → is_planned
          (attempt env rules max_lag node target_version decision cluster staging force before
            install builder go w).0
        ≡ not go
  unfolding attempt build_and_install
  is_planned-attempt force before none builder true w h = cc ((h refl).0)
  is_planned-attempt force before none builder false w h = refl
  is_planned-attempt force before (some install) none true w h = cc ((h refl).1)
  is_planned-attempt force before (some install) none false w h = refl
  is_planned-attempt force before (some install) (some builder) false w h = refl
  is_planned-attempt force before (some install) (some builder) true w h =
      is_planned-after_build builder _ _

pub is_some-builder_of :
    (install : Option InstallConfig) → is_some (builder_of install) ≡ true → is_some install ≡ true
is_some-builder_of none h = cc
is_some-builder_of (some install) h = refl

preflight_checks-builders :
    (cluster_name : String) (cluster : Cluster) (node : Node) (rules : PolicyRules)
    (target_version : String) (builder : Option BuilderHost) (before : Inspection)
    → all (preflight_checks cluster_name cluster node rules target_version builder before) passed
      ≡ true
    → (is_some cluster.install ≡ true) × (is_some builder ≡ true)
unfolding preflight_checks upgrade_checks
preflight_checks-builders cluster_name cluster node rules target_version builder before h =
    (is_some-builder_of cluster.install (ground arith), ground arith)

module _ (env : Env) (fleet : Fleet) (policy : Policy) (max_lag : ℕ) (staging : String)
    (force confirm : Bool) (node_name target_version : String) where
  -- An upgrade of a known node goes past its plan exactly if it is confirmed and every preflight check
  -- passes on what the inspection found.
  pub upgrade_found-is_planned :
      (found : Found) (w : World)
      → is_planned
          (upgrade_found env fleet policy max_lag staging force confirm node_name target_version
            found w).0
        ≡ not (
            confirm
            && all
                (preflight_checks found.0 found.1 found.2
                  (for_cluster policy found.0)
                  target_version
                  (find_builder fleet (builder_of found.1.install))
                  (inspect_node env found.2 w).0)
                passed)
  unfolding upgrade_found
  upgrade_found-is_planned (cluster_name, cluster, node) w =
      let before = (inspect_node env node w).0 in
      let builder = find_builder fleet (builder_of cluster.install) in
      let checks =
        preflight_checks cluster_name cluster node (for_cluster policy cluster_name) target_version
          builder before in
      let allowed =
        gate-allowed "upgrade" cluster_name node_name (upgrade_plan cluster node target_version)
          checks confirm in
      is_planned-attempt env (for_cluster policy cluster_name) max_lag node target_version _ cluster
        staging force before cluster.install builder _ _
        (λ go.
          preflight_checks-builders cluster_name cluster node (for_cluster policy cluster_name)
            target_version builder before (sym allowed ∙ &&-right _ _ go))
      ∙ ap (λ a. not (confirm && a)) allowed
