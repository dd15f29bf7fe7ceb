-- ===== src/Operations/Upgrade/Staged.antt =====
-- What an upgrade of src/solfleet/operations.py does to a node before every artifact is verified on it.
use mathlib.Core.List.{Mem, mem-cons_self, mem-cons_of_mem}
use solfleet.Prelude.{
  ℕ, Bool, true, false, List, [], ◌∷◌, ◌++◌, String, Option, none, some, All, Bool-cases, inl, inr,
  ◌≡◌, refl,
}
use solfleet.Prelude.Text.{Text, str}
use solfleet.Safety.{PolicyRules, Policy, for_cluster, GateDecision}
use solfleet.Config.{Node, Cluster, Fleet, InstallConfig, BuilderHost}
use solfleet.Config.Find.{Found, find_builder}
use solfleet.Builder.{BuildResult}
use solfleet.Builder.Kept.{build_artifacts-Keeps}
use solfleet.Executor.{
  Env, World, Effect, ran, node_target, builder_target, ssh_argv, scp_from_argv, scp_to_argv,
}
use solfleet.Executor.Frames.{Adds, Adds-audited, adds, chain}
use solfleet.Executor.Inspect.{Inspection}
use solfleet.Operations.Restart.Planned.{inspection_effects}
use solfleet.Operations.Upgrade.{builder_of}
use solfleet.Operations.Upgrade.Distribute.{Placement}
use solfleet.Operations.Upgrade.Execute.{Upgrade, planned, upgraded}
use solfleet.Operations.Upgrade.Kept.{inspect_node-Keeps, distribute-Keeps}
use solfleet.Operations.Upgrade.Run.{
  apply_upgrade, after_distribute, distribute_build, after_build, build_and_install, attempt,
  upgrade_found,
}

-- The effects of a preparation: a command of the inspection, a command on one of the builders, a copy from
-- it, a copy to the node beside the destination, and the checksum of a file of the node.
pub data Staging (Builds : BuilderHost → Type 0) (node : Node) : Effect → Type 0 where
  reads : (e : Effect) → Mem e (inspection_effects node) → Staging Builds node e
  builds :
      (b : BuilderHost) (cmd : Text)
      → Builds b
      → Staging Builds node (ran (ssh_argv (builder_target b) cmd))
  pulls :
      (b : BuilderHost) (remote here : Text)
      → Builds b
      → Staging Builds node (ran (scp_from_argv (builder_target b) remote here))
  pushes :
      (here dest : Text)
      → Staging Builds node
          (ran (scp_to_argv (node_target node) here (dest ++ (str ".solfleet-new" ∷ []))))
  sums :
      (path : Text)
      → Staging Builds node (ran (ssh_argv (node_target node) (str "sha256sum " ∷ path)))

pub All-sub : (P : Effect → Type 0) (es : List Effect) → ((e : Effect) → Mem e es → P e) → All P es
All-sub P [] f = tt
All-sub P (e ∷ es) f = (f e mem-cons_self, All-sub P es (λ x m. f x (mem-cons_of_mem e m)))

abbrev pub is_upgraded : Upgrade → Bool
is_upgraded (upgraded _) = true
is_upgraded _ = false

abbrev pub is_planned : Upgrade → Bool
is_planned (planned _ _) = true
is_planned _ = false

-- Only the inspection, a build and a distribution were run, unless the node was upgraded.
abbrev Stages : (BuilderHost → Type 0) → Node → World → Upgrade × World → Type 0
Stages Builds node w r = is_upgraded r.0 ≡ false → Adds (Staging Builds node) w r.1

module _ (env : Env) (rules : PolicyRules) (max_lag : ℕ) (node : Node) (target_version : String)
    (decision : GateDecision) (cluster : Cluster) (staging : String) where
  module _ (Builds : BuilderHost → Type 0) where
    after_distribute-Stages :
        (build : BuildResult) (dist : Bool × List Placement) (w : World)
        → Stages Builds node w (
            after_distribute env rules max_lag node target_version decision cluster staging build
              dist w)
    unfolding after_distribute apply_upgrade
    after_distribute-Stages build (true, ps) w h = cc
    after_distribute-Stages build (false, ps) w h = (adds (Staging Builds node)).kept_refl w

    distribute_build-Stages :
        (builder : BuilderHost) (build : BuildResult) (w : World)
        → Builds builder
        → Stages Builds node w (
            distribute_build env rules max_lag node target_version decision cluster staging builder
              build w)
    unfolding distribute_build
    distribute_build-Stages builder build w is_builder h =
        chain (adds (Staging Builds node))
          (distribute-Keeps (adds (Staging Builds node)) env (builder_target builder) node staging
            (λ a b. pulls builder a b is_builder) pushes sums build.artifacts w)
          (after_distribute-Stages build _ _ h)

    after_build-Stages :
        (builder : BuilderHost) (build : BuildResult) (w : World)
        → Builds builder
        → Stages Builds node w (
            after_build env rules max_lag node target_version decision cluster staging builder build
              w)
    unfolding after_build
    after_build-Stages builder build w is_builder = elim (Bool-cases build.ok) [
      | inl good ↦ rw (good, after_build) (distribute_build-Stages builder build w is_builder)
      | inr bad ↦ rw (bad, after_build) (λ h. (adds (Staging Builds node)).kept_refl w)
    ]

  attempt-Stages :
      (force : Bool) (before : Inspection) (install : Option InstallConfig)
      (builder : Option BuilderHost) (go : Bool) (w : World)
      → Stages
          (λ b. builder ≡ some b)
          node
          w
          (attempt env rules max_lag node target_version decision cluster staging force before
            install builder go w)
  unfolding attempt build_and_install
  attempt-Stages force before none builder go w h = (adds _).kept_refl w
  attempt-Stages force before (some install) none go w h = (adds _).kept_refl w
  attempt-Stages force before (some install) (some builder) false w h = (adds _).kept_refl w
  attempt-Stages force before (some install) (some builder) true w h =
      chain (adds (Staging (λ b. some builder ≡ some b) node))
        (build_artifacts-Keeps (adds (Staging (λ b. some builder ≡ some b) node)) env
          (builder_target builder) (λ cmd. builds builder cmd refl) install target_version force w)
        (after_build-Stages (λ b. some builder ≡ some b) builder _ _ refl h)

module _ (env : Env) (fleet : Fleet) (policy : Policy) (max_lag : ℕ) (staging : String)
    (force confirm : Bool) (node_name target_version : String) where
  -- Unless an upgrade of a known node ends as upgraded, it does nothing outside but commands of the
  -- inspection of the node, commands on and copies from the builder that the install names, copies to the
  -- node beside their destination, and checksums of files of the node: nothing is moved into place and the
  -- service is not touched.
  pub upgrade_found_stages :
      (found : Found) (w : World)
      → is_upgraded
          (upgrade_found env fleet policy max_lag staging force confirm node_name target_version
            found w).0
        ≡ false
      → Adds
          (Staging (λ b. find_builder fleet (builder_of found.1.install) ≡ some b) found.2)
          w
          (upgrade_found env fleet policy max_lag staging force confirm node_name target_version
            found w).1
  unfolding upgrade_found
  upgrade_found_stages (cluster_name, cluster, node) w h =
      let F = adds (Staging (λ b. find_builder fleet (builder_of cluster.install) ≡ some b) node) in
      Adds-audited _ w _ _ (
        chain F
          (inspect_node-Keeps F env node (All-sub _ (inspection_effects node) (λ e m. reads e m)) w)
          (attempt-Stages env (for_cluster policy cluster_name) max_lag node target_version _
            cluster staging force _ cluster.install _ _ _ h))
