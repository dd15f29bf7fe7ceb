-- ===== src/Provision/Formats/Run.antt =====
-- The stages of `provision_node` of src/solfleet/provision.py, by what they run.
use solfleet.Prelude.{
  ℕ, Bool, true, false, List, String, Option, none, some, ◌==◌, Bool-cases, inl, inr, all, ◌≡◌,
  refl,
}
use solfleet.Safety.{GateDecision}
use solfleet.Config.{Node, Cluster, Fleet, InstallConfig, BuilderHost}
use solfleet.Config.Find.{Found, find_builder}
use solfleet.Builder.{BuildResult}
use solfleet.Builder.Kept.{build_artifacts-Keeps}
use solfleet.Executor.{Env, World, Effect, builder_target, systemctl}
use solfleet.Executor.Frames.{Traces, Traces-audited, traces, Keeps, chain}
use solfleet.Executor.Steps.{atomic_swap, start_service}
use solfleet.Operations.Catchup.Kept.{wait_for_catchup-Keeps}
use solfleet.Operations.Upgrade.{builder_of}
use solfleet.Operations.Upgrade.Distribute.{Placement, verified_swaps}
use solfleet.Operations.Upgrade.Kept.{distribute-Keeps}
use solfleet.Provision.{is_voting, render_unit}
use solfleet.Provision.Stages.{
  KeyCheck, preflight, ensure_user, apply_system, install_unit, check_identity_key, check_vote_key,
  vote_key_at, Preflight, unit_path,
}
use solfleet.Provision.Disks.{disk_ok, setup_disks}
use solfleet.Provision.Report.{Steps}
use solfleet.Provision.Run.{
  prepared_steps, bring_up, after_vote_key, vote_stage, after_identity, install_software,
  after_distribution, distribution_stage, after_build, build_stage, after_disks, execute_stages,
  attempt, provision_found,
}
use solfleet.Provision.Formats.{
  Provisioning, commands, builds, pulls, pushes, samples, waits, command-Keeps, setup_disks-Keeps,
}
use solfleet.Provision.Formats.Commands.{
  HostCommand-swaps, preflights, adds_user, sets_system, sums, installs_unit, tests_key, starts,
}

module _ (env : Env) (Builds : BuilderHost → Type 0) (node : Node)
    (allow_format : List String) where
  abbrev P : List Effect → Effect → Type 0
  P = Provisioning env Builds node allow_format

  vote_key_at-Keeps : (path : Option String) → Keeps (traces P) (vote_key_at env node path)
  vote_key_at-Keeps none w = (traces P).kept_refl w
  vote_key_at-Keeps (some path) w = elim (Bool-cases (path == "")) [
    | inl empty ↦ rw empty ((traces P).kept_refl w)
    | inr named ↦ rw named (command-Keeps env Builds node allow_format _ (tests_key path) w)
  ]

  module _ (cluster : Cluster) (decision : GateDecision) (max_lag timeout_s : ℕ) where
    bring_up-Keeps :
        (steps : Steps)
        → Keeps (traces P) (bring_up env node cluster decision max_lag timeout_s steps)
    unfolding bring_up start_service systemctl
    bring_up-Keeps steps w =
        chain (traces P) (command-Keeps env Builds node allow_format _ starts w) (
          wait_for_catchup-Keeps (traces P) env node.name cluster.reference_rpc max_lag timeout_s 5
            (samples _ _) (waits 5) _)

    after_vote_key-Keeps :
        (steps : Steps) (key : KeyCheck)
        → Keeps (traces P) (after_vote_key env node cluster decision max_lag timeout_s steps key)
    unfolding after_vote_key
    after_vote_key-Keeps steps key w = elim (Bool-cases key.present) [
      | inl there ↦
          rw (there, after_vote_key) (bring_up-Keeps (record steps { vote_key = some key }) w)
      | inr missing ↦ rw (missing, after_vote_key) ((traces P).kept_refl w)
    ]

    vote_stage-Keeps :
        (steps : Steps)
        → Keeps (traces P) (vote_stage env node cluster decision max_lag timeout_s steps)
    unfolding vote_stage check_vote_key
    vote_stage-Keeps steps w =
        chain (traces P) (vote_key_at-Keeps node.service.vote_account_keypair w)
          (after_vote_key-Keeps steps _ _)

    after_identity-Keeps :
        (steps : Steps) (key : KeyCheck)
        → Keeps (traces P) (after_identity env node cluster decision max_lag timeout_s steps key)
    unfolding after_identity
    after_identity-Keeps steps key w = elim (Bool-cases key.present) [
      | inr missing ↦ rw (missing, after_identity) ((traces P).kept_refl w)
      | inl there ↦ elim (Bool-cases (is_voting node)) [
        | inl votes ↦
            rw (there, after_identity, votes, after_identity)
              (vote_stage-Keeps (record steps { identity = some key }) w)
        | inr silent ↦
            rw (there, after_identity, silent, after_identity)
              (bring_up-Keeps (record steps { identity = some key }) w)
      ]
    ]

    after_distribution-Keeps :
        (steps : Steps) (dist : Bool × List Placement)
        → Keeps
            (traces P)
            (after_distribution env node cluster decision max_lag timeout_s steps dist)
    unfolding after_distribution install_software atomic_swap install_unit check_identity_key
    after_distribution-Keeps steps (false, ps) w = (traces P).kept_refl w
    after_distribution-Keeps steps (true, ps) w =
        let swap = atomic_swap env node (verified_swaps ps) w in
        let unit = install_unit env node (render_unit node cluster) swap.1 in
        let reached : Steps = record steps {
          distribution = some (true, ps);
          swap = some swap.0;
          unit = some unit.0;
        } in
        chain (traces P)
          (command-Keeps env Builds node allow_format _ (HostCommand-swaps node (verified_swaps ps))
            w)
          (chain (traces P)
            (command-Keeps env Builds node allow_format _
              (installs_unit (unit_path node) (render_unit node cluster) refl) _)
            (chain (traces P)
              (command-Keeps env Builds node allow_format _
                (tests_key node.service.identity_keypair) _)
              (after_identity-Keeps reached _ _)))

    module _ (staging : String) (install : InstallConfig) (builder : BuilderHost)
        (target_version : String) (is_builder : Builds builder) where
      after_build-Keeps :
          (steps : Steps) (build : BuildResult)
          → Keeps (traces P) (
              after_build env node cluster decision max_lag timeout_s staging install builder
                target_version steps build)
      unfolding after_build distribution_stage
      after_build-Keeps steps build w = elim (Bool-cases build.ok) [
        | inl good ↦
            rw (good, after_build)
              (chain (traces P)
                (distribute-Keeps (traces P) env (builder_target builder) node staging
                  (λ a b. pulls builder a b is_builder) (λ a b. pushes a _)
                  (λ path. commands _ (sums path)) build.artifacts w)
                (after_distribution-Keeps (record steps { build = some build }) _ _))
        | inr bad ↦ rw (bad, after_build) ((traces P).kept_refl w)
      ]

      after_disks-Keeps :
          (steps : Steps)
          → Keeps (traces P) (
              after_disks env node cluster decision max_lag timeout_s staging install builder
                target_version steps)
      unfolding after_disks build_stage
      after_disks-Keeps steps w = elim (Bool-cases (all steps.disks disk_ok)) [
        | inl good ↦
            rw (good, after_disks)
              (chain (traces P)
                (build_artifacts-Keeps (traces P) env (builder_target builder)
                  (λ cmd. builds builder cmd is_builder) install target_version false w)
                (after_build-Keeps steps _ _))
        | inr bad ↦ rw (bad, after_disks) ((traces P).kept_refl w)
      ]

      execute_stages-Keeps : Keeps (traces P) (
          execute_stages env node cluster decision max_lag timeout_s staging install builder
            target_version allow_format)
      unfolding execute_stages ensure_user apply_system
      execute_stages-Keeps w =
          let user = ensure_user env node w in
          let system = apply_system env node user.1 in
          let disks = setup_disks env node allow_format node.disks system.1 in
          chain (traces P) (command-Keeps env Builds node allow_format _ adds_user w) (
            chain (traces P) (command-Keeps env Builds node allow_format _ sets_system _) (
              chain (traces P)
                (setup_disks-Keeps env Builds node allow_format node.disks (λ d m. m) _)
                (after_disks-Keeps (prepared_steps user.0 system.0 disks.0) _)))

module _ (env : Env) (node : Node) (cluster : Cluster) (decision : GateDecision)
    (max_lag timeout_s : ℕ) (staging target_version : String) (allow_format : List String)
    (pre : Preflight) where
  attempt-Keeps :
      (install : Option InstallConfig) (builder : Option BuilderHost) (go : Bool)
      → Keeps (traces (Provisioning env (λ b. builder ≡ some b) node allow_format)) (
          attempt env node cluster decision max_lag timeout_s staging target_version allow_format
            pre install builder go)
  unfolding attempt
  attempt-Keeps none builder go w = (traces _).kept_refl w
  attempt-Keeps (some install) none go w = (traces _).kept_refl w
  attempt-Keeps (some install) (some builder) false w = (traces _).kept_refl w
  attempt-Keeps (some install) (some builder) true w =
      execute_stages-Keeps env (λ b. some builder ≡ some b) node allow_format cluster decision
        max_lag timeout_s staging install builder target_version refl w

module _ (env : Env) (fleet : Fleet) (max_lag timeout_s : ℕ) (staging : String)
    (allow_format : List String) (confirm : Bool) (node_name target_version : String) where
  -- Whatever is configured and whatever the hosts answer, all that a run of the provisioning of a known
  -- node does is: on the host, the commands that are written out, which make no file system, and the
  -- format of a disk of the node that is configured to be formatted and whose device was acknowledged,
  -- right behind the probe of that device, which found it blank; a command on or a copy from the builder
  -- that the install names; a copy to the host; a sample or a wait.
  pub provision_found_formats :
      (found : Found) (w : World)
      → Traces
          (Provisioning env
            (λ b. find_builder fleet (builder_of found.1.install) ≡ some b)
            found.2
            allow_format)
          w
          (provision_found env fleet max_lag timeout_s staging allow_format confirm node_name
            target_version found w).1
  unfolding provision_found preflight
  provision_found_formats (cluster_name, cluster, node) w =
      let Builds : BuilderHost → Type 0 =
        λ b. find_builder fleet (builder_of cluster.install) ≡ some b in
      let F = traces (Provisioning env Builds node allow_format) in
      Traces-audited _ w _ _ (
        chain F (command-Keeps env Builds node allow_format _ preflights w) (
          attempt-Keeps env node cluster _ max_lag timeout_s staging target_version allow_format _
            cluster.install _ _ _))
