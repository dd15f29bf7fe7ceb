-- ===== src/Provision/Run.antt =====
-- `provision_node` of src/solfleet/provision.py. Each stage goes on to the next or finishes with a note.
use solfleet.Prelude.{
  ℕ, Bool, true, false, ◌&&◌, List, [], ◌∷◌, String, Option, none, some, is_some, is_empty, all,
}
use solfleet.Prelude.Text.{lit, str, repr}
use solfleet.Safety.{GateDecision, Checks, gate}
use solfleet.Config.{Node, Cluster, Fleet, InstallConfig, BuilderHost}
use solfleet.Config.Find.{Found, find_node, find_builder}
use solfleet.Builder.{BuildResult}
use solfleet.Builder.Build.{build_artifacts}
use solfleet.Executor.{Env, Action, ◌>>=◌, ◌>>◌, pure, record_audit, builder_target}
use solfleet.Executor.Steps.{Step, atomic_swap, start_service}
use solfleet.Operations.{Reply, refused, reply, unknown_node}
use solfleet.Operations.Catchup.{CatchUp, wait_for_catchup}
use solfleet.Operations.Upgrade.{builder_of}
use solfleet.Operations.Upgrade.Distribute.{Placement, distribute, verified_swaps}
use solfleet.Provision.{provision_plan, render_unit, is_voting, joined_by}
use solfleet.Provision.Stages.{
  Preflight, blockers, KeyCheck, preflight, ensure_user, apply_system, install_unit,
  check_identity_key, check_vote_key,
}
use solfleet.Provision.Disks.{DiskStep, disk_ok, setup_disks}
use solfleet.Provision.Report.{Steps, Provisioned, planned, finished, entry_of}

abbrev pub provision_checks : Preflight → Option InstallConfig → Option BuilderHost → Checks
provision_checks pre install builder_node =
    (is_empty (blockers pre), str "preflight blockers: " ∷ joined_by "; " (blockers pre))
    ∷ (
      is_some (builder_of install),
      lit "cluster has no install.builder (provision installs software)",
    )
    ∷ (
      is_some builder_node,
      str "builder " ∷ repr (builder_of install) ∷ str " not found in fleet" ∷ [],
    )
    ∷ []

abbrev pub prepared_steps : Step → Step → List DiskStep → Steps
prepared_steps user system disks = record {
  user = user;
  system = system;
  disks = disks;
  build = none;
  distribution = none;
  swap = none;
  unit = none;
  identity = none;
  vote_key = none;
  start = none;
  catchup = none;
}

abbrev pub step_ok : Option Step → Bool
step_ok none = false
step_ok (some step) = step.ok

abbrev pub caught_up : Option CatchUp → Bool
caught_up none = false
caught_up (some c) = c.caught_up

-- `succeeded` of the last stage.
abbrev pub all_succeeded : Steps → Bool
all_succeeded steps =
    steps.user.ok
    && (steps.system.ok
        && (all steps.disks disk_ok
            && (step_ok steps.swap
                && (step_ok steps.unit && (step_ok steps.start && caught_up steps.catchup)))))

module _ (env : Env) (node : Node) (cluster : Cluster) (decision : GateDecision)
    (max_lag timeout_s : ℕ) where
  unfoldable pub bring_up : Steps → Action Provisioned
  unfolding start_service wait_for_catchup
  bring_up steps = do
    start ← start_service env node
    catch ← wait_for_catchup env node.name cluster.reference_rpc max_lag timeout_s 5
    let done : Steps = record steps { start = some start; catchup = some catch }
    pure (finished decision done (all_succeeded done) none)

  unfoldable pub after_vote_key : Steps → KeyCheck → Action Provisioned
  unfolding bring_up
  after_vote_key steps key = elim key.present [
    | true ↦ bring_up (record steps { vote_key = some key })
    | false ↦ pure (
        finished decision (record steps { vote_key = some key }) false
          (some
            "voting node: vote-account keypair missing; create+fund the vote account, place the keypair, and re-run"))
  ]

  unfoldable pub vote_stage : Steps → Action Provisioned
  unfolding check_vote_key after_vote_key
  vote_stage steps = do key ← check_vote_key env node; after_vote_key steps key

  unfoldable pub after_identity : Steps → KeyCheck → Action Provisioned
  unfolding vote_stage bring_up
  after_identity steps key = elim key.present [
    | false ↦ pure (
        finished decision (record steps { identity = some key }) false
          (some "identity keypair missing; place it on the host and re-run"))
    | true ↦ elim (is_voting node) [
      | true ↦ vote_stage (record steps { identity = some key })
      | false ↦ bring_up (record steps { identity = some key })
    ]
  ]

  unfoldable pub install_software : Steps → List Placement → Action Provisioned
  unfolding atomic_swap install_unit render_unit check_identity_key after_identity
  install_software steps placements = do
    swap ← atomic_swap env node (verified_swaps placements)
    unit ← install_unit env node (render_unit node cluster)
    key ← check_identity_key env node
    after_identity (record steps { swap = some swap; unit = some unit }) key

  unfoldable pub after_distribution : Steps → Bool × List Placement → Action Provisioned
  unfolding install_software
  after_distribution steps (true, placements) =
      install_software (record steps { distribution = some (true, placements) }) placements
  after_distribution steps (false, placements) = pure (
      finished decision (record steps { distribution = some (false, placements) }) false
        (some "artifact distribution/verification failed"))

  module _ (staging : String) (install : InstallConfig) (builder : BuilderHost)
      (target_version : String) where
    unfoldable pub distribution_stage : Steps → BuildResult → Action Provisioned
    unfolding distribute after_distribution
    distribution_stage steps build = do
      dist ← distribute env (builder_target builder) node staging build.artifacts
      after_distribution steps dist

    unfoldable pub after_build : Steps → BuildResult → Action Provisioned
    unfolding distribution_stage
    after_build steps build = elim build.ok [
      | true ↦ distribution_stage (record steps { build = some build }) build
      | false ↦ pure (finished decision (record steps { build = some build }) false none)
    ]

    unfoldable pub build_stage : Steps → Action Provisioned
    unfolding build_artifacts after_build
    build_stage steps = do
      build ← build_artifacts env (builder_target builder) install target_version false
      after_build steps build

    unfoldable pub after_disks : Steps → Action Provisioned
    unfolding build_stage
    after_disks steps = elim (all steps.disks disk_ok) [
      | true ↦ build_stage steps
      | false ↦
          pure (finished decision steps false (some "disk setup failed; not installing software"))
    ]

    unfoldable pub execute_stages : List String → Action Provisioned
    unfolding ensure_user apply_system setup_disks after_disks
    execute_stages allow_format = do
      user ← ensure_user env node
      system ← apply_system env node
      disks ← setup_disks env node allow_format node.disks
      after_disks (prepared_steps user system disks)

  -- The gate allows the stages only where there is an install and its builder was found.
  unfoldable pub attempt :
      String
      → String
      → List String
      → Preflight
      → Option InstallConfig
      → Option BuilderHost
      → Bool
      → Action Provisioned
  unfolding execute_stages
  attempt staging target_version allow_format pre (some install) (some builder) true =
      execute_stages staging install builder target_version allow_format
  attempt staging target_version allow_format pre install builder go = pure (planned decision pre)

module _ (env : Env) (fleet : Fleet) (max_lag timeout_s : ℕ) (staging : String)
    (allow_format : List String) (confirm : Bool) (node_name target_version : String) where
  abbrev pub decide : String → Cluster → Node → Preflight → GateDecision
  decide cluster_name cluster node pre =
      gate "provision" cluster_name node_name confirm (provision_plan node cluster target_version)
        (provision_checks pre cluster.install (find_builder fleet (builder_of cluster.install)))

  unfoldable pub provision_found : Found → Action Provisioned
  unfolding preflight gate find_builder attempt
  provision_found (cluster_name, cluster, node) = do
    pre ← preflight env node
    let decision : GateDecision = decide cluster_name cluster node pre
    outcome ←
        attempt env node cluster decision max_lag timeout_s staging target_version allow_format pre
          cluster.install (find_builder fleet (builder_of cluster.install))
          (confirm && decision.allowed)
    record_audit (entry_of node cluster_name node_name outcome)
    pure outcome

  abbrev provision_from : Option Found → Action (Reply Provisioned)
  provision_from none = pure (refused (unknown_node node_name))
  provision_from (some found) = do outcome ← provision_found found; pure (reply outcome)

  unfoldable pub provision_node : Action (Reply Provisioned)
  unfolding find_node provision_found
  provision_node = provision_from (find_node fleet node_name)
