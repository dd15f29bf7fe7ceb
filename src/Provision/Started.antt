-- ===== src/Provision/Started.antt =====
-- What a start of the service by `provision_node` of src/solfleet/provision.py stands for, stage by stage.
use solfleet.Prelude.{
  ℕ, Bool, true, false, List, String, Option, none, some, all, ◌≡◌, refl, ◌∙◌, sym, arith, ◌⊎◌, inl,
  inr, Bool-cases,
}
use solfleet.Safety.{GateDecision}
use solfleet.Config.{Node, Cluster, InstallConfig, BuilderHost}
use solfleet.Builder.{BuildResult}
use solfleet.Builder.Offers.{OffersAll, build_artifacts-OffersAll}
use solfleet.Executor.{Env, World, builder_target}
use solfleet.Executor.Steps.{atomic_swap}
use solfleet.Operations.Catchup.{CatchUp, Honest, wait_for_catchup-Honest}
use solfleet.Operations.Upgrade.Distribute.{Placement, distribute, verified_swaps}
use solfleet.Operations.Upgrade.Sound.{IsComplete, Arrival, distribute-names}
use solfleet.Operations.Upgrade.Verified.{distribute_exact}
use solfleet.Provision.{is_voting, render_unit}
use solfleet.Provision.Stages.{KeyCheck, ensure_user, apply_system, install_unit}
use solfleet.Provision.Disks.{disk_ok, setup_disks}
use solfleet.Provision.Report.{Steps, Provisioned, planned, finished}
use solfleet.Provision.Run.{
  prepared_steps, all_succeeded, bring_up, after_vote_key, vote_stage, after_identity,
  install_software, after_distribution, distribution_stage, after_build, build_stage, after_disks,
  execute_stages,
}

-- A keypair was looked for and is in place.
abbrev pub HasKey : Option KeyCheck → Type 0
HasKey check = (key : KeyCheck) × (check ≡ some key) × (key.present ≡ true)

-- Every disk is set up, the build succeeded with the whole artifact set of the install, and in the
-- distribution every artifact that the node has a destination for arrived.
abbrev pub HasSoftware : Env → String → Node → InstallConfig → BuilderHost → Steps → Type 0
HasSoftware env staging node install builder steps =
    (all steps.disks disk_ok ≡ true)
    × ((build : BuildResult) × (placements : List Placement) × (steps.build ≡ some build)
        × (steps.distribution ≡ some (true, placements))
        × IsComplete (some install) build placements
        × Arrival env staging node (some builder) build true)

-- What a start of the service stands for: the software, the keys, and an honest wait behind the start.
abbrev pub IsStarted : Env → String → ℕ → ℕ → Node → InstallConfig → BuilderHost → Steps → Type 0
IsStarted env staging max_lag timeout_s node install builder steps =
    HasSoftware env staging node install builder steps
    × HasKey steps.identity
    × ((is_voting node ≡ false) ⊎ HasKey steps.vote_key)
    × ((catch : CatchUp) × (steps.catchup ≡ some catch) × Honest max_lag timeout_s 5 catch)

abbrev pub is_planned : Provisioned → Bool
is_planned (planned _ _) = true
is_planned (finished _ _ _ _) = false

abbrev pub IsDone : Env → String → ℕ → ℕ → Node → InstallConfig → BuilderHost → Provisioned → Type 0
IsDone env staging max_lag timeout_s node install builder (planned decision pre) = ⊥
IsDone env staging max_lag timeout_s node install builder
      (finished decision steps succeeded message) =
    (succeeded ≡ all_succeeded steps)
    × ((steps.start ≡ none) ⊎ IsStarted env staging max_lag timeout_s node install builder steps)

pub IsDone-finished :
    (env : Env) (staging : String) (max_lag timeout_s : ℕ) (node : Node) (install : InstallConfig)
    (builder : BuilderHost) (outcome : Provisioned)
    → IsDone env staging max_lag timeout_s node install builder outcome
    → is_planned outcome ≡ false
IsDone-finished env staging max_lag timeout_s node install builder (planned decision pre) h =
    elim h [ ]
IsDone-finished env staging max_lag timeout_s node install builder
      (finished decision steps succeeded message) h =
    refl

module _ (env : Env) (node : Node) (cluster : Cluster) (decision : GateDecision)
    (max_lag timeout_s : ℕ) (install : InstallConfig) (staging : String)
    (builder : BuilderHost) where
  abbrev Sound : Provisioned → Type 0
  Sound outcome = IsDone env staging max_lag timeout_s node install builder outcome

  stopped_early :
      (steps : Steps)
      → steps.start ≡ none
      → (false ≡ all_succeeded steps)
        × ((steps.start ≡ none)
            ⊎ IsStarted env staging max_lag timeout_s node install builder steps)
  stopped_early steps unstarted = (ground (arith, unstarted), inl unstarted)

  bring_up-IsSound :
      (steps : Steps) (w : World)
      → HasSoftware env staging node install builder steps
      → HasKey steps.identity
      → (is_voting node ≡ false) ⊎ HasKey steps.vote_key
      → Sound (bring_up env node cluster decision max_lag timeout_s steps w).0
  unfolding bring_up
  bring_up-IsSound steps w software identity vote = (
    refl,
    inr (
      software,
      identity,
      vote,
      (
        _,
        refl,
        wait_for_catchup-Honest env node.name cluster.reference_rpc max_lag timeout_s 5
            (omega arith) _,
      ),
    ),
  )

  after_vote_key-IsSound :
      (steps : Steps) (key : KeyCheck) (w : World)
      → HasSoftware env staging node install builder steps
      → HasKey steps.identity
      → steps.start ≡ none
      → Sound (after_vote_key env node cluster decision max_lag timeout_s steps key w).0
  unfolding after_vote_key
  after_vote_key-IsSound steps key w software identity unstarted = elim (Bool-cases key.present) [
    | inl there ↦
        rw (there, after_vote_key)
          (bring_up-IsSound (record steps { vote_key = some key }) w software identity
            (inr (key, refl, there)))
    | inr missing ↦
        rw (missing, after_vote_key)
          (stopped_early (record steps { vote_key = some key }) unstarted)
  ]

  after_identity-IsSound :
      (steps : Steps) (key : KeyCheck) (w : World)
      → HasSoftware env staging node install builder steps
      → steps.start ≡ none
      → Sound (after_identity env node cluster decision max_lag timeout_s steps key w).0
  unfolding after_identity vote_stage
  after_identity-IsSound steps key w software unstarted =
      let keyed : Steps = record steps { identity = some key } in
      elim (Bool-cases key.present) [
        | inr missing ↦ rw (missing, after_identity) (stopped_early keyed unstarted)
        | inl there ↦ elim (Bool-cases (is_voting node)) [
          | inl votes ↦
              rw (there, after_identity, votes, after_identity)
                (after_vote_key-IsSound keyed _ _ software (key, refl, there) unstarted)
          | inr silent ↦
              rw (there, after_identity, silent, after_identity)
                (bring_up-IsSound keyed w software (key, refl, there) (inl silent))
        ]
      ]

  after_distribution-IsSound :
      (steps : Steps) (build : BuildResult) (dist : Bool × List Placement) (w : World)
      → all steps.disks disk_ok ≡ true
      → steps.build ≡ some build
      → steps.start ≡ none
      → IsComplete (some install) build dist.1
      → Arrival env staging node (some builder) build dist.0
      → Sound (after_distribution env node cluster decision max_lag timeout_s steps dist w).0
  unfolding after_distribution install_software
  after_distribution-IsSound steps build (false, ps) w disks offered unstarted complete arrival =
      stopped_early (record steps { distribution = some (false, ps) }) unstarted
  after_distribution-IsSound steps build (true, ps) w disks offered unstarted complete arrival =
      let swap = atomic_swap env node (verified_swaps ps) w in
      let unit = install_unit env node (render_unit node cluster) swap.1 in
      after_identity-IsSound
        (record steps { distribution = some (true, ps); swap = some swap.0; unit = some unit.0 }) _
        _ (disks, (build, ps, offered, refl, complete, arrival)) unstarted

  module _ (target_version : String) where
    after_build-IsSound :
        (steps : Steps) (build : BuildResult) (w : World)
        → all steps.disks disk_ok ≡ true
        → steps.start ≡ none
        → OffersAll install target_version build
        → Sound
            (after_build env node cluster decision max_lag timeout_s staging install builder
              target_version steps build w).0
    unfolding after_build distribution_stage
    after_build-IsSound steps build w disks unstarted (inr (bad, _)) =
        rw (bad, after_build) (stopped_early (record steps { build = some build }) unstarted)
    after_build-IsSound steps build w disks unstarted (inl (good, names, _)) =
        let dist = distribute env (builder_target builder) node staging build.artifacts w in
        rw (good, after_build)
          (after_distribution-IsSound (record steps { build = some build }) build dist.0 dist.1
            disks refl unstarted
            (
              good,
              names,
              distribute-names env (builder_target builder) node staging build.artifacts w ∙ names,
            )
            (
              w.effects,
              sym (distribute_exact env (builder_target builder) node staging build.artifacts w).0,
            ))

    after_disks-IsSound :
        (steps : Steps) (w : World)
        → steps.start ≡ none
        → Sound
            (after_disks env node cluster decision max_lag timeout_s staging install builder
              target_version steps w).0
    unfolding after_disks build_stage
    after_disks-IsSound steps w unstarted = elim (Bool-cases (all steps.disks disk_ok)) [
      | inl good ↦
          rw (good, after_disks)
            (after_build-IsSound steps _ _ good unstarted (
              build_artifacts-OffersAll env (builder_target builder) install target_version false
                w))
      | inr bad ↦ rw (bad, after_disks) (stopped_early steps unstarted)
    ]

module _ (env : Env) (node : Node) (cluster : Cluster) (decision : GateDecision)
    (max_lag timeout_s : ℕ) (staging target_version : String) (allow_format : List String) where
  pub execute_stages-IsDone :
      (install : InstallConfig) (builder : BuilderHost) (w : World)
      → IsDone env staging max_lag timeout_s node install builder
          (execute_stages env node cluster decision max_lag timeout_s staging install builder
            target_version allow_format w).0
  unfolding execute_stages
  execute_stages-IsDone install builder w =
      let user = ensure_user env node w in
      let system = apply_system env node user.1 in
      let disks = setup_disks env node allow_format node.disks system.1 in
      after_disks-IsSound env node cluster decision max_lag timeout_s install staging builder
        target_version (prepared_steps user.0 system.0 disks.0) _ refl
