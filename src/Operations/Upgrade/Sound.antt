-- ===== src/Operations/Upgrade/Sound.antt =====
-- What the outcome of `execute_upgrade` of src/solfleet/operations.py says.
use solfleet.Prelude.{
  ℕ, Bool, true, false, ◌&&◌, List, [], ◌∷◌, String, Option, none, some, map, all, ◌≡◌, refl, arith,
  inl, inr, ◌∙◌, sym, ◌||◌, not, truthy, is_some, Bool-cases, Option-cases,
}
use solfleet.Prelude.Text.{Text}
use solfleet.Safety.{PolicyRules, Policy, for_cluster, GateDecision}
use solfleet.Config.{Node, Cluster, Fleet, InstallConfig, BuilderHost}
use solfleet.Config.Find.{Found, find_builder}
use solfleet.Builder.{Artifact, BuildResult, artifact_names}
use solfleet.Builder.Offers.{name_of, OffersAll, build_artifacts-OffersAll}
use solfleet.Executor.{Env, World, Effect, Target, builder_target}
use solfleet.Executor.Inspect.{Inspection, inspect_node}
use solfleet.Operations.Catchup.{Honest, wait_for_catchup-Honest}
use solfleet.Operations.Restart.{cycle_ok}
use solfleet.Operations.Upgrade.{dest_for, builder_of, upgrade_plan, upgrade_checks}
use solfleet.Safety.Gate.{passed, gate-allowed}
use solfleet.Operations.Upgrade.Distribute.{
  Placement, skipped, placed, place_at, distribute, version_matches,
}
use solfleet.Operations.Upgrade.Verified.{all_arrive, distribute_exact}
use solfleet.Operations.Upgrade.Planned.{&&-right}
use solfleet.Operations.Upgrade.Execute.{
  preflight_checks, Upgrade, planned, unbuilt, unverified, upgraded,
}
use solfleet.Operations.Upgrade.Run.{
  after_distribute, distribute_build, after_build, attempt, upgrade_found,
}

abbrev pub placement_name : Placement → String
placement_name (skipped name) = name
placement_name (placed p) = p.name

-- The build offers the whole artifact set of the install, and the placements are those of it.
abbrev pub IsComplete : Option InstallConfig → BuildResult → List Placement → Type 0
IsComplete none build placements = ⊥
IsComplete (some install) build placements =
    (build.ok ≡ true)
    × (map name_of build.artifacts ≡ artifact_names install)
    × (map placement_name placements ≡ artifact_names install)

-- The node has a destination for every artifact of the set.
abbrev pub HasPlaces : Node → Option InstallConfig → Type 0
HasPlaces node none = ⊥
HasPlaces node (some install) =
    all (artifact_names install) (λ name. is_some (dest_for node name)) ≡ true

-- From what had been done when the distribution began, whether every artifact of the build arrived.
abbrev pub Arrival : Env → String → Node → Option BuilderHost → BuildResult → Bool → Type 0
Arrival env staging node none build arrived = ⊥
Arrival env staging node (some builder) build arrived =
    (es : List Effect) × (all_arrive env (builder_target builder) node staging es build.artifacts
      ≡ arrived)

-- What each outcome stands for: a failed build, a distribution in which some artifact did not arrive, or an
-- upgrade of the whole artifact set.
module _ (env : Env) (staging : String) (node : Node) (max_lag : ℕ) (target : String)
    (install : Option InstallConfig) (builder : Option BuilderHost) where
  abbrev pub IsSound : Upgrade → Type 0
  IsSound (planned decision before) = Unit {0}
  IsSound (unbuilt decision build) = build.ok ≡ false
  IsSound (unverified decision build placements) =
      IsComplete install build placements × Arrival env staging node builder build false
  IsSound (upgraded u) =
      IsComplete install u.build u.placements
      × HasPlaces node install
      × Arrival env staging node builder u.build true
      × Honest max_lag 600 5 u.catchup
      × (u.succeeded ≡ (
          u.swap.ok
          && (cycle_ok u.cycle
              && (u.catchup.caught_up && version_matches u.reported_version target))))

module _ (env : Env) (builder : Target) (target : Node) (staging : String) where
  place_at-name :
      (art : Artifact) (dest : Option Text) (w : World)
      → placement_name (place_at env builder target staging art dest w).0 ≡ art.name
  unfolding place_at
  place_at-name art none w = refl
  place_at-name art (some dest) w = refl

  pub distribute-names :
      (arts : List Artifact) (w : World)
      → map placement_name (distribute env builder target staging arts w).0.1 ≡ map name_of arts
  unfolding distribute
  distribute-names [] w = refl
  distribute-names (art ∷ arts) w =
      cong₂ (place_at-name art (dest_for target art.name) w) (distribute-names arts _)
    where
      cong₂ : {n m : String} {ns ms : List String} → n ≡ m → ns ≡ ms → n ∷ ns ≡ m ∷ ms
      cong₂ p q = rw (p, q) refl

dest_for-artifacts :
    (node : Node) (install : InstallConfig)
    → (not (truthy install.geyser_repo) || is_some node.service.geyser_lib) ≡ true
    → HasPlaces node (some install)
unfolding dest_for solfleet.Prelude.String-discrete
dest_for-artifacts node install h = elim (Bool-cases (truthy install.geyser_repo)) [
  | inr plain ↦ rw plain refl
  | inl geyser ↦ elim (Option-cases node.service.geyser_lib) [
    | inl unset ↦ ground (arith, h, geyser, unset)
    | inr (path, e) ↦ rw (geyser, e) refl
  ]
]

preflight_checks-HasPlaces :
    (cluster_name : String) (cluster : Cluster) (node : Node) (rules : PolicyRules)
    (target_version : String) (builder : Option BuilderHost) (before : Inspection)
    → all (preflight_checks cluster_name cluster node rules target_version builder before) passed
      ≡ true
    → HasPlaces node cluster.install
unfolding preflight_checks upgrade_checks
preflight_checks-HasPlaces cluster_name cluster node rules target_version builder before h =
    elim (Option-cases cluster.install) [
      | inl none_set ↦ let f : false ≡ true = ground (arith, h, none_set) in cc
      | inr (install, e) ↦ rw e (dest_for-artifacts node install (ground (arith, h, e)))
    ]

module _ (env : Env) (rules : PolicyRules) (max_lag : ℕ) (node : Node) (target_version : String)
    (decision : GateDecision) (cluster : Cluster) (staging : String) where
  after_distribute-IsSound :
      (install : InstallConfig) (builder : BuilderHost) (build : BuildResult)
      (dist : Bool × List Placement) (w : World)
      → HasPlaces node (some install)
      → IsComplete (some install) build dist.1
      → Arrival env staging node (some builder) build dist.0
      → IsSound env staging node max_lag target_version
          (some install)
          (some builder)
          (after_distribute env rules max_lag node target_version decision cluster staging build
            dist w).0
  unfolding after_distribute
  after_distribute-IsSound install builder build (true, ps) w places complete arrival = (
    complete,
    places,
    arrival,
    wait_for_catchup-Honest env node.name cluster.reference_rpc max_lag 600 5 (omega arith) _,
    refl,
  )
  after_distribute-IsSound install builder build (false, ps) w places complete arrival =
      (complete, arrival)

  after_build-IsSound :
      (install : InstallConfig) (builder : BuilderHost) (build : BuildResult) (w : World)
      → HasPlaces node (some install)
      → OffersAll install target_version build
      → IsSound env staging node max_lag target_version
          (some install)
          (some builder)
          (after_build env rules max_lag node target_version decision cluster staging builder build
            w).0
  unfolding after_build distribute_build
  after_build-IsSound install builder build w places (inl (good, names, _)) =
      let dist = distribute env (builder_target builder) node staging build.artifacts w in
      let arrived =
        (distribute_exact env (builder_target builder) node staging build.artifacts w).0 in
      rw (good, after_build)
        (after_distribute-IsSound install builder build dist.0 dist.1 places
          (
            good,
            names,
            distribute-names env (builder_target builder) node staging build.artifacts w ∙ names,
          )
          (w.effects, sym arrived))
  after_build-IsSound install builder build w places (inr (bad, _)) = rw (bad, after_build) bad

  attempt-IsSound :
      (force : Bool) (before : Inspection) (install : Option InstallConfig)
      (builder : Option BuilderHost) (go : Bool) (w : World)
      → (go ≡ true → HasPlaces node install)
      → IsSound env staging node max_lag target_version install builder
          (attempt env rules max_lag node target_version decision cluster staging force before
            install builder go w).0
  unfolding attempt
  attempt-IsSound force before none builder go w h = tt
  attempt-IsSound force before (some install) none go w h = tt
  attempt-IsSound force before (some install) (some builder) false w h = tt
  attempt-IsSound force before (some install) (some builder) true w h =
      after_build-IsSound install builder _ _ (h refl)
        (build_artifacts-OffersAll env (builder_target builder) install target_version force w)

module _ (env : Env) (fleet : Fleet) (policy : Policy) (max_lag : ℕ) (staging : String)
    (force confirm : Bool) (node_name target_version : String) where
  -- What the outcome of an upgrade of a known node says, beside a plan only: a failed build; or a
  -- successful build of the whole artifact set and a distribution of it in which some artifact did not
  -- arrive; or an upgrade, for which the node has a destination for every artifact of the whole set and
  -- each of them was pulled and pushed and has on the node the checksum of the builder, with an honest
  -- wait, and success exactly if the swap, the cycle of the service and the wait succeeded and the
  -- reported version matches.
  pub upgrade_found-IsSound :
      (found : Found) (w : World)
      → IsSound env staging found.2 max_lag target_version found.1.install
          (find_builder fleet (builder_of found.1.install))
          (upgrade_found env fleet policy max_lag staging force confirm node_name target_version
            found w).0
  unfolding upgrade_found
  upgrade_found-IsSound (cluster_name, cluster, node) w =
      let before = (inspect_node env node w).0 in
      let builder = find_builder fleet (builder_of cluster.install) in
      let checks =
        preflight_checks cluster_name cluster node (for_cluster policy cluster_name) target_version
          builder before in
      let allowed =
        gate-allowed "upgrade" cluster_name node_name (upgrade_plan cluster node target_version)
          checks confirm in
      attempt-IsSound env (for_cluster policy cluster_name) max_lag node target_version _ cluster
        staging force _ cluster.install builder _ _
        (λ go.
          preflight_checks-HasPlaces cluster_name cluster node (for_cluster policy cluster_name)
            target_version builder before (sym allowed ∙ &&-right _ _ go))
