-- ===== src/Provision/Sound.antt =====
-- What the outcome of `provision_node` of src/solfleet/provision.py says.
use solfleet.Prelude.{
  ℕ, Bool, true, false, List, String, Option, none, some, is_some, not, ◌≡◌, refl, ◌⊎◌,
}
use solfleet.Safety.{GateDecision}
use solfleet.Config.{Node, Cluster, Fleet, InstallConfig, BuilderHost}
use solfleet.Config.Find.{Found, find_builder}
use solfleet.Operations.Upgrade.{builder_of}
use solfleet.Executor.{Env, World}
use solfleet.Provision.Started.{
  IsStarted, IsDone, is_planned, IsDone-finished, execute_stages-IsDone,
}
use solfleet.Provision.Stages.{Preflight}
use solfleet.Provision.Report.{Provisioned, planned, finished}
use solfleet.Provision.Run.{all_succeeded, attempt, provision_found}

-- Success is that of every stage, and the service is started with the software and the keys in place only.
module _ (env : Env) (staging : String) (max_lag timeout_s : ℕ) (node : Node) where
  abbrev pub IsSound : Option InstallConfig → Option BuilderHost → Provisioned → Type 0
  IsSound install builder (planned decision pre) = Unit {0}
  IsSound none builder (finished decision steps succeeded message) = ⊥
  IsSound (some install) none (finished decision steps succeeded message) = ⊥
  IsSound (some install) (some builder) (finished decision steps succeeded message) =
      (succeeded ≡ all_succeeded steps)
      × ((steps.start ≡ none) ⊎ IsStarted env staging max_lag timeout_s node install builder steps)

  IsDone-IsSound :
      (install : InstallConfig) (builder : BuilderHost) (outcome : Provisioned)
      → IsDone env staging max_lag timeout_s node install builder outcome
      → IsSound (some install) (some builder) outcome
  IsDone-IsSound install builder (planned decision pre) h = tt
  IsDone-IsSound install builder (finished decision steps succeeded message) h = h

module _ (env : Env) (node : Node) (cluster : Cluster) (decision : GateDecision)
    (max_lag timeout_s : ℕ) (staging target_version : String) (allow_format : List String) where
  module _ (pre : Preflight) where
    attempt-IsSound :
        (install : Option InstallConfig) (builder : Option BuilderHost) (go : Bool) (w : World)
        → IsSound env staging max_lag timeout_s node install builder
            (attempt env node cluster decision max_lag timeout_s staging target_version allow_format
              pre install builder go w).0
    unfolding attempt
    attempt-IsSound none builder go w = tt
    attempt-IsSound (some install) none go w = tt
    attempt-IsSound (some install) (some builder) false w = tt
    attempt-IsSound (some install) (some builder) true w =
        IsDone-IsSound env staging max_lag timeout_s node install builder _ (
          execute_stages-IsDone env node cluster decision max_lag timeout_s staging target_version
            allow_format install builder w)

    pub is_planned-attempt :
        (install : Option InstallConfig) (builder : Option BuilderHost) (go : Bool) (w : World)
        → (go ≡ true → (is_some install ≡ true) × (is_some builder ≡ true))
        → is_planned
            (attempt env node cluster decision max_lag timeout_s staging target_version allow_format
              pre install builder go w).0
          ≡ not go
    unfolding attempt
    is_planned-attempt none builder true w h = cc ((h refl).0)
    is_planned-attempt none builder false w h = refl
    is_planned-attempt (some install) none true w h = cc ((h refl).1)
    is_planned-attempt (some install) none false w h = refl
    is_planned-attempt (some install) (some builder) false w h = refl
    is_planned-attempt (some install) (some builder) true w h =
        IsDone-finished env staging max_lag timeout_s node install builder _ (
          execute_stages-IsDone env node cluster decision max_lag timeout_s staging target_version
            allow_format install builder w)

module _ (env : Env) (fleet : Fleet) (max_lag timeout_s : ℕ) (staging : String)
    (allow_format : List String) (confirm : Bool) (node_name target_version : String) where
  pub provision_found-IsSound :
      (found : Found) (w : World)
      → IsSound env staging max_lag timeout_s found.2 found.1.install
          (find_builder fleet (builder_of found.1.install))
          (provision_found env fleet max_lag timeout_s staging allow_format confirm node_name
            target_version found w).0
  unfolding provision_found
  provision_found-IsSound (cluster_name, cluster, node) w =
      attempt-IsSound env node cluster _ max_lag timeout_s staging target_version allow_format _
        cluster.install _ _ _
