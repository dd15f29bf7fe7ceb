-- ===== src/Provision/Planned.antt =====
-- When `provision_node` of src/solfleet/provision.py goes past its plan.
use solfleet.Prelude.{
  ℕ, Bool, true, ◌&&◌, not, List, String, Option, is_some, is_empty, all, ◌≡◌, sym, ap, ◌∙◌, arith,
}
use solfleet.Safety.{failed_messages}
use solfleet.Safety.Gate.{passed, gate-allowed, is_empty-failed_messages}
use solfleet.Config.{Fleet, InstallConfig, BuilderHost}
use solfleet.Config.Find.{Found, find_builder}
use solfleet.Executor.{Env, World}
use solfleet.Operations.Upgrade.{builder_of}
use solfleet.Operations.Upgrade.Planned.{&&-right, is_some-builder_of}
use solfleet.Provision.{provision_plan}
use solfleet.Provision.Stages.{Preflight, preflight}
use solfleet.Provision.Run.{provision_checks, provision_found}
use solfleet.Provision.Started.{is_planned}
use solfleet.Provision.Sound.{is_planned-attempt}

provision_checks-builders :
    (pre : Preflight) (install : Option InstallConfig) (builder : Option BuilderHost)
    → all (provision_checks pre install builder) passed ≡ true
    → (is_some install ≡ true) × (is_some builder ≡ true)
provision_checks-builders pre install builder h =
    (is_some-builder_of install (ground arith), ground arith)

&&-true_right : (a b c : Bool) → (a && (b && (c && true))) ≡ (a && (b && c))
&&-true_right a b c = ground arith

all-provision_checks :
    (pre : Preflight) (install : Option InstallConfig) (builder : Option BuilderHost)
    → all (provision_checks pre install builder) passed
      ≡ (all pre.checks passed && (is_some (builder_of install) && is_some builder))
all-provision_checks pre install builder =
    &&-true_right (is_empty (failed_messages pre.checks)) (is_some (builder_of install))
      (is_some builder)
    ∙ ap (λ a. a && (is_some (builder_of install) && is_some builder))
        (is_empty-failed_messages pre.checks)

module _ (env : Env) (fleet : Fleet) (max_lag timeout_s : ℕ) (staging : String)
    (allow_format : List String) (confirm : Bool) (node_name target_version : String) where
  -- A provisioning of a known node goes past its plan exactly if it is confirmed, every check of the host
  -- passes, a builder is configured, and the fleet has it.
  provision_found-is_planned :
      (found : Found) (w : World)
      → is_planned
          (provision_found env fleet max_lag timeout_s staging allow_format confirm node_name
            target_version found w).0
        ≡ not (
            confirm
            && (all (preflight env found.2 w).0.checks passed
                && (is_some (builder_of found.1.install)
                    && is_some (find_builder fleet (builder_of found.1.install)))))
  unfolding provision_found
  provision_found-is_planned (cluster_name, cluster, node) w =
      let pre = (preflight env node w).0 in
      let builder = find_builder fleet (builder_of cluster.install) in
      let checks = provision_checks pre cluster.install builder in
      let allowed =
        gate-allowed "provision" cluster_name node_name (provision_plan node cluster target_version)
          checks confirm in
      is_planned-attempt env node cluster _ max_lag timeout_s staging target_version allow_format
        pre cluster.install builder _ _
        (λ go.
          provision_checks-builders pre cluster.install builder (sym allowed ∙ &&-right _ _ go))
      ∙ ap (λ a. not (confirm && a)) (allowed ∙ all-provision_checks pre cluster.install builder)
