-- ===== src/Cli/Exits.antt =====
-- The exit codes of src/solfleet/cli.py, against what the operations did.
pub mod Bootstrap
use solfleet.Prelude.{
  ℕ, Bool, true, false, ◌&&◌, ◌≡◌, ◌↔◌, inl, inr, List, String, Option, none, some, Option-cases,
  arith,
}
use solfleet.Safety.{Policy, for_cluster}
use solfleet.Config.{Node, Fleet, InstallConfig, BuilderHost}
use solfleet.Config.Find.{find_node}
use solfleet.Executor.{Env, World}
use solfleet.Operations.{Reply, refused, reply}
use solfleet.Operations.Restart.{Outcome, planned, executed, cycle_ok}
use solfleet.Operations.Restart.Run.{restart_node}
use solfleet.Operations.Restart.Planned.{IsHonest, restart_found-IsHonest}
use solfleet.Operations.Upgrade.Distribute.{version_matches}
use solfleet.Operations.Upgrade.Execute as Execute
use solfleet.Operations.Upgrade.Execute.{Upgrade}
use solfleet.Operations.Upgrade.Run.{execute_upgrade}
use solfleet.Operations.Upgrade.Sound as Sound
use solfleet.Provision.Report as Report
use solfleet.Provision.Report.{Provisioned}
use solfleet.Provision.Run.{all_succeeded, provision_node}
use solfleet.Provision.Sound as Complete
use solfleet.Cli.Operate.{
  cmd_restart, cmd_upgrade, cmd_provision, exit_code, restart_succeeded, upgrade_succeeded,
  provision_succeeded,
}

-- A restart that was executed, without an error and with the node caught up.
abbrev pub IsRestarted : Reply Outcome → Type 0
IsRestarted (refused e) = ⊥
IsRestarted (reply (planned decision before leader)) = ⊥
IsRestarted (reply (executed r)) = (cycle_ok r.cycle ≡ true) × (r.catchup.caught_up ≡ true)

restart_code :
    (outcome : Outcome)
    → IsHonest 2 outcome
    → (exit_code false true (restart_succeeded (reply outcome)) ≡ 0) ↔ IsRestarted (reply outcome)
restart_code (planned decision before leader) h = (λ e. omega (arith, e), λ f. elim f [ ])
restart_code (executed r) h =
    (λ e. (ground (arith, h.1, e), ground (arith, h.1, e)), λ f. ground (arith, h.1, f.0, f.1))

-- A confirmed restart command ends with exit code 0 exactly if the restart was executed, the service
-- cycled without an error, and the node was found caught up.
pub cmd_restart-zero :
    (env : Env) (fleet : Fleet) (policy : Policy) (node_name : String) (w : World)
    → ((cmd_restart env fleet policy node_name true w).0.code ≡ 0)
      ↔ IsRestarted (cmd_restart env fleet policy node_name true w).0.printed
unfolding cmd_restart restart_node
cmd_restart-zero env fleet policy node_name w = elim (Option-cases (find_node fleet node_name)) [
  | inl absent ↦ rw absent (λ e. omega (arith, e), λ f. elim f [ ])
  | inr ((cluster_name, cluster, node), found) ↦ rw found (
      restart_code _ (
        restart_found-IsHonest env (for_cluster policy cluster_name) 2 true node_name cluster_name
          cluster node w))
]

-- An upgrade that went to its end: the files were swapped, the service cycled, the node caught up, and it
-- reports the version.
abbrev pub IsUpgraded : String → Reply Upgrade → Type 0
IsUpgraded version (refused e) = ⊥
IsUpgraded version (reply (Execute.planned decision before)) = ⊥
IsUpgraded version (reply (Execute.unbuilt decision build)) = ⊥
IsUpgraded version (reply (Execute.unverified decision build placements)) = ⊥
IsUpgraded version (reply (Execute.upgraded u)) =
    (u.swap.ok ≡ true)
    × (cycle_ok u.cycle ≡ true)
    × (u.catchup.caught_up ≡ true)
    × (version_matches u.reported_version version ≡ true)

upgrade_code :
    (env : Env) (staging : String) (node : Node) (version : String) (install : Option InstallConfig)
    (builder : Option BuilderHost) (outcome : Upgrade)
    → Sound.IsSound env staging node 2 version install builder outcome
    → (exit_code false true (upgrade_succeeded (reply outcome)) ≡ 0)
      ↔ IsUpgraded version (reply outcome)
upgrade_code env staging node version install builder (Execute.planned decision before) h =
    (λ e. omega (arith, e), λ f. elim f [ ])
upgrade_code env staging node version install builder (Execute.unbuilt decision build) h =
    (λ e. omega (arith, e), λ f. elim f [ ])
upgrade_code env staging node version install builder (Execute.unverified decision build placements)
      h =
    (λ e. omega (arith, e), λ f. elim f [ ])
upgrade_code env staging node version install builder (Execute.upgraded u) (_, _, _, _, h) = (
  λ e. (ground (arith, h, e), ground (arith, h, e), ground (arith, h, e), ground (arith, h, e)),
  λ (f0, f1, f2, f3). ground (arith, h, f0, f1, f2, f3),
)

-- A confirmed upgrade command ends with exit code 0 exactly if the upgrade went to its end, with the files
-- swapped, the service cycled, the node caught up, and a reported version that matches the target.
pub cmd_upgrade-zero :
    (env : Env) (fleet : Fleet) (policy : Policy) (staging node_name version : String)
    (force : Bool) (w : World)
    → ((cmd_upgrade env fleet policy staging node_name version force true w).0.code ≡ 0)
      ↔ IsUpgraded version
          (cmd_upgrade env fleet policy staging node_name version force true w).0.printed
unfolding cmd_upgrade execute_upgrade
cmd_upgrade-zero env fleet policy staging node_name version force w =
    elim (Option-cases (find_node fleet node_name)) [
      | inl absent ↦ rw absent (λ e. omega (arith, e), λ f. elim f [ ])
      | inr (found, e) ↦ rw e (
          upgrade_code env staging found.2 version found.1.install _ _ (
            Sound.upgrade_found-IsSound env fleet policy 2 staging force true node_name version
              found w))
    ]

-- A provisioning that went to its end with every stage done.
abbrev pub IsProvisioned : Reply Provisioned → Type 0
IsProvisioned (refused e) = ⊥
IsProvisioned (reply (Report.planned decision pre)) = ⊥
IsProvisioned (reply (Report.finished decision steps succeeded message)) =
    all_succeeded steps ≡ true

provision_code :
    (env : Env) (staging : String) (timeout_s : ℕ) (node : Node) (install : Option InstallConfig)
    (builder : Option BuilderHost) (outcome : Provisioned)
    → Complete.IsSound env staging 2 timeout_s node install builder outcome
    → (exit_code false true (provision_succeeded (reply outcome)) ≡ 0)
      ↔ IsProvisioned (reply outcome)
provision_code env staging timeout_s node install builder (Report.planned decision pre) h =
    (λ e. omega (arith, e), λ f. elim f [ ])
provision_code env staging timeout_s node none builder
      (Report.finished decision steps succeeded message) h =
    elim h [ ]
provision_code env staging timeout_s node (some install) none
      (Report.finished decision steps succeeded message) h =
    elim h [ ]
provision_code env staging timeout_s node (some install) (some builder)
      (Report.finished decision steps succeeded message) h =
    (λ e. ground (arith, h.0, e), λ f. ground (arith, h.0, f))

pub cmd_provision-zero :
    (env : Env) (fleet : Fleet) (policy : Policy) (staging node_name version : String)
    (format_device : List String) (timeout_s : ℕ) (w : World)
    → ((cmd_provision env fleet policy staging node_name version format_device timeout_s true
          w).0.code
        ≡ 0)
      ↔ IsProvisioned
          (cmd_provision env fleet policy staging node_name version format_device timeout_s true
            w).0.printed
unfolding cmd_provision provision_node
cmd_provision-zero env fleet policy staging node_name version format_device timeout_s w =
    elim (Option-cases (find_node fleet node_name)) [
      | inl absent ↦ rw absent (λ e. omega (arith, e), λ f. elim f [ ])
      | inr (found, e) ↦ rw e (
          provision_code env staging timeout_s found.2 found.1.install _ _ (
            Complete.provision_found-IsSound env fleet 2 timeout_s staging format_device true
              node_name version found w))
    ]
