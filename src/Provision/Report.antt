-- ===== src/Provision/Report.antt =====
-- The dicts of src/solfleet/provision.py that are recorded in the audit log.
use solfleet.Prelude.{Bool, true, false, List, [], ◌∷◌, ◌++◌, String, Option, none, some, map}
use solfleet.Prelude.Text.{Text}
use solfleet.Prelude.Dict.{keys}
use solfleet.Json
use solfleet.Json.{Json, object}
use solfleet.Safety.{GateDecision, decision_json, Mode, execute}
use solfleet.Audit.{Entry}
use solfleet.Config.{Node}
use solfleet.Builder.{BuildResult}
use solfleet.Executor.Steps.{Step}
use solfleet.Operations.Catchup.{CatchUp}
use solfleet.Operations.Report.{step_json, service_step_json, catchup_json}
use solfleet.Operations.Upgrade.Distribute.{Placement, verified_swaps}
use solfleet.Operations.Upgrade.Report.{placements_json, swap_json}
use solfleet.Provision.{fs_name}
use solfleet.Provision.Stages.{Preflight, blockers, unit_path, KeyCheck}
use solfleet.Provision.Disks.{DiskStep, in_memory, rejected, prepared}

-- The dict `steps`: the keys of the stages that were not reached are absent.
pub record Steps : Type 0 where
  pub user : Step
  pub system : Step
  pub disks : List DiskStep
  pub build : Option BuildResult
  pub distribution : Option (Bool × List Placement)
  pub swap : Option Step
  pub unit : Option Step
  pub identity : Option KeyCheck
  pub vote_key : Option KeyCheck
  pub start : Option Step
  pub catchup : Option CatchUp

-- What is returned: a plan, or the steps with whether they succeeded and a note.
pub data Provisioned : Type 0 where
  planned : GateDecision → Preflight → Provisioned
  finished : GateDecision → Steps → Bool → Option String → Provisioned

abbrev check_json : Bool × Text → Json
check_json (ok, detail) =
    object (("ok", Json.Json.bool ok) ∷ ("detail", Json.Json.text detail) ∷ [])

abbrev info_field : String × String → String × Json
info_field (k, v) = (k, Json.string v)

abbrev preflight_json : Preflight → Json
preflight_json pre = object (
    ("info", object (map info_field pre.info))
    ∷ ("checks", Json.array (map check_json pre.checks))
    ∷ ("blockers", Json.texts (blockers pre))
    ∷ [])

abbrev user_json : Node → Step → Json
user_json node step =
    step_json
      (("action", Json.string "ensure_user") ∷ ("user", Json.string node.service.run_user) ∷ [])
      step

abbrev system_json : Node → Step → Json
system_json node step =
    step_json
      (("action", Json.string "apply_system")
        ∷ ("open_files", Json.Json.int node.system.open_files)
        ∷ ("sysctl_keys", Json.strings (keys node.system.sysctl))
        ∷ ("governor", Json.opt_string node.system.cpu_governor)
        ∷ [])
      step

abbrev disk_step_json : DiskStep → Json
disk_step_json (in_memory mount step) =
    step_json
      (("action", Json.string "setup_disk")
        ∷ ("mount", Json.string mount)
        ∷ ("fs", Json.string "tmpfs")
        ∷ ("formatted", Json.Json.bool false)
        ∷ [])
      step
disk_step_json (rejected mount error) = object (
    ("action", Json.string "setup_disk")
    ∷ ("mount", Json.string mount)
    ∷ ("ok", Json.Json.bool false)
    ∷ ("error", Json.Json.text error)
    ∷ [])
disk_step_json (prepared disk formatted was_empty step) =
    step_json
      (("action", Json.string "setup_disk")
        ∷ ("mount", Json.string disk.mount)
        ∷ ("device", Json.string disk.device)
        ∷ ("fs", Json.string (fs_name disk.fs))
        ∷ ("formatted", Json.Json.bool formatted)
        ∷ ("was_empty", Json.Json.bool was_empty)
        ∷ [])
      step

abbrev unit_json : Node → Step → Json
unit_json node step =
    step_json
      (("action", Json.string "install_unit") ∷ ("path", Json.Json.text (unit_path node)) ∷ []) step

abbrev identity_json : KeyCheck → Json
identity_json key = object (
    ("action", Json.string "check_identity_key")
    ∷ ("path", Json.opt_string key.path)
    ∷ ("present", Json.Json.bool key.present)
    ∷ ("note", Json.string "solfleet never creates keys; place the identity keypair here")
    ∷ [])

abbrev vote_key_json : KeyCheck → Json
vote_key_json key = object (
    ("action", Json.string "check_vote_key")
    ∷ ("path", Json.opt_string key.path)
    ∷ ("present", Json.Json.bool key.present)
    ∷ elim key.path [
      | none ↦ ("note", Json.string "voting node has no service.vote_account_keypair set") ∷ []
      | some path ↦ []
    ])

-- A key that stands only if its stage was reached.
abbrev reached {ℓ} : {A : Type ℓ} → String → (A → Json) → Option A → List (String × Json)
reached key to_json none = []
reached key to_json (some a) = (key, to_json a) ∷ []

abbrev build_result_json : BuildResult → Json
build_result_json build = object (
    ("ok", Json.Json.bool build.ok)
    ∷ ("cached", Json.Json.bool build.cached)
    ∷ ("error", Json.opt_text build.error)
    ∷ [])

abbrev distribution_json : Bool × List Placement → Json
distribution_json (ok, placements) = object (placements_json ok placements)

abbrev placements_of : Option (Bool × List Placement) → List Placement
placements_of none = []
placements_of (some (ok, placements)) = placements

abbrev steps_json : Node → Steps → Json
steps_json node steps = object (
    ("user", user_json node steps.user)
    ∷ ("system", system_json node steps.system)
    ∷ ("disks", Json.array (map disk_step_json steps.disks))
    ∷ (reached "build" build_result_json steps.build
        ++ (reached "distribute" distribution_json steps.distribution
            ++ (reached "swap" (swap_json (verified_swaps (placements_of steps.distribution)))
                  steps.swap
                ++ (reached "unit" (unit_json node) steps.unit
                    ++ (reached "identity" identity_json steps.identity
                        ++ (reached "vote_key" vote_key_json steps.vote_key
                            ++ (reached "start" (service_step_json "start" node) steps.start
                                ++ reached "catchup" catchup_json steps.catchup))))))))

abbrev note_field : Option String → List (String × Json)
note_field none = []
note_field (some note) = ("note", Json.string note) ∷ []

abbrev provision_entry : String → String → Mode → Bool → Json → Entry
provision_entry cluster node mode allowed detail = record {
  operation = "provision";
  cluster = cluster;
  node = node;
  mode = mode;
  allowed = allowed;
  detail = some detail;
}

-- The entry that each outcome is recorded with.
abbrev pub entry_of : Node → String → String → Provisioned → Entry
entry_of node cluster_name node_name (planned decision pre) =
    provision_entry cluster_name node_name decision.mode decision.allowed (
      object (
        ("plan", Json.texts decision.plan)
        ∷ ("reasons", Json.texts decision.reasons)
        ∷ ("preflight", preflight_json pre)
        ∷ []))
entry_of node cluster_name node_name (finished decision steps succeeded note) =
    provision_entry cluster_name node_name execute true (
      object (
        ("decision", decision_json decision)
        ∷ ("steps", steps_json node steps)
        ∷ ("succeeded", Json.Json.bool succeeded)
        ∷ note_field note))
