-- ===== src/Operations/Upgrade/Report.antt =====
-- The dicts of an upgrade, as `execute_upgrade` of src/solfleet/operations.py writes them to the audit log.
use solfleet.Prelude.{Bool, true, List, [], ◌∷◌, ◌++◌, String, map, length}
use solfleet.Prelude.Text.{Text, str}
use solfleet.Json
use solfleet.Json.{Json, object}
use solfleet.Config.{Source, agave, jito}
use solfleet.Builder.{Artifact, LogEntry, BuildResult}
use solfleet.Executor.Steps.{Step, Swap}
use solfleet.Operations.Report.{step_json}
use solfleet.Operations.Upgrade.Distribute.{
  Placement, skipped, placed, MarkerUpdate, no_marker, written,
}

abbrev source_json : Source → Json
source_json agave = Json.string "agave"
source_json jito = Json.string "jito"

abbrev artifact_json : Artifact → Json
artifact_json art = object (
    ("name", Json.string art.name)
    ∷ ("remote_path", Json.Json.text art.remote_path)
    ∷ ("sha256", Json.opt_string art.sha256)
    ∷ [])

-- The entries of the log one behind the other; the source strips each of the white space at its end.
abbrev log_text : List LogEntry → Text
log_text [] = []
log_text (e ∷ log) =
    str "$ " ∷ e.command
    ++ (str "\n" ∷ str e.result.stdout ∷ str e.result.stderr ∷ str "\n" ∷ log_text log)

-- `BuildResult.to_dict`
abbrev pub build_json : BuildResult → Json
build_json b = object (
    ("version", Json.string b.version)
    ∷ ("source", source_json b.source)
    ∷ ("out_dir", Json.Json.text b.out_dir)
    ∷ ("artifacts", Json.array (map artifact_json b.artifacts))
    ∷ ("cached", Json.Json.bool b.cached)
    ∷ ("ok", Json.Json.bool b.ok)
    ∷ ("error", Json.opt_text b.error)
    ∷ ("log_tail", Json.Json.text (log_text b.log_tail))
    ∷ [])

-- The shorter dict of a build whose artifacts were installed.
abbrev pub built_json : BuildResult → Json
built_json b = object (
    ("version", Json.string b.version)
    ∷ ("cached", Json.Json.bool b.cached)
    ∷ ("artifacts", Json.array (map (λ art. Json.string art.name) b.artifacts))
    ∷ [])

abbrev placement_json : Placement → Json
placement_json (skipped name) =
    object (("name", Json.string name) ∷ ("skipped", Json.string "no destination on target") ∷ [])
placement_json (placed p) = object (
    ("name", Json.string p.name)
    ∷ ("dest", Json.Json.text p.dest)
    ∷ ("staged", Json.Json.text p.staged)
    ∷ ("pull_ok", Json.Json.bool p.pull_ok)
    ∷ ("push_ok", Json.Json.bool p.push_ok)
    ∷ ("sha_match", Json.Json.bool p.sha_match)
    ∷ ("expected_sha", Json.opt_string p.expected_sha)
    ∷ ("got_sha", Json.opt_string p.got_sha)
    ∷ [])

abbrev pub placements_json : Bool → List Placement → List (String × Json)
placements_json ok placements =
    ("ok", Json.Json.bool ok) ∷ ("artifacts", Json.array (map placement_json placements)) ∷ []

-- The dict that `distribute` returns.
abbrev pub distribute_json : String → Bool → List Placement → Json
distribute_json staging ok placements = object (
    ("ok", Json.Json.bool ok)
    ∷ ("staging", Json.string staging)
    ∷ ("artifacts", Json.array (map placement_json placements))
    ∷ [])

abbrev pub swap_json : List Swap → Step → Json
swap_json swaps step =
    step_json (("action", Json.string "swap") ∷ ("count", Json.Json.int (length swaps)) ∷ []) step

abbrev pub marker_json : MarkerUpdate → Json
marker_json no_marker = object (("skipped", Json.Json.bool true) ∷ [])
marker_json (written ok value error) = object (
    ("ok", Json.Json.bool ok)
    ∷ ("value", Json.Json.text value)
    ∷ ("error", Json.opt_text error)
    ∷ [])
