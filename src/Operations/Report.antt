-- ===== src/Operations/Report.antt =====
-- The dicts that src/solfleet/executor.py and src/solfleet/schedule.py return, as src/solfleet/operations.py
-- writes them to the audit log.
use solfleet.Prelude.{ℕ, Bool, List, [], ◌∷◌, ◌++◌, String, Option, none, some, map}
use solfleet.Json
use solfleet.Json.{Json, object}
use solfleet.Schedule.{LeaderReport, Window}
use solfleet.Config.{Node}
use solfleet.Executor.{Sample}
use solfleet.Executor.Inspect.{ServiceState, VersionInfo, DiskRow, usage, missing, Inspection}
use solfleet.Executor.Steps.{Step}
use solfleet.Operations.Catchup.{CatchUp}

abbrev opt_bool : Option Bool → Json
opt_bool none = Json.Json.null
opt_bool (some b) = Json.Json.bool b

abbrev opt_tenths : Option ℕ → Json
opt_tenths none = Json.Json.null
opt_tenths (some n) = Json.Json.tenths n

abbrev pub service_json : ServiceState → Json
service_json s = object (
    ("unit", Json.string s.unit)
    ∷ ("active", Json.opt_string s.active)
    ∷ ("sub", Json.opt_string s.sub)
    ∷ ("user", Json.opt_string s.user)
    ∷ ("started_at", Json.opt_string s.started_at)
    ∷ ("ok", Json.Json.bool s.ok)
    ∷ ("error", Json.opt_text s.error)
    ∷ [])

abbrev version_json : VersionInfo → Json
version_json v = object (
    ("binary", Json.string v.binary)
    ∷ ("binary_version", Json.opt_string v.binary_version)
    ∷ ("marker_version", Json.opt_string v.marker_version)
    ∷ ("ok", Json.Json.bool v.ok)
    ∷ ("error", Json.opt_text v.error)
    ∷ [])

abbrev disk_json : DiskRow → Json
disk_json (usage filesystem size used avail use_pct path) = object (
    ("filesystem", Json.string filesystem)
    ∷ ("size", Json.string size)
    ∷ ("used", Json.string used)
    ∷ ("avail", Json.string avail)
    ∷ ("use_pct", Json.string use_pct)
    ∷ ("path", Json.string path)
    ∷ [])
disk_json (missing path error) =
    object (("path", Json.string path) ∷ ("error", Json.opt_text error) ∷ [])

abbrev pub inspection_json : Inspection → Json
inspection_json i = object (
    ("name", Json.string i.name)
    ∷ ("host", Json.string i.host)
    ∷ ("service", service_json i.service)
    ∷ ("version", version_json i.version)
    ∷ ("disk", Json.array (map disk_json i.disk))
    ∷ [])

-- The dict of a step: the fields that say which step it was, and its outcome.
abbrev pub step_json : List (String × Json) → Step → Json
step_json which step =
    object (which ++ (("ok", Json.Json.bool step.ok) ∷ ("error", Json.opt_text step.error) ∷ []))

abbrev pub service_step_json : String → Node → Step → Json
service_step_json verb node step =
    step_json (("action", Json.string verb) ∷ ("unit", Json.string node.service.unit) ∷ []) step

abbrev pub safe_exit_json : ℕ → Step → Json
safe_exit_json min_idle_minutes step =
    step_json
      (("action", Json.string "safe_exit")
        ∷ ("min_idle_minutes", Json.Json.int min_idle_minutes)
        ∷ [])
      step

-- The fields of the last sample, `**last`; there is none before the first sample.
abbrev sample_fields : Option Sample → List (String × Json)
sample_fields none = []
sample_fields (some s) =
    ("healthy", opt_bool s.healthy)
    ∷ ("node_slot", Json.opt_int s.node_slot)
    ∷ ("ref_slot", Json.opt_int s.ref_slot)
    ∷ ("lag", Json.opt_int s.lag)
    ∷ []

abbrev pub catchup_json : CatchUp → Json
catchup_json c = object (
    ("caught_up", Json.Json.bool c.caught_up)
    ∷ ("waited_s", Json.Json.int c.waited_s)
    ∷ sample_fields c.sample)

abbrev window_json : Window → Json
window_json w = object (
    ("start_slot", Json.Json.int w.start_slot)
    ∷ ("end_slot", Json.Json.int w.end_slot)
    ∷ ("slots", Json.Json.int w.slots)
    ∷ [])

abbrev pub leader_json : Option LeaderReport → Json
leader_json none = Json.Json.null
leader_json (some r) = object (
    ("identity", Json.string r.identity)
    ∷ ("epoch", Json.Json.int r.epoch)
    ∷ ("current_slot", Json.Json.int r.current_slot)
    ∷ ("leads_this_epoch", Json.Json.int r.leads_this_epoch)
    ∷ ("next_leader_slot", Json.opt_int r.next_leader_slot)
    ∷ ("seconds_to_next_leader", opt_tenths r.tenths_to_next_leader)
    ∷ ("safe_now", Json.Json.bool r.safe_now)
    ∷ ("min_window_minutes", Json.Json.int r.min_window_minutes)
    ∷ ("windows", Json.array (map window_json r.windows))
    ∷ [])
