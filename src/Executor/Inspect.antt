-- ===== src/Executor/Inspect.antt =====
-- The read-only steps of src/solfleet/executor.py.
use solfleet.Prelude.{
  Bool, List, [], ◌∷◌, ◌++◌, String, Option, none, some, ◌==◌, truthy, if◌then◌else◌,
}
use solfleet.Prelude.Text.{Text, str}
use solfleet.Prelude.Dict.{Dict, lookup, insert}
use solfleet.Prelude.Strings.{strip, split, splitlines, partition_eq}
use solfleet.Config.{Node}
use solfleet.Executor.{CommandResult, ok, Env, Action, ◌>>=◌, pure, node_target, run, error_text}

-- `if "=" in line: k, _, v = line.partition("="); state[k] = v`
abbrev set_line : Dict String → Option (String × String) → Dict String
set_line state none = state
set_line state (some (k, v)) = insert k v state

unfoldable pub key_values : Dict String → List String → Dict String
unfolding insert partition_eq
key_values state [] = state
key_values state (line ∷ lines) = key_values (set_line state (partition_eq line)) lines

-- `x or None` of a `str | None`
abbrev pub or_none : Option String → Option String
or_none x = if truthy x then x else none

pub record ServiceState : Type 0 where
  pub unit : String
  pub active : Option String
  pub sub : Option String
  pub user : Option String
  pub started_at : Option String
  pub ok : Bool
  pub error : Option Text

pub record VersionInfo : Type 0 where
  pub binary : String
  pub binary_version : Option String
  pub marker_version : Option String
  pub ok : Bool
  pub error : Option Text

-- A row of `df`, or of a path that `df` could not report.
pub data DiskRow : Type 0 where
  usage : (filesystem size used avail use_pct path : String) → DiskRow
  missing : (path : String) (error : Option Text) → DiskRow

pub record Inspection : Type 0 where
  pub name : String
  pub host : String
  pub service : ServiceState
  pub version : VersionInfo
  pub disk : List DiskRow

abbrev second_word : List String → Option String
second_word (a ∷ b ∷ ws) = some b
second_word _ = none

-- The columns of a line of `df`, if there are six.
abbrev disk_row : List String → List DiskRow
disk_row (a ∷ b ∷ c ∷ d ∷ e ∷ f ∷ _) = usage a b c d e f ∷ []
disk_row _ = []

abbrev disk_rows : List String → List DiskRow
disk_rows [] = []
disk_rows (line ∷ lines) = disk_row (split line) ++ disk_rows lines

abbrev skip_header : List String → List String
skip_header [] = []
skip_header (line ∷ lines) = lines

unfoldable pub service_answer : Node → CommandResult → ServiceState
unfolding key_values splitlines lookup error_text
service_answer node r =
    let state = key_values [] (splitlines r.stdout) in
    record {
      unit = node.service.unit;
      active = lookup "ActiveState" state;
      sub = lookup "SubState" state;
      user = lookup "User" state;
      started_at = or_none (lookup "ExecMainStartTimestamp" state);
      ok = ok r;
      error = error_text r;
    }

abbrev marker_answer : CommandResult → Option String
marker_answer m = if ok m then or_none (some (strip m.stdout)) else none

unfoldable pub version_answer : Node → CommandResult → Option String → VersionInfo
unfolding split strip error_text
version_answer node r marker = record {
  binary = node.service.binary;
  binary_version = if ok r then second_word (split r.stdout) else none;
  marker_version = marker;
  ok = ok r;
  error = error_text r;
}

unfoldable pub disk_answer : Node → CommandResult → List DiskRow
unfolding split splitlines error_text
disk_answer node r =
    if ok r
    then disk_rows (skip_header (splitlines r.stdout))
    else missing node.service.ledger (error_text r)
      ∷ missing node.service.accounts (error_text r)
      ∷ []

module _ (env : Env) (node : Node) where
  unfoldable pub service_state : Action ServiceState
  unfolding run service_answer
  service_state = do
    r ← run env (node_target node) (
        str "systemctl show "
        ∷ str node.service.unit
        ∷ str " -p ActiveState,SubState,ExecMainStartTimestamp,User --no-pager"
        ∷ [])
    pure (service_answer node r)

  -- The version-marker file is read only if one is configured.
  abbrev pub read_marker : Option String → Action (Option String)
  read_marker none = pure none
  read_marker (some path) =
      if path == ""
      then pure none
      else do m ← run env (node_target node) (str "cat " ∷ str path ∷ []); pure (marker_answer m)

  unfoldable pub installed_version : Action VersionInfo
  unfolding run version_answer
  installed_version = do
    r ← run env (node_target node) (str node.service.binary ∷ str " --version" ∷ [])
    marker ← read_marker node.service.version_marker
    pure (version_answer node r marker)

  unfoldable pub disk_usage : Action (List DiskRow)
  unfolding run disk_answer
  disk_usage = do
    r ←
        run env (node_target node)
          (str "df -P -BG " ∷ str node.service.ledger ∷ str " " ∷ str node.service.accounts ∷ [])
    pure (disk_answer node r)

  -- All read-only steps for one node.
  unfoldable pub inspect_node : Action Inspection
  unfolding service_state installed_version disk_usage
  inspect_node = do
    service ← service_state
    version ← installed_version
    disk ← disk_usage
    pure (record {
      name = node.name;
      host = node.host;
      service = service;
      version = version;
      disk = disk;
    })
