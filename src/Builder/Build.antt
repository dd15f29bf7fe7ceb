-- ===== src/Builder/Build.antt =====
-- `build_artifacts` of src/solfleet/builder.py: a cached artifact set, or the commands one behind the other.
use solfleet.Prelude.{
  ℕ, ◌-◌, zero, suc, Bool, true, false, List, [], ◌∷◌, ◌++◌, String, none, some, map, length, ◌==◌,
  if◌then◌else◌,
}
use solfleet.Prelude.Text.{Text, str}
use solfleet.Prelude.Strings.{strip}
use solfleet.Config.{InstallConfig}
use solfleet.Executor.{CommandResult, exit_code_text, ok, Env, Action, ◌>>=◌, pure, Target, run}
use solfleet.Executor.Steps.{join_and, remote_sha256}
use solfleet.Builder.{Artifact, LogEntry, BuildResult, artifact_names, out_dir, build_commands}

abbrev pub artifact_path : Text → String → Text
artifact_path out name = out ++ (str "/" ∷ str name ∷ [])

abbrev test_file : Text → String → Text
test_file out name = str "test -f " ∷ artifact_path out name

abbrev drop : ℕ → List LogEntry → List LogEntry
drop zero log = log
drop (suc n) [] = []
drop (suc n) (e ∷ log) = drop n log

-- `log[-4:]`
abbrev last_four : List LogEntry → List LogEntry
last_four log = drop (length log - 4) log

-- `r.stderr.strip() or r.exit_code`
abbrev pub stderr_or_code : CommandResult → Text
stderr_or_code r =
    if strip r.stderr == "" then exit_code_text r.exit_code else str (strip r.stderr) ∷ []

-- How the loop over the commands ends: at the first that fails, or behind the last.
pub data BuildRun : Type 0 where
  built : List LogEntry → BuildRun
  stopped : Text → CommandResult → List LogEntry → BuildRun

module _ (env : Env) (builder : Target) where
  unfoldable pub collect : Text → List String → Action (List Artifact)
  unfolding remote_sha256
  collect out [] = pure []
  collect out (name ∷ names) = do
    sha ← remote_sha256 env builder (artifact_path out name)
    rest ← collect out names
    pure (record { name = name; remote_path = artifact_path out name; sha256 = sha } ∷ rest)

  unfoldable pub is_cached : Text → List String → Action Bool
  unfolding run
  is_cached out names = do r ← run env builder (join_and (map (test_file out) names)); pure (ok r)

  unfoldable pub run_build : List LogEntry → List Text → Action BuildRun
  unfolding run
  run_build log [] = pure (built log)
  run_build log (cmd ∷ cmds) = do
    r ← run env builder cmd
    let log' : List LogEntry = log ++ record { command = cmd; result = r } ∷ []
    elim (ok r) [ true ↦ run_build log' cmds | false ↦ pure (stopped cmd r log') ]

  module _ (install : InstallConfig) (version : String) where
    abbrev offered : Bool → List LogEntry → List Artifact → BuildResult
    offered cached log artifacts = record {
      version = version;
      source = install.source;
      out_dir = out_dir install version;
      artifacts = artifacts;
      cached = cached;
      ok = true;
      error = none;
      log_tail = last_four log;
    }

    abbrev build_failed : Text → CommandResult → List LogEntry → BuildResult
    build_failed cmd r log = record {
      version = version;
      source = install.source;
      out_dir = out_dir install version;
      artifacts = [];
      cached = false;
      ok = false;
      error = some (str "build step failed: " ∷ cmd ++ (str ": " ∷ stderr_or_code r));
      log_tail = last_four log;
    }

    unfoldable pub offer : Bool → List LogEntry → Action BuildResult
    unfolding collect
    offer cached log = do
      artifacts ← collect (out_dir install version) (artifact_names install)
      pure (offered cached log artifacts)

    unfoldable pub after_build : BuildRun → Action BuildResult
    unfolding offer
    after_build (built log) = offer false log
    after_build (stopped cmd r log) = pure (build_failed cmd r log)

    unfoldable pub build_anew : Action BuildResult
    unfolding run_build after_build build_commands
    build_anew = do finished ← run_build [] (build_commands install version); after_build finished

    -- `if not force and _is_cached(...)`; with `force` the cache is not asked.
    unfoldable pub build_artifacts : Bool → Action BuildResult
    unfolding is_cached offer build_anew
    build_artifacts true = build_anew
    build_artifacts false = do
      cached ← is_cached (out_dir install version) (artifact_names install)
      elim cached [ true ↦ offer true [] | false ↦ build_anew ]
