-- ===== src/Builder/Bootstrap.antt =====
-- `bootstrap_builder` of src/solfleet/builder.py: the toolchain of a build host.
use solfleet.Prelude.{
  Bool, true, ◌&&◌, ◌||◌, List, [], ◌∷◌, ◌++◌, String, Option, none, some, select, sorted_set, ◌==◌,
  if◌then◌else◌,
}
use solfleet.Prelude.Text.{Text, lit, str, strs, repr}
use solfleet.Prelude.Dict.{keys}
use solfleet.Prelude.Strings.{strip, splitlines, contains, last_chars}
use solfleet.Json
use solfleet.Json.{object}
use solfleet.Safety.{Mode, execute, GateDecision, gate, decision_json}
use solfleet.Audit.{Entry}
use solfleet.Config.{BuilderHost, Fleet}
use solfleet.Config.Find.{find_builder}
use solfleet.Executor.{
  CommandResult, exit_text, ok, Env, Action, ◌>>=◌, ◌>>◌, pure, record_audit, builder_target, run,
}
use solfleet.Builder.{build_apt_packages}

abbrev spaced : List String → String → Text
spaced [] sep = []
spaced (x ∷ []) sep = str x ∷ []
spaced (x ∷ y ∷ xs) sep = str x ∷ str sep ∷ spaced (y ∷ xs) sep

-- The steps, each a line of the script.
abbrev pub bootstrap_commands : List Text
bootstrap_commands =
    lit "DEBIAN_FRONTEND=noninteractive apt-get update -qq"
    ∷ (str "DEBIAN_FRONTEND=noninteractive apt-get install -y -qq " ∷ spaced build_apt_packages " ")
    ∷ (str "command -v rustup >/dev/null 2>&1 || "
        ∷ str
            "curl --proto '=https' --tlsv1.2 -sSf https://sh.rustup.rs | sh -s -- -y --profile minimal"
        ∷ [])
    ∷ lit "ln -sf \"$HOME/.cargo/bin/cargo\" /usr/local/bin/cargo"
    ∷ lit "ln -sf \"$HOME/.cargo/bin/rustc\" /usr/local/bin/rustc"
    ∷ lit "ln -sf \"$HOME/.cargo/bin/rustup\" /usr/local/bin/rustup"
    ∷ (str "for c in /usr/lib/llvm-*/lib/libclang.so /usr/lib/*/libclang-[0-9]*.so; do "
        ∷ str
            "[ -e \"$c\" ] && ln -sf \"$c\" /usr/lib/x86_64-linux-gnu/libclang.so && break; done || true"
        ∷ [])
    ∷ lit "ldconfig"
    ∷ []

-- `"\n".join(lines)`
abbrev pub join_lines : List Text → Text
join_lines [] = []
join_lines (line ∷ []) = line
join_lines (line ∷ next ∷ lines) = line ++ (str "\n" ∷ join_lines (next ∷ lines))

abbrev bootstrap_script : Text
bootstrap_script =
    str "set -e\n" ∷ join_lines bootstrap_commands
    ++ (str "\necho BOOTSTRAP_OK\ncargo --version; rustc --version; protoc --version" ∷ [])

abbrev bootstrap_plan : List Text
bootstrap_plan =
    (str "apt install: " ∷ spaced build_apt_packages ", ")
    ∷ lit "install rustup (Rust toolchain) if missing"
    ∷ lit "symlink cargo/rustc/rustup into /usr/local/bin (non-interactive PATH)"
    ∷ lit "expose libclang.so for clang-sys; ldconfig"
    ∷ []

pub record Bootstrapped : Type 0 where
  pub decision : GateDecision
  pub ok : Bool
  pub versions : List String
  pub error : Option Text

-- A returned dict: an unknown builder with the known ones, a plan, or the result.
pub data Bootstrap : Type 0 where
  unknown : Text → Bootstrap
  planned : GateDecision → List String → Bootstrap
  bootstrapped : Bootstrapped → Bootstrap

abbrev unknown_builder_text : String → Fleet → Text
unknown_builder_text name fleet =
    str "unknown builder "
    ∷ repr (some name)
    ∷ str "; known: "
    ∷ strs (sorted_set (keys fleet.builders))
    ∷ []

abbrev mentions_version : String → Bool
mentions_version line =
    contains "cargo " line || (contains "rustc " line || contains "libprotoc" line)

abbrev bootstrap_error : CommandResult → Text
bootstrap_error r =
    if last_chars 500 (strip r.stderr) == ""
    then exit_text r.exit_code
    else lit (last_chars 500 (strip r.stderr))

abbrev bootstrap_result : GateDecision → CommandResult → Bootstrapped
bootstrap_result decision r =
    let done = ok r && contains "BOOTSTRAP_OK" r.stdout in
    record {
      decision = decision;
      ok = done;
      versions = select mentions_version (splitlines r.stdout);
      error = if done then none else some (bootstrap_error r);
    }

abbrev bootstrap_entry : String → Mode → Bool → Json.Json → Entry
bootstrap_entry name mode allowed detail = record {
  operation = "bootstrap_builder";
  cluster = "builders";
  node = name;
  mode = mode;
  allowed = allowed;
  detail = some detail;
}

abbrev plan_json : GateDecision → Json.Json
plan_json decision = object (
    ("plan", Json.texts decision.plan)
    ∷ ("packages", Json.strings build_apt_packages)
    ∷ ("reasons", Json.texts decision.reasons)
    ∷ [])

abbrev bootstrapped_json : Bootstrapped → Json.Json
bootstrapped_json b = object (
    ("decision", decision_json b.decision)
    ∷ ("ok", Json.Json.bool b.ok)
    ∷ ("versions", Json.strings b.versions)
    ∷ ("error", Json.opt_text b.error)
    ∷ [])

-- The dict that is returned.
abbrev pub returned : Bootstrap → Json.Json
returned (unknown error) = object (("error", Json.Json.text error) ∷ [])
returned (planned decision packages) =
    object (("decision", decision_json decision) ∷ ("packages", Json.strings packages) ∷ [])
returned (bootstrapped b) = bootstrapped_json b

module _ (env : Env) (name : String) where
  abbrev keep : Mode → Bool → Json.Json → Bootstrap → Action Bootstrap
  keep mode allowed detail result = do
    record_audit (bootstrap_entry name mode allowed detail)
    pure result

  unfoldable pub run_bootstrap : GateDecision → BuilderHost → Action Bootstrap
  unfolding run strip contains splitlines last_chars
  run_bootstrap decision builder = do
    r ← run env (builder_target builder) bootstrap_script
    let result : Bootstrapped = bootstrap_result decision r
    keep execute true (bootstrapped_json result) (bootstrapped result)

  unfoldable pub bootstrap_found : Bool → BuilderHost → Action Bootstrap
  unfolding run gate run_bootstrap
  bootstrap_found confirm builder = do
    reached ← run env (builder_target builder) (lit "true")
    let decision : GateDecision =
        gate "bootstrap_builder" "builders" name confirm bootstrap_plan
          ((ok reached, lit "builder not reachable over SSH") ∷ [])
    if confirm && decision.allowed
        then run_bootstrap decision builder
        else keep decision.mode decision.allowed (plan_json decision)
            (planned decision build_apt_packages)

  unfoldable pub bootstrap_from : Bool → Fleet → Option BuilderHost → Action Bootstrap
  unfolding bootstrap_found
  bootstrap_from confirm fleet none = pure (unknown (unknown_builder_text name fleet))
  bootstrap_from confirm fleet (some builder) = bootstrap_found confirm builder

  unfoldable pub bootstrap_builder : Bool → Fleet → Action Bootstrap
  unfolding bootstrap_from find_builder
  bootstrap_builder confirm fleet = bootstrap_from confirm fleet (find_builder fleet (some name))
