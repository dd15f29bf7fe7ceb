-- ===== src/Builder.antt =====
-- src/solfleet/builder.py: what a build leaves on the builder, and the commands of a build. The commands
-- are run in Builder/Build, a builder is set up in Builder/Bootstrap.
pub mod Build
pub mod Offers
pub mod Kept
pub mod Bootstrap
use solfleet.Prelude.{
  Bool, List, [], ◌∷◌, ◌++◌, String, Option, none, some, map, truthy, if◌then◌else◌,
}
use solfleet.Prelude.Text.{Text, lit, str}
use solfleet.Prelude.Strings.{starts_with, rstrip_slashes}
use solfleet.Config.{InstallConfig, Source}
use solfleet.Executor.{CommandResult}

-- `AGAVE_BINS`, `GEYSER_LIB` and `BUILD_APT_PACKAGES`
abbrev pub agave_bins : List String
agave_bins = "agave-validator" ∷ "agave-ledger-tool" ∷ "solana" ∷ []

abbrev pub geyser_lib_name : String
geyser_lib_name = "libyellowstone_grpc_geyser.so"

abbrev pub build_apt_packages : List String
build_apt_packages =
    "build-essential" ∷ "pkg-config" ∷ "libssl-dev" ∷ "libudev-dev" ∷ "protobuf-compiler"
    ∷ "libclang-dev" ∷ "clang" ∷ "cmake" ∷ "jq" ∷ "git" ∷ "curl" ∷ []

pub record Artifact : Type 0 where
  pub name : String
  pub remote_path : Text
  pub sha256 : Option String

-- An entry of the log: the command and what it printed.
pub record LogEntry : Type 0 where
  pub command : Text
  pub result : CommandResult

-- `log_tail` is kept as the entries that its text shows.
pub record BuildResult : Type 0 where
  pub version : String
  pub source : Source
  pub out_dir : Text
  pub artifacts : List Artifact
  pub cached : Bool
  pub ok : Bool
  pub error : Option Text
  pub log_tail : List LogEntry

-- `_tag`
abbrev pub tag : String → Text
tag version = if starts_with "v" version then lit version else str "v" ∷ str version ∷ []

abbrev pub artifact_names : InstallConfig → List String
artifact_names install =
    if truthy install.geyser_repo then agave_bins ++ geyser_lib_name ∷ [] else agave_bins

abbrev or_empty : Option String → String
or_empty none = ""
or_empty (some s) = s

abbrev pub out_dir : InstallConfig → String → Text
out_dir install version = str (rstrip_slashes install.artifact_cache) ∷ str "/" ∷ str version ∷ []

abbrev copy_bin : Text → String → Text
copy_bin out b =
    str "cp " ∷ out ++ (str "/install/bin/" ∷ str b ∷ str " " ∷ out ++ (str "/" ∷ str b ∷ []))

abbrev geyser_commands : InstallConfig → Text → Text → List Text
geyser_commands install src out =
    (str "test -d " ∷ src
      ++ (str "/.git || git clone " ∷ str (or_empty install.geyser_repo) ∷ str " " ∷ src))
    ∷ (str "git -C " ∷ src ++ (str " fetch --tags origin" ∷ []))
    ∷ ((if truthy install.geyser_ref
          then (str "git -C " ∷ src ++ (str " checkout " ∷ str (or_empty install.geyser_ref) ∷ []))
            ∷ []
          else [])
        ++ ((str "cd " ∷ src ++ (str " && cargo build --release" ∷ []))
            ∷ (str "cp " ∷ src
                ++ (str "/target/release/" ∷ str geyser_lib_name ∷ str " " ∷ out
                    ++ (str "/" ∷ str geyser_lib_name ∷ [])))
            ∷ []))

-- The commands; the output directory is `out_dir`.
unfoldable pub build_commands : InstallConfig → String → List Text
unfolding starts_with rstrip_slashes
build_commands install version =
    let cache = rstrip_slashes install.artifact_cache in
    let out = out_dir install version in
    let agave_src : Text = str cache ∷ str "/src/agave" ∷ [] in
    (str "mkdir -p " ∷ out ++ (str " " ∷ str cache ∷ str "/src" ∷ []))
    ∷ (str "test -d " ∷ agave_src
        ++ (str "/.git || git clone " ∷ str install.agave_repo ∷ str " " ∷ agave_src))
    ∷ (str "git -C " ∷ agave_src ++ (str " fetch --tags origin" ∷ []))
    ∷ (str "git -C " ∷ agave_src ++ (str " checkout " ∷ tag version))
    ∷ (str "cd " ∷ agave_src
        ++ (str " && ./scripts/cargo-install-all.sh " ∷ out ++ (str "/install" ∷ [])))
    ∷ (map (copy_bin out) agave_bins
        ++ (if truthy install.geyser_repo
            then geyser_commands install (str cache ∷ str "/src/geyser" ∷ []) out
            else []))
