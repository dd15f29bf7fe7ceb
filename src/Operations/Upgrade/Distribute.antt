-- ===== src/Operations/Upgrade/Distribute.antt =====
-- `distribute`, `_version_matches` and `_update_marker` of src/solfleet/operations.py. The directory of
-- `tempfile.mkdtemp` is a parameter.
use solfleet.Prelude.{
  Bool, true, false, ◌&&◌, ◌||◌, List, [], ◌∷◌, ◌++◌, String, Option, none, some, mem, ◌==◌,
  if◌then◌else◌,
}
use solfleet.Prelude.Text.{Text, lit, str}
use solfleet.Prelude.Strings.{lstrip_char, starts_with}
use solfleet.Config.{Node}
use solfleet.Builder.{Artifact, agave_bins}
use solfleet.Executor.{ok, Env, Action, ◌>>=◌, pure, Target, node_target, run, error_text}
use solfleet.Executor.Steps.{Swap, scp_from, scp_to, remote_sha256}
use solfleet.Operations.Upgrade.{dest_for}

pub record Placed : Type 0 where
  pub name : String
  pub dest : Text
  pub staged : Text
  pub pull_ok : Bool
  pub push_ok : Bool
  pub sha_match : Bool
  pub expected_sha : Option String
  pub got_sha : Option String

-- An element of `results`.
pub data Placement : Type 0 where
  skipped : String → Placement
  placed : Placed → Placement

-- `got is not None and expected is not None and got == expected`
abbrev pub same_sha : Option String → Option String → Bool
same_sha (some got) (some expected) = got == expected
same_sha _ _ = false

-- `os.path.join(staging, name)` of a name that is relative and a directory that does not end in `/`.
abbrev joined : String → String → Text
joined staging name = str staging ∷ str "/" ∷ str name ∷ []

-- The element keeps `ok`, or clears it.
abbrev pub keeps_ok : Placement → Bool
keeps_ok (skipped _) = true
keeps_ok (placed p) = p.pull_ok && p.push_ok && p.sha_match

module _ (env : Env) (builder : Target) (target : Node) (staging : String) where
  -- The body of the loop from the destination of the artifact.
  unfoldable pub place_at : Artifact → Option Text → Action Placement
  unfolding scp_from scp_to remote_sha256
  place_at art none = pure (skipped art.name)
  place_at art (some dest) = do
    pull ← scp_from env builder art.remote_path (joined staging art.name)
    push ←
        scp_to env (node_target target) (joined staging art.name)
          (dest ++ (str ".solfleet-new" ∷ []))
    got ← remote_sha256 env (node_target target) (dest ++ (str ".solfleet-new" ∷ []))
    pure (
        placed (record {
          name = art.name;
          dest = dest;
          staged = dest ++ (str ".solfleet-new" ∷ []);
          pull_ok = ok pull;
          push_ok = ok push;
          sha_match = same_sha got art.sha256;
          expected_sha = art.sha256;
          got_sha = got;
        }))

  -- `ok` and `artifacts` of the returned dict.
  unfoldable pub distribute : List Artifact → Action (Bool × List Placement)
  unfolding place_at dest_for
  distribute [] = pure (true, [])
  distribute (art ∷ arts) = do
    placement ← place_at art (dest_for target art.name)
    rest ← distribute arts
    pure (keeps_ok placement && rest.0, placement ∷ rest.1)

abbrev swap_of : Placement → List Swap
swap_of (skipped _) = []
swap_of (placed p) = if p.sha_match then (p.staged, p.dest, mem p.name agave_bins) ∷ [] else []

-- `swaps` of `execute_upgrade`: what is moved onto its destination.
abbrev pub verified_swaps : List Placement → List Swap
verified_swaps [] = []
verified_swaps (p ∷ ps) = swap_of p ++ verified_swaps ps

unfoldable pub version_matches : Option String → String → Bool
unfolding lstrip_char starts_with
version_matches none target = false
version_matches (some reported) target =
    let t = lstrip_char b'v' target in
    let r = lstrip_char b'v' reported in if reported == "" then false else r == t || starts_with t r

-- `version if version.startswith("v") else f"v{version}"`
abbrev marker_value : String → Text
marker_value version = if starts_with "v" version then lit version else str "v" ∷ str version ∷ []

-- The returned dict: `{"skipped": True}`, or the outcome with the value that was written.
pub data MarkerUpdate : Type 0 where
  no_marker : MarkerUpdate
  written : Bool → Text → Option Text → MarkerUpdate

module _ (env : Env) (node : Node) (version : String) where
  abbrev pub update_marker_at : Option String → Action MarkerUpdate
  update_marker_at none = pure no_marker
  update_marker_at (some path) = if path == "" then pure no_marker else do
    r ←
        run env (node_target node)
          (str "printf '%s' '" ∷ marker_value version ++ (str "' > " ∷ str path ∷ []))
    pure (written (ok r) (marker_value version) (error_text r))

  unfoldable pub update_marker : Action MarkerUpdate
  unfolding run error_text starts_with
  update_marker = update_marker_at node.service.version_marker
