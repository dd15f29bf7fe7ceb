-- ===== src/Builder/Offers.antt =====
-- What `build_artifacts` of src/solfleet/builder.py offers to an upgrade or a provisioning.
use solfleet.Prelude.{
  Bool, true, false, List, [], ◌∷◌, ◌++◌, String, map, All, ◌≡◌, refl, ap, ◌⊎◌, inl, inr,
  Bool-cases,
}
use solfleet.Prelude.Text.{Text, str}
use solfleet.Config.{InstallConfig}
use solfleet.Executor.{Env, World, Target}
use solfleet.Builder.{Artifact, LogEntry, BuildResult, artifact_names, out_dir}
use solfleet.Builder.Build.{
  BuildRun, built, stopped, collect, is_cached, offer, after_build, build_artifacts,
}

abbrev pub name_of : Artifact → String
name_of art = art.name

-- The artifact lies in the output directory under its name.
abbrev pub LiesIn : Text → Artifact → Type 0
LiesIn out art = art.remote_path ≡ out ++ (str "/" ∷ str art.name ∷ [])

-- A build offers the whole artifact set of the install, or it failed and offers nothing.
abbrev pub OffersAll : InstallConfig → String → BuildResult → Type 0
OffersAll install version r =
    ((r.ok ≡ true)
      × (map name_of r.artifacts ≡ artifact_names install)
      × All (LiesIn (out_dir install version)) r.artifacts)
    ⊎ ((r.ok ≡ false) × (r.artifacts ≡ []))

module _ (env : Env) (builder : Target) where
  collect-names :
      (out : Text) (names : List String) (w : World)
      → (map name_of (collect env builder out names w).0 ≡ names)
        × All (LiesIn out) (collect env builder out names w).0
  unfolding collect
  collect-names out [] w = (refl, tt)
  collect-names out (name ∷ names) w =
      let (same, within) = collect-names out names _ in (ap (λ ns. name ∷ ns) same, (refl, within))

  module _ (install : InstallConfig) (version : String) where
    offer-OffersAll :
        (cached : Bool) (log : List LogEntry) (w : World)
        → OffersAll install version (offer env builder install version cached log w).0
    unfolding offer
    offer-OffersAll cached log w =
        let (same, within) = collect-names (out_dir install version) (artifact_names install) w in
        inl (refl, same, within)

    after_build-OffersAll :
        (finished : BuildRun) (w : World)
        → OffersAll install version (after_build env builder install version finished w).0
    unfolding after_build
    after_build-OffersAll (built log) w = offer-OffersAll false log w
    after_build-OffersAll (stopped cmd r log) w = inr (refl, refl)

    -- A build, cached or not, forced or not, either is ok and offers the whole artifact set of the
    -- install, in its order and each at its place in the output directory of the version, or it is not ok
    -- and offers nothing.
    pub build_artifacts-OffersAll :
        (force : Bool) (w : World)
        → OffersAll install version (build_artifacts env builder install version force w).0
    unfolding build_artifacts
    build_artifacts-OffersAll true w = after_build-OffersAll _ _
    build_artifacts-OffersAll false w =
        elim (Bool-cases
          (is_cached env builder (out_dir install version) (artifact_names install) w).0) [
            | inl there ↦ rw (there, build_artifacts) (offer-OffersAll true [] _)
            | inr absent ↦ rw (absent, build_artifacts) (after_build-OffersAll _ _)
          ]
