-- ===== src/Builder/Kept.antt =====
-- A build of src/solfleet/builder.py keeps every relation that all commands on the builder keep.
use solfleet.Prelude.{Bool, true, false, List, [], ◌∷◌, ◌++◌, String, Bool-cases, inl, inr}
use solfleet.Prelude.Text.{Text, str}
use solfleet.Config.{InstallConfig}
use solfleet.Executor.{Env, ran, Target, ssh_argv, ok, run}
use solfleet.Executor.Steps.{remote_sha256}
use solfleet.Executor.Frames.{Frame, Keeps, chain, run-Keeps}
use solfleet.Builder.{LogEntry, artifact_names, out_dir, build_commands}
use solfleet.Builder.Build.{
  BuildRun, built, stopped, artifact_path, collect, is_cached, run_build, offer, after_build,
  build_anew, build_artifacts,
}

module _ (F : Frame) (env : Env) where
  pub remote_sha256-Keeps :
      (target : Target) (path : Text)
      → F.Allowed (ran (ssh_argv target (str "sha256sum " ∷ path)))
      → Keeps F (remote_sha256 env target path)
  unfolding remote_sha256
  remote_sha256-Keeps target path h = run-Keeps F env target _ h

  module _ (builder : Target)
      (allowed : (cmd : Text) → F.Allowed (ran (ssh_argv builder cmd))) where
    collect-Keeps : (out : Text) (names : List String) → Keeps F (collect env builder out names)
    unfolding collect
    collect-Keeps out [] w = F.kept_refl w
    collect-Keeps out (name ∷ names) w =
        chain F (remote_sha256-Keeps builder (artifact_path out name) (allowed _) w)
          (collect-Keeps out names _)

    run_build-Keeps :
        (log : List LogEntry) (cmds : List Text) → Keeps F (run_build env builder log cmds)
    unfolding run_build
    run_build-Keeps log [] w = F.kept_refl w
    run_build-Keeps log (cmd ∷ cmds) w =
        let r = (run env builder cmd w).0 in
        let here = run-Keeps F env builder cmd (allowed cmd) w in
        elim (Bool-cases (ok r)) [
          | inl good ↦
              rw (good, run_build)
                (chain F here
                  (run_build-Keeps (log ++ record { command = cmd; result = r } ∷ []) cmds _))
          | inr bad ↦ rw (bad, run_build) here
        ]

    module _ (install : InstallConfig) (version : String) where
      offer-Keeps :
          (cached : Bool) (log : List LogEntry)
          → Keeps F (offer env builder install version cached log)
      unfolding offer
      offer-Keeps cached log w = collect-Keeps (out_dir install version) (artifact_names install) w

      after_build-Keeps :
          (finished : BuildRun) → Keeps F (after_build env builder install version finished)
      unfolding after_build
      after_build-Keeps (built log) w = offer-Keeps false log w
      after_build-Keeps (stopped cmd r log) w = F.kept_refl w

      build_anew-Keeps : Keeps F (build_anew env builder install version)
      unfolding build_anew
      build_anew-Keeps w =
          chain F (run_build-Keeps [] (build_commands install version) w) (after_build-Keeps _ _)

      pub build_artifacts-Keeps :
          (force : Bool) → Keeps F (build_artifacts env builder install version force)
      unfolding build_artifacts is_cached
      build_artifacts-Keeps true w = build_anew-Keeps w
      build_artifacts-Keeps false w =
          let here = run-Keeps F env builder _ (allowed _) w in
          elim (Bool-cases
            (is_cached env builder (out_dir install version) (artifact_names install) w).0) [
              | inl there ↦ rw (there, build_artifacts) (chain F here (offer-Keeps true [] _))
              | inr absent ↦ rw (absent, build_artifacts) (chain F here (build_anew-Keeps _))
            ]
