-- ===== src/Tests/Installing.antt =====
-- The theorems on the execution of an upgrade, and on the wait behind it, at the test fleet.
use solfleet.Prelude.{
  ℕ, ◌≤◌, ◌*◌, Bool, true, false, ◌&&◌, not, List, [], ◌∷◌, some, all, leb, le→leb, ◌≡◌, refl,
  arith, if◌then◌else◌,
}
use solfleet.Prelude.Text.{Text, Piece}
use solfleet.Prelude.Strings.{starts_with}
use solfleet.Safety.{Policy, default_rules, for_cluster}
use solfleet.Safety.Gate.{passed}
use solfleet.Config.{BuilderHost, default_ssh}
use solfleet.Config.Find.{Found, find_builder}
use solfleet.Builder.Build.{build_artifacts}
use solfleet.Builder.Offers.{OffersAll, build_artifacts-OffersAll}
use solfleet.Executor.{Env, exited, builder_target}
use solfleet.Executor.Frames.{Adds}
use solfleet.Executor.Inspect.{inspect_node}
use solfleet.Operations.Catchup.{wait_for_catchup}
use solfleet.Operations.Catchup.Live.{sleeps, CatchesUp, wait_for_catchup-InTime}
use solfleet.Operations.Upgrade.{builder_of}
use solfleet.Operations.Upgrade.Execute.{preflight_checks}
use solfleet.Operations.Upgrade.Run.{upgrade_found}
use solfleet.Operations.Upgrade.Sound.{IsSound, upgrade_found-IsSound}
use solfleet.Operations.Upgrade.Staged.{Staging, is_planned, upgrade_found_stages}
use solfleet.Operations.Upgrade.Planned.{upgrade_found-is_planned}
use solfleet.Tests.Data.{node_a, mainnet, install, fleet, env, world}

abbrev policy : Policy
policy = record { defaults = default_rules; clusters = [] }

abbrev forge : BuilderHost
forge = record { host = "10.0.0.9"; ssh = default_ssh }

abbrev found : Found
found = ("mainnet", mainnet, node_a)

build_artifacts-OffersAll_example :
    OffersAll install "4.1.1"
      (build_artifacts env (builder_target forge) install "4.1.1" true world).0
build_artifacts-OffersAll_example =
    build_artifacts-OffersAll env (builder_target forge) install "4.1.1" true world

upgrade_found-IsSound_example :
    IsSound env "/tmp/s" node_a 2 "4.1.1"
      (some install)
      (find_builder fleet (builder_of (some install)))
      (upgrade_found env fleet policy 2 "/tmp/s" false true "a" "4.1.1" found world).0
upgrade_found-IsSound_example =
    upgrade_found-IsSound env fleet policy 2 "/tmp/s" false true "a" "4.1.1" found world

abbrev is_scp : List Text → Bool
is_scp ((Piece.str s ∷ _) ∷ _) = starts_with "scp" s
is_scp _ = false

-- Every copy fails, and every other command succeeds.
abbrev no_copies : Env
no_copies = record env {
  runner = λ effects argv. record {
    exit_code = exited (if is_scp argv then 1 else 0);
    stdout = "ActiveState=active";
    stderr = "";
  };
}

upgrade_found_stages_example :
    Adds
      (Staging (λ b. find_builder fleet (builder_of (some install)) ≡ some b) node_a)
      world
      (upgrade_found no_copies fleet policy 2 "/tmp/s" false true "a" "4.1.1" found world).1
unfolding upgrade_found solfleet.Prelude.String-discrete solfleet.Safety.Fnmatch.fnmatch
upgrade_found_stages_example =
    upgrade_found_stages no_copies fleet policy 2 "/tmp/s" false true "a" "4.1.1" found world refl

upgrade_found-is_planned_example :
    is_planned (upgrade_found env fleet policy 2 "/tmp/s" false true "a" "4.1.1" found world).0
    ≡ not (
        true
        && all
            (preflight_checks "mainnet" mainnet node_a
              (for_cluster policy "mainnet")
              "4.1.1"
              (find_builder fleet (builder_of (some install)))
              (inspect_node env node_a world).0)
            passed)
upgrade_found-is_planned_example =
    upgrade_found-is_planned env fleet policy 2 "/tmp/s" false true "a" "4.1.1" found world

-- The node is healthy and within the lag behind the third wait.
abbrev slow : Env
slow = record env {
  sampler = λ effects node reference. record {
    healthy = some (leb 3 (sleeps effects));
    node_slot = some 1000;
    ref_slot = some 1001;
    lag = some 1;
  };
}

slow-CatchesUp : CatchesUp slow "a" "https://api.example.com" 2 3
slow-CatchesUp es h = rw (le→leb 3 (sleeps es) h) refl

wait_for_catchup-InTime_example :
    ((wait_for_catchup slow "a" "https://api.example.com" 2 600 5 world).0.caught_up ≡ true)
    × ((wait_for_catchup slow "a" "https://api.example.com" 2 600 5 world).0.waited_s ≤ 3 * 5)
wait_for_catchup-InTime_example =
    wait_for_catchup-InTime slow "a" "https://api.example.com" 2 600 5 3 slow-CatchesUp
      (omega arith) (omega arith) world
