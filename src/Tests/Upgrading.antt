-- ===== src/Tests/Upgrading.antt =====
-- The theorems on the upgrade of a node at the test fleet.
use solfleet.Prelude.{◌&&◌, not, List, [], ◌∷◌, ◌++◌, none, some, ◌==◌, ◌≡◌}
use solfleet.Prelude.Text.{lit}
use solfleet.Prelude.Strings.{lstrip_char, starts_with}
use solfleet.Safety.{Policy, default_rules}
use solfleet.Builder.{Artifact}
use solfleet.Executor.{node_target}
use solfleet.Operations.Upgrade.Distribute.{distribute, version_matches}
use solfleet.Operations.Upgrade.Verified.{
  all_arrive, transfers, distribute_exact, version_matches_exact,
}
use solfleet.Tests.Data.{node_a, voter, env, world}

abbrev artifacts : List Artifact
artifacts =
    record { name = "solana"; remote_path = lit "/out/solana"; sha256 = some "ActiveState=active" }
    ∷ record { name = "agave-validator"; remote_path = lit "/out/agave-validator"; sha256 = none }
    ∷ []

distribute_exact_example :
    ((distribute env (node_target voter) node_a "/tmp/s" artifacts world).0.0
      ≡ all_arrive env (node_target voter) node_a "/tmp/s" world.effects artifacts)
    × ((distribute env (node_target voter) node_a "/tmp/s" artifacts world).1.effects
        ≡ world.effects ++ transfers (node_target voter) node_a "/tmp/s" artifacts)
distribute_exact_example = distribute_exact env (node_target voter) node_a "/tmp/s" artifacts world

-- The target 4.1.1 counts as reached by 4.1.10.
version_matches_exact_example :
    version_matches (some "4.1.10") "v4.1.1"
    ≡ (not ("4.1.10" == "") && starts_with (lstrip_char b'v' "v4.1.1") (lstrip_char b'v' "4.1.10"))
version_matches_exact_example = version_matches_exact "4.1.10" "v4.1.1"

abbrev policy : Policy
policy = record { defaults = default_rules; clusters = [] }
