-- ===== src/Tests/Restarting.antt =====
-- The theorems on the restart of a node at the test fleet.
use solfleet.Prelude.{true, false, ◌&&◌, all, ◌≡◌, refl, arith}
use solfleet.Safety.{default_rules}
use solfleet.Safety.Gate.{passed}
use solfleet.Executor.Inspect.{inspect_node}
use solfleet.Operations.Catchup.{Honest, wait_for_catchup, wait_for_catchup-Honest}
use solfleet.Operations.Restart.{restart_checks}
use solfleet.Operations.Restart.Run.{restart_found}
use solfleet.Operations.Restart.Planned.{
  after_all, preflight_effects, is_executed, restart_found-is_executed, restart_found_reads,
}
use solfleet.Operations.Restart.Recorded.{Recorded, restart_found-Recorded}
use solfleet.Tests.Data.{node_a, voter, mainnet, env, world}

wait_for_catchup-Honest_example :
    Honest 2 600 5 (wait_for_catchup env "a" "https://api.example.com" 2 600 5 world).0
wait_for_catchup-Honest_example =
    wait_for_catchup-Honest env "a" "https://api.example.com" 2 600 5 (omega arith) world

restart_found-is_executed_example :
    is_executed (restart_found env default_rules 2 true "a" "mainnet" mainnet node_a world).0
    ≡ (true && all (restart_checks default_rules (inspect_node env node_a world).0) passed)
restart_found-is_executed_example =
    restart_found-is_executed env default_rules 2 true "a" "mainnet" mainnet node_a world

restart_found_reads_example :
    (restart_found env default_rules 2 false "v" "mainnet" mainnet voter world).1.effects
    ≡ (after_all world (preflight_effects default_rules "https://api.example.com" voter)).effects
restart_found_reads_example =
    restart_found_reads env default_rules 2 false "v" "mainnet" mainnet voter world refl

restart_found-Recorded_example :
    Recorded world
      (restart_found env default_rules 2 true "a" "mainnet" mainnet node_a world).1
      "mainnet"
      "a"
      (all (restart_checks default_rules (inspect_node env node_a world).0) passed)
restart_found-Recorded_example =
    restart_found-Recorded env default_rules 2 "a" "mainnet" mainnet node_a true world
