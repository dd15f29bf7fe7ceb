-- ===== src/Tests/Watching.antt =====
-- The theorems on src/solfleet/watch.py and src/solfleet/config.py at the test fleet.
use solfleet.Prelude.{
  String, none, ◌==◌, if◌then◌else◌, ◌+◌, ℕ, false, ◌&&◌, ◌||◌, not, [], ◌∷◌, some, mem, map,
  length, ◌≡◌, refl, ok,
}
use solfleet.Prelude.Dict.{lookup}
use solfleet.Dns.{Serves}
use solfleet.Dns.Memory.{in_memory, in_memory-IsLawful, list_members}
use solfleet.Watch.{should_eject, unhealthy, node_ips, status_by_name, resolve, second, desired_ips}
use solfleet.Watch.Round.{watch_pool, watch_loop}
use solfleet.Watch.Round.Guarantees.{watch_loop-Serves}
use solfleet.Watch.Round.Stable.{watch_pool_reconciles, watch_pool_again}
use solfleet.Config.Load.{Files, mapping, load_fleet}
use solfleet.Cli.Fleet.{cmd_watch}
use solfleet.Cli.Loaded.{EndsAs, cmd_watch_loaded}
use solfleet.Watch.Eject.{should_eject_exact, is_sick, lags_behind, is_delinquent, one_if}
use solfleet.Tests.Data.{ew, pool, fleet, probed, prober, session}

watch_loop-Serves_example :
    Serves in_memory (watch_loop in_memory fleet prober false 3 session).1.dns "rpc.example.com"
unfolding list_members solfleet.Prelude.sorted_set lookup solfleet.Prelude.String-discrete
    solfleet.Prelude.str_lt
watch_loop-Serves_example =
    watch_loop-Serves in_memory fleet prober false 3 session "rpc.example.com" in_memory-IsLawful
      ("10.0.0.1", refl)

-- The lagging node b leaves the record.
watch_pool_reconciles_example :
    mem "10.0.0.2" (
      in_memory.list_members
        (watch_pool in_memory (node_ips fleet) (status_by_name probed) false pool session).1.dns
        "rpc.example.com")
    ≡ (mem "10.0.0.2"
          (desired_ips (status_by_name probed) pool (("a", "10.0.0.1") ∷ ("b", "10.0.0.2") ∷ []))
        || mem "10.0.0.2" (in_memory.list_members session.dns "rpc.example.com")
          && not (mem "10.0.0.2" (map second (("a", "10.0.0.1") ∷ ("b", "10.0.0.2") ∷ []))))
unfolding list_members resolve node_ips solfleet.Prelude.String-discrete solfleet.Watch.should_eject
    status_by_name
watch_pool_reconciles_example =
    watch_pool_reconciles in_memory (node_ips fleet) (status_by_name probed) pool session
      (("a", "10.0.0.1") ∷ ("b", "10.0.0.2") ∷ []) "10.0.0.2" in_memory-IsLawful refl refl

watch_pool_again_example :
    (watch_pool in_memory
      (node_ips fleet)
      (status_by_name probed)
      false
      pool
      (watch_pool in_memory (node_ips fleet) (status_by_name probed) false pool session).1).1.dns
    ≡ (watch_pool in_memory (node_ips fleet) (status_by_name probed) false pool session).1.dns
watch_pool_again_example =
    watch_pool_again in_memory (node_ips fleet) (status_by_name probed) pool session
      in_memory-IsLawful

-- The fleet stands in the second default path.
abbrev files : Files String
files = record { exists = λ path. path == "fleet.yml"; document = λ path. ok (mapping path) }

cmd_watch_loaded_example :
    EndsAs
      (some "t0ken")
      false
      3
      fleet.dns
      (cmd_watch in_memory fleet (some "t0ken") false prober false 3 session).0
unfolding load_fleet solfleet.Prelude.String-discrete solfleet.Config.Validate.check_builder
    solfleet.Prelude.Dict.keys solfleet.Config.Validate.check_pool lookup
cmd_watch_loaded_example =
    cmd_watch_loaded files (λ raw. ok fleet) none none fleet in_memory (some "t0ken") false prober
      false 3 session refl

-- Nothing is known of the node.
should_eject_exact_example :
    ((should_eject none ew).0 ≡ (
      ew.unhealthy && is_sick none
      || lags_behind none ew.slot_lag
      || ew.delinquent && is_delinquent none))
    × (length (should_eject none ew).1
        ≡ one_if (ew.unhealthy && is_sick none)
          + one_if (lags_behind none ew.slot_lag)
          + one_if (ew.delinquent && is_delinquent none))
should_eject_exact_example = should_eject_exact none ew
