-- ===== src/Tests/Overriding.antt =====
-- The theorems on the DNS operations, the gate and the audit log at the test fleet.
use solfleet.Prelude.{
  ℕ, ◌+◌, true, false, ◌&&◌, ◌||◌, [], ◌∷◌, none, some, mem, map, take, select, length, ◌==◌,
  if◌then◌else◌, ◌≡◌, refl, arith,
}
use solfleet.Prelude.Text.{lit}
use solfleet.Safety.{execute, Checks, PolicyRules, default_rules}
use solfleet.Audit.{AuditLog, Entry, record_event, recent, selected, to_event}
use solfleet.Audit.History.{newest_first, recent-eq-newest_first}
use solfleet.Dns.{Serves}
use solfleet.Dns.Memory.{in_memory, in_memory-IsLawful, list_members}
use solfleet.Operations.{reply, refused}
use solfleet.Operations.Override.{eject, restore, override_pool, dns_override, OverrideReport}
use solfleet.Operations.Override.Safe.{changed, permitted, mem-override_pool}
use solfleet.Operations.Override.Back.{override_pool_back}
use solfleet.Operations.Override.Kept.{dns_override-Serves, dns_override_audited}
use solfleet.Tests.Data.{node_a, pool, fleet, session, log}

dns_override-Serves_example :
    Serves in_memory
      (dns_override in_memory eject "a" true fleet none session).1.dns
      "rpc.example.com"
unfolding list_members solfleet.Prelude.sorted_set solfleet.Prelude.Dict.lookup
    solfleet.Prelude.String-discrete solfleet.Prelude.str_lt
dns_override-Serves_example =
    dns_override-Serves in_memory eject "a" fleet none true session "rpc.example.com"
      in_memory-IsLawful ("10.0.0.1", refl)

abbrev ejected : OverrideReport
ejected = elim (dns_override in_memory eject "a" true fleet none session).0 [
  | refused _ ↦ record { action = eject; node = "a"; pools = [] }
  | reply report ↦ report
]

dns_override_audited_example :
    (log' : AuditLog) × ((dns_override in_memory eject "a" true fleet none session).1.audit
      ≡ some log')
    × (length log'.rows ≡ length log.rows + length ejected.pools)
unfolding dns_override solfleet.Prelude.String-discrete
dns_override_audited_example =
    dns_override_audited in_memory eject "a" fleet none true session log ejected refl refl

mem-override_pool_example :
    mem "10.0.0.1" (
      in_memory.list_members
        (override_pool in_memory eject "a" true node_a pool session).1.dns
        "rpc.example.com")
    ≡ (if true && permitted eject (in_memory.list_members session.dns "rpc.example.com") "10.0.0.1"
        then changed eject
            (in_memory-IsLawful.key "rpc.example.com" == in_memory-IsLawful.key "rpc.example.com"
              && "10.0.0.1" == "10.0.0.1")
            (mem "10.0.0.1" (in_memory.list_members session.dns "rpc.example.com"))
        else mem "10.0.0.1" (in_memory.list_members session.dns "rpc.example.com"))
mem-override_pool_example =
    mem-override_pool in_memory "a" eject true node_a pool session "rpc.example.com" "10.0.0.1"
      in_memory-IsLawful

-- Node a is put back where it was.
override_pool_back_example :
    mem "10.0.0.1" (
      in_memory.list_members
        (override_pool in_memory restore "a" true node_a pool
          (override_pool in_memory eject "a" true node_a pool session).1).1.dns
        "rpc.example.com")
    ≡ mem "10.0.0.1" (in_memory.list_members session.dns "rpc.example.com")
unfolding list_members solfleet.Prelude.sorted_set solfleet.Prelude.Dict.lookup
    solfleet.Prelude.String-discrete solfleet.Prelude.str_lt
override_pool_back_example =
    override_pool_back in_memory "a" node_a pool session "rpc.example.com" "10.0.0.1"
      in_memory-IsLawful refl

abbrev checks : Checks
checks = (true, lit "reachable") ∷ (false, lit "disk") ∷ []

abbrev only_4_1 : PolicyRules
only_4_1 = record default_rules { allowed_versions = "4.1.*" ∷ [] }

abbrev entry : Entry
entry = record {
  operation = "dns_eject";
  cluster = "mainnet";
  node = "a";
  mode = execute;
  allowed = true;
  detail = none;
}

recent-eq-newest_first_example :
    recent (record_event (record_event log entry).1 entry).1 (some "a") 1
    ≡ map to_event (
        take 1 (
          newest_first
            (select (selected (some "a")) (record_event (record_event log entry).1 entry).1.rows)))
unfolding record_event
recent-eq-newest_first_example =
    recent-eq-newest_first (record_event (record_event log entry).1 entry).1 (some "a") 1
      (omega arith, (omega arith, omega arith))
