-- ===== src/Tests/Validating.antt =====
-- The theorems on the validation of the test fleet.
use solfleet.Prelude.{not, ◌||◌, [], String, Option, none, ◌≡◌}
use solfleet.Safety.{Policy, default_rules}
use solfleet.Executor.Frames.{Adds}
use solfleet.Validate.Run.{validate_fleet}
use solfleet.Validate.Failures.{node_fails, builder_fails, dns_fails, validate_fleet-ok}
use solfleet.Validate.Reads.{Reading, validate_fleet_reads}
use solfleet.Tests.Data.{fleet, probed, env, world}

abbrev policy : Policy
policy = record { defaults = default_rules; clusters = [] }

abbrev no_environ : String → Option String
no_environ name = none

validate_fleet-ok_example :
    (validate_fleet env fleet policy (λ es. probed) no_environ world).0.ok
    ≡ not (
        node_fails (validate_fleet env fleet policy (λ es. probed) no_environ world).0.nodes
        || (builder_fails
              (validate_fleet env fleet policy (λ es. probed) no_environ world).0.builders
            || dns_fails (validate_fleet env fleet policy (λ es. probed) no_environ world).0.dns))
validate_fleet-ok_example = validate_fleet-ok env fleet policy (λ es. probed) no_environ world

validate_fleet_reads_example :
    Adds (Reading fleet) world (validate_fleet env fleet policy (λ es. probed) no_environ world).1
validate_fleet_reads_example = validate_fleet_reads env fleet policy (λ es. probed) no_environ world
