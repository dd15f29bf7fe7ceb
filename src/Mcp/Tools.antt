-- ===== src/Mcp/Tools.antt =====
-- The tools of src/solfleet/mcp_server.py that hand on to an operation, with the arguments they pass.
use solfleet.Prelude.{ℕ, Bool, false, List, [], String, Option, none, some, Result, ok, err}
use solfleet.Prelude.Text.{Text, lit}
use solfleet.Safety.{Policy}
use solfleet.Audit.{AuditLog, Event, recent}
use solfleet.Config.{Fleet}
use solfleet.Probe.{ClusterStatus}
use solfleet.Voting.{VoteRpc, VoteReport}
use solfleet.Voting as Voting
use solfleet.Executor.{Env, Effect, Action}
use solfleet.Operations.{Reply, refused, reply}
use solfleet.Operations.Restart.{Outcome}
use solfleet.Operations.Restart.Run.{restart_node}
use solfleet.Operations.Upgrade.{UpgradePlan, plan_upgrade}
use solfleet.Operations.Upgrade.Execute.{Upgrade}
use solfleet.Operations.Upgrade.Run.{execute_upgrade}
use solfleet.Operations.Override.{OverrideReport, PoolStatus, dns_status, dns_override}
use solfleet.Operations.Override as Override
use solfleet.Provision.Report.{Provisioned}
use solfleet.Provision.Run.{provision_node}
use solfleet.Builder.Bootstrap.{Bootstrap, bootstrap_builder}
use solfleet.Validate.Run.{FleetReport, validate_fleet}
use solfleet.Dns.{DnsDriver, DnsSession}
use solfleet.Dns.Make.{Driver, make_driver}

unfoldable pub vote_status : VoteRpc → Fleet → String → Reply VoteReport
vote_status endpoints fleet name = Voting.vote_status endpoints name fleet

-- The omitted list of devices is `format_devices or []`.
abbrev devices : Option (List String) → List String
devices none = []
devices (some names) = names

module _ (env : Env) (fleet : Fleet) (policy : Policy) where
  unfoldable pub validate :
      (List Effect → List ClusterStatus) → (String → Option String) → Action FleetReport
  validate prober environ = validate_fleet env fleet policy prober environ

  unfoldable pub plan_node_upgrade : String → String → Reply UpgradePlan
  plan_node_upgrade name target_version = plan_upgrade fleet policy name target_version

  unfoldable pub restart : String → Bool → Action (Reply Outcome)
  restart name confirm = restart_node env policy 2 confirm name fleet

  unfoldable pub bootstrap_builder_host : String → Bool → Action Bootstrap
  bootstrap_builder_host builder confirm = bootstrap_builder env builder confirm fleet

  unfoldable pub provision :
      String → String → String → Bool → Option (List String) → ℕ → Action (Reply Provisioned)
  provision staging name version confirm format_devices catchup_timeout_s =
      provision_node env fleet 2 catchup_timeout_s staging (devices format_devices) confirm name
        version

  -- A forced build is not offered.
  unfoldable pub upgrade : String → String → String → Bool → Action (Reply Upgrade)
  upgrade staging name target_version confirm =
      execute_upgrade env fleet policy 2 staging false confirm name target_version

abbrev no_dns : Text
no_dns = lit "no dns config in fleet.yaml"

-- The driver is the one that `make_driver` made; its calls return.
module _ (D : DnsDriver) (fleet : Fleet) where
  open D use {State}

  -- Where no driver can be made, the error is raised.
  abbrev made_status :
      Result Driver → Option String → State → Result (Reply (List PoolStatus × Option Text))
  made_status (err e) wanted s = err e
  made_status (ok driver) wanted s = ok (reply (dns_status D fleet s wanted))

  -- `token` is the variable CLOUDFLARE_API_TOKEN of the environment.
  unfoldable pub dns_pool_status :
      Option String → Option String → State → Result (Reply (List PoolStatus × Option Text))
  unfolding make_driver
  dns_pool_status token wanted s = elim fleet.dns [
    | none ↦ ok (refused no_dns)
    | some dns ↦ made_status (make_driver dns none token) wanted s
  ]

  abbrev made_change :
      Result Driver
      → Override.Action
      → String
      → Option String
      → Bool
      → DnsSession State
      → Result (Reply OverrideReport) × DnsSession State
  made_change (err e) action name wanted confirm s = (err e, s)
  made_change (ok driver) action name wanted confirm s =
      let (result, s') = dns_override D action name confirm fleet wanted s in (ok result, s')

  -- `dns_pool_eject` and `dns_pool_restore`
  unfoldable pub dns_pool_change :
      Option String
      → Override.Action
      → String
      → Option String
      → Bool
      → DnsSession State
      → Result (Reply OverrideReport) × DnsSession State
  unfolding make_driver
  dns_pool_change token action name wanted confirm s = elim fleet.dns [
    | none ↦ (ok (refused no_dns), s)
    | some dns ↦ made_change (make_driver dns none token) action name wanted confirm s
  ]

unfoldable pub audit_log : AuditLog → Option String → ℕ → List Event
audit_log log name limit = recent log name limit
