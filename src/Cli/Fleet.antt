-- ===== src/Cli/Fleet.antt =====
-- The commands of src/solfleet/cli.py on the fleet as a whole, and those on its DNS pools and its audit log.
use solfleet.Prelude.{
  ◌∷◌, zero, suc, ℕ, Bool, true, false, ◌&&◌, ◌||◌, not, List, [], String, Option, none, some, any,
  if◌then◌else◌, Result, ok, err, Error,
}
use solfleet.Prelude.Text.{Text, str, num}
use solfleet.Safety.{Policy}
use solfleet.Audit.{AuditLog, Event, recent}
use solfleet.Config.{DnsConfig, Fleet}
use solfleet.Probe.{NodeStatus, ClusterStatus}
use solfleet.Probe.Run.{Rpc}
use solfleet.Probe.Clusters.{probe_fleet}
use solfleet.Voting.{VoteRpc, VoteReport, Balance, holds, unknown, vote_status}
use solfleet.Executor.{Env, Effect, Action, ◌>>=◌, pure}
use solfleet.Operations.{Reply, refused, reply}
use solfleet.Operations.Override.{OverrideReport, PoolStatus, dns_status, dns_override}
use solfleet.Operations.Override as Override
use solfleet.Validate.Run.{FleetReport, validate_fleet}
use solfleet.Dns.{DnsDriver, DnsSession}
use solfleet.Watch.Round.{WatchReport, watch_once, watch_loop}
use solfleet.Dns.Make.{Driver, make_driver}
use solfleet.Cli.Table.{text_truthy, format_table}
use solfleet.Cli.Report.{format_validate}
use solfleet.Cli.Operate.{Ended, ended, is_refused}

-- A result as JSON, or as the lines of a report.
pub data Printed {ℓ} (A : Type ℓ) : Type ℓ where
  json : A → Printed A
  lines : List Text → Printed A

abbrev is_false : Option Bool → Bool
is_false none = false
is_false (some b) = not b

abbrev pub is_true : Option Bool → Bool
is_true none = false
is_true (some b) = b

abbrev pub needs_attention : NodeStatus → Bool
needs_attention n =
    is_false n.healthy || (text_truthy n.error && not n.reachable || is_true n.delinquent)

-- `_unhealthy`
unfoldable pub unhealthy : List ClusterStatus → Bool
unhealthy clusters = any clusters (λ c. any c.nodes needs_attention)

unfoldable pub cmd_status : Rpc → Fleet → Bool → Ended (Printed (List ClusterStatus))
unfolding probe_fleet format_table unhealthy
cmd_status rpc fleet as_json =
    let clusters = probe_fleet rpc fleet in
    ended (if as_json then json clusters else lines (format_table clusters))
      (if unhealthy clusters then 1 else 0)

abbrev shown : String → ℕ → List ClusterStatus → List Text
shown now interval clusters =
    (str "solfleet status — "
      ∷ str now
      ∷ str "  (refresh "
      ∷ num interval
      ∷ str "s, Ctrl-C to exit)\n"
      ∷ [])
    ∷ format_table clusters

abbrev before_screens :
    List Text → Result (Ended (List (List Text))) → Result (Ended (List (List Text)))
before_screens screen (err e) = err e
before_screens screen (ok rest) = ok (ended (screen ∷ rest.printed) rest.code)

-- A fleet that does not load raises and ends the command.
abbrev refreshed :
    Result Fleet
    → Rpc
    → String
    → ℕ
    → Result (Ended (List (List Text)))
    → Result (Ended (List (List Text)))
refreshed (err e) rpc now interval rest = err e
refreshed (ok fleet) rpc now interval rest =
    before_screens (shown now interval (probe_fleet rpc fleet)) rest

-- `_watch_status` until it is interrupted, after `rounds` refreshes: each loads the fleet, probes it, and
-- shows the time of the clock and the table, on a cleared screen. The interrupt is the only end, with code 0.
unfoldable pub watch_status :
    (ℕ → Result Fleet) → (ℕ → Rpc) → (ℕ → String) → ℕ → ℕ → Result (Ended (List (List Text)))
unfolding probe_fleet format_table
watch_status load rpc now interval zero = ok (ended [] 0)
watch_status load rpc now interval (suc rounds) =
    let rest =
      watch_status (λ i. load (suc i)) (λ i. rpc (suc i)) (λ i. now (suc i)) interval rounds in
    refreshed (load 0) (rpc 0) (now 0) interval rest

-- The code from `result.get("voting")` and `result.get("low_balance")`.
abbrev low_balance : Balance → Bool
low_balance (holds amount low) = low
low_balance (unknown e) = false

abbrev vote_code : Reply VoteReport → ℕ
vote_code (refused e) = 2
vote_code (reply r) = if not r.voting || low_balance r.balance then 1 else 0

unfoldable pub cmd_vote_status : VoteRpc → Fleet → String → Ended (Reply VoteReport)
unfolding vote_status
cmd_vote_status endpoints fleet node =
    let result = vote_status endpoints node fleet in ended result (vote_code result)

-- A validation of a fleet that was loaded, or the error of the file, which is printed.
pub data Validated : Type 0 where
  invalid : Error → Validated
  validated : Printed FleetReport → Validated

unfoldable pub cmd_validate :
    Env
    → Result Fleet
    → Policy
    → (List Effect → List ClusterStatus)
    → (String → Option String)
    → Bool
    → Action (Ended Validated)
unfolding validate_fleet format_validate
cmd_validate env (err e) policy prober environ as_json = pure (ended (invalid e) 2)
cmd_validate env (ok fleet) policy prober environ as_json = do
  report ← validate_fleet env fleet policy prober environ
  pure (
      ended (validated (if as_json then json report else lines (format_validate report)))
        (if report.ok then 0 else 1))

unfoldable pub cmd_audit : AuditLog → Option String → ℕ → Ended (List Event)
unfolding recent
cmd_audit log node limit = ended (recent log node limit) 0

-- The subcommands of `dns`.
pub data DnsCommand : Type 0 where
  status : DnsCommand
  change : Override.Action → String → Bool → DnsCommand

pub data DnsPrinted : Type 0 where
  no_config : DnsPrinted
  pools : List PoolStatus × Option Text → DnsPrinted
  overridden : Reply OverrideReport → DnsPrinted

abbrev override_code : Reply OverrideReport → ℕ
override_code result = if is_refused result then 2 else 0

-- A watch printed its reports and ended with an exit code, or it goes on behind these reports.
pub data Watching : Type 0 where
  finished : Ended (List WatchReport) → Watching
  running : List WatchReport → Watching

-- The driver is the one that `make_driver` made; its calls return.
module _ (D : DnsDriver) (fleet : Fleet) where
  open D use {State}

  abbrev with_override :
      Reply OverrideReport × DnsSession State → Ended DnsPrinted × DnsSession State
  with_override (result, s) = (ended (overridden result) (override_code result), s)

  abbrev run_dns :
      Option String → DnsCommand → DnsSession State → Ended DnsPrinted × DnsSession State
  run_dns wanted status s = (ended (pools (dns_status D fleet s.dns wanted)) 0, s)
  run_dns wanted (change action node confirm) s =
      with_override (dns_override D action node confirm fleet wanted s)

  -- Where no driver can be made, the error is raised.
  abbrev with_made :
      Result Driver
      → Option String
      → DnsCommand
      → DnsSession State
      → Result (Ended DnsPrinted) × DnsSession State
  with_made (err e) wanted command s = (err e, s)
  with_made (ok driver) wanted command s =
      let (done, s') = run_dns wanted command s in (ok done, s')

  -- `token` is the variable CLOUDFLARE_API_TOKEN of the environment.
  unfoldable pub cmd_dns :
      Option String
      → Option String
      → DnsCommand
      → DnsSession State
      → Result (Ended DnsPrinted) × DnsSession State
  unfolding make_driver dns_status dns_override
  cmd_dns token wanted command s = elim fleet.dns [
    | none ↦ (ok (ended no_config 2), s)
    | some dns ↦ with_made (make_driver dns none token) wanted command s
  ]

  abbrev pub watched_once :
      Result WatchReport × DnsSession State → Result Watching × DnsSession State
  watched_once (err e, s) = (err e, s)
  watched_once (ok report, s) = (ok (finished (ended (report ∷ []) 0)), s)

  abbrev pub watched_on :
      Result (List WatchReport) × DnsSession State → Result Watching × DnsSession State
  watched_on (err e, s) = (err e, s)
  watched_on (ok reports, s) = (ok (running reports), s)

  -- With `--once` one round; without it the loop, which does not end, after `rounds` rounds.
  unfoldable pub watch_rounds :
      Bool
      → (ℕ → List ClusterStatus)
      → Bool
      → ℕ
      → DnsSession State
      → Result Watching × DnsSession State
  unfolding watch_once watch_loop
  watch_rounds true prober dry rounds s = watched_once (watch_once D fleet (prober 0) dry s)
  watch_rounds false prober dry rounds s = watched_on (watch_loop D fleet prober dry rounds s)

  -- The driver D is the one that is described.
  abbrev pub with_driver :
      Result Driver
      → Bool
      → (ℕ → List ClusterStatus)
      → Bool
      → ℕ
      → DnsSession State
      → Result Watching × DnsSession State
  with_driver (err e) once prober dry rounds s = (err e, s)
  with_driver (ok driver) once prober dry rounds s = watch_rounds once prober dry rounds s

  unfoldable pub watch_with :
      Option DnsConfig
      → Option String
      → Bool
      → (ℕ → List ClusterStatus)
      → Bool
      → ℕ
      → DnsSession State
      → Result Watching × DnsSession State
  unfolding make_driver watch_rounds
  watch_with none token once prober dry rounds s = (ok (finished (ended [] 2)), s)
  watch_with (some dns) token once prober dry rounds s =
      with_driver (make_driver dns none token) once prober dry rounds s

  -- `token` is the variable CLOUDFLARE_API_TOKEN of the environment.
  unfoldable pub cmd_watch :
      Option String
      → Bool
      → (ℕ → List ClusterStatus)
      → Bool
      → ℕ
      → DnsSession State
      → Result Watching × DnsSession State
  unfolding watch_with
  cmd_watch = watch_with fleet.dns
