-- ===== src/Watch/Round.antt =====
-- `watch_once` and `watch_loop` of src/solfleet/watch.py: what a round does to the DNS records and to
-- the audit log.
pub mod Reconcile
pub mod Induction
pub mod Guarantees
pub mod Totality
pub mod Stable
use solfleet.Prelude.{
  ℕ, zero, suc, Bool, ◌&&◌, List, [], ◌∷◌, String, Option, none, some, is_empty, if◌then◌else◌,
  Result, ok, err, Exec, pure, ◌>>=◌,
}
use solfleet.Prelude.Text.{Text, lit}
use solfleet.Prelude.Dict.{Dict}
use solfleet.Audit.{audit_with}
use solfleet.Config.{Pool, Fleet}
use solfleet.Dns.{DnsSession, DnsDriver}
use solfleet.Probe.{NodeStatus, ClusterStatus}
use solfleet.Watch.{
  PoolReport, plan_pool, resolve, node_ips, status_by_name, protected_entry, changed_entry,
}

pub record WatchReport : Type 0 where
  pub pools : List PoolReport
  pub note : Option Text

abbrev pub no_pools : WatchReport
no_pools = record { pools = []; note = some (lit "no dns pools configured") }

module _ (D : DnsDriver) where
  open D use {State, list_members, add_member, remove_member, has_marker, ensure_marker}

  -- `for ip in to_remove: driver.remove_member(pool.record, ip)`
  unfoldable pub remove_all : State → String → List String → State
  remove_all s r [] = s
  remove_all s r (ip ∷ ips) = remove_all (remove_member s r ip) r ips

  -- `for ip in to_add: driver.add_member(pool.record, ip, pool.ttl)`
  unfoldable pub add_all : State → String → ℕ → List String → State
  add_all s r ttl [] = s
  add_all s r ttl (ip ∷ ips) = add_all (add_member s r ip ttl) r ttl ips

  unfoldable pub apply_changes : State → Pool → List String → List String → State
  unfolding remove_all add_all
  apply_changes s pool removed added =
      add_all (remove_all (ensure_marker s pool.record_name) pool.record_name removed)
        pool.record_name pool.ttl added

  -- The body of the loop over the pools, after the report is made.
  unfoldable pub act_on : Bool → Pool → PoolReport → DnsSession State → DnsSession State
  act_on dry pool report s =
      if report.protected
      then (if is_empty report.current
          then s
          else record s { audit = audit_with s.audit (protected_entry dry pool report) })
      else if is_empty report.added && is_empty report.removed
      then s
      else if dry
      then s
      else record {
        dns = apply_changes s.dns pool report.removed report.added;
        audit = audit_with s.audit (changed_entry pool report);
      }

  module _ (ips : Dict String) (statuses : Dict NodeStatus) (dry : Bool) where
    -- The body of the loop over the pools, from the members' addresses.
    unfoldable pub watch_resolved :
        Pool → Result (List (String × String)) → Exec (DnsSession State) PoolReport
    watch_resolved pool (err e) s = (err e, s)
    watch_resolved pool (ok members) s =
        let report = plan_pool statuses pool members (list_members s.dns pool.record_name) in
        (ok report, act_on dry pool report s)

    unfoldable pub watch_pool : Pool → Exec (DnsSession State) PoolReport
    unfolding watch_resolved resolve
    watch_pool pool s = watch_resolved pool (resolve ips pool.members) s

    unfoldable pub watch_pools : List Pool → Exec (DnsSession State) (List PoolReport)
    watch_pools [] = pure []
    watch_pools (pool ∷ pools) = do
      report ← watch_pool pool
      reports ← watch_pools pools
      pure (report ∷ reports)

  -- `clusters` is what the prober answers.
  unfoldable pub watch_once :
      Fleet → List ClusterStatus → Bool → Exec (DnsSession State) WatchReport
  unfolding watch_pools node_ips status_by_name
  watch_once fleet clusters dry = elim fleet.dns [
    | none ↦ pure no_pools
    | some dns ↦ if is_empty dns.pools then pure no_pools else do
      reports ← watch_pools (node_ips fleet) (status_by_name clusters) dry dns.pools
      pure (record { pools = reports; note = none })
  ]

  -- `watch_loop` with `iterations=n`, where round `i` is answered by `prober i`: the reports that
  -- `on_round` is handed. With no bound, the first `n` rounds of the loop are those of this one.
  unfoldable pub watch_loop :
      Fleet → (ℕ → List ClusterStatus) → Bool → ℕ → Exec (DnsSession State) (List WatchReport)
  unfolding watch_once
  watch_loop fleet prober dry zero = pure []
  watch_loop fleet prober dry (suc n) = do
    report ← watch_once fleet (prober 0) dry
    reports ← watch_loop fleet (λ i. prober (suc i)) dry n
    pure (report ∷ reports)
