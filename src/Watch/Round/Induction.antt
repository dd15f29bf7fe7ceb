-- ===== src/Watch/Round/Induction.antt =====
-- Invariants of a round of src/solfleet/watch.py: what each pool keeps, a whole round and the loop keep,
-- also when an exception ends them.
use solfleet.Prelude.{
  ℕ, zero, suc, Bool, List, [], ◌∷◌, String, none, is_empty, Result, ok, err, continue, Exec, pure,
  Result-cases, Option-cases, Bool-cases, inl, inr,
}
use solfleet.Prelude.Dict.{Dict}
use solfleet.Config.{Pool, Fleet}
use solfleet.Dns.{DnsSession, DnsDriver}
use solfleet.Probe.{NodeStatus, ClusterStatus}
use solfleet.Watch.{node_ips, status_by_name, plan_pool, resolve}
use solfleet.Watch.Round.{WatchReport, act_on, watch_pool, watch_pools, watch_once, watch_loop}

-- What an action keeps, the rest of a `do` block keeps too.
pub continue_keeps :
    {S A B : Type 0} (P : S → Type 0) (r : Result A) (f : A → Exec S B) (s : S)
    → P s
    → ((a : A) → P (f a s).1)
    → P (continue r f s).1
continue_keeps P (ok a) f s h k = k a
continue_keeps P (err e) f s h k = h

module _ (D : DnsDriver) (P : DnsSession D.State → Type 0) where
  -- A pool whose member is unknown changes nothing.
  pub watch_pool_keeps :
      (ips : Dict String) (statuses : Dict NodeStatus) (dry : Bool) (pool : Pool)
      (s : DnsSession D.State)
      → P s
      → ((members : List (String × String))
          → P (
              act_on D dry pool
                (plan_pool statuses pool members (D.list_members s.dns pool.record_name))
                s))
      → P (watch_pool D ips statuses dry pool s).1
  unfolding watch_pool
  watch_pool_keeps ips statuses dry pool s h k = elim (Result-cases (resolve ips pool.members)) [
    | inl (members, e) ↦ rw (e, watch_pool) (k members)
    | inr (error, e) ↦ rw (e, watch_pool) h
  ]

module _ (D : DnsDriver) (dry : Bool) (P : DnsSession D.State → Type 0) where
  module _ (ips : Dict String) (statuses : Dict NodeStatus)
      (keep : (pool : Pool) (s : DnsSession D.State)
        → P s
        → P (watch_pool D ips statuses dry pool s).1) where
    pub watch_pools_keeps :
        (pools : List Pool) (s : DnsSession D.State)
        → P s
        → P (watch_pools D ips statuses dry pools s).1
    unfolding watch_pools
    watch_pools_keeps [] s h = h
    watch_pools_keeps (pool ∷ pools) s h =
        let (r, s') = watch_pool D ips statuses dry pool s in
        continue_keeps P r _ s' (keep pool s h) λ report.
          let (rs, s'') = watch_pools D ips statuses dry pools s' in
          continue_keeps P rs _ s'' (watch_pools_keeps pools s' (keep pool s h))
            λ reports. watch_pools_keeps pools s' (keep pool s h)

  module _
      (keep : (ips : Dict String) (statuses : Dict NodeStatus) (pool : Pool)
          (s : DnsSession D.State)
        → P s
        → P (watch_pool D ips statuses dry pool s).1) where
    pub watch_once_keeps :
        (fleet : Fleet) (clusters : List ClusterStatus) (s : DnsSession D.State)
        → P s
        → P (watch_once D fleet clusters dry s).1
    unfolding watch_once
    watch_once_keeps fleet clusters s h = elim (Option-cases fleet.dns) [
      | inl absent ↦ rw (absent, watch_once) h
      | inr (dns, e) ↦ elim (Bool-cases (is_empty dns.pools)) [
        | inl empty ↦ rw (e, watch_once, empty) h
        | inr some_pool ↦
            rw (e, watch_once, some_pool)
              (let ips = node_ips fleet in
                let statuses = status_by_name clusters in
                let after = watch_pools_keeps ips statuses (keep ips statuses) dns.pools s h in
                let (r, s') = watch_pools D ips statuses dry dns.pools s in
                continue_keeps {B = WatchReport} P r
                  (λ reports. pure (record { pools = reports; note = none })) s' after
                  (λ reports. after))
      ]
    ]

    pub watch_loop_keeps :
        (fleet : Fleet) (prober : ℕ → List ClusterStatus) (n : ℕ) (s : DnsSession D.State)
        → P s
        → P (watch_loop D fleet prober dry n s).1
    unfolding watch_loop
    watch_loop_keeps fleet prober zero s h = h
    watch_loop_keeps fleet prober (suc n) s h =
        let (r, s') = watch_once D fleet (prober 0) dry s in
        let first = watch_once_keeps fleet (prober 0) s h in
        continue_keeps P r _ s' first λ report.
          let rest = watch_loop_keeps fleet (λ i. prober (suc i)) n s' first in
          let (rs, s'') = watch_loop D fleet (λ i. prober (suc i)) dry n s' in
          continue_keeps P rs (λ reports. pure (report ∷ reports)) s'' rest (λ reports. rest)
