-- ===== src/Watch/Round/Stable.antt =====
-- A round of src/solfleet/watch.py brings a pool to its desired records at once: the same round again
-- finds nothing to do.
use solfleet.Prelude.{
  Bool, true, false, ◌&&◌, ◌||◌, not, List, [], ◌∷◌, String, map, mem, is_empty, Error, ok, err,
  ◌≡◌, refl, ap, ◌∙◌, arith, inl, inr, Bool-cases, Result-cases, eq_self,
}
use solfleet.Prelude.Dict.{Dict}
use solfleet.Config.{Pool}
use solfleet.Dns.{DnsSession, DnsDriver, IsLawful}
use solfleet.Probe.{NodeStatus}
use solfleet.Watch.{PoolReport, plan_pool, desired_ips, resolve, second}
use solfleet.Watch.Round.{act_on, watch_resolved, watch_pool}
use solfleet.Watch.Round.Reconcile.{mem-act_on, mem-added, mem-removed, protected-planned}

empty_of_no_mem : (xs : List String) → ((j : String) → mem j xs ≡ false) → is_empty xs ≡ true
empty_of_no_mem [] h = refl
empty_of_no_mem (x ∷ xs) h = ground (arith, h x, eq_self x)

module _ (D : DnsDriver) where
  nothing_to_do :
      (dry : Bool) (pool : Pool) (report : PoolReport) (s : DnsSession D.State)
      → is_empty report.added ≡ true
      → is_empty report.removed ≡ true
      → (act_on D dry pool report s).dns ≡ s.dns
  unfolding act_on
  nothing_to_do dry pool report s no_added no_removed = ground arith

  protects :
      (dry : Bool) (pool : Pool) (report : PoolReport) (s : DnsSession D.State)
      → report.protected ≡ true
      → (act_on D dry pool report s).dns ≡ s.dns
  unfolding act_on
  protects dry pool report s h = ground arith

  module _ (L : IsLawful D) (statuses : Dict NodeStatus) (pool : Pool)
      (members : List (String × String)) (s : DnsSession D.State) where
    abbrev after : DnsSession D.State
    after =
        act_on D false pool
          (plan_pool statuses pool members (D.list_members s.dns pool.record_name)) s

    abbrev again : PoolReport
    again = plan_pool statuses pool members (D.list_members after.dns pool.record_name)

    act_on-again : (act_on D false pool again after).dns ≡ after.dns
    act_on-again = elim (Bool-cases (is_empty (desired_ips statuses pool members))) [
      | inl none_kept ↦
          protects false pool again after
            (protected-planned D L statuses pool members after ∙ none_kept)
      | inr some_kept ↦
          nothing_to_do false pool again after
            (empty_of_no_mem again.added λ j. ground (
              arith,
              mem-added D L statuses pool members after j some_kept,
              mem-act_on D L statuses pool members s j some_kept,
            ))
            (empty_of_no_mem again.removed λ j. ground (
              arith,
              mem-removed D L statuses pool members after j some_kept,
              mem-act_on D L statuses pool members s j some_kept,
            ))
    ]

module _ (D : DnsDriver) (ips : Dict String) (statuses : Dict NodeStatus) (pool : Pool)
    (s : DnsSession D.State) where
  abbrev next : DnsSession D.State → DnsSession D.State
  next t = (watch_pool D ips statuses false pool t).1

  abbrev acted : List (String × String) → DnsSession D.State → DnsSession D.State
  acted members t =
      act_on D false pool (plan_pool statuses pool members (D.list_members t.dns pool.record_name))
        t

  next-resolved :
      (members : List (String × String)) (t : DnsSession D.State)
      → resolve ips pool.members ≡ ok members
      → next t ≡ acted members t
  unfolding watch_pool
  next-resolved members t e = ap (λ r. (watch_resolved D ips statuses false pool r t).1) e

  next-unresolved :
      (error : Error) (t : DnsSession D.State) → resolve ips pool.members ≡ err error → next t ≡ t
  unfolding watch_pool
  next-unresolved error t e = ap (λ r. (watch_resolved D ips statuses false pool r t).1) e

  -- For a lawful driver, a pool whose members all resolve and of which some member is kept: after a round
  -- that is not a dry run the record lists exactly the addresses of the kept members, and the addresses of
  -- no member that it listed before.
  pub watch_pool_reconciles :
      (members : List (String × String)) (j : String)
      → IsLawful D
      → resolve ips pool.members ≡ ok members
      → is_empty (desired_ips statuses pool members) ≡ false
      → mem j (D.list_members (next s).dns pool.record_name) ≡ (
          mem j (desired_ips statuses pool members)
          || mem j (D.list_members s.dns pool.record_name) && not (mem j (map second members)))
  watch_pool_reconciles members j L e some_kept =
      rw (next-resolved members s e) (mem-act_on D L statuses pool members s j some_kept)

  -- For a lawful driver, a second round of a pool right behind the first, neither a dry run, with the same
  -- probe results, changes no DNS record.
  pub watch_pool_again : IsLawful D → (next (next s)).dns ≡ (next s).dns
  watch_pool_again L = elim (Result-cases (resolve ips pool.members)) [
    | inl (members, e) ↦
        rw (next-resolved members s e, next-resolved members (acted members s) e)
          (act_on-again D L statuses pool members s)
    | inr (error, e) ↦ rw (next-unresolved error s e) (rw (next-unresolved error s e))
  ]
