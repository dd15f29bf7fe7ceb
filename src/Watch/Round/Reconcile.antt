-- ===== src/Watch/Round/Reconcile.antt =====
-- Which addresses a round of src/solfleet/watch.py leaves on a record.
use solfleet.Prelude.{
  ℕ, Bool, true, false, ◌&&◌, ◌||◌, not, List, [], ◌∷◌, String, map, mem, ◌==◌, is_empty, ◌≡◌, refl,
  ◌∙◌, arith, mem-diff, mem-inter, mem-sorted_set, eq_self,
}
use solfleet.Prelude.Dict.{Dict}
use solfleet.Config.{Pool}
use solfleet.Dns.{DnsSession, DnsDriver, IsLawful}
use solfleet.Probe.{NodeStatus}
use solfleet.Watch.{PoolReport, plan_pool, desired_ips, second}
use solfleet.Watch.Round.{remove_all, add_all, apply_changes, act_on}

-- An address that is kept is one of the members' addresses.
mem-kept_ips :
    (statuses : Dict NodeStatus) (pool : Pool) (members : List (String × String)) (j : String)
    → mem j (desired_ips statuses pool members) ≡ true
    → mem j (map second members) ≡ true
mem-kept_ips statuses pool [] j h = cc
mem-kept_ips statuses pool ((m, ip) ∷ members) j h =
    ground (arith, mem-kept_ips statuses pool members j)

is_empty-mem : (xs : List String) (j : String) → is_empty xs ≡ true → mem j xs ≡ false
is_empty-mem [] j h = refl
is_empty-mem (x ∷ xs) j h = cc

module _ (D : DnsDriver) (L : IsLawful D) where
  open D use {State, list_members}

  mem-remove_all :
      (s : State) (r : String) (ips : List String) (q j : String)
      → mem j (list_members (remove_all D s r ips) q)
        ≡ (mem j (list_members s q) && not (L.key q == L.key r && mem j ips))
  unfolding remove_all
  mem-remove_all s r [] q j = ground arith
  mem-remove_all s r (ip ∷ ips) q j =
      rw (mem-remove_all (D.remove_member s r ip) r ips q j)
        (ground (arith, L.mem-remove s r ip q j))

  mem-add_all :
      (s : State) (r : String) (ttl : ℕ) (ips : List String) (q j : String)
      → mem j (list_members (add_all D s r ttl ips) q)
        ≡ (mem j (list_members s q) || L.key q == L.key r && mem j ips)
  unfolding add_all
  mem-add_all s r ttl [] q j = ground arith
  mem-add_all s r ttl (ip ∷ ips) q j =
      rw (mem-add_all (D.add_member s r ip ttl) r ttl ips q j)
        (ground (arith, L.mem-add s r ip ttl q j))

  -- Removals first, then additions, on the pool's record alone.
  mem-apply_changes :
      (s : State) (pool : Pool) (removed added : List String) (q j : String)
      → mem j (list_members (apply_changes D s pool removed added) q) ≡ (
          mem j (list_members s q) && not (L.key q == L.key pool.record_name && mem j removed)
          || L.key q == L.key pool.record_name && mem j added)
  unfolding apply_changes
  mem-apply_changes s pool removed added q j =
      let r = pool.record_name in
      let marked = D.ensure_marker s r in
      mem-add_all (remove_all D marked r removed) r pool.ttl added q j
      ∙ ground (arith, mem-remove_all marked r removed q j, L.mem-ensure s r q j)

  module _ (statuses : Dict NodeStatus) (pool : Pool) (members : List (String × String))
      (s : DnsSession State) where
    abbrev planned : PoolReport
    planned = plan_pool statuses pool members (list_members s.dns pool.record_name)

    abbrev desired : List String
    desired = desired_ips statuses pool members

    pub protected-planned : planned.protected ≡ is_empty desired
    unfolding plan_pool
    protected-planned = refl

    pub mem-added :
        (j : String)
        → is_empty desired ≡ false
        → mem j planned.added ≡ (mem j desired && not (mem j (list_members s.dns pool.record_name)))
    unfolding plan_pool
    mem-added j some_kept = rw (some_kept, mem-sorted_set, mem-diff)

    pub mem-removed :
        (j : String)
        → is_empty desired ≡ false
        → mem j planned.removed ≡ (
            mem j (list_members s.dns pool.record_name)
            && mem j (map second members)
            && not (mem j desired))
    unfolding plan_pool
    mem-removed j some_kept = rw (some_kept, mem-sorted_set, mem-diff, mem-inter)

    -- After an effective round the pool's record holds the addresses of the members that are kept, and
    -- those of its earlier addresses that belong to no member.
    pub mem-act_on :
        (j : String)
        → is_empty desired ≡ false
        → mem j (list_members (act_on D false pool planned s).dns pool.record_name) ≡ (
            mem j desired
            || mem j (list_members s.dns pool.record_name) && not (mem j (map second members)))
    unfolding act_on
    mem-act_on j some_kept = ground (
      arith,
      protected-planned,
      mem-added j some_kept,
      mem-removed j some_kept,
      is_empty-mem planned.added j,
      is_empty-mem planned.removed j,
      mem-apply_changes s.dns pool planned.removed planned.added pool.record_name j,
      eq_self (L.key pool.record_name),
      mem-kept_ips statuses pool members j,
    )

    -- Other records are left alone, whatever the round finds.
    pub mem-act_on_ne :
        (dry : Bool) (q j : String)
        → (L.key q == L.key pool.record_name) ≡ false
        → mem j (list_members (act_on D dry pool planned s).dns q) ≡ mem j (list_members s.dns q)
    unfolding act_on
    mem-act_on_ne dry q j other =
        ground (arith, mem-apply_changes s.dns pool planned.removed planned.added q j)
