-- ===== src/Operations/Override/Safe.antt =====
-- What the manual DNS overrides of src/solfleet/operations.py keep.
use solfleet.Prelude.{
  Bool, true, ◌&&◌, ◌||◌, not, List, String, mem, ◌==◌, if◌then◌else◌, ◌≡◌, refl, arith,
}
use solfleet.Config.{Node, Pool}
use solfleet.Dns.{DnsDriver, DnsSession, IsLawful}
use solfleet.Operations.Override.{
  Action, eject, restore, would_empty, override_decision, override_pool, change,
}

-- What becomes of an address: `hit` says that it is the node's, on the pool's record.
abbrev pub changed : Action → Bool → Bool → Bool
changed eject hit was = was && not hit
changed restore hit was = was || hit

-- The gate's verdict: a restoration always passes.
abbrev pub permitted : Action → List String → String → Bool
permitted eject current ip = not (would_empty current ip)
permitted restore current ip = true

module _ (D : DnsDriver) (node_name : String) where
  decision_allowed :
      (action : Action) (confirm : Bool) (s : D.State) (node : Node) (pool : Pool)
      → (override_decision D action node_name confirm s node pool).allowed
        ≡ permitted action (D.list_members s pool.record_name) node.host
  unfolding override_decision
  decision_allowed eject confirm s node pool = ground arith
  decision_allowed restore confirm s node pool = refl

  -- What the calls behind the gate do to the addresses of any record.
  mem-change :
      (L : IsLawful D) (action : Action) (s : D.State) (node : Node) (pool : Pool) (r j : String)
      → mem j (D.list_members (change D action s node pool) r)
        ≡ changed action
            (L.key r == L.key pool.record_name && j == node.host)
            (mem j (D.list_members s r))
  mem-change L eject s node pool r j = ground (
    arith,
    L.mem-remove (D.ensure_marker s pool.record_name) pool.record_name node.host r j,
    L.mem-ensure s pool.record_name r j,
  )
  mem-change L restore s node pool r j = ground (
    arith,
    L.mem-add (D.ensure_marker s pool.record_name) pool.record_name node.host pool.ttl r j,
    L.mem-ensure s pool.record_name r j,
  )

  -- For a lawful driver, the addresses of every record after an override of one pool: changed by the
  -- action at the node's address in the pool's record, under every name of it, if the call is confirmed
  -- and the gate permits it, the same otherwise.
  pub mem-override_pool :
      (action : Action) (confirm : Bool) (node : Node) (pool : Pool) (s : DnsSession D.State)
      (r j : String) (L : IsLawful D)
      → mem j (D.list_members (override_pool D action node_name confirm node pool s).1.dns r) ≡ (
          if confirm && permitted action (D.list_members s.dns pool.record_name) node.host
          then changed action
              (L.key r == L.key pool.record_name && j == node.host)
              (mem j (D.list_members s.dns r))
          else mem j (D.list_members s.dns r))
  unfolding override_pool
  mem-override_pool action confirm node pool s r j L = ground (
    arith,
    decision_allowed action confirm s.dns node pool,
    mem-change L action s.dns node pool r j,
  )
