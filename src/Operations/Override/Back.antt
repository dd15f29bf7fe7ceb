-- ===== src/Operations/Override/Back.antt =====
-- A restoration behind an ejection, of src/solfleet/operations.py.
use solfleet.Prelude.{
  Bool, true, false, ◌&&◌, ◌||◌, not, List, String, mem, ◌==◌, if◌then◌else◌, ◌≡◌, refl, arith, ◌∙◌,
  ap,
}
use solfleet.Config.{Node, Pool}
use solfleet.Dns.{DnsDriver, DnsSession, IsLawful}
use solfleet.Operations.Override.{eject, restore, override_pool}
use solfleet.Operations.Override.Safe.{permitted, mem-override_pool}

-- An address that is put back was there before.
back :
    (p hit was : Bool)
    → (hit ≡ true → was ≡ true)
    → ((if p then was && not hit else was) || hit) ≡ was
back p true was h = ground (arith, h refl)
back p false was h = ground arith

same_host :
    (key : String → String) (listed : String → List String) (r q j i : String)
    → (key r ≡ key q → listed r ≡ listed q)
    → (key r == key q && j == i) ≡ true
    → mem i (listed q) ≡ true
    → mem j (listed r) ≡ true
same_host key listed r q j i same hit there = ground (arith, hit, there, same)

module _ (D : DnsDriver) (node_name : String) (node : Node) (pool : Pool) where
  -- For a lawful driver, a confirmed restoration behind a confirmed ejection of a node whose address the
  -- record of the pool listed leaves every record with the addresses that it had, whether the gate
  -- permitted the ejection or not.
  pub override_pool_back :
      (s : DnsSession D.State) (r j : String)
      → IsLawful D
      → mem node.host (D.list_members s.dns pool.record_name) ≡ true
      → mem j (
          D.list_members
            (override_pool D restore node_name true node pool
              (override_pool D eject node_name true node pool s).1).1.dns
            r)
        ≡ mem j (D.list_members s.dns r)
  override_pool_back s r j L listed =
      mem-override_pool D node_name restore true node pool _ r j L
      ∙ ap (λ b. b || (L.key r == L.key pool.record_name && j == node.host))
          (mem-override_pool D node_name eject true node pool s r j L)
      ∙ back (permitted eject (D.list_members s.dns pool.record_name) node.host) _ _ (λ hit.
        same_host L.key (D.list_members s.dns) r pool.record_name j node.host
          (L.same-key s.dns r pool.record_name) hit listed)
