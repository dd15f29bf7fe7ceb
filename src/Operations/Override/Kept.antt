-- ===== src/Operations/Override/Kept.antt =====
-- The loop over the pools of a manual DNS override of src/solfleet/operations.py: it empties no record, a
-- dry run changes none, and each pool leaves one entry in the audit log.
use solfleet.Prelude.{
  ℕ, ◌+◌, Bool, false, List, [], ◌∷◌, ◌++◌, String, Option, none, some, mem, ◌==◌, is_empty, diff,
  mem-diff, length, first_of, ◌≡◌, refl, arith, inl, inr, Bool-cases,
}
use solfleet.Audit.{AuditLog, Row, Entry, record_event, audit_with}
use solfleet.Config.{Node, Pool, Fleet}
use solfleet.Config.Find.{Found, find_node}
use solfleet.Dns.{DnsDriver, DnsSession, IsLawful, Serves}
use solfleet.Operations.{reply}
use solfleet.Operations.Override.{
  Action, eject, restore, OverrideReport, override_pool, override_pools, override_found,
  pools_for_node, dns_override,
}
use solfleet.Operations.Override.Safe.{mem-override_pool}

module _ (D : DnsDriver) (node_name : String) (confirm : Bool) (node : Node) where
  module _ (L : IsLawful D) (r : String) where
    override_pool-Serves :
        (action : Action) (pool : Pool) (s : DnsSession D.State)
        → Serves D s.dns r
        → Serves D (override_pool D action node_name confirm node pool s).1.dns r
    override_pool-Serves restore pool s (j, h) =
        (j, ground (arith, mem-override_pool D node_name restore confirm node pool s r j L))
    override_pool-Serves eject pool s (j, h) =
        let current = D.list_members s.dns pool.record_name in
        elim (Bool-cases (mem node.host current)) [
          | inr absent ↦ (
            j,
            ground (
              arith,
              L.same-key s.dns r pool.record_name,
              mem-override_pool D node_name eject confirm node pool s r j L,
            ),
          )
          | inl present ↦ elim (Bool-cases (is_empty (diff current (node.host ∷ [])))) [
            | inl alone ↦
                (j, ground (arith, mem-override_pool D node_name eject confirm node pool s r j L))
            | inr others ↦
                let (k, left) = first_of (diff current (node.host ∷ [])) others in
                elim (Bool-cases (L.key r == L.key pool.record_name)) [
                  | inr other ↦ (
                    j,
                    ground (arith, mem-override_pool D node_name eject confirm node pool s r j L),
                  )
                  | inl same ↦ (
                    k,
                    ground (
                      arith,
                      mem-diff k current (node.host ∷ []),
                      L.same-key s.dns r pool.record_name,
                      mem-override_pool D node_name eject confirm node pool s r k L,
                    ),
                  )
                ]
          ]
        ]

    override_pools-Serves :
        (action : Action) (pools : List Pool) (s : DnsSession D.State)
        → Serves D s.dns r
        → Serves D (override_pools D action node_name confirm node pools s).1.dns r
    unfolding override_pools
    override_pools-Serves action [] s h = h
    override_pools-Serves action (pool ∷ pools) s h =
        override_pools-Serves action pools (override_pool D action node_name confirm node pool s).1
          (override_pool-Serves action pool s h)

-- The number of rows in the log, if there is one.
abbrev pub row_count : Option AuditLog → ℕ
row_count none = 0
row_count (some log) = length log.rows

length-snoc : (rows : List Row) (row : Row) → length (rows ++ row ∷ []) ≡ length rows + 1
length-snoc [] row = refl
length-snoc (x ∷ rows) row = ground (arith, length-snoc rows row)

pub row_count-audit_with :
    (log : AuditLog) (e : Entry)
    → (log' : AuditLog) × (audit_with (some log) e ≡ some log')
      × (length log'.rows ≡ length log.rows + 1)
unfolding record_event
row_count-audit_with log e = ((record_event log e).1, refl, length-snoc log.rows _)

module _ (D : DnsDriver) (action : Action) (node_name : String) (node : Node) where
  override_pools_dry :
      (pools : List Pool) (s : DnsSession D.State)
      → (override_pools D action node_name false node pools s).1.dns ≡ s.dns
  unfolding override_pools
  override_pools_dry [] s = refl
  override_pools_dry (pool ∷ pools) s =
      override_pools_dry pools (override_pool D action node_name false node pool s).1

  override_pool_audited :
      (confirm : Bool) (pool : Pool) (s : DnsSession D.State) (log : AuditLog)
      → s.audit ≡ some log
      → (log' : AuditLog) × ((override_pool D action node_name confirm node pool s).1.audit
          ≡ some log')
        × (length log'.rows ≡ length log.rows + 1)
  unfolding override_pool
  override_pool_audited confirm pool s log e = rw e (row_count-audit_with log _)

  override_pools_audited :
      (confirm : Bool) (pools : List Pool) (s : DnsSession D.State) (log : AuditLog)
      → s.audit ≡ some log
      → (log' : AuditLog) × ((override_pools D action node_name confirm node pools s).1.audit
          ≡ some log')
        × (length log'.rows
            ≡ length log.rows + length (override_pools D action node_name confirm node pools s).0)
  unfolding override_pools
  override_pools_audited confirm [] s log e = (log, e, omega arith)
  override_pools_audited confirm (pool ∷ pools) s log e =
      let (log1, e1, one) = override_pool_audited confirm pool s log e in
      let (log2, e2, rest) =
        override_pools_audited confirm pools
          (override_pool D action node_name confirm node pool s).1 log1 e1 in
      (log2, e2, omega arith)

module _ (D : DnsDriver) (action : Action) (node_name : String) (fleet : Fleet)
    (wanted : Option String) where
  found_keeps :
      (P : DnsSession D.State → Type 0) (confirm : Bool) (found : Option Found)
      (s : DnsSession D.State)
      → P s
      → ((node : Node) (pools : List Pool)
          → P (override_pools D action node_name confirm node pools s).1)
      → P (override_found D action node_name confirm fleet wanted found s).1
  unfolding override_found
  found_keeps P confirm none s h k = h
  found_keeps P confirm (some (_, _, node)) s h k =
      elim (Bool-cases (is_empty (pools_for_node fleet node_name wanted))) [
        | inl no_pool ↦ rw no_pool h
        | inr some_pool ↦ rw some_pool (k node (pools_for_node fleet node_name wanted))
      ]

  -- For a lawful driver, an ejection or a restoration, confirmed or not, over all pools of the node,
  -- leaves no record without an address that served one before.
  pub dns_override-Serves :
      (confirm : Bool) (s : DnsSession D.State) (r : String)
      → IsLawful D
      → Serves D s.dns r
      → Serves D (dns_override D action node_name confirm fleet wanted s).1.dns r
  unfolding dns_override
  dns_override-Serves confirm s r L h =
      found_keeps (λ t. Serves D t.dns r) confirm (find_node fleet node_name) s h
        λ node pools. override_pools-Serves D node_name confirm node L r action pools s h

  found_audited :
      (confirm : Bool) (found : Option Found) (s : DnsSession D.State) (log : AuditLog)
      (report : OverrideReport)
      → s.audit ≡ some log
      → (override_found D action node_name confirm fleet wanted found s).0 ≡ reply report
      → (log' : AuditLog) × ((override_found D action node_name confirm fleet wanted found
            s).1.audit
          ≡ some log')
        × (length log'.rows ≡ length log.rows + length report.pools)
  unfolding override_found
  found_audited confirm none s log report e h = cc
  found_audited confirm (some (_, _, node)) s log report e h =
      elim (Bool-cases (is_empty (pools_for_node fleet node_name wanted))) [
        | inl no_pool ↦ absurd (ground arith)
        | inr some_pool ↦
            let pools = pools_for_node fleet node_name wanted in
            let (log', logged, counted) =
              override_pools_audited D action node_name node confirm pools s log e in
            (log', rw some_pool logged, ground arith)
      ]

  -- With an audit log, an override that returns a report adds one row to the log for each pool that it
  -- reports, in a dry run too.
  pub dns_override_audited :
      (confirm : Bool) (s : DnsSession D.State) (log : AuditLog) (report : OverrideReport)
      → s.audit ≡ some log
      → (dns_override D action node_name confirm fleet wanted s).0 ≡ reply report
      → (log' : AuditLog) × ((dns_override D action node_name confirm fleet wanted s).1.audit
          ≡ some log')
        × (length log'.rows ≡ length log.rows + length report.pools)
  unfolding dns_override
  dns_override_audited confirm s log report e h =
      found_audited confirm (find_node fleet node_name) s log report e h

  -- Without confirm, an override leaves the DNS records as they are.
  dns_override_dry :
      (s : DnsSession D.State)
      → (dns_override D action node_name false fleet wanted s).1.dns ≡ s.dns
  unfolding dns_override
  dns_override_dry s =
      found_keeps (λ t. t.dns ≡ s.dns) false (find_node fleet node_name) s refl
        λ node pools. override_pools_dry D action node_name node pools s
