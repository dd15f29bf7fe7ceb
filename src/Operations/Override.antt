-- ===== src/Operations/Override.antt =====
-- `dns_eject`, `dns_restore` and `dns_status` of src/solfleet/operations.py.
pub mod Safe
pub mod Back
pub mod Kept
use solfleet.Prelude.{
  ℕ, ◌+◌, Bool, true, ◌&&◌, not, List, [], ◌∷◌, ◌++◌, String, Option, none, some, map, mem, ◌==◌,
  truthy, is_empty, select, diff, if◌then◌else◌,
}
use solfleet.Prelude.Text.{Text, lit, str, repr}
use solfleet.Prelude.Dict.{Dict, lookup, insert_all}
use solfleet.Json
use solfleet.Json.{object}
use solfleet.Safety.{GateDecision, Checks, gate}
use solfleet.Audit.{Entry, audit_with}
use solfleet.Config.{Node, Cluster, Pool, Fleet}
use solfleet.Config.Find.{Found, find_node}
use solfleet.Dns.{DnsDriver, DnsSession}
use solfleet.Operations.{Reply, refused, reply, unknown_node}

pub data Action : Type 0 where
  eject restore : Action

abbrev of_record : Option String → List Pool → List Pool
of_record none pools = pools
of_record (some r) pools = if truthy (some r) then select (λ p. p.record_name == r) pools else pools

unfoldable pub pools_for_node : Fleet → String → Option String → List Pool
pools_for_node fleet node_name wanted = elim fleet.dns [
  | none ↦ []
  | some dns ↦ of_record wanted (select (λ p. mem node_name p.members) dns.pools)
]

abbrev pub operation_name : Action → String
operation_name eject = "dns_eject"
operation_name restore = "dns_restore"

abbrev override_plan : Action → String → String → Pool → List Text
override_plan eject ip name pool =
    (str "remove " ∷ str ip ∷ str " (" ∷ str name ∷ str ") from " ∷ str pool.record_name ∷ []) ∷ []
override_plan restore ip name pool =
    (str "add " ∷ str ip ∷ str " (" ∷ str name ∷ str ") to " ∷ str pool.record_name ∷ []) ∷ []

-- `len(current - {ip}) == 0 and ip in current`
abbrev pub would_empty : List String → String → Bool
would_empty current ip = is_empty (diff current (ip ∷ [])) && mem ip current

abbrev override_checks : Action → String → Pool → List String → Checks
override_checks eject ip pool current =
    (
      not (would_empty current ip),
      str "refusing to eject: "
          ∷ str ip
          ∷ str " is the last record in "
          ∷ str pool.record_name
          ∷ str " (would cause NXDOMAIN)"
          ∷ [],
    )
    ∷ []
override_checks restore ip pool current = (true, []) ∷ []

-- An element of `results`; `members_now` is there after a change.
pub record PoolEntry : Type 0 where
  pub record_name : String
  pub decision : GateDecision
  pub members_now : Option (List String)

abbrev override_entry : Action → String → String → Pool → GateDecision → Entry
override_entry action ip name pool decision = record {
  operation = operation_name action;
  cluster = pool.cluster;
  node = pool.record_name;
  mode = decision.mode;
  allowed = decision.allowed;
  detail = some (
      object (
        ("ip", Json.string ip)
        ∷ ("node", Json.string name)
        ∷ ("plan", Json.texts decision.plan)
        ∷ ("reasons", Json.texts decision.reasons)
        ∷ []));
}

pub record OverrideReport : Type 0 where
  pub action : Action
  pub node : String
  pub pools : List PoolEntry

-- The calls of the driver behind `if confirm and decision.allowed`.
abbrev pub change : (D : DnsDriver) → Action → D.State → Node → Pool → D.State
change D eject s node pool =
    D.remove_member (D.ensure_marker s pool.record_name) pool.record_name node.host
change D restore s node pool =
    D.add_member (D.ensure_marker s pool.record_name) pool.record_name node.host pool.ttl

module _ (D : DnsDriver) (action : Action) (node_name : String) (confirm : Bool) where
  open D use {State, list_members}

  unfoldable pub override_decision : State → Node → Pool → GateDecision
  unfolding gate diff
  override_decision s node pool =
      gate (operation_name action) pool.cluster pool.record_name confirm
        (override_plan action node.host node_name pool)
        (override_checks action node.host pool (list_members s pool.record_name))

  -- The body of the loop over the pools.
  unfoldable pub override_pool : Node → Pool → DnsSession State → PoolEntry × DnsSession State
  unfolding override_decision
  override_pool node pool s =
      let decision = override_decision s.dns node pool in
      let go = confirm && decision.allowed in
      let dns = if go then change D action s.dns node pool else s.dns in
      (
        record {
          record_name = pool.record_name;
          decision = decision;
          members_now = if go then some (list_members dns pool.record_name) else none;
        },
        record {
          dns = dns;
          audit = audit_with s.audit (override_entry action node.host node_name pool decision);
        },
      )

  unfoldable pub override_pools :
      Node → List Pool → DnsSession State → List PoolEntry × DnsSession State
  unfolding override_pool
  override_pools node [] s = ([], s)
  override_pools node (pool ∷ pools) s =
      let (entry, s') = override_pool node pool s in
      let (entries, s'') = override_pools node pools s' in (entry ∷ entries, s'')

  abbrev not_a_member : Option String → Text
  not_a_member none =
      str "node " ∷ repr (some node_name) ∷ str " is not a member of any DNS pool" ∷ []
  not_a_member (some r) =
      str "node "
      ∷ repr (some node_name)
      ∷ str " is not a member of any DNS pool"
      ∷ (if truthy (some r) then str " matching record " ∷ repr (some r) ∷ [] else [])

  -- `_dns_override` from the answer of `find_node`.
  unfoldable pub override_found :
      Fleet
      → Option String
      → Option Found
      → DnsSession State
      → Reply OverrideReport × DnsSession State
  unfolding override_pools pools_for_node
  override_found fleet wanted none s = (refused (unknown_node node_name), s)
  override_found fleet wanted (some (_, _, node)) s =
      let pools = pools_for_node fleet node_name wanted in
      let (entries, s') = override_pools node pools s in
      if is_empty pools
      then (refused (not_a_member wanted), s)
      else (reply (record { action = action; node = node_name; pools = entries }), s')

  -- `_dns_override`; `dns_eject` and `dns_restore` are its two actions.
  unfoldable pub dns_override :
      Fleet → Option String → DnsSession State → Reply OverrideReport × DnsSession State
  unfolding override_found find_node
  dns_override fleet wanted s = override_found fleet wanted (find_node fleet node_name) s

-- An element of the list that `dns_status` reports; an address with no node is shown as "?".
pub record PoolStatus : Type 0 where
  pub record_name : String
  pub cluster : String
  pub ttl : ℕ
  pub marker : Bool
  pub members : List (String × String)
  pub configured_members : List String

abbrev name_pairs : Dict Cluster → List (String × String)
name_pairs [] = []
name_pairs ((_, cluster) ∷ rest) = map (λ n. (n.host, n.name)) cluster.nodes ++ name_pairs rest

abbrev or_unknown : Option String → String
or_unknown none = "?"
or_unknown (some name) = name

abbrev pool_status : (D : DnsDriver) → D.State → Dict String → Pool → PoolStatus
pool_status D s ip_to_name pool = record {
  record_name = pool.record_name;
  cluster = pool.cluster;
  ttl = pool.ttl;
  marker = D.has_marker s pool.record_name;
  members = map (λ ip. (ip, or_unknown (lookup ip ip_to_name))) (D.list_members s pool.record_name);
  configured_members = pool.members;
}

-- The list of pools, and the note that stands beside an empty one.
unfoldable pub dns_status :
    (D : DnsDriver) → Fleet → D.State → Option String → List PoolStatus × Option Text
unfolding lookup insert_all
dns_status D fleet s wanted = elim fleet.dns [
  | none ↦ ([], some (lit "no dns pools configured"))
  | some dns ↦ if is_empty dns.pools then ([], some (lit "no dns pools configured")) else (
    map (pool_status D s (insert_all [] (name_pairs fleet.clusters))) (of_record wanted dns.pools),
    none,
  )
]
