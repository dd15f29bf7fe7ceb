-- ===== src/Watch/Round/Totality.antt =====
-- On an accepted fleet no round of src/solfleet/watch.py raises `KeyError`.
use solfleet.Prelude.{
  Bool, true, List, [], ◌∷◌, ◌++◌, String, none, map, mem, is_empty, is_some, ok, ◌≡◌, refl, ◌∙◌,
  sym, ap, arith, inl, inr, Bool-cases, Option-cases, All, All-map,
}
use solfleet.Prelude.Dict.{Dict, lookup, lookup-insert_all, is_some-last_value, keys}
use solfleet.Config.{Node, Cluster, Pool, Fleet}
use solfleet.Config.Find.{find_node, is_some-find_node, all_names, names}
use solfleet.Config.Validate.{IsAccepted}
use solfleet.Config.Accepted.{pool_members_found}
use solfleet.Dns.{DnsSession, DnsDriver}
use solfleet.Probe.{NodeStatus, ClusterStatus}
use solfleet.Watch.{PoolReport, resolve, plan_pool, node_ips, host_pairs, status_by_name}
use solfleet.Watch.Round.{WatchReport, no_pools, act_on, watch_pool, watch_pools, watch_once}

keys-hosts :
    (nodes : List Node) (rest : List (String × String))
    → keys (map (λ n. (n.name, n.host)) nodes ++ rest) ≡ names nodes ++ keys rest
unfolding keys
keys-hosts [] rest = refl
keys-hosts (n ∷ nodes) rest = ap (λ ks. n.name ∷ ks) (keys-hosts nodes rest)

keys-host_pairs : (clusters : Dict Cluster) → keys (host_pairs clusters) ≡ all_names clusters
unfolding keys
keys-host_pairs [] = refl
keys-host_pairs ((_, cluster) ∷ rest) =
    keys-hosts cluster.nodes (host_pairs rest)
    ∙ ap (λ ks. names cluster.nodes ++ ks) (keys-host_pairs rest)

-- The watch knows an address for exactly the names that find_node finds.
pub is_some-node_ips :
    (fleet : Fleet) (m : String) → is_some (lookup m (node_ips fleet)) ≡ is_some (find_node fleet m)
unfolding node_ips lookup
is_some-node_ips fleet m =
    ap is_some (lookup-insert_all m [] (host_pairs fleet.clusters))
    ∙ is_some-last_value m none (host_pairs fleet.clusters)
    ∙ ap (mem m) (keys-host_pairs fleet.clusters)
    ∙ sym (is_some-find_node fleet m)

resolve_total :
    (ips : Dict String) (members : List String)
    → All (λ m. is_some (lookup m ips) ≡ true) members
    → (resolved : List (String × String)) × (resolve ips members ≡ ok resolved)
unfolding resolve
resolve_total ips [] h = ([], refl)
resolve_total ips (m ∷ members) h =
    let (rest, e) = resolve_total ips members h.1 in
    elim (Option-cases (lookup m ips)) [
      | inl absent ↦ absurd (ground arith)
      | inr (ip, at) ↦ ((m, ip) ∷ rest, rw (at, resolve, e))
    ]

module _ (D : DnsDriver) (statuses : Dict NodeStatus) (ips : Dict String) (dry : Bool) where
  watch_pools_total :
      (pools : List Pool)
      → All (λ pool. All (λ m. is_some (lookup m ips) ≡ true) pool.members) pools
      → (s : DnsSession D.State)
      → (reports : List PoolReport) × ((watch_pools D ips statuses dry pools s).0 ≡ ok reports)
  unfolding watch_pools watch_pool
  watch_pools_total [] h s = ([], refl)
  watch_pools_total (pool ∷ pools) h s =
      let (members, e) = resolve_total ips pool.members h.0 in
      let report = plan_pool statuses pool members (D.list_members s.dns pool.record_name) in
      let (reports, er) = watch_pools_total pools h.1 (act_on D dry pool report s) in
      (report ∷ reports, rw (e, watch_pool, er))

-- On a fleet that the validators accept, a round of the watch raises nothing and returns a report.
pub watch_once_total :
    (D : DnsDriver) (fleet : Fleet) (clusters : List ClusterStatus) (dry : Bool)
    (s : DnsSession D.State)
    → IsAccepted fleet
    → (report : WatchReport) × ((watch_once D fleet clusters dry s).0 ≡ ok report)
unfolding watch_once
watch_once_total D fleet clusters dry s accepted = elim (Option-cases fleet.dns) [
  | inl absent ↦ (no_pools, rw (absent, watch_once))
  | inr (dns, e) ↦ elim (Bool-cases (is_empty dns.pools)) [
    | inl empty ↦ (no_pools, rw (e, watch_once, empty))
    | inr some_pool ↦
        let known =
          All-map dns.pools
            (λ pool h. All-map pool.members (λ m found. is_some-node_ips fleet m ∙ found) h)
            (pool_members_found fleet dns accepted e) in
        let (reports, er) =
          watch_pools_total D (status_by_name clusters) (node_ips fleet) dry dns.pools known s in
        (record { pools = reports; note = none }, rw (e, watch_once, some_pool, er))
  ]
]
