-- ===== src/Watch.antt =====
-- src/solfleet/watch.py: one round of the DNS failover loop, and the loop. What a probe answers is an
-- argument. The proofs stand in the modules below.
pub mod Eject
pub mod Round
use solfleet.Prelude.{
  ℕ, Bool, true, false, ◌&&◌, ◌||◌, not, List, [], ◌∷◌, ◌++◌, String, Option, none, some, map, ltb,
  is_empty, inter, diff, sorted_set, if◌then◌else◌, key_error, Result, ok, err, ◌>>=◌,
}
use solfleet.Prelude.Text.{Text, lit, str, num}
use solfleet.Prelude.Dict.{Dict, lookup, insert_all}
use solfleet.Json
use solfleet.Json.{Json, object}
use solfleet.Safety.{dry_run, execute}
use solfleet.Audit.{Entry}
use solfleet.Config.{Cluster, EjectWhen, Pool, Fleet}
use solfleet.Probe.{NodeStatus, ClusterStatus}

abbrev is_false : Option Bool → Bool
is_false (some false) = true
is_false _ = false

abbrev is_true : Option Bool → Bool
is_true (some true) = true
is_true _ = false

-- `status is None or not status.reachable or status.healthy is False`
abbrev pub unhealthy : Option NodeStatus → Bool
unhealthy none = true
unhealthy (some status) = not status.reachable || is_false status.healthy

-- The reason for a lag above the limit, if both are known.
abbrev lag_reason : Option ℕ → Option ℕ → List Text
lag_reason (some lag) (some limit) =
    if ltb limit lag then (str "slot_lag " ∷ num lag ∷ str " > " ∷ num limit ∷ []) ∷ [] else []
lag_reason _ _ = []

abbrev pub lag_of : Option NodeStatus → Option ℕ
lag_of none = none
lag_of (some status) = status.slot_lag

abbrev pub delinquent_of : Option NodeStatus → Bool
delinquent_of none = false
delinquent_of (some status) = is_true status.delinquent

abbrev eject_reasons : Option NodeStatus → EjectWhen → List Text
eject_reasons status ew =
    (if ew.unhealthy && unhealthy status then lit "unhealthy or unreachable" ∷ [] else [])
    ++ (lag_reason (lag_of status) ew.slot_lag
        ++ (if ew.delinquent && delinquent_of status then lit "delinquent" ∷ [] else []))

unfoldable pub should_eject : Option NodeStatus → EjectWhen → Bool × List Text
should_eject status ew = let reasons = eject_reasons status ew in (not (is_empty reasons), reasons)

-- `{n.name: n.host for c in fleet.clusters.values() for n in c.nodes}`
abbrev pub host_pairs : Dict Cluster → List (String × String)
host_pairs [] = []
host_pairs ((_, cluster) ∷ rest) = map (λ n. (n.name, n.host)) cluster.nodes ++ host_pairs rest

unfoldable pub node_ips : Fleet → Dict String
unfolding insert_all
node_ips fleet = insert_all [] (host_pairs fleet.clusters)

abbrev pub status_pairs : List ClusterStatus → List (String × NodeStatus)
status_pairs [] = []
status_pairs (cluster ∷ rest) = map (λ n. (n.name, n)) cluster.nodes ++ status_pairs rest

unfoldable pub status_by_name : List ClusterStatus → Dict NodeStatus
unfolding insert_all
status_by_name clusters = insert_all [] (status_pairs clusters)

-- The members with `ips[m]`; the first name that is missing raises `KeyError`.
unfoldable pub resolve : Dict String → List String → Result (List (String × String))
unfolding lookup
resolve ips [] = ok []
resolve ips (m ∷ members) =
    let rest = resolve ips members in
    elim (lookup m ips) [
      | none ↦ err (key_error m)
      | some ip ↦ elim rest [ err e ↦ err e | ok resolved ↦ ok ((m, ip) ∷ resolved) ]
    ]

pub record Decision : Type 0 where
  pub ip : String
  pub eject : Bool
  pub reasons : List Text

abbrev pub decide : Dict NodeStatus → EjectWhen → String × String → String × Decision
decide statuses ew (m, ip) =
    let (eject, reasons) = should_eject (lookup m statuses) ew in
    (m, record { ip = ip; eject = eject; reasons = reasons })

pub record PoolReport : Type 0 where
  pub record_name : String
  pub current : List String
  pub decisions : Dict Decision
  pub protected : Bool
  pub note : Option Text
  pub added : List String
  pub removed : List String

-- `{ips[m] for m in pool.members if not decisions[m]["eject"]}`. A decision depends on the name alone,
-- so the pairs stand for the dict.
abbrev pub kept_ips : List (String × Decision) → List String
kept_ips [] = []
kept_ips ((_, d) ∷ rest) = let later = kept_ips rest in if d.eject then later else d.ip ∷ later

abbrev pub second : String × String → String
second (_, ip) = ip

abbrev pub desired_ips : Dict NodeStatus → Pool → List (String × String) → List String
desired_ips statuses pool members = kept_ips (map (decide statuses pool.eject_when) members)

abbrev keeping : Text
keeping = lit "all members failing; keeping current records to avoid NXDOMAIN"

-- The report of a pool whose members resolve, from the records that the driver lists.
unfoldable pub plan_pool :
    Dict NodeStatus → Pool → List (String × String) → List String → PoolReport
plan_pool statuses pool members current =
    let desired = desired_ips statuses pool members in
    let protected = is_empty desired in
    record {
      record_name = pool.record_name;
      current = sorted_set current;
      decisions = insert_all [] (map (decide statuses pool.eject_when) members);
      protected = protected;
      note = if protected then some keeping else none;
      added = if protected then [] else sorted_set (diff desired current);
      removed =
          if protected then [] else sorted_set (diff (inter current (map second members)) desired);
    }

abbrev decision_json : String × Decision → String × Json
decision_json (m, d) = (
  m,
  object (
      ("ip", Json.string d.ip)
      ∷ ("eject", Json.Json.bool d.eject)
      ∷ ("reasons", Json.texts d.reasons)
      ∷ []),
)

abbrev pub protected_entry : Bool → Pool → PoolReport → Entry
protected_entry dry pool report = record {
  operation = "dns_watch";
  cluster = pool.cluster;
  node = pool.record_name;
  mode = if dry then dry_run else execute;
  allowed = true;
  detail =
      some (
        object
          (("protected", Json.Json.bool true) ∷ ("current", Json.strings report.current) ∷ []));
}

abbrev pub changed_entry : Pool → PoolReport → Entry
changed_entry pool report = record {
  operation = "dns_watch";
  cluster = pool.cluster;
  node = pool.record_name;
  mode = execute;
  allowed = true;
  detail = some (
      object (
        ("added", Json.strings report.added)
        ∷ ("removed", Json.strings report.removed)
        ∷ ("decisions", object (map decision_json report.decisions))
        ∷ []));
}
