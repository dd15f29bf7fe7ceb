-- ===== src/Probe/Facts.antt =====
-- What the probe of src/solfleet/probe.py reports of a node, and what the watch of src/solfleet/watch.py
-- makes of it.
use solfleet.Prelude.{
  ℕ, Bool, false, ◌&&◌, not, String, Option, none, some, ◌==◌, ◌≡◌, refl, arith, inl, inr,
  Bool-cases, Option-cases, sym, ap, ◌∙◌,
}
use solfleet.Prelude.Dict.{Dict, lookup}
use solfleet.Config.{Node}
use solfleet.Probe.{NodeStatus}
use solfleet.Probe.Run.{
  Answer, result, rpc_error, http_error, Rpc, VoteEntry, lag_between, says_ok, with_votes,
  with_version, with_health, probe_url, probe_node,
}
use solfleet.Watch.{unhealthy}

-- The node answers getHealth with "ok".
abbrev pub answers_ok : Answer (Option String) → Bool
answers_ok (result health) = says_ok health
answers_ok _ = false

abbrev pub is_up : Rpc → Option String → Bool
is_up rpc none = false
is_up rpc (some url) = not (url == "") && answers_ok (rpc.health url)

lag_none : (reference : Option ℕ) → none ≡ lag_between reference none
lag_none none = refl
lag_none (some n) = refl

-- The fields before the first call to the node.
abbrev Fresh : NodeStatus → Type 0
Fresh status = (status.slot ≡ none) × (status.slot_lag ≡ none) × (status.reachable ≡ false)

with_votes-Fresh :
    (status : NodeStatus) (identity : Option String) (votes : Option (Dict VoteEntry))
    → Fresh status
    → Fresh (with_votes status identity votes)
with_votes-Fresh status none votes h = h
with_votes-Fresh status (some i) none h = h
with_votes-Fresh status (some i) (some votes) h = elim (Bool-cases (i == "")) [
  | inl empty ↦ rw empty h
  | inr named ↦ elim (Option-cases (lookup i votes)) [
    | inl absent ↦ rw (named, absent) h
    | inr (entry, e) ↦ rw (named, e) h
  ]
]

-- The lag fits the slot.
abbrev Fits : Option ℕ → NodeStatus → Type 0
Fits reference status = status.slot_lag ≡ lag_between reference status.slot

Fresh-Fits : (reference : Option ℕ) (status : NodeStatus) → Fresh status → Fits reference status
Fresh-Fits reference status (slot, lag, _) =
    lag ∙ lag_none reference ∙ ap (lag_between reference) (sym slot)

with_version-Fits :
    (reference : Option ℕ) (status : NodeStatus) (version : Answer (Option String))
    (slot : Answer (Option ℕ))
    → Fits reference status
    → Fits reference (with_version reference status version slot)
with_version-Fits reference status (result v) (result s) h = refl
with_version-Fits reference status (result v) (rpc_error e) h = h
with_version-Fits reference status (result v) (http_error e) h = h
with_version-Fits reference status (rpc_error e) slot h = h
with_version-Fits reference status (http_error e) slot h = h

unhealthy-with_version :
    (reference : Option ℕ) (status : NodeStatus) (version : Answer (Option String))
    (slot : Answer (Option ℕ))
    → unhealthy (some (with_version reference status version slot)) ≡ unhealthy (some status)
unhealthy-with_version reference status (result v) (result s) = refl
unhealthy-with_version reference status (result v) (rpc_error e) = refl
unhealthy-with_version reference status (result v) (http_error e) = refl
unhealthy-with_version reference status (rpc_error e) slot = refl
unhealthy-with_version reference status (http_error e) slot = refl

module _ (rpc : Rpc) (reference : Option ℕ) (status : NodeStatus) (fresh : Fresh status) where
  with_health-facts :
      (url : String) (health : Answer (Option String))
      → Fits reference (with_health rpc reference status url health)
        × (unhealthy (some (with_health rpc reference status url health)) ≡ not (answers_ok health))
  with_health-facts url (http_error e) = (Fresh-Fits reference status fresh, rw fresh.2 refl)
  with_health-facts url (rpc_error e) = (
    with_version-Fits reference _ (rpc.version url) (rpc.slot url)
        (Fresh-Fits reference status fresh),
    unhealthy-with_version reference _ (rpc.version url) (rpc.slot url),
  )
  with_health-facts url (result health) = (
    with_version-Fits reference _ (rpc.version url) (rpc.slot url)
        (Fresh-Fits reference status fresh),
    unhealthy-with_version reference _ (rpc.version url) (rpc.slot url) ∙ ground arith,
  )

  probe_url-facts :
      (url : Option String)
      → Fits reference (probe_url rpc reference status url)
        × (unhealthy (some (probe_url rpc reference status url)) ≡ not (is_up rpc url))
  probe_url-facts none = (Fresh-Fits reference status fresh, rw fresh.2 refl)
  probe_url-facts (some url) = elim (Bool-cases (url == "")) [
    | inl empty ↦ rw empty (Fresh-Fits reference status fresh, rw fresh.2 refl)
    | inr named ↦ rw named (with_health-facts url (rpc.health url))
  ]

-- The watch counts a probed node as unhealthy exactly if it has no RPC address or does not answer
-- getHealth with ok there, whatever the other calls answer.
pub unhealthy-probe_node :
    (rpc : Rpc) (cluster_name : String) (reference : Option ℕ) (votes : Option (Dict VoteEntry))
    (node : Node)
    → unhealthy (some (probe_node rpc cluster_name reference votes node))
      ≡ not (is_up rpc node.rpc_url)
unfolding probe_node
unhealthy-probe_node rpc cluster_name reference votes node =
    (probe_url-facts rpc reference _ (with_votes-Fresh _ node.identity votes (refl, refl, refl))
      node.rpc_url).1

-- The lag that a probe reports is the distance of the reported slot behind the reference, down to zero,
-- and is unknown exactly if one of the two is.
lag-probe_node :
    (rpc : Rpc) (cluster_name : String) (reference : Option ℕ) (votes : Option (Dict VoteEntry))
    (node : Node)
    → (probe_node rpc cluster_name reference votes node).slot_lag
      ≡ lag_between reference (probe_node rpc cluster_name reference votes node).slot
unfolding probe_node
lag-probe_node rpc cluster_name reference votes node =
    (probe_url-facts rpc reference _ (with_votes-Fresh _ node.identity votes (refl, refl, refl))
      node.rpc_url).0
