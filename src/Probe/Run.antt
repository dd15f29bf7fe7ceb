-- ===== src/Probe/Run.antt =====
-- `probe_node` of src/solfleet/probe.py. The JSON-RPC endpoints are a
-- parameter: what each of the methods answers at a URL, with an error of RPC or of HTTP as its text.
use solfleet.Prelude.{
  ℕ, ◌-◌, Bool, true, false, List, [], ◌∷◌, String, Option, none, some, ◌==◌, if◌then◌else◌,
}
use solfleet.Prelude.Text.{lit, str}
use solfleet.Prelude.Dict.{Dict, lookup}
use solfleet.Config.{Node}
use solfleet.Probe.{NodeStatus}

pub data Answer (A : Type 0) : Type 0 where
  result : A → Answer A
  rpc_error : String → Answer A
  http_error : String → Answer A

-- An account of getVoteAccounts; an element of `epochCredits` is an epoch, the credits, and those before.
pub record VoteAccount : Type 0 where
  pub node_pubkey : String
  pub activated_stake : ℕ
  pub epoch_credits : List (ℕ × ℕ × ℕ)
  pub last_vote : Option ℕ

pub record VoteAccounts : Type 0 where
  pub current : List VoteAccount
  pub delinquent : List VoteAccount

-- `version` is the field `solana-core` of the answer.
pub record Rpc : Type 0 where
  pub health : String → Answer (Option String)
  pub version : String → Answer (Option String)
  pub slot : String → Answer (Option ℕ)
  pub vote_accounts : String → Answer VoteAccounts

pub record VoteEntry : Type 0 where
  pub delinquent : Bool
  pub stake : ℕ
  pub credits : ℕ
  pub last_vote : Option ℕ

abbrev blank : String → Node → NodeStatus
blank cluster_name node = record {
  name = node.name;
  cluster = cluster_name;
  role = node.role;
  reachable = false;
  healthy = none;
  version = none;
  slot = none;
  slot_lag = none;
  delinquent = none;
  activated_stake = none;
  vote_credits = none;
  last_vote = none;
  error = none;
}

abbrev with_entry : NodeStatus → Option VoteEntry → NodeStatus
with_entry status none = status
with_entry status (some entry) = record status {
  delinquent = some entry.delinquent;
  activated_stake = some entry.stake;
  vote_credits = some entry.credits;
  last_vote = entry.last_vote;
}

-- `if node.identity and vote_status is not None`
abbrev pub with_votes : NodeStatus → Option String → Option (Dict VoteEntry) → NodeStatus
with_votes status (some identity) (some votes) =
    if identity == "" then status else with_entry status (lookup identity votes)
with_votes status _ _ = status

-- `max(0, reference_slot - slot)`, if both are known.
abbrev pub lag_between : Option ℕ → Option ℕ → Option ℕ
lag_between (some reference) (some slot) = some (reference - slot)
lag_between _ _ = none

-- `health == "ok"`
abbrev pub says_ok : Option String → Bool
says_ok none = false
says_ok (some text) = text == "ok"

abbrev unreachable : NodeStatus → String → NodeStatus
unreachable status e = record status { error = some (str "unreachable: " ∷ str e ∷ []) }

abbrev failed : NodeStatus → String → NodeStatus
failed status e = record status { error = some (lit e) }

-- From the answer of getSlot on.
abbrev with_slot : Option ℕ → NodeStatus → Answer (Option ℕ) → NodeStatus
with_slot reference status (result slot) = record status {
  slot = slot;
  slot_lag = lag_between reference slot;
}
with_slot reference status (rpc_error e) = failed status e
with_slot reference status (http_error e) = failed status e

-- From the answer of getVersion on.
abbrev pub with_version :
    Option ℕ → NodeStatus → Answer (Option String) → Answer (Option ℕ) → NodeStatus
with_version reference status (result version) slot =
    with_slot reference (record status { version = version }) slot
with_version reference status (rpc_error e) slot = failed status e
with_version reference status (http_error e) slot = failed status e

module _ (rpc : Rpc) where
  -- The body of the outer `try`.
  abbrev pub with_health : Option ℕ → NodeStatus → String → Answer (Option String) → NodeStatus
  with_health reference status url (http_error e) = unreachable status e
  with_health reference status url (rpc_error e) =
      with_version reference (record status { healthy = some false; reachable = true })
        (rpc.version url) (rpc.slot url)
  with_health reference status url (result health) =
      with_version reference (record status { healthy = some (says_ok health); reachable = true })
        (rpc.version url) (rpc.slot url)

  abbrev pub probe_url : Option ℕ → NodeStatus → Option String → NodeStatus
  probe_url reference status none =
      failed status "no rpc_url configured; probe limited to cluster-side data"
  probe_url reference status (some url) =
      if url == ""
      then failed status "no rpc_url configured; probe limited to cluster-side data"
      else with_health reference status url (rpc.health url)

  unfoldable pub probe_node : String → Option ℕ → Option (Dict VoteEntry) → Node → NodeStatus
  unfolding lookup
  probe_node cluster_name reference votes node =
      probe_url reference (with_votes (blank cluster_name node) node.identity votes) node.rpc_url
