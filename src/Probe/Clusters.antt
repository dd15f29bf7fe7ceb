-- ===== src/Probe/Clusters.antt =====
-- `probe_cluster` and `probe_fleet` of src/solfleet/probe.py. The probes of the nodes and of the clusters
-- run at the same time and only read, so they are listed in order.
use solfleet.Prelude.{
  ℕ, Bool, true, false, List, [], ◌∷◌, ◌++◌, String, Option, none, some, map, any, truthy,
  if◌then◌else◌,
}
use solfleet.Prelude.Text.{Text, str}
use solfleet.Prelude.Dict.{Dict, insert_all}
use solfleet.Config.{Node, Cluster, Fleet}
use solfleet.Probe.{ClusterStatus}
use solfleet.Probe.Run.{
  Answer, result, rpc_error, http_error, VoteAccount, VoteAccounts, Rpc, VoteEntry, probe_node,
}

-- `ec[-1][1] if ec else 0`
abbrev pub last_credits : List (ℕ × ℕ × ℕ) → ℕ
last_credits [] = 0
last_credits ((_, credits, _) ∷ []) = credits
last_credits (_ ∷ e ∷ es) = last_credits (e ∷ es)

abbrev vote_entry : Bool → VoteAccount → String × VoteEntry
vote_entry is_delinquent acct = (
  acct.node_pubkey,
  record {
    delinquent = is_delinquent;
    stake = acct.activated_stake;
    credits = last_credits acct.epoch_credits;
    last_vote = acct.last_vote;
  },
)

unfoldable pub votes_of : VoteAccounts → Dict VoteEntry
unfolding insert_all
votes_of accounts =
    insert_all []
      (map (vote_entry false) accounts.current ++ map (vote_entry true) accounts.delinquent)

-- What the calls of the reference leave behind.
pub record Reference : Type 0 where
  pub slot : Option ℕ
  pub version : Option String
  pub votes : Option (Dict VoteEntry)
  pub error : Option Text

abbrev reference_failed : String → Option Text
reference_failed e = some (str "reference rpc failed: " ∷ str e ∷ [])

abbrev has_identity : Node → Bool
has_identity node = truthy node.identity

abbrev with_accounts : Reference → Answer VoteAccounts → Reference
with_accounts r (result accounts) = record r { votes = some (votes_of accounts) }
with_accounts r (rpc_error e) = record r { error = reference_failed e }
with_accounts r (http_error e) = record r { error = reference_failed e }

abbrev with_reference_version :
    Bool → Reference → Answer (Option String) → Answer VoteAccounts → Reference
with_reference_version ask r (rpc_error e) accounts = record r { error = reference_failed e }
with_reference_version ask r (http_error e) accounts = record r { error = reference_failed e }
with_reference_version ask r (result version) accounts =
    if ask
    then with_accounts (record r { version = version }) accounts
    else record r { version = version }

abbrev with_reference_slot :
    Bool → Answer (Option ℕ) → Answer (Option String) → Answer VoteAccounts → Reference
with_reference_slot ask (rpc_error e) version accounts = record {
  slot = none;
  version = none;
  votes = none;
  error = reference_failed e;
}
with_reference_slot ask (http_error e) version accounts = record {
  slot = none;
  version = none;
  votes = none;
  error = reference_failed e;
}
with_reference_slot ask (result slot) version accounts =
    with_reference_version ask (record { slot = slot; version = none; votes = none; error = none })
      version accounts

module _ (rpc : Rpc) where
  -- The body of the `try`; the votes are asked for if some node has an identity.
  unfoldable pub probe_reference : Cluster → Reference
  unfolding votes_of
  probe_reference cluster =
      let url = cluster.reference_rpc in
      with_reference_slot (any cluster.nodes has_identity) (rpc.slot url) (rpc.version url)
        (rpc.vote_accounts url)

  unfoldable pub probe_cluster : String × Cluster → ClusterStatus
  unfolding probe_reference probe_node
  probe_cluster (name, cluster) =
      let r = probe_reference cluster in
      record {
        name = name;
        reference_rpc = cluster.reference_rpc;
        reference_slot = r.slot;
        reference_version = r.version;
        reference_error = r.error;
        nodes = map (probe_node rpc name r.slot r.votes) cluster.nodes;
      }

  unfoldable pub probe_fleet : Fleet → List ClusterStatus
  unfolding probe_cluster
  probe_fleet fleet = map probe_cluster fleet.clusters
