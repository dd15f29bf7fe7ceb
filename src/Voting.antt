-- ===== src/Voting.antt =====
-- src/solfleet/voting.py: `vote_status`. What the endpoints answer is a parameter; an error of RPC or of HTTP
-- is its text. Amounts are in lamports where the source shows SOL as a float, and the rounded balance is in
-- units of 0.0001 SOL, half to even.
pub mod Voters
use Prim.Native.Nat.{◌%◌}
use solfleet.Prelude.{
  ℕ, ◌+◌, ◌-◌, ◌/◌, Bool, true, false, ◌&&◌, ◌||◌, not, List, [], ◌∷◌, String, Option, none, some,
  ◌==◌, ltb, leb, eqb, if◌then◌else◌,
}
use solfleet.Prelude.Text.{Text, str}
use solfleet.Config.{Node, Cluster, Fleet, rpc, validator}
use solfleet.Config.Find.{Found, find_node}
use solfleet.Schedule.{LeaderReport}
use solfleet.Probe.Run.{Answer, result, rpc_error, http_error}
use solfleet.Probe.Clusters.{last_credits}
use solfleet.Operations.{Reply, refused, reply, unknown_node}

-- An account of getVoteAccounts.
pub record Account : Type 0 where
  pub node_pubkey : String
  pub vote_pubkey : Option String
  pub epoch_credits : List (ℕ × ℕ × ℕ)
  pub last_vote : Option ℕ
  pub root_slot : Option ℕ
  pub commission : Option ℕ
  pub activated_stake : ℕ

pub record Accounts : Type 0 where
  pub current : List Account
  pub delinquent : List Account

-- `balance` is asked with an endpoint and an identity and answers lamports; `leader` is `leader_windows`, or
-- `none` for what it raises.
pub record VoteRpc : Type 0 where
  pub accounts : String → Answer Accounts
  pub balance : String → String → Answer (Option ℕ)
  pub slot : String → Answer ℕ
  pub leader : String → String → Option LeaderReport

-- The keys of the balance: the balance with the warning, or the error.
pub data Balance : Type 0 where
  holds : ℕ → Bool → Balance
  unknown : String → Balance

-- The keys `slot_lag` and `caught_up`: both, neither, or a `caught_up` that is `None`.
pub data Progress : Type 0 where
  lags : ℕ → Bool → Progress
  not_asked : Progress
  failed : Progress

-- The keys of the vote account.
pub record VoteState : Type 0 where
  pub vote_account : Option String
  pub delinquent : Bool
  pub credits : ℕ
  pub last_vote : Option ℕ
  pub root_slot : Option ℕ
  pub commission : Option ℕ
  pub activated_stake : ℕ

pub record VoteReport : Type 0 where
  pub node : String
  pub cluster : String
  pub identity : String
  pub vote_account_error : Option String
  pub balance : Balance
  pub progress : Progress
  pub leader : Option LeaderReport
  pub in_vote_set : Bool
  pub voting : Bool
  pub vote : Option VoteState

abbrev not_voting_validator : String → Text
not_voting_validator name =
    str name ∷ str " is not a voting validator (needs role=validator and an identity pubkey)" ∷ []

abbrev Match : Type 0
Match = Option (Account × Bool)

-- The inner loop: the last account of the identity stays.
unfoldable pub match_group : String → Bool → Match → List Account → Match
match_group identity is_delinquent found [] = found
match_group identity is_delinquent found (a ∷ group) =
    match_group identity is_delinquent
      (if a.node_pubkey == identity then some (a, is_delinquent) else found) group

unfoldable pub find_account : String → Answer Accounts → Match
unfolding match_group
find_account identity (result accounts) =
    match_group identity true (match_group identity false none accounts.current) accounts.delinquent
find_account identity (rpc_error e) = none
find_account identity (http_error e) = none

abbrev pub error_of : {A : Type 0} → Answer A → Option String
error_of (result _) = none
error_of (rpc_error e) = some e
error_of (http_error e) = some e

-- `round(lamports / LAMPORTS_PER_SOL, 4)`
abbrev rounded_sol : ℕ → ℕ
rounded_sol lamports =
    let q = lamports / 100000 in
    let r = lamports % 100000 in if ltb 50000 r || (eqb r 50000 && eqb (q % 2) 1) then q + 1 else q

-- An absent amount counts as nothing; the threshold is 1.0 SOL.
abbrev holding : ℕ → Balance
holding lamports = holds (rounded_sol lamports) (ltb (rounded_sol lamports) 10000)

abbrev balance_of : Answer (Option ℕ) → Balance
balance_of (result none) = holding 0
balance_of (result (some lamports)) = holding lamports
balance_of (rpc_error e) = unknown e
balance_of (http_error e) = unknown e

abbrev progress_of_node : ℕ → Answer ℕ → Progress
progress_of_node ref_slot (result node_slot) =
    lags (ref_slot - node_slot) (leb (ref_slot - node_slot) 2)
progress_of_node ref_slot (rpc_error e) = failed
progress_of_node ref_slot (http_error e) = failed

abbrev progress_at : (String → Answer ℕ) → ℕ → Option String → Progress
progress_at slot ref_slot none = not_asked
progress_at slot ref_slot (some url) =
    if url == "" then not_asked else progress_of_node ref_slot (slot url)

abbrev progress_of : (String → Answer ℕ) → Option String → Answer ℕ → Progress
progress_of slot rpc_url (result ref_slot) = progress_at slot ref_slot rpc_url
progress_of slot rpc_url (rpc_error e) = failed
progress_of slot rpc_url (http_error e) = failed

abbrev vote_state : Account → Bool → VoteState
vote_state a delinquent = record {
  vote_account = a.vote_pubkey;
  delinquent = delinquent;
  credits = last_credits a.epoch_credits;
  last_vote = a.last_vote;
  root_slot = a.root_slot;
  commission = a.commission;
  activated_stake = a.activated_stake;
}

abbrev with_match : VoteReport → Match → VoteReport
with_match out none = out
with_match out (some (a, delinquent)) = record out {
  in_vote_set = true;
  voting = not delinquent;
  vote = some (vote_state a delinquent);
}

module _ (endpoints : VoteRpc) (node_name : String) where
  unfoldable pub report_of : String → Cluster → Node → String → VoteReport
  unfolding find_account
  report_of cluster_name cluster node identity =
      let ref = cluster.reference_rpc in
      let accounts = endpoints.accounts ref in
      let out : VoteReport = record {
        node = node_name;
        cluster = cluster_name;
        identity = identity;
        vote_account_error = error_of accounts;
        balance = balance_of (endpoints.balance ref identity);
        progress = progress_of endpoints.slot node.rpc_url (endpoints.slot ref);
        leader = endpoints.leader ref identity;
        in_vote_set = false;
        voting = false;
        vote = none;
      } in
      with_match out (find_account identity accounts)

  abbrev status_with : String → Cluster → Node → Option String → Reply VoteReport
  status_with cluster_name cluster node none = refused (not_voting_validator node_name)
  status_with cluster_name cluster node (some identity) =
      if identity == ""
      then refused (not_voting_validator node_name)
      else reply (report_of cluster_name cluster node identity)

  abbrev status_of : Found → Reply VoteReport
  status_of (cluster_name, cluster, node) = elim node.role [
    | rpc ↦ refused (not_voting_validator node_name)
    | validator ↦ status_with cluster_name cluster node node.identity
  ]

  unfoldable pub vote_status : Fleet → Reply VoteReport
  unfolding find_node report_of
  vote_status fleet = elim (find_node fleet node_name) [
    | none ↦ refused (unknown_node node_name)
    | some found ↦ status_of found
  ]
