-- ===== src/Voting/Voters.antt =====
-- When `vote_status` of src/solfleet/voting.py counts a validator as voting.
use solfleet.Prelude.{
  Bool, true, false, ◌&&◌, ◌||◌, not, List, [], ◌∷◌, String, Option, none, some, any, ◌==◌, ◌≡◌,
  refl, arith, ◌∙◌, ap, if◌then◌else◌, Bool-cases, inl, inr, is_some, sym, Option-cases,
}
use solfleet.Config.{Node, Cluster}
use solfleet.Probe.Run.{Answer, result, rpc_error, http_error}
use solfleet.Voting.{Account, Accounts, VoteRpc, match_group, find_account, report_of}

||-false : (b : Bool) → b || false ≡ b
||-false b = ground arith

||-true : (b : Bool) → b || true ≡ true
||-true b = ground arith

-- The identity has an account in the group.
abbrev pub listed : String → List Account → Bool
listed identity group = any group (λ a. a.node_pubkey == identity)

abbrev is_current : Option (Account × Bool) → Bool
is_current none = false
is_current (some (a, delinquent)) = not delinquent

-- What the answer says of the identity: an account that is current, and none that is delinquent.
abbrev pub votes : String → Answer Accounts → Bool
votes identity (result accounts) =
    listed identity accounts.current && not (listed identity accounts.delinquent)
votes identity (rpc_error e) = false
votes identity (http_error e) = false

-- The identity has an account, current or delinquent.
abbrev pub seen : String → Answer Accounts → Bool
seen identity (result accounts) =
    listed identity accounts.current || listed identity accounts.delinquent
seen identity (rpc_error e) = false
seen identity (http_error e) = false

if_same : (c b : Bool) → (if c then b else b) ≡ b
if_same true b = refl
if_same false b = refl

module _ (identity : String) (is_delinquent : Bool) where
  is_current-match_group :
      (found : Option (Account × Bool)) (group : List Account)
      → is_current (match_group identity is_delinquent found group)
        ≡ (if listed identity group then not is_delinquent else is_current found)
  unfolding match_group
  is_current-match_group found [] = refl
  is_current-match_group found (a ∷ group) = elim (Bool-cases (a.node_pubkey == identity)) [
    | inl same ↦
        rw (same, match_group)
          (is_current-match_group (some (a, is_delinquent)) group
            ∙ if_same (listed identity group) (not is_delinquent))
    | inr other ↦ rw (other, match_group) (is_current-match_group found group)
  ]

  is_some-match_group :
      (found : Option (Account × Bool)) (group : List Account)
      → is_some (match_group identity is_delinquent found group)
        ≡ (is_some found || listed identity group)
  unfolding match_group
  is_some-match_group found [] = sym (||-false (is_some found))
  is_some-match_group found (a ∷ group) = elim (Bool-cases (a.node_pubkey == identity)) [
    | inl same ↦
        rw (same, match_group)
          (is_some-match_group (some (a, is_delinquent)) group ∙ sym (||-true (is_some found)))
    | inr other ↦ rw (other, match_group) (is_some-match_group found group)
  ]

votes-find_account :
    (identity : String) (answer : Answer Accounts)
    → is_current (find_account identity answer) ≡ votes identity answer
unfolding find_account
votes-find_account identity (rpc_error e) = refl
votes-find_account identity (http_error e) = refl
votes-find_account identity (result accounts) = ground (
  arith,
  is_current-match_group identity true (match_group identity false none accounts.current)
      accounts.delinquent,
  is_current-match_group identity false none accounts.current,
)

seen-find_account :
    (identity : String) (answer : Answer Accounts)
    → is_some (find_account identity answer) ≡ seen identity answer
unfolding find_account
seen-find_account identity (rpc_error e) = refl
seen-find_account identity (http_error e) = refl
seen-find_account identity (result accounts) =
    is_some-match_group identity true (match_group identity false none accounts.current)
      accounts.delinquent
    ∙ ap (λ b. b || listed identity accounts.delinquent)
        (is_some-match_group identity false none accounts.current)

module _ (endpoints : VoteRpc) (node_name cluster_name : String) (cluster : Cluster) (node : Node)
    (identity : String) where
  abbrev answer : Answer Accounts
  answer = endpoints.accounts cluster.reference_rpc

  -- The voting report counts a validator as voting exactly if the vote accounts were answered, with an
  -- account of its identity that is current and none that is delinquent, and as in the vote set exactly if
  -- they were answered with an account of it of either kind.
  pub report_of-voting :
      ((report_of endpoints node_name cluster_name cluster node identity).voting
        ≡ votes identity (endpoints.accounts cluster.reference_rpc))
      × ((report_of endpoints node_name cluster_name cluster node identity).in_vote_set
          ≡ seen identity (endpoints.accounts cluster.reference_rpc))
  unfolding report_of
  report_of-voting = elim (Option-cases (find_account identity answer)) [
    | inl absent ↦
        rw (absent, report_of)
          (
            sym (ap is_current absent) ∙ votes-find_account identity answer,
            sym (ap is_some absent) ∙ seen-find_account identity answer,
          )
    | inr (m, there) ↦
        rw (there, report_of)
          (
            sym (ap is_current there) ∙ votes-find_account identity answer,
            sym (ap is_some there) ∙ seen-find_account identity answer,
          )
  ]
