-- ===== src/Tests/Voters.antt =====
-- The theorem on the voting report at the validator of the test fleet.
use solfleet.Prelude.{[], ◌∷◌, none, some, ◌≡◌}
use solfleet.Probe.Run.{result}
use solfleet.Voting.{Account, VoteRpc, report_of}
use solfleet.Voting.Voters.{votes, seen, report_of-voting}
use solfleet.Tests.Data.{voter, mainnet}

abbrev account : Account
account = record {
  node_pubkey = "Vote111";
  vote_pubkey = some "Acct111";
  epoch_credits = (500, 1200, 900) ∷ [];
  last_vote = some 999;
  root_slot = some 960;
  commission = some 5;
  activated_stake = 2000000000;
}

-- The identity is current, and its balance is below one SOL.
abbrev endpoints : VoteRpc
endpoints = record {
  accounts = λ url. result (record { current = account ∷ []; delinquent = [] });
  balance = λ url identity. result (some 900000000);
  slot = λ url. result 1000;
  leader = λ url identity. none;
}

report_of-voting_example :
    ((report_of endpoints "v" "mainnet" mainnet voter "Vote111").voting
      ≡ votes "Vote111" (endpoints.accounts "https://api.example.com"))
    × ((report_of endpoints "v" "mainnet" mainnet voter "Vote111").in_vote_set
        ≡ seen "Vote111" (endpoints.accounts "https://api.example.com"))
report_of-voting_example = report_of-voting endpoints "v" "mainnet" mainnet voter "Vote111"
