-- ===== src/Probe.antt =====
-- src/solfleet/probe.py: what a probe reports. `activated_stake` is in lamports: the source shows it in
-- SOL as a float.
pub mod Run
pub mod Clusters
pub mod Facts
use solfleet.Prelude.{ℕ, Bool, List, String, Option}
use solfleet.Prelude.Text.{Text}
use solfleet.Config.{Role}

pub record NodeStatus : Type 0 where
  pub name : String
  pub cluster : String
  pub role : Role
  pub reachable : Bool
  pub healthy : Option Bool
  pub version : Option String
  pub slot : Option ℕ
  pub slot_lag : Option ℕ
  pub delinquent : Option Bool
  pub activated_stake : Option ℕ
  pub vote_credits : Option ℕ
  pub last_vote : Option ℕ
  pub error : Option Text

pub record ClusterStatus : Type 0 where
  pub name : String
  pub reference_rpc : String
  pub reference_slot : Option ℕ
  pub reference_version : Option String
  pub reference_error : Option Text
  pub nodes : List NodeStatus
