-- ===== src/Operations/Catchup/Sampler.antt =====
-- `default_sampler` of src/solfleet/operations.py: the sample that the answers of the endpoints make.
use solfleet.Prelude.{
  ℕ, Bool, false, ◌&&◌, ◌≡◌, refl, String, Option, none, some, ◌==◌, if◌then◌else◌, arith, inl, inr,
  Bool-cases,
}
use solfleet.Config.{Node}
use solfleet.Probe.Run.{Answer, result, rpc_error, http_error, Rpc, says_ok, lag_between}
use solfleet.Probe.Facts.{is_up, answers_ok}
use solfleet.Executor.{Sample}
use solfleet.Operations.Catchup.{is_caught_up, within}

-- What an answer of getSlot leaves: an error leaves `None`.
abbrev pub slot_or_none : Answer (Option ℕ) → Option ℕ
slot_or_none (result slot) = slot
slot_or_none (rpc_error e) = none
slot_or_none (http_error e) = none

abbrev sample_at : Option ℕ → Option Bool → Option ℕ → Sample
sample_at ref_slot healthy node_slot = record {
  healthy = healthy;
  node_slot = node_slot;
  ref_slot = ref_slot;
  lag = lag_between ref_slot node_slot;
}

-- The body of the second `try`: an answer that is no "ok" and an error of RPC count as not healthy, and an
-- error of HTTP ends it.
abbrev sample_node : Option ℕ → Answer (Option String) → Answer (Option ℕ) → Sample
sample_node ref_slot (result health) slot =
    sample_at ref_slot (some (says_ok health)) (slot_or_none slot)
sample_node ref_slot (rpc_error e) slot = sample_at ref_slot (some false) (slot_or_none slot)
sample_node ref_slot (http_error e) slot = sample_at ref_slot none none

module _ (rpc : Rpc) where
  abbrev sample_url : Option ℕ → Option String → Sample
  sample_url ref_slot none = sample_at ref_slot none none
  sample_url ref_slot (some url) =
      if url == ""
      then sample_at ref_slot none none
      else sample_node ref_slot (rpc.health url) (rpc.slot url)

  unfoldable pub default_sampler : Node → String → Sample
  default_sampler node reference_rpc =
      sample_url (slot_or_none (rpc.slot reference_rpc)) node.rpc_url

  -- The slot that the node answers.
  abbrev pub node_slot_of : Option String → Option ℕ
  node_slot_of none = none
  node_slot_of (some url) = slot_or_none (rpc.slot url)

  sample_node-is_caught_up :
      (max_lag : ℕ) (ref_slot : Option ℕ) (health : Answer (Option String))
      (slot : Answer (Option ℕ))
      → is_caught_up max_lag (sample_node ref_slot health slot)
        ≡ (answers_ok health && within max_lag (lag_between ref_slot (slot_or_none slot)))
  sample_node-is_caught_up max_lag ref_slot (result health) slot = ground arith
  sample_node-is_caught_up max_lag ref_slot (rpc_error e) slot = refl
  sample_node-is_caught_up max_lag ref_slot (http_error e) slot = refl

  sample_url-is_caught_up :
      (max_lag : ℕ) (ref_slot : Option ℕ) (url : Option String)
      → is_caught_up max_lag (sample_url ref_slot url)
        ≡ (is_up rpc url && within max_lag (lag_between ref_slot (node_slot_of url)))
  sample_url-is_caught_up max_lag ref_slot none = refl
  sample_url-is_caught_up max_lag ref_slot (some url) = elim (Bool-cases (url == "")) [
    | inl empty ↦ rw empty refl
    | inr named ↦
        rw named (sample_node-is_caught_up max_lag ref_slot (rpc.health url) (rpc.slot url))
  ]

  -- A sample counts as caught up exactly if the node has an RPC address that answers getHealth with ok,
  -- and both it and the reference answered a slot, the node at most the lag behind.
  pub default_sampler-is_caught_up :
      (max_lag : ℕ) (node : Node) (reference_rpc : String)
      → is_caught_up max_lag (default_sampler node reference_rpc) ≡ (
          is_up rpc node.rpc_url
          && within max_lag
              (lag_between (slot_or_none (rpc.slot reference_rpc)) (node_slot_of node.rpc_url)))
  unfolding default_sampler
  default_sampler-is_caught_up max_lag node reference_rpc =
      sample_url-is_caught_up max_lag (slot_or_none (rpc.slot reference_rpc)) node.rpc_url
