-- ===== src/Watch/Eject.antt =====
-- When `should_eject` of src/solfleet/watch.py pulls a node.
use solfleet.Prelude.{
  ℕ, ◌+◌, Bool, true, false, ◌&&◌, ◌||◌, not, Option, none, some, length, ltb, if◌then◌else◌, ◌≡◌,
  arith,
}
use solfleet.Config.{EjectWhen}
use solfleet.Probe.{NodeStatus}
use solfleet.Watch.{should_eject}

-- Nothing is known of the node, it did not answer, or it answered that it is not healthy.
abbrev pub is_sick : Option NodeStatus → Bool
is_sick none = true
is_sick (some status) = elim status.reachable [
  | false ↦ true
  | true ↦ elim status.healthy [ none ↦ false | some healthy ↦ not healthy ]
]

-- The lag is known and above a limit that is set.
abbrev pub lags_behind : Option NodeStatus → Option ℕ → Bool
lags_behind none limit = false
lags_behind (some status) none = false
lags_behind (some status) (some limit) = elim status.slot_lag [
  | none ↦ false
  | some lag ↦ ltb limit lag
]

abbrev pub is_delinquent : Option NodeStatus → Bool
is_delinquent none = false
is_delinquent (some status) = elim status.delinquent [ none ↦ false | some late ↦ late ]

abbrev pub one_if : Bool → ℕ
one_if b = if b then 1 else 0

-- A node is pulled exactly if an enabled condition is met, with one reason for each condition that is met:
-- it is sick, which a node with no probe result, an unreachable one and one that is known not to be
-- healthy are; its lag is known and above the limit that is set; or it is known to be delinquent.
pub should_eject_exact :
    (status : Option NodeStatus) (ew : EjectWhen)
    → ((should_eject status ew).0 ≡ (
        ew.unhealthy && is_sick status
        || lags_behind status ew.slot_lag
        || ew.delinquent && is_delinquent status))
      × (length (should_eject status ew).1
          ≡ one_if (ew.unhealthy && is_sick status)
            + one_if (lags_behind status ew.slot_lag)
            + one_if (ew.delinquent && is_delinquent status))
unfolding should_eject
should_eject_exact none ew = (ground arith, ground arith)
should_eject_exact (some status) ew = (ground arith, ground arith)
