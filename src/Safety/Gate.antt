-- ===== src/Safety/Gate.antt =====
-- What `gate` of src/solfleet/safety.py decides.
use solfleet.Prelude.{
  Bool, true, false, ◌&&◌, List, [], ◌∷◌, String, all, is_empty, ◌≡◌, refl, arith,
}
use solfleet.Prelude.Text.{Text}
use solfleet.Safety.{Checks, GateDecision, gate, failed_messages, would_block}

-- The first fields of the checks.
abbrev pub passed : Bool × Text → Bool
passed (ok, message) = ok

pub is_empty-failed_messages :
    (checks : Checks) → is_empty (failed_messages checks) ≡ all checks passed
is_empty-failed_messages [] = refl
is_empty-failed_messages ((ok, message) ∷ checks) = ground (arith, is_empty-failed_messages checks)

module _ (operation cluster node : String) (plan : List Text) (checks : Checks) where
  abbrev decide : Bool → GateDecision
  decide confirm = gate operation cluster node confirm plan checks

  -- The preflight verdict is that every check passed, and a dry run gives the verdict that the
  -- execution of the same checks gives.
  pub gate-allowed :
      (confirm : Bool)
      → (gate operation cluster node confirm plan checks).allowed ≡ all checks passed
  unfolding gate
  gate-allowed confirm = is_empty-failed_messages checks

  -- The gate gives no reasons exactly if the operation is confirmed and every check passed.
  is_empty-gate-reasons :
      (confirm : Bool)
      → is_empty (gate operation cluster node confirm plan checks).reasons
        ≡ (confirm && all checks passed)
  unfolding gate
  is_empty-gate-reasons confirm = ground (arith, is_empty-failed_messages checks)

  -- If some check fails, a dry run gives the verdict of the execution, and the reasons of the execution
  -- behind one line that says what they are.
  gate_dry_run_predicts :
      (all checks passed ≡ false)
      → ((decide false).allowed ≡ (decide true).allowed)
        × ((decide false).reasons ≡ would_block ∷ (decide true).reasons)
        × ((decide true).reasons ≡ failed_messages checks)
  unfolding gate
  gate_dry_run_predicts h = ground (arith, is_empty-failed_messages checks)
