-- ===== src/Operations.antt =====
-- src/solfleet/operations.py: the orchestrated operations, a module for each.
pub mod Override
pub mod Catchup
pub mod Report
pub mod Restart
pub mod Upgrade
use solfleet.Prelude.{String, some, [], ◌∷◌}
use solfleet.Prelude.Text.{Text, str, repr}

-- A returned dict: `{"error": ...}`, or a result.
pub data Reply {ℓ} (A : Type ℓ) : Type ℓ where
  refused : Text → Reply A
  reply : A → Reply A

abbrev pub unknown_node : String → Text
unknown_node name = str "unknown node " ∷ repr (some name) ∷ []
