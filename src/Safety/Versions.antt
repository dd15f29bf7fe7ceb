-- ===== src/Safety/Versions.antt =====
-- Which versions the allow-list of src/solfleet/safety.py admits.
use solfleet.Prelude.{ℕ, List, [], ◌∷◌, ◌++◌, String, some, ◌≡◌, arith}
use solfleet.Safety.{PolicyRules, version_allowed}
use solfleet.Safety.Fnmatch.{fnmatch, codes, IsPlain, is_prefix, fnmatch_codes-prefix}

module _ (rules : PolicyRules) (version pattern : String) (p : List ℕ) where
  -- With the one pattern p*, where p has no wildcard, the versions allowed are exactly those that begin
  -- with p.
  version_allowed-prefix :
      rules.allowed_versions ≡ pattern ∷ []
      → codes pattern ≡ p ++ b'*' ∷ []
      → IsPlain p
      → version_allowed rules (some version) ≡ is_prefix p (codes version)
  unfolding version_allowed fnmatch
  version_allowed-prefix one shape plain =
      rw (one, shape, fnmatch_codes-prefix p (codes version) plain) (ground arith)
