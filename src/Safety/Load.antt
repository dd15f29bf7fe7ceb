-- ===== src/Safety/Load.antt =====
-- `load_policy` of src/solfleet/safety.py. The files, the parser of YAML and the reading of the fields by
-- pydantic are parameters.
use solfleet.Prelude.{
  Bool, List, [], ◌∷◌, String, Option, none, some, truthy, if◌then◌else◌, Result, ok, err,
}
use solfleet.Safety.{Policy, default_rules}

-- `Policy()`
abbrev pub default_policy : Policy
default_policy = record { defaults = default_rules; clusters = [] }

abbrev default_policy_paths : List String
default_policy_paths = "policy.yaml" ∷ "policy.yml" ∷ []

abbrev first_existing : (String → Bool) → List String → Option String
first_existing exists [] = none
first_existing exists (p ∷ paths) =
    let rest = first_existing exists paths in if exists p then some p else rest

-- `exists` tells which paths there are, `document` what `yaml.safe_load` makes of a file, `none` for
-- what counts as false, and `empty` is `{}`.
module _ {R : Type 0} (exists : String → Bool) (document : String → Result (Option R)) (empty : R)
    (read_fields : R → Result Policy) where
  abbrev policy_path : Option String → Option String
  policy_path none = first_existing exists default_policy_paths
  policy_path (some path) =
      if truthy (some path) then some path else first_existing exists default_policy_paths

  abbrev policy_of : Result (Option R) → Result Policy
  policy_of (err e) = err e
  policy_of (ok none) = read_fields empty
  policy_of (ok (some raw)) = read_fields raw

  abbrev load_from : Option String → Result Policy
  load_from none = ok default_policy
  load_from (some path) = policy_of (document path)

  unfoldable pub load_policy : Option String → Result Policy
  load_policy path = load_from (policy_path path)
