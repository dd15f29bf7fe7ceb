-- ===== src/Config/Load.antt =====
-- `resolve_config_path` and `load_fleet` of src/solfleet/config.py. The files, the parser of YAML and the
-- reading of the fields by pydantic are parameters; the validators are those of the models.
use mathlib.Core.Path.{subst}
use mathlib.Core.Option.{some-injective}
use solfleet.Prelude.{
  Bool, List, [], ◌∷◌, String, Option, none, some, truthy, if◌then◌else◌, Result, ok, err, Error,
  value_error, file_not_found, ◌≡◌, refl, All-map, ap,
}
use solfleet.Prelude.Text.{lit, str}
use solfleet.Config.{Cluster, Fleet}
use solfleet.Config.Validate.{
  first_error, All-first_error, check_role_fields, install_error, check_unique_names,
  check_builders_exist, check_pool_members, ClusterAccepted, IsAccepted,
}

-- What a file of YAML holds: a mapping, or something else.
pub data Document (R : Type 0) : Type 0 where
  mapping : R → Document R
  other : Document R

-- The working directory: which paths exist, and what `yaml.safe_load` makes of a file, or raises.
pub record Files (R : Type 0) : Type 0 where
  pub exists : String → Bool
  pub document : String → Result (Document R)

abbrev default_config_paths : List String
default_config_paths = "fleet.yaml" ∷ "fleet.yml" ∷ []

abbrev first_path : (String → Bool) → List String → Result String
first_path exists [] = err (
    file_not_found (
      lit
        "no fleet config found; pass --config, set SOLFLEET_CONFIG, or create fleet.yaml in the working directory"))
first_path exists (p ∷ paths) =
    let rest = first_path exists paths in if exists p then ok p else rest

abbrev given_or {ℓ} : {A : Type ℓ} → (String → A) → Option String → A → A
given_or f none rest = rest
given_or f (some path) rest = if truthy (some path) then f path else rest

-- The argument, or the environment variable, or a default path that exists.
unfoldable pub resolve_config_path : (String → Bool) → Option String → Option String → Result String
resolve_config_path exists explicit environ =
    given_or ok explicit (given_or ok environ (first_path exists default_config_paths))

abbrev or_else : Option Error → Option Error → Option Error
or_else none e = e
or_else (some e) _ = some e

-- The validators of the models inside, then those of the fleet.
abbrev cluster_error : String × Cluster → Option Error
cluster_error (_, cluster) =
    or_else (first_error check_role_fields cluster.nodes)
      (or_else (install_error cluster.install) (check_unique_names cluster))

abbrev fleet_error : Fleet → Option Error
fleet_error fleet =
    or_else (first_error cluster_error fleet.clusters)
      (or_else (check_builders_exist fleet) (check_pool_members fleet))

abbrev accepted_or : Fleet → Option Error → Result Fleet
accepted_or fleet none = ok fleet
accepted_or fleet (some e) = err e

abbrev validated : Result Fleet → Result Fleet
validated (err e) = err e
validated (ok fleet) = accepted_or fleet (fleet_error fleet)

-- `Fleet.model_validate`, with the reading of the fields.
module _ {R : Type 0} (files : Files R) (read_fields : R → Result Fleet) where
  unfoldable pub model_validate : R → Result Fleet
  unfolding check_role_fields check_unique_names check_builders_exist check_pool_members
  model_validate raw = validated (read_fields raw)

  abbrev load_document : String → Result (Document R) → Result Fleet
  load_document path (err e) = err e
  load_document path (ok other) =
      err (value_error (str path ∷ str ": expected a mapping at the top level" ∷ []))
  load_document path (ok (mapping raw)) = model_validate raw

  abbrev load_from : Result String → Result Fleet
  load_from (err e) = err e
  load_from (ok path) = load_document path (files.document path)

  unfoldable pub load_fleet : Option String → Option String → Result Fleet
  unfolding resolve_config_path model_validate
  load_fleet path environ = load_from (resolve_config_path files.exists path environ)

or_else-none : (d e : Option Error) → or_else d e ≡ none → (d ≡ none) × (e ≡ none)
or_else-none none e h = (refl, h)
or_else-none (some d) e h = cc

cluster_error-none : (c : String × Cluster) → cluster_error c ≡ none → ClusterAccepted c
cluster_error-none (name, cluster) h =
    let (nodes, rest) = or_else-none _ _ h in
    let (install, unique) = or_else-none _ _ rest in
    (All-first_error check_role_fields cluster.nodes nodes, install, unique)

fleet_error-none : (fleet : Fleet) → fleet_error fleet ≡ none → IsAccepted fleet
fleet_error-none fleet h =
    let (clusters, rest) = or_else-none _ _ h in
    let (builders, pools) = or_else-none _ _ rest in
    record {
      clusters =
          All-map fleet.clusters cluster_error-none
            (All-first_error cluster_error fleet.clusters clusters);
      builders = builders;
      pools = pools;
    }

abbrev loaded : Result Fleet → Option Fleet
loaded (ok fleet) = some fleet
loaded (err e) = none

accepted_or-IsAccepted :
    (f fleet : Fleet) (e : Option Error)
    → fleet_error f ≡ e
    → accepted_or f e ≡ ok fleet
    → IsAccepted fleet
accepted_or-IsAccepted f fleet none h k =
    subst IsAccepted (some-injective _ _ (ap loaded k)) (fleet_error-none f h)
accepted_or-IsAccepted f fleet (some e) h k = cc

validated-IsAccepted :
    (r : Result Fleet) (fleet : Fleet) → validated r ≡ ok fleet → IsAccepted fleet
validated-IsAccepted (err e) fleet h = cc
validated-IsAccepted (ok f) fleet h = accepted_or-IsAccepted f fleet (fleet_error f) refl h

module _ {R : Type 0} (files : Files R) (read_fields : R → Result Fleet) where
  load_document-IsAccepted :
      (path : String) (doc : Result (Document R)) (fleet : Fleet)
      → load_document files read_fields path doc ≡ ok fleet
      → IsAccepted fleet
  unfolding model_validate
  load_document-IsAccepted path (err e) fleet h = cc
  load_document-IsAccepted path (ok other) fleet h = cc
  load_document-IsAccepted path (ok (mapping raw)) fleet h =
      validated-IsAccepted (read_fields raw) fleet h

  load_from-IsAccepted :
      (path : Result String) (fleet : Fleet)
      → load_from files read_fields path ≡ ok fleet
      → IsAccepted fleet
  load_from-IsAccepted (err e) fleet h = cc
  load_from-IsAccepted (ok path) fleet h =
      load_document-IsAccepted path (files.document path) fleet h

  -- A fleet that was loaded passed every validator.
  pub load_fleet-IsAccepted :
      (path environ : Option String) (fleet : Fleet)
      → load_fleet files read_fields path environ ≡ ok fleet
      → IsAccepted fleet
  unfolding load_fleet
  load_fleet-IsAccepted path environ fleet h = load_from-IsAccepted _ fleet h
