-- ===== src/Cli/Exits/Bootstrap.antt =====
-- The exit code of `cmd_bootstrap_builder` of src/solfleet/cli.py.
use solfleet.Prelude.{
  ℕ, Bool, true, false, ◌≡◌, ◌≢◌, refl, ◌↔◌, List, String, Option, none, some, is_some,
  String-discrete, arith,
}
use solfleet.Prelude.Text.{Text}
use solfleet.Safety.{Policy, GateDecision}
use solfleet.Config.{Fleet, BuilderHost}
use solfleet.Config.Find.{find_builder}
use solfleet.Executor.{Env, World}
use solfleet.Builder.Bootstrap.{
  Bootstrap, unknown, planned, bootstrapped, returned, bootstrap_builder, bootstrap_found,
  bootstrap_from,
}
use solfleet.Cli.Operate.{cmd_bootstrap_builder, exit_code, in_dict, true_in}

-- The code of `bootstrap-builder`: the dict of a run has the key "error" also where it is `None`.
abbrev bootstrap_code : Bool → Bootstrap → ℕ
bootstrap_code confirm outcome =
    exit_code (in_dict "error" (returned outcome)) confirm (true_in "ok" (returned outcome))

has_error : Bootstrap → Bool
has_error (unknown e) = true
has_error (planned decision packages) = false
has_error (bootstrapped b) = true

in_dict-returned : (outcome : Bootstrap) → in_dict "error" (returned outcome) ≡ has_error outcome
unfolding String-discrete has_error
in_dict-returned (unknown e) = refl
in_dict-returned (planned decision packages) = refl
in_dict-returned (bootstrapped b) = refl

true_in-returned_plan :
    (decision : GateDecision) (packages : List String)
    → true_in "ok" (returned (planned decision packages)) ≡ false
unfolding String-discrete
true_in-returned_plan decision packages = refl

bootstrap_code-confirmed : (outcome : Bootstrap) → bootstrap_code true outcome ≢ 0
unfolding has_error
bootstrap_code-confirmed (unknown e) h = ground (arith, in_dict-returned (unknown e), h)
bootstrap_code-confirmed (planned decision packages) h = ground (
  arith,
  in_dict-returned (planned decision packages),
  true_in-returned_plan decision packages,
  h,
)
bootstrap_code-confirmed (bootstrapped b) h = ground (arith, in_dict-returned (bootstrapped b), h)

bootstrap_code-plan :
    (decision : GateDecision) (packages : List String)
    → bootstrap_code false (planned decision packages) ≡ 0
unfolding has_error
bootstrap_code-plan decision packages = rw (in_dict-returned (planned decision packages)) refl

bootstrap_code-unknown : (e : Text) → bootstrap_code false (unknown e) ≡ 2
unfolding has_error
bootstrap_code-unknown e = rw (in_dict-returned (unknown e)) refl

-- A dry run ends as a plan exactly on a builder that the fleet has.
IsDryRun : Bool → Bootstrap → Type 0
IsDryRun known (unknown e) = known ≡ false
IsDryRun known (planned decision packages) = known ≡ true
IsDryRun known (bootstrapped b) = ⊥

bootstrap_from-IsDryRun :
    (env : Env) (fleet : Fleet) (builder : String) (host : Option BuilderHost) (w : World)
    → IsDryRun (is_some host) (bootstrap_from env builder false fleet host w).0
unfolding IsDryRun bootstrap_from bootstrap_found
bootstrap_from-IsDryRun env fleet builder none w = refl
bootstrap_from-IsDryRun env fleet builder (some host) w = refl

bootstrap_code-dry :
    (known : Bool) (outcome : Bootstrap)
    → IsDryRun known outcome
    → (bootstrap_code false outcome ≡ 0) ↔ (known ≡ true)
unfolding IsDryRun
bootstrap_code-dry known (unknown e) h =
    (λ c. ground (arith, h, c, bootstrap_code-unknown e), λ k. cc (h, k))
bootstrap_code-dry known (planned decision packages) h =
    (λ c. h, λ k. bootstrap_code-plan decision packages)
bootstrap_code-dry known (bootstrapped b) h = elim h [ ]

-- The command bootstrap-builder ends with exit code 0 exactly if it is a dry run on a builder that the
-- fleet has; so a confirmed run never does, whatever the script did.
pub cmd_bootstrap_builder-zero :
    (env : Env) (fleet : Fleet) (policy : Policy) (builder : String) (confirm : Bool) (w : World)
    → ((cmd_bootstrap_builder env fleet policy builder confirm w).0.code ≡ 0)
      ↔ ((confirm ≡ false) × (is_some (find_builder fleet (some builder)) ≡ true))
unfolding cmd_bootstrap_builder bootstrap_builder
cmd_bootstrap_builder-zero env fleet policy builder true w =
    (λ e. elim (bootstrap_code-confirmed _ e) [ ], λ f. cc (f.0))
cmd_bootstrap_builder-zero env fleet policy builder false w =
    let dry =
      bootstrap_code-dry _ _
        (bootstrap_from-IsDryRun env fleet builder (find_builder fleet (some builder)) w) in
    (λ e. (refl, dry.0 e), λ f. dry.1 (f.1))
