-- ===== src/Executor/Frames.antt =====
-- Rules to show that an operation of src/solfleet/executor.py, and what is built from such, keeps a relation
-- between the worlds before and behind it: one lemma for each operation, for every relation.
use mathlib.Core.Path.{subst}
use mathlib.Core.List.{append-nil, append_assoc}
use solfleet.Prelude.{List, [], ◌∷◌, ◌++◌, All, ◌≡◌, refl, sym, ap, ◌∙◌}
use solfleet.Prelude.Text.{Text}
use solfleet.Audit.{Entry}
use solfleet.Executor.{
  record_audit, Env, World, Effect, ran, Action, after, Target, ssh_argv, run_argv, run,
}

-- A relation that is kept by every effect that is allowed.
pub record Frame : Type 1 where
  pub Kept : World → World → Type 0
  pub Allowed : Effect → Type 0
  pub kept_refl : (w : World) → Kept w w
  pub kept_trans : (u v w : World) → Kept u v → Kept v w → Kept u w
  pub kept_after : (w : World) (e : Effect) → Allowed e → Kept w (after w e)

-- The audit log stays as it is.
abbrev pub quiet : Frame
quiet = record {
  Kept = λ v w. w.audit ≡ v.audit;
  Allowed = λ e. Unit {0};
  kept_refl = λ w. refl;
  kept_trans = λ u v w p q. q ∙ p;
  kept_after = λ w e h. refl;
}

pub All-append :
    {A : Type 0} (P : A → Type 0) (es es' : List A) → All P es → All P es' → All P (es ++ es')
All-append P [] es' hs hs' = hs'
All-append P (e ∷ es) es' hs hs' = (hs.0, All-append P es es' hs.1 hs')

-- Effects of a kind follow those before.
unfoldable pub Adds : (Effect → Type 0) → World → World → Type 0
Adds P v w = (es : List Effect) × (w.effects ≡ v.effects ++ es) × All P es

pub Adds-refl : (P : Effect → Type 0) (w : World) → Adds P w w
unfolding Adds
Adds-refl P w = ([], sym (append-nil w.effects), tt)

pub Adds-trans : (P : Effect → Type 0) (u v w : World) → Adds P u v → Adds P v w → Adds P u w
unfolding Adds
Adds-trans P u v w (es, p, hs) (es', q, hs') = (
  es ++ es',
  q ∙ ap (λ x. x ++ es') p ∙ append_assoc u.effects es es',
  All-append P es es' hs hs',
)

pub Adds-after : (P : Effect → Type 0) (w : World) (e : Effect) → P e → Adds P w (after w e)
unfolding Adds
Adds-after P w e allowed = (e ∷ [], refl, (allowed, tt))

pub Adds-audited :
    (P : Effect → Type 0) (v w : World) (e : Entry) → Adds P v w → Adds P v (record_audit e w).1
unfolding Adds
Adds-audited P v w e h = h

abbrev pub adds : (Effect → Type 0) → Frame
adds P = record {
  Kept = Adds P;
  Allowed = P;
  kept_refl = Adds-refl P;
  kept_trans = Adds-trans P;
  kept_after = Adds-after P;
}

-- Each effect stands in a relation to all that were done before it.
abbrev pub Follows : (List Effect → Effect → Type 0) → List Effect → List Effect → Type 0
Follows P history [] = Unit
Follows P history (e ∷ es) = P history e × Follows P (history ++ e ∷ []) es

Follows-append :
    (P : List Effect → Effect → Type 0) (history es es' : List Effect)
    → Follows P history es
    → Follows P (history ++ es) es'
    → Follows P history (es ++ es')
Follows-append P history [] es' h h' = subst (λ x. Follows P x es') (append-nil history) h'
Follows-append P history (e ∷ es) es' h h' = (
  h.0,
  Follows-append P (history ++ e ∷ []) es es' h.1
      (subst (λ x. Follows P x es') (sym (append_assoc history (e ∷ []) es)) h'),
)

-- Effects follow that stand in a relation to all that were done before each.
unfoldable pub Traces : (List Effect → Effect → Type 0) → World → World → Type 0
Traces P v w = (es : List Effect) × (w.effects ≡ v.effects ++ es) × Follows P v.effects es

pub Traces-refl : (P : List Effect → Effect → Type 0) (w : World) → Traces P w w
unfolding Traces
Traces-refl P w = ([], sym (append-nil w.effects), tt)

pub Traces-trans :
    (P : List Effect → Effect → Type 0) (u v w : World) → Traces P u v → Traces P v w → Traces P u w
unfolding Traces
Traces-trans P u v w (es, p, hs) (es', q, hs') = (
  es ++ es',
  q ∙ ap (λ x. x ++ es') p ∙ append_assoc u.effects es es',
  Follows-append P u.effects es es' hs (subst (λ x. Follows P x es') p hs'),
)

pub Traces-after :
    (P : List Effect → Effect → Type 0) (w : World) (e : Effect)
    → P w.effects e
    → Traces P w (after w e)
unfolding Traces
Traces-after P w e h = (e ∷ [], refl, (h, tt))

pub Traces-audited :
    (P : List Effect → Effect → Type 0) (v w : World) (e : Entry)
    → Traces P v w
    → Traces P v (record_audit e w).1
unfolding Traces
Traces-audited P v w e h = h

-- Allowed is what is so after everything.
abbrev pub traces : (List Effect → Effect → Type 0) → Frame
traces P = record {
  Kept = Traces P;
  Allowed = λ e. (history : List Effect) → P history e;
  kept_refl = Traces-refl P;
  kept_trans = Traces-trans P;
  kept_after = λ w e allowed. Traces-after P w e (allowed w.effects);
}

abbrev pub Keeps : Frame → {A : Type 0} → Action A → Type 0
Keeps F m = (w : World) → F.Kept w (m w).1

module _ (F : Frame) where
  -- One step behind the other.
  pub chain : {u v w : World} → F.Kept u v → F.Kept v w → F.Kept u w
  chain p q = F.kept_trans _ _ _ p q

  pub run_argv-Keeps :
      (env : Env) (argv : List Text) → F.Allowed (ran argv) → Keeps F (run_argv env argv)
  unfolding run_argv
  run_argv-Keeps env argv h w = F.kept_after w (ran argv) h

  pub run-Keeps :
      (env : Env) (target : Target) (cmd : Text)
      → F.Allowed (ran (ssh_argv target cmd))
      → Keeps F (run env target cmd)
  unfolding run
  run-Keeps env target cmd h w = F.kept_after w (ran (ssh_argv target cmd)) h
