-- ===== src/Operations/Catchup/Live.antt =====
-- `wait_for_catchup` of src/solfleet/operations.py on a node that catches up in time.
use solfleet.Prelude.{
  ℕ, zero, suc, ◌+◌, ◌*◌, ◌≤◌, ◌<◌, true, List, [], ◌∷◌, ◌++◌, String, Option, none, le→leb,
  Bool-cases, inl, inr, ◌≡◌, refl, ap, ◌∙◌, arith,
}
use solfleet.Executor.{Env, Sample, World, Effect, slept, sampled, after}
use solfleet.Operations.Catchup.{is_caught_up, take_sample, catchup_loop, wait_for_catchup, CatchUp}

-- How often the wait slept.
abbrev pub sleeps : List Effect → ℕ
sleeps [] = 0
sleeps (slept seconds ∷ es) = suc (sleeps es)
sleeps (_ ∷ es) = sleeps es

sleeps-slept :
    (es : List Effect) (seconds : ℕ) → sleeps (es ++ slept seconds ∷ []) ≡ suc (sleeps es)
sleeps-slept [] seconds = refl
sleeps-slept (Effect.ran argv ∷ es) seconds = sleeps-slept es seconds
sleeps-slept (Effect.sampled a b ∷ es) seconds = sleeps-slept es seconds
sleeps-slept (Effect.asked_leader a b c ∷ es) seconds = sleeps-slept es seconds
sleeps-slept (Effect.probed_fleet ∷ es) seconds = sleeps-slept es seconds
sleeps-slept (Effect.slept t ∷ es) seconds = ap suc (sleeps-slept es seconds)

sleeps-sampled :
    (es : List Effect) (node reference : String)
    → sleeps (es ++ sampled node reference ∷ []) ≡ sleeps es
sleeps-sampled [] node reference = refl
sleeps-sampled (Effect.ran argv ∷ es) node reference = sleeps-sampled es node reference
sleeps-sampled (Effect.sampled a b ∷ es) node reference = sleeps-sampled es node reference
sleeps-sampled (Effect.asked_leader a b c ∷ es) node reference = sleeps-sampled es node reference
sleeps-sampled (Effect.probed_fleet ∷ es) node reference = sleeps-sampled es node reference
sleeps-sampled (Effect.slept t ∷ es) node reference = ap suc (sleeps-sampled es node reference)

not-below : (j : ℕ) → j < 0 → ⊥
not-below j h = omega arith

mul-suc : (j i : ℕ) → suc j * i ≡ j * i + i
mul-suc j i = omega arith

le-mul : (j i : ℕ) → 0 < i → j ≤ j * i
le-mul zero i h = omega arith
le-mul (suc j) i h = rw (mul-suc j i) (let ih = le-mul j i h in omega arith)

-- Every sample is healthy and within the lag once the wait has slept so many times, whatever else was done.
abbrev pub CatchesUp : Env → String → String → ℕ → ℕ → Type 0
CatchesUp env node reference_rpc max_lag rounds =
    (es : List Effect)
    → rounds ≤ sleeps es
    → is_caught_up max_lag (env.sampler es node reference_rpc) ≡ true

module _ (env : Env) (node reference_rpc : String) (max_lag timeout_s interval_s rounds : ℕ)
    (catches : CatchesUp env node reference_rpc max_lag rounds) where
  abbrev InTime : ℕ → CatchUp → Type 0
  InTime bound c = (c.caught_up ≡ true) × (c.waited_s ≤ bound)

  catchup_loop-InTime :
      (j fuel waited : ℕ) (last : Option Sample) (w : World)
      → rounds ≤ sleeps w.effects + j
      → waited + j * interval_s ≤ timeout_s
      → j < fuel
      → InTime
          (waited + j * interval_s)
          (catchup_loop env node reference_rpc max_lag timeout_s interval_s fuel waited last w).0
  unfolding catchup_loop take_sample
  catchup_loop-InTime j zero waited last w slept_so in_time fueled = elim (not-below j fueled) [ ]
  catchup_loop-InTime zero (suc fuel) waited last w slept_so in_time fueled =
      rw
        (
          le→leb waited timeout_s (omega arith),
          catchup_loop,
          catches w.effects (omega arith),
          catchup_loop,
        )
        (refl, omega arith)
  catchup_loop-InTime (suc j) (suc fuel) waited last w slept_so in_time fueled =
      elim (Bool-cases (is_caught_up max_lag (env.sampler w.effects node reference_rpc))) [
        | inl there ↦
            rw (le→leb waited timeout_s (omega arith), catchup_loop, there, catchup_loop)
              (refl, omega arith)
        | inr behind ↦
            let w' = after (after w (sampled node reference_rpc)) (slept interval_s) in
            let slept_more =
              sleeps-slept (w.effects ++ sampled node reference_rpc ∷ []) interval_s
              ∙ ap suc (sleeps-sampled w.effects node reference_rpc) in
            let times = mul-suc j interval_s in
            let (caught, bound) =
              catchup_loop-InTime j fuel (waited + interval_s) _ w' (omega arith) (omega arith)
                (omega arith) in
            rw (le→leb waited timeout_s (omega arith), catchup_loop, behind, catchup_loop)
              (caught, omega arith)
      ]

  -- If every sample is healthy and within the lag once the wait has slept a number of rounds, and that
  -- many intervals, each of at least a second, fit into the timeout, then the wait ends with the node
  -- caught up, after at most these intervals.
  pub wait_for_catchup-InTime :
      0 < interval_s
      → rounds * interval_s ≤ timeout_s
      → (w : World)
      → ((wait_for_catchup env node reference_rpc max_lag timeout_s interval_s w).0.caught_up
          ≡ true)
        × ((wait_for_catchup env node reference_rpc max_lag timeout_s interval_s w).0.waited_s
            ≤ rounds * interval_s)
  unfolding wait_for_catchup
  wait_for_catchup-InTime progress in_time w =
      let few = le-mul rounds interval_s progress in
      let (caught, bound) =
        catchup_loop-InTime rounds (timeout_s + 1) 0 none w (omega arith) (omega arith)
          (omega arith) in
      (caught, omega arith)
