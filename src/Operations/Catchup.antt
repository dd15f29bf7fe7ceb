-- ===== src/Operations/Catchup.antt =====
-- `wait_for_catchup` of src/solfleet/operations.py. The loop takes fuel: with `interval_s` at least 1 a
-- round raises `waited` by at least 1, so `timeout_s + 1` rounds are enough.
pub mod Live
pub mod Kept
pub mod Sampler
use solfleet.Prelude.{
  ℕ, zero, suc, ◌+◌, ◌≤◌, ◌<◌, Bool, true, false, ◌&&◌, String, Option, none, some, leb, ◌≡◌, refl,
  arith, ◌⊎◌, inl, inr, Bool-cases, leb→le,
}
use solfleet.Executor.{Env, Sample, World, sampled, slept, Action, ◌>>=◌, ◌>>◌, pure, after}

-- The returned dict; `sample` is the last one, whose fields the dict repeats.
pub record CatchUp : Type 0 where
  pub caught_up : Bool
  pub waited_s : ℕ
  pub sample : Option Sample

abbrev is_true : Option Bool → Bool
is_true (some true) = true
is_true _ = false

abbrev pub within : ℕ → Option ℕ → Bool
within max_lag none = false
within max_lag (some lag) = leb lag max_lag

-- `last.get("healthy") and last.get("lag") is not None and last["lag"] <= max_lag`
abbrev pub is_caught_up : ℕ → Sample → Bool
is_caught_up max_lag s = is_true s.healthy && within max_lag s.lag

module _ (max_lag timeout_s interval_s : ℕ) where
  -- A healthy sample within the lag was taken, before the time was out.
  abbrev pub CaughtUp : CatchUp → Type 0
  CaughtUp c =
      (c.caught_up ≡ true)
      × ((s : Sample) × (c.sample ≡ some s) × (is_caught_up max_lag s ≡ true))
      × (c.waited_s ≤ timeout_s)

  -- The time is out, by less than one interval and a round.
  abbrev pub TimedOut : CatchUp → Type 0
  TimedOut c =
      (c.caught_up ≡ false) × (timeout_s < c.waited_s) × (c.waited_s ≤ timeout_s + interval_s)

  abbrev pub Honest : CatchUp → Type 0
  Honest c = CaughtUp c ⊎ TimedOut c

module _ (env : Env) (node reference_rpc : String) where
  unfoldable pub take_sample : Action Sample
  take_sample w = (env.sampler w.effects node reference_rpc, after w (sampled node reference_rpc))

  abbrev pub sleep : ℕ → Action (Unit {0})
  sleep seconds w = (tt, after w (slept seconds))

  module _ (max_lag timeout_s interval_s : ℕ) where
    unfoldable pub catchup_loop : ℕ → ℕ → Option Sample → Action CatchUp
    unfolding take_sample
    catchup_loop zero waited last =
        pure (record { caught_up = false; waited_s = waited; sample = last })
    catchup_loop (suc fuel) waited last = elim (leb waited timeout_s) [
      | false ↦ pure (record { caught_up = false; waited_s = waited; sample = last })
      | true ↦ do
        s ← take_sample
        elim (is_caught_up max_lag s) [
          | true ↦ pure (record { caught_up = true; waited_s = waited; sample = some s })
          | false ↦ sleep interval_s >> catchup_loop fuel (waited + interval_s) (some s)
        ]
    ]

    unfoldable pub wait_for_catchup : Action CatchUp
    unfolding catchup_loop
    wait_for_catchup = catchup_loop (timeout_s + 1) 0 none

    module _ (progress : 0 < interval_s) where
      catchup_loop-Honest :
          (fuel waited : ℕ) (last : Option Sample) (w : World)
          → timeout_s < waited + fuel
          → waited ≤ timeout_s + interval_s
          → Honest max_lag timeout_s interval_s (catchup_loop fuel waited last w).0
      unfolding catchup_loop
      catchup_loop-Honest zero waited last w enough le = inr (refl, omega arith, le)
      catchup_loop-Honest (suc fuel) waited last w enough le =
          elim (Bool-cases (leb waited timeout_s)) [
            | inr out ↦ rw (out, catchup_loop) (inr (refl, ground arith, le))
            | inl more ↦ elim (Bool-cases (is_caught_up max_lag (take_sample w).0)) [
              | inl there ↦
                  rw (more, catchup_loop, there, catchup_loop)
                    (inl (refl, (_, refl, there), leb→le _ _ more))
              | inr behind ↦
                  rw (more, catchup_loop, behind, catchup_loop)
                    (catchup_loop-Honest fuel (waited + interval_s) _ _ (omega arith)
                      (let within_time = leb→le waited timeout_s more in omega arith))
            ]
          ]

      -- With an interval of at least a second the wait ends; either the last sample was healthy and within
      -- the lag and the time was not yet out, or the time is out by at most one interval.
      pub wait_for_catchup-Honest :
          (w : World) → Honest max_lag timeout_s interval_s (wait_for_catchup w).0
      unfolding wait_for_catchup
      wait_for_catchup-Honest w =
          catchup_loop-Honest (timeout_s + 1) 0 none w (omega arith) (omega arith)
