-- ===== src/Operations/Catchup/Kept.antt =====
-- `wait_for_catchup` of src/solfleet/operations.py keeps every relation that its samples and waits keep.
use solfleet.Prelude.{ℕ, zero, suc, ◌+◌, String, Option, none, leb, Bool-cases, inl, inr}
use solfleet.Executor.{Env, Sample, sampled, slept}
use solfleet.Executor.Frames.{Frame, Keeps, chain}
use solfleet.Operations.Catchup.{take_sample, catchup_loop, wait_for_catchup, is_caught_up}

module _ (F : Frame) (env : Env) (node reference_rpc : String) (max_lag timeout_s interval_s : ℕ)
    (samples : F.Allowed (sampled node reference_rpc)) (waits : F.Allowed (slept interval_s)) where
  catchup_loop-Keeps :
      (fuel waited : ℕ) (last : Option Sample)
      → Keeps F (catchup_loop env node reference_rpc max_lag timeout_s interval_s fuel waited last)
  unfolding catchup_loop take_sample
  catchup_loop-Keeps zero waited last w = F.kept_refl w
  catchup_loop-Keeps (suc fuel) waited last w =
      let here = F.kept_after w (sampled node reference_rpc) samples in
      elim (Bool-cases (leb waited timeout_s)) [
        | inr out ↦ rw (out, catchup_loop) (F.kept_refl w)
        | inl more ↦
            elim (Bool-cases (is_caught_up max_lag (take_sample env node reference_rpc w).0)) [
              | inl there ↦ rw (more, catchup_loop, there, catchup_loop) here
              | inr behind ↦
                  rw (more, catchup_loop, behind, catchup_loop)
                    (chain F here (
                      chain F (F.kept_after _ (slept interval_s) waits)
                        (catchup_loop-Keeps fuel _ _ _)))
            ]
      ]

  pub wait_for_catchup-Keeps :
      Keeps F (wait_for_catchup env node reference_rpc max_lag timeout_s interval_s)
  unfolding wait_for_catchup
  wait_for_catchup-Keeps w = catchup_loop-Keeps (timeout_s + 1) 0 none w
