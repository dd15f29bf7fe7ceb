-- ===== src/Tests/Planning.antt =====
-- The theorems on src/solfleet/schedule.py, at an epoch of 100 slots in which slots 1010, 1011 and 1050 are
-- led.
use solfleet.Prelude.{
  ℕ, ◌-◌, ◌<◌, true, ◌&&◌, ◌||◌, not, List, [], ◌∷◌, all, All, ltb, leb, ◌≡◌, refl, arith,
}
use solfleet.Schedule.{EpochInfo, leader_windows, long_enough}
use solfleet.Schedule.Free.{memb, inside}
use solfleet.Schedule.Leader.{
  leader_slots, epoch_end, leader_windows_sound, leader_windows_complete,
}
use solfleet.Schedule.SafeNow.{safe_now_exact, safe_now_while_leading}

abbrev epoch : EpochInfo
epoch = record { absolute_slot = 1005; slot_index = 5; slots_in_epoch = 100; epoch = 7 }

abbrev indices : List ℕ
indices = 50 ∷ 10 ∷ 11 ∷ []

in_epoch : All (λ i. i < epoch.slots_in_epoch) indices
in_epoch = (omega arith, (omega arith, (omega arith, tt)))

leader_windows_sound_example :
    (leb 1005 1030
      && ltb 1030 (epoch_end epoch)
      && not (ltb 1005 1030 && memb 1030 (leader_slots epoch indices)))
    ≡ true
unfolding leader_windows
leader_windows_sound_example = leader_windows_sound "v" epoch indices in_epoch 0 1030 refl

leader_windows_complete_example : inside 1050 (leader_windows "v" epoch indices 0).windows ≡ (
    leb 1005 1050
    && ltb 1050 (epoch_end epoch)
    && not (ltb 1005 1050 && memb 1050 (leader_slots epoch indices)))
leader_windows_complete_example = leader_windows_complete "v" epoch indices in_epoch 1050

safe_now_exact_example :
    (leader_windows "v" epoch indices 1).safe_now
    ≡ all (leader_slots epoch indices) (λ s. not (ltb 1005 s) || long_enough 1 (s - 1005))
safe_now_exact_example = safe_now_exact "v" epoch indices 1

-- The validator leads slot 1005 itself, its last one of the epoch.
safe_now_while_leading_example :
    (memb 1005 (leader_slots epoch (4 ∷ 5 ∷ [])) ≡ true)
    × ((leader_windows "v" epoch (4 ∷ 5 ∷ []) 5).safe_now ≡ true)
safe_now_while_leading_example =
    safe_now_while_leading "v" epoch (4 ∷ 5 ∷ []) 5 (omega arith) refl
      (omega arith, (omega arith, tt))
