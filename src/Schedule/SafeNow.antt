-- ===== src/Schedule/SafeNow.antt =====
-- The verdict `safe_now` of src/solfleet/schedule.py.
use solfleet.Prelude.{
  ℕ, ◌+◌, ◌-◌, ◌≤◌, Bool, true, ◌&&◌, ◌||◌, not, List, [], ◌∷◌, String, map, select, ltb, All, all,
  ◌≡◌, refl, ◌∙◌, ap, sym, arith,
}
use solfleet.Schedule.{
  EpochInfo, upcoming_slots, sorted, insert_slot, leader_windows, long_enough, safe, slots_until,
  head_of,
}
use solfleet.Schedule.Free.{memb, Asc}
use solfleet.Schedule.Leader.{leader_slots, Asc-sorted}

all-insert_slot :
    (p : ℕ → Bool) (s : ℕ) (ss : List ℕ) → all (insert_slot s ss) p ≡ (p s && all ss p)
all-insert_slot p s [] = refl
all-insert_slot p s (x ∷ ss) = ground (arith, all-insert_slot p s ss)

all-sorted : (p : ℕ → Bool) (ss : List ℕ) → all (sorted ss) p ≡ all ss p
all-sorted p [] = refl
all-sorted p (s ∷ ss) = ground (arith, all-insert_slot p s (sorted ss), all-sorted p ss)

all-select : (p q : ℕ → Bool) (ss : List ℕ) → all (select q ss) p ≡ all ss (λ s. not (q s) || p s)
all-select p q [] = refl
all-select p q (s ∷ ss) = ground (arith, all-select p q ss)

all_long :
    (m a low : ℕ) (ss : List ℕ)
    → Asc low ss
    → long_enough m (low - a) ≡ true
    → all ss (λ s. long_enough m (s - a)) ≡ true
all_long m a low [] asc h = refl
all_long m a low (s ∷ ss) asc h = ground (arith, all_long m a s ss)

safe_head :
    (m a low : ℕ) (ss : List ℕ)
    → Asc low ss
    → safe m (slots_until a (head_of ss)) ≡ all ss (λ s. long_enough m (s - a))
safe_head m a low [] asc = refl
safe_head m a low (s ∷ ss) asc = ground (arith, all_long m a s ss)

zero_le : (ss : List ℕ) → All (λ s. 0 ≤ s) ss
zero_le [] = tt
zero_le (s ∷ ss) = (omega arith, zero_le ss)

-- The verdict safe_now holds exactly if every leader slot after the current one is at least the minimal
-- window away.
pub safe_now_exact :
    (identity : String) (e : EpochInfo) (indices : List ℕ) (m : ℕ)
    → (leader_windows identity e indices m).safe_now
      ≡ all
          (leader_slots e indices)
          (λ s. not (ltb e.absolute_slot s) || long_enough m (s - e.absolute_slot))
unfolding leader_windows
safe_now_exact identity e indices m =
    let later = select (λ s. ltb e.absolute_slot s) (leader_slots e indices) in
    safe_head m e.absolute_slot 0 (upcoming_slots e indices) (Asc-sorted 0 later (zero_le later))
    ∙ all-sorted (λ s. long_enough m (s - e.absolute_slot)) later
    ∙ all-select (λ s. long_enough m (s - e.absolute_slot)) (λ s. ltb e.absolute_slot s)
        (leader_slots e indices)

memb-shift :
    (start i : ℕ) (indices : List ℕ)
    → memb (start + i) (map (λ j. start + j) indices) ≡ memb i indices
memb-shift start i [] = refl
memb-shift start i (j ∷ indices) = ground (arith, memb-shift start i indices)

none_later :
    (m a start n : ℕ) (indices : List ℕ)
    → start + n ≤ a
    → All (λ i. i ≤ n) indices
    → all (map (λ i. start + i) indices) (λ s. not (ltb a s) || long_enough m (s - a)) ≡ true
none_later m a start n [] le h = refl
none_later m a start n (i ∷ indices) le h = ground (arith, none_later m a start n indices)

-- If the current slot is a leader slot of the identity and the last of its leader slots in the epoch, the
-- verdict safe_now holds all the same, for every minimal window.
pub safe_now_while_leading :
    (identity : String) (e : EpochInfo) (indices : List ℕ) (m : ℕ)
    → e.slot_index ≤ e.absolute_slot
    → memb e.slot_index indices ≡ true
    → All (λ i. i ≤ e.slot_index) indices
    → (memb e.absolute_slot (leader_slots e indices) ≡ true)
      × ((leader_windows identity e indices m).safe_now ≡ true)
safe_now_while_leading identity e indices m le leads last =
    let start = e.absolute_slot - e.slot_index in
    let here : start + e.slot_index ≡ e.absolute_slot = omega arith in
    (
      ap (λ t. memb t (leader_slots e indices)) (sym here)
          ∙ memb-shift start e.slot_index indices
          ∙ leads,
      safe_now_exact identity e indices m
          ∙ none_later m e.absolute_slot start e.slot_index indices (omega arith) last,
    )
