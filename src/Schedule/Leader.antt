-- ===== src/Schedule/Leader.antt =====
-- What the report of `leader_windows` in src/solfleet/schedule.py says of the leader slots of the epoch.
use solfleet.Prelude.{
  ℕ, ◌+◌, ◌-◌, ◌≤◌, ◌<◌, true, ◌&&◌, ◌||◌, not, List, [], ◌∷◌, String, map, select, eqb, ltb, leb,
  All, ◌≡◌, refl, ◌∙◌, ap, arith, inl, inr, Bool-cases,
}
use solfleet.Schedule.{EpochInfo, upcoming_slots, sorted, insert_slot, leader_windows}
use solfleet.Schedule.Free.{memb, inside, Asc, free_windows_sound, free_windows_complete}

-- The identity's slots in the epoch, from the offsets in the answer.
abbrev pub leader_slots : EpochInfo → List ℕ → List ℕ
leader_slots e indices = map (λ i. e.absolute_slot - e.slot_index + i) indices

abbrev pub epoch_end : EpochInfo → ℕ
epoch_end e = e.absolute_slot - e.slot_index + e.slots_in_epoch

memb-insert_slot : (t s : ℕ) (ss : List ℕ) → memb t (insert_slot s ss) ≡ (eqb t s || memb t ss)
memb-insert_slot t s [] = refl
memb-insert_slot t s (x ∷ ss) = ground (arith, memb-insert_slot t s ss)

memb-sorted : (t : ℕ) (ss : List ℕ) → memb t (sorted ss) ≡ memb t ss
memb-sorted t [] = refl
memb-sorted t (s ∷ ss) = ground (arith, memb-insert_slot t s (sorted ss), memb-sorted t ss)

memb-after : (t a : ℕ) (ss : List ℕ) → memb t (select (λ s. ltb a s) ss) ≡ (ltb a t && memb t ss)
memb-after t a [] = ground arith
memb-after t a (s ∷ ss) = ground (arith, memb-after t a ss)

-- The upcoming slots are those after the current one.
memb-upcoming :
    (t : ℕ) (e : EpochInfo) (indices : List ℕ)
    → memb t (upcoming_slots e indices) ≡ (ltb e.absolute_slot t && memb t (leader_slots e indices))
memb-upcoming t e indices =
    memb-sorted t (select (λ s. ltb e.absolute_slot s) (leader_slots e indices))
    ∙ memb-after t e.absolute_slot (leader_slots e indices)

Asc-insert_slot : (low s : ℕ) (ss : List ℕ) → low ≤ s → Asc low ss → Asc low (insert_slot s ss)
Asc-insert_slot low s [] le h = (le, tt)
Asc-insert_slot low s (x ∷ ss) le h = elim (Bool-cases (leb s x)) [
  | inl first ↦ rw first (le, (ground arith, h.1))
  | inr later ↦ rw later (h.0, Asc-insert_slot x s ss (ground arith) h.1)
]

pub Asc-sorted : (low : ℕ) (ss : List ℕ) → All (λ s. low ≤ s) ss → Asc low (sorted ss)
Asc-sorted low [] h = tt
Asc-sorted low (s ∷ ss) h = Asc-insert_slot low s (sorted ss) h.0 (Asc-sorted low ss h.1)

All-insert_slot : (P : ℕ → Type 0) (s : ℕ) (ss : List ℕ) → P s → All P ss → All P (insert_slot s ss)
All-insert_slot P s [] p h = (p, tt)
All-insert_slot P s (x ∷ ss) p h = elim (Bool-cases (leb s x)) [
  | inl first ↦ rw first (p, h)
  | inr later ↦ rw later (h.0, All-insert_slot P s ss p h.1)
]

All-sorted : (P : ℕ → Type 0) (ss : List ℕ) → All P ss → All P (sorted ss)
All-sorted P [] h = tt
All-sorted P (s ∷ ss) h = All-insert_slot P s (sorted ss) h.0 (All-sorted P ss h.1)

after_bounds :
    (start a end : ℕ) (indices : List ℕ)
    → All (λ i. start + i < end) indices
    → All (λ s. a ≤ s) (select (λ s. ltb a s) (map (λ i. start + i) indices))
      × All (λ s. s < end) (select (λ s. ltb a s) (map (λ i. start + i) indices))
after_bounds start a end [] h = (tt, tt)
after_bounds start a end (i ∷ indices) h =
    let (above, below) = after_bounds start a end indices h.1 in
    elim (Bool-cases (ltb a (start + i))) [
      | inl later ↦ rw later ((ground arith, above), (h.0, below))
      | inr before ↦ rw before (above, below)
    ]

shift_All :
    (start n : ℕ) (indices : List ℕ)
    → All (λ i. i < n) indices
    → All (λ i. start + i < start + n) indices
shift_All start n [] h = tt
shift_All start n (i ∷ indices) h = (omega arith, shift_All start n indices h.1)

module _ (identity : String) (e : EpochInfo) (indices : List ℕ)
    (in_epoch : All (λ i. i < e.slots_in_epoch) indices) where
  upcoming_bounds :
      Asc e.absolute_slot (upcoming_slots e indices)
      × All (λ s. s < epoch_end e) (upcoming_slots e indices)
  upcoming_bounds =
      let start = e.absolute_slot - e.slot_index in
      let (above, below) =
        after_bounds start e.absolute_slot (epoch_end e) indices
          (shift_All start e.slots_in_epoch indices in_epoch) in
      (Asc-sorted e.absolute_slot _ above, All-sorted (λ s. s < epoch_end e) _ below)

  -- If the offsets lie within the epoch, a slot of a reported window is not before the current slot, is in
  -- the epoch, and is no later leader slot of the identity.
  pub leader_windows_sound :
      (m t : ℕ)
      → inside t (leader_windows identity e indices m).windows ≡ true
      → (leb e.absolute_slot t
          && ltb t (epoch_end e)
          && not (ltb e.absolute_slot t && memb t (leader_slots e indices)))
        ≡ true
  unfolding leader_windows
  leader_windows_sound m t h = ground (
    arith,
    memb-upcoming t e indices,
    free_windows_sound e.absolute_slot (upcoming_slots e indices) (epoch_end e) upcoming_bounds.0
        upcoming_bounds.1 t m,
  )

  -- If the offsets lie within the epoch, the windows with no minimal length hold exactly the slots from
  -- the current one to the end of the epoch that are no later leader slots.
  pub leader_windows_complete :
      (t : ℕ)
      → inside t (leader_windows identity e indices 0).windows ≡ (
          leb e.absolute_slot t
          && ltb t (epoch_end e)
          && not (ltb e.absolute_slot t && memb t (leader_slots e indices)))
  unfolding leader_windows
  leader_windows_complete t =
      free_windows_complete e.absolute_slot (upcoming_slots e indices) (epoch_end e)
        upcoming_bounds.0 upcoming_bounds.1 t
      ∙ ap (λ b. leb e.absolute_slot t && ltb t (epoch_end e) && not b) (memb-upcoming t e indices)
