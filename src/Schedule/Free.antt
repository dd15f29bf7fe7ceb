-- ===== src/Schedule/Free.antt =====
-- The windows of src/solfleet/schedule.py hold exactly the slots that are no leader slots.
use solfleet.Prelude.{
  ℕ, ◌+◌, ◌-◌, ◌≤◌, ◌<◌, Bool, true, false, ◌&&◌, ◌||◌, not, List, [], ◌∷◌, ◌++◌, map, select, eqb,
  ltb, leb, All, ◌≡◌, refl, ◌∙◌, ap, sym, arith, inl, inr, Bool-cases,
}
use solfleet.Schedule.{Window, gap, gaps, runs, free_windows, long_enough, to_window, wide}
use solfleet.Schedule.Runs.{slot_gaps, gaps-runs}

abbrev pub memb : ℕ → List ℕ → Bool
memb t [] = false
memb t (s ∷ ss) = eqb t s || memb t ss

-- The slots `a` to `b - 1` of some pair, and of some window.
abbrev inside_pairs : ℕ → List (ℕ × ℕ) → Bool
inside_pairs t [] = false
inside_pairs t ((a, b) ∷ ps) = leb a t && ltb t b || inside_pairs t ps

abbrev pub inside : ℕ → List Window → Bool
inside t [] = false
inside t (w ∷ ws) = leb w.start_slot t && ltb t w.end_slot || inside t ws

-- The slots do not descend, from `low` on.
abbrev pub Asc : ℕ → List ℕ → Type 0
Asc low [] = Unit
Asc low (s ∷ ss) = (low ≤ s) × Asc s ss

memb-Asc : (t low : ℕ) (ss : List ℕ) → t < low → Asc low ss → memb t ss ≡ false
memb-Asc t low [] lt h = refl
memb-Asc t low (s ∷ ss) lt h = ground (arith, memb-Asc t s ss)

inside_pairs-append :
    (t : ℕ) (ps qs : List (ℕ × ℕ))
    → inside_pairs t (ps ++ qs) ≡ (inside_pairs t ps || inside_pairs t qs)
inside_pairs-append t [] qs = refl
inside_pairs-append t ((a, b) ∷ ps) qs = ground (arith, inside_pairs-append t ps qs)

inside_pairs-gap : (t a b : ℕ) → inside_pairs t (gap a b) ≡ (leb a t && ltb t b)
inside_pairs-gap t a b = ground arith

slot_gaps_exact :
    (t cursor low : ℕ) (slots : List ℕ) (epoch_end : ℕ)
    → low ≤ cursor
    → cursor ≤ low + 1
    → Asc low slots
    → All (λ s. s < epoch_end) slots
    → inside_pairs t (slot_gaps cursor slots epoch_end)
      ≡ (leb cursor t && ltb t epoch_end && not (memb t slots))
slot_gaps_exact t cursor low [] epoch_end h k asc below =
    ground (arith, inside_pairs-gap t cursor epoch_end)
slot_gaps_exact t cursor low (s ∷ ss) epoch_end h k asc below = ground (
  arith,
  inside_pairs-append t (gap cursor s) (slot_gaps (s + 1) ss epoch_end),
  inside_pairs-gap t cursor s,
  slot_gaps_exact t (s + 1) s ss epoch_end,
  memb-Asc t s ss,
)

inside-map : (t : ℕ) (ps : List (ℕ × ℕ)) → inside t (map to_window ps) ≡ inside_pairs t ps
inside-map t [] = refl
inside-map t ((a, b) ∷ ps) = ground (arith, inside-map t ps)

inside_pairs-select :
    (t : ℕ) (p : ℕ × ℕ → Bool) (ps : List (ℕ × ℕ))
    → inside_pairs t (select p ps) ≡ true
    → inside_pairs t ps ≡ true
inside_pairs-select t p [] h = cc
inside_pairs-select t p ((a, b) ∷ ps) h = ground (arith, inside_pairs-select t p ps)

select-wide_0 : (ps : List (ℕ × ℕ)) → select (wide 0) ps ≡ ps
select-wide_0 [] = refl
select-wide_0 ((a, b) ∷ ps) = ground (arith, select-wide_0 ps)

module _ (current : ℕ) (slots : List ℕ) (epoch_end : ℕ) (asc : Asc current slots)
    (below : All (λ s. s < epoch_end) slots) where
  -- A slot of a window is not before the current one, ends before the epoch, and is no leader slot.
  pub free_windows_sound :
      (t m : ℕ)
      → inside t (free_windows current slots epoch_end m) ≡ true
      → (leb current t && ltb t epoch_end && not (memb t slots)) ≡ true
  unfolding free_windows
  free_windows_sound t m h =
      sym (slot_gaps_exact t current current slots epoch_end (omega arith) (omega arith) asc below)
      ∙ ap (inside_pairs t) (sym (gaps-runs current slots epoch_end))
      ∙ inside_pairs-select t (wide m) (gaps current (runs slots) epoch_end)
          (sym (inside-map t (select (wide m) (gaps current (runs slots) epoch_end))) ∙ h)

  -- With no minimal length the windows hold every such slot.
  pub free_windows_complete :
      (t : ℕ)
      → inside t (free_windows current slots epoch_end 0)
        ≡ (leb current t && ltb t epoch_end && not (memb t slots))
  unfolding free_windows
  free_windows_complete t =
      inside-map t (select (wide 0) (gaps current (runs slots) epoch_end))
      ∙ ap (inside_pairs t)
          (select-wide_0 (gaps current (runs slots) epoch_end) ∙ gaps-runs current slots epoch_end)
      ∙ slot_gaps_exact t current current slots epoch_end (omega arith) (omega arith) asc below

wide_windows :
    (m : ℕ) (ps : List (ℕ × ℕ))
    → All
        (λ w. (w.slots ≡ w.end_slot - w.start_slot) × (long_enough m w.slots ≡ true))
        (map to_window (select (wide m) ps))
wide_windows m [] = tt
wide_windows m ((a, b) ∷ ps) = elim (Bool-cases (wide m (a, b))) [
  | inl long ↦ rw long ((refl, long), wide_windows m ps)
  | inr short ↦ rw short (wide_windows m ps)
]

-- Every reported window has as many slots as its ends are apart, and is long enough.
free_windows_long :
    (current : ℕ) (slots : List ℕ) (epoch_end m : ℕ)
    → All
        (λ w. (w.slots ≡ w.end_slot - w.start_slot) × (long_enough m w.slots ≡ true))
        (free_windows current slots epoch_end m)
unfolding free_windows
free_windows_long current slots epoch_end m = wide_windows m (gaps current (runs slots) epoch_end)
