-- ===== src/Schedule/Runs.antt =====
-- The runs of src/solfleet/schedule.py leave the same gaps as the single slots.
use mathlib.Core.List.{foldl, append_assoc}
use solfleet.Prelude.{
  ℕ, ◌+◌, true, List, [], ◌∷◌, ◌++◌, eqb, if◌then◌else◌, ◌≡◌, refl, ◌∙◌, ap, arith, inl, inr,
  Bool-cases,
}
use solfleet.Schedule.{Run, last, last_or, add_slot, runs, gap, gaps}

-- The runs of `slots` behind an open run.
abbrev group : Run → List ℕ → List Run
group run [] = run ∷ []
group run (s ∷ ss) =
    let longer = group (record run { others = run.others ++ s ∷ [] }) ss in
    let fresh = group (record { first = s; others = [] }) ss in
    if eqb s (last run + 1) then longer else run ∷ fresh

add_slot-append :
    (done : List Run) (run : Run) (s : ℕ)
    → add_slot (done ++ run ∷ []) s ≡ done ++ add_slot (run ∷ []) s
add_slot-append [] run s = refl
add_slot-append (r ∷ []) run s = refl
add_slot-append (r ∷ q ∷ done) run s = ap (λ rs. r ∷ rs) (add_slot-append (q ∷ done) run s)

foldl-add_slot :
    (done : List Run) (run : Run) (ss : List ℕ)
    → foldl add_slot (done ++ run ∷ []) ss ≡ done ++ group run ss
foldl-add_slot done run [] = refl
foldl-add_slot done run (s ∷ ss) = elim (Bool-cases (eqb s (last run + 1))) [
  | inl next ↦
      ap (λ rs. foldl add_slot rs ss) (add_slot-append done run s)
      ∙ rw (next, add_slot, group)
          (foldl-add_slot done (record run { others = run.others ++ s ∷ [] }) ss)
  | inr apart ↦
      let fresh : Run = record { first = s; others = [] } in
      ap (λ rs. foldl add_slot rs ss) (add_slot-append done run s)
      ∙ rw (apart, add_slot, group, ← append_assoc done (run ∷ []) (fresh ∷ []))
          (foldl-add_slot (done ++ run ∷ []) fresh ss
            ∙ append_assoc done (run ∷ []) (group fresh ss))
]

last_or-snoc : (a : ℕ) (ts : List ℕ) (s : ℕ) → last_or a (ts ++ s ∷ []) ≡ s
last_or-snoc a [] s = refl
last_or-snoc a (t ∷ ts) s = last_or-snoc t ts s

-- The gaps that single slots leave.
abbrev pub slot_gaps : ℕ → List ℕ → ℕ → List (ℕ × ℕ)
slot_gaps cursor [] epoch_end = gap cursor epoch_end
slot_gaps cursor (s ∷ ss) epoch_end = gap cursor s ++ slot_gaps (s + 1) ss epoch_end

no_gap : (a s : ℕ) → eqb s a ≡ true → gap a s ≡ []
no_gap a s h = ground arith

gaps-group :
    (cursor : ℕ) (run : Run) (ss : List ℕ) (epoch_end : ℕ)
    → gaps cursor (group run ss) epoch_end
      ≡ gap cursor run.first ++ slot_gaps (last run + 1) ss epoch_end
gaps-group cursor run [] epoch_end = refl
gaps-group cursor run (s ∷ ss) epoch_end = elim (Bool-cases (eqb s (last run + 1))) [
  | inl next ↦
      let longer : Run = record run { others = run.others ++ s ∷ [] } in
      rw (next, group)
        (gaps-group cursor longer ss epoch_end
          ∙ ap (λ x. gap cursor run.first ++ x)
              (rw (last_or-snoc run.first run.others s, no_gap (last run + 1) s next)))
  | inr apart ↦
      rw (apart, group)
        (ap (λ x. gap cursor run.first ++ x)
          (gaps-group (last run + 1) (record { first = s; others = [] }) ss epoch_end))
]

pub gaps-runs :
    (cursor : ℕ) (slots : List ℕ) (epoch_end : ℕ)
    → gaps cursor (runs slots) epoch_end ≡ slot_gaps cursor slots epoch_end
unfolding runs
gaps-runs cursor [] epoch_end = refl
gaps-runs cursor (s ∷ ss) epoch_end =
    ap (λ rs. gaps cursor rs epoch_end) (foldl-add_slot [] (record { first = s; others = [] }) ss)
    ∙ gaps-group cursor (record { first = s; others = [] }) ss epoch_end
