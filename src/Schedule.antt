-- ===== src/Schedule.antt =====
-- src/solfleet/schedule.py. `SLOT_TIME_S` is 0.4 s: times are kept in tenths of a second, so that
-- `slots * 0.4 >= minutes * 60` is `slots * 4 >= minutes * 600`. The field `duration_minutes` of a window
-- is this time rounded for display, and is left out.
pub mod Runs
pub mod Free
pub mod Leader
pub mod SafeNow
use solfleet.Prelude.{
  ℕ, ◌+◌, ◌-◌, ◌*◌, Bool, true, List, [], ◌∷◌, ◌++◌, String, Option, none, some, map, select,
  length, leb, ltb, eqb, if◌then◌else◌,
}
use mathlib.Core.List.{foldl}

-- A run is never empty: its first slot, and the slots behind it.
pub record Run : Type 0 where
  pub first : ℕ
  pub others : List ℕ

-- `run[-1]`
abbrev last_or : ℕ → List ℕ → ℕ
last_or s [] = s
last_or s (t ∷ ts) = last_or t ts

abbrev pub last : Run → ℕ
last run = last_or run.first run.others

-- The body of the loop of `_runs`.
abbrev pub add_slot : List Run → ℕ → List Run
add_slot [] s = record { first = s; others = [] } ∷ []
add_slot (run ∷ []) s =
    if eqb s (last run + 1)
    then record run { others = run.others ++ s ∷ [] } ∷ []
    else run ∷ record { first = s; others = [] } ∷ []
add_slot (run ∷ next ∷ runs) s = run ∷ add_slot (next ∷ runs) s

unfoldable pub runs : List ℕ → List Run
runs slots = foldl add_slot [] slots

-- A pair `(a, b)` is appended if `b - a > 0`.
abbrev pub gap : ℕ → ℕ → List (ℕ × ℕ)
gap a b = if ltb a b then (a, b) ∷ [] else []

-- The loop of `_free_windows` over the runs, and the rest of the epoch.
abbrev pub gaps : ℕ → List Run → ℕ → List (ℕ × ℕ)
gaps cursor [] epoch_end = gap cursor epoch_end
gaps cursor (run ∷ rest) epoch_end = gap cursor run.first ++ gaps (last run + 1) rest epoch_end

pub record Window : Type 0 where
  pub start_slot : ℕ
  pub end_slot : ℕ
  pub slots : ℕ

-- `slots * SLOT_TIME_S >= min_window_minutes * 60`
abbrev pub long_enough : ℕ → ℕ → Bool
long_enough min_window_minutes slots = leb (min_window_minutes * 600) (slots * 4)

abbrev to_window : ℕ × ℕ → Window
to_window (a, b) = record { start_slot = a; end_slot = b; slots = b - a }

abbrev wide : ℕ → ℕ × ℕ → Bool
wide min_window_minutes (a, b) = long_enough min_window_minutes (b - a)

unfoldable pub free_windows : ℕ → List ℕ → ℕ → ℕ → List Window
unfolding runs
free_windows current upcoming epoch_end min_window_minutes =
    map to_window (select (wide min_window_minutes) (gaps current (runs upcoming) epoch_end))

-- The answer of getEpochInfo.
pub record EpochInfo : Type 0 where
  pub absolute_slot : ℕ
  pub slot_index : ℕ
  pub slots_in_epoch : ℕ
  pub epoch : ℕ

-- `sorted` of a list of numbers.
abbrev insert_slot : ℕ → List ℕ → List ℕ
insert_slot s [] = s ∷ []
insert_slot s (t ∷ ts) = let rest = insert_slot s ts in if leb s t then s ∷ t ∷ ts else t ∷ rest

abbrev pub sorted : List ℕ → List ℕ
sorted [] = []
sorted (s ∷ ss) = insert_slot s (sorted ss)

pub record LeaderReport : Type 0 where
  pub identity : String
  pub epoch : ℕ
  pub current_slot : ℕ
  pub leads_this_epoch : ℕ
  pub next_leader_slot : Option ℕ
  pub tenths_to_next_leader : Option ℕ
  pub safe_now : Bool
  pub min_window_minutes : ℕ
  pub windows : List Window

abbrev pub upcoming_slots : EpochInfo → List ℕ → List ℕ
upcoming_slots e indices =
    let epoch_start = e.absolute_slot - e.slot_index in
    sorted (select (λ s. ltb e.absolute_slot s) (map (λ i. epoch_start + i) indices))

abbrev head_of : List ℕ → Option ℕ
head_of [] = none
head_of (s ∷ ss) = some s

abbrev slots_until : ℕ → Option ℕ → Option ℕ
slots_until absolute none = none
slots_until absolute (some s) = some (s - absolute)

abbrev safe : ℕ → Option ℕ → Bool
safe min_window_minutes none = true
safe min_window_minutes (some slots) = long_enough min_window_minutes slots

abbrev tenths : Option ℕ → Option ℕ
tenths none = none
tenths (some slots) = some (slots * 4)

-- `leader_windows` from the two answers of the RPC: the epoch, and the identity's slots as offsets in it.
unfoldable pub leader_windows : String → EpochInfo → List ℕ → ℕ → LeaderReport
unfolding free_windows
leader_windows identity e indices min_window_minutes =
    let absolute = e.absolute_slot in
    let epoch_end = absolute - e.slot_index + e.slots_in_epoch in
    let upcoming = upcoming_slots e indices in
    let next_leader = head_of upcoming in
    let distance = slots_until absolute next_leader in
    record {
      identity = identity;
      epoch = e.epoch;
      current_slot = absolute;
      leads_this_epoch = length indices;
      next_leader_slot = next_leader;
      tenths_to_next_leader = tenths distance;
      safe_now = safe min_window_minutes distance;
      min_window_minutes = min_window_minutes;
      windows = free_windows absolute upcoming epoch_end min_window_minutes;
    }
