-- ===== src/Audit/History.antt =====
-- What `recent` of src/solfleet/audit.py returns, in terms of the insertions.
use solfleet.Prelude.{
  ℕ, ◌+◌, ◌≤◌, Bool, List, [], ◌∷◌, ◌++◌, String, Option, map, take, select, All, ◌≡◌, refl, ap,
  arith, Bool-cases, inl, inr,
}
use solfleet.Audit.{
  Row, AuditLog, Entry, to_event, selected, order_desc, recent, record_event, insert_desc,
}

-- The ids ascend from row to row and stay below the next one.
abbrev pub Ascending : ℕ → List Row → ℕ → Type 0
Ascending low [] next = low ≤ next
Ascending low (r ∷ rs) next = (low ≤ r.id) × Ascending (r.id + 1) rs next

abbrev pub IsWellFormed : AuditLog → Type 0
IsWellFormed log = Ascending 0 log.rows log.next_id

Ascending-snoc :
    (low : ℕ) (rs : List Row) (next : ℕ) (r : Row)
    → r.id ≡ next
    → Ascending low rs next
    → Ascending low (rs ++ r ∷ []) (next + 1)
Ascending-snoc low [] next r e h = omega arith
Ascending-snoc low (s ∷ rs) next r e h = (h.0, Ascending-snoc (s.id + 1) rs next r e h.1)

-- Recording an event keeps the table well formed: the ids ascend and stay below the next one.
record_event-IsWellFormed :
    (log : AuditLog) (e : Entry) → IsWellFormed log → IsWellFormed (record_event log e).1
unfolding record_event
record_event-IsWellFormed log e h = Ascending-snoc 0 log.rows log.next_id _ refl h

-- Rows in the order of their insertion, the newest first.
abbrev pub newest_first : List Row → List Row
newest_first [] = []
newest_first (r ∷ rs) = newest_first rs ++ r ∷ []

Ascending-weaken :
    (a b : ℕ) (rs : List Row) (next : ℕ) → a ≤ b → Ascending b rs next → Ascending a rs next
Ascending-weaken a b [] next le h = omega arith
Ascending-weaken a b (r ∷ rs) next le h = (omega arith, h.1)

select-Ascending :
    (p : Row → Bool) (low : ℕ) (rs : List Row) (next : ℕ)
    → Ascending low rs next
    → Ascending low (select p rs) next
select-Ascending p low [] next h = h
select-Ascending p low (r ∷ rs) next h = elim (Bool-cases (p r)) [
  | inl yes_p ↦ rw yes_p (h.0, select-Ascending p (r.id + 1) rs next h.1)
  | inr no_p ↦ rw no_p (
      Ascending-weaken low (r.id + 1) (select p rs) next (omega arith)
        (select-Ascending p (r.id + 1) rs next h.1))
]

-- Every row of `rs` has an id of at least `low`.
abbrev Above : ℕ → List Row → Type 0
Above low = All (λ r. low ≤ r.id)

Ascending-Above :
    (low a : ℕ) (rs : List Row) (next : ℕ) → a ≤ low → Ascending low rs next → Above a rs
Ascending-Above low a [] next le h = tt
Ascending-Above low a (r ∷ rs) next le h =
    (omega arith, Ascending-Above (r.id + 1) a rs next (omega arith) h.1)

insert_desc-last : (r : Row) (rs : List Row) → Above (r.id + 1) rs → insert_desc r rs ≡ rs ++ r ∷ []
insert_desc-last r [] h = refl
insert_desc-last r (s ∷ rs) h = ground (arith, insert_desc-last r rs h.1)

Above-snoc : (a : ℕ) (rs : List Row) (r : Row) → Above a rs → a ≤ r.id → Above a (rs ++ r ∷ [])
Above-snoc a [] r h le = (le, tt)
Above-snoc a (s ∷ rs) r h le = (h.0, Above-snoc a rs r h.1 le)

Above-newest_first : (a : ℕ) (rs : List Row) → Above a rs → Above a (newest_first rs)
Above-newest_first a [] h = tt
Above-newest_first a (r ∷ rs) h = Above-snoc a (newest_first rs) r (Above-newest_first a rs h.1) h.0

order_desc-eq-newest_first :
    (low : ℕ) (rs : List Row) (next : ℕ) → Ascending low rs next → order_desc rs ≡ newest_first rs
unfolding order_desc
order_desc-eq-newest_first low [] next h = refl
order_desc-eq-newest_first low (r ∷ rs) next h =
    rw (order_desc-eq-newest_first (r.id + 1) rs next h.1) (
      insert_desc-last r (newest_first rs) (
        Above-newest_first (r.id + 1) rs
          (Ascending-Above (r.id + 1) (r.id + 1) rs next (omega arith) h.1)))

-- On a well-formed table, the recent events are the events of the node, the one inserted last first, cut
-- at the limit.
pub recent-eq-newest_first :
    (log : AuditLog) (node : Option String) (limit : ℕ)
    → IsWellFormed log
    → recent log node limit
      ≡ map to_event (take limit (newest_first (select (selected node) log.rows)))
unfolding recent
recent-eq-newest_first log node limit h =
    ap (λ rs. map to_event (take limit rs))
      (order_desc-eq-newest_first 0 (select (selected node) log.rows) log.next_id
        (select-Ascending (selected node) 0 log.rows log.next_id h))
