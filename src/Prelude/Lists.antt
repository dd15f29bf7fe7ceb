-- ===== src/Prelude/Lists.antt =====
-- Lists measured by native numbers, comprehensions with a Boolean test, and Python's sets of texts,
-- which are lists read through `mem`.
use Prim.Native.Nat.{ℕ, zero, suc}
use Prim.Native.String.{String}
use mathlib.Core.Path.{◌≡◌, refl}
use mathlib.Core.Bool.{Bool, true, false, not, ◌&&◌, ◌||◌}
use mathlib.Core.List.{List, [], ◌∷◌, ◌++◌}
use native.Mathlib.Omega.{arith}
use solfleet.Prelude.Tests.{if◌then◌else◌}
use solfleet.Prelude.Equality.{◌==◌, mem, str_lt}

module _ {ℓ} {A : Type ℓ} where
  abbrev pub length : List A → ℕ
  length [] = 0
  length (x ∷ xs) = suc (length xs)

  abbrev pub take : ℕ → List A → List A
  take zero xs = []
  take (suc n) [] = []
  take (suc n) (x ∷ xs) = x ∷ take n xs

  -- `[x for x in xs if p(x)]`
  abbrev pub select : (A → Bool) → List A → List A
  select p [] = []
  select p (x ∷ xs) = let rest = select p xs in if p x then x ∷ rest else rest

  -- `any(p(x) for x in xs)` and `all(p(x) for x in xs)`
  abbrev pub any : List A → (A → Bool) → Bool
  any [] p = false
  any (x ∷ xs) p = p x || any xs p

  abbrev pub all : List A → (A → Bool) → Bool
  all [] p = true
  all (x ∷ xs) p = p x && all xs p

  abbrev pub is_empty : List A → Bool
  is_empty [] = true
  is_empty (x ∷ xs) = false

  abbrev pub All {κ} : (A → Type κ) → List A → Type κ
  All P [] = Unit
  All P (x ∷ xs) = P x × All P xs

  pub all-select-not :
      (p : A → Bool) (xs : List A) → all xs p ≡ is_empty (select (λ x. not (p x)) xs)
  all-select-not p [] = refl
  all-select-not p (x ∷ xs) = ground (arith, all-select-not p xs)

-- `sorted(s)` of a set: each element once, in ascending order.
abbrev insert_sorted : String → List String → List String
insert_sorted x [] = x ∷ []
insert_sorted x (y ∷ ys) =
    let rest = insert_sorted x ys in
    if x == y then y ∷ ys else if str_lt x y then x ∷ y ∷ ys else y ∷ rest

unfoldable pub sorted_set : List String → List String
sorted_set [] = []
sorted_set (x ∷ xs) = insert_sorted x (sorted_set xs)

-- `sorted(xs)` of a list, which keeps an element as often as it stands there.
abbrev insert_by_order : String → List String → List String
insert_by_order x [] = x ∷ []
insert_by_order x (y ∷ ys) =
    let rest = insert_by_order x ys in if str_lt x y then x ∷ y ∷ ys else y ∷ rest

unfoldable pub sorted : List String → List String
sorted [] = []
sorted (x ∷ xs) = insert_by_order x (sorted xs)

-- `xs & ys` and `xs - ys`
unfoldable pub inter : List String → List String → List String
inter xs ys = select (λ x. mem x ys) xs

unfoldable pub diff : List String → List String → List String
diff xs ys = select (λ x. not (mem x ys)) xs

module _ (a : String) where
  pub mem-append : (xs ys : List String) → mem a (xs ++ ys) ≡ (mem a xs || mem a ys)
  mem-append [] ys = refl
  mem-append (x ∷ xs) ys = ground (arith, mem-append xs ys)

  pub mem-select : (p : String → Bool) (xs : List String) → mem a (select p xs) ≡ (mem a xs && p a)
  mem-select p [] = refl
  mem-select p (x ∷ xs) = ground (arith, mem-select p xs)

  pub mem-inter : (xs ys : List String) → mem a (inter xs ys) ≡ (mem a xs && mem a ys)
  unfolding inter
  mem-inter xs ys = mem-select (λ x. mem x ys) xs

  pub mem-diff : (xs ys : List String) → mem a (diff xs ys) ≡ (mem a xs && not (mem a ys))
  unfolding diff
  mem-diff xs ys = mem-select (λ x. not (mem x ys)) xs

  mem-insert_sorted :
      (x : String) (ys : List String) → mem a (insert_sorted x ys) ≡ (a == x || mem a ys)
  mem-insert_sorted x [] = refl
  mem-insert_sorted x (y ∷ ys) = ground (arith, mem-insert_sorted x ys)

  pub mem-sorted_set : (xs : List String) → mem a (sorted_set xs) ≡ mem a xs
  unfolding sorted_set
  mem-sorted_set [] = refl
  mem-sorted_set (x ∷ xs) = ground (arith, mem-insert_sorted x (sorted_set xs), mem-sorted_set xs)

  mem-insert_by_order :
      (x : String) (ys : List String) → mem a (insert_by_order x ys) ≡ (a == x || mem a ys)
  mem-insert_by_order x [] = refl
  mem-insert_by_order x (y ∷ ys) = ground (arith, mem-insert_by_order x ys)

  pub mem-sorted : (xs : List String) → mem a (sorted xs) ≡ mem a xs
  unfolding sorted
  mem-sorted [] = refl
  mem-sorted (x ∷ xs) = ground (arith, mem-insert_by_order x (sorted xs), mem-sorted xs)

pub ruleset set_laws = (mem-append, mem-inter, mem-diff, mem-sorted_set)

pub All-map {ℓ κ μ} :
    {A : Type ℓ} {P : A → Type κ} {Q : A → Type μ} (xs : List A)
    → ((x : A) → P x → Q x)
    → All P xs
    → All Q xs
All-map [] f h = tt
All-map (x ∷ xs) f h = (f x h.0, All-map xs f h.1)

pub first_of : (xs : List String) → is_empty xs ≡ false → (x : String) × (mem x xs ≡ true)
first_of [] h = cc
first_of (x ∷ xs) h = (x, ground arith)
