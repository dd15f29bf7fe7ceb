-- ===== src/Prelude/Dict.antt =====
-- Dicts in insertion order, and the comprehension `{k: v for ...}`, where a later pair of a key
-- replaces the value of an earlier one.
use Prim.Native.String.{String}
use mathlib.Core.Path.{◌≡◌, refl, ap, ◌∙◌}
use mathlib.Core.Bool.{◌||◌}
use mathlib.Core.Option.{Option, none, some}
use mathlib.Core.List.{List, [], ◌∷◌}
use native.Mathlib.Omega.{arith}
use solfleet.Prelude.Tests.{if◌then◌else◌, is_some}
use solfleet.Prelude.Equality.{◌==◌, mem}

abbrev pub Dict {ℓ} : Type ℓ → Type ℓ
Dict V = List (String × V)

module _ {ℓ} {V : Type ℓ} where
  unfoldable pub keys : Dict V → List String
  keys [] = []
  keys ((k, v) ∷ d) = k ∷ keys d

  -- `d.get(k)`
  unfoldable pub lookup : String → Dict V → Option V
  lookup k [] = none
  lookup k ((j, v) ∷ d) = if k == j then some v else lookup k d

  -- `d[k] = v`
  unfoldable pub insert : String → V → Dict V → Dict V
  insert k v [] = (k, v) ∷ []
  insert k v ((j, w) ∷ d) = if k == j then (k, v) ∷ d else (j, w) ∷ insert k v d

  unfoldable pub insert_all : Dict V → List (String × V) → Dict V
  unfolding insert
  insert_all d [] = d
  insert_all d ((k, v) ∷ kvs) = insert_all (insert k v d) kvs

  pub lookup-insert :
      (j k : String) (v : V) (d : Dict V)
      → lookup j (insert k v d) ≡ (if j == k then some v else lookup j d)
  unfolding lookup insert
  lookup-insert j k v [] = refl
  lookup-insert j k v ((i, w) ∷ d) = ground (arith, lookup-insert j k v d)

  -- The value of `k` after the pairs, from its value before them.
  abbrev pub last_value : String → Option V → List (String × V) → Option V
  last_value k old [] = old
  last_value k old ((j, v) ∷ kvs) = last_value k (if k == j then some v else old) kvs

  pub lookup-insert_all :
      (k : String) (d : Dict V) (kvs : List (String × V))
      → lookup k (insert_all d kvs) ≡ last_value k (lookup k d) kvs
  unfolding insert_all
  lookup-insert_all k d [] = refl
  lookup-insert_all k d ((j, v) ∷ kvs) =
      lookup-insert_all k (insert j v d) kvs ∙ ap (λ o. last_value k o kvs) (lookup-insert k j v d)

  pub is_some-last_value :
      (k : String) (old : Option V) (kvs : List (String × V))
      → is_some (last_value k old kvs) ≡ (is_some old || mem k (keys kvs))
  unfolding keys
  is_some-last_value k old [] = ground arith
  is_some-last_value k old ((j, v) ∷ kvs) =
      ground (arith, is_some-last_value k (if k == j then some v else old) kvs)

  pub is_some-lookup : (k : String) (d : Dict V) → is_some (lookup k d) ≡ mem k (keys d)
  unfolding lookup keys
  is_some-lookup k [] = refl
  is_some-lookup k ((j, v) ∷ d) = ground (arith, is_some-lookup k d)
