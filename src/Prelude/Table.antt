-- ===== src/Prelude/Table.antt =====
-- A hash map with text keys as an association list, in the order in which it is iterated.
use rocketmq_client_cpp.Prelude.Text.{Text, text_eq, text_eq_iff, text_eq_refl}
use mathlib.Core.Path.{◌≡◌, refl}
use mathlib.Core.Bool.{Bool}
use mathlib.Core.List.{List, [], ◌∷◌}
use mathlib.Core.Option.{Option, none, some}
use native.Mathlib.Omega.{arith}
use rocketmq_client_cpp.Prelude.Tests.{if◌then◌else◌, is_some}

module _ {ℓ} {V : Type ℓ} where
  unfoldable pub lookup : Text → List (Text × V) → Option V
  lookup k [] = none
  lookup k ((j, v) ∷ m) = if text_eq j k then some v else lookup k m

  abbrev pub contains_key : Text → List (Text × V) → Bool
  contains_key k m = is_some (lookup k m)

  -- `insert_or_assign`.
  unfoldable pub insert_or_assign : Text → V → List (Text × V) → List (Text × V)
  insert_or_assign k v [] = (k, v) ∷ []
  insert_or_assign k v ((j, w) ∷ m) =
      if text_eq j k then (k, v) ∷ m else (j, w) ∷ insert_or_assign k v m

  unfoldable pub erase_key : Text → List (Text × V) → List (Text × V)
  erase_key k [] = []
  erase_key k ((j, w) ∷ m) = if text_eq j k then erase_key k m else (j, w) ∷ erase_key k m

  -- `emplace` and `insert`: a key that is there keeps its value.
  abbrev pub emplace : Text → V → List (Text × V) → List (Text × V)
  emplace k v m = if contains_key k m then m else insert_or_assign k v m

  pub lookup-insert_or_assign :
      (k j : Text) (v : V) (m : List (Text × V))
      → lookup j (insert_or_assign k v m) ≡ (if text_eq k j then some v else lookup j m)
  unfolding lookup insert_or_assign
  lookup-insert_or_assign k j v [] = refl
  lookup-insert_or_assign k j v ((i, w) ∷ m) = ground (
    arith,
    text_eq_iff k j,
    text_eq_iff i k,
    text_eq_iff i j,
    text_eq_refl k,
    lookup-insert_or_assign k j v m,
  )

  pub lookup-erase_key :
      (k j : Text) (m : List (Text × V))
      → lookup j (erase_key k m) ≡ (if text_eq k j then none else lookup j m)
  unfolding lookup erase_key
  lookup-erase_key k j [] = ground arith
  lookup-erase_key k j ((i, w) ∷ m) =
      ground (arith, text_eq_iff k j, text_eq_iff i k, text_eq_iff i j, lookup-erase_key k j m)
