-- ===== src/Base/Dict.antt =====
-- A Go map with string keys, as an association list, and the laws that its users compute with.
use mathlib.Core.Path.{◌≡◌, refl}
use mathlib.Core.Option.{Option, none, some}
use mathlib.Core.List.{List, [], ◌∷◌}
use native.Mathlib.Omega.{arith}
use mathlib.Core.Logic.{◌⊎◌, inl, inr}
use some_go_foolery.Base.Tests.{if◌then◌else◌, Bool-cases}
use some_go_foolery.Base.Bytes.{Bytes, str_eq, str_eq_iff}

abbrev pub Dict {ℓ} : Type ℓ → Type ℓ
Dict V = List (Bytes × V)

module _ {ℓ} {V : Type ℓ} where
  -- `m[k]`.
  unfoldable pub lookup : Bytes → Dict V → Option V
  lookup k [] = none
  lookup k ((j, v) ∷ m) = if str_eq j k then some v else lookup k m

  -- `m[k] = v`.
  unfoldable pub insert : Bytes → V → Dict V → Dict V
  insert k v [] = (k, v) ∷ []
  insert k v ((j, w) ∷ m) = if str_eq j k then (k, v) ∷ m else (j, w) ∷ insert k v m

  -- `delete(m, k)`.
  unfoldable pub remove : Bytes → Dict V → Dict V
  remove k [] = []
  remove k ((j, v) ∷ m) = let rest = remove k m in if str_eq j k then rest else (j, v) ∷ rest

  pub lookup-insert :
      (k j : Bytes) (v : V) (m : Dict V)
      → lookup j (insert k v m) ≡ (if str_eq k j then some v else lookup j m)
  unfolding lookup insert
  lookup-insert k j v [] = refl
  lookup-insert k j v ((i, w) ∷ m) =
      ground (arith, str_eq_iff k j, str_eq_iff i k, str_eq_iff i j, lookup-insert k j v m)

  pub lookup-remove :
      (k j : Bytes) (m : Dict V) → lookup j (remove k m) ≡ (if str_eq k j then none else lookup j m)
  unfolding lookup remove
  lookup-remove k j [] = ground arith
  lookup-remove k j ((i, v) ∷ m) =
      ground (arith, lookup-remove k j m, str_eq_iff i k, str_eq_iff i j, str_eq_iff k j)

pub ruleset dict_laws = (lookup-insert, lookup-remove)

module _ {ℓ} {V : Type ℓ} where
  -- What a map holds after an insertion or a removal is new or was there.
  pub lookup-insert_origin :
      (k j : Bytes) (v e : V) (m : Dict V)
      → lookup j (insert k v m) ≡ some e
      → ((k ≡ j) × (v ≡ e)) ⊎ (lookup j m ≡ some e)
  lookup-insert_origin k j v e m h = elim (Bool-cases (str_eq k j)) [
    | inl same ↦ inl ((str_eq_iff k j).0 same, ground (arith, lookup-insert k j v m))
    | inr apart ↦ inr (ground (arith, lookup-insert k j v m))
  ]

  pub lookup-remove_origin :
      (k j : Bytes) (e : V) (m : Dict V) → lookup j (remove k m) ≡ some e → lookup j m ≡ some e
  lookup-remove_origin k j e m h = ground (arith, lookup-remove k j m)
