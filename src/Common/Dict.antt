-- ===== src/Common/Dict.antt =====
-- Go maps with string keys, as association lists. A map is ranged over in the list's order.
use mathlib.Core.Path.{◌≡◌, refl}
use mathlib.Core.Logic.{inl, inr}
use mathlib.Core.Bool.{Bool}
use mathlib.Core.Option.{Option, none, some}
use mathlib.Core.List.{List, [], ◌∷◌}
use native.Mathlib.Omega.{arith}
use mango_waf.Common.Tests.{if◌then◌else◌, Bool-cases}
use mango_waf.Common.Bytes.{Str, str_eq, str_eq_iff}

abbrev pub Dict {ℓ} : Type ℓ → Type ℓ
Dict V = List (Str × V)

module _ {ℓ} {V : Type ℓ} where
  unfoldable pub lookup : Str → Dict V → Option V
  lookup k [] = none
  lookup k ((j, v) ∷ m) = if str_eq j k then some v else lookup k m

  unfoldable pub insert : Str → V → Dict V → Dict V
  insert k v [] = (k, v) ∷ []
  insert k v ((j, w) ∷ m) = if str_eq j k then (k, v) ∷ m else (j, w) ∷ insert k v m

  unfoldable pub delete : Str → Dict V → Dict V
  delete k [] = []
  delete k ((j, w) ∷ m) = if str_eq j k then delete k m else (j, w) ∷ delete k m

  -- A range that deletes the entries for which the test fails.
  unfoldable pub retain : (V → Bool) → Dict V → Dict V
  retain p [] = []
  retain p ((j, w) ∷ m) = if p w then (j, w) ∷ retain p m else retain p m

  abbrev pub only_if : (V → Bool) → Option V → Option V
  only_if p none = none
  only_if p (some v) = if p v then some v else none

  -- No key stands twice.
  abbrev pub Distinct : Dict V → Type ℓ
  Distinct [] = Unit
  Distinct ((k, v) ∷ m) = (lookup k m ≡ none) × Distinct m

  pub lookup-insert :
      (j k : Str) (v : V) (m : Dict V)
      → lookup j (insert k v m) ≡ (if str_eq k j then some v else lookup j m)
  unfolding lookup insert
  lookup-insert j k v [] = refl
  lookup-insert j k v ((i, w) ∷ m) =
      ground (arith, str_eq_iff k j, str_eq_iff i k, str_eq_iff i j, lookup-insert j k v m)

  pub lookup-delete :
      (j k : Str) (m : Dict V) → lookup j (delete k m) ≡ (if str_eq k j then none else lookup j m)
  unfolding lookup delete
  lookup-delete j k [] = ground arith
  lookup-delete j k ((i, w) ∷ m) =
      ground (arith, str_eq_iff k j, str_eq_iff i k, str_eq_iff i j, lookup-delete j k m)

  pub lookup-retain-none :
      (j : Str) (p : V → Bool) (m : Dict V) → lookup j m ≡ none → lookup j (retain p m) ≡ none
  unfolding lookup retain
  lookup-retain-none j p [] h = refl
  lookup-retain-none j p ((i, w) ∷ m) h = ground (arith, lookup-retain-none j p m)

  pub lookup-retain :
      (j : Str) (p : V → Bool) (m : Dict V)
      → Distinct m
      → lookup j (retain p m) ≡ only_if p (lookup j m)
  unfolding lookup retain
  lookup-retain j p [] d = refl
  lookup-retain j p ((i, w) ∷ m) d =
      ground (arith, str_eq_iff i j, lookup-retain j p m d.1, lookup-retain-none j p m)

  pub insert-Distinct : (k : Str) (v : V) (m : Dict V) → Distinct m → Distinct (insert k v m)
  unfolding lookup insert
  insert-Distinct k v [] d = (refl, d)
  insert-Distinct k v ((i, w) ∷ m) d =
      ground
        (arith, str_eq_iff i k, str_eq_iff k i, lookup-insert i k v m, insert-Distinct k v m d.1)

  pub delete-Distinct : (k : Str) (m : Dict V) → Distinct m → Distinct (delete k m)
  unfolding lookup delete
  delete-Distinct k [] d = d
  delete-Distinct k ((i, w) ∷ m) d = ground (arith, lookup-delete i k m, delete-Distinct k m d.1)

  pub retain-Distinct : (p : V → Bool) (m : Dict V) → Distinct m → Distinct (retain p m)
  unfolding lookup retain
  retain-Distinct p [] d = d
  retain-Distinct p ((i, w) ∷ m) d =
      ground (arith, lookup-retain-none i p m d.0, retain-Distinct p m d.1)

-- A predicate on every value.
module _ {ℓ κ} {V : Type ℓ} (P : V → Type κ) where
  abbrev pub Values : Dict V → Type κ
  Values [] = Unit
  Values ((k, v) ∷ m) = P v × Values m

  pub insert-Values : (k : Str) (v : V) (m : Dict V) → P v → Values m → Values (insert k v m)
  unfolding insert
  insert-Values k v [] h a = (h, tt)
  insert-Values k v ((j, w) ∷ m) h a = elim (Bool-cases (str_eq j k)) [
    | inl e ↦ rw e (h, a.1)
    | inr e ↦ rw e (a.0, insert-Values k v m h a.1)
  ]

  pub delete-Values : (k : Str) (m : Dict V) → Values m → Values (delete k m)
  unfolding delete
  delete-Values k [] a = a
  delete-Values k ((j, w) ∷ m) a = elim (Bool-cases (str_eq j k)) [
    | inl e ↦ rw e (delete-Values k m a.1)
    | inr e ↦ rw e (a.0, delete-Values k m a.1)
  ]

  abbrev pub OnSome : Option V → Type κ
  OnSome none = Unit
  OnSome (some v) = P v

  pub lookup-Values : (k : Str) (m : Dict V) → Values m → OnSome (lookup k m)
  unfolding lookup
  lookup-Values k [] a = tt
  lookup-Values k ((j, w) ∷ m) a = elim (Bool-cases (str_eq j k)) [
    | inl e ↦ rw e a.0
    | inr e ↦ rw e (lookup-Values k m a.1)
  ]
