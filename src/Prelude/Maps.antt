-- ===== src/Prelude/Maps.antt =====
-- Go's `map[string]V` as an association list. The order of the list stands for the order in which
-- one `range` loop visits the keys, which Go leaves open.
use mathlib.Core.Path.{◌≡◌, refl}
use mathlib.Core.Bool.{Bool, false}
use mathlib.Core.List.{List, [], ◌∷◌}
use mathlib.Core.Option
use mathlib.Core.Option.{Option, none, some}
use native.Mathlib.Omega.{arith}
use zigbeemq.Prelude.Tests.{if◌then◌else◌, is_some}
use zigbeemq.Prelude.Text.{Str, str_eq, str_eq_iff}

abbrev pub Assoc {ℓ} : Type ℓ → Type ℓ
Assoc V = List (Str × V)

-- `map[string]struct{}`.
abbrev pub StrSet : Type 0
StrSet = Assoc (Unit {0})

module _ {ℓ} {V : Type ℓ} where
  unfoldable pub lookup : Str → Assoc V → Option V
  lookup k [] = none
  lookup k ((j, v) ∷ m) = if str_eq j k then some v else lookup k m

  unfoldable pub insert : Str → V → Assoc V → Assoc V
  insert k v [] = (k, v) ∷ []
  insert k v ((j, w) ∷ m) = if str_eq j k then (j, v) ∷ m else (j, w) ∷ insert k v m

  unfoldable pub delete : Str → Assoc V → Assoc V
  delete k [] = []
  delete k ((j, w) ∷ m) = let rest = delete k m in if str_eq j k then rest else (j, w) ∷ rest

  pub lookup-insert :
      (k j : Str) (v : V) (m : Assoc V)
      → lookup j (insert k v m) ≡ (if str_eq k j then some v else lookup j m)
  unfolding lookup insert
  lookup-insert k j v [] = refl
  lookup-insert k j v ((i, w) ∷ m) =
      ground (arith, str_eq_iff k j, str_eq_iff i k, str_eq_iff i j, lookup-insert k j v m)

  pub lookup-delete :
      (k j : Str) (m : Assoc V) → lookup j (delete k m) ≡ (if str_eq k j then none else lookup j m)
  unfolding lookup delete
  lookup-delete k j [] = ground arith
  lookup-delete k j ((i, w) ∷ m) =
      ground (arith, str_eq_iff k j, str_eq_iff i k, str_eq_iff i j, lookup-delete k j m)

abbrev pub member {ℓ} : {V : Type ℓ} → Str → Assoc V → Bool
member k m = is_some (lookup k m)

module _ {ℓ} {V : Type ℓ} where
  -- An assignment through the pointer `m[k]`, if it is not nil.
  unfoldable pub adjust : Str → (V → V) → Assoc V → Assoc V
  adjust k f [] = []
  adjust k f ((j, w) ∷ m) = if str_eq j k then (j, f w) ∷ m else (j, w) ∷ adjust k f m

  pub lookup-adjust :
      (k j : Str) (f : V → V) (m : Assoc V)
      → lookup j (adjust k f m) ≡ (if str_eq k j then Option.map f (lookup j m) else lookup j m)
  unfolding lookup adjust
  lookup-adjust k j f [] = ground arith
  lookup-adjust k j f ((i, w) ∷ m) =
      ground (arith, str_eq_iff k j, str_eq_iff i k, str_eq_iff i j, lookup-adjust k j f m)

  -- No key stands twice.
  abbrev pub IsMap : Assoc V → Type 0
  IsMap [] = Unit
  IsMap ((k, v) ∷ m) = (member k m ≡ false) × IsMap m
