-- ===== src/Prelude/Sort.antt =====
-- ORDER BY: insertion into a sorted list, and the order of texts.
use Prim.Native.Nat.{Ordering}
use Prim.Native.String.{String, compare}
use mathlib.Core.Bool.{Bool, true, false}
use mathlib.Core.List.{List, [], ◌∷◌}
use mathlib.Core.Path.{◌≡◌, refl, ap, ◌∙◌}
use mathlib.Core.Logic.{inl, inr}
use mathlib.Core.Bool.{◌||◌}
use mathlib.Core.List.{map}
use native.Mathlib.Omega.{arith}
use text.Mathlib.Text.{◌==◌ as str_eq}
use goat_ai.Prelude.Lists.{member}
use goat_ai.Prelude.Tests.{if◌then◌else◌, Bool-cases}

-- a <= b
unfoldable pub text_before : String → String → Bool
text_before a b = elim (compare a b) [ Ordering.gt ↦ false | _ ↦ true ]

module _ {A : Type 0} (before : A → A → Bool) where
  unfoldable pub insert_by : A → List A → List A
  insert_by v [] = v ∷ []
  insert_by v (x ∷ xs) = if before v x then v ∷ x ∷ xs else x ∷ insert_by v xs

  unfoldable pub sort_by : List A → List A
  unfolding insert_by
  sort_by [] = []
  sort_by (x ∷ xs) = insert_by x (sort_by xs)

  -- Sorting lists the same names.
  insert_by-member :
      (name : A → String) (a : String) (v : A) (xs : List A)
      → member a (map name (insert_by v xs)) ≡ (str_eq a (name v) || member a (map name xs))
  unfolding insert_by
  insert_by-member name a v [] = refl
  insert_by-member name a v (x ∷ xs) = elim (Bool-cases (before v x)) [
    | inl first ↦ rw first
    | inr later ↦ rw later (ground (arith, insert_by-member name a v xs))
  ]

  pub sort_by-member :
      (name : A → String) (a : String) (xs : List A)
      → member a (map name (sort_by xs)) ≡ member a (map name xs)
  unfolding sort_by
  sort_by-member name a [] = refl
  sort_by-member name a (x ∷ xs) =
      insert_by-member name a x (sort_by xs)
      ∙ ap (λ b. str_eq a (name x) || b) (sort_by-member name a xs)
