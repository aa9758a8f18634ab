-- ===== src/Prelude/Table/Select.antt =====
-- DELETE and SELECT by a condition on the rows of a table with a primary key.
use mathlib.Core.Path.{◌≡◌, refl}
use mathlib.Core.Bool.{Bool, true}
use mathlib.Core.Option.{none, some}
use mathlib.Core.List.{List, [], ◌∷◌, map}
use text.Mathlib.Text.{◌==◌ as str_eq}
use text.Mathlib.TextEquality.{eq_iff}
use Prim.Native.String.{String}
use native.Mathlib.Omega.{arith}
use goat_ai.Prelude.Lists.{select, member}
use goat_ai.Prelude.Table.{Keyed, fetch}

module _ {K A : Type 0} (t : Keyed K A) (p : A → Bool) where
  pub fetch-select-none :
      (k : K) (rs : List A) → fetch t k rs ≡ none → fetch t k (select p rs) ≡ none
  unfolding fetch
  fetch-select-none k [] e = refl
  fetch-select-none k (r ∷ rs) e = ground (arith, fetch-select-none k rs)

  pub fetch-select-some :
      (k : K) (rs : List A) (r : A)
      → fetch t k rs ≡ some r
      → p r ≡ true
      → fetch t k (select p rs) ≡ some r
  unfolding fetch
  fetch-select-some k [] r e h = cc
  fetch-select-some k (x ∷ rs) r e h = ground (arith, fetch-select-some k rs r)

  -- A row that a condition keeps was there, and passes it.
  pub select-fetch : (k : K) (rs : List A) (r : A) → fetch t k (select p rs) ≡ some r → p r ≡ true
  unfolding fetch
  select-fetch k [] r e = cc
  select-fetch k (x ∷ rs) r e = ground (arith, select-fetch k rs r)

-- The row that is found and passes a condition is listed under its key.
module _ {A : Type 0} (name : A → String) (p : A → Bool) where
  abbrev named : Keyed String A
  named = record { key = name; beq = str_eq; beq_iff = eq_iff }

  pub select-member :
      (k : String) (rs : List A) (r : A)
      → fetch named k rs ≡ some r
      → p r ≡ true
      → member k (map name (select p rs)) ≡ true
  unfolding fetch
  select-member k [] r e h = cc
  select-member k (x ∷ rs) r e h =
      ground (arith, eq_iff (name x) k, eq_iff k (name x), select-member k rs r)
