-- ===== src/Prelude/Sequence.antt =====
-- backend/services/sqlite_persistence_utils.py, next_scoped_sequence: rows that are numbered inside
-- a scope, and the ORDER BY seq of the statements that list them.
use Prim.Native.Nat.{ℕ, suc, ◌+◌, max}
use Prim.Native.String.{String}
use mathlib.Core.Path.{◌≡◌, refl}
use mathlib.Core.Logic.{inl, inr}
use mathlib.Core.List.{List, [], ◌∷◌, ◌++◌, append-nil}
use native.Mathlib.Omega.{arith}
use text.Mathlib.Text.{◌==◌ as str_eq}
use text.Mathlib.TextEquality.{eq_iff}
use goat_ai.Prelude.Tests.{if◌then◌else◌, leb, Bool-cases}
use goat_ai.Prelude.Lists.{length, select, select-append}

pub record Sequenced (A : Type 0) : Type 0 where
  pub scope : A → String
  pub seq : A → ℕ

module _ {A : Type 0} (t : Sequenced A) where
  abbrev pub rows_of : String → List A → List A
  rows_of k = select λ r. str_eq (t.scope r) k

  -- COALESCE(MAX(seq), 0)
  unfoldable pub max_seq : List A → ℕ
  max_seq [] = 0
  max_seq (r ∷ rs) = max (t.seq r) (max_seq rs)

  unfoldable pub next_scoped_sequence : String → List A → ℕ
  unfolding max_seq
  next_scoped_sequence k rows = max_seq (rows_of k rows) + 1

  insert_by_seq : A → List A → List A
  insert_by_seq v [] = v ∷ []
  insert_by_seq v (r ∷ rs) = if leb (t.seq v) (t.seq r) then v ∷ r ∷ rs else r ∷ insert_by_seq v rs

  -- ORDER BY seq ASC
  unfoldable pub order_by_seq : List A → List A
  unfolding insert_by_seq
  order_by_seq [] = []
  order_by_seq (r ∷ rs) = insert_by_seq r (order_by_seq rs)

  -- The rows are numbered n + 1, n + 2, … in insertion order.
  abbrev pub Counts : ℕ → List A → Type 0
  Counts n [] = Unit
  Counts n (r ∷ rs) = (t.seq r ≡ suc n) × Counts (suc n) rs

  abbrev pub IsNumbered : String → List A → Type 0
  IsNumbered k rows = Counts 0 (rows_of k rows)

  max_seq-Counts : (n : ℕ) (rs : List A) → Counts n rs → max n (max_seq rs) ≡ n + length rs
  unfolding max_seq
  max_seq-Counts n [] c = omega arith
  max_seq-Counts n (r ∷ rs) c = omega (arith, max_seq-Counts (suc n) rs c.1)

  pub next-length :
      (k : String) (rows : List A)
      → IsNumbered k rows
      → next_scoped_sequence k rows ≡ suc (length (rows_of k rows))
  unfolding next_scoped_sequence
  next-length k rows c = omega (arith, max_seq-Counts 0 (rows_of k rows) c)

  Counts-append :
      (n : ℕ) (rs : List A) (v : A)
      → Counts n rs
      → t.seq v ≡ suc (n + length rs)
      → Counts n (rs ++ v ∷ [])
  Counts-append n [] v c e = (omega arith, tt)
  Counts-append n (r ∷ rs) v c e = (c.0, Counts-append (suc n) rs v c.1 (omega arith))

  pub rows_of-append :
      (j : String) (rows : List A) (v : A)
      → rows_of j (rows ++ v ∷ [])
        ≡ (if str_eq (t.scope v) j then rows_of j rows ++ v ∷ [] else rows_of j rows)
  rows_of-append j rows v =
      rw (select-append (λ r. str_eq (t.scope r) j) rows (v ∷ []))
        (ground (arith, append-nil (rows_of j rows)))

  -- A row appended with the next number of its scope keeps every scope numbered.
  pub append-IsNumbered :
      (j : String) (rows : List A) (v : A)
      → t.seq v ≡ next_scoped_sequence (t.scope v) rows
      → IsNumbered j rows
      → IsNumbered j (rows ++ v ∷ [])
  append-IsNumbered j rows v e hj = elim (Bool-cases (str_eq (t.scope v) j)) [
    | inl hit ↦
        let same : t.seq v ≡ next_scoped_sequence j rows = rw (← (eq_iff (t.scope v) j).0 hit) e in
        rw (rows_of-append j rows v) (
          rw hit
            (Counts-append 0 (rows_of j rows) v hj (omega (arith, same, next-length j rows hj))))
    | inr miss ↦ rw (rows_of-append j rows v) (rw miss hj)
  ]

  insert_by_seq-Counts :
      (n : ℕ) (r : A) (rs : List A)
      → t.seq r ≡ suc n
      → Counts (suc n) rs
      → insert_by_seq r rs ≡ r ∷ rs
  unfolding insert_by_seq
  insert_by_seq-Counts n r [] e c = refl
  insert_by_seq-Counts n r (x ∷ rs) e c = ground arith

  -- Rows that are numbered in insertion order are listed in that order.
  pub order_by_seq-Counts : (n : ℕ) (rs : List A) → Counts n rs → order_by_seq rs ≡ rs
  unfolding order_by_seq
  order_by_seq-Counts n [] c = refl
  order_by_seq-Counts n (r ∷ rs) c =
      rw (order_by_seq-Counts (suc n) rs c.1) (insert_by_seq-Counts n r rs c.0 c.1)
