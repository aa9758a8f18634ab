-- ===== src/Prelude/Table.antt =====
-- A table with a primary key, as the statements of the stores see one: a list of rows in insertion
-- order. At most one row has a given key, so an UPDATE or a SELECT by key is about the first hit.
pub mod Select
pub mod Update
use mathlib.Core.Path.{◌≡◌, refl}
use mathlib.Core.Logic.{◌≢◌, ◌↔◌, inl, inr}
use mathlib.Core.Bool.{Bool, true}
use mathlib.Core.Option.{Option, none, some}
use mathlib.Core.List.{List, [], ◌∷◌, ◌++◌}
use native.Mathlib.Omega.{arith}
use goat_ai.Prelude.Tests.{if◌then◌else◌, Bool-cases, Option-cases}

pub record Keyed (K A : Type 0) : Type 0 where
  pub key : A → K
  pub beq : K → K → Bool
  pub beq_iff : (j k : K) → (beq j k ≡ true) ↔ (j ≡ k)

module _ {K A : Type 0} (t : Keyed K A) where
  -- SELECT … WHERE key = k
  unfoldable pub fetch : K → List A → Option A
  fetch k [] = none
  fetch k (r ∷ rs) = if t.beq (t.key r) k then some r else fetch k rs

  -- The row of key k, overwritten.
  unfoldable pub replace : K → A → List A → List A
  replace k v [] = []
  replace k v (r ∷ rs) = if t.beq (t.key r) k then v ∷ rs else r ∷ replace k v rs

  -- DELETE … WHERE key = k
  unfoldable pub remove : K → List A → List A
  remove k [] = []
  remove k (r ∷ rs) = let rest = remove k rs in if t.beq (t.key r) k then rest else r ∷ rest

  -- INSERT: `none` is a violation of the primary key.
  unfoldable pub insert : A → List A → Option (List A)
  insert v rs = elim (fetch (t.key v) rs) [ none ↦ some (rs ++ v ∷ []) | some _ ↦ none ]

  -- UPDATE … SET f WHERE key = k AND guard: `none` is `cursor.rowcount == 0`.
  unfoldable pub update_where : K → (A → Bool) → (A → A) → List A → Option (List A)
  update_where k g f rs = elim (fetch k rs) [
    | none ↦ none
    | some r ↦ if g r then some (replace k (f r) rs) else none
  ]

  -- A dictionary's `d[key] = v`.
  unfoldable pub put : A → List A → List A
  put v rs = elim (fetch (t.key v) rs) [ none ↦ rs ++ v ∷ [] | some _ ↦ replace (t.key v) v rs ]

  pub beq_refl : (k : K) → t.beq k k ≡ true
  beq_refl k = (t.beq_iff k k).1 refl

  pub key-fetch : (k : K) (rs : List A) (r : A) → fetch k rs ≡ some r → t.key r ≡ k
  unfolding fetch
  key-fetch k [] r e = cc
  key-fetch k (x ∷ rs) r e = ground (arith, t.beq_iff (t.key x) k, key-fetch k rs r)

  pub fetch-append :
      (k : K) (rs : List A) (v : A)
      → fetch k (rs ++ v ∷ [])
        ≡ elim (fetch k rs) [ none ↦ if t.beq (t.key v) k then some v else none | some r ↦ some r ]
  unfolding fetch
  fetch-append k [] v = refl
  fetch-append k (r ∷ rs) v = ground (arith, fetch-append k rs v)

  -- A write reads back under its own key, and leaves the other keys alone.
  pub fetch-replace_self :
      (k : K) (v : A) (rs : List A) (r : A)
      → t.key v ≡ k
      → fetch k rs ≡ some r
      → fetch k (replace k v rs) ≡ some v
  unfolding fetch replace
  fetch-replace_self k v [] r h e = cc
  fetch-replace_self k v (x ∷ rs) r h e =
      ground (arith, t.beq_iff (t.key v) k, fetch-replace_self k v rs r h)

  pub fetch-replace_ne :
      (j k : K) (v : A) (rs : List A) → t.key v ≡ k → j ≢ k → fetch j (replace k v rs) ≡ fetch j rs
  unfolding fetch replace
  fetch-replace_ne j k v [] h n = refl
  fetch-replace_ne j k v (x ∷ rs) h n = elim (Bool-cases (t.beq (t.key x) k)) [
    | inl hit ↦
        rw (hit, fetch, replace)
          (ground (arith, t.beq_iff (t.key v) j, t.beq_iff (t.key x) k, t.beq_iff (t.key x) j))
    | inr miss ↦ rw (miss, fetch, replace) (ground (arith, fetch-replace_ne j k v rs h n))
  ]

  pub fetch-put_self : (v : A) (rs : List A) → fetch (t.key v) (put v rs) ≡ some v
  unfolding put
  fetch-put_self v rs = elim (Option-cases (fetch (t.key v) rs)) [
    | inl e ↦
        rw (e, put)
          (rw (fetch-append (t.key v) rs v) (rw e (rw ((t.beq_iff (t.key v) (t.key v)).1 refl))))
    | inr (r, e) ↦ rw (e, put) (fetch-replace_self (t.key v) v rs r refl e)
  ]

  pub fetch-put_ne : (j : K) (v : A) (rs : List A) → j ≢ t.key v → fetch j (put v rs) ≡ fetch j rs
  unfolding put
  fetch-put_ne j v rs n = elim (Option-cases (fetch (t.key v) rs)) [
    | inl e ↦ rw (e, put) (rw (fetch-append j rs v) (ground (arith, t.beq_iff (t.key v) j)))
    | inr (r, e) ↦ rw (e, put) (fetch-replace_ne j (t.key v) v rs refl n)
  ]

  -- An INSERT that is accepted adds its row and keeps the others.
  pub fetch-insert :
      (j : K) (v : A) (rs rs' : List A)
      → insert v rs ≡ some rs'
      → fetch j rs'
        ≡ elim (fetch j rs) [ none ↦ if t.beq (t.key v) j then some v else none | some r ↦ some r ]
  unfolding insert
  fetch-insert j v rs rs' e = elim (Option-cases (fetch (t.key v) rs)) [
    | inl free ↦ rw (← added free) (fetch-append j rs v)
    | inr (r, taken) ↦ cc (e, refused r taken)
  ]
    where
      added : fetch (t.key v) rs ≡ none → rs ++ v ∷ [] ≡ rs'
      added free = ground arith

      refused : (r : A) → fetch (t.key v) rs ≡ some r → insert v rs ≡ none
      refused r taken = rw (taken, insert)

  -- It adds its row under the row's own key, which was free.
  pub fetch-insert_self :
      (v : A) (rs rs' : List A)
      → insert v rs ≡ some rs'
      → (fetch (t.key v) rs' ≡ some v) × (fetch (t.key v) rs ≡ none)
  unfolding insert
  fetch-insert_self v rs rs' e = elim (Option-cases (fetch (t.key v) rs)) [
    | inl free ↦ (rw (fetch-insert (t.key v) v rs rs' e, free) (rw (beq_refl (t.key v))), free)
    | inr (r, taken) ↦ let refused : insert v rs ≡ none = rw (taken, insert) in cc (e, refused)
  ]
