-- ===== src/Prelude/Table/Update.antt =====
-- UPDATE … WHERE key = k AND guard: the rows that a reader finds afterwards.
use mathlib.Core.Path.{◌≡◌, ◌∙◌}
use mathlib.Core.Logic.{◌≢◌, ◌⊎◌, inl, inr}
use mathlib.Core.Bool.{Bool, true, false, ◌&&◌}
use mathlib.Core.Option.{Option, none, some}
use mathlib.Core.List.{List}
use native.Mathlib.Omega.{arith}
use goat_ai.Prelude.Tests.{if◌then◌else◌, Bool-cases, Option-cases}
use goat_ai.Prelude.Table.{
  Keyed, fetch, replace, update_where, key-fetch, fetch-replace_self, fetch-replace_ne,
}

-- The table after an UPDATE that may have hit no row.
unfoldable pub or_unchanged {ℓ} : {A : Type ℓ} → A → Option A → A
or_unchanged table none = table
or_unchanged table (some table') = table'

module _ {K A : Type 0} (t : Keyed K A) where
  pub fetch-replace :
      (j k : K) (v : A) (rs : List A) (r : A)
      → t.key v ≡ k
      → fetch t k rs ≡ some r
      → fetch t j (replace t k v rs) ≡ (if t.beq j k then some v else fetch t j rs)
  fetch-replace j k v rs r h e = elim (Bool-cases (t.beq j k)) [
    | inl hit ↦ rw hit (rw ((t.beq_iff j k).0 hit) (fetch-replace_self t k v rs r h e))
    | inr miss ↦ rw miss (fetch-replace_ne t j k v rs h (λ same. ground (arith, t.beq_iff j k)))
  ]

  -- An UPDATE hits no row, or the one that has the key, which passes the guard.
  pub update_where_cases :
      (k : K) (g : A → Bool) (f : A → A) (rs : List A)
      → (update_where t k g f rs ≡ none)
        ⊎ ((r : A) × (fetch t k rs ≡ some r)
            × (g r ≡ true)
            × (update_where t k g f rs ≡ some (replace t k (f r) rs)))
  unfolding update_where
  update_where_cases k g f rs = elim (Option-cases (fetch t k rs)) [
    | inl e ↦ inl (rw (e, update_where))
    | inr (r, e) ↦ elim (Bool-cases (g r)) [
      | inl hit ↦ inr (r, e, hit, rw (e, update_where) (rw hit))
      | inr miss ↦ inl (rw (e, update_where) (rw miss))
    ]
  ]

  pub update_where_hit :
      (k : K) (g : A → Bool) (f : A → A) (rs : List A) (r : A)
      → fetch t k rs ≡ some r
      → g r ≡ true
      → update_where t k g f rs ≡ some (replace t k (f r) rs)
  unfolding update_where
  update_where_hit k g f rs r e h = rw (e, update_where) (rw h)

  pub update_where_miss :
      (k : K) (g : A → Bool) (f : A → A) (rs : List A) (r : A)
      → fetch t k rs ≡ some r
      → g r ≡ false
      → update_where t k g f rs ≡ none
  unfolding update_where
  update_where_miss k g f rs r e h = rw (e, update_where) (rw h)

  updated_self :
      (k : K) (g : A → Bool) (f : A → A) (rs : List A) (r : A)
      → ((v : A) → t.key (f v) ≡ t.key v)
      → fetch t k rs ≡ some r
      → fetch t k (or_unchanged rs (update_where t k g f rs)) ≡ some (if g r then f r else r)
  unfolding or_unchanged
  updated_self k g f rs r keeps e = elim (Bool-cases (g r)) [
    | inl hit ↦ rw hit (
        rw (update_where_hit k g f rs r e hit)
          (fetch-replace_self t k (f r) rs r (keeps r ∙ key-fetch t k rs r e) e))
    | inr miss ↦ rw miss (rw (update_where_miss k g f rs r e miss) e)
  ]

  updated_ne :
      (j k : K) (g : A → Bool) (f : A → A) (rs : List A)
      → ((v : A) → t.key (f v) ≡ t.key v)
      → j ≢ k
      → fetch t j (or_unchanged rs (update_where t k g f rs)) ≡ fetch t j rs
  unfolding or_unchanged
  updated_ne j k g f rs keeps n = elim (update_where_cases k g f rs) [
    | inl e ↦ rw e
    | inr (r, e, hit, u) ↦ rw u (fetch-replace_ne t j k (f r) rs (keeps r ∙ key-fetch t k rs r e) n)
  ]

  -- A reader finds its row rewritten if it is the one that was hit.
  pub fetch-updated :
      (j k : K) (g : A → Bool) (f : A → A) (rs : List A) (r : A)
      → ((v : A) → t.key (f v) ≡ t.key v)
      → fetch t j rs ≡ some r
      → fetch t j (or_unchanged rs (update_where t k g f rs))
        ≡ some (if t.beq j k && g r then f r else r)
  fetch-updated j k g f rs r keeps e = elim (Bool-cases (t.beq j k)) [
    | inl hit ↦
        let p = (t.beq_iff j k).0 hit in rw hit (rw p (updated_self k g f rs r keeps (rw (← p) e)))
    | inr miss ↦ rw miss (updated_ne j k g f rs keeps (λ same. ground (arith, t.beq_iff j k)) ∙ e)
  ]

  -- Guards that agree on the row that is found hit the same row.
  pub update_where-guards :
      (k : K) (g h : A → Bool) (f : A → A) (rs : List A)
      → ((r : A) → fetch t k rs ≡ some r → g r ≡ h r)
      → update_where t k g f rs ≡ update_where t k h f rs
  unfolding update_where
  update_where-guards k g h f rs same = elim (Option-cases (fetch t k rs)) [
    | inl e ↦ rw (e, update_where)
    | inr (r, e) ↦ rw (e, update_where) (rw (same r e))
  ]
