-- ===== src/Workbench/Retrieval/Citations.antt =====
-- backend/services/workbench_legacy_retrieval_executor.py, _dedupe_citations: which citations are kept.
use goat_ai.Prelude.{
  ◌≡◌, ap, ◌∙◌, inl, inr, String, true, Option, none, some, List, [], ◌∷◌, arith, if◌then◌else◌,
  str_eq, eq_iff, eq_refl, Bool-cases, &&_iff,
}
use goat_ai.Workbench.Runs.{Citation}
use goat_ai.Workbench.Retrieval.{key_of, same_key, seen_before, dedupe_unseen, dedupe_citations}

-- The first citation of a document's chunk.
unfoldable pub first_with : String × String → List Citation → Option Citation
first_with k [] = none
first_with k (c ∷ cs) = if same_key k (key_of c) then some c else first_with k cs

-- No chunk is cited twice.
abbrev pub CitedOnce : List Citation → Type 0
CitedOnce [] = Unit {0}
CitedOnce (c ∷ cs) = (first_with (key_of c) cs ≡ none) × CitedOnce cs

same_key-same : (j k : String × String) → same_key j k ≡ true → j ≡ k
same_key-same (d, c) (d', c') h =
    let (p, q) = (&&_iff (str_eq d d') (str_eq c c')).0 h in
    let document = (eq_iff d d').0 p in let chunk = (eq_iff c c').0 q in λ i. (document i, chunk i)

same_key_self : (k : String × String) → same_key k k ≡ true
same_key_self (d, c) = rw (eq_refl d, eq_refl c)

seen_again :
    (k j : String × String) (seen : List (String × String))
    → same_key k j ≡ true
    → seen_before k seen ≡ seen_before j seen
seen_again k j seen h = ap (λ v. seen_before v seen) (same_key-same k j h)

first_with-dedupe :
    (k : String × String) (cs : List Citation) (seen : List (String × String))
    → first_with k (dedupe_unseen seen cs) ≡ (if seen_before k seen then none else first_with k cs)
unfolding first_with dedupe_unseen
first_with-dedupe k [] seen = ground arith
first_with-dedupe k (c ∷ cs) seen = elim (Bool-cases (seen_before (key_of c) seen)) [
  | inl known ↦
      rw known (first_with-dedupe k cs seen ∙ ground (arith, known, seen_again k (key_of c) seen))
  | inr new ↦
      rw new (
        ground (arith, new, seen_again k (key_of c) seen, first_with-dedupe k cs (key_of c ∷ seen)))
]

dedupe-CitedOnce :
    (cs : List Citation) (seen : List (String × String)) → CitedOnce (dedupe_unseen seen cs)
unfolding dedupe_unseen
dedupe-CitedOnce [] seen = tt
dedupe-CitedOnce (c ∷ cs) seen = elim (Bool-cases (seen_before (key_of c) seen)) [
  | inl known ↦ rw known (dedupe-CitedOnce cs seen)
  | inr new ↦ rw new (
    first_with-dedupe (key_of c) cs (key_of c ∷ seen) ∙ rw (same_key_self (key_of c)),
    dedupe-CitedOnce cs (key_of c ∷ seen),
  )
]

-- Of the citations that the sources returned, no chunk of a document is cited twice in the result, and
-- what stands for a chunk is the first citation of it: none is lost and none is invented.
pub dedupe-first :
    (cs : List Citation)
    → CitedOnce (dedupe_citations cs)
      × ((k : String × String) → first_with k (dedupe_citations cs) ≡ first_with k cs)
unfolding dedupe_citations
dedupe-first cs = (dedupe-CitedOnce cs [], λ k. first_with-dedupe k cs [])
