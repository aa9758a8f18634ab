-- ===== src/Workbench/Sources/Requested.antt =====
-- backend/services/workbench_source_registry.py: what the ids of a request become, and who gets which
-- source.
use goat_ai.Prelude.{
  ◌≡◌, refl, sym, ap, ◌∙◌, inl, inr, String, true, false, not, ◌&&◌, ◌||◌, Option, none, some, List,
  [], ◌∷◌, ◌++◌, map, arith, if◌then◌else◌, member, str_eq, eq_iff, Bool-cases, All,
}
use goat_ai.Prelude.Table.{fetch, key-fetch}
use goat_ai.Prelude.Text.Strip.{is_space, lstrip, rstrip, strip, strip_idem}
use goat_ai.Authz.{AuthorizationContext}
use goat_ai.Workbench.Sources.{
  Descriptor, SourceSettings, source_by_id, build_workbench_source_catalog_by_id, index_sources,
  build_workbench_source_catalog, source_decision, add_source_id, add_source_ids, has_any,
  normalize_requested_source_ids, Resolution, resolve_one, resolve_each, found, conclude_sources,
  resolve_with, resolve_requested_sources,
}

-- No id twice.
abbrev pub Distinct : List String → Type 0
Distinct [] = Unit {0}
Distinct (x ∷ xs) = (member x xs ≡ false) × Distinct xs

-- Stripped, and not blank.
abbrev pub Clean : String → Type 0
Clean s = (strip s ≡ s) × (str_eq s "" ≡ false)

member-append :
    (a : String) (xs ys : List String) → member a (xs ++ ys) ≡ (member a xs || member a ys)
member-append a [] ys = refl
member-append a (x ∷ xs) ys = ground (arith, member-append a xs ys)

Distinct-append :
    (xs : List String) (y : String) → Distinct xs → member y xs ≡ false → Distinct (xs ++ y ∷ [])
Distinct-append [] y d h = (refl, tt)
Distinct-append (x ∷ xs) y (first, rest) h = (
  member-append x xs (y ∷ []) ∙ ground (arith, eq_iff x y, eq_iff y x),
  Distinct-append xs y rest (ground arith),
)

All-append : (xs : List String) (y : String) → All Clean xs → Clean y → All Clean (xs ++ y ∷ [])
All-append [] y a c = (c, tt)
All-append (x ∷ xs) y (first, rest) c = (first, All-append xs y rest c)

abbrev Normal : List String → Type 0
Normal ids = Distinct ids × All Clean ids

append-Normal :
    (ids : List String) (a : String)
    → Normal ids
    → Clean a
    → member a ids ≡ false
    → Normal (ids ++ a ∷ [])
append-Normal ids a (d, c) clean new = (Distinct-append ids a d new, All-append ids a c clean)

add_source_id-Normal :
    (ids : List String) (a : String) → strip a ≡ a → Normal ids → Normal (add_source_id ids a)
unfolding add_source_id
add_source_id-Normal ids a s n = elim (Bool-cases (str_eq a "")) [
  | inl blank ↦ rw blank n
  | inr solid ↦ elim (Bool-cases (member a ids)) [
    | inl old ↦ rw (solid, old) n
    | inr new ↦ rw (solid, new) (append-Normal ids a n (s, solid) new)
  ]
]

add_source_ids-Normal : (ids raws : List String) → Normal ids → Normal (add_source_ids ids raws)
unfolding add_source_ids
add_source_ids-Normal ids [] n = n
add_source_ids-Normal ids (raw ∷ raws) n =
    add_source_ids-Normal (add_source_id ids (strip raw)) raws
      (add_source_id-Normal ids (strip raw) (strip_idem raw) n)

add_source_id-member :
    (ids : List String) (a b : String)
    → member b (add_source_id ids a) ≡ (member b ids || (str_eq b a && not (str_eq b "")))
unfolding add_source_id
add_source_id-member ids a b =
    ground (arith, eq_iff b a, eq_iff b "", eq_iff a "", member-append b ids (a ∷ []))

add_source_ids-member :
    (ids raws : List String) (b : String)
    → member b (add_source_ids ids raws)
      ≡ (member b ids || (member b (map strip raws) && not (str_eq b "")))
unfolding add_source_ids
add_source_ids-member ids [] b = ground arith
add_source_ids-member ids (raw ∷ raws) b =
    add_source_ids-member (add_source_id ids (strip raw)) raws b
    ∙ ground (arith, add_source_id-member ids (strip raw) b)

knowledge_clean : strip "knowledge" ≡ "knowledge"
unfolding strip lstrip rstrip is_space
knowledge_clean = refl

named_already :
    (b : String) (raws : List String)
    → (member "knowledge" (map strip raws) && not (str_eq "knowledge" "")) ≡ true
    → (member b (map strip raws) && not (str_eq b ""))
      ≡ ((member b (map strip raws) && not (str_eq b "")) || (str_eq b "knowledge" && true))
named_already b raws h = elim (Bool-cases (str_eq b "knowledge")) [
  | inl same ↦ rw ((eq_iff b "knowledge").0 same) (ground arith)
  | inr differ ↦ rw differ (ground arith)
]

-- The ids of a request are stripped, none is blank and none comes twice; one is among them exactly if
-- it is one of the request's, stripped, and not blank, or is "knowledge" where documents are attached.
pub normalize-Normal :
    (source_ids connector_ids documents : List String)
    → let ids = normalize_requested_source_ids source_ids connector_ids documents in
      Distinct ids
      × All Clean ids
      × ((b : String)
          → member b ids ≡ (
              (member b (map strip (source_ids ++ connector_ids)) && not (str_eq b ""))
              || (str_eq b "knowledge" && has_any documents)))
unfolding normalize_requested_source_ids
normalize-Normal source_ids connector_ids documents =
    let raws = source_ids ++ connector_ids in
    let (d, c) = add_source_ids-Normal [] raws (tt, tt) in
    let listed = add_source_ids-member [] raws in
    elim (Bool-cases (has_any documents)) [
      | inl attached ↦ elim (Bool-cases (member "knowledge" (add_source_ids [] raws))) [
        | inl named ↦
            rw (attached, named)
              (d, c, λ b. listed b ∙ named_already b raws (sym (listed "knowledge") ∙ named))
        | inr new ↦
            let (d', c') = append-Normal _ "knowledge" (d, c) (knowledge_clean, refl) new in
            rw (attached, new)
              (
                d',
                c',
                λ b.
                    member-append b (add_source_ids [] raws) ("knowledge" ∷ [])
                    ∙ rw (listed b) (ground arith),
              )
      ]
      | inr none_attached ↦ rw none_attached (d, c, λ b. listed b ∙ ground arith)
    ]

-- What a list of ids without a missing and a denied one has found.
abbrev AllFound : SourceSettings → AuthorizationContext → List String → Resolution → Type 0
AllFound settings ctx ids r =
    has_any r.denied ≡ false
    → has_any r.missing ≡ false
    → (map (λ d. d.source_id) r.resolved ≡ ids)
      × All (λ d. (source_decision settings ctx d).allowed ≡ true) r.resolved

resolve_one-AllFound :
    (settings : SourceSettings) (ctx : AuthorizationContext) (id : String) (d : Option Descriptor)
    (ids : List String) (rest : Resolution)
    → ((v : Descriptor) → d ≡ some v → v.source_id ≡ id)
    → AllFound settings ctx ids rest
    → AllFound settings ctx (id ∷ ids) (resolve_one settings ctx id d rest)
unfolding resolve_one
resolve_one-AllFound settings ctx id none ids rest named more = λ permitted shown. cc
resolve_one-AllFound settings ctx id (some d) ids rest named more =
    elim (Bool-cases (source_decision settings ctx d).allowed) [
      | inl granted ↦ rw granted (λ permitted shown.
          let (same, all) = more permitted shown in (rw (named d refl, same), (granted, all)))
      | inr refused ↦ elim (Bool-cases (source_decision settings ctx d).conceal_existence) [
        | inl hidden ↦ rw (refused, hidden) (λ permitted shown. cc)
        | inr told ↦ rw (refused, told) (λ permitted shown. cc)
      ]
    ]

resolve_each-AllFound :
    (settings : SourceSettings) (ctx : AuthorizationContext) (rows : List Descriptor)
    (ids : List String)
    → AllFound settings ctx ids (resolve_each settings ctx (λ id. fetch source_by_id id rows) ids)
unfolding resolve_each
resolve_each-AllFound settings ctx rows [] = λ permitted shown. (refl, tt)
resolve_each-AllFound settings ctx rows (id ∷ ids) =
    resolve_one-AllFound settings ctx id (fetch source_by_id id rows) ids _
      (λ v e. key-fetch source_by_id id rows v e) (resolve_each-AllFound settings ctx rows ids)

conclude-found :
    (r : Resolution) (ds : List Descriptor)
    → conclude_sources r ≡ found ds
    → (has_any r.denied ≡ false) × (has_any r.missing ≡ false) × (r.resolved ≡ ds)
unfolding conclude_sources
conclude-found r ds h = ground arith

-- The sources that a run may use are those it asks for, one for each id and in their order, and each
-- is let through to the caller; where one is not, there is no source at all.
pub resolve-allowed :
    (source_ids : List String) (settings : SourceSettings) (ctx : AuthorizationContext)
    (ds : List Descriptor)
    → resolve_requested_sources source_ids settings ctx ≡ found ds
    → (map (λ d. d.source_id) ds ≡ source_ids)
      × All (λ d. (source_decision settings ctx d).allowed ≡ true) ds
unfolding resolve_requested_sources resolve_with build_workbench_source_catalog_by_id
resolve-allowed source_ids settings ctx ds h =
    let rows = index_sources [] (build_workbench_source_catalog settings) in
    let (permitted, shown, same) = conclude-found _ ds h in
    rw (← same) (resolve_each-AllFound settings ctx rows source_ids permitted shown)

-- What the caller sees of the catalog: nothing of a source whose existence is concealed from it.
unfoldable pub visible_to :
    SourceSettings → AuthorizationContext → Option Descriptor → Option Descriptor
visible_to settings ctx none = none
visible_to settings ctx (some d) =
    let decision = source_decision settings ctx d in
    if not decision.allowed && decision.conceal_existence then none else some d

resolve_one-visible :
    (settings : SourceSettings) (ctx : AuthorizationContext) (id : String) (d : Option Descriptor)
    (rest : Resolution)
    → resolve_one settings ctx id (visible_to settings ctx d) rest
      ≡ resolve_one settings ctx id d rest
unfolding resolve_one visible_to
resolve_one-visible settings ctx id none rest = refl
resolve_one-visible settings ctx id (some d) rest = ground arith

resolve_each-visible :
    (settings : SourceSettings) (ctx : AuthorizationContext)
    (descriptors : String → Option Descriptor) (ids : List String)
    → resolve_each settings ctx (λ id. visible_to settings ctx (descriptors id)) ids
      ≡ resolve_each settings ctx descriptors ids
unfolding resolve_each
resolve_each-visible settings ctx descriptors [] = refl
resolve_each-visible settings ctx descriptors (id ∷ ids) =
    rw (resolve_each-visible settings ctx descriptors ids)
      (resolve_one-visible settings ctx id (descriptors id) _)

-- A source that is concealed from the caller is answered for exactly as one that does not exist: the
-- answer, its message included, is what a catalog without the concealed sources gives.
pub resolve-conceals :
    (settings : SourceSettings) (ctx : AuthorizationContext) (source_ids : List String)
    → resolve_requested_sources source_ids settings ctx
      ≡ resolve_with settings ctx
          (λ id. visible_to settings ctx (build_workbench_source_catalog_by_id settings id))
          source_ids
unfolding resolve_requested_sources resolve_with
resolve-conceals settings ctx source_ids = ap conclude_sources (
    sym (
      resolve_each-visible settings ctx (build_workbench_source_catalog_by_id settings) source_ids))
