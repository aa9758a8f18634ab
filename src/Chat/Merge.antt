-- ===== src/Chat/Merge.antt =====
-- backend/services/chat_message_merge.py: which message is changed, and what it then shows.
use goat_ai.Prelude.{
  ◌≡◌, ◌≢◌, refl, ap, ◌∙◌, ◌⊎◌, inl, inr, String, Bool, true, false, not, ◌&&◌, ◌||◌, List, [], ◌∷◌,
  ◌++◌, arith, select, select-append, member, All, str_eq, eq_iff, eq_refl, Bool-cases,
}
use goat_ai.Chat.{
  ChatMessage, unique, merged_ids, is_user, attach, attach_last, merge_ids,
  merge_request_image_attachments,
}

member-append :
    (id : String) (xs ys : List String) → member id (xs ++ ys) ≡ member id xs || member id ys
member-append id [] ys = refl
member-append id (x ∷ xs) ys = ground (arith, member-append id xs ys)

-- Taking one id out of a list keeps the others.
member-select :
    (id out : String) (xs : List String)
    → member id (select (λ other. not (str_eq other out)) xs) ≡ member id xs && not (str_eq id out)
member-select id out [] = refl
member-select id out (x ∷ xs) =
    ground (arith, member-select id out xs, eq_iff id x, eq_iff x out, eq_iff id out)

member-unique : (id : String) (xs : List String) → member id (unique xs) ≡ member id xs
unfolding unique
member-unique id [] = refl
member-unique id (x ∷ xs) = ground (arith, member-select id x (unique xs), member-unique id xs)

abbrev pub NoRepeats : List String → Type 0
NoRepeats [] = Unit {0}
NoRepeats (x ∷ xs) = (member x xs ≡ false) × NoRepeats xs

select-NoRepeats :
    (out : String) (xs : List String)
    → NoRepeats xs
    → NoRepeats (select (λ other. not (str_eq other out)) xs)
select-NoRepeats out [] h = tt
select-NoRepeats out (x ∷ xs) h = elim (Bool-cases (str_eq x out)) [
  | inl same ↦ rw same (select-NoRepeats out xs h.1)
  | inr differs ↦
      rw differs (rw (member-select x out xs) (ground (arith, h.0)), select-NoRepeats out xs h.1)
]

unique-NoRepeats : (xs : List String) → NoRepeats (unique xs)
unfolding unique
unique-NoRepeats [] = tt
unique-NoRepeats (x ∷ xs) = (
  member-select x x (unique xs) ∙ ground (arith, eq_refl x),
  select-NoRepeats x (unique xs) (unique-NoRepeats xs),
)

-- A message then shows what it showed before and what the request brings, and where it had
-- attachments before, none comes twice.
pub merged_ids-member :
    (olds ids : List String) (id : String)
    → (member id (merged_ids olds ids) ≡ member id olds || member id ids)
      × (olds ≢ [] → NoRepeats (merged_ids olds ids))
merged_ids-member [] ids id = (refl, λ h. absurd (h refl))
merged_ids-member (old ∷ olds) ids id = (
  member-unique id ((old ∷ olds) ++ ids) ∙ member-append id (old ∷ olds) ids,
  λ h. unique-NoRepeats ((old ∷ olds) ++ ids),
)

abbrev NoUser : List ChatMessage → Type 0
NoUser = All λ m. is_user m ≡ false

-- `after` is what the loop makes of `messages`.
data Attached (ids : List String) (messages : List ChatMessage) (result : List ChatMessage × Bool)
    : Type 0 where
  nowhere : NoUser messages → result ≡ (messages, false) → Attached ids messages result
  at :
      (before : List ChatMessage) (u : ChatMessage) (after : List ChatMessage)
      → messages ≡ before ++ u ∷ after
      → is_user u ≡ true
      → NoUser after
      → result ≡ (before ++ attach ids u ∷ after, true)
      → Attached ids messages result

cons-Attached :
    (ids : List String) (m : ChatMessage) (messages : List ChatMessage)
    → Attached ids messages (attach_last ids messages)
    → Attached ids (m ∷ messages) (attach_last ids (m ∷ messages))
unfolding attach_last
cons-Attached ids m messages (at before u after e h rest r) =
    at (m ∷ before) u after (ap (λ l. m ∷ l) e) h rest (rw r)
cons-Attached ids m messages (nowhere none_there r) = elim (Bool-cases (is_user m)) [
  | inl user ↦ at [] m messages refl user none_there (rw r (rw user))
  | inr other ↦ nowhere (other, none_there) (rw r (rw other))
]

attach_last-Attached :
    (ids : List String) (messages : List ChatMessage)
    → Attached ids messages (attach_last ids messages)
unfolding attach_last
attach_last-Attached ids [] = nowhere tt refl
attach_last-Attached ids (m ∷ messages) =
    cons-Attached ids m messages (attach_last-Attached ids messages)

-- A message with other attachments: its own and those that the request brings, which are all there where
-- it had none, as they came; where it had some, none is repeated, and its own come first.
pub record Carries (ids : List String) (u v : ChatMessage) : Type 0 where
  pub role : v.role ≡ u.role
  pub content : v.content ≡ u.content
  pub file_context : v.file_context ≡ u.file_context
  pub shown :
      (id : String)
      → member id v.image_attachment_ids ≡ member id u.image_attachment_ids || member id ids
  pub as_they_came : u.image_attachment_ids ≡ [] → v.image_attachment_ids ≡ ids
  pub first_its_own :
      NoRepeats u.image_attachment_ids
      → (rest : List String) × (v.image_attachment_ids ≡ u.image_attachment_ids ++ rest)
  pub once : u.image_attachment_ids ≢ [] → NoRepeats v.image_attachment_ids

merged_ids_empty : (olds ids : List String) → olds ≡ [] → merged_ids olds ids ≡ ids
merged_ids_empty [] ids e = refl
merged_ids_empty (old ∷ olds) ids e = cc

select_absent :
    (out : String) (xs : List String)
    → member out xs ≡ false
    → select (λ other. not (str_eq other out)) xs ≡ xs
select_absent out [] h = refl
select_absent out (x ∷ xs) h =
    let rest : select (λ other. not (str_eq other out)) xs ≡ xs =
      select_absent out xs (ground arith) in
    let differs : str_eq x out ≡ false = ground (arith, eq_iff x out, eq_iff out x) in
    rw differs (rw rest refl)

-- Ids that come once each stay as they are in front of what follows.
unique-append :
    (xs ys : List String) → NoRepeats xs → (rest : List String) × (unique (xs ++ ys) ≡ xs ++ rest)
unfolding unique
unique-append [] ys h = (unique ys, refl)
unique-append (x ∷ xs) ys h =
    let (rest, e) = unique-append xs ys h.1 in
    (
      select (λ other. not (str_eq other x)) rest,
      ap (λ l. x ∷ l)
          (ap (select (λ other. not (str_eq other x))) e
            ∙ select-append (λ other. not (str_eq other x)) xs rest
            ∙ ap (λ l. l ++ select (λ other. not (str_eq other x)) rest) (select_absent x xs h.0)),
    )

merged_ids_begin :
    (olds ids : List String)
    → NoRepeats olds
    → (rest : List String) × (merged_ids olds ids ≡ olds ++ rest)
merged_ids_begin [] ids h = (ids, refl)
merged_ids_begin (old ∷ olds) ids h = unique-append (old ∷ olds) ids h

attach-Carries : (ids : List String) (u : ChatMessage) → Carries ids u (attach ids u)
attach-Carries ids u = record {
  role = refl;
  content = refl;
  file_context = refl;
  shown = λ id. (merged_ids-member u.image_attachment_ids ids id).0;
  as_they_came = merged_ids_empty u.image_attachment_ids ids;
  first_its_own = merged_ids_begin u.image_attachment_ids ids;
  once = (merged_ids-member u.image_attachment_ids ids "").1;
}

-- Of a request that brings attachments, either no message is a user's and nothing is changed, or the
-- last user message is given them and every other message stays as it is, in its place. The message
-- keeps its role, content and flag. It then shows what it showed before and what the request brings,
-- and nothing else: just what the request brings, in its order, where it showed nothing, and
-- otherwise each id once, its own first if it had none of them twice.
pub merge-last_user :
    (id : String) (ids : List String) (messages : List ChatMessage)
    → let merged =
        merge_request_image_attachments
          (record { messages = messages; image_attachment_ids = id ∷ ids }) in
      (All (λ m. is_user m ≡ false) messages × (merged ≡ messages))
      ⊎ ((before : List ChatMessage) × (u : ChatMessage) × (v : ChatMessage) × (after : List
            ChatMessage)
          × (messages ≡ before ++ u ∷ after)
          × (is_user u ≡ true)
          × All (λ m. is_user m ≡ false) after
          × (merged ≡ before ++ v ∷ after)
          × Carries (id ∷ ids) u v)
unfolding merge_request_image_attachments merge_ids
merge-last_user id ids messages = elim (attach_last-Attached (id ∷ ids) messages) [
  | nowhere none_there r ↦ inl (none_there, ap (λ p. p.0) r)
  | at before u after e h rest r ↦ inr (
    before,
    u,
    attach (id ∷ ids) u,
    after,
    e,
    h,
    rest,
    ap (λ p. p.0) r,
    attach-Carries (id ∷ ids) u,
  )
]
