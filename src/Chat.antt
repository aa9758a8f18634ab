-- ===== src/Chat.antt =====
-- backend/services/chat_message_merge.py: the image attachments of a request go to its last user
-- message.
pub mod Merge
mod Tests
use goat_ai.Prelude.{
  String, Bool, true, false, not, Option, none, some, List, [], ◌∷◌, ◌++◌, if◌then◌else◌, select,
  str_eq,
}

-- ChatMessage
pub record ChatMessage : Type 0 where
  pub role : String
  pub content : String
  pub file_context : Bool
  pub image_attachment_ids : List String

-- The fields of ChatRequest that are merged.
pub record ChatRequest : Type 0 where
  pub messages : List ChatMessage
  pub image_attachment_ids : List String

-- list(dict.fromkeys(ids)): the first of each, in order.
unfoldable pub unique : List String → List String
unique [] = []
unique (id ∷ ids) = let rest = unique ids in id ∷ select (λ other. not (str_eq other id)) rest

-- The ids of the message and those that the request brings.
abbrev pub merged_ids : List String → List String → List String
merged_ids [] ids = ids
merged_ids (old ∷ olds) ids = unique ((old ∷ olds) ++ ids)

abbrev pub is_user : ChatMessage → Bool
is_user m = str_eq m.role "user"

abbrev pub attach : List String → ChatMessage → ChatMessage
attach ids m = record m { image_attachment_ids = merged_ids m.image_attachment_ids ids }

-- The loop from the last message on, and whether it has found a user message.
unfoldable pub attach_last : List String → List ChatMessage → List ChatMessage × Bool
attach_last ids [] = ([], false)
attach_last ids (m ∷ messages) =
    let (rest, found) = attach_last ids messages in
    if found
    then (m ∷ rest, true)
    else if is_user m
    then (attach ids m ∷ rest, true)
    else (m ∷ rest, false)

unfoldable pub merge_ids : List String → List ChatMessage → List ChatMessage
merge_ids [] messages = messages
merge_ids (id ∷ ids) messages = (attach_last (id ∷ ids) messages).0

unfoldable pub merge_request_image_attachments : ChatRequest → List ChatMessage
merge_request_image_attachments req = merge_ids req.image_attachment_ids req.messages
