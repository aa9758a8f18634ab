-- ===== src/Chat/Tests.antt =====
-- backend/services/chat_message_merge.py at a concrete request.
use goat_ai.Prelude.{◌≡◌, refl, ◌⊎◌, String, true, false, List, [], ◌∷◌, ◌++◌, All}
use goat_ai.Chat.{
  ChatMessage, ChatRequest, is_user, attach_last, unique, merge_ids,
  merge_request_image_attachments,
}
use goat_ai.Chat.Merge.{Carries, merge-last_user}

abbrev says : String → List String → ChatMessage
says role ids = record {
  role = role;
  content = "";
  file_context = false;
  image_attachment_ids = ids;
}

abbrev first_id : String
first_id = "i1"

abbrev images : List String
images = first_id ∷ "i2" ∷ []

abbrev turns : List ChatMessage
turns = says "user" [] ∷ says "user" images ∷ says "assistant" [] ∷ []

abbrev request : ChatRequest
request = record { messages = turns; image_attachment_ids = "i3" ∷ "i1" ∷ [] }

request_merged :
    merge_request_image_attachments request
    ≡ says "user" [] ∷ says "user" ("i1" ∷ "i2" ∷ "i3" ∷ []) ∷ says "assistant" [] ∷ []
unfolding merge_request_image_attachments merge_ids attach_last unique
request_merged = refl

merge-last_user_example :
    let merged =
      merge_request_image_attachments
        (record { messages = turns; image_attachment_ids = "i3" ∷ "i1" ∷ [] }) in
    (All (λ m. is_user m ≡ false) turns × (merged ≡ turns))
    ⊎ ((before : List ChatMessage) × (u : ChatMessage) × (v : ChatMessage) × (after : List
          ChatMessage)
        × (turns ≡ before ++ u ∷ after)
        × (is_user u ≡ true)
        × All (λ m. is_user m ≡ false) after
        × (merged ≡ before ++ v ∷ after)
        × Carries ("i3" ∷ "i1" ∷ []) u v)
merge-last_user_example = merge-last_user "i3" ("i1" ∷ []) turns
