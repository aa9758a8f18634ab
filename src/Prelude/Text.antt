-- ===== src/Prelude/Text.antt =====
-- Concatenation of texts, under a name of its own beside that of lists.
pub mod Bytes
pub mod Strip
pub mod Decimal
use Prim.Native.String
use Prim.Native.String.{String}
use mathlib.Core.Path.{◌≡◌}
use mathlib.Core.List.{List, [], ◌∷◌, ◌++◌}
use text.Mathlib.TextLemmas.{append-nil, append_assoc, nil-append}

unfoldable pub append_text : String → String → String
append_text s t = String.◌++◌ s t

-- `"".join(parts)`
abbrev pub join : List String → String
join [] = ""
join (s ∷ ss) = append_text s (join ss)

pub append_text-nil : (s : String) → append_text s "" ≡ s
unfolding append_text
append_text-nil s = append-nil s

pub nil-append_text : (s : String) → append_text "" s ≡ s
unfolding append_text
nil-append_text s = nil-append s

pub append_text_assoc :
    (s t u : String) → append_text (append_text s t) u ≡ append_text s (append_text t u)
unfolding append_text
append_text_assoc s t u = append_assoc s t u

-- A part that is appended to a list is appended to the joined text.
pub join-append : (ss : List String) (t : String) → join (ss ++ t ∷ []) ≡ append_text (join ss) t
join-append [] t = rw (append_text-nil t, nil-append_text t)
join-append (s ∷ ss) t = rw (join-append ss t, append_text_assoc s (join ss) t)
