-- ===== src/Sandbox/Output/Bounds.antt =====
-- backend/services/code_sandbox_execution_service.py, _BoundedTextAccumulator: what is kept of a
-- stream.
use Prim.Native.String.{len}
use goat_ai.Prelude.{
  ℕ, ◌-◌, ◌≤◌, ◌≡◌, ◌≢◌, refl, sym, ap, ◌∙◌, ◌⊎◌, inl, inr, String, Option, none, some, List, [],
  ◌∷◌, arith, str_eq, eq_iff, Bool-cases,
}
use goat_ai.Prelude.Text.{
  append_text, join, join-append, append_text_assoc, append_text-nil, nil-append_text,
}
use goat_ai.Prelude.Text.Bytes.{len_zero, len_empty}
use goat_ai.Sandbox.Output.{Accumulator, marker, fresh, text, clipped_out, append}
use goat_ai.Sandbox.Output.Append.{Kept, off, whole, cut, append-Kept, append_fits, not_empty}

-- `if clipped: append_log_chunk`
abbrev log_piece : Option String → List String → List String
log_piece none pieces = pieces
log_piece (some piece) pieces = piece ∷ pieces

abbrev piece_text : Option String → String
piece_text none = ""
piece_text (some piece) = piece

log_piece-join :
    (clipped : Option String) (pieces : List String)
    → join (log_piece clipped pieces) ≡ append_text (piece_text clipped) (join pieces)
log_piece-join none pieces = sym (nil-append_text (join pieces))
log_piece-join (some piece) pieces = refl

-- A stream's texts, appended one after the other, and the pieces that are handed on to the log.
unfoldable pub feed : Accumulator → List String → Accumulator × List String
feed acc [] = (acc, [])
feed acc (s ∷ texts) =
    let (acc', clipped) = append acc s in
    let (last, pieces) = feed acc' texts in (last, log_piece clipped pieces)

append-max_bytes : (acc : Accumulator) (s : String) → (append acc s).0.max_bytes ≡ acc.max_bytes
unfolding append
append-max_bytes acc s = ground arith

feed-Kept :
    (texts : List String) (acc : Accumulator) (seen : String)
    → Kept acc seen
    → Kept (feed acc texts).0 (append_text seen (join texts))
      × ((feed acc texts).0.max_bytes ≡ acc.max_bytes)
unfolding feed
feed-Kept [] acc seen k = (rw (append_text-nil seen) k, refl)
feed-Kept (s ∷ texts) acc seen k =
    let (rest, same) =
      feed-Kept texts (append acc s).0 (append_text seen s) (append-Kept acc seen s k) in
    (rw (← append_text_assoc seen s (join texts)) rest, same ∙ append-max_bytes acc s)

Kept-prefix :
    (acc : Accumulator) (seen : String) (max_bytes : ℕ)
    → acc.max_bytes ≡ max_bytes
    → Kept acc seen
    → ((p : String) × (rest : String) × (append_text p rest ≡ seen)
        × (len p ≤ max_bytes)
        × ((text acc ≡ p) ⊎ (text acc ≡ append_text p marker)))
      × (len seen ≤ max_bytes → text acc ≡ seen)
Kept-prefix acc seen m e (off a b) = (
  ("", seen, nil-append_text seen, omega (arith, len_empty), inl b),
  λ h. b ∙ sym (len_zero seen (omega arith)),
)
Kept-prefix acc seen m e (whole a b c d) =
    ((seen, "", append_text-nil seen, omega arith, inl b), λ h. b)
Kept-prefix acc seen m e (cut a p rest b c d f) =
    ((p, rest, b, omega arith, f), λ h. absurd (omega arith))

-- Of a stream's output, a prefix of at most `max_bytes` bytes is kept, followed by the marker or by
-- nothing; an output of at most `max_bytes` bytes is kept whole.
pub output_kept :
    (max_bytes : ℕ) (texts : List String)
    → let acc = (feed (fresh max_bytes) texts).0 in
      ((p : String) × (rest : String) × (append_text p rest ≡ join texts)
        × (len p ≤ max_bytes)
        × ((text acc ≡ p) ⊎ (text acc ≡ append_text p marker)))
      × (len (join texts) ≤ max_bytes → text acc ≡ join texts)
output_kept max_bytes texts =
    let (kept, same) =
      feed-Kept texts (fresh max_bytes) ""
        (whole refl refl (sym len_empty) (omega (arith, len_empty))) in
    let all_seen = (rw (nil-append_text (join texts)) at kept) in
    Kept-prefix _ (join texts) max_bytes same all_seen

append-piece :
    (acc : Accumulator) (s : String)
    → text (append acc s).0 ≡ append_text (text acc) (piece_text (append acc s).1)
unfolding append
append-piece acc s = ground (
  arith,
  append_text-nil (text acc),
  join-append acc.text_parts s,
  join-append acc.text_parts (clipped_out (acc.max_bytes - acc.bytes_used) s),
)

-- The pieces that are handed on to the log make up the text that is kept.
pub feed-logged :
    (texts : List String) (acc : Accumulator)
    → text (feed acc texts).0 ≡ append_text (text acc) (join (feed acc texts).1)
unfolding feed
feed-logged [] acc = sym (append_text-nil (text acc))
feed-logged (s ∷ texts) acc =
    let (acc', clipped) = append acc s in
    let pieces = (feed acc' texts).1 in
    feed-logged texts acc'
    ∙ ap (λ t. append_text t (join pieces)) (append-piece acc s)
    ∙ append_text_assoc (text acc) (piece_text clipped) (join pieces)
    ∙ ap (append_text (text acc)) (sym (log_piece-join clipped pieces))

-- A full accumulator takes nothing more.
append_full-parts :
    (acc : Accumulator) (s : String)
    → acc.max_bytes ≤ acc.bytes_used
    → ((append acc s).0.text_parts ≡ acc.text_parts)
      × ((append acc s).0.max_bytes ≤ (append acc s).0.bytes_used)
unfolding append
append_full-parts acc s h = (ground arith, ground arith)

feed_full :
    (texts : List String) (acc : Accumulator)
    → acc.max_bytes ≤ acc.bytes_used
    → text (feed acc texts).0 ≡ text acc
unfolding feed
feed_full [] acc h = refl
feed_full (s ∷ texts) acc h =
    let (parts, full) = append_full-parts acc s h in
    feed_full texts (append acc s).0 full ∙ ap join parts

-- Where the first text of a stream fills the limit exactly, all that comes after it is dropped, and
-- no marker tells that the output was cut.
pub output_cut_silently :
    (s : String) (texts : List String) → text (feed (fresh (len s)) (s ∷ texts)).0 ≡ s
unfolding feed
output_cut_silently s texts = elim (Bool-cases (str_eq s "")) [
  | inl empty ↦
      let nothing = (eq_iff s "").0 empty in
      let no_bytes : len s ≤ 0 = rw nothing (omega (arith, len_empty)) in
      feed_full (s ∷ texts) (fresh (len s)) no_bytes ∙ sym nothing
  | inr some_text ↦
      let there : s ≢ "" = ground (arith, eq_iff s "") in
      let bytes = not_empty s there in
      rw (append_fits (fresh (len s)) s there (omega arith) refl (omega arith) (omega arith))
        (feed_full texts _ (omega arith) ∙ append_text-nil s)
]
