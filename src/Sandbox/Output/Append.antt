-- ===== src/Sandbox/Output/Append.antt =====
-- backend/services/code_sandbox_execution_service.py, _BoundedTextAccumulator.append: what one more text
-- does to what is kept.
use Prim.Native.String.{len, slice}
use goat_ai.Prelude.{
  ◌+◌, ◌-◌, ◌≤◌, ◌<◌, ◌≡◌, ◌≢◌, refl, sym, ap, ◌∙◌, ◌⊎◌, inl, inr, String, true, false, none, some,
  [], ◌∷◌, ◌++◌, arith, leb, str_eq, eq_iff, Bool-cases,
}
use goat_ai.Prelude.Text.{append_text, join-append, append_text_assoc, append_text-nil}
use goat_ai.Prelude.Text.Bytes.{len-append_text, len_zero, len-slice, slice-begins}
use goat_ai.Sandbox.Output.{Accumulator, marker, text, clipped_out, append}

-- What has been kept, where `seen` is all that came.
pub data Kept (acc : Accumulator) (seen : String) : Type 0 where
  off : acc.max_bytes ≡ 0 → text acc ≡ "" → Kept acc seen
  whole :
      acc.truncated ≡ false
      → text acc ≡ seen
      → acc.bytes_used ≡ len seen
      → len seen ≤ acc.max_bytes
      → Kept acc seen
  cut :
      acc.truncated ≡ true
      → (p rest : String) → append_text p rest ≡ seen
      → len p ≤ acc.max_bytes
      → acc.max_bytes < len seen
      → (text acc ≡ p) ⊎ (text acc ≡ append_text p marker)
      → Kept acc seen

append_skip :
    (acc : Accumulator) (s : String)
    → ((s ≡ "") ⊎ (acc.max_bytes ≡ 0)) ⊎ (acc.truncated ≡ true)
    → append acc s ≡ (acc, none)
unfolding append
append_skip acc s h = ground (arith, eq_iff s "")

append_full :
    (acc : Accumulator) (s : String)
    → s ≢ ""
    → acc.max_bytes ≢ 0
    → acc.truncated ≡ false
    → acc.max_bytes ≤ acc.bytes_used
    → append acc s ≡ (record acc { truncated = true }, none)
unfolding append
append_full acc s a b c d = ground (arith, eq_iff s "")

pub append_fits :
    (acc : Accumulator) (s : String)
    → s ≢ ""
    → acc.max_bytes ≢ 0
    → acc.truncated ≡ false
    → acc.bytes_used < acc.max_bytes
    → acc.bytes_used + len s ≤ acc.max_bytes
    → append acc s ≡ (
      record acc { text_parts = acc.text_parts ++ s ∷ []; bytes_used = acc.bytes_used + len s },
      some s,
    )
unfolding append
append_fits acc s a b c d e = ground (arith, eq_iff s "")

append_clips :
    (acc : Accumulator) (s : String)
    → s ≢ ""
    → acc.max_bytes ≢ 0
    → acc.truncated ≡ false
    → acc.bytes_used < acc.max_bytes
    → acc.max_bytes < acc.bytes_used + len s
    → append acc s ≡ (
      record acc {
        text_parts = acc.text_parts ++ clipped_out (acc.max_bytes - acc.bytes_used) s ∷ [];
        bytes_used = acc.max_bytes;
        truncated = true;
      },
      some (clipped_out (acc.max_bytes - acc.bytes_used) s),
    )
unfolding append
append_clips acc s a b c d e = ground (arith, eq_iff s "")

pub not_empty : (s : String) → s ≢ "" → 1 ≤ len s
not_empty s h = elim (Bool-cases (leb 1 (len s))) [
  | inl some_bytes ↦ ground arith
  | inr no_bytes ↦ absurd (h (len_zero s (ground arith)))
]

whole-Kept :
    (acc : Accumulator) (seen s : String)
    → s ≢ ""
    → acc.max_bytes ≢ 0
    → acc.truncated ≡ false
    → text acc ≡ seen
    → acc.bytes_used ≡ len seen
    → len seen ≤ acc.max_bytes
    → Kept (append acc s).0 (append_text seen s)
whole-Kept acc seen s some_text on a b c d =
    let more = not_empty s some_text in
    elim (Bool-cases (leb acc.max_bytes acc.bytes_used)) [
      | inl full ↦
          rw (append_full acc s some_text on a (ground arith))
            (cut refl seen s refl d (ground (arith, len-append_text seen s)) (inl b))
      | inr room ↦ elim (Bool-cases (leb (acc.bytes_used + len s) acc.max_bytes)) [
        | inl fits ↦ rw (append_fits acc s some_text on a (ground arith) (ground arith)) (
            whole a (join-append acc.text_parts s ∙ ap (λ t. append_text t s) b)
              (omega (arith, len-append_text seen s)) (ground (arith, len-append_text seen s)))
        | inr long ↦
            let k = acc.max_bytes - acc.bytes_used in
            let (rest, split) = slice-begins s k in
            rw (append_clips acc s some_text on a (ground arith) (ground arith)) (
              cut refl (append_text seen (slice s 0 k)) rest
                (append_text_assoc seen (slice s 0 k) rest ∙ ap (append_text seen) split)
                (ground (arith, len-append_text seen (slice s 0 k), len-slice s k))
                (ground (arith, len-append_text seen s))
                (inr (
                  join-append acc.text_parts (clipped_out k s)
                  ∙ ap (λ t. append_text t (clipped_out k s)) b
                  ∙ sym (append_text_assoc seen (slice s 0 k) marker))))
      ]
    ]

pub append-Kept :
    (acc : Accumulator) (seen s : String)
    → Kept acc seen
    → Kept (append acc s).0 (append_text seen s)
append-Kept acc seen s (off a b) = rw (append_skip acc s (inl (inr a))) (off a b)
append-Kept acc seen s (cut a p rest b c d e) = rw (append_skip acc s (inr a)) (
    cut a p (append_text rest s) (sym (append_text_assoc p rest s) ∙ ap (λ t. append_text t s) b) c
      (omega (arith, len-append_text seen s)) e)
append-Kept acc seen s (whole a b c d) = elim (Bool-cases (str_eq s "")) [
  | inl empty ↦
      let nothing = (eq_iff s "").0 empty in
      rw (append_skip acc s (inl (inl nothing)), nothing, append_text-nil seen) (whole a b c d)
  | inr some_text ↦ elim (Bool-cases (leb acc.max_bytes 0)) [
    | inl closed ↦
        let zero_bytes : acc.max_bytes ≡ 0 = ground arith in
        rw (append_skip acc s (inl (inr zero_bytes)))
          (off zero_bytes (b ∙ len_zero seen (omega arith)))
    | inr on ↦ whole-Kept acc seen s (ground (arith, eq_iff s "")) (ground arith) a b c d
  ]
]
