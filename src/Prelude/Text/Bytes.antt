-- ===== src/Prelude/Text/Bytes.antt =====
-- The bytes of a text, and the characters that lie whole in its first bytes.
use Prim.Native.Nat.{ℕ, ◌+◌, ◌-◌, ◌≤◌, Ordering, compare}
use Prim.Native.Char.{Char, len_utf8}
use Prim.Native.String.len
use Prim.Native.String.slice
use Prim.Native.String.{String, [], ◌∷◌, len, slice, fits}
use mathlib.Core.Path.{◌≡◌, refl}
use native.Mathlib.Omega.{arith, compare-lt, compare-eq}
use text.Mathlib.TextPositions.{len_utf8-pos, len-append}
use text.Mathlib.TextEquality.{slice-prefix}
use goat_ai.Prelude.Text.{append_text}

pub len-append_text : (s t : String) → len (append_text s t) ≡ len s + len t
unfolding append_text
len-append_text s t = len-append s t

-- A text of no bytes is empty.
pub len_zero : (s : String) → len s ≤ 0 → s ≡ ""
len_zero [] h = refl
len_zero (c ∷ s) h = absurd (omega (arith, (len_utf8-pos c).1, len.cons c s))

pub len_empty : len "" ≡ 0
len_empty = refl

fits-len :
    (o : Ordering) (c : Char) (r : String) (k : ℕ)
    → compare (len_utf8 c) k ≡ o
    → len r ≤ k - len_utf8 c
    → len (fits o c r) ≤ k
fits-len Ordering.lt c r k e h = omega (arith, compare-lt (len_utf8 c) k e, len.cons c r)
fits-len Ordering.eq c r k e h = omega (arith, compare-eq (len_utf8 c) k e, len.cons c r)
fits-len Ordering.gt c r k e h = omega (arith, len_empty)

pub len-slice : (s : String) (k : ℕ) → len (slice s 0 k) ≤ k
len-slice [] k = rw (slice.nil 0 k) (omega (arith, len_empty))
len-slice (c ∷ s) k = rw (slice.cons-zero c s k) (
    fits-len (compare (len_utf8 c) k) c (slice s 0 (k - len_utf8 c)) k refl
      (len-slice s (k - len_utf8 c)))

-- What lies whole in the first bytes begins the text.
pub slice-begins : (s : String) (k : ℕ) → (rest : String) × (append_text (slice s 0 k) rest ≡ s)
unfolding append_text
slice-begins s k = slice-prefix s k
