-- ===== src/Prelude/Text/Strip.antt =====
-- Python's `str.strip`, `str.splitlines` and `text[:n]`, by the characters that Python counts as white
-- space and as ends of lines.
use Prim.Native.Char.{Char, code}
use Prim.Native.String.{String}
use Prim.Native.Nat.{ℕ, zero, suc}
use mathlib.Core.Path.{◌≡◌, refl}
use mathlib.Core.Logic.{inl, inr}
use mathlib.Core.Bool.{Bool, false, ◌&&◌, ◌||◌}
use mathlib.Core.List.{List, [], ◌∷◌}
use goat_ai.Prelude.Tests.{leb, ◌==◌, if◌then◌else◌, Bool-cases}

-- `str.isspace` of one character.
unfoldable pub is_space : Char → Bool
is_space c =
    let n = code c in
    leb 9 n && leb n 13
    || leb 28 n && leb n 32
    || n == 133
    || n == 160
    || n == 5760
    || leb 8192 n && leb n 8202
    || n == 8232
    || n == 8233
    || n == 8239
    || n == 8287
    || n == 12288

-- Where `str.splitlines` ends a line.
unfoldable pub is_line_end : Char → Bool
is_line_end c =
    let n = code c in
    leb 10 n && leb n 13 || leb 28 n && leb n 30 || n == 133 || n == 8232 || n == 8233

unfoldable pub lstrip : String → String
lstrip String.[] = ""
lstrip (String.◌∷◌ c s) = if is_space c then lstrip s else String.◌∷◌ c s

-- A character, unless it is white space and nothing follows.
abbrev pub before_rest : Char → String → String
before_rest c String.[] = if is_space c then "" else String.◌∷◌ c ""
before_rest c (String.◌∷◌ d s) = String.◌∷◌ c (String.◌∷◌ d s)

unfoldable pub rstrip : String → String
rstrip String.[] = ""
rstrip (String.◌∷◌ c s) = before_rest c (rstrip s)

unfoldable pub strip : String → String
unfolding lstrip rstrip
strip s = rstrip (lstrip s)

-- text[:n]
unfoldable pub take_text : ℕ → String → String
take_text zero s = ""
take_text (suc n) String.[] = ""
take_text (suc n) (String.◌∷◌ c s) = String.◌∷◌ c (take_text n s)

-- text[n:]
unfoldable pub drop_text : ℕ → String → String
drop_text zero s = s
drop_text (suc n) String.[] = ""
drop_text (suc n) (String.◌∷◌ c s) = drop_text n s

-- text.replace(a, b), of one character
unfoldable pub replace_char : Char → Char → String → String
replace_char a b String.[] = ""
replace_char a b (String.◌∷◌ c s) =
    String.◌∷◌ (if code c == code a then b else c) (replace_char a b s)

abbrev pub on_first_line : Char → List String → List String
on_first_line c [] = String.◌∷◌ c "" ∷ []
on_first_line c (line ∷ rest) = String.◌∷◌ c line ∷ rest

-- The flag tells that a "\r" came just before: a "\n" then ends no line of its own.
unfoldable pub splitlines_after : Bool → String → List String
splitlines_after cr String.[] = []
splitlines_after cr (String.◌∷◌ c s) =
    let rest = splitlines_after (code c == 13) s in
    if cr && code c == 10 then rest else if is_line_end c then "" ∷ rest else on_first_line c rest

unfoldable pub splitlines : String → List String
splitlines s = splitlines_after false s

rstrip-before_rest :
    (c : Char) (s : String) → rstrip s ≡ s → rstrip (before_rest c s) ≡ before_rest c s
unfolding rstrip
rstrip-before_rest c String.[] h = elim (Bool-cases (is_space c)) [
  | inl blank ↦ rw blank
  | inr solid ↦ rw solid (rw solid)
]
rstrip-before_rest c (String.◌∷◌ d s) h = rw h

rstrip_idem : (s : String) → rstrip (rstrip s) ≡ rstrip s
unfolding rstrip
rstrip_idem String.[] = refl
rstrip_idem (String.◌∷◌ c s) = rstrip-before_rest c (rstrip s) (rstrip_idem s)

-- A text that begins with no white space.
abbrev Solid : String → Type 0
Solid String.[] = Unit {0}
Solid (String.◌∷◌ c s) = is_space c ≡ false

lstrip-Solid : (s : String) → Solid (lstrip s)
unfolding lstrip
lstrip-Solid String.[] = tt
lstrip-Solid (String.◌∷◌ c s) = elim (Bool-cases (is_space c)) [
  | inl blank ↦ rw blank (lstrip-Solid s)
  | inr solid ↦ rw solid solid
]

before_rest-Solid : (c : Char) (s : String) → is_space c ≡ false → Solid (before_rest c s)
before_rest-Solid c String.[] h = rw h h
before_rest-Solid c (String.◌∷◌ d s) h = h

rstrip-Solid : (s : String) → Solid s → Solid (rstrip s)
unfolding rstrip
rstrip-Solid String.[] h = tt
rstrip-Solid (String.◌∷◌ c s) h = before_rest-Solid c (rstrip s) h

lstrip-Solid_same : (s : String) → Solid s → lstrip s ≡ s
unfolding lstrip
lstrip-Solid_same String.[] h = refl
lstrip-Solid_same (String.◌∷◌ c s) h = rw h

-- A text that was stripped has no more to strip.
pub strip_idem : (s : String) → strip (strip s) ≡ strip s
unfolding strip
strip_idem s =
    rw (lstrip-Solid_same (rstrip (lstrip s)) (rstrip-Solid (lstrip s) (lstrip-Solid s)))
      (rstrip_idem (lstrip s))
