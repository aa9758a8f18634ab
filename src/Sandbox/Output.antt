-- ===== src/Sandbox/Output.antt =====
-- backend/services/code_sandbox_execution_service.py, _BoundedTextAccumulator: the output of one
-- stream, cut at a number of bytes. A limit below 0 acts as 0.
pub mod Append
pub mod Bounds
use Prim.Native.String.{len, slice}
use goat_ai.Prelude.{
  ℕ, ◌+◌, ◌-◌, String, Bool, true, false, ◌||◌, Option, none, some, List, [], ◌∷◌, ◌++◌,
  if◌then◌else◌, leb, str_eq,
}
use goat_ai.Prelude.Text.{append_text, join}

pub record Accumulator : Type 0 where
  pub max_bytes : ℕ
  pub text_parts : List String
  pub bytes_used : ℕ
  pub truncated : Bool

abbrev pub marker : String
marker = "\n[output truncated]"

abbrev pub fresh : ℕ → Accumulator
fresh max_bytes = record {
  max_bytes = max_bytes;
  text_parts = [];
  bytes_used = 0;
  truncated = false;
}

abbrev pub text : Accumulator → String
text acc = join acc.text_parts

-- The text that did not fit: its characters that lie whole in the bytes that remain, and the marker.
abbrev pub clipped_out : ℕ → String → String
clipped_out remaining s = append_text (slice s 0 remaining) marker

-- _BoundedTextAccumulator.append
unfoldable pub append : Accumulator → String → Accumulator × Option String
append acc s =
    let remaining = acc.max_bytes - acc.bytes_used in
    if str_eq s "" || leb acc.max_bytes 0
    then (acc, none)
    else if acc.truncated
    then (acc, none)
    else if leb remaining 0
    then (record acc { truncated = true }, none)
    else if leb (len s) remaining
    then (
      record acc { text_parts = acc.text_parts ++ s ∷ []; bytes_used = acc.bytes_used + len s },
      some s,
    )
    else (
      record acc {
        text_parts = acc.text_parts ++ clipped_out remaining s ∷ [];
        bytes_used = acc.max_bytes;
        truncated = true;
      },
      some (clipped_out remaining s),
    )
