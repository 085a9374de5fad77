-- ===== src/Tools/Accumulator.antt =====
-- tile/tools/support/output_accumulator.py: a bounded tail of a tool's output, with the totals of all
-- of it. Bytes are numbers; a limit is an argument where the class keeps it as a field.
pub mod Tail
pub mod Retains
pub mod Chunks
pub mod Snapshot
mod Examples
use piy.Base.{
  ℕ, zero, suc, ◌+◌, ◌-◌, ◌*◌, Text, newline, find, List, [], ◌∷◌, ◌++◌, Bool, true, false, ◌&&◌,
  Option, none, some, length, get_elem?, drop, count, ◌==◌, leb, ltb, if◌then◌else◌,
}
use piy.Truncation.{Truncation, TruncationReason, lines, bytes, truncate_tail}
use piy.Tools.Utf8.{Bytes, Decoder, idle, encode, decode, decode_all, flush}

pub record OutputSnapshot : Type 0 where
  pub content : Text
  pub truncation : Truncation

pub record OutputAccumulator : Type 0 where
  pub max_lines : ℕ
  pub max_bytes : ℕ
  pub max_rolling_bytes : ℕ
  pub decoder : Decoder
  pub tail_buffer : Bytes
  pub tail_starts_at_line_boundary : Bool
  pub total_bytes : ℕ
  pub total_lines : ℕ
  pub finished : Bool

-- `__init__`
unfoldable pub new_accumulator : ℕ → ℕ → OutputAccumulator
new_accumulator max_lines max_bytes = record {
  max_lines = max_lines;
  max_bytes = max_bytes;
  max_rolling_bytes = max_bytes * 2;
  decoder = idle;
  tail_buffer = [];
  tail_starts_at_line_boundary = true;
  total_bytes = 0;
  total_lines = 0;
  finished = false;
}

-- (byte & 0xC0) == 0x80
unfoldable pub is_continuation : ℕ → Bool
is_continuation b = leb 0x80 b && ltb b 0xC0

-- The `while` loop, over what is left of the content from `start` on.
unfoldable pub boundary_loop : ℕ → Bytes → ℕ
unfolding is_continuation
boundary_loop start [] = start
boundary_loop start (b ∷ rest) =
    let later = boundary_loop (suc start) rest in if is_continuation b then later else start

unfoldable pub utf8_boundary_at_or_after : Bytes → ℕ → ℕ
unfolding boundary_loop
utf8_boundary_at_or_after content start = boundary_loop start (drop start content)

unfoldable pub trim_start : Bytes → ℕ → ℕ
unfolding utf8_boundary_at_or_after
trim_start content max_bytes =
    if leb (length content) max_bytes
    then 0
    else utf8_boundary_at_or_after content (length content - max_bytes)

-- content[start - 1] == 0x0A; `start` is at most the length of the content.
unfoldable pub newline_at : Option ℕ → Bool
newline_at none = false
newline_at (some b) = b == newline

unfoldable pub starts_at_line_boundary : Bytes → ℕ → Bool → Bool
unfolding newline_at
starts_at_line_boundary content zero previous = previous
starts_at_line_boundary content (suc before) previous = newline_at (get_elem? content before)

-- text.count("\n")
unfoldable pub newlines : Text → ℕ
newlines text = count (λ c. c == newline) text

-- `_append_decoded_text`, for a text that is not empty
unfoldable pub append_text : Text → OutputAccumulator → OutputAccumulator
unfolding encode trim_start starts_at_line_boundary newlines
append_text text a =
    let text_bytes = encode text in
    let tail_buffer = a.tail_buffer ++ text_bytes in
    let start = trim_start tail_buffer a.max_rolling_bytes in
    let total_lines = if a.total_lines == 0 then 1 else a.total_lines in
    record {
      max_lines = a.max_lines;
      max_bytes = a.max_bytes;
      max_rolling_bytes = a.max_rolling_bytes;
      decoder = a.decoder;
      tail_buffer = drop start tail_buffer;
      tail_starts_at_line_boundary =
          starts_at_line_boundary tail_buffer start a.tail_starts_at_line_boundary;
      total_bytes = a.total_bytes + length text_bytes;
      total_lines = total_lines + newlines text;
      finished = a.finished;
    }

unfoldable pub append_decoded_text : Text → OutputAccumulator → OutputAccumulator
unfolding append_text
append_decoded_text [] a = a
append_decoded_text (c ∷ text) a = append_text (c ∷ text) a

unfoldable pub with_decoder : Decoder → OutputAccumulator → OutputAccumulator
with_decoder decoder a = record {
  max_lines = a.max_lines;
  max_bytes = a.max_bytes;
  max_rolling_bytes = a.max_rolling_bytes;
  decoder = decoder;
  tail_buffer = a.tail_buffer;
  tail_starts_at_line_boundary = a.tail_starts_at_line_boundary;
  total_bytes = a.total_bytes;
  total_lines = a.total_lines;
  finished = a.finished;
}

unfoldable pub with_finished : OutputAccumulator → OutputAccumulator
with_finished a = record {
  max_lines = a.max_lines;
  max_bytes = a.max_bytes;
  max_rolling_bytes = a.max_rolling_bytes;
  decoder = a.decoder;
  tail_buffer = a.tail_buffer;
  tail_starts_at_line_boundary = a.tail_starts_at_line_boundary;
  total_bytes = a.total_bytes;
  total_lines = a.total_lines;
  finished = true;
}

-- `accumulate`; None is the RuntimeError of a finished accumulator.
unfoldable pub accumulate : Bytes → OutputAccumulator → Option OutputAccumulator
unfolding decode append_decoded_text with_decoder
accumulate chunk a =
    let (text, decoder) = decode a.decoder chunk in
    if a.finished then none else some (append_decoded_text text (with_decoder decoder a))

-- tail_text[first_newline + 1 :], where there is one
unfoldable pub after_newline : Text → Option ℕ → Text
after_newline tail_text none = tail_text
after_newline tail_text (some first_newline) = drop (first_newline + 1) tail_text

unfoldable pub snapshot_text : OutputAccumulator → Text
unfolding decode_all after_newline find
snapshot_text a =
    let tail_text = decode_all a.tail_buffer in
    if a.tail_starts_at_line_boundary
    then tail_text
    else after_newline tail_text (find (newline ∷ []) tail_text)

-- `_truncated_by`, from the reason of the tail
unfoldable pub truncated_by : OutputAccumulator → Option TruncationReason → Option TruncationReason
truncated_by a (some reason) = some reason
truncated_by a none =
    if ltb a.max_lines a.total_lines
    then some lines
    else if ltb a.max_bytes a.total_bytes
    then some bytes
    else none

unfoldable pub is_some : Option TruncationReason → Bool
is_some none = false
is_some (some reason) = true

unfoldable pub with_total_metadata : OutputAccumulator → Truncation → Truncation
unfolding truncated_by is_some
with_total_metadata a t =
    let reason = truncated_by a t.truncated_by in
    record {
      content = t.content;
      truncated = is_some reason;
      truncated_by = reason;
      keep = t.keep;
      total_lines = a.total_lines;
      total_bytes = a.total_bytes;
      output_lines = t.output_lines;
      output_bytes = t.output_bytes;
      edge_line_exceeds_limit = t.edge_line_exceeds_limit;
      max_lines = t.max_lines;
      max_bytes = t.max_bytes;
    }

unfoldable pub snapshot : OutputAccumulator → OutputSnapshot
unfolding snapshot_text with_total_metadata truncate_tail
snapshot a =
    let truncation = truncate_tail (snapshot_text a) a.max_lines a.max_bytes in
    record { content = truncation.content; truncation = with_total_metadata a truncation }

-- `finish`: a second call changes nothing more.
unfoldable pub flushed : OutputAccumulator → OutputAccumulator
unfolding flush append_decoded_text with_decoder with_finished
flushed a =
    if a.finished
    then a
    else with_finished (append_decoded_text (flush a.decoder) (with_decoder idle a))

unfoldable pub finish : OutputAccumulator → OutputSnapshot × OutputAccumulator
unfolding flushed snapshot
finish a = let a' = flushed a in (snapshot a', a')
