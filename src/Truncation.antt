-- ===== src/Truncation.antt =====
-- tile/tools/support/truncation.py and tile/tool_truncation.py: keeping one edge of a tool's output
-- within a line limit and a byte limit. Texts are lists of code points; a Python list that the loop
-- appends to is threaded through it.
mod Select
pub mod Edges
pub mod Limits
pub mod Progress
mod Examples
use piy.Base.{
  ℕ, suc, ◌+◌, Text, codes, newline, byte_len, split, join, length, take, Bool, true, false, ◌&&◌,
  Option, none, some, List, [], ◌∷◌, ◌++◌, reverse, leb, ltb, if◌then◌else◌,
}

pub data TruncationReason : Type 0 where
  lines bytes : TruncationReason

pub data TruncationKeep : Type 0 where
  head tail : TruncationKeep

pub record Truncation : Type 0 where
  pub content : Text
  pub truncated : Bool
  pub truncated_by : Option TruncationReason
  pub keep : TruncationKeep
  pub total_lines : ℕ
  pub total_bytes : ℕ
  pub output_lines : ℕ
  pub output_bytes : ℕ
  pub edge_line_exceeds_limit : Bool
  pub max_lines : ℕ
  pub max_bytes : ℕ

pub record ToolOutputDetails : Type 0 where
  pub truncated : Bool
  pub truncated_by : Option TruncationReason
  pub keep : TruncationKeep
  pub total_lines : ℕ
  pub total_bytes : ℕ
  pub output_lines : ℕ
  pub output_bytes : ℕ
  pub edge_line_exceeds_limit : Bool
  pub max_lines : ℕ
  pub max_bytes : ℕ

-- `asdict` less the content.
unfoldable pub from_truncation : Truncation → ToolOutputDetails
from_truncation t = record {
  truncated = t.truncated;
  truncated_by = t.truncated_by;
  keep = t.keep;
  total_lines = t.total_lines;
  total_bytes = t.total_bytes;
  output_lines = t.output_lines;
  output_bytes = t.output_bytes;
  edge_line_exceeds_limit = t.edge_line_exceeds_limit;
  max_lines = t.max_lines;
  max_bytes = t.max_bytes;
}

abbrev pub output_line_limit : ℕ
output_line_limit = 2000

abbrev pub output_byte_limit : ℕ
output_byte_limit = 51200

abbrev pub grep_line_character_limit : ℕ
grep_line_character_limit = 500

pub record TextMeasurements : Type 0 where
  pub lines : List Text
  pub total_lines : ℕ
  pub total_bytes : ℕ

measure_text : Text → TextMeasurements
measure_text text =
    let ls = split text in
    record { lines = ls; total_lines = length ls; total_bytes = byte_len text }

fits_limits : TextMeasurements → ℕ → ℕ → Bool
fits_limits m max_lines max_bytes = leb m.total_lines max_lines && leb m.total_bytes max_bytes

untruncated_result : Text → TextMeasurements → TruncationKeep → ℕ → ℕ → Truncation
untruncated_result text m keep max_lines max_bytes = record {
  content = text;
  truncated = false;
  truncated_by = none;
  keep = keep;
  total_lines = m.total_lines;
  total_bytes = m.total_bytes;
  output_lines = m.total_lines;
  output_bytes = m.total_bytes;
  edge_line_exceeds_limit = false;
  max_lines = max_lines;
  max_bytes = max_bytes;
}

-- lines[0]; `split` gives at least one line, so the index is in range.
first_line : List Text → Text
first_line [] = []
first_line (l ∷ ls) = l

iter_lines : List Text → TruncationKeep → List Text
iter_lines ls head = ls
iter_lines ls tail = reverse ls

-- lines[0] or lines[-1], the first line that the iteration from that edge meets.
edge_line : List Text → TruncationKeep → Text
unfolding first_line iter_lines
edge_line ls keep = first_line (iter_lines ls keep)

edge_line_exceeds : List Text → TruncationKeep → ℕ → Bool
unfolding edge_line
edge_line_exceeds ls keep max_bytes = ltb max_bytes (byte_len (edge_line ls keep))

edge_line_exceeded_result : TextMeasurements → TruncationKeep → ℕ → ℕ → Truncation
edge_line_exceeded_result m keep max_lines max_bytes = record {
  content = [];
  truncated = true;
  truncated_by = some bytes;
  keep = keep;
  total_lines = m.total_lines;
  total_bytes = m.total_bytes;
  output_lines = 0;
  output_bytes = 0;
  edge_line_exceeds_limit = true;
  max_lines = max_lines;
  max_bytes = max_bytes;
}

truncated_result :
    List Text → TruncationReason → TextMeasurements → TruncationKeep → ℕ → ℕ → Truncation
truncated_result output_lines truncated_by m keep max_lines max_bytes =
    let content = join output_lines in
    record {
      content = content;
      truncated = true;
      truncated_by = some truncated_by;
      keep = keep;
      total_lines = m.total_lines;
      total_bytes = m.total_bytes;
      output_lines = length output_lines;
      output_bytes = byte_len content;
      edge_line_exceeds_limit = false;
      max_lines = max_lines;
      max_bytes = max_bytes;
    }

-- 1 if output_lines else 0
abbrev separator_bytes : List Text → ℕ
separator_bytes [] = 0
separator_bytes (l ∷ ls) = 1

-- The `for` loop of `_select_output_lines`, over the lines that are left.
pub select_loop :
    (max_lines max_bytes : ℕ) → List Text → List Text → ℕ → List Text × TruncationReason
select_loop max_lines max_bytes [] out out_bytes = (out, lines)
select_loop max_lines max_bytes (l ∷ rest) out out_bytes =
    let n = out_bytes + separator_bytes out + byte_len l in
    let more = select_loop max_lines max_bytes rest (out ++ l ∷ []) n in
    if leb max_lines (length out)
    then (out, lines)
    else if ltb max_bytes n
    then (out, bytes)
    else more

-- `output_lines.reverse()` for the tail.
reorder : TruncationKeep → List Text → List Text
reorder head out = out
reorder tail out = reverse out

select_output_lines : List Text → TruncationKeep → ℕ → ℕ → List Text × TruncationReason
unfolding iter_lines reorder
select_output_lines ls keep max_lines max_bytes =
    let (out, truncated_by) = select_loop max_lines max_bytes (iter_lines ls keep) [] 0 in
    (reorder keep out, truncated_by)

unfoldable pub truncate_text : Text → TruncationKeep → ℕ → ℕ → Truncation
unfolding measure_text fits_limits untruncated_result edge_line_exceeds edge_line_exceeded_result
    truncated_result select_output_lines
truncate_text text keep max_lines max_bytes =
    let m = measure_text text in
    if fits_limits m max_lines max_bytes
    then untruncated_result text m keep max_lines max_bytes
    else if edge_line_exceeds m.lines keep max_bytes
    then edge_line_exceeded_result m keep max_lines max_bytes
    else let (out, truncated_by) = select_output_lines m.lines keep max_lines max_bytes in
      truncated_result out truncated_by m keep max_lines max_bytes

unfoldable pub truncate_head : Text → ℕ → ℕ → Truncation
truncate_head text max_lines max_bytes = truncate_text text head max_lines max_bytes

unfoldable pub truncate_tail : Text → ℕ → ℕ → Truncation
truncate_tail text max_lines max_bytes = truncate_text text tail max_lines max_bytes

-- The `for` loop of `truncate_to_byte_limit`.
pub byte_limit_loop : ℕ → List Text → List Text → ℕ → List Text
byte_limit_loop byte_limit [] out out_bytes = out
byte_limit_loop byte_limit (l ∷ rest) out out_bytes =
    let n = out_bytes + separator_bytes out + byte_len l in
    let more = byte_limit_loop byte_limit rest (out ++ l ∷ []) n in
    if ltb byte_limit n then out else more

unfoldable pub truncate_to_byte_limit : Text → ℕ → Text × Bool
truncate_to_byte_limit text byte_limit =
    if leb (byte_len text) byte_limit
    then (text, false)
    else (join (byte_limit_loop byte_limit (split text) [] 0), true)

unfoldable pub truncate_line : Text → ℕ → Text × Bool
truncate_line line character_limit =
    if leb (length line) character_limit
    then (line, false)
    else (take character_limit line ++ codes "... [truncated]", true)
