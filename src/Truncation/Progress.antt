-- ===== src/Truncation/Progress.antt =====
-- A cut at the head that is not for the sake of its first line keeps a line.
use piy.Base.{
  ℕ, ◌<◌, Text, byte_len, join, split, length, ◌≡◌, sym, ◌∙◌, inl, inr, List, [], ◌∷◌, ◌++◌, true,
  false, ltb, arith, tests, false_ne_true,
}
use mathlib.Core.Path.{subst}
use piy.Truncation.{head, truncate_text, first_line, edge_line, iter_lines, edge_line_exceeds}
use piy.Truncation.Edges.{at_lines, at_bytes, truncate_text-KeepsEdge}

-- The first line meets the byte limit, if something was cut and not for it.
edge-meets :
    (text : Text) (max_lines max_bytes : ℕ)
    → (truncate_text text head max_lines max_bytes).truncated ≡ true
    → (truncate_text text head max_lines max_bytes).edge_line_exceeds_limit ≡ false
    → edge_line_exceeds (split text) head max_bytes ≡ false
unfolding truncate_text
edge-meets text max_lines max_bytes cut not_edge = ground arith

first-kept :
    (text : Text) (max_bytes : ℕ) (kept : List Text) (l : Text) (rest : List Text)
    → edge_line_exceeds (split text) head max_bytes ≡ false
    → split text ≡ kept ++ l ∷ rest
    → max_bytes < byte_len (join (kept ++ l ∷ []))
    → 0 < length kept
unfolding edge_line_exceeds edge_line first_line iter_lines join
first-kept text max_bytes [] l rest meets is heavy =
    let light : ltb max_bytes (byte_len l) ≡ false =
      subst (λ ls. ltb max_bytes (byte_len (first_line ls)) ≡ false) is meets in
    absurd (omega (tests, heavy, light))
first-kept text max_bytes (k ∷ kept) l rest meets is heavy = omega arith

-- At least one line is kept where something was cut, the first line is not too long, and the limit
-- allows a line.
pub truncate_text-progress :
    (text : Text) (max_lines max_bytes : ℕ)
    → 0 < max_lines
    → (truncate_text text head max_lines max_bytes).truncated ≡ true
    → (truncate_text text head max_lines max_bytes).edge_line_exceeds_limit ≡ false
    → 0 < (truncate_text text head max_lines max_bytes).output_lines
truncate_text-progress text max_lines max_bytes room cut not_edge =
    let k = truncate_text-KeepsEdge text head max_lines max_bytes in
    elim k.reason [
      | inl (all, uncut, by) ↦ absurd (false_ne_true (sym uncut ∙ cut))
      | inr (r, marked, by, at_lines l rest beyond is full) ↦
          omega (arith, k.output_lines, full, room)
      | inr (r, marked, by, at_bytes l rest beyond is heavy) ↦ omega (
        arith,
        k.output_lines,
        first-kept text max_bytes k.kept l rest (edge-meets text max_lines max_bytes cut not_edge)
            beyond heavy,
      )
    ]
