-- ===== src/Truncation/Examples.antt =====
-- Tests of the truncation helpers, and the theorems at concrete texts.
use piy.Base.{
  ◌≤◌, ◌<◌, Text, codes, byte_len, join, split, utf8_len, length, ◌≡◌, refl, ◌⊎◌, ◌∷◌, ◌++◌, true,
  false, some, arith,
}
use piy.Truncation.{
  head, tail, lines, bytes, select_loop, truncate_text, truncate_head, truncate_to_byte_limit,
  truncate_line,
}
use piy.Truncation.Edges.{KeepsEdge, truncate_text-KeepsEdge}
use piy.Truncation.Limits.{truncate_to_byte_limit-head, truncate_line_lem}

abbrev three : Text
three = codes "ab" ++ 10 ∷ codes "cd" ++ 10 ∷ codes "é"

keeps_tail :
    ((truncate_text three tail 2 100).content ≡ codes "cd" ++ 10 ∷ codes "é")
    × ((truncate_text three tail 2 100).truncated_by ≡ some lines)
    × ((truncate_text three tail 2 100).output_bytes ≡ 5)
unfolding truncate_text split join select_loop byte_len utf8_len
keeps_tail = (refl, refl, refl)

keeps_head_bytes :
    ((truncate_text three head 9 6).content ≡ codes "ab" ++ 10 ∷ codes "cd")
    × ((truncate_text three head 9 6).truncated_by ≡ some bytes)
unfolding truncate_text split join select_loop byte_len utf8_len
keeps_head_bytes = (refl, refl)

truncate_text-KeepsEdge_example :
    KeepsEdge tail 2 100 (split three) (truncate_text three tail 2 100)
truncate_text-KeepsEdge_example = truncate_text-KeepsEdge three tail 2 100

truncate_to_byte_limit-head_example :
    truncate_to_byte_limit three 6
    ≡ ((truncate_head three 3 6).content, (truncate_head three 3 6).truncated)
unfolding split
truncate_to_byte_limit-head_example = truncate_to_byte_limit-head three 6 3 (omega arith)

truncate_line_example :
    ((length three ≤ 4) × (truncate_line three 4 ≡ (three, false)))
    ⊎ ((kept cut : Text) × (three ≡ kept ++ cut)
        × (length kept ≡ 4)
        × (0 < length cut)
        × (truncate_line three 4 ≡ (kept ++ codes "... [truncated]", true)))
truncate_line_example = truncate_line_lem three 4
