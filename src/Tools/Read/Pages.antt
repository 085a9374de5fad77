-- ===== src/Tools/Read/Pages.antt =====
-- tile/tools/read.py: reading on from the offset in the notice.
use mathlib.Core.Path.{subst}
use piy.Base.{
  ℕ, ◌+◌, ◌<◌, Text, split, join, List, ◌∷◌, ◌++◌, ◌≡◌, refl, sym, ap, ◌∙◌, inl, inr, Bool, true,
  false, Option, some, length, drop, max, leb, if◌then◌else◌, length-append, length-drop, drop-drop,
  split-NoNewline, split-join, drop-length_append, All-drop, NoNewline, leb→lt, lt→leb,
  false_ne_true, arith,
}
use piy.Truncation.{Truncation, head, truncate_text, truncate_head, output_byte_limit}
use piy.Truncation.Edges.{at_lines, at_bytes, truncate_text-KeepsEdge}
use piy.Truncation.Progress.{truncate_text-progress}
use piy.Tools.Read.{
  ReadSelection, selected, beyond_end, start_index, select_content, next_offset, end_line, shown,
}

-- The lines from an index on, as a selection.
abbrev from_line : Text → ℕ → ReadSelection
from_line content k = record {
  content = join (drop k (split content));
  start_line = k + 1;
  total_lines = length (split content);
}

select_content-in_range :
    (content : Text) (offset : Option ℕ)
    → start_index offset < length (split content)
    → select_content content offset ≡ selected (from_line content (start_index offset))
unfolding select_content
select_content-in_range content offset h =
    rw (lt→leb (length (split content)) (start_index offset) h) refl

selected-injective : {r s : ReadSelection} → selected r ≡ selected s → r ≡ s
selected-injective h = cc

selected-cases :
    (b : Bool) (message : Text) (r s : ReadSelection)
    → (if b then beyond_end message else selected r) ≡ selected s
    → (b ≡ false) × (r ≡ s)
selected-cases true message r s h = cc
selected-cases false message r s h = (refl, selected-injective h)

select_content-selected :
    (content : Text) (offset : Option ℕ) {selection : ReadSelection}
    → select_content content offset ≡ selected selection
    → (start_index offset < length (split content))
      × (from_line content (start_index offset) ≡ selection)
unfolding select_content
select_content-selected content offset {selection} h =
    let (inside, is) =
      selected-cases (leb (length (split content)) (start_index offset)) _
        (from_line content (start_index offset)) selection h in
    (leb→lt (length (split content)) (start_index offset) inside, is)

split-from_line :
    (content : Text) (k : ℕ)
    → k < length (split content)
    → split (from_line content k).content ≡ drop k (split content)
split-from_line content k h =
    split-join (drop k (split content))
      (All-drop NoNewline k (split content) (split-NoNewline content))
      (omega (arith, h, length-drop k (split content)))

-- The page behind one that was cut.
pub record NextPage (content : Text) (selection : ReadSelection) (t : Truncation) : Type 0 where
  pub kept : List Text
  pub next : ReadSelection
  pub shows : t.content ≡ join kept
  pub continues : select_content content (some (next_offset selection t)) ≡ selected next
  pub no_gap : split selection.content ≡ kept ++ split next.content
  pub forward : selection.start_line < next.start_line

next_page :
    (content : Text) (k : ℕ) (t : Truncation) (kept : List Text) (l : Text) (rest : List Text)
    → k < length (split content)
    → split (from_line content k).content ≡ kept ++ l ∷ rest
    → t.content ≡ join kept
    → t.output_lines ≡ length kept
    → 0 < t.output_lines
    → NextPage content (from_line content k) t
unfolding next_offset end_line start_index
next_page content k t kept l rest inside parts shows out some_line =
    let all = split content in
    let is = sym (split-from_line content k inside) ∙ parts in
    let room : k + t.output_lines < length all =
      omega (arith, inside, ap length is, length-drop k all, length-append kept (l ∷ rest), out) in
    let index : start_index (some (next_offset (from_line content k) t)) ≡ k + t.output_lines =
      omega arith in
    record {
      kept = kept;
      next = from_line content (k + t.output_lines);
      shows = shows;
      continues =
          select_content-in_range content (some (next_offset (from_line content k) t))
            (omega (arith, room))
          ∙ ap (λ i. selected (from_line content i)) index;
      no_gap =
          parts
          ∙ ap (λ ls. kept ++ ls)
              (sym (drop-length_append kept (l ∷ rest))
                ∙ ap (drop (length kept)) (sym is)
                ∙ drop-drop k (length kept) (k + t.output_lines) all (omega (arith, out))
                ∙ sym (split-from_line content (k + t.output_lines) room));
      forward = omega (arith, some_line);
    }

from_line-NextPage :
    (content : Text) (k limit : ℕ)
    → k < length (split content)
    → (shown (from_line content k) limit).truncated ≡ true
    → (shown (from_line content k) limit).edge_line_exceeds_limit ≡ false
    → NextPage content (from_line content k) (shown (from_line content k) limit)
unfolding shown truncate_head
from_line-NextPage content k limit inside cut not_edge =
    let text = (from_line content k).content in
    let t = truncate_text text head (max 1 limit) output_byte_limit in
    let e = truncate_text-KeepsEdge text head (max 1 limit) output_byte_limit in
    let go = λ (l : Text) (rest : List Text) (beyond : split text ≡ e.kept ++ l ∷ rest).
      next_page content k t e.kept l rest inside beyond e.content e.output_lines
        (truncate_text-progress text (max 1 limit) output_byte_limit (omega arith) cut not_edge) in
    elim e.reason [
      | inl (all, uncut, by) ↦ absurd (false_ne_true (sym uncut ∙ cut))
      | inr (r, marked, by, at_lines l rest beyond is full) ↦ go l rest beyond
      | inr (r, marked, by, at_bytes l rest beyond is heavy) ↦ go l rest beyond
    ]

-- Where a read of a file was cut, and not for the sake of its first line, reading on from the offset
-- that the notice names succeeds, begins behind the line where the read began, and goes on with the
-- very next line: the lines that were shown and those of the next selection are the lines of the
-- first one.
pub build_result-NextPage :
    (content : Text) (offset : Option ℕ) (limit : ℕ) (selection : ReadSelection)
    → select_content content offset ≡ selected selection
    → (shown selection limit).truncated ≡ true
    → (shown selection limit).edge_line_exceeds_limit ≡ false
    → NextPage content selection (shown selection limit)
build_result-NextPage content offset limit selection h =
    let (inside, is) = select_content-selected content offset h in
    subst
      (λ r.
        (shown r limit).truncated ≡ true
        → (shown r limit).edge_line_exceeds_limit ≡ false
        → NextPage content r (shown r limit))
      is (from_line-NextPage content (start_index offset) limit inside)
