-- ===== src/Tools/Edit/Spans.antt =====
-- tile/tools/edit.py: replacement spans, their exact matches in the content, the check that they do not
-- overlap, and the splice.
use piy.Base.{
  ℕ, zero, suc, ◌+◌, Text, List, [], ◌∷◌, ◌++◌, reverse, Option, none, some, length, take, drop,
  leb, ltb, if◌then◌else◌, find,
}
use mathlib.Core.Option.{map as option_map}
use piy.Tools.Edit.Endings.{normalize_to_lf}
use piy.Tools.Edit.Errors.{
  match_not_found, tool_error, unfinished, Result, ok, err, Done, ◌>>=◌, not_found_error,
  duplicate_error, overlap_error,
}

pub record EditReplacement : Type 0 where
  pub old_text : Text
  pub new_text : Text

pub record MatchedSpan : Type 0 where
  pub edit_index : ℕ
  pub start : ℕ
  pub end : ℕ
  pub replacement : Text

-- content.find(part, offset)
unfoldable pub find_from : Text → Text → ℕ → Option ℕ
find_from part content offset = option_map (λ k. offset + k) (find part (drop offset content))

-- The `while` loop of `_find_text_starts`, with the offset of the last `find`; on fuel.
unfoldable pub starts_loop : ℕ → Text → Text → List ℕ → Option ℕ → Result (List ℕ)
unfolding find_from
starts_loop fuel old_text content starts none = ok starts
starts_loop zero old_text content starts (some offset) = err unfinished
starts_loop (suc fuel) old_text content starts (some offset) =
    starts_loop fuel old_text content (starts ++ offset ∷ [])
      (find_from old_text content (offset + length old_text))

-- `_find_text_starts`: every turn of the loop moves on by the length of the old text, so there are
-- at most as many turns as characters, and one more for an empty content.
unfoldable pub find_text_starts : Text → Text → Result (List ℕ)
unfolding starts_loop
find_text_starts content old_text =
    starts_loop (suc (length content)) old_text content [] (find old_text content)

unfoldable pub require_unique_match : List ℕ → Text → ℕ → ℕ → Result ℕ
require_unique_match [] display_path edit_index total_edits =
    err (match_not_found (not_found_error display_path edit_index total_edits))
require_unique_match (start ∷ []) display_path edit_index total_edits = ok start
require_unique_match (start ∷ other ∷ starts) display_path edit_index total_edits = err (
    tool_error
      (duplicate_error display_path edit_index total_edits (length (start ∷ other ∷ starts))))

-- sorted(spans, key=lambda span: span.start), which is stable
unfoldable pub insert_span : MatchedSpan → List MatchedSpan → List MatchedSpan
insert_span span [] = span ∷ []
insert_span span (s ∷ spans) =
    let rest = insert_span span spans in
    if leb span.start s.start then span ∷ s ∷ spans else s ∷ rest

unfoldable pub sort_spans : List MatchedSpan → List MatchedSpan
unfolding insert_span
sort_spans [] = []
sort_spans (span ∷ spans) = insert_span span (sort_spans spans)

-- The loop over `itertools.pairwise`.
unfoldable pub reject_overlaps : List MatchedSpan → Text → Result Done
reject_overlaps [] display_path = ok tt
reject_overlaps (previous ∷ []) display_path = ok tt
reject_overlaps (previous ∷ current ∷ spans) display_path =
    let rest = reject_overlaps (current ∷ spans) display_path in
    if ltb current.start previous.end
    then err (tool_error (overlap_error previous.edit_index current.edit_index display_path))
    else rest

unfoldable pub validate_non_overlapping : List MatchedSpan → Text → Result Done
unfolding reject_overlaps sort_spans
validate_non_overlapping spans display_path = reject_overlaps (sort_spans spans) display_path

-- result[: span.start] + span.replacement + result[span.end :]
unfoldable pub splice_span : Text → MatchedSpan → Text
splice_span result span = take span.start result ++ (span.replacement ++ drop span.end result)

unfoldable pub splice_all : Text → List MatchedSpan → Text
unfolding splice_span
splice_all result [] = result
splice_all result (span ∷ spans) = splice_all (splice_span result span) spans

-- sorted(..., reverse=True) keeps the order of equal keys, as sorting the reversed list and
-- reversing the result does.
unfoldable pub splice_text_spans : Text → List MatchedSpan → Text
unfolding splice_all sort_spans
splice_text_spans content spans = splice_all content (reverse (sort_spans (reverse spans)))

-- The loop of `_match_exact_spans`, from the edit at `index` on.
unfoldable pub exact_spans : Text → Text → ℕ → ℕ → List EditReplacement → Result (List MatchedSpan)
exact_spans content display_path total index [] = ok []
exact_spans content display_path total index (replacement ∷ replacements) =
    let old_text = normalize_to_lf replacement.old_text in
    do
      starts ← find_text_starts content old_text
      start ← require_unique_match starts display_path index total
      spans ← exact_spans content display_path total (suc index) replacements
      ok (
          record {
            edit_index = index;
            start = start;
            end = start + length old_text;
            replacement = normalize_to_lf replacement.new_text;
          }
          ∷ spans)

unfoldable pub match_exact_spans : Text → List EditReplacement → Text → Result (List MatchedSpan)
unfolding exact_spans validate_non_overlapping
match_exact_spans content replacements display_path = do
  spans ← exact_spans content display_path (length replacements) 0 replacements
  _ ← validate_non_overlapping spans display_path
  ok spans
