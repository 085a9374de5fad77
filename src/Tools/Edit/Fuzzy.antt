-- ===== src/Tools/Edit/Fuzzy.antt =====
-- tile/tools/edit.py: the normalization that fuzzy matching compares by, and the spans it gives.
use piy.Base.{
  ℕ, suc, ◌+◌, ◌-◌, Text, split, join, List, [], ◌∷◌, map, Bool, ◌&&◌, length, leb, if◌then◌else◌,
  any,
}
use piy.Tools.Edit.Endings.{normalize_to_lf}
use piy.Tools.Edit.Errors.{Result, ok, ◌>>=◌}
use piy.Tools.Edit.Spans.{
  EditReplacement, MatchedSpan, require_unique_match, validate_non_overlapping,
}
use piy.Tools.Edit.Lines.{
  terminated_lines, line_start_offsets, ends_with_newline, window_char_span, window_last,
  find_window_starts,
}

-- A range of code points, both ends included.
abbrev pub in_range : ℕ → ℕ × ℕ → Bool
in_range c (low, high) = leb low c && leb c high

-- pattern.sub(by, text), for a class of characters
unfoldable pub substitute : List (ℕ × ℕ) → ℕ → Text → Text
substitute pattern by text = map (λ c. if any (in_range c) pattern then by else c) text

abbrev pub fuzzy_unicode_spaces : List (ℕ × ℕ)
fuzzy_unicode_spaces =
    (0xA0, 0xA0) ∷ (0x2002, 0x200A) ∷ (0x202F, 0x202F) ∷ (0x205F, 0x205F) ∷ (0x3000, 0x3000) ∷ []

abbrev pub smart_single_quotes : List (ℕ × ℕ)
smart_single_quotes = (0x2018, 0x201B) ∷ []

abbrev pub smart_double_quotes : List (ℕ × ℕ)
smart_double_quotes = (0x201C, 0x201F) ∷ []

abbrev pub unicode_dashes : List (ℕ × ℕ)
unicode_dashes = (0x2010, 0x2015) ∷ (0x2212, 0x2212) ∷ []

-- The characters that `str.isspace` accepts.
abbrev pub white_space : List (ℕ × ℕ)
white_space =
    (9, 13)
    ∷ (28, 32)
    ∷ (0x85, 0x85)
    ∷ (0xA0, 0xA0)
    ∷ (0x1680, 0x1680)
    ∷ (0x2000, 0x200A)
    ∷ (0x2028, 0x2029)
    ∷ (0x202F, 0x202F)
    ∷ (0x205F, 0x205F)
    ∷ (0x3000, 0x3000)
    ∷ []

-- A character in front of what is left of the rest.
unfoldable pub kept_before : ℕ → Text → Text
kept_before c [] = if any (in_range c) white_space then [] else c ∷ []
kept_before c (d ∷ s) = c ∷ d ∷ s

-- line.rstrip()
unfoldable pub rstrip : Text → Text
unfolding kept_before
rstrip [] = []
rstrip (c ∷ s) = kept_before c (rstrip s)

unfoldable pub strip_trailing_line_whitespace : Text → Text
unfolding join split rstrip
strip_trailing_line_whitespace text = join (map rstrip (split text))

-- unicodedata.normalize("NFKC", text) is a parameter.
module _ (nfkc : Text → Text) where
  unfoldable pub normalize_for_fuzzy_match : Text → Text
  unfolding strip_trailing_line_whitespace substitute
  normalize_for_fuzzy_match text = substitute fuzzy_unicode_spaces 32 (
      substitute unicode_dashes 45 (
        substitute smart_double_quotes 34
          (substitute smart_single_quotes 39 (strip_trailing_line_whitespace (nfkc text)))))

  -- The normalized lines of an old text.
  unfoldable pub window_of : Text → List Text
  unfolding normalize_for_fuzzy_match
  window_of old_text = map normalize_for_fuzzy_match (terminated_lines (normalize_to_lf old_text))

  -- The loop of `_match_fuzzy_spans`, from the edit at `index` on.
  unfoldable pub fuzzy_spans :
      List Text
      → List Text
      → List ℕ
      → Text
      → ℕ
      → ℕ
      → List EditReplacement
      → Result (List MatchedSpan)
  unfolding window_of find_window_starts window_char_span
  fuzzy_spans original_lines normalized_lines line_offsets display_path total index [] = ok []
  fuzzy_spans original_lines normalized_lines line_offsets display_path total index
        (r ∷ replacements) =
      let window = window_of r.old_text in
      let starts = find_window_starts normalized_lines window in
      do
        start_line ← require_unique_match starts display_path index total
        (start, end) ←
            window_char_span original_lines line_offsets start_line (start_line + length window - 1)
              (ends_with_newline (window_last window))
        spans ←
            fuzzy_spans original_lines normalized_lines line_offsets display_path total (suc index)
              replacements
        ok (
            record {
              edit_index = index;
              start = start;
              end = end;
              replacement = normalize_to_lf r.new_text;
            }
            ∷ spans)

  unfoldable pub match_fuzzy_spans : Text → List EditReplacement → Text → Result (List MatchedSpan)
  unfolding fuzzy_spans normalize_for_fuzzy_match terminated_lines line_start_offsets
      validate_non_overlapping
  match_fuzzy_spans content replacements display_path = do
    let original_lines = terminated_lines content
    spans ←
        fuzzy_spans original_lines (map normalize_for_fuzzy_match original_lines)
          (line_start_offsets original_lines) display_path (length replacements) 0 replacements
    _ ← validate_non_overlapping spans display_path
    ok spans
