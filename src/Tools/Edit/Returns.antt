-- ===== src/Tools/Edit/Returns.antt =====
-- tile/tools/edit.py: applying replacements ends, by a result or by an error of the tool.
use mathlib.Core.Path.{subst}
use piy.Base.{
  false_ne_true, length-map, inl, inr, ℕ, zero, suc, ◌+◌, ◌-◌, ◌<◌, Text, text_eq, text_eq_iff,
  List, [], ◌∷◌, map, ◌≡◌, ◌≢◌, sym, Bool, true, false, length, select, range_from, flatten,
  if◌then◌else◌, All, All-map, Bool-cases, arith,
}
use piy.Tools.Edit.Endings.{normalize_to_lf}
use piy.Tools.Edit.Errors.{tool_error, Result, ok, err, empty_old_text_error}
use piy.Tools.Edit.RoundTrip.{normalize_to_lf-eq-nil}
use piy.Tools.Edit.Spans.{EditReplacement, require_unique_match, splice_text_spans}
use piy.Tools.Edit.Lines.{
  terminated_lines, line_start_offsets, ends_with_newline, window_char_span, window_last,
  find_window_starts, window_matches_at,
}
use piy.Tools.Edit.Fuzzy.{normalize_for_fuzzy_match, window_of, fuzzy_spans, match_fuzzy_spans}
use piy.Tools.Edit.Windows.{window_char_span_returns, flatten-terminated_lines}
use piy.Tools.Edit.Exact.{HasOldText, require_unique_match-single}
use piy.Tools.Edit.Apply.{
  ReplacementApplication, apply_exact_replacements, reject_empty_old_text, or_if_not_found,
  apply_fuzzy_replacements, apply_replacements_with_fallback,
}
use piy.Tools.Edit.Told.{
  Told, result, not_found, refused, Told-bind, require_unique_match-Told, Told-if, checked-Told,
  build_application-Told, apply_exact_replacements-Told,
}

select-range_below :
    (p : ℕ → Bool) (start n : ℕ) → All (λ k. k < start + n) (select p (range_from start n))
select-range_below p start zero = tt
select-range_below p start (suc n) =
    let later : All (λ k. k < start + suc n) (select p (range_from (suc start) n)) =
      All-map (λ k. k < suc start + n) (λ k. k < start + suc n) (λ k h. omega (arith, h))
        (select p (range_from (suc start) n)) (select-range_below p (suc start) n) in
    elim (Bool-cases (p start)) [ inl t ↦ rw t (omega arith, later) | inr f ↦ rw f later ]

find_window_starts_below :
    (lines window : List Text) (first : ℕ)
    → find_window_starts lines window ≡ first ∷ []
    → first < length lines + 1 - length window
unfolding find_window_starts
find_window_starts_below lines window first h =
    let room = length lines + 1 - length window in
    omega (
      arith,
      (subst (All (λ k. k < 0 + room)) h
          (select-range_below (window_matches_at lines window) 0 room)).0,
    )

terminated_lines_pos : (text : Text) → text ≢ [] → 0 < length (terminated_lines text)
terminated_lines_pos text full = by_cases (terminated_lines text) (flatten-terminated_lines text)
  where
    by_cases : (lines : List Text) → flatten lines ≡ text → 0 < length lines
    by_cases [] e = absurd (full (sym e))
    by_cases (l ∷ lines) e = omega arith

-- A step of the loop over a list of replacements by the search, and by its rest.
module _ (nfkc : Text → Text) where
  window_of_pos : (r : EditReplacement) → HasOldText r → 0 < length (window_of nfkc r.old_text)
  unfolding window_of
  window_of_pos r full = omega (
    arith,
    length-map (normalize_for_fuzzy_match nfkc) (terminated_lines (normalize_to_lf r.old_text)),
    terminated_lines_pos (normalize_to_lf r.old_text)
        (λ e. full (normalize_to_lf-eq-nil r.old_text e)),
  )

  window_span-Told :
      (lines : List Text) (r : EditReplacement) (path : Text) (index total : ℕ) {first : ℕ}
      → HasOldText r
      → require_unique_match
          (find_window_starts
            (map (normalize_for_fuzzy_match nfkc) lines)
            (window_of nfkc r.old_text))
          path
          index
          total
        ≡ ok first
      → Told (
          window_char_span lines
            (line_start_offsets lines)
            first
            (first + length (window_of nfkc r.old_text) - 1)
            (ends_with_newline (window_last (window_of nfkc r.old_text))))
  window_span-Told lines r path index total {first} full unique =
      let normalized = map (normalize_for_fuzzy_match nfkc) lines in
      let window = window_of nfkc r.old_text in
      let below = find_window_starts_below normalized window first (
        require_unique_match-single (find_window_starts normalized window) path index total
          unique) in
      let same = length-map (normalize_for_fuzzy_match nfkc) lines in
      let pos = window_of_pos r full in
      let (span, is) =
        window_char_span_returns lines first (first + length window - 1)
          (ends_with_newline (window_last window)) (omega (arith, below, same, pos))
          (omega (arith, below, same, pos)) in
      subst Told (sym is) (result span)

  fuzzy_spans-Told :
      (lines : List Text) (path : Text) (total index : ℕ) (rs : List EditReplacement)
      → All HasOldText rs
      → Told (
          fuzzy_spans nfkc lines
            (map (normalize_for_fuzzy_match nfkc) lines)
            (line_start_offsets lines)
            path
            total
            index
            rs)
  unfolding fuzzy_spans
  fuzzy_spans-Told lines path total index [] full = result []
  fuzzy_spans-Told lines path total index (r ∷ rs) full =
      let normalized = map (normalize_for_fuzzy_match nfkc) lines in
      let starts = find_window_starts normalized (window_of nfkc r.old_text) in
      Told-bind (require_unique_match starts path index total) _
        (require_unique_match-Told starts path index total)
        (λ first unique.
          Told-bind _ _ (window_span-Told lines r path index total full.0 unique) (λ span _.
            Told-bind
              (fuzzy_spans nfkc lines normalized (line_start_offsets lines) path total (suc index)
                rs)
              _ (fuzzy_spans-Told lines path total (suc index) rs full.1) (λ spans _. result _)))

  apply_fuzzy_replacements-Told :
      (content path : Text) (rs : List EditReplacement)
      → All HasOldText rs
      → Told (apply_fuzzy_replacements nfkc content rs path)
  unfolding apply_fuzzy_replacements match_fuzzy_spans
  apply_fuzzy_replacements-Told content path rs full =
      let lines = terminated_lines content in
      let normalized = map (normalize_for_fuzzy_match nfkc) lines in
      Told-bind (match_fuzzy_spans nfkc content rs path) _
        (Told-bind
          (fuzzy_spans nfkc lines normalized (line_start_offsets lines) path (length rs) 0 rs) _
          (fuzzy_spans-Told lines path (length rs) 0 rs full) (λ spans _. checked-Told spans path))
        (λ spans _. build_application-Told content (splice_text_spans content spans) path rs)

reject_empty_old_text-Told :
    (total index : ℕ) (rs : List EditReplacement) (path : Text)
    → Told (reject_empty_old_text total index rs path)
unfolding reject_empty_old_text
reject_empty_old_text-Told total index [] path = result tt
reject_empty_old_text-Told total index (r ∷ rs) path =
    Told-if (text_eq r.old_text []) _ _ (refused _)
      (reject_empty_old_text-Told total (suc index) rs path)

pub reject_empty_old_text-HasOldText :
    (total index : ℕ) (rs : List EditReplacement) (path : Text)
    → reject_empty_old_text total index rs path ≡ ok tt
    → All HasOldText rs
unfolding reject_empty_old_text
reject_empty_old_text-HasOldText total index [] path h = tt
reject_empty_old_text-HasOldText total index (r ∷ rs) path h =
    by_test (text_eq r.old_text []) (text_eq_iff r.old_text []).1 h
      (λ later. reject_empty_old_text-HasOldText total (suc index) rs path later)
  where
    by_test :
        (b : Bool)
        → (r.old_text ≡ [] → b ≡ true)
        → (if b
            then err (tool_error (empty_old_text_error path index total))
            else reject_empty_old_text total (suc index) rs path)
          ≡ ok tt
        → (reject_empty_old_text total (suc index) rs path ≡ ok tt → All HasOldText rs)
        → HasOldText r × All HasOldText rs
    by_test true same h later = cc
    by_test false same h later = (λ e. false_ne_true (same e), later h)

or_if_not_found-Told :
    (r fallback : Result ReplacementApplication)
    → Told r
    → Told fallback
    → Told (or_if_not_found r fallback)
unfolding or_if_not_found
or_if_not_found-Told r fallback (result a) later = result a
or_if_not_found-Told r fallback (not_found message) later = later
or_if_not_found-Told r fallback (refused message) later = refused message

-- For every content and every list of replacements, applying them ends, by an application or by an
-- error of the tool with a message: the searches end, and no index is out of range.
pub apply_replacements_with_fallback-Told :
    (nfkc : Text → Text) (content path : Text) (rs : List EditReplacement)
    → Told (apply_replacements_with_fallback nfkc content rs path)
unfolding apply_replacements_with_fallback
apply_replacements_with_fallback-Told nfkc content path rs =
    Told-bind (reject_empty_old_text (length rs) 0 rs path) _
      (reject_empty_old_text-Told (length rs) 0 rs path)
      (λ _ e.
        let full = reject_empty_old_text-HasOldText (length rs) 0 rs path e in
        or_if_not_found-Told (apply_exact_replacements content rs path)
          (apply_fuzzy_replacements nfkc content rs path)
          (apply_exact_replacements-Told content path rs full)
          (apply_fuzzy_replacements-Told nfkc content path rs full))
