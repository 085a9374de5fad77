-- ===== src/Tools/Edit/FuzzyMatches.antt =====
-- tile/tools/edit.py: what fuzzy matching accepts: windows of whole lines that are the same once they
-- are normalized.
use mathlib.Core.Path.{subst}
use piy.Base.{
  ◌⊎◌, inl, inr, ℕ, zero, suc, ◌+◌, ◌-◌, ◌≤◌, ◌<◌, Text, newline, text_eq_iff, List, [], ◌∷◌, ◌++◌,
  map, ◌≡◌, ◌↔◌, refl, ap, Bool, true, false, ◌&&◌, &&-parts, Option, none, some, length, get_elem?,
  take, drop, select, range_from, any, ◌==◌, ==_iff, All, Bool-cases, arith,
}
use piy.Tools.Edit.Endings.{normalize_to_lf}
use piy.Tools.Edit.Errors.{ok, bind-ok, ok-injective}
use piy.Tools.Edit.Spans.{
  EditReplacement, MatchedSpan, require_unique_match, validate_non_overlapping,
}
use piy.Tools.Edit.Lines.{
  terminated_lines, line_start_offsets, ends_with_newline, window_char_span, window_head,
  window_last, lines_eq, last_window_line_matches, last_line_matches, window_matches_at,
  find_window_starts,
}
use piy.Tools.Edit.Fuzzy.{normalize_for_fuzzy_match, window_of, fuzzy_spans, match_fuzzy_spans}
use piy.Tools.Edit.Windows.{LineSpan, window_char_span-LineSpan}
use piy.Tools.Edit.Exact.{require_unique_match-single}

lines_eq_iff : (ls ms : List Text) → (lines_eq ls ms ≡ true) ↔ (ls ≡ ms)
unfolding lines_eq
lines_eq_iff [] [] = (λ _. refl, λ _. refl)
lines_eq_iff [] (m ∷ ms) = (λ h. cc, λ h. cc)
lines_eq_iff (l ∷ ls) [] = (λ h. cc, λ h. cc)
lines_eq_iff (l ∷ ls) (m ∷ ms) = ground (arith, lines_eq_iff ls ms, text_eq_iff l m)

-- A line of the file against the last line of an old text, which need not claim the newline.
abbrev pub SameLast : Text → Text → Type 0
SameLast line last =
    (line ≡ last) ⊎ ((ends_with_newline last ≡ false) × (line ≡ last ++ newline ∷ []))

-- The window stands at that line.
pub record WindowAt (lines window : List Text) (first : ℕ) : Type 0 where
  pub head_is : take (length (window_head window)) (drop first lines) ≡ window_head window
  pub last_line : Text
  pub last_line_is : get_elem? lines (first + length (window_head window)) ≡ some last_line
  pub same_last : SameLast last_line (window_last window)

last_window_line_matches-SameLast :
    (line last : Text) → last_window_line_matches line last ≡ true → SameLast line last
unfolding last_window_line_matches
last_window_line_matches-SameLast line last h =
    ground (arith, text_eq_iff line last, text_eq_iff line (last ++ newline ∷ []))

last_line_matches-SameLast :
    (o : Option Text) (last : Text)
    → last_line_matches o last ≡ true
    → (line : Text) × (o ≡ some line) × SameLast line last
unfolding last_line_matches
last_line_matches-SameLast none last h = cc
last_line_matches-SameLast (some line) last h =
    (line, refl, last_window_line_matches-SameLast line last h)

window_matches_at-WindowAt :
    (lines window : List Text) (first : ℕ)
    → window_matches_at lines window first ≡ true
    → WindowAt lines window first
unfolding window_matches_at
window_matches_at-WindowAt lines window first h =
    let head = window_head window in
    let there = take (length head) (drop first lines) in
    let at = get_elem? lines (first + length head) in
    let (same, last) =
      &&-parts (lines_eq there head) (last_line_matches at (window_last window)) h in
    let (line, is, ends) = last_line_matches-SameLast at (window_last window) last in
    record {
      head_is = (lines_eq_iff there head).0 same;
      last_line = line;
      last_line_is = is;
      same_last = ends;
    }

SameLast-matches :
    (line last : Text) → SameLast line last → last_window_line_matches line last ≡ true
unfolding last_window_line_matches
SameLast-matches line last h =
    ground (arith, text_eq_iff line last, text_eq_iff line (last ++ newline ∷ []))

WindowAt-window_matches_at :
    (lines window : List Text) (first : ℕ)
    → WindowAt lines window first
    → window_matches_at lines window first ≡ true
unfolding window_matches_at last_line_matches
WindowAt-window_matches_at lines window first w =
    rw (w.last_line_is, SameLast-matches w.last_line (window_last window) w.same_last)
      (both
        (lines_eq_iff (take (length (window_head window)) (drop first lines)) (window_head window))
        w.head_is)
  where
    both : {b : Bool} {ls ms : List Text} → ((b ≡ true) ↔ (ls ≡ ms)) → ls ≡ ms → (b && true) ≡ true
    both same e = ap (λ b. b && true) (same.1 e)

module _ (p : ℕ → Bool) where
  select-test : (xs : List ℕ) → All (λ x. p x ≡ true) (select p xs)
  select-test [] = tt
  select-test (x ∷ xs) = elim (Bool-cases (p x)) [
    | inl t ↦ rw t (t, select-test xs)
    | inr f ↦ rw f (select-test xs)
  ]

  select-range_from :
      (start n j : ℕ)
      → start ≤ j
      → j < start + n
      → p j ≡ true
      → any (λ k. j == k) (select p (range_from start n)) ≡ true
  select-range_from start zero j low high h = absurd (omega (arith, low, high))
  select-range_from start (suc n) j low high h = elim (Bool-cases (j == start)) [
    | inl e ↦
        let here : p start ≡ true = subst (λ i. p i ≡ true) ((==_iff j start).0 e) h in
        rw (here, e) refl
    | inr e ↦
        let later = select-range_from (suc start) n j (ground arith) (omega (arith, high)) h in
        ground (arith, later)
  ]

-- The only window of lines that is the old text's, and it is in range.
pub record OnlyWindow (lines window : List Text) (first : ℕ) : Type 0 where
  pub there : WindowAt lines window first
  pub others : (j : ℕ) → j + length window ≤ length lines → WindowAt lines window j → j ≡ first

find_window_starts-OnlyWindow :
    (lines window : List Text) (first : ℕ)
    → find_window_starts lines window ≡ first ∷ []
    → OnlyWindow lines window first
unfolding find_window_starts
find_window_starts-OnlyWindow lines window first h =
    let p = window_matches_at lines window in
    let room = length lines + 1 - length window in
    record {
      there =
          window_matches_at-WindowAt lines window first
            (subst (All (λ k. p k ≡ true)) h (select-test p (range_from 0 room))).0;
      others = λ j inside w.
          let found =
            select-range_from p 0 room j (omega arith) (omega (arith, inside))
              (WindowAt-window_matches_at lines window j w) in
          single (subst (λ ks. any (λ k. j == k) ks ≡ true) h found);
    }
  where
    single : {j k : ℕ} → any (λ i. j == i) (k ∷ []) ≡ true → j ≡ k
    single h = ground arith

module _ (nfkc : Text → Text) where
  abbrev normal : List Text → List Text
  normal lines = map (normalize_for_fuzzy_match nfkc) lines

  -- The span of a replacement: the only window of whole lines with the normalized lines of its old
  -- text, where `lines` are the lines of the content.
  pub record StandsFuzzy (lines : List Text) (index : ℕ) (r : EditReplacement) (s : MatchedSpan)
      : Type 0 where
    pub first : ℕ
    pub only : OnlyWindow (normal lines) (window_of nfkc r.old_text) first
    pub covers :
        LineSpan lines first
          (first + length (window_of nfkc r.old_text) - 1)
          (ends_with_newline (window_last (window_of nfkc r.old_text)))
          s.start
          s.end
    pub index_is : s.edit_index ≡ index
    pub replacement_is : s.replacement ≡ normalize_to_lf r.new_text

  abbrev pub EachStandsFuzzy : List Text → ℕ → List EditReplacement → List MatchedSpan → Type 0
  EachStandsFuzzy lines index [] [] = Unit
  EachStandsFuzzy lines index [] (s ∷ spans) = ⊥
  EachStandsFuzzy lines index (r ∷ rs) [] = ⊥
  EachStandsFuzzy lines index (r ∷ rs) (s ∷ spans) =
      StandsFuzzy lines index r s × EachStandsFuzzy lines (suc index) rs spans

  fuzzy_spans-EachStandsFuzzy :
      (lines : List Text) (path : Text) (total index : ℕ) (rs : List EditReplacement)
      {spans : List MatchedSpan}
      → fuzzy_spans nfkc lines (normal lines) (line_start_offsets lines) path total index rs
        ≡ ok spans
      → EachStandsFuzzy lines index rs spans
  unfolding fuzzy_spans
  fuzzy_spans-EachStandsFuzzy lines path total index [] h =
      subst (EachStandsFuzzy lines index []) (ok-injective h) tt
  fuzzy_spans-EachStandsFuzzy lines path total index (r ∷ rs) h =
      let window = window_of nfkc r.old_text in
      let starts = find_window_starts (normal lines) window in
      let (first, unique, h1) = bind-ok (require_unique_match starts path index total) _ h in
      let (span, at, h2) =
        bind-ok
          (window_char_span lines (line_start_offsets lines) first (first + length window - 1)
            (ends_with_newline (window_last window)))
          _ h1 in
      let (spans, later, h3) =
        bind-ok
          (fuzzy_spans nfkc lines (normal lines) (line_start_offsets lines) path total (suc index)
            rs)
          _ h2 in
      subst (EachStandsFuzzy lines index (r ∷ rs)) (ok-injective h3) (
        record {
          first = first;
          only =
              find_window_starts-OnlyWindow (normal lines) window first
                (require_unique_match-single starts path index total unique);
          covers =
              window_char_span-LineSpan lines first (first + length window - 1)
                (ends_with_newline (window_last window)) at;
          index_is = refl;
          replacement_is = refl;
        },
        fuzzy_spans-EachStandsFuzzy lines path total (suc index) rs later,
      )

  -- The spans that fuzzy matching accepts are one for each replacement, in their order: whole lines of
  -- the content, whose normalized texts are those of the lines of its old text, and the only such
  -- lines; the newline of the last line is part of the span unless the old text does not claim it.
  pub match_fuzzy_spans-EachStandsFuzzy :
      (content path : Text) (rs : List EditReplacement) {spans : List MatchedSpan}
      → match_fuzzy_spans nfkc content rs path ≡ ok spans
      → EachStandsFuzzy (terminated_lines content) 0 rs spans
  unfolding match_fuzzy_spans
  match_fuzzy_spans-EachStandsFuzzy content path rs h =
      let lines = terminated_lines content in
      let (found, matched, h1) =
        bind-ok
          (fuzzy_spans nfkc lines (normal lines) (line_start_offsets lines) path (length rs) 0 rs) _
          h in
      let (_, valid, h2) = bind-ok (validate_non_overlapping found path) _ h1 in
      subst (EachStandsFuzzy lines 0 rs) (ok-injective h2)
        (fuzzy_spans-EachStandsFuzzy lines path (length rs) 0 rs matched)
