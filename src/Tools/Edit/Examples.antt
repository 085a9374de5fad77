-- ===== src/Tools/Edit/Examples.antt =====
-- tile/tools/edit.py on small files.
use piy.Base.{Text, codes, List, [], ◌∷◌, ◌++◌, ◌≡◌, refl, inr, All, length, find, text_eq, arith}
use piy.Tools.Edit.Endings.{load_file, written_text, byte_order_mark, strip_bom, normalize_to_lf}
use piy.Tools.Edit.Errors.{ok, done}
use piy.Tools.Edit.RoundTrip.{CrlfOnly, end, char, line, load_file-written_text}
use piy.Tools.Edit.Spans.{
  EditReplacement, MatchedSpan, find_text_starts, require_unique_match, match_exact_spans,
  validate_non_overlapping, sort_spans, splice_text_spans,
}
use piy.Tools.Edit.Fuzzy.{match_fuzzy_spans}
use piy.Tools.Edit.Apply.{EditInput, Platform, apply_replacements_with_fallback, edit_tool}
use piy.Tools.Edit.Order.{Within, NotEmpty}
use piy.Tools.Edit.Splice.{replaced, splice_text_spans-replaced}
use piy.Tools.Edit.Exact.{Accepted, match_exact_spans-Accepted}
use piy.Tools.Edit.Lines.{terminated_lines}
use piy.Tools.Edit.FuzzyMatches.{EachStandsFuzzy, match_fuzzy_spans-EachStandsFuzzy}
use piy.Tools.Edit.Told.{Told}
use piy.Tools.Edit.Returns.{apply_replacements_with_fallback-Told}
use piy.Tools.Edit.Settles.{
  Applied, Settled, apply_replacements_with_fallback-Applied, edit_tool-Settled,
}

abbrev dos : Text
dos = byte_order_mark ∷ (97 ∷ 13 ∷ 10 ∷ 98 ∷ [])

abbrev word : Text
word = codes "one two"

abbrev replacements : List EditReplacement
replacements =
    record { old_text = codes "two"; new_text = codes "2" }
    ∷ record { old_text = codes "one"; new_text = codes "1" }
    ∷ []

abbrev spans : List MatchedSpan
spans =
    record { edit_index = 0; start = 4; end = 7; replacement = codes "2" }
    ∷ record { edit_index = 1; start = 0; end = 3; replacement = codes "1" }
    ∷ []

spans_are : match_exact_spans word replacements (codes "f") ≡ ok spans
unfolding match_exact_spans find_text_starts find normalize_to_lf require_unique_match
spans_are = refl

spliced_is : splice_text_spans word spans ≡ codes "1 2"
unfolding splice_text_spans
spliced_is = refl

applied_is :
    apply_replacements_with_fallback (λ t. t) word replacements (codes "f")
    ≡ ok (record { base_content = word; new_content = codes "1 2" })
unfolding apply_replacements_with_fallback text_eq find_text_starts find normalize_to_lf
    require_unique_match
applied_is = refl

-- A blank line found by whole lines is a span without characters; with another span from the same
-- place on, the second splice cuts into the first replacement.
cut_is :
    apply_replacements_with_fallback
      (λ t. t)
      (10 ∷ codes "X")
      (record { old_text = codes "  "; new_text = codes "AB" }
        ∷ record { old_text = 10 ∷ codes "X"; new_text = codes "Q" }
        ∷ [])
      (codes "f")
    ≡ ok (record { base_content = 10 ∷ codes "X"; new_content = codes "Q" ++ (10 ∷ codes "X") })
unfolding apply_replacements_with_fallback text_eq find_text_starts find normalize_to_lf
    require_unique_match
cut_is = refl

dos-CrlfOnly : CrlfOnly (strip_bom dos).1
unfolding strip_bom
dos-CrlfOnly =
    char 97 (13 ∷ 10 ∷ 98 ∷ []) (λ e. omega (arith, e)) (λ e. omega (arith, e))
      (line (98 ∷ []) (char 98 [] (λ e. omega (arith, e)) (λ e. omega (arith, e)) end))

load_file-written_text_example : written_text (load_file dos) (load_file dos).content ≡ dos
load_file-written_text_example = load_file-written_text dos (inr dos-CrlfOnly)

spans-Within : All (Within (length word)) spans
spans-Within = ((omega arith, omega arith), ((omega arith, omega arith), tt))

spans-NotEmpty : All NotEmpty spans
spans-NotEmpty = (omega arith, (omega arith, tt))

spans_valid : validate_non_overlapping spans (codes "f") ≡ ok tt
unfolding validate_non_overlapping
spans_valid = refl

splice_text_spans-replaced_example :
    splice_text_spans word spans ≡ replaced word 0 (sort_spans spans)
splice_text_spans-replaced_example =
    splice_text_spans-replaced word spans (codes "f") spans-Within spans-NotEmpty spans_valid

match_exact_spans-Accepted_example : Accepted word replacements spans
match_exact_spans-Accepted_example =
    match_exact_spans-Accepted word (codes "f") replacements spans_are

apply_replacements_with_fallback-Applied_example :
    Applied (λ t. t) word replacements (record { base_content = word; new_content = codes "1 2" })
apply_replacements_with_fallback-Applied_example =
    apply_replacements_with_fallback-Applied (λ t. t) word (codes "f") replacements applied_is

apply_replacements_with_fallback-Told_example :
    Told (apply_replacements_with_fallback (λ t. t) word replacements (codes "f"))
apply_replacements_with_fallback-Told_example =
    apply_replacements_with_fallback-Told (λ t. t) word (codes "f") replacements

-- A line that differs in its trailing blanks.
abbrev near : List EditReplacement
near = record { old_text = codes "b  "; new_text = codes "c" } ∷ []

abbrev near_spans : List MatchedSpan
near_spans = record { edit_index = 0; start = 2; end = 3; replacement = codes "c" } ∷ []

near_spans_are :
    match_fuzzy_spans (λ t. t) (97 ∷ 10 ∷ 98 ∷ 10 ∷ []) near (codes "f") ≡ ok near_spans
unfolding match_fuzzy_spans text_eq normalize_to_lf require_unique_match
near_spans_are = refl

match_fuzzy_spans-EachStandsFuzzy_example :
    EachStandsFuzzy (λ t. t) (terminated_lines (97 ∷ 10 ∷ 98 ∷ 10 ∷ [])) 0 near near_spans
match_fuzzy_spans-EachStandsFuzzy_example =
    match_fuzzy_spans-EachStandsFuzzy (λ t. t) (97 ∷ 10 ∷ 98 ∷ 10 ∷ []) (codes "f") near
      near_spans_are

-- A disk with one file on it.
abbrev platform : Platform Text
platform = record {
  resolve_to_cwd = λ path cwd. cwd ++ path;
  read_text = λ path disk. done disk;
  write_text = λ path text disk. (done tt, text);
  unified_diff = λ old new path. new;
  nfkc = λ t. t;
}

abbrev input : EditInput
input = record { path = codes "f"; edits = replacements }

edit_tool-Settled_example :
    Settled platform input (codes "/") word (edit_tool platform input (codes "/") word)
edit_tool-Settled_example = edit_tool-Settled platform input (codes "/") word
