-- ===== src/Tools/Edit/Exact.antt =====
-- tile/tools/edit.py: what exact matching accepts, and the content that comes of it.
use piy.Base.{
  false_ne_true, inl, inr, ℕ, suc, ◌+◌, Text, List, [], ◌∷◌, ◌≡◌, ◌≢◌, refl, sym, ap, ◌∙◌,
  if◌then◌else◌, length, text_eq, text_eq_iff, Bool, true, false, All, arith,
}
use mathlib.Core.Path.{subst}
use piy.Tools.Edit.Endings.{normalize_to_lf}
use piy.Tools.Edit.RoundTrip.{normalize_to_lf-eq-nil}
use piy.Tools.Edit.Errors.{ok, err, tool_error, no_change_error, bind-ok, ok-injective}
use piy.Tools.Edit.Spans.{
  EditReplacement, MatchedSpan, find_text_starts, require_unique_match, exact_spans,
  match_exact_spans, validate_non_overlapping, sort_spans, splice_text_spans,
}
use piy.Tools.Edit.Scan.{Scan, Only, Scan-Only, find_text_starts-Scan, length_pos}
use piy.Tools.Edit.Order.{
  Pairs, Apart, Within, NotEmpty, sort_spans-Pairs, Ascending-Apart,
  validate_non_overlapping-Ascending,
}
use piy.Tools.Edit.Splice.{replaced, splice_text_spans-replaced}
use piy.Tools.Edit.Apply.{ReplacementApplication, build_application, apply_exact_replacements}

-- The span of a replacement: the only place where its old text stands, up to overlaps with it.
pub record Stands (content : Text) (index : ℕ) (r : EditReplacement) (s : MatchedSpan)
    : Type 0 where
  pub index_is : s.edit_index ≡ index
  pub only : Only content (normalize_to_lf r.old_text) s.start
  pub end_is : s.end ≡ s.start + length (normalize_to_lf r.old_text)
  pub replacement_is : s.replacement ≡ normalize_to_lf r.new_text

-- One span for each replacement, in order.
abbrev pub EachStands : Text → ℕ → List EditReplacement → List MatchedSpan → Type 0
EachStands content index [] [] = Unit
EachStands content index [] (s ∷ spans) = ⊥
EachStands content index (r ∷ rs) [] = ⊥
EachStands content index (r ∷ rs) (s ∷ spans) =
    Stands content index r s × EachStands content (suc index) rs spans

pub require_unique_match-single :
    (starts : List ℕ) (path : Text) (index total : ℕ) {start : ℕ}
    → require_unique_match starts path index total ≡ ok start
    → starts ≡ start ∷ []
unfolding require_unique_match
require_unique_match-single [] path index total h = cc
require_unique_match-single (k ∷ []) path index total h = cc
require_unique_match-single (k ∷ l ∷ ks) path index total h = cc

exact_spans-EachStands :
    (content path : Text) (total index : ℕ) (rs : List EditReplacement) {spans : List MatchedSpan}
    → exact_spans content path total index rs ≡ ok spans
    → EachStands content index rs spans
unfolding exact_spans
exact_spans-EachStands content path total index [] h =
    subst (EachStands content index []) (ok-injective h) tt
exact_spans-EachStands content path total index (r ∷ rs) h =
    let old = normalize_to_lf r.old_text in
    let (starts, found, h1) = bind-ok (find_text_starts content old) _ h in
    let (start, unique, h2) = bind-ok (require_unique_match starts path index total) _ h1 in
    let (spans, later, h3) = bind-ok (exact_spans content path total (suc index) rs) _ h2 in
    let single = require_unique_match-single starts path index total unique in
    let scan = subst (Scan content old 0) single (find_text_starts-Scan content old found) in
    subst (EachStands content index (r ∷ rs)) (ok-injective h3) (
      record {
        index_is = refl;
        only = Scan-Only content old start scan;
        end_is = refl;
        replacement_is = refl;
      },
      exact_spans-EachStands content path total (suc index) rs later,
    )

abbrev pub HasOldText : EditReplacement → Type 0
HasOldText r = r.old_text ≢ []

EachStands-Within :
    (content : Text) (index : ℕ) (rs : List EditReplacement) (spans : List MatchedSpan)
    → EachStands content index rs spans
    → All (Within (length content)) spans
EachStands-Within content index [] [] h = tt
EachStands-Within content index [] (s ∷ spans) h = elim h [ ]
EachStands-Within content index (r ∷ rs) [] h = elim h [ ]
EachStands-Within content index (r ∷ rs) (s ∷ spans) h = (
  (omega (arith, h.0.end_is), omega (arith, h.0.end_is, h.0.only.in_range)),
  EachStands-Within content (suc index) rs spans h.1,
)

EachStands-NotEmpty :
    (content : Text) (index : ℕ) (rs : List EditReplacement) (spans : List MatchedSpan)
    → All HasOldText rs
    → EachStands content index rs spans
    → All NotEmpty spans
EachStands-NotEmpty content index [] [] full h = tt
EachStands-NotEmpty content index [] (s ∷ spans) full h = elim h [ ]
EachStands-NotEmpty content index (r ∷ rs) [] full h = elim h [ ]
EachStands-NotEmpty content index (r ∷ rs) (s ∷ spans) full h =
    let some_text : normalize_to_lf r.old_text ≢ [] =
      λ e. full.0 (normalize_to_lf-eq-nil r.old_text e) in
    (
      omega (arith, h.0.end_is, length_pos (normalize_to_lf r.old_text) some_text),
      EachStands-NotEmpty content (suc index) rs spans full.1 h.1,
    )

-- Accepted spans: each stands for its replacement, and no two of them share a character.
pub record Accepted (content : Text) (rs : List EditReplacement) (spans : List MatchedSpan)
    : Type 0 where
  pub each : EachStands content 0 rs spans
  pub apart : Pairs Apart spans

Apart-sym : (s t : MatchedSpan) → Apart s t → Apart t s
Apart-sym s t (inl h) = inr h
Apart-sym s t (inr h) = inl h

-- The spans that exact matching accepts are one for each replacement, in their order: its old text,
-- with "\n" for every line ending, stands at the span, and elsewhere only where that overlaps the
-- span; and any two spans are disjoint.
pub match_exact_spans-Accepted :
    (content path : Text) (rs : List EditReplacement) {spans : List MatchedSpan}
    → match_exact_spans content rs path ≡ ok spans
    → Accepted content rs spans
unfolding match_exact_spans
match_exact_spans-Accepted content path rs h =
    let (found, matched, h1) = bind-ok (exact_spans content path (length rs) 0 rs) _ h in
    let (_, valid, h2) = bind-ok (validate_non_overlapping found path) _ h1 in
    let each = exact_spans-EachStands content path (length rs) 0 rs matched in
    subst (Accepted content rs) (ok-injective h2) (record {
      each = each;
      apart = sort_spans-Pairs Apart Apart-sym found (
          Ascending-Apart (length content) 0 (sort_spans found) (
            validate_non_overlapping-Ascending (length content) found path
              (EachStands-Within content 0 rs found each) valid));
    })

match_exact_spans-valid :
    (content path : Text) (rs : List EditReplacement) {spans : List MatchedSpan}
    → match_exact_spans content rs path ≡ ok spans
    → validate_non_overlapping spans path ≡ ok tt
unfolding match_exact_spans
match_exact_spans-valid content path rs h =
    let (found, matched, h1) = bind-ok (exact_spans content path (length rs) 0 rs) _ h in
    let (_, valid, h2) = bind-ok (validate_non_overlapping found path) _ h1 in
    subst (λ s. validate_non_overlapping s path ≡ ok tt) (ok-injective h2) valid

-- What exact replacements come to.
pub record Replaces (content : Text) (rs : List EditReplacement) (a : ReplacementApplication)
    : Type 0 where
  pub spans : List MatchedSpan
  pub accepted : Accepted content rs spans
  pub base_is : a.base_content ≡ content
  pub new_is : a.new_content ≡ replaced content 0 (sort_spans spans)
  pub changed : a.new_content ≢ content

pub build_application-ok :
    (content new_content path : Text) (rs : List EditReplacement) {a : ReplacementApplication}
    → build_application content new_content rs path ≡ ok a
    → (a.base_content ≡ content) × (a.new_content ≡ new_content) × (new_content ≢ content)
unfolding build_application
build_application-ok content new_content path rs {a} h =
    by_test (text_eq content new_content) (text_eq_iff content new_content).1 h
  where
    by_test :
        (b : Bool)
        → (content ≡ new_content → b ≡ true)
        → (if b
            then err (tool_error (no_change_error path (length rs)))
            else ok (record { base_content = content; new_content = new_content }))
          ≡ ok a
        → (a.base_content ≡ content) × (a.new_content ≡ new_content) × (new_content ≢ content)
    by_test true same h = cc
    by_test false same h =
        let is = ok-injective h in
        (
          ap (λ t. t.base_content) (sym is),
          ap (λ t. t.new_content) (sym is),
          λ e. absurd (false_ne_true (same (sym e))),
        )

-- Exact replacements with old texts that are not empty, where they are applied: the result is the
-- content with the accepted spans replaced all at once, and it differs from the content.
pub apply_exact_replacements-Replaces :
    (content path : Text) (rs : List EditReplacement) {a : ReplacementApplication}
    → All HasOldText rs
    → apply_exact_replacements content rs path ≡ ok a
    → Replaces content rs a
unfolding apply_exact_replacements
apply_exact_replacements-Replaces content path rs full h =
    let (spans, matched, h1) = bind-ok (match_exact_spans content rs path) _ h in
    let (base, new, differs) =
      build_application-ok content (splice_text_spans content spans) path rs h1 in
    let accepted = match_exact_spans-Accepted content path rs matched in
    record {
      spans = spans;
      accepted = accepted;
      base_is = base;
      new_is =
          new
          ∙ splice_text_spans-replaced content spans path
              (EachStands-Within content 0 rs spans accepted.each)
              (EachStands-NotEmpty content 0 rs spans full accepted.each)
              (match_exact_spans-valid content path rs matched);
      changed = λ e. differs (sym new ∙ e);
    }
