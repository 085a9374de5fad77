-- ===== src/Tools/Edit/Told.antt =====
-- tile/tools/edit.py: results that the tool tells of, and that exact replacements come to one.
use mathlib.Core.Path.{subst}
use piy.Base.{
  ℕ, suc, Text, text_eq, List, [], ◌∷◌, ◌≡◌, ◌≢◌, refl, sym, Bool, true, false, ltb, length,
  if◌then◌else◌, All,
}
use piy.Tools.Edit.Endings.{normalize_to_lf}
use piy.Tools.Edit.Errors.{match_not_found, tool_error, Result, ok, err, ◌>>=◌}
use piy.Tools.Edit.RoundTrip.{normalize_to_lf-eq-nil}
use piy.Tools.Edit.Spans.{
  EditReplacement, MatchedSpan, find_text_starts, require_unique_match, validate_non_overlapping,
  reject_overlaps, sort_spans, exact_spans, match_exact_spans, splice_text_spans,
}
use piy.Tools.Edit.Scan.{find_text_starts_returns}
use piy.Tools.Edit.Exact.{HasOldText}
use piy.Tools.Edit.Apply.{build_application, apply_exact_replacements}

-- A result, or an error that the tool raises for the model to read.
pub data Told {A : Type 0} : Result A → Type 0 where
  result : (a : A) → Told (ok a)
  not_found : (message : Text) → Told (err (match_not_found message))
  refused : (message : Text) → Told (err (tool_error message))

pub Told-bind :
    {A B : Type 0} (m : Result A) (f : A → Result B)
    → Told m
    → ((a : A) → m ≡ ok a → Told (f a))
    → Told (m >>= f)
Told-bind m f (result a) next = next a refl
Told-bind m f (not_found message) next = not_found message
Told-bind m f (refused message) next = refused message

pub require_unique_match-Told :
    (starts : List ℕ) (path : Text) (index total : ℕ)
    → Told (require_unique_match starts path index total)
unfolding require_unique_match
require_unique_match-Told [] path index total = not_found _
require_unique_match-Told (k ∷ []) path index total = result k
require_unique_match-Told (k ∷ l ∷ ks) path index total = refused _

pub Told-if : {A : Type 0} (b : Bool) (x y : Result A) → Told x → Told y → Told (if b then x else y)
Told-if true x y hx hy = hx
Told-if false x y hx hy = hy

reject_overlaps-Told : (spans : List MatchedSpan) (path : Text) → Told (reject_overlaps spans path)
unfolding reject_overlaps
reject_overlaps-Told [] path = result tt
reject_overlaps-Told (s ∷ []) path = result tt
reject_overlaps-Told (s ∷ t ∷ spans) path =
    Told-if (ltb t.start s.end) _ _ (refused _) (reject_overlaps-Told (t ∷ spans) path)

-- The check, and then the spans themselves.
pub checked-Told :
    (spans : List MatchedSpan) (path : Text)
    → Told (validate_non_overlapping spans path >>= λ _. ok spans)
unfolding validate_non_overlapping
checked-Told spans path =
    Told-bind (reject_overlaps (sort_spans spans) path) _
      (reject_overlaps-Told (sort_spans spans) path) (λ _ e. result spans)

pub build_application-Told :
    (content new_content path : Text) (rs : List EditReplacement)
    → Told (build_application content new_content rs path)
unfolding build_application
build_application-Told content new_content path rs =
    Told-if (text_eq content new_content) _ _ (refused _) (result _)

find_text_starts-Told :
    (content old_text : Text) → old_text ≢ [] → Told (find_text_starts content old_text)
find_text_starts-Told content old_text full =
    let (starts, is) = find_text_starts_returns content old_text full in
    subst Told (sym is) (result starts)

exact_spans-Told :
    (content path : Text) (total index : ℕ) (rs : List EditReplacement)
    → All HasOldText rs
    → Told (exact_spans content path total index rs)
unfolding exact_spans
exact_spans-Told content path total index [] full = result []
exact_spans-Told content path total index (r ∷ rs) full =
    let old = normalize_to_lf r.old_text in
    Told-bind (find_text_starts content old) _
      (find_text_starts-Told content old (λ e. full.0 (normalize_to_lf-eq-nil r.old_text e)))
      (λ starts _.
        Told-bind (require_unique_match starts path index total) _
          (require_unique_match-Told starts path index total)
          (λ start _.
            Told-bind (exact_spans content path total (suc index) rs) _
              (exact_spans-Told content path total (suc index) rs full.1) (λ spans _. result _)))

pub apply_exact_replacements-Told :
    (content path : Text) (rs : List EditReplacement)
    → All HasOldText rs
    → Told (apply_exact_replacements content rs path)
unfolding apply_exact_replacements match_exact_spans
apply_exact_replacements-Told content path rs full =
    Told-bind (match_exact_spans content rs path) _
      (Told-bind (exact_spans content path (length rs) 0 rs) _
        (exact_spans-Told content path (length rs) 0 rs full) (λ spans _. checked-Told spans path))
      (λ spans _. build_application-Told content (splice_text_spans content spans) path rs)
