-- ===== src/Tools/Edit/Missing.antt =====
-- tile/tools/edit.py: when exact matching raises `MatchNotFound`.
use piy.Base.{
  ℕ, suc, Text, List, [], ◌∷◌, Bool-cases, ltb, length, text_eq, All, ◌⊎◌, inl, inr, ◌≡◌, ◌≢◌, refl,
  arith,
}
use mathlib.Core.Path.{subst}
use piy.Tools.Edit.Endings.{normalize_to_lf}
use piy.Tools.Edit.RoundTrip.{normalize_to_lf-eq-nil}
use piy.Tools.Edit.Errors.{EditError, match_not_found, Result, ok, err, ◌>>=◌}
use piy.Tools.Edit.Spans.{
  EditReplacement, MatchedSpan, find_text_starts, require_unique_match, exact_spans,
  match_exact_spans, reject_overlaps, sort_spans, validate_non_overlapping, splice_text_spans,
}
use piy.Tools.Edit.Scan.{
  Scan, Only, Scan-Only, Nowhere, Scan-Nowhere, find_text_starts-Scan, find_text_starts_returns,
}
use piy.Tools.Edit.Exact.{HasOldText, require_unique_match-single}
use piy.Tools.Edit.Apply.{build_application, apply_exact_replacements}

-- Some old text stands nowhere in the content, and each one before it at one place only, up to
-- overlaps with that place.
abbrev pub SomeNowhere : Text → List EditReplacement → Type 0
SomeNowhere content [] = ⊥
SomeNowhere content (r ∷ rs) =
    Nowhere content (normalize_to_lf r.old_text)
    ⊎ ((start : ℕ) × Only content (normalize_to_lf r.old_text) start × SomeNowhere content rs)

bind-err :
    {A B : Type 0} (step : Result A) (next : A → Result B) {e : EditError}
    → (step >>= next) ≡ err e
    → (step ≡ err e) ⊎ ((a : A) × (step ≡ ok a) × (next a ≡ err e))
bind-err (err e) next h = inl cc
bind-err (ok a) next h = inr (a, refl, h)

module _ {message : Text} where
  require_unique_match-missing :
      (starts : List ℕ) (path : Text) (index total : ℕ)
      → require_unique_match starts path index total ≡ err (match_not_found message)
      → starts ≡ []
  unfolding require_unique_match
  require_unique_match-missing [] path index total h = refl
  require_unique_match-missing (k ∷ []) path index total h = cc
  require_unique_match-missing (k ∷ l ∷ ks) path index total h = cc

  -- The other errors are of another kind.
  reject_overlaps-found :
      (spans : List MatchedSpan) (path : Text)
      → reject_overlaps spans path ≢ err (match_not_found message)
  unfolding reject_overlaps
  reject_overlaps-found [] path h = cc
  reject_overlaps-found (s ∷ []) path h = cc
  reject_overlaps-found (s ∷ t ∷ spans) path h = elim (Bool-cases (ltb t.start s.end)) [
    | inl overlap ↦ ground (arith, h, overlap)
    | inr apart ↦ reject_overlaps-found (t ∷ spans) path (ground (arith, h, apart))
  ]

  build_application-found :
      (content new path : Text) (rs : List EditReplacement)
      → build_application content new rs path ≢ err (match_not_found message)
  unfolding build_application
  build_application-found content new path rs h = elim (Bool-cases (text_eq content new)) [
    | inl same ↦ ground (arith, h, same)
    | inr changed ↦ ground (arith, h, changed)
  ]

  exact_spans-missing :
      (content path : Text) (total index : ℕ) (rs : List EditReplacement)
      → All HasOldText rs
      → exact_spans content path total index rs ≡ err (match_not_found message)
      → SomeNowhere content rs
  unfolding exact_spans
  exact_spans-missing content path total index [] full h = absurd cc
  exact_spans-missing content path total index (r ∷ rs) full h =
      let old : Text = normalize_to_lf r.old_text in
      let (found_at, found) =
        find_text_starts_returns content old (λ e. full.0 (normalize_to_lf-eq-nil r.old_text e)) in
      elim (bind-err (find_text_starts content old) _ h) [
        | inl e ↦ absurd cc
        | inr (starts, is, h1) ↦
            let scan : Scan content old 0 starts = find_text_starts-Scan content old is in
            elim (bind-err (require_unique_match starts path index total) _ h1) [
              | inl e ↦ inl (
                  Scan-Nowhere content old (
                    subst (Scan content old 0)
                      (require_unique_match-missing starts path index total e) scan))
              | inr (start, unique, h2) ↦
                  elim (bind-err (exact_spans content path total (suc index) rs) _ h2) [
                    | inl e ↦ inr (
                      start,
                      Scan-Only content old start (
                          subst (Scan content old 0)
                            (require_unique_match-single starts path index total unique) scan),
                      exact_spans-missing content path total (suc index) rs full.1 e,
                    )
                    | inr (spans, later, h3) ↦ absurd cc
                  ]
            ]
      ]

  match_exact_spans-missing :
      (content path : Text) (rs : List EditReplacement)
      → All HasOldText rs
      → match_exact_spans content rs path ≡ err (match_not_found message)
      → SomeNowhere content rs
  unfolding match_exact_spans validate_non_overlapping
  match_exact_spans-missing content path rs full h =
      elim (bind-err (exact_spans content path (length rs) 0 rs) _ h) [
        | inl e ↦ exact_spans-missing content path (length rs) 0 rs full e
        | inr (spans, is, h1) ↦ elim (bind-err (validate_non_overlapping spans path) _ h1) [
          | inl e ↦ absurd (reject_overlaps-found (sort_spans spans) path e)
          | inr (u, fine, h2) ↦ absurd cc
        ]
      ]

  -- Exact matching reports a missing text only where one stands nowhere.
  pub apply_exact_replacements-missing :
      (content path : Text) (rs : List EditReplacement)
      → All HasOldText rs
      → apply_exact_replacements content rs path ≡ err (match_not_found message)
      → SomeNowhere content rs
  unfolding apply_exact_replacements
  apply_exact_replacements-missing content path rs full h =
      elim (bind-err (match_exact_spans content rs path) _ h) [
        | inl e ↦ match_exact_spans-missing content path rs full e
        | inr (spans, is, h1) ↦
            absurd (build_application-found content (splice_text_spans content spans) path rs h1)
      ]
