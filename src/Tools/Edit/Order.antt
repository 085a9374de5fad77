-- ===== src/Tools/Edit/Order.antt =====
-- tile/tools/edit.py: spans in order, and what sorting keeps.
use mathlib.Core.List.{reverse-cons}
use piy.Base.{
  ℕ, ◌≤◌, ◌<◌, Text, List, [], ◌∷◌, ◌++◌, reverse, ◌≡◌, ◌≢◌, refl, sym, ap, ◌∙◌, ◌⊎◌, inl, inr,
  Bool, true, false, leb, if◌then◌else◌, arith, All, All-map, All-append, Bool-cases,
}
use piy.Tools.Edit.Errors.{ok}
use piy.Tools.Edit.Spans.{
  MatchedSpan, insert_span, sort_spans, reject_overlaps, validate_non_overlapping,
}

module _ {ℓ} (R : MatchedSpan → MatchedSpan → Type ℓ) where
  -- A relation between any two spans of a list.
  abbrev pub Pairs : List MatchedSpan → Type ℓ
  Pairs [] = Unit
  Pairs (s ∷ spans) = All (R s) spans × Pairs spans

module _ {ℓ} (P : MatchedSpan → Type ℓ) where
  pub All-insert_span :
      (s : MatchedSpan) (spans : List MatchedSpan) → P s → All P spans → All P (insert_span s spans)
  unfolding insert_span
  All-insert_span s [] h rest = (h, tt)
  All-insert_span s (t ∷ spans) h rest = elim (Bool-cases (leb s.start t.start)) [
    | inl e ↦ rw e (h, rest)
    | inr e ↦ rw e (rest.0, All-insert_span s spans h rest.1)
  ]

  pub insert_span-All :
      (s : MatchedSpan) (spans : List MatchedSpan) → All P (insert_span s spans) → P s × All P spans
  unfolding insert_span
  insert_span-All s [] h = h
  insert_span-All s (t ∷ spans) h = by_test (leb s.start t.start) (λ r. insert_span-All s spans r) h
    where
      by_test :
          (b : Bool)
          → (All P (insert_span s spans) → P s × All P spans)
          → All P (if b then s ∷ t ∷ spans else t ∷ insert_span s spans)
          → P s × All P (t ∷ spans)
      by_test true later h = h
      by_test false later h = let (hs, rest) = later h.1 in (hs, (h.0, rest))

  pub All-sort_spans : (spans : List MatchedSpan) → All P spans → All P (sort_spans spans)
  unfolding sort_spans
  All-sort_spans [] h = tt
  All-sort_spans (s ∷ spans) h = All-insert_span s (sort_spans spans) h.0 (All-sort_spans spans h.1)

  pub sort_spans-All : (spans : List MatchedSpan) → All P (sort_spans spans) → All P spans
  unfolding sort_spans
  sort_spans-All [] h = tt
  sort_spans-All (s ∷ spans) h =
      let (hs, rest) = insert_span-All s (sort_spans spans) h in (hs, sort_spans-All spans rest)

module _ {ℓ} (R : MatchedSpan → MatchedSpan → Type ℓ)
    (R_sym : (s t : MatchedSpan) → R s t → R t s) where
  insert_span-Pairs :
      (s : MatchedSpan) (spans : List MatchedSpan)
      → Pairs R (insert_span s spans)
      → All (R s) spans × Pairs R spans
  unfolding insert_span
  insert_span-Pairs s [] h = h
  insert_span-Pairs s (t ∷ spans) h =
      by_test (leb s.start t.start) (λ r. insert_span-Pairs s spans r) h
    where
      by_test :
          (b : Bool)
          → (Pairs R (insert_span s spans) → All (R s) spans × Pairs R spans)
          → Pairs R (if b then s ∷ t ∷ spans else t ∷ insert_span s spans)
          → All (R s) (t ∷ spans) × Pairs R (t ∷ spans)
      by_test true later h = h
      by_test false later h =
          let (ts, rest) = insert_span-All (R t) s spans h.0 in
          let (ss, tail) = later h.1 in ((R_sym t s ts, ss), (rest, tail))

  -- What holds between any two spans of the sorted list holds between any two of the list.
  pub sort_spans-Pairs : (spans : List MatchedSpan) → Pairs R (sort_spans spans) → Pairs R spans
  unfolding sort_spans
  sort_spans-Pairs [] h = tt
  sort_spans-Pairs (s ∷ spans) h =
      let (ss, rest) = insert_span-Pairs s (sort_spans spans) h in
      (sort_spans-All (R s) spans ss, sort_spans-Pairs spans rest)

-- Spans from position n on, each behind the one before it, within a text of that length.
abbrev pub Ascending : ℕ → ℕ → List MatchedSpan → Type 0
Ascending size n [] = Unit
Ascending size n (s ∷ spans) =
    (n ≤ s.start) × (s.start ≤ s.end) × (s.end ≤ size) × Ascending size s.end spans

-- The span lies within a text of that length.
abbrev pub Within : ℕ → MatchedSpan → Type 0
Within size s = (s.start ≤ s.end) × (s.end ≤ size)

abbrev pub NotEmpty : MatchedSpan → Type 0
NotEmpty s = s.start < s.end

abbrev pub Apart : MatchedSpan → MatchedSpan → Type 0
Apart s t = (s.end ≤ t.start) ⊎ (t.end ≤ s.start)

abbrev pub OtherStart : MatchedSpan → MatchedSpan → Type 0
OtherStart s t = s.start ≢ t.start

reject_overlaps-next :
    (s t : MatchedSpan) (spans : List MatchedSpan) (path : Text)
    → reject_overlaps (s ∷ t ∷ spans) path ≡ ok tt
    → (s.end ≤ t.start) × (reject_overlaps (t ∷ spans) path ≡ ok tt)
unfolding reject_overlaps
reject_overlaps-next s t spans path h = ground arith

abbrev StartsFrom : ℕ → List MatchedSpan → Type 0
StartsFrom n [] = Unit
StartsFrom n (s ∷ spans) = n ≤ s.start

reject_overlaps-StartsFrom :
    (size n : ℕ) (spans : List MatchedSpan) (path : Text)
    → StartsFrom n spans
    → All (Within size) spans
    → reject_overlaps spans path ≡ ok tt
    → Ascending size n spans
reject_overlaps-StartsFrom size n [] path low within h = tt
reject_overlaps-StartsFrom size n (s ∷ []) path low within h = (low, within.0.0, within.0.1, tt)
reject_overlaps-StartsFrom size n (s ∷ t ∷ spans) path low within h =
    let (apart, rest) = reject_overlaps-next s t spans path h in
    (
      low,
      within.0.0,
      within.0.1,
      reject_overlaps-StartsFrom size s.end (t ∷ spans) path apart within.1 rest,
    )

StartsFrom-zero : (spans : List MatchedSpan) → StartsFrom 0 spans
StartsFrom-zero [] = tt
StartsFrom-zero (s ∷ spans) = omega arith

-- The check passes only spans that are ascending once they are sorted.
pub validate_non_overlapping-Ascending :
    (size : ℕ) (spans : List MatchedSpan) (path : Text)
    → All (Within size) spans
    → validate_non_overlapping spans path ≡ ok tt
    → Ascending size 0 (sort_spans spans)
unfolding validate_non_overlapping
validate_non_overlapping-Ascending size spans path within h =
    reject_overlaps-StartsFrom size 0 (sort_spans spans) path (StartsFrom-zero (sort_spans spans))
      (All-sort_spans (Within size) spans within) h

pub Ascending-below :
    (size n m : ℕ) (spans : List MatchedSpan)
    → m ≤ n
    → Ascending size n spans
    → Ascending size m spans
Ascending-below size n m [] le h = tt
Ascending-below size n m (s ∷ spans) le h = (omega (arith, le, h.0), h.1, h.2, h.3)

Ascending-All :
    (size n : ℕ) (m : ℕ) (spans : List MatchedSpan)
    → m ≤ n
    → Ascending size n spans
    → All (λ s. m ≤ s.start) spans
Ascending-All size n m [] le h = tt
Ascending-All size n m (s ∷ spans) le h =
    (omega (arith, le, h.0), Ascending-All size s.end m spans (omega (arith, le, h.0, h.1)) h.3)

pub Ascending-Apart :
    (size n : ℕ) (spans : List MatchedSpan) → Ascending size n spans → Pairs Apart spans
Ascending-Apart size n [] h = tt
Ascending-Apart size n (s ∷ spans) h = (
  All-map (λ t. s.end ≤ t.start) (Apart s) (λ t le. inl le) spans
      (Ascending-All size s.end s.end spans (omega arith) h.3),
  Ascending-Apart size s.end spans h.3,
)

pub Ascending-OtherStart :
    (size n : ℕ) (spans : List MatchedSpan)
    → Ascending size n spans
    → All NotEmpty spans
    → Pairs OtherStart spans
Ascending-OtherStart size n [] h full = tt
Ascending-OtherStart size n (s ∷ spans) h full = (
  All-map (λ t. s.end ≤ t.start) (OtherStart s) (λ t le e. absurd (omega (arith, full.0, le, e)))
      spans (Ascending-All size s.end s.end spans (omega arith) h.3),
  Ascending-OtherStart size s.end spans h.3 full.1,
)

insert_span_swap :
    (s t : MatchedSpan) (spans : List MatchedSpan)
    → OtherStart s t
    → insert_span s (insert_span t spans) ≡ insert_span t (insert_span s spans)
unfolding insert_span
insert_span_swap s t [] other = ground arith
insert_span_swap s t (r ∷ spans) other = ground (arith, insert_span_swap s t spans other)

sort_spans-snoc :
    (spans : List MatchedSpan) (s : MatchedSpan)
    → All (OtherStart s) spans
    → sort_spans (spans ++ s ∷ []) ≡ insert_span s (sort_spans spans)
unfolding sort_spans
sort_spans-snoc [] s other = refl
sort_spans-snoc (t ∷ spans) s other =
    ap (insert_span t) (sort_spans-snoc spans s other.1)
    ∙ sym (insert_span_swap s t (sort_spans spans) other.0)

All-reverse {ℓ} :
    (P : MatchedSpan → Type ℓ) (spans : List MatchedSpan) → All P spans → All P (reverse spans)
All-reverse P [] h = tt
All-reverse P (s ∷ spans) h =
    rw reverse-cons (All-append P (reverse spans) (s ∷ []) (All-reverse P spans h.1) (h.0, tt))

-- Where no two spans start at one place, the order of the list does not matter to the sorted one.
pub sort_spans-reverse :
    (spans : List MatchedSpan)
    → Pairs OtherStart spans
    → sort_spans (reverse spans) ≡ sort_spans spans
unfolding sort_spans
sort_spans-reverse [] h = refl
sort_spans-reverse (s ∷ spans) h = rw reverse-cons (
    sort_spans-snoc (reverse spans) s (All-reverse (OtherStart s) spans h.0)
    ∙ ap (insert_span s) (sort_spans-reverse spans h.1))
