-- ===== src/Tools/Edit/Splice.antt =====
-- tile/tools/edit.py: splicing from the back is replacing every span at once, from the front.
use mathlib.Core.List.{reverse-cons}
use piy.Base.{
  ℕ, zero, suc, ◌-◌, ◌≤◌, Text, List, [], ◌∷◌, ◌++◌, reverse, ◌≡◌, refl, sym, ap, ◌∙◌, length, take,
  drop, All, arith,
}
use piy.Tools.Edit.Errors.{ok}
use piy.Tools.Edit.Spans.{
  MatchedSpan, sort_spans, splice_span, splice_all, splice_text_spans, validate_non_overlapping,
}
use piy.Tools.Edit.Order.{
  Ascending, Ascending-below, Within, NotEmpty, All-sort_spans, validate_non_overlapping-Ascending,
  Ascending-OtherStart, OtherStart, sort_spans-Pairs, sort_spans-reverse,
}

-- The content from a position on, with the spans replaced, in their order: what stands between them
-- stays, and each of them makes room for its replacement.
abbrev pub replaced : Text → ℕ → List MatchedSpan → Text
replaced content position [] = drop position content
replaced content position (s ∷ spans) =
    take (s.start - position) (drop position content)
    ++ (s.replacement ++ replaced content s.end spans)

take-within : (n m : ℕ) (s t : Text) → n ≤ m → m ≤ length s → take n (take m s ++ t) ≡ take n s
take-within zero m s t h k = refl
take-within (suc n) m [] t h k = absurd (omega (arith, h, k))
take-within (suc n) zero (c ∷ s) t h k = absurd (omega (arith, h))
take-within (suc n) (suc m) (c ∷ s) t h k =
    ap (λ r. c ∷ r) (take-within n m s t (omega (arith, h)) (omega (arith, k)))

drop-within :
    (n m : ℕ) (s t : Text)
    → n ≤ m
    → m ≤ length s
    → drop n (take m s ++ t) ≡ take (m - n) (drop n s) ++ t
drop-within zero m s t h k = ap (λ i. take i s ++ t) (omega arith)
drop-within (suc n) m [] t h k = absurd (omega (arith, h, k))
drop-within (suc n) zero (c ∷ s) t h k = absurd (omega (arith, h))
drop-within (suc n) (suc m) (c ∷ s) t h k =
    drop-within n m s t (omega (arith, h)) (omega (arith, k))
    ∙ ap (λ i. take i (drop n s) ++ t) (omega arith)

-- Before the first span nothing has changed.
replaced-take :
    (content : Text) (n : ℕ) (spans : List MatchedSpan)
    → n ≤ length content
    → Ascending (length content) n spans
    → take n (replaced content 0 spans) ≡ take n content
replaced-take content n [] h up = refl
replaced-take content n (s ∷ spans) h up =
    ap (λ i. take n (take i content ++ (s.replacement ++ replaced content s.end spans)))
      (omega arith)
    ∙ take-within n s.start content (s.replacement ++ replaced content s.end spans) up.0
        (omega (arith, up.1, up.2))

replaced-drop :
    (content : Text) (n : ℕ) (spans : List MatchedSpan)
    → n ≤ length content
    → Ascending (length content) n spans
    → drop n (replaced content 0 spans) ≡ replaced content n spans
replaced-drop content n [] h up = refl
replaced-drop content n (s ∷ spans) h up =
    ap (λ i. drop n (take i content ++ (s.replacement ++ replaced content s.end spans)))
      (omega arith)
    ∙ drop-within n s.start content (s.replacement ++ replaced content s.end spans) up.0
        (omega (arith, up.1, up.2))

splice_all-snoc :
    (content : Text) (spans : List MatchedSpan) (s : MatchedSpan)
    → splice_all content (spans ++ s ∷ []) ≡ splice_span (splice_all content spans) s
unfolding splice_all
splice_all-snoc content [] s = refl
splice_all-snoc content (t ∷ spans) s = splice_all-snoc (splice_span content t) spans s

splice_span-first :
    (content : Text) (n : ℕ) (s : MatchedSpan) (spans : List MatchedSpan)
    → Ascending (length content) n (s ∷ spans)
    → splice_span (replaced content 0 spans) s ≡ replaced content 0 (s ∷ spans)
unfolding splice_span
splice_span-first content n s spans up =
    rw (replaced-drop content s.end spans up.2 up.3)
      (ap (λ t. t ++ (s.replacement ++ replaced content s.end spans)) before)
  where
    before : take s.start (replaced content 0 spans) ≡ take (s.start - 0) content
    before =
        replaced-take content s.start spans (omega (arith, up.1, up.2))
          (Ascending-below (length content) s.end s.start spans up.1 up.3)
        ∙ ap (λ i. take i content) (omega arith)

splice_all-replaced :
    (content : Text) (n : ℕ) (spans : List MatchedSpan)
    → Ascending (length content) n spans
    → splice_all content (reverse spans) ≡ replaced content 0 spans
unfolding splice_all
splice_all-replaced content n [] up = refl
splice_all-replaced content n (s ∷ spans) up = rw reverse-cons (
    splice_all-snoc content (reverse spans) s
    ∙ ap (λ t. splice_span t s) (splice_all-replaced content s.end spans up.3)
    ∙ splice_span-first content n s spans up)

-- Spans that lie in the content, are not empty and pass the check: the result is the content with
-- every span replaced at once, whatever the order in which they were asked for.
pub splice_text_spans-replaced :
    (content : Text) (spans : List MatchedSpan) (path : Text)
    → All (Within (length content)) spans
    → All NotEmpty spans
    → validate_non_overlapping spans path ≡ ok tt
    → splice_text_spans content spans ≡ replaced content 0 (sort_spans spans)
unfolding splice_text_spans
splice_text_spans-replaced content spans path within full valid =
    let up = validate_non_overlapping-Ascending (length content) spans path within valid in
    let other =
      sort_spans-Pairs OtherStart (λ s t ne e. ne (sym e)) spans
        (Ascending-OtherStart (length content) 0 (sort_spans spans) up
          (All-sort_spans NotEmpty spans full)) in
    ap (λ r. splice_all content (reverse r)) (sort_spans-reverse spans other)
    ∙ splice_all-replaced content 0 (sort_spans spans) up
