-- ===== src/Tools/Edit/Windows.antt =====
-- tile/tools/edit.py: fuzzy matching replaces whole lines of the content, and which lines these are.
use mathlib.Core.Path.{subst}
use mathlib.Core.List.{append_assoc, append-nil}
use piy.Base.{
  ◌⊎◌, inl, inr, ℕ, zero, suc, ◌+◌, ◌-◌, ◌≤◌, ◌<◌, Text, newline, text_eq, split, join, join-split,
  List, [], ◌∷◌, ◌++◌, ◌≡◌, refl, sym, ap, ◌∙◌, Bool, true, false, not, ◌&&◌, length, take, flatten,
  length-append, if◌then◌else◌, Bool-cases, arith,
}
use piy.Tools.Edit.Errors.{ok, bind-ok, ok-injective}
use piy.Tools.Edit.Lines.{
  terminate, terminated_lines, offsets_loop, line_start_offsets, ends_with_newline, element,
  window_char_span,
}

flatten-terminate : (parts : List Text) → flatten (terminate parts) ≡ join parts
unfolding terminate join text_eq
flatten-terminate [] = refl
flatten-terminate ([] ∷ []) = refl
flatten-terminate ((c ∷ s) ∷ []) = append-nil (c ∷ s)
flatten-terminate (p ∷ q ∷ ps) =
    ap (λ t. (p ++ newline ∷ []) ++ t) (flatten-terminate (q ∷ ps))
    ∙ append_assoc p (newline ∷ []) (join (q ∷ ps))

-- The lines with their terminators, one after the other, are the text.
pub flatten-terminated_lines : (text : Text) → flatten (terminated_lines text) ≡ text
unfolding terminated_lines
flatten-terminated_lines text = flatten-terminate (split text) ∙ join-split text

offsets_loop-element :
    (n i : ℕ) (lines : List Text) {k : ℕ}
    → element (offsets_loop n lines) i ≡ ok k
    → (k ≡ n + length (flatten (take i lines))) × (i < length lines)
unfolding offsets_loop element
offsets_loop-element n i [] h = cc
offsets_loop-element n zero (l ∷ lines) h = (omega (arith, ok-injective h), omega arith)
offsets_loop-element n (suc i) (l ∷ lines) h =
    let (at, inside) = offsets_loop-element (n + length l) i lines h in
    (omega (arith, at, length-append l (flatten (take i lines))), omega (arith, inside))

element-take :
    (lines : List Text) (i : ℕ) {l : Text}
    → element lines i ≡ ok l
    → length (flatten (take (suc i) lines)) ≡ length (flatten (take i lines)) + length l
unfolding element
element-take [] i h = cc
element-take (m ∷ lines) zero h =
    subst (λ t. length (m ++ []) ≡ 0 + length t) (ok-injective h)
      (omega (arith, length-append m []))
element-take (m ∷ lines) (suc i) h = omega (
  arith,
  element-take lines i h,
  length-append m (flatten (take (suc i) lines)),
  length-append m (flatten (take i lines)),
)

-- The end of a window whose lines end at `whole`: there, or in front of the newline of its last line.
abbrev pub EndsAt : Bool → Text → ℕ → ℕ → Type 0
EndsAt old_terminated last_text whole end =
    ((end ≡ whole) × ((old_terminated ≡ true) ⊎ (ends_with_newline last_text ≡ false)))
    ⊎ ((old_terminated ≡ false) × (ends_with_newline last_text ≡ true) × (suc end ≡ whole))

ends_with_newline_pos : (s : Text) → ends_with_newline s ≡ true → 0 < length s
unfolding ends_with_newline
ends_with_newline_pos [] h = cc
ends_with_newline_pos (c ∷ s) h = omega arith

end-EndsAt :
    (old_terminated : Bool) (last_text : Text) (start whole : ℕ) {span : ℕ × ℕ}
    → length last_text ≤ whole
    → (if not old_terminated && ends_with_newline last_text
        then (start, whole - 1)
        else (start, whole))
      ≡ span
    → (span.0 ≡ start) × EndsAt old_terminated last_text whole span.1
end-EndsAt true last_text start whole le h =
    (ap (λ t. t.0) (sym h), inl (ap (λ t. t.1) (sym h), inl refl))
end-EndsAt false last_text start whole {span} le h =
    elim (Bool-cases (ends_with_newline last_text)) [
      | inl t ↦
          let is : (start, whole - 1) ≡ span =
            subst (λ b. (if b then (start, whole - 1) else (start, whole)) ≡ span) t h in
          (
            ap (λ t. t.0) (sym is),
            inr (refl, t, omega (arith, ap (λ t. t.1) is, ends_with_newline_pos last_text t, le)),
          )
      | inr f ↦
          let is : (start, whole) ≡ span =
            subst (λ b. (if b then (start, whole - 1) else (start, whole)) ≡ span) f h in
          (ap (λ t. t.0) (sym is), inl (ap (λ t. t.1) (sym is), inr f))
    ]

-- The span of the lines from one to another.
pub record LineSpan (lines : List Text) (first last : ℕ) (old_terminated : Bool) (start end : ℕ)
    : Type 0 where
  pub last_text : Text
  pub last_is : element lines last ≡ ok last_text
  pub start_is : start ≡ length (flatten (take first lines))
  pub first_in_range : first < length lines
  pub end_is : EndsAt old_terminated last_text (length (flatten (take (suc last) lines))) end

pub window_char_span-LineSpan :
    (lines : List Text) (first last : ℕ) (old_terminated : Bool) {span : ℕ × ℕ}
    → window_char_span lines (line_start_offsets lines) first last old_terminated ≡ ok span
    → LineSpan lines first last old_terminated span.0 span.1
unfolding window_char_span line_start_offsets
window_char_span-LineSpan lines first last old_terminated {span} h =
    let (start, at, h1) = bind-ok (element (offsets_loop 0 lines) first) _ h in
    let (last_start, last_at, h2) = bind-ok (element (offsets_loop 0 lines) last) _ h1 in
    let (last_text, last_is, h3) = bind-ok (element lines last) _ h2 in
    let (start_is, inside) = offsets_loop-element 0 first lines at in
    let (last_start_is, _) = offsets_loop-element 0 last lines last_at in
    let whole : last_start + length last_text ≡ length (flatten (take (suc last) lines)) =
      omega (arith, last_start_is, element-take lines last last_is) in
    let (is_start, is_end) =
      end-EndsAt old_terminated last_text start (last_start + length last_text) {span = span}
        (omega arith) (ok-injective h3) in
    record {
      last_text = last_text;
      last_is = last_is;
      start_is = omega (arith, is_start, start_is);
      first_in_range = inside;
      end_is = subst (λ w. EndsAt old_terminated last_text w span.1) whole is_end;
    }

element_returns :
    {A : Type 0} (xs : List A) (i : ℕ) → i < length xs → (x : A) × (element xs i ≡ ok x)
unfolding element
element_returns [] i h = absurd (omega (arith, h))
element_returns (x ∷ xs) zero h = (x, refl)
element_returns (x ∷ xs) (suc i) h = element_returns xs i (omega (arith, h))

length-offsets_loop : (n : ℕ) (lines : List Text) → length (offsets_loop n lines) ≡ length lines
unfolding offsets_loop
length-offsets_loop n [] = refl
length-offsets_loop n (l ∷ lines) = ap suc (length-offsets_loop (n + length l) lines)

-- A window that lies in the lines has a span.
pub window_char_span_returns :
    (lines : List Text) (first last : ℕ) (old_terminated : Bool)
    → first < length lines
    → last < length lines
    → (span : ℕ × ℕ) × (window_char_span lines (line_start_offsets lines) first last old_terminated
        ≡ ok span)
unfolding window_char_span line_start_offsets
window_char_span_returns lines first last old_terminated h k =
    let offsets = offsets_loop 0 lines in
    let same = length-offsets_loop 0 lines in
    let (start, at) = element_returns offsets first (omega (arith, same, h)) in
    let (last_start, last_at) = element_returns offsets last (omega (arith, same, k)) in
    let (last_text, last_is) = element_returns lines last k in rw (at, last_at, last_is) (_, refl)
