-- ===== src/Tools/Edit/Kept.antt =====
-- tile/tools/edit.py: the mark and the line endings of a written file, said of the texts alone.
use piy.Base.{
  ℕ, suc, Text, [], ◌∷◌, Bool, false_ne_true, ◌++◌, Option, none, some, Bool-cases, le→ltb, lt→ltb,
  le_or_lt, ◌==◌, ==_iff, newline, starts_with, find, ◌⊎◌, inl, inr, ◌≡◌, ◌≢◌, refl, sym, ◌∙◌, true,
  false, arith,
}
use mathlib.Core.Path.{subst}
use mathlib.Core.Option.{map}
use piy.Tools.Edit.Endings.{
  carriage_return, byte_order_mark, lf, crlf, strip_bom, ending_of, detect_line_ending, lf_to_crlf,
  restore_line_endings, load_file, written_text,
}
use piy.Tools.Edit.RoundTrip.{strip_bom-append}

-- The second text is the first one with "\r\n" for every "\n".
pub data AsCrlf : Text → Text → Type 0 where
  end : AsCrlf [] []
  char : (c : ℕ) {s t : Text} → c ≢ newline → AsCrlf s t → AsCrlf (c ∷ s) (c ∷ t)
  line : {s t : Text} → AsCrlf s t → AsCrlf (newline ∷ s) (carriage_return ∷ newline ∷ t)

abbrev NewlineFirst : Text → Type 0
NewlineFirst [] = ⊥
NewlineFirst (c ∷ s) = c ≡ newline

-- The first newline of the text has a carriage return in front of it.
abbrev pub FirstIsCrlf : Text → Type 0
FirstIsCrlf [] = ⊥
FirstIsCrlf (c ∷ s) = ((c ≡ carriage_return) × NewlineFirst s) ⊎ ((c ≢ newline) × FirstIsCrlf s)

-- The written text has the mark of the file that was read, or none where that had none, and behind it
-- the new content: with "\r\n" for every newline where the first newline of the file was one, and
-- as it is where it was not.
pub record KeepsForm (raw new written : Text) : Type 0 where
  pub mark : Text
  pub body : Text
  pub text : Text
  pub raw_is : raw ≡ mark ++ body
  pub mark_is :
      (mark ≡ byte_order_mark ∷ [])
      ⊎ ((mark ≡ []) × (starts_with (byte_order_mark ∷ []) raw ≡ false))
  pub written_is : written ≡ mark ++ text
  pub endings : (FirstIsCrlf body × AsCrlf new text) ⊎ ((¬ FirstIsCrlf body) × (text ≡ new))

lf_to_crlf-AsCrlf : (s : Text) → AsCrlf s (lf_to_crlf s)
unfolding lf_to_crlf
lf_to_crlf-AsCrlf [] = end
lf_to_crlf-AsCrlf (c ∷ s) = elim (Bool-cases (c == newline)) [
  | inl is_line ↦ rw is_line (
      subst (λ k. AsCrlf (k ∷ s) (carriage_return ∷ newline ∷ lf_to_crlf s))
        (sym ((==_iff c newline).0 is_line)) (line (lf_to_crlf-AsCrlf s)))
  | inr other ↦ rw other (char c (ground (arith, other)) (lf_to_crlf-AsCrlf s))
]

abbrev newline_at : Text → Option ℕ
newline_at s = find (newline ∷ []) s

abbrev crlf_at : Text → Option ℕ
crlf_at s = find (carriage_return ∷ newline ∷ []) s

abbrev newline_first : Text → Bool
newline_first s = starts_with (newline ∷ []) s

-- The first characters, and the positions that follow from them.
newline_at_first : (s : Text) → newline_first s ≡ true → newline_at s ≡ some 0
unfolding find
newline_at_first [] h = ground (arith, h)
newline_at_first (c ∷ s) h = ground (arith, h)

newline_at_later :
    (c : ℕ) (s : Text) → (c == newline) ≡ false → newline_at (c ∷ s) ≡ map suc (newline_at s)
unfolding find starts_with
newline_at_later c s h = ground (arith, h)

crlf_at_first :
    (c : ℕ) (s : Text)
    → (c == carriage_return) ≡ true
    → newline_first s ≡ true
    → crlf_at (c ∷ s) ≡ some 0
unfolding find starts_with
crlf_at_first c s h k = ground (arith, h, k)

crlf_at_later :
    (c : ℕ) (s : Text)
    → ((c == carriage_return) ≡ false) ⊎ (newline_first s ≡ false)
    → crlf_at (c ∷ s) ≡ map suc (crlf_at s)
unfolding find starts_with
crlf_at_later c s (inl h) = ground (arith, h)
crlf_at_later c s (inr h) = ground (arith, h)

newline_first-NewlineFirst : (s : Text) → newline_first s ≡ true → NewlineFirst s
unfolding starts_with
newline_first-NewlineFirst [] h = false_ne_true h
newline_first-NewlineFirst (c ∷ s) h = ground (arith, h)

NewlineFirst-newline_first : (s : Text) → newline_first s ≡ false → ¬ NewlineFirst s
unfolding starts_with
NewlineFirst-newline_first [] h = λ e. e
NewlineFirst-newline_first (c ∷ s) h = λ e. ground (arith, h, e)

ending_of_first : (o : Option ℕ) → ending_of o (some 0) ≡ lf
unfolding ending_of
ending_of_first none = refl
ending_of_first (some k) = rw (le→ltb k 0 (omega arith)) refl

ending_of_moved : (o p : Option ℕ) → ending_of (map suc o) (map suc p) ≡ ending_of o p
unfolding ending_of
ending_of_moved o none = refl
ending_of_moved none (some l) = refl
ending_of_moved (some k) (some l) = elim (le_or_lt l k) [
  | inl behind ↦ rw (le→ltb (suc k) (suc l) (omega arith), le→ltb k l behind) refl
  | inr before ↦ rw (lt→ltb (suc k) (suc l) (omega arith), lt→ltb k l before) refl
]

abbrev Detected : Text → Type 0
Detected s =
    (FirstIsCrlf s × (detect_line_ending s ≡ crlf))
    ⊎ ((¬ FirstIsCrlf s) × (detect_line_ending s ≡ lf))

Detected-later :
    (c : ℕ) (s : Text)
    → (c == newline) ≡ false
    → ((c == carriage_return) ≡ false) ⊎ (newline_first s ≡ false)
    → ¬ ((c ≡ carriage_return) × NewlineFirst s)
    → Detected s
    → Detected (c ∷ s)
unfolding detect_line_ending
Detected-later c s other not_both not_here h =
    let moved : detect_line_ending (c ∷ s) ≡ detect_line_ending s =
      rw (newline_at_later c s other, crlf_at_later c s not_both)
        (ending_of_moved (crlf_at s) (newline_at s)) in
    elim h [
      | inl (first, e) ↦ inl (inr (ground (arith, other), first), moved ∙ e)
      | inr (none_there, e) ↦
          inr (
            λ f. elim f [ inl here ↦ not_here here | inr (_, later) ↦ none_there later ],
            moved ∙ e,
          )
    ]

-- The ending that is detected is that of the first newline.
first_ending : (s : Text) → Detected s
unfolding detect_line_ending
first_ending [] = inr (λ h. h, unfold ending_of find starts_with in refl)
first_ending (c ∷ s) = elim (Bool-cases (c == newline)) [
  | inl is_line ↦ inr (
    λ f. elim f [
      | inl (e, _) ↦ absurd (ground (arith, e, is_line))
      | inr (e, _) ↦ e ((==_iff c newline).0 is_line)
    ],
    rw (newline_at_first (c ∷ s) (unfold starts_with in ground (arith, is_line)))
        (ending_of_first (crlf_at (c ∷ s))),
  )
  | inr other ↦ elim (Bool-cases (c == carriage_return)) [
    | inr no_return ↦
        Detected-later c s other (inl no_return) (λ b. ground (arith, b.0, no_return))
          (first_ending s)
    | inl return ↦ elim (Bool-cases (newline_first s)) [
      | inr no_line ↦
          Detected-later c s other (inr no_line) (λ b. NewlineFirst-newline_first s no_line b.1)
            (first_ending s)
      | inl line_next ↦ inl (
        inl ((==_iff c carriage_return).0 return, newline_first-NewlineFirst s line_next),
        rw
            (
              newline_at_later c s other,
              newline_at_first s line_next,
              crlf_at_first c s return line_next,
            )
            (unfold ending_of in refl),
      )
    ]
  ]
]

mark_cases :
    (raw : Text)
    → ((strip_bom raw).0 ≡ byte_order_mark ∷ [])
      ⊎ (((strip_bom raw).0 ≡ []) × (starts_with (byte_order_mark ∷ []) raw ≡ false))
unfolding strip_bom starts_with
mark_cases [] = inr (refl, refl)
mark_cases (c ∷ s) = ground arith

-- What is written of a content keeps the form of the file that was read.
pub written_text-KeepsForm : (raw new : Text) → KeepsForm raw new (written_text (load_file raw) new)
unfolding written_text load_file restore_line_endings
written_text-KeepsForm raw new =
    let body : Text = (strip_bom raw).1 in
    record {
      mark = (strip_bom raw).0;
      body = body;
      text = restore_line_endings new (detect_line_ending body);
      raw_is = sym (strip_bom-append raw);
      mark_is = mark_cases raw;
      written_is = refl;
      endings = elim (first_ending body) [
        | inl (first, e) ↦ inl (first, rw e (lf_to_crlf-AsCrlf new))
        | inr (none_there, e) ↦ inr (none_there, rw e refl)
      ];
    }
