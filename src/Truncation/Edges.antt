-- ===== src/Truncation/Edges.antt =====
-- `truncate_text` keeps the longest run of complete lines at its edge that meets both limits.
use mathlib.Core.List.{reverse-cons, reverse-append, reverse-reverse, append_assoc, append-nil}
use piy.Base.{
  ℕ, ◌+◌, ◌≤◌, ◌<◌, Text, byte_len, join, split, join-split, split_ne_nil, length, weight,
  weight-append, length-reverse, weight-single, weight-reverse, byte_len-join, ◌≡◌, ◌≢◌, refl, sym,
  ap, ◌∙◌, ◌⊎◌, inl, inr, List, [], ◌∷◌, ◌++◌, reverse, Bool-cases, true, false, none, some, ltb,
  arith, tests,
}
use piy.Truncation.{
  Truncation, TruncationReason, TruncationKeep, head, tail, lines, bytes, select_loop,
  select_output_lines, truncate_text, iter_lines, reorder, first_line, edge_line_exceeded_result,
  truncated_result, untruncated_result, edge_line_exceeds, fits_limits, measure_text,
}
use piy.Truncation.Select.{Stop, exhausted, full, heavy, Selected, select_loop-Selected}

-- `l` is the line next to what was kept, and `rest` lies beyond it.
abbrev pub Beyond : TruncationKeep → List Text → List Text → Text → List Text → Type 0
Beyond head all kept l rest = all ≡ kept ++ l ∷ rest
Beyond tail all kept l rest = all ≡ rest ++ l ∷ kept

abbrev pub extend : TruncationKeep → List Text → Text → List Text
extend head kept l = kept ++ l ∷ []
extend tail kept l = l ∷ kept

-- One line more would pass the limit that `r` names.
pub data Cut (keep : TruncationKeep) (max_lines max_bytes : ℕ) (all kept : List Text)
    (r : TruncationReason) : Type 0 where
  at_lines :
      (l : Text) (rest : List Text)
      → Beyond keep all kept l rest
      → r ≡ lines
      → length kept ≡ max_lines
      → Cut keep max_lines max_bytes all kept r
  at_bytes :
      (l : Text) (rest : List Text)
      → Beyond keep all kept l rest
      → r ≡ bytes
      → max_bytes < byte_len (join (extend keep kept l))
      → Cut keep max_lines max_bytes all kept r

byte_len-join-extend :
    (keep : TruncationKeep) (kept : List Text) (l : Text)
    → byte_len (join (extend keep kept l)) ≡ byte_len l + weight kept
byte_len-join-extend head kept l =
    omega (arith, byte_len-join (kept ++ l ∷ []), weight-append kept (l ∷ []), weight-single l)
byte_len-join-extend tail kept l =
    omega (arith, byte_len-join (l ∷ kept), weight-append (l ∷ []) kept, weight-single l)

length-reorder : (keep : TruncationKeep) (ls : List Text) → length (reorder keep ls) ≡ length ls
unfolding reorder
length-reorder head ls = refl
length-reorder tail ls = length-reverse ls

weight-reorder : (keep : TruncationKeep) (ls : List Text) → weight (reorder keep ls) ≡ weight ls
unfolding reorder
weight-reorder head ls = refl
weight-reorder tail ls = weight-reverse ls

reorder-nil : (keep : TruncationKeep) → reorder keep [] ≡ []
unfolding reorder
reorder-nil head = refl
reorder-nil tail = refl

iter-Beyond :
    (keep : TruncationKeep) (all taken : List Text) (l : Text) (rest : List Text)
    → iter_lines all keep ≡ taken ++ l ∷ rest
    → Beyond keep all (reorder keep taken) l (reorder keep rest)
unfolding iter_lines reorder
iter-Beyond head all taken l rest e = e
iter-Beyond tail all taken l rest e =
    sym (reverse-reverse all)
    ∙ ap reverse e
    ∙ reverse-append taken (l ∷ rest)
    ∙ rw reverse-cons (append_assoc (reverse rest) (l ∷ []) (reverse taken))

iter-all :
    (keep : TruncationKeep) (all taken : List Text)
    → iter_lines all keep ≡ taken
    → reorder keep taken ≡ all
unfolding iter_lines reorder
iter-all head all taken e = sym e
iter-all tail all taken e = ap reverse (sym e) ∙ reverse-reverse all

module _ (keep : TruncationKeep) (all : List Text) (max_lines max_bytes : ℕ) where
  abbrev IsCut : List Text → TruncationReason → Type 0
  IsCut kept r = (kept ≡ all) ⊎ Cut keep max_lines max_bytes all kept r

  IsCut-Stop :
      (out rest : List Text) {r : TruncationReason}
      → iter_lines all keep ≡ out ++ rest
      → Stop max_lines max_bytes out rest r
      → IsCut (reorder keep out) r
  IsCut-Stop out rest e (exhausted empty _) =
      inl (iter-all keep all out (e ∙ ap (λ t. out ++ t) empty ∙ append-nil out))
  IsCut-Stop out rest e (full l ls more by enough) = inr (
      at_lines l (reorder keep ls) (iter-Beyond keep all out l ls (e ∙ ap (λ t. out ++ t) more)) by
        (length-reorder keep out ∙ enough))
  IsCut-Stop out rest e (heavy l ls more by over) = inr (
      at_bytes l (reorder keep ls) (iter-Beyond keep all out l ls (e ∙ ap (λ t. out ++ t) more)) by
        (omega (arith, byte_len-join-extend keep (reorder keep out) l, weight-reorder keep out)))

  abbrev IsWithin : List Text → Type 0
  IsWithin kept = (length kept ≤ max_lines) × (byte_len (join kept) ≤ max_bytes)

  IsWithin-IsCut :
      (out : List Text) {r : TruncationReason}
      → Selected max_lines max_bytes (iter_lines all keep) [] out r
      → IsWithin (reorder keep out) × IsCut (reorder keep out) r
  IsWithin-IsCut out s = (
    (
      omega (arith, length-reorder keep out, s.few),
      omega (arith, weight-reorder keep out, byte_len-join (reorder keep out), s.light),
    ),
    IsCut-Stop out s.rest (s.split_at ∙ ap (λ t. t ++ s.rest) (sym s.grown_by)) s.stop,
  )

  -- What the loop hands over is all of the lines, or is cut at a limit.
  select_output_lines-IsCut :
      let (kept, r) = select_output_lines all keep max_lines max_bytes in
      IsWithin kept × IsCut kept r
  unfolding select_output_lines weight
  select_output_lines-IsCut =
      IsWithin-IsCut (select_loop max_lines max_bytes (iter_lines all keep) [] 0).0 (
        select_loop-Selected max_lines max_bytes (iter_lines all keep) [] 0 refl (omega arith)
          (omega arith))

  -- A first line that is too long is next to the empty list.
  first_line-Cut :
      (ls : List Text)
      → all ≢ []
      → iter_lines all keep ≡ ls
      → ltb max_bytes (byte_len (first_line ls)) ≡ true
      → Cut keep max_lines max_bytes all [] bytes
  unfolding first_line
  first_line-Cut [] some_line e long =
      absurd (some_line (sym (iter-all keep all [] e) ∙ reorder-nil keep))
  first_line-Cut (l ∷ ls) some_line e long =
      at_bytes l (reorder keep ls) (rw (← reorder-nil keep) (iter-Beyond keep all [] l ls e)) refl
        (omega (tests, byte_len-join-extend keep [] l))

-- What holds of the result `t` for the lines `kept` out of `all`.
pub record KeepsEdge (keep : TruncationKeep) (max_lines max_bytes : ℕ) (all : List Text)
    (t : Truncation) : Type 0 where
  pub kept : List Text
  pub content : t.content ≡ join kept
  pub output_lines : t.output_lines ≡ length kept
  pub output_bytes : t.output_bytes ≡ byte_len (join kept)
  pub few : length kept ≤ max_lines
  pub light : byte_len (join kept) ≤ max_bytes
  pub reason :
      ((kept ≡ all) × (t.truncated ≡ false) × (t.truncated_by ≡ none))
      ⊎ ((r : TruncationReason) × (t.truncated ≡ true)
          × (t.truncated_by ≡ some r)
          × Cut keep max_lines max_bytes all kept r)

module _ (text : Text) (keep : TruncationKeep) (max_lines max_bytes : ℕ) where
  fits-KeepsEdge :
      fits_limits (measure_text text) max_lines max_bytes ≡ true
      → KeepsEdge keep max_lines max_bytes
          (split text)
          (untruncated_result text (measure_text text) keep max_lines max_bytes)
  unfolding truncate_text
  fits-KeepsEdge fits = record {
    kept = split text;
    content = sym (join-split text);
    output_lines = refl;
    output_bytes = ap byte_len (sym (join-split text));
    few = ground arith;
    light = rw join-split (ground arith);
    reason = inl (refl, refl, refl);
  }

  edge-KeepsEdge :
      edge_line_exceeds (split text) keep max_bytes ≡ true
      → KeepsEdge keep max_lines max_bytes
          (split text)
          (edge_line_exceeded_result (measure_text text) keep max_lines max_bytes)
  unfolding truncate_text join byte_len
  edge-KeepsEdge long = record {
    kept = [];
    content = refl;
    output_lines = refl;
    output_bytes = refl;
    few = omega arith;
    light = omega arith;
    reason = inr (
      bytes,
      refl,
      refl,
      first_line-Cut keep (split text) max_lines max_bytes (iter_lines (split text) keep)
          (split_ne_nil text) refl long,
    );
  }

  selected-KeepsEdge :
      (kept : List Text) (r : TruncationReason)
      → fits_limits (measure_text text) max_lines max_bytes ≡ false
      → (length kept ≤ max_lines) × (byte_len (join kept) ≤ max_bytes)
      → (kept ≡ split text) ⊎ Cut keep max_lines max_bytes (split text) kept r
      → KeepsEdge keep max_lines max_bytes
          (split text)
          (truncated_result kept r (measure_text text) keep max_lines max_bytes)
  unfolding truncate_text
  selected-KeepsEdge kept r over within (inl all) = absurd (
      ground (arith, ap length all, ap (λ t. byte_len (join t)) all, ap byte_len (join-split text)))
  selected-KeepsEdge kept r over within (inr cut) = record {
    kept = kept;
    content = refl;
    output_lines = refl;
    output_bytes = refl;
    few = within.0;
    light = within.1;
    reason = inr (r, refl, refl, cut);
  }

-- At either edge the kept lines are complete lines of the text and meet both limits; they are all of
-- the lines and the result is unmarked, or they are marked as cut, and one line more would pass the
-- limit that the mark names.
pub truncate_text-KeepsEdge :
    (text : Text) (keep : TruncationKeep) (max_lines max_bytes : ℕ)
    → KeepsEdge keep max_lines max_bytes (split text) (truncate_text text keep max_lines max_bytes)
unfolding truncate_text
truncate_text-KeepsEdge text keep ml mb =
    elim (Bool-cases (fits_limits (measure_text text) ml mb)) [
      | inl fits ↦ rw fits (fits-KeepsEdge text keep ml mb fits)
      | inr over ↦ elim (Bool-cases (edge_line_exceeds (split text) keep mb)) [
        | inl long ↦ rw (over, long) (edge-KeepsEdge text keep ml mb long)
        | inr short ↦
            rw (over, short)
              (let (within, cut) = select_output_lines-IsCut keep (split text) ml mb in
                selected-KeepsEdge text keep ml mb _ _ over within cut)
      ]
    ]
