-- ===== src/Truncation/Select.antt =====
-- What the selection loop of `_select_output_lines` takes, and where it stops.
use mathlib.Core.List.{append_assoc, append-nil}
use piy.Base.{
  ℕ, ◌+◌, ◌-◌, ◌≤◌, ◌<◌, Text, byte_len, length, length-append, weight, weight-append,
  weight-single, weight_pos, ◌≡◌, refl, sym, ap, ◌∙◌, inl, inr, List, [], ◌∷◌, ◌++◌, leb, ltb,
  Bool-cases, arith, tests,
}
use piy.Truncation.{TruncationReason, lines, bytes, separator_bytes, select_loop}

-- Why the loop stopped after `out` with `rest` left.
pub data Stop (max_lines max_bytes : ℕ) (out rest : List Text) (r : TruncationReason) : Type 0 where
  exhausted : rest ≡ [] → r ≡ lines → Stop max_lines max_bytes out rest r
  full :
      (l : Text) (ls : List Text)
      → rest ≡ l ∷ ls
      → r ≡ lines
      → length out ≡ max_lines
      → Stop max_lines max_bytes out rest r
  heavy :
      (l : Text) (ls : List Text)
      → rest ≡ l ∷ ls
      → r ≡ bytes
      → max_bytes < byte_len l + weight out
      → Stop max_lines max_bytes out rest r

-- The next line with its separator.
grown :
    (out : List Text) (l : Text)
    → weight out - 1 + separator_bytes out + byte_len l ≡ weight (out ++ l ∷ []) - 1
grown [] l = omega (arith, weight-single l, weight-append [] (l ∷ []))
grown (m ∷ out) l =
    omega (arith, weight_pos m out, weight-single l, weight-append (m ∷ out) (l ∷ []))

pub record Selected (max_lines max_bytes : ℕ) (ls out out' : List Text) (r : TruncationReason)
    : Type 0 where
  pub taken : List Text
  pub rest : List Text
  pub grown_by : out' ≡ out ++ taken
  pub split_at : ls ≡ taken ++ rest
  pub few : length out' ≤ max_lines
  pub light : weight out' - 1 ≤ max_bytes
  pub stop : Stop max_lines max_bytes out' rest r

module _ {max_lines max_bytes : ℕ} {l : Text} {ls out : List Text} where
  -- The loop ends before `l`.
  stopped :
      {r : TruncationReason}
      → length out ≤ max_lines
      → weight out - 1 ≤ max_bytes
      → Stop max_lines max_bytes out (l ∷ ls) r
      → Selected max_lines max_bytes (l ∷ ls) out out r
  stopped few light stop = record {
    taken = [];
    rest = l ∷ ls;
    grown_by = sym (append-nil out);
    split_at = refl;
    few = few;
    light = light;
    stop = stop;
  }

  -- The loop takes `l` and goes on.
  went_on :
      {out' : List Text} {r : TruncationReason}
      → Selected max_lines max_bytes ls (out ++ l ∷ []) out' r
      → Selected max_lines max_bytes (l ∷ ls) out out' r
  went_on s = record {
    taken = l ∷ s.taken;
    rest = s.rest;
    grown_by = s.grown_by ∙ append_assoc out (l ∷ []) s.taken;
    split_at = ap (λ t. l ∷ t) s.split_at;
    few = s.few;
    light = s.light;
    stop = s.stop;
  }

pub select_loop-Selected :
    (max_lines max_bytes : ℕ) (ls out : List Text) (n : ℕ)
    → n ≡ weight out - 1
    → length out ≤ max_lines
    → weight out - 1 ≤ max_bytes
    → let (out', r) = select_loop max_lines max_bytes ls out n in
      Selected max_lines max_bytes ls out out' r
unfolding select_loop
select_loop-Selected ml mb [] out n e few light = record {
  taken = [];
  rest = [];
  grown_by = sym (append-nil out);
  split_at = refl;
  few = few;
  light = light;
  stop = exhausted refl refl;
}
select_loop-Selected ml mb (l ∷ ls) out n e few light = elim (Bool-cases (leb ml (length out))) [
  | inl full_up ↦ rw full_up (stopped few light (full l ls refl refl (omega tests)))
  | inr room ↦ elim (Bool-cases (ltb mb (n + separator_bytes out + byte_len l))) [
    | inl over ↦
        rw (room, over)
          (stopped few light (
            heavy l ls refl refl
              (omega (tests, grown out l, weight-append out (l ∷ []), weight-single l))))
    | inr fits ↦
        rw (room, fits)
          (went_on (
            select_loop-Selected ml mb ls (out ++ l ∷ []) _ (omega (arith, grown out l))
              (omega (tests, length-append out (l ∷ []))) (omega (tests, grown out l))))
  ]
]
