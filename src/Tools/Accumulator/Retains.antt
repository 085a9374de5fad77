-- ===== src/Tools/Accumulator/Retains.antt =====
-- tile/tools/support/output_accumulator.py: what the accumulator holds of the output so far.
use mathlib.Core.Path.{subst}
use mathlib.Core.List.{append-nil}
use piy.Base.{
  ℕ, ◌+◌, ◌*◌, Text, newline, [], ◌∷◌, ◌++◌, ◌≡◌, refl, sym, ap, true, length, count-append,
  length-append, ◌==◌, if◌then◌else◌, arith,
}
use piy.Tools.Utf8.{Decoder, encode}
use piy.Tools.Utf8.RoundTrip.{encode-append}
use piy.Tools.Accumulator.{
  OutputAccumulator, trim_start, starts_at_line_boundary, newlines, append_text,
  append_decoded_text, with_decoder,
}
use piy.Tools.Accumulator.Tail.{trimmed, kept-again, starts_at_line_boundary-again, encode-fresh}

-- The lines of an output, none where nothing came.
abbrev pub lines_of : Text → ℕ
lines_of [] = 0
lines_of (c ∷ text) = 1 + newlines (c ∷ text)

-- What is held of an output: the end of its bytes, cut once to the rolling limit; whether that starts
-- a line; and the totals of all of it.
pub record Retains (max_lines max_bytes : ℕ) (text : Text) (a : OutputAccumulator) : Type 0 where
  pub max_lines_is : a.max_lines ≡ max_lines
  pub max_bytes_is : a.max_bytes ≡ max_bytes
  pub rolling_is : a.max_rolling_bytes ≡ max_bytes * 2
  pub tail_is : a.tail_buffer ≡ trimmed (encode text) (max_bytes * 2)
  pub boundary_is :
      a.tail_starts_at_line_boundary
      ≡ starts_at_line_boundary (encode text) (trim_start (encode text) (max_bytes * 2)) true
  pub total_bytes_is : a.total_bytes ≡ length (encode text)
  pub total_lines_is : a.total_lines ≡ lines_of text

lines_of-append :
    (text : Text) (c : ℕ) (more : Text)
    → (if lines_of text == 0 then 1 else lines_of text) + newlines (c ∷ more)
      ≡ lines_of (text ++ c ∷ more)
unfolding newlines
lines_of-append [] c more = refl
lines_of-append (d ∷ text) c more =
    ground (arith, count-append (λ b. b == newline) (d ∷ text) (c ∷ more))

append_text-Retains :
    (max_lines max_bytes : ℕ) (text : Text) (c : ℕ) (more : Text) (a : OutputAccumulator)
    → Retains max_lines max_bytes text a
    → Retains max_lines max_bytes (text ++ c ∷ more) (append_text (c ∷ more) a)
unfolding append_text
append_text-Retains max_lines max_bytes text c more a r =
    let max = max_bytes * 2 in
    let whole = encode-append text (c ∷ more) in
    record {
      max_lines_is = r.max_lines_is;
      max_bytes_is = r.max_bytes_is;
      rolling_is = r.rolling_is;
      tail_is =
          rw (r.rolling_is, r.tail_is, whole)
            (kept-again max (encode text) (encode (c ∷ more)) (encode-fresh (c ∷ more)));
      boundary_is =
          rw (r.rolling_is, r.tail_is, r.boundary_is, whole)
            (starts_at_line_boundary-again max (encode text) (encode (c ∷ more))
              (encode-fresh (c ∷ more)));
      total_bytes_is = omega (
        arith,
        r.total_bytes_is,
        ap length whole,
        length-append (encode text) (encode (c ∷ more)),
      );
      total_lines_is = rw r.total_lines_is (lines_of-append text c more);
    }

pub append_decoded_text-Retains :
    (max_lines max_bytes : ℕ) (text more : Text) (a : OutputAccumulator)
    → Retains max_lines max_bytes text a
    → Retains max_lines max_bytes (text ++ more) (append_decoded_text more a)
unfolding append_decoded_text
append_decoded_text-Retains max_lines max_bytes text [] a r =
    subst (λ t. Retains max_lines max_bytes t a) (sym (append-nil text)) r
append_decoded_text-Retains max_lines max_bytes text (c ∷ more) a r =
    append_text-Retains max_lines max_bytes text c more a r

pub append_decoded_text-decoder :
    (more : Text) (a : OutputAccumulator) → (append_decoded_text more a).decoder ≡ a.decoder
unfolding append_decoded_text append_text
append_decoded_text-decoder [] a = refl
append_decoded_text-decoder (c ∷ more) a = refl

pub append_decoded_text-finished :
    (more : Text) (a : OutputAccumulator) → (append_decoded_text more a).finished ≡ a.finished
unfolding append_decoded_text append_text
append_decoded_text-finished [] a = refl
append_decoded_text-finished (c ∷ more) a = refl

pub with_decoder-Retains :
    (max_lines max_bytes : ℕ) (text : Text) (decoder : Decoder) (a : OutputAccumulator)
    → Retains max_lines max_bytes text a
    → Retains max_lines max_bytes text (with_decoder decoder a)
unfolding with_decoder
with_decoder-Retains max_lines max_bytes text decoder a r = record {
  max_lines_is = r.max_lines_is;
  max_bytes_is = r.max_bytes_is;
  rolling_is = r.rolling_is;
  tail_is = r.tail_is;
  boundary_is = r.boundary_is;
  total_bytes_is = r.total_bytes_is;
  total_lines_is = r.total_lines_is;
}
