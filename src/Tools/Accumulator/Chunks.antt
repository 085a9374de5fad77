-- ===== src/Tools/Accumulator/Chunks.antt =====
-- tile/tools/support/output_accumulator.py: the accumulator does not depend on the chunks that the
-- output came in.
use mathlib.Core.Path.{subst}
use mathlib.Core.List.{append_assoc, append-nil}
use piy.Base.{
  ℕ, ◌*◌, ◌≤◌, Text, List, [], ◌∷◌, ◌++◌, flatten, ◌≡◌, refl, sym, ap, ◌∙◌, true, false, Option,
  none, some, length, drop, arith,
}
use piy.Tools.Utf8.{Bytes, idle, encode, decode, decode_all, flush}
use piy.Tools.Utf8.RoundTrip.{decode-append}
use piy.Tools.Accumulator.{
  OutputAccumulator, new_accumulator, trim_start, starts_at_line_boundary, append_decoded_text,
  with_decoder, with_finished, accumulate, flushed,
}
use piy.Tools.Accumulator.Tail.{trim_start-short, length-trimmed}
use piy.Tools.Accumulator.Retains.{
  Retains, append_decoded_text-Retains, append_decoded_text-decoder, append_decoded_text-finished,
  with_decoder-Retains,
}

abbrev pub then_all :
    Option OutputAccumulator
    → (OutputAccumulator → Option OutputAccumulator)
    → Option OutputAccumulator
then_all none next = none
then_all (some a) next = next a

-- The calls of `accumulate`, one for each chunk.
abbrev pub accumulate_all : List Bytes → OutputAccumulator → Option OutputAccumulator
accumulate_all [] a = some a
accumulate_all (chunk ∷ chunks) a = then_all (accumulate chunk a) (accumulate_all chunks)

-- After the bytes: what is held of the decoded ones, and the decoder as they leave it.
pub record Reads (max_lines max_bytes : ℕ) (bytes : Bytes) (a : OutputAccumulator) : Type 0 where
  pub retains : Retains max_lines max_bytes (decode idle bytes).0 a
  pub decoder_is : a.decoder ≡ (decode idle bytes).1
  pub not_finished : a.finished ≡ false

accumulate-Reads :
    (max_lines max_bytes : ℕ) (bytes chunk : Bytes) (a : OutputAccumulator)
    → Reads max_lines max_bytes bytes a
    → (b : OutputAccumulator) × (accumulate chunk a ≡ some b)
      × Reads max_lines max_bytes (bytes ++ chunk) b
unfolding accumulate with_decoder
accumulate-Reads max_lines max_bytes bytes chunk a r =
    let (text, decoder) = decode (decode idle bytes).1 chunk in
    let split = decode-append idle bytes chunk in
    let b = append_decoded_text text (with_decoder decoder a) in
    (
      b,
      rw (r.decoder_is, r.not_finished) refl,
      record {
        retains =
            subst (λ t. Retains max_lines max_bytes t b) (ap (λ p. p.0) (sym split))
              (append_decoded_text-Retains max_lines max_bytes (decode idle bytes).0 text
                (with_decoder decoder a)
                (with_decoder-Retains max_lines max_bytes (decode idle bytes).0 decoder a
                  r.retains));
        decoder_is =
            append_decoded_text-decoder text (with_decoder decoder a) ∙ ap (λ p. p.1) (sym split);
        not_finished = append_decoded_text-finished text (with_decoder decoder a) ∙ r.not_finished;
      },
    )

new_accumulator-Reads :
    (max_lines max_bytes : ℕ) → Reads max_lines max_bytes [] (new_accumulator max_lines max_bytes)
unfolding new_accumulator decode encode trim_start starts_at_line_boundary
new_accumulator-Reads max_lines max_bytes = record {
  retains = record {
    max_lines_is = refl;
    max_bytes_is = refl;
    rolling_is = refl;
    tail_is = ap (λ n. drop n []) (sym (trim_start-short [] (max_bytes * 2) (omega arith)));
    boundary_is =
        ap (λ n. starts_at_line_boundary [] n true)
          (sym (trim_start-short [] (max_bytes * 2) (omega arith)));
    total_bytes_is = refl;
    total_lines_is = refl;
  };
  decoder_is = refl;
  not_finished = refl;
}

accumulate_all-Reads :
    (max_lines max_bytes : ℕ) (bytes : Bytes) (chunks : List Bytes) (a : OutputAccumulator)
    → Reads max_lines max_bytes bytes a
    → (b : OutputAccumulator) × (accumulate_all chunks a ≡ some b)
      × Reads max_lines max_bytes (bytes ++ flatten chunks) b
accumulate_all-Reads max_lines max_bytes bytes [] a r =
    (a, refl, subst (λ t. Reads max_lines max_bytes t a) (sym (append-nil bytes)) r)
accumulate_all-Reads max_lines max_bytes bytes (chunk ∷ chunks) a r =
    let (b, is, reads) = accumulate-Reads max_lines max_bytes bytes chunk a r in
    let (last, are, all) =
      accumulate_all-Reads max_lines max_bytes (bytes ++ chunk) chunks b reads in
    (
      last,
      ap (λ o. then_all o (accumulate_all chunks)) is ∙ are,
      subst (λ t. Reads max_lines max_bytes t last) (append_assoc bytes chunk (flatten chunks)) all,
    )

Reads-unique :
    (max_lines max_bytes : ℕ) (bytes : Bytes) (a b : OutputAccumulator)
    → Reads max_lines max_bytes bytes a
    → Reads max_lines max_bytes bytes b
    → a ≡ b
Reads-unique max_lines max_bytes bytes a b r s = let x = r.retains in let y = s.retains in cc

-- The output in whatever chunks, also such as cut a character: every call returns, and the
-- accumulator is the one that one call with all the bytes gives. It holds the end of the decoded
-- text's bytes, cut once and no longer than the rolling limit, whether a line starts there, and the
-- totals of the whole text.
pub accumulate_all-whole :
    (max_lines max_bytes : ℕ) (chunks : List Bytes)
    → (a : OutputAccumulator) × (accumulate_all chunks (new_accumulator max_lines max_bytes)
        ≡ some a)
      × (accumulate (flatten chunks) (new_accumulator max_lines max_bytes) ≡ some a)
      × Reads max_lines max_bytes (flatten chunks) a
      × (length a.tail_buffer ≤ max_bytes * 2)
accumulate_all-whole max_lines max_bytes chunks =
    let start = new_accumulator max_lines max_bytes in
    let fresh = new_accumulator-Reads max_lines max_bytes in
    let (a, is, reads) = accumulate_all-Reads max_lines max_bytes [] chunks start fresh in
    let (b, once, reads_once) =
      accumulate-Reads max_lines max_bytes [] (flatten chunks) start fresh in
    let same = Reads-unique max_lines max_bytes (flatten chunks) b a reads_once reads in
    let held = encode (decode idle (flatten chunks)).0 in
    (
      a,
      is,
      once ∙ ap some same,
      reads,
      omega (arith, ap length reads.retains.tail_is, length-trimmed held (max_bytes * 2)),
    )

with_finished-Retains :
    (max_lines max_bytes : ℕ) (text : Text) (a : OutputAccumulator)
    → Retains max_lines max_bytes text a
    → Retains max_lines max_bytes text (with_finished a)
unfolding with_finished
with_finished-Retains max_lines max_bytes text a r = record {
  max_lines_is = r.max_lines_is;
  max_bytes_is = r.max_bytes_is;
  rolling_is = r.rolling_is;
  tail_is = r.tail_is;
  boundary_is = r.boundary_is;
  total_bytes_is = r.total_bytes_is;
  total_lines_is = r.total_lines_is;
}

flushed_active :
    (a : OutputAccumulator)
    → a.finished ≡ false
    → flushed a ≡ with_finished (append_decoded_text (flush a.decoder) (with_decoder idle a))
unfolding flushed
flushed_active a h = rw h refl

pub flushed-Retains :
    (max_lines max_bytes : ℕ) (bytes : Bytes) (a : OutputAccumulator)
    → Reads max_lines max_bytes bytes a
    → Retains max_lines max_bytes (decode_all bytes) (flushed a)
unfolding decode_all
flushed-Retains max_lines max_bytes bytes a r =
    let (text, decoder) = decode idle bytes in
    let rest = flush decoder in
    let is =
      flushed_active a r.not_finished
      ∙ ap (λ d. with_finished (append_decoded_text (flush d) (with_decoder idle a)))
          r.decoder_is in
    subst (Retains max_lines max_bytes (text ++ rest)) (sym is) (
      with_finished-Retains max_lines max_bytes (text ++ rest)
        (append_decoded_text rest (with_decoder idle a))
        (append_decoded_text-Retains max_lines max_bytes text rest (with_decoder idle a)
          (with_decoder-Retains max_lines max_bytes text idle a r.retains)))
