-- ===== src/Tools/Accumulator/Snapshot.antt =====
-- tile/tools/support/output_accumulator.py: when the final snapshot is the whole output.
use piy.Base.{
  ℕ, ◌+◌, ◌*◌, ◌≤◌, ◌<◌, Text, split, cons_first, utf8_len, byte_len, List, [], ◌∷◌, ◌≡◌, refl, ap,
  ◌∙◌, ◌↔◌, true, false, Option, none, some, length, length-append, drop, All, arith,
}
use piy.Truncation.{TruncationReason, TruncationKeep, tail, truncate_text, truncate_tail}
use piy.Truncation.Limits.{truncate_text-fits}
use piy.Tools.Utf8.{Bytes, utf8, encode, decode_all}
use piy.Tools.Utf8.Sequences.{Scalar}
use piy.Tools.Utf8.RoundTrip.{decode_all-encode}
use piy.Tools.Utf8.Scalars.{decode_all-Scalar}
use piy.Tools.Accumulator.{
  OutputAccumulator, starts_at_line_boundary, newlines, snapshot_text, truncated_by, is_some,
  with_total_metadata, snapshot, flushed, finish,
}
use piy.Tools.Accumulator.Tail.{trim_start-short}
use piy.Tools.Accumulator.Retains.{lines_of, Retains}
use piy.Tools.Accumulator.Chunks.{Reads, flushed-Retains}

length-utf8 : (c : ℕ) → length (utf8 c) ≡ utf8_len c
unfolding utf8 utf8_len
length-utf8 c = ground arith

length-encode : (text : Text) → length (encode text) ≡ byte_len text
unfolding encode byte_len
length-encode [] = refl
length-encode (c ∷ text) =
    omega (arith, length-append (utf8 c) (encode text), length-utf8 c, length-encode text)

length-cons_first : (c : ℕ) (ls : List Text) → 0 < length ls → length (cons_first c ls) ≡ length ls
length-cons_first c [] h = absurd (omega (arith, h))
length-cons_first c (l ∷ ls) h = refl

length-split : (text : Text) → length (split text) ≡ 1 + newlines text
unfolding split newlines
length-split [] = refl
length-split (c ∷ text) =
    ground (
      arith,
      length-split text,
      length-cons_first c (split text) (omega (arith, length-split text)),
    )

untruncated-content :
    (text : Text) (keep : TruncationKeep) (max_lines max_bytes : ℕ)
    → (truncate_text text keep max_lines max_bytes).truncated_by ≡ none
    → (truncate_text text keep max_lines max_bytes).content ≡ text
unfolding truncate_text
untruncated-content text keep max_lines max_bytes h = ground arith

fits-untruncated :
    (text : Text) (keep : TruncationKeep) (max_lines max_bytes : ℕ)
    → (truncate_text text keep max_lines max_bytes).truncated ≡ false
    → (truncate_text text keep max_lines max_bytes).truncated_by ≡ none
unfolding truncate_text
fits-untruncated text keep max_lines max_bytes h = ground arith

snapshot_text-whole :
    (max_lines max_bytes : ℕ) (text : Text) (a : OutputAccumulator)
    → Retains max_lines max_bytes text a
    → All Scalar text
    → length (encode text) ≤ max_bytes
    → snapshot_text a ≡ text
unfolding snapshot_text starts_at_line_boundary
snapshot_text-whole max_lines max_bytes text a r scalar fits =
    let uncut = trim_start-short (encode text) (max_bytes * 2) (omega (arith, fits)) in
    let flag : a.tail_starts_at_line_boundary ≡ true =
      r.boundary_is ∙ ap (λ n. starts_at_line_boundary (encode text) n true) uncut in
    let held : a.tail_buffer ≡ encode text = r.tail_is ∙ ap (λ n. drop n (encode text)) uncut in
    rw flag (ap decode_all held ∙ decode_all-encode text scalar)

truncated_by-none :
    (a : OutputAccumulator) (o : Option TruncationReason)
    → is_some (truncated_by a o) ≡ false
    → (o ≡ none) × (a.total_lines ≤ a.max_lines) × (a.total_bytes ≤ a.max_bytes)
unfolding truncated_by is_some
truncated_by-none a none h = (refl, ground arith, ground arith)
truncated_by-none a (some reason) h = cc

none-truncated_by :
    (a : OutputAccumulator) (o : Option TruncationReason)
    → o ≡ none
    → a.total_lines ≤ a.max_lines
    → a.total_bytes ≤ a.max_bytes
    → is_some (truncated_by a o) ≡ false
unfolding truncated_by is_some
none-truncated_by a none e h k = ground arith
none-truncated_by a (some reason) e h k = cc

-- The end of an output whose bytes the accumulator has read.
module _ (max_lines max_bytes : ℕ) (bytes : Bytes) (a : OutputAccumulator) where
  abbrev output : Text
  output = decode_all bytes

  abbrev last : OutputAccumulator
  last = flushed a

  finish-unmarked :
      Reads max_lines max_bytes bytes a
      → (finish a).0.truncation.truncated ≡ false
      → (lines_of output ≤ max_lines)
        × (length (encode output) ≤ max_bytes)
        × ((finish a).0.content ≡ output)
  unfolding finish snapshot with_total_metadata truncate_tail
  finish-unmarked reads h =
      let r = flushed-Retains max_lines max_bytes bytes a reads in
      let text = snapshot_text last in
      let t = truncate_text text tail last.max_lines last.max_bytes in
      let (by, few, light) = truncated_by-none last t.truncated_by h in
      let fits : length (encode output) ≤ max_bytes =
        omega (arith, light, r.total_bytes_is, r.max_bytes_is) in
      (
        omega (arith, few, r.total_lines_is, r.max_lines_is),
        fits,
        untruncated-content text tail last.max_lines last.max_bytes by
            ∙ snapshot_text-whole max_lines max_bytes output last r (decode_all-Scalar bytes) fits,
      )

  finish-fits :
      Reads max_lines max_bytes bytes a
      → 0 < max_lines
      → lines_of output ≤ max_lines
      → length (encode output) ≤ max_bytes
      → (finish a).0.truncation.truncated ≡ false
  unfolding finish snapshot with_total_metadata truncate_tail
  finish-fits reads room few light =
      let r = flushed-Retains max_lines max_bytes bytes a reads in
      let text = snapshot_text last in
      let whole =
        snapshot_text-whole max_lines max_bytes output last r (decode_all-Scalar bytes) light in
      let split_few : length (split text) ≤ last.max_lines =
        omega (arith, ap (λ t. length (split t)) whole, split_le output few room, r.max_lines_is) in
      let byte_light : byte_len text ≤ last.max_bytes =
        omega (arith, ap byte_len whole, length-encode output, light, r.max_bytes_is) in
      let unmarked =
        (truncate_text-fits text tail last.max_lines last.max_bytes).1 (split_few, byte_light) in
      none-truncated_by last (truncate_text text tail last.max_lines last.max_bytes).truncated_by
        (fits-untruncated text tail last.max_lines last.max_bytes unmarked)
        (omega (arith, few, r.total_lines_is, r.max_lines_is))
        (omega (arith, light, r.total_bytes_is, r.max_bytes_is))
    where
      split_le : (t : Text) → lines_of t ≤ max_lines → 0 < max_lines → length (split t) ≤ max_lines
      split_le [] few room = omega (arith, length-split [], room)
      split_le (c ∷ t) few room = omega (arith, length-split (c ∷ t), few)

  -- The final snapshot of an accumulator that may keep a line is unmarked exactly if the whole decoded
  -- output meets both limits, and then its content is the whole output.
  pub finish_whole :
      Reads max_lines max_bytes bytes a
      → 0 < max_lines
      → (((finish a).0.truncation.truncated ≡ false) ↔ (
          (lines_of (decode_all bytes) ≤ max_lines)
          × (length (encode (decode_all bytes)) ≤ max_bytes)))
        × ((finish a).0.truncation.truncated ≡ false → (finish a).0.content ≡ decode_all bytes)
  finish_whole reads room = (
    (
      λ h. let found = finish-unmarked reads h in (found.0, found.1),
      λ fits. finish-fits reads room fits.0 fits.1,
    ),
    λ h. (finish-unmarked reads h).2,
  )
