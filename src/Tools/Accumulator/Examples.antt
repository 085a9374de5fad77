-- ===== src/Tools/Accumulator/Examples.antt =====
-- tile/tools/support/output_accumulator.py on an output that cuts a character.
use piy.Base.{◌*◌, ◌≤◌, List, [], ◌∷◌, flatten, length, ◌≡◌, refl, false, some, ◌↔◌, arith}
use piy.Tools.Utf8.{Bytes, encode, decode_all}
use piy.Tools.Accumulator.{OutputAccumulator, new_accumulator, accumulate, finish}
use piy.Tools.Accumulator.Retains.{lines_of}
use piy.Tools.Accumulator.Chunks.{Reads, accumulate_all, accumulate_all-whole}
use piy.Tools.Accumulator.Snapshot.{finish_whole}

-- é and a newline, and a byte that starts nothing
abbrev chunks : List Bytes
chunks = (0xC3 ∷ []) ∷ (0xA9 ∷ 10 ∷ []) ∷ (0xFF ∷ []) ∷ []

decoded_is : decode_all (flatten chunks) ≡ 0xE9 ∷ 10 ∷ 0xFFFD ∷ []
unfolding decode_all
decoded_is = refl

accumulate_all-whole_example :
    (a : OutputAccumulator) × (accumulate_all chunks (new_accumulator 2 8) ≡ some a)
    × (accumulate (flatten chunks) (new_accumulator 2 8) ≡ some a)
    × Reads 2 8 (flatten chunks) a
    × (length a.tail_buffer ≤ 8 * 2)
accumulate_all-whole_example = accumulate_all-whole 2 8 chunks

abbrev held : OutputAccumulator
held = (accumulate_all-whole 2 8 chunks).0

finish_whole_example :
    (((finish held).0.truncation.truncated ≡ false) ↔ (
      (lines_of (decode_all (flatten chunks)) ≤ 2)
      × (length (encode (decode_all (flatten chunks))) ≤ 8)))
    × ((finish held).0.truncation.truncated ≡ false
        → (finish held).0.content ≡ decode_all (flatten chunks))
finish_whole_example =
    finish_whole 2 8 (flatten chunks) held (accumulate_all-whole 2 8 chunks).3 (omega arith)
