-- ===== src/Tools/Utf8.antt =====
-- Python's "utf-8" codec: `str.encode`, and the incremental decoder with errors="replace".
pub mod Steps
pub mod Sequences
pub mod RoundTrip
pub mod Scalars
use piy.Base.{
  ℕ, zero, suc, ◌+◌, ◌-◌, ◌*◌, ◌/◌, ◌%◌, Text, List, [], ◌∷◌, ◌++◌, Bool, true, false, ◌&&◌, leb,
  ltb, if◌then◌else◌,
}

abbrev pub Bytes : Type 0
Bytes = List ℕ

abbrev pub replacement_character : ℕ
replacement_character = 0xFFFD

-- The bytes of one code point. A surrogate, which `encode` refuses, does not come out of the decoder.
unfoldable pub utf8 : ℕ → Bytes
utf8 c =
    if ltb c 0x80
    then c ∷ []
    else if ltb c 0x800
    then (0xC0 + c / 64) ∷ (0x80 + c % 64) ∷ []
    else if ltb c 0x10000
    then (0xE0 + c / 4096) ∷ (0x80 + c / 64 % 64) ∷ (0x80 + c % 64) ∷ []
    else (0xF0 + c / 262144) ∷ (0x80 + c / 4096 % 64) ∷ (0x80 + c / 64 % 64) ∷ (0x80 + c % 64) ∷ []

-- text.encode("utf-8")
unfoldable pub encode : Text → Bytes
unfolding utf8
encode [] = []
encode (c ∷ s) = utf8 c ++ encode s

-- What the decoder holds between two bytes: nothing, or a sequence that waits for `more` bytes and
-- one, the next of them in a range, with the bits that it has.
pub data Decoder : Type 0 where
  idle : Decoder
  waiting : (more low high bits : ℕ) → Decoder

-- A byte where a sequence starts.
unfoldable pub decode_lead : ℕ → Text × Decoder
decode_lead b =
    if ltb b 0x80
    then (b ∷ [], idle)
    else if ltb b 0xC2
    then (replacement_character ∷ [], idle)
    else if ltb b 0xE0
    then ([], waiting 0 0x80 0xBF (b - 0xC0))
    else if ltb b 0xE1
    then ([], waiting 1 0xA0 0xBF (b - 0xE0))
    else if ltb b 0xED
    then ([], waiting 1 0x80 0xBF (b - 0xE0))
    else if ltb b 0xEE
    then ([], waiting 1 0x80 0x9F (b - 0xE0))
    else if ltb b 0xF0
    then ([], waiting 1 0x80 0xBF (b - 0xE0))
    else if ltb b 0xF1
    then ([], waiting 2 0x90 0xBF (b - 0xF0))
    else if ltb b 0xF4
    then ([], waiting 2 0x80 0xBF (b - 0xF0))
    else if ltb b 0xF5
    then ([], waiting 2 0x80 0x8F (b - 0xF0))
    else (replacement_character ∷ [], idle)

-- A byte that continues the sequence.
unfoldable pub decode_continued : ℕ → ℕ → Text × Decoder
decode_continued zero bits = (bits ∷ [], idle)
decode_continued (suc more) bits = ([], waiting more 0x80 0xBF bits)

-- One more byte; a sequence that it does not continue is replaced, and the byte starts another one.
unfoldable pub decode_byte : Decoder → ℕ → Text × Decoder
unfolding decode_lead decode_continued
decode_byte idle b = decode_lead b
decode_byte (waiting more low high bits) b =
    let (text, decoder) = decode_lead b in
    if leb low b && leb b high
    then decode_continued more (bits * 64 + (b - 0x80))
    else (replacement_character ∷ text, decoder)

-- decoder.decode(chunk, final=False)
unfoldable pub decode : Decoder → Bytes → Text × Decoder
unfolding decode_byte
decode decoder [] = ([], decoder)
decode decoder (b ∷ bytes) =
    let (text, next) = decode_byte decoder b in
    let (rest, last) = decode next bytes in (text ++ rest, last)

-- What decode(b"", final=True) adds.
unfoldable pub flush : Decoder → Text
flush idle = []
flush (waiting more low high bits) = replacement_character ∷ []

-- bytes.decode("utf-8", errors="replace")
unfoldable pub decode_all : Bytes → Text
unfolding decode flush
decode_all bytes = let (text, decoder) = decode idle bytes in text ++ flush decoder
