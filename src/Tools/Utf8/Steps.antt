-- ===== src/Tools/Utf8/Steps.antt =====
-- Python's "utf-8" codec: what the decoder does with a lead byte and those that continue it.
use piy.Base.{
  ℕ, suc, ◌+◌, ◌*◌, ◌≤◌, ◌<◌, Text, [], ◌∷◌, ◌++◌, ◌≡◌, refl, ap, ◌∙◌, arith, le→leb, lt→ltb,
}
use piy.Tools.Utf8.{
  Bytes, Decoder, idle, waiting, decode_lead, decode_continued, decode_byte, decode,
}

decode-step :
    (d d' : Decoder) (b : ℕ) (t : Text) (bytes : Bytes)
    → decode_byte d b ≡ (t, d')
    → decode d (b ∷ bytes) ≡ (t ++ (decode d' bytes).0, (decode d' bytes).1)
unfolding decode
decode-step d d' b t bytes h = ap (λ p. (p.0 ++ (decode p.1 bytes).0, (decode p.1 bytes).1)) h

lead_two : (q : ℕ) → 2 ≤ q → q < 32 → decode_lead (0xC0 + q) ≡ ([], waiting 0 0x80 0xBF q)
unfolding decode_lead
lead_two q h k = ground arith

continue_last :
    (low high bits r : ℕ)
    → r < 64
    → low ≤ 0x80 + r
    → 0x80 + r ≤ high
    → decode_byte (waiting 0 low high bits) (0x80 + r) ≡ ((bits * 64 + r) ∷ [], idle)
unfolding decode_byte decode_continued
continue_last low high bits r h k l =
    rw (le→leb low (0x80 + r) k, le→leb (0x80 + r) high l)
      (ap (λ x. ((bits * 64 + x) ∷ [], idle)) (omega arith))

continue_more :
    (more low high bits r : ℕ)
    → r < 64
    → low ≤ 0x80 + r
    → 0x80 + r ≤ high
    → decode_byte (waiting (suc more) low high bits) (0x80 + r)
      ≡ ([], waiting more 0x80 0xBF (bits * 64 + r))
unfolding decode_byte decode_continued
continue_more more low high bits r h k l =
    rw (le→leb low (0x80 + r) k, le→leb (0x80 + r) high l)
      (ap (λ x. ([], waiting more 0x80 0xBF (bits * 64 + x))) (omega arith))

-- The character in front of what the rest decodes to.
abbrev pub Starts : ℕ → Bytes → Text × Decoder → Type 0
Starts c rest decoded = decoded ≡ (c ∷ (decode idle rest).0, (decode idle rest).1)

from_last :
    (low high bits r : ℕ) (rest : Bytes)
    → r < 64
    → low ≤ 0x80 + r
    → 0x80 + r ≤ high
    → Starts (bits * 64 + r) rest (decode (waiting 0 low high bits) ((0x80 + r) ∷ rest))
from_last low high bits r rest h k l =
    decode-step (waiting 0 low high bits) idle (0x80 + r) ((bits * 64 + r) ∷ []) rest
      (continue_last low high bits r h k l)

from_more :
    (more low high bits r c : ℕ) (next rest : Bytes)
    → r < 64
    → low ≤ 0x80 + r
    → 0x80 + r ≤ high
    → Starts c rest (decode (waiting more 0x80 0xBF (bits * 64 + r)) next)
    → Starts c rest (decode (waiting (suc more) low high bits) ((0x80 + r) ∷ next))
from_more more low high bits r c next rest h k l later =
    decode-step (waiting (suc more) low high bits) (waiting more 0x80 0xBF (bits * 64 + r))
      (0x80 + r) [] next (continue_more more low high bits r h k l)
    ∙ later

from_lead :
    (more low high bits b c : ℕ) (next rest : Bytes)
    → decode_lead b ≡ ([], waiting more low high bits)
    → Starts c rest (decode (waiting more low high bits) next)
    → Starts c rest (decode idle (b ∷ next))
unfolding decode_byte
from_lead more low high bits b c next rest is later =
    decode-step idle (waiting more low high bits) b [] next is ∙ later

pub one_byte : (c : ℕ) (rest : Bytes) → c < 0x80 → Starts c rest (decode idle (c ∷ rest))
unfolding decode_byte decode_lead
one_byte c rest h =
    decode-step idle idle c (c ∷ []) rest (unfold decode_byte in rw (lt→ltb c 0x80 h) refl)

pub two_bytes :
    (q r : ℕ) (rest : Bytes)
    → 2 ≤ q
    → q < 32
    → r < 64
    → Starts (q * 64 + r) rest (decode idle ((0xC0 + q) ∷ (0x80 + r) ∷ rest))
two_bytes q r rest h k l =
    from_lead 0 0x80 0xBF q (0xC0 + q) (q * 64 + r) ((0x80 + r) ∷ rest) rest (lead_two q h k)
      (from_last 0x80 0xBF q r rest l (omega arith) (omega (arith, l)))

pub three_bytes :
    (low high q r1 r2 : ℕ) (rest : Bytes)
    → decode_lead (0xE0 + q) ≡ ([], waiting 1 low high q)
    → low ≤ 0x80 + r1
    → 0x80 + r1 ≤ high
    → r1 < 64
    → r2 < 64
    → Starts
        ((q * 64 + r1) * 64 + r2)
        rest
        (decode idle ((0xE0 + q) ∷ (0x80 + r1) ∷ (0x80 + r2) ∷ rest))
three_bytes low high q r1 r2 rest lead h k l m =
    from_lead 1 low high q (0xE0 + q) _ ((0x80 + r1) ∷ (0x80 + r2) ∷ rest) rest lead (
      from_more 0 low high q r1 _ ((0x80 + r2) ∷ rest) rest l h k
        (from_last 0x80 0xBF (q * 64 + r1) r2 rest m (omega arith) (omega (arith, m))))

pub four_bytes :
    (low high q r1 r2 r3 : ℕ) (rest : Bytes)
    → decode_lead (0xF0 + q) ≡ ([], waiting 2 low high q)
    → low ≤ 0x80 + r1
    → 0x80 + r1 ≤ high
    → r1 < 64
    → r2 < 64
    → r3 < 64
    → Starts
        (((q * 64 + r1) * 64 + r2) * 64 + r3)
        rest
        (decode idle ((0xF0 + q) ∷ (0x80 + r1) ∷ (0x80 + r2) ∷ (0x80 + r3) ∷ rest))
four_bytes low high q r1 r2 r3 rest lead h k l m n =
    from_lead 2 low high q (0xF0 + q) _ ((0x80 + r1) ∷ (0x80 + r2) ∷ (0x80 + r3) ∷ rest) rest lead (
      from_more 1 low high q r1 _ ((0x80 + r2) ∷ (0x80 + r3) ∷ rest) rest l h k (
        from_more 0 0x80 0xBF (q * 64 + r1) r2 _ ((0x80 + r3) ∷ rest) rest m (omega arith)
          (omega (arith, m))
          (from_last 0x80 0xBF ((q * 64 + r1) * 64 + r2) r3 rest n (omega arith)
            (omega (arith, n)))))

pub lead_e0 : (q : ℕ) → q < 1 → decode_lead (0xE0 + q) ≡ ([], waiting 1 0xA0 0xBF q)
unfolding decode_lead
lead_e0 q h = ground arith

pub lead_low : (q : ℕ) → 1 ≤ q → q < 13 → decode_lead (0xE0 + q) ≡ ([], waiting 1 0x80 0xBF q)
unfolding decode_lead
lead_low q h k = ground arith

pub lead_ed : (q : ℕ) → 13 ≤ q → q < 14 → decode_lead (0xE0 + q) ≡ ([], waiting 1 0x80 0x9F q)
unfolding decode_lead
lead_ed q h k = ground arith

pub lead_high : (q : ℕ) → 14 ≤ q → q < 16 → decode_lead (0xE0 + q) ≡ ([], waiting 1 0x80 0xBF q)
unfolding decode_lead
lead_high q h k = ground arith

pub lead_f0 : (q : ℕ) → q < 1 → decode_lead (0xF0 + q) ≡ ([], waiting 2 0x90 0xBF q)
unfolding decode_lead
lead_f0 q h = ground arith

pub lead_mid : (q : ℕ) → 1 ≤ q → q < 4 → decode_lead (0xF0 + q) ≡ ([], waiting 2 0x80 0xBF q)
unfolding decode_lead
lead_mid q h k = ground arith

pub lead_f4 : (q : ℕ) → 4 ≤ q → q < 5 → decode_lead (0xF0 + q) ≡ ([], waiting 2 0x80 0x8F q)
unfolding decode_lead
lead_f4 q h k = ground arith
