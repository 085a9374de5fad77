-- ===== src/Tools/Utf8/Sequences.antt =====
-- Python's "utf-8" codec: the bytes of one scalar lead the decoder to it and back to rest.
use piy.Base.{
  ℕ, ◌+◌, ◌*◌, ◌/◌, ◌%◌, ◌≤◌, ◌<◌, [], ◌∷◌, ◌++◌, ◌≡◌, refl, sym, ◌⊎◌, inl, inr, false, ltb, arith,
  lt→ltb, le→ltb,
}
use mathlib.Core.Path.{subst}
use piy.Tools.Utf8.{Bytes, utf8, idle, waiting, decode_lead, decode}
use piy.Tools.Utf8.Steps.{
  Starts, one_byte, two_bytes, three_bytes, four_bytes, lead_e0, lead_low, lead_ed, lead_high,
  lead_f0, lead_mid, lead_f4,
}

-- A code point that is no surrogate.
abbrev pub Scalar : ℕ → Type 0
Scalar c = (c < 0xD800) ⊎ ((0xE000 ≤ c) × (c < 0x110000))

pub below : (a b : ℕ) → (a < b) ⊎ (b ≤ a)
below a b = ground arith

-- The bytes of a scalar, by their number.
utf8_two : (c : ℕ) → 0x80 ≤ c → c < 0x800 → utf8 c ≡ (0xC0 + c / 64) ∷ (0x80 + c % 64) ∷ []
unfolding utf8
utf8_two c h k = rw (le→ltb c 0x80 h, lt→ltb c 0x800 k) refl

utf8_three :
    (c : ℕ)
    → 0x800 ≤ c
    → c < 0x10000
    → utf8 c ≡ (0xE0 + c / 4096) ∷ (0x80 + c / 64 % 64) ∷ (0x80 + c % 64) ∷ []
unfolding utf8
utf8_three c h k =
    let past : ltb c 0x80 ≡ false = le→ltb c 0x80 (omega (arith, h)) in
    rw (past, le→ltb c 0x800 h, lt→ltb c 0x10000 k) refl

utf8_four :
    (c : ℕ)
    → 0x10000 ≤ c
    → utf8 c
      ≡ (0xF0 + c / 262144) ∷ (0x80 + c / 4096 % 64) ∷ (0x80 + c / 64 % 64) ∷ (0x80 + c % 64) ∷ []
unfolding utf8
utf8_four c h =
    let past : ltb c 0x80 ≡ false = le→ltb c 0x80 (omega (arith, h)) in
    let past_two : ltb c 0x800 ≡ false = le→ltb c 0x800 (omega (arith, h)) in
    rw (past, past_two, le→ltb c 0x10000 h) refl

decode-three :
    (low high c : ℕ) (rest : Bytes)
    → 0x800 ≤ c
    → c < 0x10000
    → decode_lead (0xE0 + c / 4096) ≡ ([], waiting 1 low high (c / 4096))
    → low ≤ 0x80 + c / 64 % 64
    → 0x80 + c / 64 % 64 ≤ high
    → Starts c rest (decode idle (utf8 c ++ rest))
decode-three low high c rest h k lead l m =
    subst (λ t. Starts c rest (decode idle (t ++ rest))) (sym (utf8_three c h k))
      (subst
        (λ n.
          Starts n rest
            (decode idle ((0xE0 + c / 4096) ∷ (0x80 + c / 64 % 64) ∷ (0x80 + c % 64) ∷ rest)))
        {x = (c / 4096 * 64 + c / 64 % 64) * 64 + c % 64} (omega arith)
        (three_bytes low high (c / 4096) (c / 64 % 64) (c % 64) rest lead l m (omega arith)
          (omega arith)))

decode-four :
    (low high c : ℕ) (rest : Bytes)
    → 0x10000 ≤ c
    → decode_lead (0xF0 + c / 262144) ≡ ([], waiting 2 low high (c / 262144))
    → low ≤ 0x80 + c / 4096 % 64
    → 0x80 + c / 4096 % 64 ≤ high
    → Starts c rest (decode idle (utf8 c ++ rest))
decode-four low high c rest h lead l m =
    subst (λ t. Starts c rest (decode idle (t ++ rest))) (sym (utf8_four c h))
      (subst
        (λ n. Starts n rest (
          decode idle (
            (0xF0 + c / 262144)
            ∷ (0x80 + c / 4096 % 64)
            ∷ (0x80 + c / 64 % 64)
            ∷ (0x80 + c % 64)
            ∷ rest)))
        {x = ((c / 262144 * 64 + c / 4096 % 64) * 64 + c / 64 % 64) * 64 + c % 64} (omega arith)
        (four_bytes low high (c / 262144) (c / 4096 % 64) (c / 64 % 64) (c % 64) rest lead l m
          (omega arith) (omega arith) (omega arith)))

pub decode-short : (c : ℕ) (rest : Bytes) → c < 0x80 → Starts c rest (decode idle (utf8 c ++ rest))
unfolding utf8
decode-short c rest h = rw (lt→ltb c 0x80 h) (one_byte c rest h)

pub decode-two :
    (c : ℕ) (rest : Bytes) → 0x80 ≤ c → c < 0x800 → Starts c rest (decode idle (utf8 c ++ rest))
decode-two c rest h k =
    subst (λ t. Starts c rest (decode idle (t ++ rest))) (sym (utf8_two c h k))
      (subst (λ n. Starts n rest (decode idle ((0xC0 + c / 64) ∷ (0x80 + c % 64) ∷ rest)))
        {x = c / 64 * 64 + c % 64} (omega arith)
        (two_bytes (c / 64) (c % 64) rest (omega (arith, h)) (omega (arith, k)) (omega arith)))

pub decode-basic :
    (c : ℕ) (rest : Bytes)
    → 0x800 ≤ c
    → c < 0x10000
    → Scalar c
    → Starts c rest (decode idle (utf8 c ++ rest))
decode-basic c rest h k scalar = elim (below c 0x1000) [
  | inl a ↦
      decode-three 0xA0 0xBF c rest h k (lead_e0 (c / 4096) (omega (arith, a)))
        (omega (arith, a, h)) (omega arith)
  | inr a ↦ elim (below c 0xD000) [
    | inl b ↦
        decode-three 0x80 0xBF c rest h k
          (lead_low (c / 4096) (omega (arith, a)) (omega (arith, b))) (omega arith) (omega arith)
    | inr b ↦ elim scalar [
      | inl s ↦
          decode-three 0x80 0x9F c rest h k
            (lead_ed (c / 4096) (omega (arith, b)) (omega (arith, s))) (omega arith)
            (omega (arith, b, s))
      | inr s ↦
          decode-three 0x80 0xBF c rest h k
            (lead_high (c / 4096) (omega (arith, s.0)) (omega (arith, k))) (omega arith)
            (omega arith)
    ]
  ]
]

pub decode-astral :
    (c : ℕ) (rest : Bytes)
    → 0x10000 ≤ c
    → c < 0x110000
    → Starts c rest (decode idle (utf8 c ++ rest))
decode-astral c rest h k = elim (below c 0x40000) [
  | inl a ↦
      decode-four 0x90 0xBF c rest h (lead_f0 (c / 262144) (omega (arith, a))) (omega (arith, a, h))
        (omega arith)
  | inr a ↦ elim (below c 0x100000) [
    | inl b ↦
        decode-four 0x80 0xBF c rest h (lead_mid (c / 262144) (omega (arith, a)) (omega (arith, b)))
          (omega arith) (omega arith)
    | inr b ↦
        decode-four 0x80 0x8F c rest h (lead_f4 (c / 262144) (omega (arith, b)) (omega (arith, k)))
          (omega arith) (omega (arith, b, k))
  ]
]
