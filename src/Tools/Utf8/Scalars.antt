-- ===== src/Tools/Utf8/Scalars.antt =====
-- Python's "utf-8" decoder gives no surrogates and nothing past the last code point.
use piy.Base.{
  ℕ, zero, suc, ◌+◌, ◌-◌, ◌*◌, ◌≤◌, ◌<◌, Text, [], ◌∷◌, ◌≡◌, refl, inl, inr, Bool, true, false,
  ◌&&◌, ltb, leb, if◌then◌else◌, All, All-append, &&-parts, leb→le, ltb→lt, ltb→le, arith,
}
use piy.Tools.Utf8.{
  Bytes, Decoder, idle, waiting, replacement_character, decode_lead, decode_continued, decode_byte,
  decode, flush, decode_all,
}
use piy.Tools.Utf8.Sequences.{Scalar}

-- Whatever bytes complete the sequence, it is a scalar.
abbrev Completes : ℕ → ℕ → ℕ → ℕ → Type 0
Completes zero low high bits = (b : ℕ) → low ≤ b → b ≤ high → Scalar (bits * 64 + (b - 0x80))
Completes (suc more) low high bits =
    (b : ℕ) → low ≤ b → b ≤ high → Completes more 0x80 0xBF (bits * 64 + (b - 0x80))

abbrev pub Sound : Decoder → Type 0
Sound idle = Unit
Sound (waiting more low high bits) = Completes more low high bits

abbrev SoundStep : Text × Decoder → Type 0
SoundStep p = All Scalar p.0 × Sound p.1

SoundStep-if :
    (b : Bool) (x y : Text × Decoder)
    → (b ≡ true → SoundStep x)
    → (b ≡ false → SoundStep y)
    → SoundStep (if b then x else y)
SoundStep-if true x y h k = h refl
SoundStep-if false x y h k = k refl

-- A sequence of three bytes below the surrogates, and behind them, and one of four bytes.
Completes-below :
    (low high bits : ℕ) → bits * 64 + (high - 0x80) < 0x360 → Completes 1 low high bits
Completes-below low high bits h b1 l1 h1 b2 l2 h2 = inl (omega (arith, h, h1, h2))

Completes-behind : (bits : ℕ) → 14 ≤ bits → bits < 16 → Completes 1 0x80 0xBF bits
Completes-behind bits h k b1 l1 h1 b2 l2 h2 = inr (omega (arith, h), omega (arith, k, h1, h2))

Completes-astral :
    (low high bits : ℕ)
    → 16 ≤ bits * 64 + (low - 0x80)
    → bits * 64 + (high - 0x80) < 0x110
    → Completes 2 low high bits
Completes-astral low high bits h k b1 l1 h1 b2 l2 h2 b3 l3 h3 =
    inr (omega (arith, h, l1), omega (arith, k, h1, h2, h3))

decode_lead-Sound : (b : ℕ) → SoundStep (decode_lead b)
unfolding decode_lead
decode_lead-Sound b =
    SoundStep-if (ltb b 0x80) _ _ (λ h. ((inl (omega (arith, ltb→lt b 0x80 h)), tt), tt))
      (λ _.
        SoundStep-if (ltb b 0xC2) _ _ (λ _. replaced)
          (λ _.
            SoundStep-if (ltb b 0xE0) _ _
              (λ h. (tt, λ b1 l1 h1. inl (omega (arith, ltb→lt b 0xE0 h, h1))))
              (λ _.
                SoundStep-if (ltb b 0xE1) _ _
                  (λ h. (tt, Completes-below 0xA0 0xBF (b - 0xE0) (omega (arith, ltb→lt b 0xE1 h))))
                  (λ _.
                    SoundStep-if (ltb b 0xED) _ _
                      (λ h.
                        (tt, Completes-below 0x80 0xBF (b - 0xE0) (omega (arith, ltb→lt b 0xED h))))
                      (λ _.
                        SoundStep-if (ltb b 0xEE) _ _
                          (λ h. (
                            tt,
                            Completes-below 0x80 0x9F (b - 0xE0) (omega (arith, ltb→lt b 0xEE h)),
                          ))
                          (λ g.
                            SoundStep-if (ltb b 0xF0) _ _
                              (λ h. (
                                tt,
                                Completes-behind (b - 0xE0) (omega (arith, ltb→le b 0xEE g))
                                    (omega (arith, ltb→lt b 0xF0 h)),
                              ))
                              (λ e.
                                SoundStep-if (ltb b 0xF1) _ _
                                  (λ h. (
                                    tt,
                                    Completes-astral 0x90 0xBF (b - 0xF0) (omega arith)
                                        (omega (arith, ltb→lt b 0xF1 h)),
                                  ))
                                  (λ f.
                                    SoundStep-if (ltb b 0xF4) _ _
                                      (λ h. (
                                        tt,
                                        Completes-astral 0x80 0xBF (b - 0xF0)
                                            (omega (arith, ltb→le b 0xF1 f))
                                            (omega (arith, ltb→lt b 0xF4 h)),
                                      ))
                                      (λ g4.
                                        SoundStep-if (ltb b 0xF5) _ _
                                          (λ h. (
                                            tt,
                                            Completes-astral 0x80 0x8F (b - 0xF0)
                                                (omega (arith, ltb→le b 0xF4 g4))
                                                (omega (arith, ltb→lt b 0xF5 h)),
                                          ))
                                          (λ _. replaced))))))))))
  where
    replaced : SoundStep (replacement_character ∷ [], idle)
    replaced = ((inr (omega arith, omega arith), tt), tt)

decode_continued-Sound :
    (more low high bits b : ℕ)
    → Completes more low high bits
    → low ≤ b
    → b ≤ high
    → SoundStep (decode_continued more (bits * 64 + (b - 0x80)))
unfolding decode_continued
decode_continued-Sound zero low high bits b h l k = ((h b l k, tt), tt)
decode_continued-Sound (suc more) low high bits b h l k = (tt, h b l k)

decode_byte-Sound : (d : Decoder) (b : ℕ) → Sound d → SoundStep (decode_byte d b)
unfolding decode_byte
decode_byte-Sound idle b h = decode_lead-Sound b
decode_byte-Sound (waiting more low high bits) b h =
    let fresh = decode_lead-Sound b in
    SoundStep-if (leb low b && leb b high) _ _
      (λ t.
        let (l, k) = &&-parts (leb low b) (leb b high) t in
        decode_continued-Sound more low high bits b h (leb→le low b l) (leb→le b high k))
      (λ _. ((inr (omega arith, omega arith), fresh.0), fresh.1))

-- From a sound state, whatever the bytes: scalars, and a sound state.
pub decode-Scalar :
    (d : Decoder) (bytes : Bytes)
    → Sound d
    → All Scalar (decode d bytes).0 × Sound (decode d bytes).1
unfolding decode
decode-Scalar d [] h = (tt, h)
decode-Scalar d (b ∷ bytes) h =
    let (here, sound) = decode_byte-Sound d b h in
    let (later, last) = decode-Scalar (decode_byte d b).1 bytes sound in
    (All-append Scalar (decode_byte d b).0 (decode (decode_byte d b).1 bytes).0 here later, last)

flush-Scalar : (d : Decoder) → All Scalar (flush d)
unfolding flush
flush-Scalar idle = tt
flush-Scalar (waiting more low high bits) = (inr (omega arith, omega arith), tt)

pub decode_all-Scalar : (bytes : Bytes) → All Scalar (decode_all bytes)
unfolding decode_all
decode_all-Scalar bytes =
    All-append Scalar (decode idle bytes).0 (flush (decode idle bytes).1)
      (decode-Scalar idle bytes tt).0 (flush-Scalar (decode idle bytes).1)
