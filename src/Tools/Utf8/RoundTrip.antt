-- ===== src/Tools/Utf8/RoundTrip.antt =====
-- Python's "utf-8" codec: decoding an encoded text gives the text, however the bytes are cut up.
use piy.Base.{ℕ, Text, [], ◌∷◌, ◌++◌, ◌≡◌, refl, sym, ap, ◌∙◌, inl, inr, All, arith}
use mathlib.Core.List.{append_assoc, append-nil}
use piy.Tools.Utf8.{Bytes, utf8, encode, Decoder, idle, decode_byte, decode, flush, decode_all}
use piy.Tools.Utf8.Steps.{Starts}
use piy.Tools.Utf8.Sequences.{Scalar, below, decode-short, decode-two, decode-basic, decode-astral}

decode-utf8 : (c : ℕ) (rest : Bytes) → Scalar c → Starts c rest (decode idle (utf8 c ++ rest))
decode-utf8 c rest scalar = elim (below c 0x80) [
  | inl a ↦ decode-short c rest a
  | inr a ↦ elim (below c 0x800) [
    | inl b ↦ decode-two c rest a b
    | inr b ↦ elim (below c 0x10000) [
      | inl d ↦ decode-basic c rest b d scalar
      | inr d ↦
          decode-astral c rest d
            (elim scalar [ inl s ↦ absurd (omega (arith, d, s)) | inr s ↦ s.1 ])
    ]
  ]
]

decode-encode : (text : Text) → All Scalar text → decode idle (encode text) ≡ (text, idle)
unfolding encode
decode-encode [] h = unfold decode in refl
decode-encode (c ∷ text) h =
    decode-utf8 c (encode text) h.0 ∙ ap (λ p. (c ∷ p.0, p.1)) (decode-encode text h.1)

-- Decoding the bytes of a text without surrogates gives the text.
pub decode_all-encode : (text : Text) → All Scalar text → decode_all (encode text) ≡ text
unfolding decode_all flush
decode_all-encode text h = ap (λ p. p.0 ++ flush p.1) (decode-encode text h) ∙ append-nil text

-- Bytes in two pieces: the decoder goes on where it stood.
pub decode-append :
    (d : Decoder) (xs ys : Bytes)
    → decode d (xs ++ ys)
      ≡ ((decode d xs).0 ++ (decode (decode d xs).1 ys).0, (decode (decode d xs).1 ys).1)
unfolding decode
decode-append d [] ys = refl
decode-append d (b ∷ xs) ys =
    ap (λ p. ((decode_byte d b).0 ++ p.0, p.1)) (decode-append (decode_byte d b).1 xs ys)
    ∙ ap (λ t. (t, (decode (decode d (b ∷ xs)).1 ys).1))
        (sym (
          append_assoc (decode_byte d b).0 (decode (decode_byte d b).1 xs).0
            (decode (decode (decode_byte d b).1 xs).1 ys).0))

pub encode-append : (s t : Text) → encode (s ++ t) ≡ encode s ++ encode t
unfolding encode
encode-append [] t = refl
encode-append (c ∷ s) t =
    ap (λ r. utf8 c ++ r) (encode-append s t) ∙ sym (append_assoc (utf8 c) (encode s) (encode t))
