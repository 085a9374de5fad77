-- ===== src/Tools/Accumulator/Tail.antt =====
-- tile/tools/support/output_accumulator.py: trimming the buffer after every chunk keeps what trimming all
-- the bytes at once would.
use piy.Base.{
  ℕ, zero, suc, ◌+◌, ◌-◌, ◌≤◌, ◌<◌, Text, [], ◌∷◌, ◌++◌, ◌≡◌, refl, sym, ap, ◌∙◌, inl, inr, true,
  length, get_elem?, drop, leb, if◌then◌else◌, length-append, length-drop, drop-drop, drop-append,
  get_elem?-drop, get_elem?-append, arith, Bool-cases, leb→le, leb→lt, le→leb, lt→leb,
}
use piy.Tools.Utf8.{Bytes, utf8, encode}
use piy.Tools.Accumulator.{
  newline_at, is_continuation, boundary_loop, utf8_boundary_at_or_after, trim_start,
  starts_at_line_boundary,
}

-- The continuation bytes at the front.
abbrev pub conts : Bytes → ℕ
conts [] = 0
conts (b ∷ bytes) = let rest = conts bytes in if is_continuation b then suc rest else 0

boundary_loop-conts : (n : ℕ) (bytes : Bytes) → boundary_loop n bytes ≡ n + conts bytes
unfolding boundary_loop
boundary_loop-conts n [] = omega arith
boundary_loop-conts n (b ∷ bytes) = ground (arith, boundary_loop-conts (suc n) bytes)

conts_le : (bytes : Bytes) → conts bytes ≤ length bytes
conts_le [] = omega arith
conts_le (b ∷ bytes) = ground (arith, conts_le bytes)

conts-append : (xs ys : Bytes) → conts ys ≡ 0 → conts (xs ++ ys) ≡ conts xs
conts-append [] ys h = h
conts-append (b ∷ xs) ys h = ground (arith, conts-append xs ys h)

conts-drop : (n : ℕ) (bytes : Bytes) → n ≤ conts bytes → conts (drop n bytes) ≡ conts bytes - n
conts-drop zero bytes h = omega arith
conts-drop (suc n) [] h = absurd (omega (arith, h))
conts-drop (suc n) (b ∷ bytes) h = ground (arith, conts-drop n bytes)

pub trim_start-short : (bytes : Bytes) (max : ℕ) → length bytes ≤ max → trim_start bytes max ≡ 0
unfolding trim_start
trim_start-short bytes max h = rw (le→leb (length bytes) max h) refl

trim_start-long :
    (bytes : Bytes) (max : ℕ)
    → max < length bytes
    → trim_start bytes max ≡ (length bytes - max) + conts (drop (length bytes - max) bytes)
unfolding trim_start utf8_boundary_at_or_after
trim_start-long bytes max h =
    rw (lt→leb (length bytes) max h)
      (boundary_loop-conts (length bytes - max) (drop (length bytes - max) bytes))

pub trim_start_le : (bytes : Bytes) (max : ℕ) → trim_start bytes max ≤ length bytes
trim_start_le bytes max = elim (Bool-cases (leb (length bytes) max)) [
  | inl t ↦ omega (arith, trim_start-short bytes max (leb→le (length bytes) max t))
  | inr f ↦
      let long = leb→lt (length bytes) max f in
      omega (
        arith,
        long,
        trim_start-long bytes max long,
        conts_le (drop (length bytes - max) bytes),
        length-drop (length bytes - max) bytes,
      )
]

-- The bytes that are left of all of them.
abbrev pub trimmed : Bytes → ℕ → Bytes
trimmed bytes max = drop (trim_start bytes max) bytes

pub length-trimmed : (bytes : Bytes) (max : ℕ) → length (trimmed bytes max) ≤ max
length-trimmed bytes max = elim (Bool-cases (leb (length bytes) max)) [
  | inl t ↦ omega (arith, leb→le (length bytes) max t, length-drop (trim_start bytes max) bytes)
  | inr f ↦
      let long = leb→lt (length bytes) max f in
      omega (arith, long, trim_start-long bytes max long, length-drop (trim_start bytes max) bytes)
]

-- Trimming what is kept of the bytes and more of them.
module _ (max : ℕ) (bytes more : Bytes) (fresh : conts more ≡ 0) where
  abbrev kept : Bytes
  kept = trimmed bytes max

  kept-append : kept ++ more ≡ drop (trim_start bytes max) (bytes ++ more)
  kept-append = sym (drop-append (trim_start bytes max) bytes more (trim_start_le bytes max))

  length-kept : length (kept ++ more) ≡ (length bytes - trim_start bytes max) + length more
  length-kept = omega (arith, length-append kept more, length-drop (trim_start bytes max) bytes)

  trim_start-all_kept :
      length bytes ≤ max
      → trim_start bytes max + trim_start (kept ++ more) max ≡ trim_start (bytes ++ more) max
  trim_start-all_kept h =
      let none_cut = trim_start-short bytes max h in
      let same = ap (λ n. trim_start (drop n bytes ++ more) max) none_cut in
      omega (arith, none_cut, same)

  trim_start-fits :
      max < length bytes
      → length (kept ++ more) ≤ max
      → trim_start bytes max + trim_start (kept ++ more) max ≡ trim_start (bytes ++ more) max
  trim_start-fits long fits =
      let first = length bytes - max in
      let second = length (bytes ++ more) - max in
      let total = length-append bytes more in
      let cut = trim_start-long bytes max long in
      let front = conts (drop first bytes) in
      let inside : second - first ≤ front =
        omega (arith, long, fits, total, cut, length-kept, trim_start_le bytes max) in
      let whole : conts (drop first (bytes ++ more)) ≡ front =
        ap conts (drop-append first bytes more (omega arith))
        ∙ conts-append (drop first bytes) more fresh in
      let later : conts (drop second (bytes ++ more)) ≡ front - (second - first) =
        ap conts (
          sym
            (drop-drop first (second - first) second (bytes ++ more) (omega (arith, long, total))))
        ∙ conts-drop (second - first) (drop first (bytes ++ more)) (omega (arith, inside, whole))
        ∙ ap (λ n. n - (second - first)) whole in
      omega (
        arith,
        cut,
        trim_start-short (kept ++ more) max fits,
        later,
        inside,
        total,
        long,
        trim_start-long (bytes ++ more) max (omega (arith, long, total)),
      )

  trim_start-over :
      max < length bytes
      → max < length (kept ++ more)
      → trim_start bytes max + trim_start (kept ++ more) max ≡ trim_start (bytes ++ more) max
  trim_start-over long over =
      let cut = trim_start bytes max in
      let next = length (kept ++ more) - max in
      let second = length (bytes ++ more) - max in
      let total = length-append bytes more in
      let same : conts (drop next (kept ++ more)) ≡ conts (drop second (bytes ++ more)) =
        ap (λ t. conts (drop next t)) kept-append
        ∙ ap conts (
            drop-drop cut next second (bytes ++ more)
              (omega (arith, long, over, total, length-kept, trim_start_le bytes max))) in
      omega (
        arith,
        same,
        total,
        long,
        over,
        length-kept,
        trim_start_le bytes max,
        trim_start-long (kept ++ more) max over,
        trim_start-long (bytes ++ more) max (omega (arith, long, total)),
      )

  pub trim_start-again :
      trim_start bytes max + trim_start (kept ++ more) max ≡ trim_start (bytes ++ more) max
  trim_start-again = elim (Bool-cases (leb (length bytes) max)) [
    | inl t ↦ trim_start-all_kept (leb→le (length bytes) max t)
    | inr f ↦ elim (Bool-cases (leb (length (kept ++ more)) max)) [
      | inl t ↦ trim_start-fits (leb→lt (length bytes) max f) (leb→le (length (kept ++ more)) max t)
      | inr g ↦ trim_start-over (leb→lt (length bytes) max f) (leb→lt (length (kept ++ more)) max g)
    ]
  ]

  -- The buffer after the chunk is the whole output's, cut at once.
  pub kept-again : trimmed (kept ++ more) max ≡ trimmed (bytes ++ more) max
  kept-again =
      ap (drop (trim_start (kept ++ more) max)) kept-append
      ∙ drop-drop (trim_start bytes max) (trim_start (kept ++ more) max)
          (trim_start (bytes ++ more) max) (bytes ++ more) (sym trim_start-again)

  -- And so is the flag, which a cut of nothing leaves as it was.
  pub starts_at_line_boundary-again :
      starts_at_line_boundary
        (kept ++ more)
        (trim_start (kept ++ more) max)
        (starts_at_line_boundary bytes (trim_start bytes max) true)
      ≡ starts_at_line_boundary (bytes ++ more) (trim_start (bytes ++ more) max) true
  unfolding starts_at_line_boundary
  starts_at_line_boundary-again =
      at (trim_start bytes max) (trim_start (kept ++ more) max) (trim_start (bytes ++ more) max)
        trim_start-again (trim_start_le bytes max) (kept ++ more) kept-append
    where
      at :
          (cut next all : ℕ)
          → cut + next ≡ all
          → cut ≤ length bytes
          → (rest : Bytes) → rest ≡ drop cut (bytes ++ more)
          → starts_at_line_boundary rest next (starts_at_line_boundary bytes cut true)
            ≡ starts_at_line_boundary (bytes ++ more) all true
      at zero zero zero e h rest is = refl
      at zero zero (suc all) e h rest is = absurd (omega (arith, e))
      at (suc cut) zero zero e h rest is = absurd (omega (arith, e))
      at (suc cut) zero (suc all) e h rest is = ap newline_at (
          sym (get_elem?-append bytes more cut (omega (arith, h)))
          ∙ ap (get_elem? (bytes ++ more)) (omega (arith, e)))
      at cut (suc next) zero e h rest is = absurd (omega (arith, e))
      at cut (suc next) (suc all) e h rest is = ap newline_at (
          ap (λ t. get_elem? t next) is
          ∙ get_elem?-drop cut next all (bytes ++ more) (omega (arith, e)))

pub encode-fresh : (text : Text) → conts (encode text) ≡ 0
unfolding encode utf8 is_continuation
encode-fresh [] = refl
encode-fresh (c ∷ text) = ground arith
