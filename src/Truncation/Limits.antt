-- ===== src/Truncation/Limits.antt =====
-- The other entry points of truncation.py against `truncate_text`, and one line cut by characters.
use piy.Base.{
  ℕ, ◌+◌, ◌≤◌, ◌<◌, Text, codes, byte_len, join, join-nil, split, length, length-append,
  length-take, length-drop, take, drop, take-append-drop, ◌≡◌, refl, sym, ap, ◌⊎◌, inl, inr, ◌↔◌,
  List, [], ◌∷◌, ◌++◌, Bool-cases, true, false, leb, ltb, arith, tests,
}
use piy.Truncation.{
  TruncationKeep, select_loop, byte_limit_loop, separator_bytes, first_line, truncate_text,
  truncate_head, truncate_to_byte_limit, truncate_line,
}

-- The result is marked as truncated exactly when the text passes a limit.
pub truncate_text-fits :
    (text : Text) (keep : TruncationKeep) (max_lines max_bytes : ℕ)
    → ((truncate_text text keep max_lines max_bytes).truncated ≡ false)
      ↔ ((length (split text) ≤ max_lines) × (byte_len text ≤ max_bytes))
unfolding truncate_text
truncate_text-fits text keep ml mb = (λ h. ground arith, λ h. ground arith)

-- With room for every line the two loops take the same lines.
select_loop-byte_limit_loop :
    (max_lines max_bytes : ℕ) (ls out : List Text) (n : ℕ)
    → length out + length ls ≤ max_lines
    → (select_loop max_lines max_bytes ls out n).0 ≡ byte_limit_loop max_bytes ls out n
unfolding select_loop byte_limit_loop
select_loop-byte_limit_loop ml mb [] out n room = refl
select_loop-byte_limit_loop ml mb (l ∷ ls) out n room = ground (
  arith,
  length-append out (l ∷ []),
  select_loop-byte_limit_loop ml mb ls (out ++ l ∷ []) (n + separator_bytes out + byte_len l),
)

byte_limit_loop-first :
    (max_bytes : ℕ) (ls : List Text)
    → ltb max_bytes (byte_len (first_line ls)) ≡ true
    → byte_limit_loop max_bytes ls [] 0 ≡ []
unfolding byte_limit_loop first_line
byte_limit_loop-first mb [] h = refl
byte_limit_loop-first mb (l ∷ ls) h = ground arith

-- Capping by bytes alone is keeping the head with room for every line.
pub truncate_to_byte_limit-head :
    (text : Text) (byte_limit max_lines : ℕ)
    → length (split text) ≤ max_lines
    → let t = truncate_head text max_lines byte_limit in
      truncate_to_byte_limit text byte_limit ≡ (t.content, t.truncated)
unfolding truncate_to_byte_limit truncate_head truncate_text
truncate_to_byte_limit-head text b ml room =
    elim (Bool-cases (ltb b (byte_len (first_line (split text))))) [
      | inl long ↦ ground (arith, join-nil, ap join (byte_limit_loop-first b (split text) long))
      | inr short ↦
          ground (arith, ap join (select_loop-byte_limit_loop ml b (split text) [] 0 (omega arith)))
    ]

-- One line is cut after exactly `character_limit` characters, and only a longer one is.
pub truncate_line_lem :
    (line : Text) (character_limit : ℕ)
    → ((length line ≤ character_limit) × (truncate_line line character_limit ≡ (line, false)))
      ⊎ ((kept cut : Text) × (line ≡ kept ++ cut)
          × (length kept ≡ character_limit)
          × (0 < length cut)
          × (truncate_line line character_limit ≡ (kept ++ codes "... [truncated]", true)))
unfolding truncate_line
truncate_line_lem line n = elim (Bool-cases (leb (length line) n)) [
  | inl short ↦ inl (omega tests, rw short)
  | inr long ↦ inr (
    take n line,
    drop n line,
    sym (take-append-drop n line),
    omega (tests, length-take n line),
    omega (tests, length-drop n line),
    rw long,
  )
]
