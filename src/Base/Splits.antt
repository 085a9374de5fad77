-- ===== src/Base/Splits.antt =====
-- Lines without newlines are what splitting their join gives.
use Prim.Native.Nat.{ℕ, zero, suc, ◌<◌}
use mathlib.Core.Path.{◌≡◌, refl, ap, ◌∙◌}
use mathlib.Core.Logic.{◌≢◌, inl, inr}
use mathlib.Core.List.{List, [], ◌∷◌, ◌++◌}
use native.Mathlib.Omega.{arith}
use piy.Base.Tests.{◌==◌, Bool-cases}
use piy.Base.Lists.{length, drop, All}
use piy.Base.Texts.{Text, newline, cons_first, split, join}

abbrev pub NoNewline : Text → Type 0
NoNewline = All (λ c. c ≢ newline)

cons_first-NoNewline :
    (c : ℕ) (ls : List Text) → c ≢ newline → All NoNewline ls → All NoNewline (cons_first c ls)
cons_first-NoNewline c [] h k = ((h, tt), tt)
cons_first-NoNewline c (l ∷ ls) h k = ((h, k.0), k.1)

pub split-NoNewline : (s : Text) → All NoNewline (split s)
unfolding split
split-NoNewline [] = (tt, tt)
split-NoNewline (c ∷ s) = elim (Bool-cases (c == newline)) [
  | inl t ↦ rw t (tt, split-NoNewline s)
  | inr f ↦ rw f (cons_first-NoNewline c (split s) (ground arith) (split-NoNewline s))
]

split-line : (l : Text) → NoNewline l → split l ≡ l ∷ []
unfolding split
split-line [] h = refl
split-line (c ∷ l) h = ground (arith, split-line l)

split-append_line : (l s : Text) → NoNewline l → split (l ++ newline ∷ s) ≡ l ∷ split s
unfolding split
split-append_line [] s h = refl
split-append_line (c ∷ l) s h = ground (arith, split-append_line l s)

pub split-join : (ls : List Text) → All NoNewline ls → 0 < length ls → split (join ls) ≡ ls
unfolding join
split-join [] h k = absurd (omega (arith, k))
split-join (l ∷ []) h k = split-line l h.0
split-join (l ∷ m ∷ ls) h k =
    split-append_line l (join (m ∷ ls)) h.0
    ∙ ap (λ r. l ∷ r) (split-join (m ∷ ls) h.1 (omega arith))

pub All-drop {ℓ κ} :
    {A : Type ℓ} (P : A → Type κ) (n : ℕ) (xs : List A) → All P xs → All P (drop n xs)
All-drop P zero xs h = h
All-drop P (suc n) [] h = tt
All-drop P (suc n) (x ∷ xs) h = All-drop P n xs h.1
