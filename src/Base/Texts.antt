-- ===== src/Base/Texts.antt =====
-- Python's `str` as the list of its code points: equality, `split("\n")`, `"\n".join(...)`, and the
-- length of the UTF-8 encoding.
use Prim.Native.Nat.{ℕ, zero, suc, ◌+◌, ◌-◌, ◌/◌, ◌%◌, ◌<◌}
use Prim.Native.Char.{code}
use Prim.Native.String.{String}
use mathlib.Core.Path.{◌≡◌, refl}
use mathlib.Core.Logic.{◌↔◌, ◌≢◌}
use mathlib.Core.Bool.{Bool, true, false, ◌&&◌}
use mathlib.Core.List.{List, [], ◌∷◌, ◌++◌, reverse, reverse-cons}
use native.Mathlib.Omega.{arith}
use piy.Base.Tests.{ltb, ◌==◌, if◌then◌else◌}

abbrev pub Text : Type 0
Text = List ℕ

abbrev pub codes : String → Text
codes String.[] = []
codes (String.◌∷◌ c s) = code c ∷ codes s

abbrev pub newline : ℕ
newline = 10

unfoldable pub text_eq : Text → Text → Bool
text_eq [] [] = true
text_eq [] (d ∷ t) = false
text_eq (c ∷ s) [] = false
text_eq (c ∷ s) (d ∷ t) = c == d && text_eq s t

pub text_eq_iff : (s t : Text) → (text_eq s t ≡ true) ↔ (s ≡ t)
unfolding text_eq
text_eq_iff [] [] = (λ _. refl, λ _. refl)
text_eq_iff [] (d ∷ t) = (λ h. cc, λ h. cc)
text_eq_iff (c ∷ s) [] = (λ h. cc, λ h. cc)
text_eq_iff (c ∷ s) (d ∷ t) = ground (arith, text_eq_iff s t)

pub text_eq_refl : (s : Text) → text_eq s s ≡ true
text_eq_refl s = (text_eq_iff s s).1 refl

-- The bytes that UTF-8 takes for one code point.
unfoldable pub utf8_len : ℕ → ℕ
utf8_len c = if ltb c 0x80 then 1 else if ltb c 0x800 then 2 else if ltb c 0x10000 then 3 else 4

-- len(text.encode("utf-8"))
unfoldable pub byte_len : Text → ℕ
unfolding utf8_len
byte_len [] = 0
byte_len (c ∷ s) = utf8_len c + byte_len s

pub byte_len-append : (s t : Text) → byte_len (s ++ t) ≡ byte_len s + byte_len t
unfolding byte_len
byte_len-append [] t = omega arith
byte_len-append (c ∷ s) t = omega (arith, byte_len-append s t)

-- str(n), on fuel for the digits, where the suffix is written already
unfoldable pub digits : ℕ → ℕ → Text → Text
digits zero n suffix = suffix
digits (suc fuel) n suffix =
    let rest = digits fuel (n / 10) ((48 + n % 10) ∷ suffix) in
    if ltb n 10 then (48 + n) ∷ suffix else rest

unfoldable pub show_number : ℕ → Text
unfolding digits
show_number n = digits (suc n) n []

-- One more character in front of the first part.
abbrev pub cons_first : ℕ → List Text → List Text
cons_first c [] = (c ∷ []) ∷ []
cons_first c (l ∷ ls) = (c ∷ l) ∷ ls

-- text.split("\n"): never the empty list.
unfoldable pub split : Text → List Text
split [] = [] ∷ []
split (c ∷ s) = let rest = split s in if c == newline then [] ∷ rest else cons_first c rest

-- "\n".join(lines)
unfoldable pub join : List Text → Text
join [] = []
join (l ∷ []) = l
join (l ∷ m ∷ ls) = l ++ newline ∷ join (m ∷ ls)

cons_first_ne_nil : (c : ℕ) (ls : List Text) → cons_first c ls ≢ []
cons_first_ne_nil c [] h = cc
cons_first_ne_nil c (l ∷ ls) h = cc

pub split_ne_nil : (s : Text) → split s ≢ []
unfolding split
split_ne_nil [] h = cc
split_ne_nil (c ∷ s) h = ground (arith, cons_first_ne_nil c (split s))

pub join-cons_first : (c : ℕ) (ls : List Text) → join (cons_first c ls) ≡ c ∷ join ls
unfolding join
join-cons_first c [] = refl
join-cons_first c (l ∷ []) = refl
join-cons_first c (l ∷ m ∷ ls) = refl

pub join-cons : (l : Text) (ls : List Text) → ls ≢ [] → join (l ∷ ls) ≡ l ++ newline ∷ join ls
unfolding join
join-cons l [] h = absurd (h refl)
join-cons l (m ∷ ls) h = refl

pub join-nil : join [] ≡ []
unfolding join
join-nil = refl

-- Joining what `split` gives is the text.
pub join-split : (s : Text) → join (split s) ≡ s
unfolding split
join-split [] = unfold join in refl
join-split (c ∷ s) =
    ground
      (arith, join-split s, join-cons [] (split s) (split_ne_nil s), join-cons_first c (split s))

-- Each line with one byte for a separator.
unfoldable pub weight : List Text → ℕ
weight [] = 0
weight (l ∷ ls) = byte_len l + 1 + weight ls

pub weight-append : (xs ys : List Text) → weight (xs ++ ys) ≡ weight xs + weight ys
unfolding weight
weight-append [] ys = omega arith
weight-append (l ∷ xs) ys = omega (arith, weight-append xs ys)

pub weight-single : (l : Text) → weight (l ∷ []) ≡ byte_len l + 1
unfolding weight
weight-single l = omega arith

pub weight_pos : (l : Text) (ls : List Text) → 0 < weight (l ∷ ls)
unfolding weight
weight_pos l ls = omega arith

pub weight-reverse : (ls : List Text) → weight (reverse ls) ≡ weight ls
unfolding weight
weight-reverse [] = refl
weight-reverse (l ∷ ls) =
    rw reverse-cons
      (omega (arith, weight-append (reverse ls) (l ∷ []), weight-single l, weight-reverse ls))

-- The separators stand between the lines, so there is one fewer than lines.
pub byte_len-join : (ls : List Text) → byte_len (join ls) ≡ weight ls - 1
unfolding join weight byte_len
byte_len-join [] = refl
byte_len-join (l ∷ []) = omega arith
byte_len-join (l ∷ m ∷ ls) =
    omega (arith, byte_len-append l (newline ∷ join (m ∷ ls)), byte_len-join (m ∷ ls))
