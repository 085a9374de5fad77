-- ===== src/Base/Finding.antt =====
-- `str.startswith` and `str.find` on lists of code points, and what a position that was found says.
use Prim.Native.Nat.{ℕ, zero, suc, ◌+◌, ◌≤◌, ◌<◌}
use mathlib.Core.Path.{◌≡◌, refl, sym, subst}
use mathlib.Core.Logic.{◌⊎◌, inl, inr}
use mathlib.Core.Bool.{Bool, true, false, ◌&&◌}
use mathlib.Core.List.{[], ◌∷◌, ◌++◌}
use mathlib.Core.Option.{Option, none, some, map}
use native.Mathlib.Omega.{arith}
use piy.Base.Tests.{◌==◌, if◌then◌else◌, Bool-cases}
use piy.Base.Lists.{length, take, drop}
use piy.Base.Texts.{Text}

-- text.startswith(prefix)
unfoldable pub starts_with : Text → Text → Bool
starts_with [] s = true
starts_with (c ∷ p) [] = false
starts_with (c ∷ p) (d ∷ s) = c == d && starts_with p s

-- text.find(part), with None for -1
unfoldable pub find : Text → Text → Option ℕ
unfolding starts_with
find part [] = if starts_with part [] then some 0 else none
find part (c ∷ s) =
    let rest = find part s in if starts_with part (c ∷ s) then some 0 else map suc rest

pub starts_with-take :
    (p s : Text) → starts_with p s ≡ true → (take (length p) s ≡ p) × (length p ≤ length s)
unfolding starts_with
starts_with-take [] s h = (refl, omega arith)
starts_with-take (c ∷ p) [] h = cc
starts_with-take (c ∷ p) (d ∷ s) h = ground (arith, starts_with-take p s)

pub starts_with-append : (p s : Text) → starts_with p (p ++ s) ≡ true
unfolding starts_with
starts_with-append [] s = refl
starts_with-append (c ∷ p) s = ground (arith, starts_with-append p s)

find_next-cases :
    (here : Bool) (rest : Option ℕ) {k : ℕ}
    → (if here then some 0 else map suc rest) ≡ some k
    → ((here ≡ true) × (k ≡ 0)) ⊎ ((j : ℕ) × (here ≡ false) × (rest ≡ some j) × (k ≡ suc j))
find_next-cases true rest h = inl (refl, cc)
find_next-cases false none h = cc
find_next-cases false (some j) h = inr (j, refl, refl, cc)

-- A position that was found is in range, and the part stands there.
pub find-starts_with :
    (part s : Text) {k : ℕ}
    → find part s ≡ some k
    → (starts_with part (drop k s) ≡ true) × (k + length part ≤ length s)
unfolding find
find-starts_with part [] {k} h = elim (Bool-cases (starts_with part [])) [
  | inl t ↦
      let zero_is : 0 ≡ k = ground arith in
      subst (λ j. (starts_with part (drop j []) ≡ true) × (j + length part ≤ 0)) zero_is
        (t, omega (arith, (starts_with-take part [] t).1))
  | inr f ↦ ground arith
]
find-starts_with part (c ∷ s) {k} h =
    elim (find_next-cases (starts_with part (c ∷ s)) (find part s) h) [
      | inl (t, e) ↦
          subst
            (λ j. (starts_with part (drop j (c ∷ s)) ≡ true) × (j + length part ≤ suc (length s)))
            (sym e) (t, omega (arith, (starts_with-take part (c ∷ s) t).1))
      | inr (j, f, r, e) ↦
          let (there, room) = find-starts_with part s r in
          subst
            (λ i. (starts_with part (drop i (c ∷ s)) ≡ true) × (i + length part ≤ suc (length s)))
            (sym e) (there, omega (arith, room))
    ]

-- Before the position that was found, the part stands nowhere.
pub find-first :
    (part s : Text) {k : ℕ} (j : ℕ)
    → find part s ≡ some k
    → j < k
    → starts_with part (drop j s) ≡ false
unfolding find
find-first part [] zero h before = ground arith
find-first part [] (suc j) h before = ground arith
find-first part (c ∷ s) {k} zero h before =
    elim (find_next-cases (starts_with part (c ∷ s)) (find part s) h) [
      | inl (t, e) ↦ absurd (omega (arith, e, before))
      | inr (i, f, r, e) ↦ f
    ]
find-first part (c ∷ s) {k} (suc j) h before =
    elim (find_next-cases (starts_with part (c ∷ s)) (find part s) h) [
      | inl (t, e) ↦ absurd (omega (arith, e, before))
      | inr (i, f, r, e) ↦ find-first part s j r (omega (arith, before, e))
    ]

-- Where nothing was found, the part stands nowhere.
pub find-none : (part s : Text) (j : ℕ) → find part s ≡ none → starts_with part (drop j s) ≡ false
unfolding find
find-none part [] zero h = ground arith
find-none part [] (suc j) h = ground arith
find-none part (c ∷ s) zero h = ground arith
find-none part (c ∷ s) (suc j) h =
    find-none part s j (rest-none (starts_with part (c ∷ s)) (find part s) h)
  where
    rest-none :
        (here : Bool) (rest : Option ℕ)
        → (if here then some 0 else map suc rest) ≡ none
        → rest ≡ none
    rest-none true rest e = cc
    rest-none false none e = refl
    rest-none false (some i) e = cc
