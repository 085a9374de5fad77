-- ===== src/Base/Search.antt =====
-- Laws of the searches of Base/Lists: `any`, `find?`, `select` and `count` by a Boolean test.
use Prim.Native.Nat.{ℕ, suc, ◌+◌, ◌≤◌}
use mathlib.Core.Path.{◌≡◌, refl, sym, subst}
use mathlib.Core.Logic.{◌⊎◌, inl, inr}
use mathlib.Core.Bool.{Bool, true, false, ◌||◌}
use mathlib.Core.List.{List, [], ◌∷◌, ◌++◌}
use mathlib.Core.Option.{Option, none, some}
use native.Mathlib.Omega.{arith}
use piy.Base.Tests.{if◌then◌else◌, Bool-cases}
use piy.Base.Lists.{any, find?, select, All}

module _ {ℓ} {A : Type ℓ} (p : A → Bool) where
  abbrev pub count : List A → ℕ
  count [] = 0
  count (x ∷ xs) = let rest = count xs in if p x then suc rest else rest

module _ {ℓ} {A : Type ℓ} where
  pub find?-head :
      (b : Bool) {y : A} {rest : Option A} {x : A}
      → (if b then some y else rest) ≡ some x
      → ((b ≡ true) × (y ≡ x)) ⊎ ((b ≡ false) × (rest ≡ some x))
  find?-head true h = inl (refl, cc)
  find?-head false h = inr (refl, h)

module _ {ℓ} {A : Type ℓ} (p : A → Bool) where
  pub find?-any : (xs : List A) {x : A} → find? p xs ≡ some x → any p xs ≡ true
  find?-any [] h = cc
  find?-any (y ∷ ys) {x} h = ground (arith, find?-any ys {x = x})

module _ {ℓ} {A : Type ℓ} (p : A → Bool) where
  pub any-append : (xs ys : List A) → any p (xs ++ ys) ≡ (any p xs || any p ys)
  any-append [] ys = refl
  any-append (x ∷ xs) ys = ground (arith, any-append xs ys)

  pub any-append_left : (xs ys : List A) → any p xs ≡ true → any p (xs ++ ys) ≡ true
  any-append_left xs ys h = ground (arith, any-append xs ys)

  pub select-append : (xs ys : List A) → select p (xs ++ ys) ≡ select p xs ++ select p ys
  select-append [] ys = refl
  select-append (x ∷ xs) ys = ground (arith, select-append xs ys)

  pub count-append : (xs ys : List A) → count p (xs ++ ys) ≡ count p xs + count p ys
  count-append [] ys = omega arith
  count-append (x ∷ xs) ys = ground (arith, count-append xs ys)

  pub count-eq-zero : (xs : List A) → any p xs ≡ false → count p xs ≡ 0
  count-eq-zero [] h = refl
  count-eq-zero (x ∷ xs) h = ground (arith, count-eq-zero xs)

  pub any-eq-false : (xs : List A) → count p xs ≡ 0 → any p xs ≡ false
  any-eq-false [] h = refl
  any-eq-false (x ∷ xs) h = ground (arith, any-eq-false xs)

  pub find?-test : (xs : List A) {x : A} → find? p xs ≡ some x → p x ≡ true
  find?-test [] h = cc
  find?-test (y ∷ ys) h = elim (find?-head (p y) h) [
    | inl (t, e) ↦ subst (λ z. p z ≡ true) e t
    | inr (f, r) ↦ find?-test ys r
  ]

  pub find?-none : (xs : List A) → any p xs ≡ false → find? p xs ≡ none
  find?-none [] h = refl
  find?-none (x ∷ xs) h = ground (arith, find?-none xs)

  -- A test that asks for more passes nowhere either.
  pub any-narrower :
      (q : A → Bool) (xs : List A)
      → ((x : A) → q x ≡ true → p x ≡ true)
      → any p xs ≡ false
      → any q xs ≡ false
  any-narrower q [] sub h = refl
  any-narrower q (x ∷ xs) sub h = ground (arith, sub x, any-narrower q xs sub)

  pub any-find?-none : (xs : List A) → find? p xs ≡ none → any p xs ≡ false
  any-find?-none [] h = refl
  any-find?-none (x ∷ xs) h = ground (arith, any-find?-none xs)

  -- A search that finds only the new last element.
  pub find?-append_last :
      (xs : List A) (x : A) → any p xs ≡ false → p x ≡ true → find? p (xs ++ x ∷ []) ≡ some x
  find?-append_last [] x none_before h = rw h refl
  find?-append_last (y ∷ ys) x none_before h = ground (arith, find?-append_last ys x)

  pub select-eq-nil : (xs : List A) → any p xs ≡ false → select p xs ≡ []
  select-eq-nil [] h = refl
  select-eq-nil (x ∷ xs) h = ground (arith, select-eq-nil xs)

  pub All-select {κ} : (P : A → Type κ) (xs : List A) → All P xs → All P (select p xs)
  All-select P [] h = tt
  All-select P (x ∷ xs) h = elim (Bool-cases (p x)) [
    | inl t ↦ rw t (h.0, All-select P xs h.1)
    | inr f ↦ rw f (All-select P xs h.1)
  ]

  pub All-find? {κ} : (P : A → Type κ) (xs : List A) {x : A} → find? p xs ≡ some x → All P xs → P x
  All-find? P [] e h = cc
  All-find? P (y ∷ ys) e h = elim (find?-head (p y) e) [
    | inl (t, same) ↦ subst P same h.0
    | inr (f, r) ↦ All-find? P ys r h.1
  ]

  All-none : (xs : List A) (x : A) → count p xs ≡ 0 → All (λ y. (p y ≡ false) ⊎ (y ≡ x)) xs
  All-none [] x h = tt
  All-none (y ∷ ys) x h = (inl (ground arith), All-none ys x (ground arith))

  -- An element that one search found, and that passes `p`.
  pub found-any :
      (q : A → Bool) (xs : List A) {x : A} → find? q xs ≡ some x → p x ≡ true → any p xs ≡ true
  found-any q [] e h = cc
  found-any q (y ∷ ys) e h = elim (find?-head (q y) e) [
    | inl (t, same) ↦ rw (subst (λ z. p z ≡ true) (sym same) h) refl
    | inr (f, r) ↦ ground (arith, found-any q ys r h)
  ]

  -- Where at most one element passes `p`, and a search found one that does, only that one passes.
  pub All-unique :
      (q : A → Bool) (xs : List A) {x : A}
      → p x ≡ true
      → find? q xs ≡ some x
      → count p xs ≤ 1
      → All (λ y. (p y ≡ false) ⊎ (y ≡ x)) xs
  All-unique q [] h e few = tt
  All-unique q (y ∷ ys) {x} h e few = elim (find?-head (q y) e) [
    | inl (t, same) ↦
        let here : p y ≡ true = subst (λ z. p z ≡ true) (sym same) h in
        (inr same, All-none ys x (ground arith))
    | inr (f, r) ↦
        let later : any p ys ≡ true = found-any q ys r h in
        (
          inl (ground (arith, count-eq-zero ys, any-eq-false ys)),
          All-unique q ys h r (ground arith),
        )
  ]

  -- One more element, which passes only where none passed before.
  pub count_next :
      (xs : List A) (x : A)
      → (p x ≡ true → any p xs ≡ false)
      → count p xs ≤ 1
      → count p (xs ++ x ∷ []) ≤ 1
  count_next xs x new few = elim (Bool-cases (p x)) [
    | inl here ↦ ground (arith, count-append xs (x ∷ []), count-eq-zero xs, new here)
    | inr not_here ↦ ground (arith, count-append xs (x ∷ []))
  ]
