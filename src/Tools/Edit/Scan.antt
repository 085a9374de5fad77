-- ===== src/Tools/Edit/Scan.antt =====
-- tile/tools/edit.py: the positions that `_find_text_starts` gives, and that its loop ends.
use piy.Base.{
  le_or_lt, drop-drop, inl, inr, ℕ, zero, suc, ◌+◌, ◌-◌, ◌≤◌, ◌<◌, Text, List, [], ◌∷◌, ◌++◌, ◌≡◌,
  ◌≢◌, refl, sym, ap, ◌∙◌, Bool, true, false, Option, none, some, length, drop, starts_with, find,
  find-starts_with, find-first, find-none, length-drop, arith,
}
use mathlib.Core.Path.{subst}
use mathlib.Core.Option.{map as option_map}
use mathlib.Core.List.{append_assoc, append-nil}
use piy.Tools.Edit.Errors.{Result, ok}
use piy.Tools.Edit.Spans.{find_from, starts_loop, find_text_starts}

-- The positions that one search after the other finds from a position on.
pub data Scan (content part : Text) : ℕ → List ℕ → Type 0 where
  stop : (n : ℕ) → find_from part content n ≡ none → Scan content part n []
  next :
      (n k : ℕ) (ks : List ℕ)
      → find_from part content n ≡ some k
      → Scan content part (k + length part) ks
      → Scan content part n (k ∷ ks)

moved-some :
    (n : ℕ) (o : Option ℕ) {k : ℕ}
    → option_map (λ i. n + i) o ≡ some k
    → (i : ℕ) × (o ≡ some i) × (k ≡ n + i)
moved-some n none h = cc
moved-some n (some i) h = (i, refl, cc)

moved-none : (n : ℕ) (o : Option ℕ) → option_map (λ i. n + i) o ≡ none → o ≡ none
moved-none n none h = refl
moved-none n (some i) h = cc

-- A position that was found lies behind the start of the search, and the part stands there.
pub find_from-starts_with :
    (part content : Text) (n : ℕ) {k : ℕ}
    → find_from part content n ≡ some k
    → (n ≤ k)
      × (starts_with part (drop k content) ≡ true)
      × (k + length part ≤ n + (length content - n))
unfolding find_from
find_from-starts_with part content n {k} h =
    let (i, found, at) = moved-some n (find part (drop n content)) h in
    let (there, room) = find-starts_with part (drop n content) found in
    (
      omega (arith, at),
      subst (λ t. starts_with part t ≡ true) (drop-drop n i k content at) there,
      omega (arith, at, room, length-drop n content),
    )

-- Between the start of the search and the position that was found, the part stands nowhere.
find_from-first :
    (part content : Text) (n j : ℕ) {k : ℕ}
    → find_from part content n ≡ some k
    → n ≤ j
    → j < k
    → starts_with part (drop j content) ≡ false
unfolding find_from
find_from-first part content n j h after before =
    let (i, found, at) = moved-some n (find part (drop n content)) h in
    subst (λ t. starts_with part t ≡ false) (drop-drop n (j - n) j content (omega (arith, after)))
      (find-first part (drop n content) (j - n) found (omega (arith, at, after, before)))

find_from-none :
    (part content : Text) (n j : ℕ)
    → find_from part content n ≡ none
    → n ≤ j
    → starts_with part (drop j content) ≡ false
unfolding find_from
find_from-none part content n j h after =
    subst (λ t. starts_with part t ≡ false) (drop-drop n (j - n) j content (omega (arith, after)))
      (find-none part (drop n content) (j - n) (moved-none n (find part (drop n content)) h))

find_from_start : (part content : Text) → find part content ≡ find_from part content 0
unfolding find_from
find_from_start part content = plain (find part content)
  where
    plain : (o : Option ℕ) → o ≡ option_map (λ i. 0 + i) o
    plain none = refl
    plain (some i) = ap some (omega arith)

ok-starts : {xs ys : List ℕ} → Result.ok xs ≡ Result.ok ys → ys ≡ xs
ok-starts h = cc

pub length_pos : (part : Text) → part ≢ [] → 0 < length part
length_pos [] h = absurd (h refl)
length_pos (c ∷ part) h = omega arith

starts_loop-Scan :
    (fuel : ℕ) (part content : Text) (acc : List ℕ) (n : ℕ) (o : Option ℕ) {starts : List ℕ}
    → o ≡ find_from part content n
    → starts_loop fuel part content acc o ≡ ok starts
    → (ks : List ℕ) × (starts ≡ acc ++ ks) × Scan content part n ks
unfolding starts_loop
starts_loop-Scan fuel part content acc n none e h =
    ([], ok-starts h ∙ sym (append-nil acc), stop n (sym e))
starts_loop-Scan zero part content acc n (some k) e h = cc
starts_loop-Scan (suc fuel) part content acc n (some k) e h =
    let (ks, same, rest) =
      starts_loop-Scan fuel part content (acc ++ k ∷ []) (k + length part)
        (find_from part content (k + length part)) refl h in
    (k ∷ ks, same ∙ append_assoc acc (k ∷ []) ks, next n k ks (sym e) rest)

-- The loop ends: each turn moves on by at least one character.
starts_loop_returns :
    (fuel : ℕ) (part content : Text) (acc : List ℕ) (n : ℕ) (o : Option ℕ)
    → part ≢ []
    → o ≡ find_from part content n
    → length content < n + fuel
    → (starts : List ℕ) × (starts_loop fuel part content acc o ≡ ok starts)
unfolding starts_loop
starts_loop_returns fuel part content acc n none full e enough = (acc, refl)
starts_loop_returns zero part content acc n (some k) full e enough =
    let (after, there, room) = find_from-starts_with part content n (sym e) in
    absurd (omega (arith, after, room, enough, length_pos part full))
starts_loop_returns (suc fuel) part content acc n (some k) full e enough =
    starts_loop_returns fuel part content (acc ++ k ∷ []) (k + length part)
      (find_from part content (k + length part)) full refl
      (omega
        (arith, (find_from-starts_with part content n (sym e)).0, enough, length_pos part full))

pub find_text_starts-Scan :
    (content part : Text) {starts : List ℕ}
    → find_text_starts content part ≡ ok starts
    → Scan content part 0 starts
unfolding find_text_starts
find_text_starts-Scan content part h =
    let (ks, same, scan) =
      starts_loop-Scan (suc (length content)) part content [] 0 (find part content)
        (find_from_start part content) h in
    subst (λ t. Scan content part 0 t) (sym same) scan

-- The search of a text that is not empty ends, however often it stands in the content.
pub find_text_starts_returns :
    (content old_text : Text)
    → old_text ≢ []
    → (starts : List ℕ) × (find_text_starts content old_text ≡ ok starts)
unfolding find_text_starts
find_text_starts_returns content part full =
    starts_loop_returns (suc (length content)) part content [] 0 (find part content) full
      (find_from_start part content) (omega arith)

-- The only position of a scan: the part stands there, and any other place where it stands overlaps.
pub record Only (content part : Text) (start : ℕ) : Type 0 where
  pub there : starts_with part (drop start content) ≡ true
  pub in_range : start + length part ≤ length content
  pub others :
      (j : ℕ) → starts_with part (drop j content) ≡ true → (start ≤ j) × (j < start + length part)

not_both {ℓ} : {A : Type ℓ} {b : Bool} → b ≡ true → b ≡ false → A
not_both t f = absurd cc

module _ {content part : Text} where
  Scan-nil :
      {n : ℕ} {ks : List ℕ} → Scan content part n ks → ks ≡ [] → find_from part content n ≡ none
  Scan-nil (stop n h) e = h
  Scan-nil (next n k ks h rest) e = absurd cc

  Scan-single :
      {n k : ℕ} {ks : List ℕ}
      → Scan content part n ks
      → ks ≡ k ∷ []
      → (find_from part content n ≡ some k) × (find_from part content (k + length part) ≡ none)
  Scan-single (stop n h) e = absurd cc
  Scan-single {k = k} (next n j ks h rest) e =
      let first : j ≡ k = cc in
      let none_left : ks ≡ [] = cc in
      (
        subst (λ i. find_from part content n ≡ some i) first h,
        subst (λ i. find_from part content (i + length part) ≡ none) first
            (Scan-nil rest none_left),
      )

pub Scan-Only : (content part : Text) (k : ℕ) → Scan content part 0 (k ∷ []) → Only content part k
Scan-Only content part k scan =
    let (found, none_after) = Scan-single scan refl in
    let (after, there, room) = find_from-starts_with part content 0 found in
    record {
      there = there;
      in_range = omega (arith, room);
      others = λ j stands. (
        elim (le_or_lt k j) [
          | inl h ↦ h
          | inr h ↦ not_both stands (find_from-first part content 0 j found (omega arith) h)
        ],
        elim (le_or_lt (k + length part) j) [
          | inl h ↦ not_both stands (find_from-none part content (k + length part) j none_after h)
          | inr h ↦ h
        ],
      );
    }

-- The part stands nowhere in the content.
abbrev pub Nowhere : Text → Text → Type 0
Nowhere content part = (j : ℕ) → starts_with part (drop j content) ≡ false

pub Scan-Nowhere : (content part : Text) → Scan content part 0 [] → Nowhere content part
Scan-Nowhere content part scan =
    λ j. find_from-none part content 0 j (Scan-nil scan refl) (omega arith)
