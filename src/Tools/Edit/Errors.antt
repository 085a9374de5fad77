-- ===== src/Tools/Edit/Errors.antt =====
-- tile/tools/edit.py: what a replacement may raise, with the messages, and results that may be errors.
use piy.Base.{ℕ, Text, codes, show_number, ◌++◌, ◌==◌, if◌then◌else◌, ◌≡◌, refl}

-- `MatchNotFound`, which only the exact search is followed up for, the other `ToolError`s, and an
-- `OSError` or `UnicodeError` of the file. A search whose loop had too little fuel is `unfinished`,
-- and `index_error` is an index out of range.
pub data EditError : Type 0 where
  match_not_found : Text → EditError
  tool_error : Text → EditError
  os_error : Text → EditError
  unfinished : EditError
  index_error : EditError

pub data Result (A : Type 0) : Type 0 where
  ok : A → Result A
  err : EditError → Result A

-- How a call of the operating system ends: by its result, or by an error with a message.
pub data Io (A : Type 0) : Type 0 where
  done : A → Io A
  failed : Text → Io A

-- What a check returns that only raises or passes.
abbrev pub Done : Type 0
Done = Unit {0}

-- The next step of a chain is for what the step before it returned.
infixl 5 ◌>>=◌
abbrev pub ◌>>=◌ : {A B : Type 0} → Result A → (A → Result B) → Result B
◌>>=◌ (err e) next = err e
◌>>=◌ (ok a) next = next a

unfoldable pub not_found_error : Text → ℕ → ℕ → Text
not_found_error path edit_index total_edits =
    if total_edits == 1
    then codes "Could not find the exact text in "
      ++ path
      ++ codes ". The old text must match exactly including all whitespace and newlines. "
      ++ codes "Near matches that differ in quotes, dashes, or whitespace are only found when the "
      ++ codes "old text covers whole lines."
    else codes "Could not find edits["
      ++ show_number edit_index
      ++ codes "] in "
      ++ path
      ++ codes ". The old_text must match exactly including all whitespace and newlines. "
      ++ codes "Near matches that differ in quotes, dashes, or whitespace are only found when "
      ++ codes "old_text covers whole lines."

unfoldable pub duplicate_error : Text → ℕ → ℕ → ℕ → Text
duplicate_error path edit_index total_edits occurrences =
    if total_edits == 1
    then codes "Found "
      ++ show_number occurrences
      ++ codes " occurrences of the text in "
      ++ path
      ++ codes ". The text must be unique. Please provide more context to make it unique."
    else codes "Found "
      ++ show_number occurrences
      ++ codes " occurrences of edits["
      ++ show_number edit_index
      ++ codes "] in "
      ++ path
      ++ codes ". Each old_text must be unique. Please provide more context to make it unique."

unfoldable pub empty_old_text_error : Text → ℕ → ℕ → Text
empty_old_text_error path edit_index total_edits =
    if total_edits == 1
    then codes "old_text must not be empty in " ++ path ++ codes "."
    else codes "edits["
      ++ show_number edit_index
      ++ codes "].old_text must not be empty in "
      ++ path
      ++ codes "."

unfoldable pub overlap_error : ℕ → ℕ → Text → Text
overlap_error first_index second_index path =
    codes "edits["
    ++ show_number first_index
    ++ codes "] and edits["
    ++ show_number second_index
    ++ codes "] overlap in "
    ++ path
    ++ codes ". Merge them into one edit or target disjoint regions."

unfoldable pub no_change_error : Text → ℕ → Text
no_change_error path total_edits =
    if total_edits == 1
    then codes "No changes made to "
      ++ path
      ++ codes ". The replacement produced identical content."
    else codes "No changes made to "
      ++ path
      ++ codes ". The replacements produced identical content."

-- A chain that returns: each of its steps did.
pub bind-ok :
    {A B : Type 0} (step : Result A) (next : A → Result B) {b : B}
    → (step >>= next) ≡ ok b
    → (a : A) × (step ≡ ok a) × (next a ≡ ok b)
bind-ok (err e) next h = cc
bind-ok (ok a) next h = (a, refl, h)

pub ok-injective : {A : Type 0} {a b : A} → Result.ok a ≡ Result.ok b → a ≡ b
ok-injective h = cc
