-- ===== src/Tools/Edit/Lines.antt =====
-- tile/tools/edit.py: the content as lines with their terminators, and windows of lines.
use piy.Base.{
  ℕ, zero, suc, ◌+◌, ◌-◌, Text, newline, text_eq, split, List, [], ◌∷◌, ◌++◌, Bool, true, false,
  not, ◌&&◌, ◌||◌, Option, none, some, length, get_elem?, take, drop, select, range_from, ◌==◌,
  if◌then◌else◌,
}
use piy.Tools.Edit.Errors.{index_error, Result, ok, err, ◌>>=◌}

-- f"{part}\n" for every part but the last, and the last one if it is not empty
unfoldable pub terminate : List Text → List Text
terminate [] = []
terminate (part ∷ []) = if text_eq part [] then [] else part ∷ []
terminate (part ∷ next ∷ parts) = (part ++ newline ∷ []) ∷ terminate (next ∷ parts)

unfoldable pub terminated_lines : Text → List Text
unfolding terminate
terminated_lines text = terminate (split text)

-- The loop of `_line_start_offsets`.
unfoldable pub offsets_loop : ℕ → List Text → List ℕ
offsets_loop offset [] = []
offsets_loop offset (line ∷ lines) = offset ∷ offsets_loop (offset + length line) lines

unfoldable pub line_start_offsets : List Text → List ℕ
unfolding offsets_loop
line_start_offsets lines = offsets_loop 0 lines

-- text.endswith("\n")
unfoldable pub ends_with_newline : Text → Bool
ends_with_newline [] = false
ends_with_newline (c ∷ []) = c == newline
ends_with_newline (c ∷ d ∷ s) = ends_with_newline (d ∷ s)

-- values[index]
unfoldable pub element : {A : Type 0} → List A → ℕ → Result A
element [] i = err index_error
element (x ∷ xs) zero = ok x
element (x ∷ xs) (suc i) = element xs i

unfoldable pub window_char_span : List Text → List ℕ → ℕ → ℕ → Bool → Result (ℕ × ℕ)
unfolding element ends_with_newline
window_char_span original_lines line_offsets start_line last_line old_terminated = do
  start ← element line_offsets start_line
  last_start ← element line_offsets last_line
  last_text ← element original_lines last_line
  let end = last_start + length last_text
  ok (if not old_terminated && ends_with_newline last_text then (start, end - 1) else (start, end))

unfoldable pub lines_eq : List Text → List Text → Bool
lines_eq [] [] = true
lines_eq [] (m ∷ ms) = false
lines_eq (l ∷ ls) [] = false
lines_eq (l ∷ ls) (m ∷ ms) = text_eq l m && lines_eq ls ms

unfoldable pub last_window_line_matches : Text → Text → Bool
unfolding ends_with_newline
last_window_line_matches file_line old_line =
    if ends_with_newline old_line
    then text_eq file_line old_line
    else text_eq file_line old_line || text_eq file_line (old_line ++ newline ∷ [])

-- The line at the window's end; the bound on `start` keeps it in range.
unfoldable pub last_line_matches : Option Text → Text → Bool
unfolding last_window_line_matches
last_line_matches none last = false
last_line_matches (some line) last = last_window_line_matches line last

-- *head, last = window
unfoldable pub window_head : List Text → List Text
window_head [] = []
window_head (l ∷ []) = []
window_head (l ∷ m ∷ ls) = l ∷ window_head (m ∷ ls)

unfoldable pub window_last : List Text → Text
window_last [] = []
window_last (l ∷ []) = l
window_last (l ∷ m ∷ ls) = window_last (m ∷ ls)

unfoldable pub window_matches_at : List Text → List Text → ℕ → Bool
unfolding lines_eq last_line_matches window_head window_last
window_matches_at normalized_lines window start =
    let head = window_head window in
    lines_eq (take (length head) (drop start normalized_lines)) head
    && last_line_matches (get_elem? normalized_lines (start + length head)) (window_last window)

unfoldable pub find_window_starts : List Text → List Text → List ℕ
unfolding window_matches_at
find_window_starts normalized_lines window =
    select (window_matches_at normalized_lines window)
      (range_from 0 (length normalized_lines + 1 - length window))
