-- ===== src/Tools/Paths.antt =====
-- tile/tools/support/paths.py: what is done to a path before it is resolved, which is a parameter.
use piy.Base.{ℕ, Text, List, [], ◌∷◌, if◌then◌else◌, ◌==◌}
use piy.Tools.Edit.Fuzzy.{substitute}

abbrev pub unicode_spaces : List (ℕ × ℕ)
unicode_spaces =
    (0xA0, 0xA0) ∷ (0x2000, 0x200A) ∷ (0x202F, 0x202F) ∷ (0x205F, 0x205F) ∷ (0x3000, 0x3000) ∷ []

-- A leading at sign is left out.
unfoldable pub normalize_at_prefix : Text → Text
normalize_at_prefix [] = []
normalize_at_prefix (c ∷ path) = if c == 64 then path else c ∷ path

unfoldable pub normalize_unicode_spaces : Text → Text
unfolding substitute
normalize_unicode_spaces path = substitute unicode_spaces 32 path
