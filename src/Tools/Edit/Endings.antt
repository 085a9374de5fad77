-- ===== src/Tools/Edit/Endings.antt =====
-- tile/tools/edit.py: the byte order mark and the line endings that a file is read with and gets back.
use piy.Base.{
  ℕ, Text, [], ◌∷◌, ◌++◌, ◌&&◌, Option, none, some, map, ltb, ◌==◌, if◌then◌else◌, starts_with,
  find, newline,
}

abbrev pub byte_order_mark : ℕ
byte_order_mark = 0xFEFF

abbrev pub carriage_return : ℕ
carriage_return = 13

pub data LineEnding : Type 0 where
  lf crlf : LineEnding

pub record LoadedFile : Type 0 where
  pub bom : Text
  pub content : Text
  pub line_ending : LineEnding

strip_mark : Text → Text → Text × Text
strip_mark whole [] = ([], whole)
strip_mark whole (c ∷ rest) = if c == byte_order_mark then (c ∷ [], rest) else ([], whole)

-- The mark and the text behind it.
unfoldable pub strip_bom : Text → Text × Text
unfolding strip_mark
strip_bom content = strip_mark content content

-- From the positions of the first "\r\n" and of the first "\n".
unfoldable pub ending_of : Option ℕ → Option ℕ → LineEnding
ending_of crlf_index none = lf
ending_of none (some lf_index) = lf
ending_of (some crlf_index) (some lf_index) = if ltb crlf_index lf_index then crlf else lf

unfoldable pub detect_line_ending : Text → LineEnding
unfolding ending_of
detect_line_ending content =
    ending_of (find (carriage_return ∷ newline ∷ []) content) (find (newline ∷ []) content)

-- content.replace("\r\n", "\n"): a carriage return in front of a newline is left out.
unfoldable pub crlf_to_lf : Text → Text
unfolding starts_with
crlf_to_lf [] = []
crlf_to_lf (c ∷ s) =
    let rest = crlf_to_lf s in
    if c == carriage_return && starts_with (newline ∷ []) s then rest else c ∷ rest

-- .replace("\r", "\n")
unfoldable pub cr_to_lf : Text → Text
cr_to_lf s = map (λ c. if c == carriage_return then newline else c) s

unfoldable pub normalize_to_lf : Text → Text
unfolding crlf_to_lf cr_to_lf
normalize_to_lf content = cr_to_lf (crlf_to_lf content)

-- content.replace("\n", "\r\n")
unfoldable pub lf_to_crlf : Text → Text
lf_to_crlf [] = []
lf_to_crlf (c ∷ s) =
    let rest = lf_to_crlf s in if c == newline then carriage_return ∷ newline ∷ rest else c ∷ rest

unfoldable pub restore_line_endings : Text → LineEnding → Text
unfolding lf_to_crlf
restore_line_endings content lf = content
restore_line_endings content crlf = lf_to_crlf content

-- `_load_file`, from the text that was read
unfoldable pub load_file : Text → LoadedFile
unfolding strip_bom normalize_to_lf detect_line_ending
load_file raw_content =
    let (bom, content) = strip_bom raw_content in
    record {
      bom = bom;
      content = normalize_to_lf content;
      line_ending = detect_line_ending content;
    }

-- The text that `_write_loaded_file` writes.
unfoldable pub written_text : LoadedFile → Text → Text
unfolding restore_line_endings
written_text loaded_file content =
    loaded_file.bom ++ restore_line_endings content loaded_file.line_ending
