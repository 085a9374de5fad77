-- ===== src/Tools/Read.antt =====
-- tile/tools/read.py: the text that a read shows, page by page, and the types of images. An offset or a
-- limit below zero counts as zero.
pub mod Pages
mod Examples
use piy.Base.{
  ℕ, zero, suc, ◌+◌, ◌-◌, Text, codes, newline, split, join, show_number, byte_len, find,
  starts_with, text_eq, List, [], ◌∷◌, ◌++◌, Bool, true, false, not, ◌&&◌, ◌||◌, Option, none, some,
  length, get_elem?, take, drop, max, leb, ltb, ◌==◌, if◌then◌else◌,
}
use piy.Types.Conversation.{ImageMimeType, jpeg, png, gif, webp}
use piy.Truncation.{
  Truncation, TruncationReason, lines, bytes, ToolOutputDetails, from_truncation, truncate_head,
  output_byte_limit,
}
use piy.Tools.Utf8.{Bytes}

pub record ReadSelection : Type 0 where
  pub content : Text
  pub start_line : ℕ
  pub total_lines : ℕ

-- A selection, or the message of the error.
pub data Selected : Type 0 where
  selected : ReadSelection → Selected
  beyond_end : Text → Selected

unfoldable pub start_index : Option ℕ → ℕ
start_index none = 0
start_index (some offset) = offset - 1

-- The offset as it is printed; only a given one can lie beyond the end.
unfoldable pub show_offset : Option ℕ → Text
show_offset none = codes "None"
show_offset (some offset) = show_number offset

unfoldable pub select_content : Text → Option ℕ → Selected
unfolding start_index show_offset
select_content content offset =
    let lines = split content in
    let start = start_index offset in
    if leb (length lines) start
    then beyond_end (
        codes "Offset "
        ++ show_offset offset
        ++ codes " is beyond end of file ("
        ++ show_number (length lines)
        ++ codes " lines total)")
    else selected (record {
      content = join (drop start lines);
      start_line = start + 1;
      total_lines = length lines;
    })

-- "{text}\n\n[{'. '.join(notices)}]", for one notice
unfoldable pub append_notice : Text → Text → Text
append_notice text notice = text ++ newline ∷ newline ∷ codes "[" ++ notice ++ codes "]"

unfoldable pub end_line : ReadSelection → Truncation → ℕ
end_line selection t = selection.start_line + t.output_lines - 1

unfoldable pub next_offset : ReadSelection → Truncation → ℕ
unfolding end_line
next_offset selection t = end_line selection t + 1

unfoldable pub truncation_notice : ReadSelection → Truncation → Text
unfolding end_line next_offset
truncation_notice selection t =
    let showing =
      codes "Showing lines "
      ++ show_number selection.start_line
      ++ codes "-"
      ++ show_number (end_line selection t)
      ++ codes " of "
      ++ show_number selection.total_lines in
    let to_continue =
      codes "Use offset=" ++ show_number (next_offset selection t) ++ codes " to continue." in
    elim t.truncated_by [
      | some lines ↦ showing ++ codes ". " ++ to_continue
      | _ ↦ showing ++ codes " (50.0KB limit). " ++ to_continue
    ]

unfoldable pub format_truncated_selection : ReadSelection → Truncation → Text
unfolding append_notice truncation_notice
format_truncated_selection selection t = append_notice t.content (truncation_notice selection t)

-- The first line, up to the first newline.
unfoldable pub first_of : List Text → Text
first_of [] = []
first_of (l ∷ ls) = l

-- `format_size`, which prints a float, is a parameter.
module _ (format_size : ℕ → Text) where
  unfoldable pub format_first_line_too_large : ReadSelection → Text → Text
  unfolding first_of
  format_first_line_too_large selection path =
      codes "[Line "
      ++ show_number selection.start_line
      ++ codes " is "
      ++ format_size (byte_len (first_of (split selection.content)))
      ++ codes ", exceeds 50.0KB limit. Use bash: sed -n '"
      ++ show_number selection.start_line
      ++ codes "p' "
      ++ path
      ++ codes " | head -c "
      ++ show_number output_byte_limit
      ++ codes "]"

  unfoldable pub build_output_text : ReadSelection → Truncation → Text → Text
  unfolding format_first_line_too_large format_truncated_selection
  build_output_text selection t path =
      if t.edge_line_exceeds_limit
      then format_first_line_too_large selection path
      else if t.truncated
      then format_truncated_selection selection t
      else t.content

-- None where nothing was cut.
unfoldable pub build_details : Truncation → Option ToolOutputDetails
unfolding from_truncation
build_details t = if not t.truncated then none else some (from_truncation t)

-- What is truncated of a selection; `limit` is the caller's, at least 1.
unfoldable pub shown : ReadSelection → ℕ → Truncation
unfolding truncate_head
shown selection limit = truncate_head selection.content (max 1 limit) output_byte_limit

-- The text and the details of a result, or the message of the error.
pub data TextRead : Type 0 where
  read_text : Text → Option ToolOutputDetails → TextRead
  read_error : Text → TextRead

unfoldable pub read_selected : (ℕ → Text) → Selected → Text → ℕ → TextRead
unfolding shown build_output_text build_details
read_selected format_size (beyond_end message) path limit = read_error message
read_selected format_size (selected selection) path limit =
    let t = shown selection limit in
    read_text (build_output_text format_size selection t path) (build_details t)

-- `_build_result`, with the limit that `fn` passes
unfoldable pub build_result : (ℕ → Text) → Text → Option ℕ → Text → ℕ → TextRead
unfolding select_content read_selected
build_result format_size content offset path limit =
    read_selected format_size (select_content content offset) path limit

unfoldable pub byte_is : Option ℕ → ℕ → Bool
byte_is none b = false
byte_is (some c) b = c == b

unfoldable pub is_jpeg : Bytes → Bool
unfolding byte_is text_eq
is_jpeg content =
    leb 4 (length content)
    && text_eq (take 3 content) (0xFF ∷ 0xD8 ∷ 0xFF ∷ [])
    && not (byte_is (get_elem? content 3) 0xF7)

unfoldable pub is_png : Bytes → Bool
unfolding starts_with text_eq
is_png content =
    leb 16 (length content)
    && starts_with (0x89 ∷ 0x50 ∷ 0x4E ∷ 0x47 ∷ 13 ∷ 10 ∷ 0x1A ∷ 10 ∷ []) content
    && text_eq (take 4 (drop 12 content)) (codes "IHDR")

-- From the positions of the first "acTL" and of the first "IDAT".
unfoldable pub animation_first : Option ℕ → Option ℕ → Bool
animation_first none image_data_index = false
animation_first (some animation_chunk_index) none = true
animation_first (some animation_chunk_index) (some image_data_index) =
    ltb animation_chunk_index image_data_index

unfoldable pub is_animated_png : Bytes → Bool
unfolding animation_first find
is_animated_png content =
    animation_first (find (codes "acTL") content) (find (codes "IDAT") content)

unfoldable pub is_supported_png : Bytes → Bool
unfolding is_png is_animated_png
is_supported_png content = is_png content && not (is_animated_png content)

unfoldable pub is_gif : Bytes → Bool
unfolding starts_with
is_gif content = starts_with (codes "GIF") content

unfoldable pub is_webp : Bytes → Bool
unfolding text_eq
is_webp content =
    leb 12 (length content)
    && text_eq (take 4 content) (codes "RIFF")
    && text_eq (take 4 (drop 8 content)) (codes "WEBP")

unfoldable pub detect_supported_image_mime_type : Bytes → Option ImageMimeType
unfolding is_jpeg is_supported_png is_gif is_webp
detect_supported_image_mime_type content =
    if is_jpeg content
    then some jpeg
    else if is_supported_png content
    then some png
    else if is_gif content
    then some gif
    else if is_webp content
    then some webp
    else none
