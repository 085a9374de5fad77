-- ===== src/Tools/Read/Examples.antt =====
-- tile/tools/read.py on a file of three lines, one line a page.
use piy.Base.{Text, [], ◌∷◌, ◌≡◌, refl, none, true, false, split, join, byte_len}
use piy.Truncation.{truncate_text}
use piy.Tools.Read.{ReadSelection, selected, select_content, shown}
use piy.Tools.Read.Pages.{NextPage, build_result-NextPage}

abbrev three_lines : Text
three_lines = 97 ∷ 10 ∷ 98 ∷ 10 ∷ 99 ∷ []

abbrev whole : ReadSelection
whole = record { content = three_lines; start_line = 1; total_lines = 3 }

whole_is : select_content three_lines none ≡ selected whole
unfolding select_content split join
whole_is = refl

cut_is : (shown whole 1).truncated ≡ true
unfolding shown truncate_text split byte_len
cut_is = refl

not_edge : (shown whole 1).edge_line_exceeds_limit ≡ false
unfolding shown truncate_text split byte_len
not_edge = refl

build_result-NextPage_example : NextPage three_lines whole (shown whole 1)
build_result-NextPage_example =
    build_result-NextPage three_lines none 1 whole whole_is cut_is not_edge
