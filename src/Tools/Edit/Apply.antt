-- ===== src/Tools/Edit/Apply.antt =====
-- tile/tools/edit.py: applying replacements, exactly or by lines, and the edit of a file.
use piy.Base.{
  ℕ, suc, Text, codes, show_number, text_eq, List, [], ◌∷◌, ◌++◌, false, some, length,
  if◌then◌else◌,
}
use piy.Types.Json.{str, end, field}
use piy.Types.Tools.{ToolResult, text_result, other}
use piy.Tools.Paths.{normalize_at_prefix, normalize_unicode_spaces}
use piy.Tools.Edit.Endings.{LoadedFile, load_file, written_text}
use piy.Tools.Edit.Errors.{
  EditError, match_not_found, tool_error, os_error, Result, ok, err, Done, Io, done, failed, ◌>>=◌,
  empty_old_text_error, no_change_error,
}
use piy.Tools.Edit.Spans.{EditReplacement, match_exact_spans, splice_text_spans}
use piy.Tools.Edit.Fuzzy.{match_fuzzy_spans}

pub record ReplacementApplication : Type 0 where
  pub base_content : Text
  pub new_content : Text

pub record EditExecutionResult : Type 0 where
  pub path : Text
  pub replacement_count : ℕ
  pub diff : Text

pub record EditInput : Type 0 where
  pub path : Text
  pub edits : List EditReplacement

unfoldable pub build_application :
    Text → Text → List EditReplacement → Text → Result ReplacementApplication
build_application content new_content replacements display_path =
    if text_eq content new_content
    then err (tool_error (no_change_error display_path (length replacements)))
    else ok (record { base_content = content; new_content = new_content })

unfoldable pub apply_exact_replacements :
    Text → List EditReplacement → Text → Result ReplacementApplication
unfolding match_exact_spans splice_text_spans build_application
apply_exact_replacements content replacements display_path = do
  spans ← match_exact_spans content replacements display_path
  build_application content (splice_text_spans content spans) replacements display_path

-- The loop of `_validate_non_empty_old_text`, from the edit at `index` on.
unfoldable pub reject_empty_old_text : ℕ → ℕ → List EditReplacement → Text → Result Done
reject_empty_old_text total index [] display_path = ok tt
reject_empty_old_text total index (replacement ∷ replacements) display_path =
    let rest = reject_empty_old_text total (suc index) replacements display_path in
    if text_eq replacement.old_text []
    then err (tool_error (empty_old_text_error display_path index total))
    else rest

-- except MatchNotFound
unfoldable pub or_if_not_found :
    Result ReplacementApplication → Result ReplacementApplication → Result ReplacementApplication
or_if_not_found (ok application) fallback = ok application
or_if_not_found (err (match_not_found message)) fallback = fallback
or_if_not_found (err e) fallback = err e

module _ (nfkc : Text → Text) where
  unfoldable pub apply_fuzzy_replacements :
      Text → List EditReplacement → Text → Result ReplacementApplication
  unfolding match_fuzzy_spans splice_text_spans build_application
  apply_fuzzy_replacements content replacements display_path = do
    spans ← match_fuzzy_spans nfkc content replacements display_path
    build_application content (splice_text_spans content spans) replacements display_path

  unfoldable pub apply_replacements_with_fallback :
      Text → List EditReplacement → Text → Result ReplacementApplication
  unfolding reject_empty_old_text or_if_not_found apply_exact_replacements apply_fuzzy_replacements
  apply_replacements_with_fallback content replacements display_path = do
    _ ← reject_empty_old_text (length replacements) 0 replacements display_path
    or_if_not_found (apply_exact_replacements content replacements display_path)
        (apply_fuzzy_replacements content replacements display_path)

-- What the operating system and the standard library do for the tool: a file that is read is a text
-- or an error with its message, a write may fail, in whatever state it leaves the disk.
pub record Platform (Disk : Type 0) : Type 1 where
  pub resolve_to_cwd : Text → Text → Text
  pub read_text : Text → Disk → Io Text
  pub write_text : Text → Text → Disk → Io Done × Disk
  pub unified_diff : Text → Text → Text → Text
  pub nfkc : Text → Text

module _ {Disk : Type 0} (platform : Platform Disk) where
  -- After the write.
  unfoldable pub report_edit :
      Text
      → List EditReplacement
      → Text
      → ReplacementApplication
      → Io Done × Disk
      → Result EditExecutionResult × Disk
  report_edit path replacements display_path application (failed message, disk) =
      (err (os_error message), disk)
  report_edit path replacements display_path application (done _, disk) = (
    ok (record {
      path = path;
      replacement_count = length replacements;
      diff = platform.unified_diff application.base_content application.new_content display_path;
    }),
    disk,
  )

  -- After the replacements.
  unfoldable pub write_edit :
      Text
      → List EditReplacement
      → Text
      → LoadedFile
      → Result ReplacementApplication
      → Disk
      → Result EditExecutionResult × Disk
  unfolding written_text report_edit
  write_edit path replacements display_path loaded_file (err e) disk = (err e, disk)
  write_edit path replacements display_path loaded_file (ok application) disk =
      report_edit path replacements display_path application
        (platform.write_text path (written_text loaded_file application.new_content) disk)

  -- After the read.
  unfoldable pub edit_read :
      Text → List EditReplacement → Text → Io Text → Disk → Result EditExecutionResult × Disk
  unfolding load_file write_edit apply_replacements_with_fallback
  edit_read path replacements display_path (failed message) disk = (err (os_error message), disk)
  edit_read path replacements display_path (done raw_content) disk =
      let loaded_file = load_file raw_content in
      write_edit path replacements display_path loaded_file
        (apply_replacements_with_fallback platform.nfkc loaded_file.content replacements
          display_path)
        disk

  unfoldable pub edit_file :
      Text → List EditReplacement → Text → Disk → Result EditExecutionResult × Disk
  unfolding edit_read
  edit_file path replacements display_path disk =
      edit_read path replacements display_path (platform.read_text path disk) disk

  unfoldable pub resolve_path : Text → Text → Text
  unfolding normalize_at_prefix normalize_unicode_spaces
  resolve_path path cwd =
      platform.resolve_to_cwd (normalize_unicode_spaces (normalize_at_prefix path)) cwd

-- `_build_result`, with the fields of `EditDetails`
unfoldable pub build_result : EditExecutionResult → Text → ToolResult
unfolding text_result
build_result result path =
    text_result
      (codes "Successfully replaced "
        ++ show_number result.replacement_count
        ++ codes " block(s) in "
        ++ path
        ++ codes ".")
      (some (
        other
          (field (codes "type") (str (codes "edit")) (field (codes "diff") (str result.diff) end))))
      false

-- except (OSError, UnicodeError)
unfoldable pub translate_error : EditError → EditError
translate_error (os_error message) = tool_error message
translate_error e = e

unfoldable pub told : Result EditExecutionResult → Text → Result ToolResult
unfolding build_result translate_error
told (ok result) path = ok (build_result result path)
told (err e) path = err (translate_error e)

-- `fn`
unfoldable pub edit_tool :
    {Disk : Type 0} → Platform Disk → EditInput → Text → Disk → Result ToolResult × Disk
unfolding told edit_file resolve_path
edit_tool platform params cwd disk =
    let (result, disk') =
      edit_file platform (resolve_path platform params.path cwd) params.edits params.path disk in
    (told result params.path, disk')
