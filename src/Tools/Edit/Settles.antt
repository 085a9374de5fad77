-- ===== src/Tools/Edit/Settles.antt =====
-- tile/tools/edit.py: how an edit ends, and what it has done to the disk by then.
use piy.Base.{
  ℕ, false, codes, show_number, ◌++◌, [], ◌∷◌, some, ◌⊎◌, inl, inr, Text, List, length, ◌≡◌, ◌≢◌,
  refl, sym, ◌∙◌,
}
use piy.Types.Json.{str, end, field}
use piy.Types.Conversation.{ToolResultContent}
use piy.Types.Tools.{ToolResult, text_result, other}
use piy.Tools.Edit.Endings.{load_file, written_text}
use piy.Tools.Edit.Errors.{
  EditError, match_not_found, tool_error, os_error, Result, ok, err, Io, done, failed, Done,
  bind-ok,
}
use piy.Tools.Edit.Spans.{EditReplacement, MatchedSpan, splice_text_spans}
use piy.Tools.Edit.Lines.{terminated_lines}
use piy.Tools.Edit.Fuzzy.{match_fuzzy_spans}
use piy.Tools.Edit.FuzzyMatches.{EachStandsFuzzy, match_fuzzy_spans-EachStandsFuzzy}
use piy.Tools.Edit.Exact.{Replaces, apply_exact_replacements-Replaces, build_application-ok}
use piy.Tools.Edit.Missing.{SomeNowhere, apply_exact_replacements-missing}
use piy.Tools.Edit.Kept.{KeepsForm, written_text-KeepsForm}
use piy.Tools.Edit.Apply.{
  ReplacementApplication, EditExecutionResult, EditInput, apply_exact_replacements,
  reject_empty_old_text, or_if_not_found, apply_fuzzy_replacements,
  apply_replacements_with_fallback, Platform, report_edit, write_edit, edit_read, edit_file,
  resolve_path, build_result, told, translate_error, edit_tool,
}
use piy.Tools.Edit.Told.{Told, result, not_found, refused}
use piy.Tools.Edit.Returns.{apply_replacements_with_fallback-Told, reject_empty_old_text-HasOldText}

-- What replacements by whole lines come to.
pub record ReplacesLines (nfkc : Text → Text) (content : Text) (rs : List EditReplacement)
    (a : ReplacementApplication) : Type 0 where
  pub spans : List MatchedSpan
  pub each : EachStandsFuzzy nfkc (terminated_lines content) 0 rs spans
  pub base_is : a.base_content ≡ content
  pub new_is : a.new_content ≡ splice_text_spans content spans
  pub changed : a.new_content ≢ content

-- Exactly, or by whole lines where some old text stands nowhere exactly, and each one before it at one
-- place only.
pub data Applied (nfkc : Text → Text) (content : Text) (rs : List EditReplacement)
    (a : ReplacementApplication) : Type 0 where
  exactly : Replaces content rs a → Applied nfkc content rs a
  by_lines : SomeNowhere content rs → ReplacesLines nfkc content rs a → Applied nfkc content rs a

apply_fuzzy_replacements-ReplacesLines :
    (nfkc : Text → Text) (content path : Text) (rs : List EditReplacement)
    {a : ReplacementApplication}
    → apply_fuzzy_replacements nfkc content rs path ≡ ok a
    → ReplacesLines nfkc content rs a
unfolding apply_fuzzy_replacements
apply_fuzzy_replacements-ReplacesLines nfkc content path rs h =
    let (spans, matched, h1) = bind-ok (match_fuzzy_spans nfkc content rs path) _ h in
    let (base, new, differs) =
      build_application-ok content (splice_text_spans content spans) path rs h1 in
    record {
      spans = spans;
      each = match_fuzzy_spans-EachStandsFuzzy nfkc content path rs matched;
      base_is = base;
      new_is = new;
      changed = λ e. differs (sym new ∙ e);
    }

or_if_not_found-cases :
    (r fallback : Result ReplacementApplication) {a : ReplacementApplication}
    → or_if_not_found r fallback ≡ ok a
    → (r ≡ ok a) ⊎ ((message : Text) × (r ≡ err (match_not_found message)) × (fallback ≡ ok a))
unfolding or_if_not_found
or_if_not_found-cases (ok b) fallback h = inl h
or_if_not_found-cases (err (match_not_found message)) fallback h = inr (message, refl, h)
or_if_not_found-cases (err (tool_error message)) fallback h = cc
or_if_not_found-cases (err (os_error message)) fallback h = cc
or_if_not_found-cases (err e) fallback h = cc

-- Replacements that are applied change the content. Either its exactly accepted spans are replaced
-- all at once, or, only where some old text stands nowhere in the content and each one before it at
-- one place, spans of whole lines that are the same once they are normalized are spliced.
pub apply_replacements_with_fallback-Applied :
    (nfkc : Text → Text) (content path : Text) (rs : List EditReplacement)
    {a : ReplacementApplication}
    → apply_replacements_with_fallback nfkc content rs path ≡ ok a
    → Applied nfkc content rs a
unfolding apply_replacements_with_fallback
apply_replacements_with_fallback-Applied nfkc content path rs h =
    let (_, accepted, h1) = bind-ok (reject_empty_old_text (length rs) 0 rs path) _ h in
    let full = reject_empty_old_text-HasOldText (length rs) 0 rs path accepted in
    elim (or_if_not_found-cases (apply_exact_replacements content rs path)
      (apply_fuzzy_replacements nfkc content rs path) h1) [
        | inl e ↦ exactly (apply_exact_replacements-Replaces content path rs full e)
        | inr (message, missing, e) ↦
            by_lines (apply_exact_replacements-missing content path rs full missing)
              (apply_fuzzy_replacements-ReplacesLines nfkc content path rs e)
      ]

-- The result says how many replacements there were, and shows the diff.
pub record Reports (count : ℕ) (path diff : Text) (result : ToolResult) : Type 0 where
  pub message :
      result.content
      ≡ ToolResultContent.text (
          codes "Successfully replaced "
          ++ show_number count
          ++ codes " block(s) in "
          ++ path
          ++ codes ".")
        ∷ []
  pub details :
      result.details
      ≡ some
          (other (field (codes "type") (str (codes "edit")) (field (codes "diff") (str diff) end)))
  pub goes_on : result.terminate ≡ false

-- How an edit ends, on the disk before it, with the result and the disk after it.
module _ {Disk : Type 0} (platform : Platform Disk) (params : EditInput) (cwd : Text)
    (disk : Disk) where
  pub data Settled : Result ToolResult × Disk → Type 0 where
    not_read :
        (message : Text)
        → platform.read_text (resolve_path platform params.path cwd) disk ≡ failed message
        → Settled (err (tool_error message), disk)
    not_applied :
        (raw : Text) (e : EditError)
        → platform.read_text (resolve_path platform params.path cwd) disk ≡ done raw
        → apply_replacements_with_fallback platform.nfkc
            (load_file raw).content
            params.edits
            params.path
          ≡ err e
        → Told {A = ToolResult} (err e)
        → Settled (err e, disk)
    not_written :
        (raw written : Text) (a : ReplacementApplication) (message : Text) (disk' : Disk)
        → platform.read_text (resolve_path platform params.path cwd) disk ≡ done raw
        → apply_replacements_with_fallback platform.nfkc
            (load_file raw).content
            params.edits
            params.path
          ≡ ok a
        → KeepsForm raw a.new_content written
        → platform.write_text (resolve_path platform params.path cwd) written disk
          ≡ (failed message, disk')
        → Settled (err (tool_error message), disk')
    edited :
        (raw written : Text) (a : ReplacementApplication) (result : ToolResult) (disk' : Disk)
        → platform.read_text (resolve_path platform params.path cwd) disk ≡ done raw
        → apply_replacements_with_fallback platform.nfkc
            (load_file raw).content
            params.edits
            params.path
          ≡ ok a
        → Applied platform.nfkc (load_file raw).content params.edits a
        → KeepsForm raw a.new_content written
        → platform.write_text (resolve_path platform params.path cwd) written disk
          ≡ (done tt, disk')
        → Reports
            (length params.edits)
            params.path
            (platform.unified_diff a.base_content a.new_content params.path)
            result
        → Settled (ok result, disk')

module _ {Disk : Type 0} (platform : Platform Disk) (params : EditInput) (cwd : Text)
    (disk : Disk) where
  -- The result of the tool, from the result of `_edit_file`.
  abbrev reported : Result EditExecutionResult × Disk → Result ToolResult × Disk
  reported (r, disk') = (told r params.path, disk')

  abbrev target : Text
  target = resolve_path platform params.path cwd

  abbrev applied : Text → Result ReplacementApplication
  applied raw =
      apply_replacements_with_fallback platform.nfkc (load_file raw).content params.edits
        params.path

  report_edit-Settled :
      (raw : Text) (a : ReplacementApplication) (w : Io Done × Disk)
      → platform.read_text target disk ≡ done raw
      → applied raw ≡ ok a
      → platform.write_text target (written_text (load_file raw) a.new_content) disk ≡ w
      → Settled platform params cwd disk
          (reported (report_edit platform target params.edits params.path a w))
  unfolding report_edit told translate_error build_result text_result
  report_edit-Settled raw a (failed message, disk') read is wrote =
      not_written raw (written_text (load_file raw) a.new_content) a message disk' read is
        (written_text-KeepsForm raw a.new_content) wrote
  report_edit-Settled raw a (done tt, disk') read is wrote =
      edited raw (written_text (load_file raw) a.new_content) a _ disk' read is
        (apply_replacements_with_fallback-Applied platform.nfkc (load_file raw).content params.path
          params.edits is)
        (written_text-KeepsForm raw a.new_content) wrote
        (record { message = refl; details = refl; goes_on = refl })

  write_edit-Settled :
      (raw : Text) (r : Result ReplacementApplication)
      → Told r
      → platform.read_text target disk ≡ done raw
      → applied raw ≡ r
      → Settled platform params cwd disk
          (reported (write_edit platform target params.edits params.path (load_file raw) r disk))
  unfolding write_edit told translate_error
  write_edit-Settled raw r (result a) read is =
      report_edit-Settled raw a
        (platform.write_text target (written_text (load_file raw) a.new_content) disk) read is refl
  write_edit-Settled raw r (not_found message) read is =
      not_applied raw (match_not_found message) read is (not_found message)
  write_edit-Settled raw r (refused message) read is =
      not_applied raw (tool_error message) read is (refused message)

  edit_read-Settled :
      (io : Io Text)
      → platform.read_text target disk ≡ io
      → Settled platform params cwd disk
          (reported (edit_read platform target params.edits params.path io disk))
  unfolding edit_read told translate_error
  edit_read-Settled (failed message) read = not_read message read
  edit_read-Settled (done raw) read =
      write_edit-Settled raw (applied raw)
        (apply_replacements_with_fallback-Told platform.nfkc (load_file raw).content params.path
          params.edits)
        read refl

  -- An edit ends in one of four ways. The file could not be read, or the replacements could not be
  -- applied to it: an error of the tool, and the disk is as before. The file could not be written: an
  -- error of the tool. Or what was written is the text of the applied replacements behind the mark of
  -- the file, if it had one, with "\r\n" for every newline if the first newline of the file was one,
  -- and as it is if not; and the result counts the replacements and shows their diff.
  pub edit_tool-Settled : Settled platform params cwd disk (edit_tool platform params cwd disk)
  unfolding edit_tool edit_file
  edit_tool-Settled = edit_read-Settled (platform.read_text target disk) refl
