-- ===== src/ConfigEdits/Untouched.antt =====
-- The lines that an edit leaves alone.
use nscouter.ConfigEdits.Lines.{parse_lines-Tiles}
use nscouter.ConfigEdits.{
  ConfigEntry, append_new, out_lines, edit_all, lines_of, parse_lines, by_key, ends_with_newline,
}
use nscouter.Base.{length, List, []}
use nscouter.Base.Text.{Text}
use nscouter.ConfigEdits.Sublists.{Sublist, append_new-Sublist}
use nscouter.ConfigEdits.Keys.{unedited}
use nscouter.ConfigEdits.Replaced.{Safe-apply_edits, Safe-nil, unedited-emit, unedited-NonBlank}

-- Every line that is not empty and not of an edited key, comments among them, is in the new text as
-- it was, in the same order.
pub out_lines-untouched :
    (s : Text) (entries : List ConfigEntry) (edits : List (Text × Text))
    → let lines = lines_of s in
      Sublist (unedited (parse_lines lines) edits 0 lines) (out_lines s entries edits)
unfolding out_lines edit_all append_new
out_lines-untouched s entries edits =
    let lines = lines_of s in
    let logical = parse_lines lines in
    let t = parse_lines-Tiles lines in
    let safe =
      Safe-apply_edits logical edits (length lines) t (by_key [] entries) edits
        (record { changes = []; replace = []; appended = [] }) (λ k h. h)
        (Safe-nil logical edits (length lines) t) in
    let kept =
      unedited-emit logical edits (length lines) t (edit_all s entries edits).replace 0 lines
        safe in
    append_new-Sublist (ends_with_newline s) (edit_all s entries edits).appended kept
      (unedited-NonBlank logical edits (length lines) t 0 lines)
