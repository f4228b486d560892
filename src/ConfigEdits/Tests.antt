-- ===== src/ConfigEdits/Tests.antt =====
-- A small file, with a comment, a value over two lines, and a key that stands twice.
use nscouter.ConfigEdits.Values.{matches_query, validate_value, words_of, split_at}
use nscouter.ConfigEdits.Untouched.{out_lines-untouched}
use nscouter.ConfigEdits.Sublists.{Sublist}
use nscouter.ConfigEdits.Keys.{unedited}
use nscouter.ConfigEdits.{
  ConfigEntry, plan_config_edits, lines_of, out_lines, parse_lines, edit_all, apply_edits,
  apply_edit, take_out, take_out_all, parse_from, key_of, key_match, ends_with_continuation,
  one_line, split_lines, has_crlf, emit, pop_blank, append_new, ends_with_newline, join,
}
use nscouter.Base.{refl, true, none, some, List, [], ◌≡◌, ◌∷◌, nat_eq, list_eq}
use nscouter.Base.Text.{Text, text, is_space, trim}
use nscouter.Base.Maps.{get, set}

abbrev file : Text
file = text "# net\nhost = a\nlist=1,\\\n2\n\nhost = b\n"

abbrev entry_of : Text → Text → Text → ConfigEntry
entry_of key value default = record {
  key = key;
  value = value;
  default = default;
  changed = true;
  desc = [];
  value_type = 1;
}

abbrev entries : List ConfigEntry
entries = entry_of (text "host") (text "b") (text "x") ∷ entry_of (text "list") (text "1,2") [] ∷ []

abbrev edits : List (Text × Text)
edits = (text "list", text "3") ∷ (text "host", text "x") ∷ (text "port", text "80") ∷ []

-- The default takes out both lines of its key.
edited_file : (plan_config_edits file entries edits).text ≡ text "# net\nlist=3\nport=80\n"
unfolding plan_config_edits out_lines edit_all apply_edits apply_edit take_out take_out_all
    parse_lines parse_from key_of key_match ends_with_continuation one_line split_lines has_crlf
    emit pop_blank append_new ends_with_newline join get set is_space
edited_file = refl

out_lines-untouched_example :
    let lines = lines_of file in
    Sublist (unedited (parse_lines lines) edits 0 lines) (out_lines file entries edits)
out_lines-untouched_example = out_lines-untouched file entries edits

some_values :
    (validate_value (text " -12 ") 2 ≡ none)
    × (validate_value (text "a:1, b") 5 ≡ some (text "«이름:값» 모양이 아닌 것이 있습니다"))
    × (validate_value (text "True") 3 ≡ some (text "true 또는 false 여야 합니다"))
unfolding validate_value split_at trim
some_values = (refl, refl, refl)

found_by_words :
    matches_query (λ s. s) (entry_of (text "profile_sql") [] []) (text " sql  prof ") ≡ true
unfolding matches_query words_of trim is_space
found_by_words = refl
