-- ===== src/ConfigEdits.antt =====
-- features/xlog/components/configEdits.ts: what was changed in the table of settings is put back into
-- the text of the file. A regular expression of the source is the function that it stands for.
pub mod Lines
pub mod Keys
pub mod Sublists
pub mod Replaced
pub mod Untouched
pub mod Values
mod Tests
use nscouter.Base.{
  ℕ, zero, suc, Bool, true, false, Option, none, some, List, [], reverse, ◌+◌, ◌-◌, ◌%◌, ◌&&◌, ◌||◌,
  ◌∷◌, ◌++◌, ◌==◌, ◌===◌, if◌then◌else◌, nat_eq, list_eq,
}
use nscouter.Base.Text.{Text, trim, text, is_space, starts_with}
use nscouter.Base.Maps.{get, set}

abbrev b_cr : ℕ
b_cr = 13

-- `[start, end)` are the lines of the file that belong to it.
pub record LogicalLine : Type 0 where
  pub start : ℕ
  pub end : ℕ
  pub key : Option Text

abbrev pub leading_backslashes : Text → ℕ
leading_backslashes [] = 0
leading_backslashes (c ∷ s) = if c == b'\\' then leading_backslashes s + 1 else 0

unfoldable pub ends_with_continuation : Text → Bool
ends_with_continuation line = leading_backslashes (reverse line) % 2 == 1

-- `replace(/^[ \t\f]+/, '')`.
abbrev pub trim_blanks : Text → Text
trim_blanks [] = []
trim_blanks (c ∷ s) = if c == b' ' || c == 9 || c == 12 then trim_blanks s else c ∷ s

abbrev pub is_line_end : ℕ → Bool
is_line_end c = c == b'\n' || c == b_cr || c == 0x2028 || c == 0x2029

-- The longest match of `(?:\\.|[^=:\s\\])*` at the front.
unfoldable pub key_match : Text → Text
key_match [] = []
key_match (c ∷ []) = if c == b'\\' || c == b'=' || c == b':' || is_space c then [] else c ∷ []
key_match (c ∷ d ∷ s) = elim (c == b'\\') [
  | true ↦ elim (is_line_end d) [ true ↦ [] | false ↦ c ∷ d ∷ key_match s ]
  | false ↦ elim (c == b'=' || c == b':' || is_space c) [
    | true ↦ []
    | false ↦ c ∷ key_match (d ∷ s)
  ]
]

unfoldable pub key_of : Text → Option Text
key_of line =
    let s = trim_blanks line in
    if s === [] || starts_with s (b'#' ∷ []) || starts_with s (b'!' ∷ [])
    then none
    else if key_match s === []
    then none
    else some (key_match s)

-- The loop at line `i`; where line `i` goes on a logical line, the start and the key of that.
unfoldable pub parse_from : Option (ℕ × Option Text) → ℕ → List Text → List LogicalLine
parse_from none i [] = []
parse_from (some (start, key)) i [] = record { start = start; end = i; key = key } ∷ []
parse_from none i (line ∷ lines) = elim (ends_with_continuation line) [
  | true ↦ parse_from (some (i, key_of line)) (i + 1) lines
  | false ↦ record { start = i; end = i + 1; key = key_of line } ∷ parse_from none (i + 1) lines
]
parse_from (some (start, key)) i (line ∷ lines) = elim (ends_with_continuation line) [
  | true ↦ parse_from (some (start, key)) (i + 1) lines
  | false ↦ record { start = start; end = i + 1; key = key } ∷ parse_from none (i + 1) lines
]

unfoldable pub parse_lines : List Text → List LogicalLine
parse_lines lines = parse_from none 0 lines

-- `replace(/\r?\n/g, ' ')`.
unfoldable pub one_line : Text → Text
one_line [] = []
one_line (c ∷ s) =
    let rest = one_line s in
    if c == b'\n'
    then b' ' ∷ rest
    else if (c == b_cr) && starts_with s (b'\n' ∷ [])
    then rest
    else c ∷ rest

-- `split(/\r?\n/)`, the current piece in front.
unfoldable pub split_lines : Text → Text → List Text
split_lines piece [] = piece ∷ []
split_lines piece (c ∷ s) = elim (c == b'\n') [
  | true ↦ piece ∷ split_lines [] s
  | false ↦ elim ((c == b_cr) && starts_with s (b'\n' ∷ [])) [
    | true ↦ split_lines piece s
    | false ↦ split_lines (piece ++ c ∷ []) s
  ]
]

unfoldable pub has_crlf : Text → Bool
has_crlf [] = false
has_crlf (c ∷ s) = ((c == b_cr) && starts_with s (b'\n' ∷ [])) || has_crlf s

pub record ConfigEntry : Type 0 where
  pub key : Text
  pub value : Text
  pub default : Text
  pub changed : Bool
  pub desc : Text
  pub value_type : ℕ

pub data ChangeKind : Type 0 where
  to_set : ChangeKind
  to_add : ChangeKind
  to_remove : ChangeKind

pub record ConfigChange : Type 0 where
  pub key : Text
  pub kind : ChangeKind
  pub before : Text
  pub after : Text

pub record ConfigPlan : Type 0 where
  pub text : Text
  pub changes : List ConfigChange

-- What the loop over the edits keeps. A line that is replaced by `none` is taken out.
pub record Edited : Type 0 where
  pub changes : List ConfigChange
  pub replace : List (ℕ × Option Text)
  pub appended : List Text

-- `new Map(entries.map(e => [e.key, e]))`.
abbrev pub by_key : List (Text × ConfigEntry) → List ConfigEntry → List (Text × ConfigEntry)
by_key m [] = m
by_key m (e ∷ entries) = by_key (set m e.key e) entries

-- `replace.set(i, null)` for the next lines from `i` on.
unfoldable pub take_out : List (ℕ × Option Text) → ℕ → ℕ → List (ℕ × Option Text)
take_out replace i zero = replace
take_out replace i (suc count) = take_out (set replace i none) (i + 1) count

abbrev pub has_key : Text → LogicalLine → Bool
has_key key l = elim l.key [ none ↦ false | some k ↦ k === key ]

abbrev pub hits_of : Text → List LogicalLine → List LogicalLine
hits_of key [] = []
hits_of key (l ∷ logical) = if has_key key l then l ∷ hits_of key logical else hits_of key logical

abbrev pub last_of : List LogicalLine → Option LogicalLine
last_of [] = none
last_of (l ∷ []) = some l
last_of (l ∷ m ∷ logical) = last_of (m ∷ logical)

unfoldable pub take_out_all : List (ℕ × Option Text) → List LogicalLine → List (ℕ × Option Text)
take_out_all replace [] = replace
take_out_all replace (h ∷ hits) = take_out_all (take_out replace h.start (h.end - h.start)) hits

abbrev pub setting : Text → Text → Text
setting key value = key ++ b'=' ∷ value

abbrev pub is_default : Option ConfigEntry → Text → Bool
is_default none value = false
is_default (some e) value = value === e.default

abbrev pub value_of : Option ConfigEntry → Text
value_of none = []
value_of (some e) = e.value

-- One edit whose value is not that of now.
unfoldable pub apply_edit : List LogicalLine → Option ConfigEntry → Text → Text → Edited → Edited
apply_edit logical entry key value s =
    let change : ChangeKind → ConfigChange =
      λ kind. record { key = key; kind = kind; before = value_of entry; after = value } in
    if is_default entry value
    then record {
      changes = s.changes ++ change to_remove ∷ [];
      replace = take_out_all s.replace (hits_of key logical);
      appended = s.appended;
    }
    else elim (last_of (hits_of key logical)) [
      | some last ↦ record {
        changes = s.changes ++ change to_set ∷ [];
        replace =
            take_out (set s.replace last.start (some (setting key value))) (last.start + 1)
              (last.end - (last.start + 1));
        appended = s.appended;
      }
      | none ↦ record {
        changes = s.changes ++ change to_add ∷ [];
        replace = s.replace;
        appended = s.appended ++ setting key value ∷ [];
      }
    ]

unfoldable pub apply_edits :
    List LogicalLine → List (Text × ConfigEntry) → List (Text × Text) → Edited → Edited
apply_edits logical entries [] s = s
apply_edits logical entries ((key, raw) ∷ edits) s =
    elim (one_line raw === value_of (get entries key)) [
      | true ↦ apply_edits logical entries edits s
      | false ↦
          apply_edits logical entries edits
            (apply_edit logical (get entries key) key (one_line raw) s)
    ]

-- `out` after the loop over the lines, from line `i` on.
unfoldable pub emit : List (ℕ × Option Text) → ℕ → List Text → List Text
emit replace i [] = []
emit replace i (line ∷ lines) =
    let rest = emit replace (i + 1) lines in
    elim (get replace i) [ none ↦ line ∷ rest | some none ↦ rest | some (some next) ↦ next ∷ rest ]

abbrev pub is_empty : List Text → Bool
is_empty [] = true
is_empty (l ∷ ls) = false

-- Without the empty lines at the end.
unfoldable pub pop_blank : List Text → List Text
pop_blank [] = []
pop_blank (l ∷ ls) = let rest = pop_blank ls in if (l === []) && is_empty rest then [] else l ∷ rest

unfoldable pub ends_with_newline : Text → Bool
ends_with_newline s = starts_with (reverse s) (b'\n' ∷ [])

unfoldable pub append_new : Bool → List Text → List Text → List Text
append_new newline [] out = out
append_new newline (a ∷ appended) out =
    pop_blank out ++ (a ∷ appended) ++ (if newline then [] ∷ [] else [])

unfoldable pub join : Text → List Text → Text
join eol [] = []
join eol (l ∷ []) = l
join eol (l ∷ m ∷ ls) = l ++ eol ++ join eol (m ∷ ls)

abbrev pub lines_of : Text → List Text
lines_of s = if s === [] then [] else split_lines [] s

unfoldable pub edit_all : Text → List ConfigEntry → List (Text × Text) → Edited
edit_all s entries edits =
    apply_edits (parse_lines (lines_of s)) (by_key [] entries) edits
      (record { changes = []; replace = []; appended = [] })

-- The lines that `planConfigEdits` joins.
unfoldable pub out_lines : Text → List ConfigEntry → List (Text × Text) → List Text
out_lines s entries edits =
    let e = edit_all s entries edits in
    append_new (ends_with_newline s) e.appended (emit e.replace 0 (lines_of s))

unfoldable pub plan_config_edits : Text → List ConfigEntry → List (Text × Text) → ConfigPlan
plan_config_edits s entries edits = record {
  text = join (if has_crlf s then b_cr ∷ b'\n' ∷ [] else b'\n' ∷ []) (out_lines s entries edits);
  changes = (edit_all s entries edits).changes;
}

abbrev pub all_default_mark : Text
all_default_mark = text "# 모든 항목이 기본값입니다"

unfoldable pub ensure_not_empty : Text → Text
ensure_not_empty s = if trim s === [] then all_default_mark else s
