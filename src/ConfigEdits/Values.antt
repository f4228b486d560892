-- ===== src/ConfigEdits/Values.antt =====
-- `validateValue` and `matchesQuery` of components/configEdits.ts: whether a value may be saved, and
-- whether a search finds an entry. `toLowerCase` is a parameter.
use nscouter.Base.Sets.{has}
use nscouter.Base.{
  leb, ℕ, Bool, true, false, not, Option, none, some, List, [], ◌&&◌, ◌||◌, ◌∷◌, ◌++◌, ◌==◌, ◌===◌,
  if◌then◌else◌, nat_eq, list_eq,
}
use nscouter.Base.Text.{Text, text, trim, is_space, starts_with}
use nscouter.ConfigEdits.{ConfigEntry}

abbrev only_integers : Text
only_integers = text "정수만 넣을 수 있습니다"

abbrev only_booleans : Text
only_booleans = text "true 또는 false 여야 합니다"

abbrev only_pairs : Text
only_pairs = text "«이름:값» 모양이 아닌 것이 있습니다"

abbrev all_digits : Text → Bool
all_digits [] = true
all_digits (c ∷ s) = leb b'0' c && leb c b'9' && all_digits s

-- `/^\d+$/`.
abbrev is_digits : Text → Bool
is_digits s = not (s === []) && all_digits s

-- `/^-?\d+$/`.
abbrev pub is_integer : Text → Bool
is_integer [] = false
is_integer (c ∷ s) = if c == b'-' then is_digits s else is_digits (c ∷ s)

-- `split(d)`, the current piece in front.
unfoldable pub split_at : ℕ → Text → Text → List Text
split_at d piece [] = piece ∷ []
split_at d piece (c ∷ s) = elim (c == d) [
  | true ↦ piece ∷ split_at d [] s
  | false ↦ split_at d (piece ++ c ∷ []) s
]

-- `some(s => s !== '' && !s.includes(':'))` on the trimmed pieces.
abbrev pub any_bad_pair : List Text → Bool
any_bad_pair [] = false
any_bad_pair (p ∷ ps) = (not (trim p === []) && not (has (trim p) b':')) || any_bad_pair ps

-- The reason that a value of the type may not be saved, or `none`.
unfoldable pub validate_value : Text → ℕ → Option Text
validate_value value value_type =
    let v = trim value in
    if value_type == 2
    then if v === [] || is_integer v then none else some only_integers
    else if value_type == 3
    then if v === text "true" || v === text "false" then none else some only_booleans
    else if value_type == 5
    then if v === [] || not (any_bad_pair (split_at b',' [] v)) then none else some only_pairs
    else none

-- `hay.includes(w)`.
abbrev pub has_text : Text → Text → Bool
has_text [] w = w === []
has_text (c ∷ s) w = starts_with (c ∷ s) w || has_text s w

-- `split(/\s+/).filter(Boolean)`, the current word in front.
unfoldable pub words_of : Text → Text → List Text
words_of [] [] = []
words_of (d ∷ word) [] = (d ∷ word) ∷ []
words_of word (c ∷ s) = elim (is_space c) [
  | true ↦ elim (word === []) [ true ↦ words_of [] s | false ↦ word ∷ words_of [] s ]
  | false ↦ words_of (word ++ c ∷ []) s
]

abbrev pub all_included : Text → List Text → Bool
all_included hay [] = true
all_included hay (w ∷ words) = has_text hay w && all_included hay words

module _ (to_lower_case : Text → Text) where
  unfoldable pub matches_query : ConfigEntry → Text → Bool
  matches_query e query =
      let words = words_of [] (to_lower_case (trim query)) in
      let hay =
        to_lower_case
          (e.key ++ b'\n' ∷ [] ++ e.value ++ b'\n' ∷ [] ++ e.default ++ b'\n' ∷ [] ++ e.desc) in
      all_included hay words
