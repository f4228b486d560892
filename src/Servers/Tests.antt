-- ===== src/Servers/Tests.antt =====
-- Two servers, one of which is logged in to again.
use nscouter.Base.Sorts.{All}
use nscouter.Servers.Rename.{rename-names}
use nscouter.Servers.Upsert.{entries_of}
use nscouter.Servers.Names.{has-free_name}
use nscouter.Servers.Normalize.{names, Reachable, normalize_profiles-names}
use nscouter.Servers.{
  upsert, ServerProfile, RawProfile, normalize_profiles, display_name, normalize_list, free_name,
  port_of, free_from, numbered, rename,
}
use nscouter.Base.{
  refl, false, Option, none, some, List, [], arith, ◌≤◌, ◌≡◌, ◌∷◌, ◌===◌, nat_eq, list_eq,
}
use nscouter.Base.Sets.{add, Distinct, has}
use nscouter.Base.Int.{pos}
use nscouter.Base.Numbers.{Number, milli, not_finite}
use nscouter.Base.Text.{Text, text, trim, trim_start, is_space, decimal, digits_from}

abbrev server : Text → Text → ServerProfile
server host pass = record { name = []; host = host; port = 6100; user = text "admin"; pass = pass }

abbrev saved : List ServerProfile
saved = server (text "dev") (text "old") ∷ server (text "prod") (text "secret") ∷ []

-- Two entries of the file have no name and the same host, one has another user.
abbrev of_file : Text → Number → Option RawProfile
of_file user port =
    some (record {
      host = some (text " dev ");
      port = port;
      name = none;
      user = some user;
      pass = none;
    })

abbrev file_entries : List (Option RawProfile)
file_entries =
    none ∷ of_file (text "a") (milli (pos 6_100_000)) ∷ of_file (text "b") not_finite ∷ []

read_names :
    names (normalize_profiles (some file_entries)) ≡ text "dev:6100" ∷ text "dev:6100 (2)" ∷ []
unfolding normalize_profiles normalize_list port_of display_name trim trim_start is_space decimal
    digits_from free_from numbered add
read_names = refl

normalize_profiles-names_example :
    Distinct (names (normalize_profiles (some file_entries)))
    × All Reachable (normalize_profiles (some file_entries))
normalize_profiles-names_example = normalize_profiles-names (some file_entries)

has-free_name_example :
    has
      (text "dev" ∷ text "dev (2)" ∷ [])
      (free_name (text "dev" ∷ text "dev (2)" ∷ []) (text "dev"))
    ≡ false
has-free_name_example = has-free_name (text "dev" ∷ text "dev (2)" ∷ []) (text "dev")

apart : Distinct (names saved)
unfolding display_name trim trim_start is_space decimal digits_from
apart = (refl, (refl, tt))

at_most_once : entries_of saved (server (text "dev") []) ≤ 1
at_most_once = omega arith

not_blank : (trim (text "prod:6100") === []) ≡ false
unfolding trim trim_start is_space
not_blank = refl

-- The name that is asked for is the one that the other server is shown under.
rename-names_example : Distinct (names (rename saved (server (text "dev") []) (text "prod:6100")))
rename-names_example =
    rename-names saved (server (text "dev") []) (text "prod:6100") apart at_most_once not_blank

-- A login of another user is kept beside the first, under the same name.
same_name :
    names (upsert saved (record (server (text "dev") []) { user = text "b" }) false)
    ≡ text "dev:6100" ∷ text "prod:6100" ∷ text "dev:6100" ∷ []
unfolding upsert display_name trim trim_start is_space decimal digits_from
same_name = refl
