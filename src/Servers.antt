-- ===== src/Servers.antt =====
-- features/xlog/components/serverProfiles.ts: the saved servers, known by the names that the user
-- gives them. The file's entries come as parsed records.
pub mod Upsert
pub mod Names
pub mod Normalize
pub mod Rename
mod Tests
use nscouter.Base.{
  ltb, length, ℕ, zero, suc, Bool, true, false, Option, none, some, List, [], ◌+◌, ◌/◌, ◌%◌, ◌&&◌,
  ◌∷◌, ◌++◌, ◌==◌, ◌===◌, if◌then◌else◌, nat_eq, list_eq,
}
use nscouter.Base.Sets.{has, add, add_all}
use nscouter.Base.Int.{pos, negsuc}
use nscouter.Base.Numbers.{Number, milli, not_finite}
use nscouter.Base.Text.{Text, text, trim, decimal}

pub record ServerProfile : Type 0 where
  pub name : Text
  pub host : Text
  pub port : ℕ
  pub user : Text
  pub pass : Text

unfoldable pub display_name : ServerProfile → Text
display_name p = if trim p.name === [] then p.host ++ (text ":" ++ decimal p.port) else trim p.name

abbrev pub same_target : ServerProfile → ServerProfile → Bool
same_target a b = (a.host === b.host) && (a.port == b.port) && (a.user === b.user)

-- `list.findIndex(p => sameTarget(p, entry))`.
abbrev pub find_index : List ServerProfile → ServerProfile → Option ℕ
find_index [] entry = none
find_index (p ∷ ps) entry =
    if same_target p entry
    then some 0
    else elim (find_index ps entry) [ none ↦ none | some i ↦ some (suc i) ]

abbrev pub with_pass : Bool → ServerProfile → ServerProfile
with_pass save_pass entry = record entry { pass = if save_pass then entry.pass else [] }

-- A name of the user's own is kept.
abbrev pub updated : Bool → ServerProfile → ServerProfile → ServerProfile
updated save_pass entry old = record old {
  name = if trim old.name === [] then entry.name else old.name;
  pass = if save_pass then entry.pass else [];
}

-- `next[idx] = f(next[idx])`.
abbrev pub change_at : ℕ → (ServerProfile → ServerProfile) → List ServerProfile → List ServerProfile
change_at i f [] = []
change_at zero f (p ∷ ps) = f p ∷ ps
change_at (suc i) f (p ∷ ps) = p ∷ change_at i f ps

unfoldable pub upsert : List ServerProfile → ServerProfile → Bool → List ServerProfile
upsert list entry save_pass = elim (find_index list entry) [
  | none ↦ list ++ with_pass save_pass entry ∷ []
  | some idx ↦ change_at idx (updated save_pass entry) list
]

abbrev pub find_named : List ServerProfile → Text → Option ServerProfile
find_named [] name = none
find_named (p ∷ ps) name = if display_name p === name then some p else find_named ps name

unfoldable pub pick : List ServerProfile → Text → Option ServerProfile
pick [] name = none
pick (p ∷ ps) name = elim (find_named (p ∷ ps) name) [ none ↦ some p | some q ↦ some q ]

unfoldable pub numbered : Text → ℕ → Text
numbered label n = label ++ (text " (" ++ (decimal n ++ text ")"))

-- `while (used.has(...)) n++`, with the name that it ends at. One of any `length used + 1` numbers
-- is free.
unfoldable pub free_from : ℕ → List Text → Text → ℕ → Text
free_from zero used label n = numbered label n
free_from (suc fuel) used label n =
    let rest = free_from fuel used label (n + 1) in
    if has used (numbered label n) then rest else numbered label n

unfoldable pub free_name : List Text → Text → Text
free_name used base = if has used base then free_from (length used) used base 2 else base

-- An object of the file: `none` is a field that is not a string, `port` what `Number` makes of it.
pub record RawProfile : Type 0 where
  pub host : Option Text
  pub port : Number
  pub name : Option Text
  pub user : Option Text
  pub pass : Option Text

abbrev pub or_empty : Option Text → Text
or_empty none = []
or_empty (some s) = s

-- `Number.isInteger(port) && port > 0 && port < 65536 ? port : 6100`.
unfoldable pub port_of : Number → ℕ
port_of (milli (pos m)) =
    if (m % 1000 == 0) && ltb 0 (m / 1000) && ltb (m / 1000) 65536 then m / 1000 else 6100
port_of (milli (negsuc m)) = 6100
port_of not_finite = 6100

abbrev pub profile_of : RawProfile → ServerProfile
profile_of r = record {
  name = trim (or_empty r.name);
  host = trim (or_empty r.host);
  port = port_of r.port;
  user = or_empty r.user;
  pass = or_empty r.pass;
}

-- The name that an entry gets, and the entry under it.
abbrev pub settle : List Text → ServerProfile → Text × ServerProfile
settle used p =
    let label = display_name p in
    let free = free_from (length used) used label 2 in
    if has used label then (free, record p { name = free }) else (label, p)

-- The loop of `normalize`; `none` is an entry that is not an object.
unfoldable pub normalize_list : List Text → List (Option RawProfile) → List ServerProfile
normalize_list used [] = []
normalize_list used (none ∷ rs) = normalize_list used rs
normalize_list used (some r ∷ rs) = elim (trim (or_empty r.host) === []) [
  | true ↦ normalize_list used rs
  | false ↦ let s = settle used (profile_of r) in s.1 ∷ normalize_list (add used s.0) rs
]

-- `none`: the file holds something that is not an array.
unfoldable pub normalize_profiles : Option (List (Option RawProfile)) → List ServerProfile
normalize_profiles none = []
normalize_profiles (some rs) = normalize_list [] rs

abbrev pub is_excluded : ServerProfile → Option ServerProfile → Bool
is_excluded p none = false
is_excluded p (some e) = same_target p e

-- The names of all entries but those of `exclude`.
abbrev pub names_but : Option ServerProfile → List ServerProfile → List Text
names_but exclude [] = []
names_but exclude (p ∷ ps) =
    if is_excluded p exclude then names_but exclude ps else display_name p ∷ names_but exclude ps

unfoldable pub unique_name : List ServerProfile → Text → Option ServerProfile → Text
unique_name list base exclude = free_name (add_all [] (names_but exclude list)) base

unfoldable pub rename : List ServerProfile → ServerProfile → Text → List ServerProfile
rename list target name = elim (find_index list target) [
  | none ↦ list
  | some idx ↦
      let wanted = trim name in
      change_at idx
        (λ p. record p {
          name = if wanted === [] then [] else unique_name list wanted (some target);
        })
        list
]

-- The settings from before the list: `none` is a field that is null or missing.
pub record LegacyConfig : Type 0 where
  pub last_host : Option Text
  pub last_port : Option ℕ
  pub last_user : Option Text
  pub last_pass : Option Text

abbrev pub port_or : Option ℕ → ℕ
port_or none = 6100
port_or (some p) = p

unfoldable pub from_legacy : LegacyConfig → List ServerProfile
from_legacy cfg =
    let host = trim (or_empty cfg.last_host) in
    if host === []
    then []
    else record {
      name = [];
      host = host;
      port = port_or cfg.last_port;
      user = or_empty cfg.last_user;
      pass = or_empty cfg.last_pass;
    }
      ∷ []
