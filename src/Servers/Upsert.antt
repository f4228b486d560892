-- ===== src/Servers/Upsert.antt =====
-- What a login leaves in the list of servers.
use nscouter.Base.{ℕ, Bool, false, Option, none, some, List, [], ◌+◌, ◌≡◌, ◌⊎◌, ◌∷◌, if◌then◌else◌}
use nscouter.Servers.{ServerProfile, same_target}

-- The entry of a server.
abbrev pub find_target : List ServerProfile → ServerProfile → Option ServerProfile
find_target [] entry = none
find_target (p ∷ ps) entry = if same_target p entry then some p else find_target ps entry

-- How many entries are for this server.
abbrev pub entries_of : List ServerProfile → ServerProfile → ℕ
entries_of [] target = 0
entries_of (p ∷ ps) target =
    let rest = entries_of ps target in if same_target p target then 1 + rest else rest

-- It is for this server, with the password of the login exactly if that is to be kept.
abbrev pub Holds : List ServerProfile → ServerProfile → Bool → Type 0
Holds list entry save_pass =
    (p : ServerProfile) × (find_target list entry ≡ some p)
    × (p.pass ≡ (if save_pass then entry.pass else []))

-- Each entry for the server holds the password exactly if it is to be kept.
abbrev pub Only : ServerProfile → Bool → List ServerProfile → Type 0
Only entry save [] = Unit
Only entry save (p ∷ ps) =
    ((same_target p entry ≡ false) ⊎ (p.pass ≡ (if save then entry.pass else [])))
    × Only entry save ps
