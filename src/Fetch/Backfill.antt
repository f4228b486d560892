-- ===== src/Fetch/Backfill.antt =====
-- The backfill never fetches what the store holds, and leaves no server out.
use nscouter.Base.{
  ℕ, Bool, false, not, Option, none, some, List, [], ◌+◌, ◌&&◌, ◌∷◌, if◌then◌else◌, nat_eq, list_eq,
}
use nscouter.Base.Sets.{has}
use nscouter.Fetch.{BackfillCoverage, BackfillJob, BackfillInput, or_now}

-- How many of the jobs are for a server, and begin and end as is asked for.
abbrev pub asked : (ℕ → ℕ → Bool) → ℕ → List BackfillJob → ℕ
asked p h [] = 0
asked p h (j ∷ js) = (if has j.obj_hashes h && p j.stime j.etime then 1 else 0) + asked p h js

-- A backfill was there before, and this server was not part of it.
abbrev pub is_new : Option BackfillCoverage → ℕ → Bool
is_new none h = false
is_new (some c) h = not (has c.hashes h)

-- From where on something is held of the server: of a new one what the store holds of the new ones,
-- of the others what it holds of any, and nothing but from now on if it holds nothing.
abbrev pub held_from : BackfillInput → ℕ → ℕ
held_from input h =
    if is_new input.covered h
    then or_now input.oldest_fresh input.now
    else or_now input.oldest input.now
