-- ===== src/Objects.antt =====
-- features/xlog/hooks/objectTimeline.ts and agentNames.ts: what was seen of the servers, and until
-- when. The module's variables are a record that is passed on. `none` in what a file holds is an
-- entry that `toSeen` refuses.
pub mod History
pub mod Restore
pub mod Persist
mod Tests
use nscouter.Base.Sets.{has}
use nscouter.Base.{
  ltb, leb, length, take, ℕ, max, Bool, true, false, Option, none, some, List, [], ◌+◌, ◌*◌, ◌||◌,
  ◌∷◌, ◌===◌, if◌then◌else◌, nat_eq, list_eq,
}
use nscouter.Base.Maps.{get, set, values, keys}
use nscouter.Base.Text.{Text}
use nscouter.Xlog.{AgentObject}

pub record SeenObject : Type 0 where
  pub obj_hash : ℕ
  pub obj_name : Text
  pub obj_type : Text
  pub tags : List (Text × Text)
  pub first_seen : ℕ
  pub last_alive : ℕ
  pub alive : Bool

pub record Timeline : Type 0 where
  pub seen : List (ℕ × SeenObject)
  pub primed : Bool

-- `prev?.x ?? d`.
abbrev pub or_else {ℓ} : {A : Type ℓ} → Option SeenObject → (SeenObject → A) → A → A
or_else none x d = d
or_else (some prev) x d = x prev

abbrev pub observed : Bool → ℕ → Option SeenObject → AgentObject → SeenObject
observed primed now prev a = record {
  obj_hash = a.obj_hash;
  obj_name = if a.obj_name === [] then or_else prev (λ p. p.obj_name) [] else a.obj_name;
  obj_type = if a.obj_type === [] then or_else prev (λ p. p.obj_type) [] else a.obj_type;
  tags = if ltb 0 (length a.tags) then a.tags else or_else prev (λ p. p.tags) [];
  first_seen = or_else prev (λ p. p.first_seen) (if primed then now else 0);
  last_alive = if a.alive then now else max a.wakeup (or_else prev (λ p. p.last_alive) 0);
  alive = a.alive;
}

unfoldable pub observe_all :
    Bool → ℕ → List (ℕ × SeenObject) → List AgentObject → List (ℕ × SeenObject)
observe_all primed now seen [] = seen
observe_all primed now seen (a ∷ rest) =
    observe_all primed now (set seen a.obj_hash (observed primed now (get seen a.obj_hash) a)) rest

unfoldable pub observe_objects : Timeline → List AgentObject → ℕ → Timeline
observe_objects t agents now = record {
  seen = observe_all t.primed now t.seen agents;
  primed = true;
}

abbrev pub clear_object_history : Timeline
clear_object_history = record { seen = []; primed = false }

abbrev pub history_keep_ms : ℕ
history_keep_ms = 7 * 24 * 60 * 60_000

abbrev pub history_keep_max : ℕ
history_keep_max = 5_000

-- `s.alive || s.lastAlive >= now - HISTORY_KEEP_MS`, with no subtraction.
abbrev pub is_recent : ℕ → SeenObject → Bool
is_recent now s = s.alive || leb now (s.last_alive + history_keep_ms)

abbrev pub keep_seen : ℕ → List SeenObject → List SeenObject
keep_seen now [] = []
keep_seen now (s ∷ ss) = if is_recent now s then s ∷ keep_seen now ss else keep_seen now ss

-- The stable sort by `b.lastAlive - a.lastAlive`.
unfoldable pub insert_seen : SeenObject → List SeenObject → List SeenObject
insert_seen s [] = s ∷ []
insert_seen s (u ∷ us) = if leb u.last_alive s.last_alive then s ∷ u ∷ us else u ∷ insert_seen s us

unfoldable pub sort_seen : List SeenObject → List SeenObject
sort_seen [] = []
sort_seen (s ∷ ss) = insert_seen s (sort_seen ss)

unfoldable pub persistable_history : Timeline → ℕ → List SeenObject
persistable_history t now = take history_keep_max (sort_seen (keep_seen now (values t.seen)))

-- What `toSeen` makes of an entry that it does not refuse: as one that is down.
abbrev pub to_seen : SeenObject → SeenObject
to_seen x = record x { alive = false }

-- An entry that is not refused, and not known yet.
unfoldable pub restore_all :
    List (ℕ × SeenObject) → ℕ → List (Option SeenObject) → List (ℕ × SeenObject) × ℕ
restore_all seen n [] = (seen, n)
restore_all seen n (none ∷ vs) = restore_all seen n vs
restore_all seen n (some x ∷ vs) =
    if has (keys seen) x.obj_hash
    then restore_all seen n vs
    else restore_all (set seen x.obj_hash (to_seen x)) (n + 1) vs

unfoldable pub restore_object_history : Timeline → List (Option SeenObject) → Timeline × ℕ
restore_object_history t entries =
    let r = restore_all t.seen 0 entries in (record t { seen = r.0 }, r.1)

abbrev pub as_agent : SeenObject → AgentObject
as_agent s = record {
  obj_hash = s.obj_hash;
  obj_type = s.obj_type;
  obj_name = s.obj_name;
  address = [];
  version = [];
  alive = s.alive;
  wakeup = s.last_alive;
  tags = s.tags;
}

unfoldable pub remember_names : List (ℕ × Text) → List AgentObject → List (ℕ × Text)
remember_names names [] = names
remember_names names (a ∷ rest) =
    remember_names (if a.obj_name === [] then names else set names a.obj_hash a.obj_name) rest

abbrev pub name_of : List (ℕ × Text) → ℕ → Option Text
name_of names obj_hash = get names obj_hash
