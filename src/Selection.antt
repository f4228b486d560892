-- ===== src/Selection.antt =====
-- features/xlog/hooks/groupSelection.ts: what is picked, and which hashes it stands for.
pub mod Service
pub mod Grouping
pub mod Picking
pub mod Resolve
mod Tests
use nscouter.Base.{
  ltb, length, Eq, ℕ, Bool, false, Option, none, some, List, [], ◌&&◌, ◌∷◌, ◌++◌, ◌==◌,
  if◌then◌else◌, nat_eq, list_eq,
}
use nscouter.Base.Sets.{has, add, add_all, delete}
use nscouter.Base.Maps.{keys, values, set}
use nscouter.Base.Text.{Text}
use nscouter.Xlog.{AgentObject}
use Service.{GroupRule, RegExp, service_name_of}

-- `[...selected].filter(h => live.has(h))`.
abbrev pub keep_in : List ℕ → List ℕ → List ℕ
keep_in live [] = []
keep_in live (x ∷ xs) = if has live x then x ∷ keep_in live xs else keep_in live xs

pub record GroupSelection : Type 0 where
  pub services : List Text
  pub hashes : List ℕ

abbrev pub empty_selection : GroupSelection
empty_selection = record { services = []; hashes = [] }

abbrev pub is_empty : GroupSelection → Bool
is_empty sel = length sel.services == 0 && length sel.hashes == 0

pub toggle {ℓ} : {A : Type ℓ} ⦃e : Eq A⦄ → List A → A → List A
toggle vs v = if has vs v then delete vs v else vs ++ v ∷ []

unfoldable pub toggle_service : GroupSelection → Text → GroupSelection
toggle_service sel name = record sel { services = toggle sel.services name }

unfoldable pub toggle_hash : GroupSelection → ℕ → GroupSelection
toggle_hash sel hash = record sel { hashes = toggle sel.hashes hash }

-- The keys of the map `alive`.
abbrev pub alive_hashes : List AgentObject → List ℕ
alive_hashes [] = []
alive_hashes (a ∷ rest) = if a.alive then a.obj_hash ∷ alive_hashes rest else alive_hashes rest

pub data SelectionState : Type 0 where
  none_selected empty_group ok : SelectionState

module _ (re : RegExp) (rule : GroupRule) where
  -- `name !== null && services.has(name)`.
  abbrev pub serves : List Text → AgentObject → Bool
  serves services a = elim (service_name_of re rule a) [
    | none ↦ false
    | some name ↦ has services name
  ]

  -- The hashes of the agents whose service is picked and whose hash is in `allowed`.
  abbrev pub served_alive : List Text → List ℕ → List AgentObject → List ℕ
  served_alive services alive [] = []
  served_alive services alive (a ∷ rest) =
      if has alive a.obj_hash && serves services a
      then a.obj_hash ∷ served_alive services alive rest
      else served_alive services alive rest

  pub resolve_selection : GroupSelection → List AgentObject → List ℕ
  resolve_selection sel agents =
      let alive = alive_hashes agents in
      let from_groups =
        if ltb 0 (length sel.services)
        then add_all [] (served_alive sel.services alive agents)
        else [] in
      if is_empty sel then [] else add_all from_groups (keep_in alive sel.hashes)

  abbrev pub served : List Text → List AgentObject → List ℕ
  served services [] = []
  served services (a ∷ rest) =
      if serves services a then a.obj_hash ∷ served services rest else served services rest

  pub resolve_past_selection : GroupSelection → List AgentObject → List ℕ
  resolve_past_selection sel candidates =
      let from_groups =
        if ltb 0 (length sel.services) then add_all [] (served sel.services candidates) else [] in
      if is_empty sel then [] else add_all from_groups sel.hashes

  pub selection_state : GroupSelection → List AgentObject → SelectionState
  selection_state sel agents =
      if is_empty sel
      then none_selected
      else if ltb 0 (length (resolve_selection sel agents))
      then ok
      else empty_group

  pub past_selection_state : GroupSelection → List AgentObject → SelectionState
  past_selection_state sel candidates =
      if is_empty sel
      then none_selected
      else if ltb 0 (length (resolve_past_selection sel candidates))
      then ok
      else empty_group

  -- `a.alive && serviceNameOf(a, rule) === svc`.
  abbrev pub members : Text → List AgentObject → List ℕ
  members svc [] = []
  members svc (a ∷ rest) =
      if a.alive && serves (svc ∷ []) a then a.obj_hash ∷ members svc rest else members svc rest

  pick_of : Option Text → GroupSelection → ℕ → List AgentObject → GroupSelection
  pick_of none sel hash agents = toggle_hash sel hash
  pick_of (some svc) sel hash agents =
      if has sel.services svc
      then record {
        services = delete sel.services svc;
        hashes = delete (add_all sel.hashes (members svc agents)) hash;
      }
      else toggle_hash sel hash

  pub pick_task : GroupSelection → AgentObject → List AgentObject → GroupSelection
  unfolding pick_of
  pick_task sel agent agents = pick_of (service_name_of re rule agent) sel agent.obj_hash agents

-- One list of the loop, into a map by hash.
abbrev pub merge_list : List (ℕ × AgentObject) → List AgentObject → List (ℕ × AgentObject)
merge_list out [] = out
merge_list out (a ∷ rest) =
    merge_list (if has (keys out) a.obj_hash then out else set out a.obj_hash a) rest

merge_from : List (ℕ × AgentObject) → List (List AgentObject) → List (ℕ × AgentObject)
merge_from out [] = out
merge_from out (list ∷ lists) = merge_from (merge_list out list) lists

pub merge_candidates : List (List AgentObject) → List AgentObject
unfolding merge_from
merge_candidates lists = values (merge_from [] lists)
