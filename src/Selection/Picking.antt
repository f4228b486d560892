-- ===== src/Selection/Picking.antt =====
-- features/xlog/components/agentFilter.ts: the set of picked servers, and a group of them.
use nscouter.Base.{
  length, ℕ, suc, refl, Bool, true, false, not, List, [], arith, ◌≤◌, ◌≡◌, ◌≢◌, ◌⊎◌, ◌&&◌, ◌||◌,
  ◌∷◌, ◌==◌, if◌then◌else◌, nat_eq, list_eq,
}
use nscouter.Base.Sets.{has, add_all, delete, has-delete, has-add_all}
use nscouter.Selection.{keep_in}

-- What `components/agentFilter.ts` says of a row and of a group.
pub data AgentRowState : Type 0 where
  plain picked excluded : AgentRowState

pub data GroupCheck : Type 0 where
  none_picked some_picked all_picked : GroupCheck

pub agent_row_state : List ℕ → ℕ → AgentRowState
agent_row_state [] hash = plain
agent_row_state (x ∷ xs) hash = if has (x ∷ xs) hash then picked else excluded

pub count_picked : List ℕ → List ℕ → ℕ
count_picked selected [] = 0
count_picked selected (h ∷ hs) =
    if has selected h then suc (count_picked selected hs) else count_picked selected hs

pub group_check : List ℕ → List ℕ → GroupCheck
group_check selected [] = none_picked
group_check selected (h ∷ hs) =
    let picked_count = count_picked selected (h ∷ hs) in
    if picked_count == 0
    then none_picked
    else if picked_count == length (h ∷ hs)
    then all_picked
    else some_picked

abbrev pub delete_all : List ℕ → List ℕ → List ℕ
delete_all xs [] = xs
delete_all xs (h ∷ hs) = delete_all (delete xs h) hs

pub toggle_group_pick : List ℕ → List ℕ → List ℕ
toggle_group_pick selected hashes = elim (group_check selected hashes) [
  | all_picked ↦ delete_all selected hashes
  | _ ↦ add_all selected hashes
]

pub prune_picked : List ℕ → List ℕ → List ℕ
prune_picked selected [] = selected
prune_picked selected (h ∷ hs) =
    let kept = keep_in (h ∷ hs) selected in
    if length kept == length selected then selected else kept

-- Every hash of the group is picked.
abbrev pub all_in : List ℕ → List ℕ → Bool
all_in selected [] = true
all_in selected (h ∷ hs) = has selected h && all_in selected hs

count_picked-le : (selected hs : List ℕ) → count_picked selected hs ≤ length hs
unfolding count_picked
count_picked-le selected [] = omega arith
count_picked-le selected (h ∷ hs) = ground (arith, count_picked-le selected hs)

count_picked_iff :
    (selected hs : List ℕ) → (count_picked selected hs == length hs) ≡ all_in selected hs
unfolding count_picked
count_picked_iff selected [] = refl
count_picked_iff selected (h ∷ hs) =
    ground (arith, count_picked_iff selected hs, count_picked-le selected hs)

group_check_cases :
    (selected : List ℕ) (h : ℕ) (hs : List ℕ)
    → (group_check selected (h ∷ hs) ≡ all_picked) × (all_in selected (h ∷ hs) ≡ true)
      ⊎ (group_check selected (h ∷ hs) ≢ all_picked) × (all_in selected (h ∷ hs) ≡ false)
unfolding group_check
group_check_cases selected h hs = ground (arith, count_picked_iff selected (h ∷ hs))

has-delete_all : (xs hs : List ℕ) (b : ℕ) → has (delete_all xs hs) b ≡ (has xs b && not (has hs b))
has-delete_all xs [] b = ground arith
has-delete_all xs (h ∷ hs) b = ground (arith, has-delete_all (delete xs h) hs b, has-delete xs h b)

has-toggle_nil :
    (selected : List ℕ) (b : ℕ)
    → has (toggle_group_pick selected []) b ≡ (has selected b && not (has [] b))
unfolding toggle_group_pick group_check
has-toggle_nil selected b = ground (arith, has-add_all selected [] b)

-- Toggling a group takes it out when every server of it is picked, and picks all of it otherwise, as
-- when only some are picked; the servers of other groups stay as they were.
pub has-toggle_group_pick :
    (selected hashes : List ℕ) (b : ℕ)
    → has (toggle_group_pick selected hashes) b ≡ (
        if all_in selected hashes
        then has selected b && not (has hashes b)
        else has selected b || has hashes b)
unfolding toggle_group_pick
has-toggle_group_pick selected [] b = has-toggle_nil selected b
has-toggle_group_pick selected (h ∷ hs) b = ground (
  arith,
  group_check_cases selected h hs,
  has-delete_all selected (h ∷ hs) b,
  has-add_all selected (h ∷ hs) b,
)

pub has-keep_in : (live xs : List ℕ) (b : ℕ) → has (keep_in live xs) b ≡ (has xs b && has live b)
has-keep_in live [] b = refl
has-keep_in live (x ∷ xs) b = ground (arith, has-keep_in live xs b)

length-keep_in-le : (live xs : List ℕ) → length (keep_in live xs) ≤ length xs
length-keep_in-le live [] = omega arith
length-keep_in-le live (x ∷ xs) = ground (arith, length-keep_in-le live xs)

keep_in_of_length : (live xs : List ℕ) → length (keep_in live xs) ≡ length xs → keep_in live xs ≡ xs
keep_in_of_length live [] h = refl
keep_in_of_length live (x ∷ xs) h =
    ground (arith, keep_in_of_length live xs, length-keep_in-le live xs)

-- Against a list of servers that is not empty, exactly the picked servers that are on it stay picked.
pub has-prune_picked :
    (selected alive : List ℕ) (b : ℕ)
    → alive ≢ []
    → has (prune_picked selected alive) b ≡ (has selected b && has alive b)
unfolding prune_picked
has-prune_picked selected [] b ne = absurd (ne refl)
has-prune_picked selected (h ∷ hs) b ne =
    ground (arith, has-keep_in (h ∷ hs) selected b, keep_in_of_length (h ∷ hs) selected)
