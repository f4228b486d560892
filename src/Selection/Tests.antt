-- ===== src/Selection/Tests.antt =====
-- Selections over three tasks of two services.
use nscouter.Selection.Grouping.{
  group_by_service, tasks_of, fill_buckets, get-group_by_service, drop_single,
}
use nscouter.Xlog.{AgentObject}
use nscouter.Base.Sets.{has, Distinct, add_all}
use nscouter.Base.Text.{Text, text, trim}
use nscouter.Base.Maps.{get, set, keys}
use nscouter.Base.Sets.{add_all, add}
use nscouter.Selection.Service.{service_name_of, RegExp, GroupRule, from_tags, short_name}
use nscouter.Selection.{
  GroupSelection, resolve_selection, resolve_past_selection, alive_hashes, pick_task,
}
use nscouter.Base.{
  leb, length, take, ℕ, refl, inl, inr, Bool, true, false, not, none, some, List, [], ◌≡◌, ◌≢◌,
  ◌&&◌, ◌||◌, ◌∷◌, ◌==◌, if◌then◌else◌, nat_eq, list_eq,
}
use nscouter.Selection.Resolve.{has-pick_task, belongs, has-resolve_selection, hashes_of, Listed}

-- An engine whose every pattern takes the first three characters.
abbrev three_letters : RegExp
three_letters pattern = some (λ name. some (record { svc = none; first = some (take 3 name) }))

abbrev by_tag : GroupRule
by_tag = record { tag_key = text "service"; pattern = text "^..." }

abbrev task_of : ℕ → Text → Bool → AgentObject
task_of hash name alive = record {
  obj_hash = hash;
  obj_type = text "tomcat";
  obj_name = name;
  address = [];
  version = [];
  alive = alive;
  wakeup = 0;
  tags = [];
}

-- The tag stands before the rule on the name.
abbrev tagged : AgentObject
tagged = record (task_of 13 (text "/host/pay-9") true) {
  tags = (text "service", text " ord ") ∷ [];
}

abbrev tasks : List AgentObject
tasks =
    task_of 11 (text "/host/ord-1") true
    ∷ task_of 12 (text "/host/ord-2") false
    ∷ tagged
    ∷ task_of 14 (text "/host/pay-1") true
    ∷ []

abbrev picked_order : GroupSelection
picked_order = record { services = text "ord" ∷ []; hashes = [] }

tagged_service : service_name_of three_letters by_tag tagged ≡ some (text "ord")
unfolding service_name_of from_tags short_name trim
tagged_service = refl

live_hashes : resolve_selection three_letters by_tag picked_order tasks ≡ 11 ∷ 13 ∷ []
unfolding resolve_selection add_all add service_name_of from_tags short_name trim
live_hashes = refl

past_hashes : resolve_past_selection three_letters by_tag picked_order tasks ≡ 11 ∷ 12 ∷ 13 ∷ []
unfolding resolve_past_selection add_all add service_name_of from_tags short_name trim
past_hashes = refl

distinct_lem : Distinct (hashes_of three_letters by_tag tasks)
distinct_lem = (refl, (refl, (refl, (refl, tt))))

listed_lem : Listed three_letters by_tag tagged tasks
listed_lem = inr (inr (inl refl))

abbrev two_picked : List ℕ
two_picked = 11 ∷ 14 ∷ []

abbrev group : List ℕ
group = 11 ∷ 13 ∷ []

abbrev seen : List ℕ
seen = 11 ∷ 12 ∷ []

not_empty : group ≢ []
not_empty e = absurd (cc)

has-pick_task_example :
    has
      (resolve_selection three_letters by_tag
        (pick_task three_letters by_tag picked_order tagged tasks)
        tasks)
      11
    ≡ (has (resolve_selection three_letters by_tag picked_order tasks) 11 && not (13 == 11))
has-pick_task_example =
    has-pick_task three_letters by_tag picked_order tagged tasks (text "ord") 11 distinct_lem
      listed_lem tagged_service refl

has-resolve_selection_example :
    has (resolve_selection three_letters by_tag picked_order tasks) 12 ≡ (
      has (alive_hashes tasks) 12
      && (has picked_order.hashes 12
          || belongs three_letters by_tag picked_order.services tasks 12))
has-resolve_selection_example = has-resolve_selection three_letters by_tag picked_order tasks 12

-- Of the four tasks three are of the first service; the other has one alone and no group.
grouped : keys (group_by_service three_letters by_tag tasks) ≡ text "ord" ∷ []
unfolding group_by_service fill_buckets drop_single get set service_name_of from_tags short_name
    trim
grouped = refl

get-group_by_service_example : get (group_by_service three_letters by_tag tasks) (text "ord") ≡ (
    let list = tasks_of three_letters by_tag (text "ord") tasks in
    if leb (length list) 1 then none else some list)
get-group_by_service_example = get-group_by_service three_letters by_tag tasks (text "ord")
