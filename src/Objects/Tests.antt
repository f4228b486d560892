-- ===== src/Objects/Tests.antt =====
-- Two lists of servers, one after the other.
use nscouter.Objects.Persist.{NewestFirst, In, Since, persistable_history_lem}
use nscouter.Objects.History.{Continues, observe_objects-Continues}
use nscouter.Base.{
  length, ℕ, refl, inl, Bool, true, false, some, List, [], arith, ◌≤◌, ◌≡◌, ◌⊎◌, ◌∷◌, nat_eq,
  list_eq,
}
use nscouter.Base.Maps.{get, set, values}
use nscouter.Base.Text.{Text, text}
use nscouter.Xlog.{AgentObject}
use nscouter.Objects.{
  SeenObject, Timeline, observe_objects, persistable_history, clear_object_history, observe_all,
}

abbrev listed : ℕ → Text → Bool → ℕ → AgentObject
listed hash name alive wakeup = record {
  obj_hash = hash;
  obj_type = text "tomcat";
  obj_name = name;
  address = [];
  version = [];
  alive = alive;
  wakeup = wakeup;
  tags = [];
}

abbrev first_list : List AgentObject
first_list = listed 1 (text "/a/ord") true 0 ∷ listed 2 (text "/a/pay") false 40 ∷ []

-- The second server is gone, and the first comes without its name and down.
abbrev second_list : List AgentObject
second_list = listed 1 [] false 150 ∷ []

abbrev before : Timeline
before = observe_objects clear_object_history first_list 100

abbrev order : SeenObject
order = record {
  obj_hash = 1;
  obj_name = text "/a/ord";
  obj_type = text "tomcat";
  tags = [];
  first_seen = 0;
  last_alive = 100;
  alive = true;
}

known : get before.seen 1 ≡ some order
unfolding observe_objects observe_all get set
known = refl

listed_order : In order (values before.seen)
unfolding observe_objects observe_all get set
listed_order = inl refl

observe_objects-Continues_example :
    (q : SeenObject) × (get (observe_objects before second_list 200).seen 1 ≡ some q)
    × Continues 1 second_list order q
observe_objects-Continues_example =
    observe_objects-Continues before second_list 200 1 order (omega arith, tt) known (omega arith)

persistable_history_example :
    let file = persistable_history before 300 in
    NewestFirst file
    × (length file ≤ 5_000)
    × (In order file ⊎ (length file ≡ 5_000) × Since order.last_alive file)
persistable_history_example = persistable_history_lem before 300 order refl listed_order
