-- ===== src/Selection/Grouping.antt =====
-- `groupByService` and `instanceLabel` of components/instanceGroup.ts: the tasks of each service that
-- has two or more.
use nscouter.Base.Sets.{Distinct, has}
use nscouter.Base.{
  leb, Bool-cases, Option-cases, length, drop, list_beq_iff, refl, sym, ap, subst, inl, inr, Bool,
  true, false, not, Option, none, some, List, [], append-nil, append_assoc, ◌≡◌, ◌∙◌, ◌||◌, ◌∷◌,
  ◌++◌, ◌==◌, ◌===◌, if◌then◌else◌, nat_eq, list_eq,
}
use nscouter.Base.Text.{Text, text, starts_with}
use nscouter.Base.Maps.{get, set, keys, get-set, Distinct-set, get-eq-none}
use nscouter.Selection.Service.{RegExp, GroupRule, service_name_of, short_name}
use nscouter.Xlog.{AgentObject}

abbrev pub default_group_rule : GroupRule
default_group_rule = record { tag_key = text "service"; pattern = text "^(?<svc>.+?)-ip-[0-9-]+" }

abbrev pub append_to : Option (List AgentObject) → AgentObject → List AgentObject
append_to none a = a ∷ []
append_to (some list) a = list ++ a ∷ []

-- The buckets of a single task are deleted.
unfoldable pub drop_single : List (Text × List AgentObject) → List (Text × List AgentObject)
drop_single [] = []
drop_single ((name, list) ∷ buckets) =
    if leb (length list) 1 then drop_single buckets else (name, list) ∷ drop_single buckets

-- `replace(/^[-_.]+/, '')`.
abbrev pub trim_separators : Text → Text
trim_separators [] = []
trim_separators (c ∷ s) = if c == b'-' || c == b'_' || c == b'.' then trim_separators s else c ∷ s

abbrev pub is_name : Text → Option Text → Bool
is_name name none = false
is_name name (some n) = n === name

module _ (re : RegExp) (rule : GroupRule) where
  unfoldable pub fill_buckets :
      List (Text × List AgentObject) → List AgentObject → List (Text × List AgentObject)
  fill_buckets buckets [] = buckets
  fill_buckets buckets (a ∷ agents) = elim (service_name_of re rule a) [
    | none ↦ fill_buckets buckets agents
    | some name ↦ fill_buckets (set buckets name (append_to (get buckets name) a)) agents
  ]

  unfoldable pub group_by_service : List AgentObject → List (Text × List AgentObject)
  group_by_service agents = drop_single (fill_buckets [] agents)

  unfoldable pub instance_label : Text → Text
  instance_label obj_name =
      let short = short_name obj_name in
      let agent : AgentObject = record {
        obj_hash = 0;
        obj_type = [];
        obj_name = obj_name;
        address = [];
        version = [];
        alive = false;
        wakeup = 0;
        tags = [];
      } in
      elim (service_name_of re rule agent) [
        | none ↦ short
        | some svc ↦
            let rest = trim_separators (drop (length svc) short) in
            if not (starts_with short svc) then short else if rest === [] then short else rest
      ]

  abbrev pub is_of : Text → AgentObject → Bool
  is_of name a = is_name name (service_name_of re rule a)

  -- The tasks of a service, in their order.
  abbrev pub tasks_of : Text → List AgentObject → List AgentObject
  tasks_of name [] = []
  tasks_of name (a ∷ agents) =
      if is_of name a then a ∷ tasks_of name agents else tasks_of name agents

abbrev more : Option (List AgentObject) → List AgentObject → Option (List AgentObject)
more none [] = none
more none (a ∷ agents) = some (a ∷ agents)
more (some list) agents = some (list ++ agents)

-- What a service has when a bucket of less than two tasks is none.
abbrev pub at_least_two : Option (List AgentObject) → Option (List AgentObject)
at_least_two none = none
at_least_two (some list) = if leb (length list) 1 then none else some list

more-nil : (o : Option (List AgentObject)) → more o [] ≡ o
more-nil none = refl
more-nil (some list) = ap some (append-nil list)

more-append_to :
    (o : Option (List AgentObject)) (a : AgentObject) (agents : List AgentObject)
    → more (some (append_to o a)) agents ≡ more o (a ∷ agents)
more-append_to none a agents = refl
more-append_to (some list) a agents = ap some (append_assoc list (a ∷ []) agents)

get-drop_single :
    (buckets : List (Text × List AgentObject)) (name : Text)
    → Distinct (keys buckets)
    → get (drop_single buckets) name ≡ at_least_two (get buckets name)
unfolding get drop_single
get-drop_single [] name d = refl
get-drop_single ((k, list) ∷ buckets) name d =
    let ih = get-drop_single buckets name d.1 in
    elim (Bool-cases (leb (length list) 1)) [
      | inl small ↦ elim (Bool-cases (k === name)) [
        | inl e ↦
            let same : k ≡ name = (list_beq_iff k name).0 e in
            let gone =
              get-eq-none buckets name (subst (λ n. has (keys buckets) n ≡ false) same d.0) in
            rw (drop_single, small, e, small) (ih ∙ ap at_least_two gone)
        | inr e ↦ rw (drop_single, small, e) ih
      ]
      | inr large ↦ elim (Bool-cases (k === name)) [
        | inl e ↦ rw (drop_single, large, e, large) refl
        | inr e ↦ rw (drop_single, large, e) ih
      ]
    ]

module _ (re : RegExp) (rule : GroupRule) where
  fill_one :
      (buckets : List (Text × List AgentObject)) (a : AgentObject) (agents : List AgentObject)
      (n : Text)
      → service_name_of re rule a ≡ some n
      → fill_buckets re rule buckets (a ∷ agents)
        ≡ fill_buckets re rule (set buckets n (append_to (get buckets n) a)) agents
  unfolding fill_buckets
  fill_one buckets a agents n e = rw (fill_buckets, e) refl

  fill_none :
      (buckets : List (Text × List AgentObject)) (a : AgentObject) (agents : List AgentObject)
      → service_name_of re rule a ≡ none
      → fill_buckets re rule buckets (a ∷ agents) ≡ fill_buckets re rule buckets agents
  unfolding fill_buckets
  fill_none buckets a agents e = rw (fill_buckets, e) refl

  tasks_of_other :
      (name : Text) (a : AgentObject) (agents : List AgentObject)
      → is_of re rule name a ≡ false
      → tasks_of re rule name (a ∷ agents) ≡ tasks_of re rule name agents
  tasks_of_other name a agents e = rw e refl

  tasks_of_same :
      (name : Text) (a : AgentObject) (agents : List AgentObject)
      → is_of re rule name a ≡ true
      → tasks_of re rule name (a ∷ agents) ≡ a ∷ tasks_of re rule name agents
  tasks_of_same name a agents e = rw e refl

  get-fill_buckets :
      (buckets : List (Text × List AgentObject)) (agents : List AgentObject) (name : Text)
      → get (fill_buckets re rule buckets agents) name
        ≡ more (get buckets name) (tasks_of re rule name agents)
  unfolding fill_buckets
  get-fill_buckets buckets [] name = sym (more-nil (get buckets name))
  get-fill_buckets buckets (a ∷ agents) name =
      let rest = tasks_of re rule name agents in
      elim (Option-cases (service_name_of re rule a)) [
        | inl e ↦
            ap (λ b. get b name) (fill_none buckets a agents e)
            ∙ get-fill_buckets buckets agents name
            ∙ ap (more (get buckets name))
                (sym (tasks_of_other name a agents (ap (is_name name) e)))
        | inr (n, e) ↦
            let v = append_to (get buckets n) a in
            let ih =
              ap (λ b. get b name) (fill_one buckets a agents n e)
              ∙ get-fill_buckets (set buckets n v) agents name in
            elim (Bool-cases (n === name)) [
              | inl same ↦
                  let is : n ≡ name = (list_beq_iff n name).0 same in
                  let found : get (set buckets n v) name ≡ some (append_to (get buckets name) a) =
                    get-set buckets n name v
                    ∙ ap (λ b. if b then some v else get buckets name) same
                    ∙ ap (λ k. some (append_to (get buckets k) a)) is in
                  ih
                  ∙ ap (λ o. more o rest) found
                  ∙ more-append_to (get buckets name) a rest
                  ∙ ap (more (get buckets name))
                      (sym (tasks_of_same name a agents (ap (is_name name) e ∙ same)))
              | inr other ↦
                  let found : get (set buckets n v) name ≡ get buckets name =
                    get-set buckets n name v
                    ∙ ap (λ b. if b then some v else get buckets name) other in
                  ih
                  ∙ ap (λ o. more o rest) found
                  ∙ ap (more (get buckets name))
                      (sym (tasks_of_other name a agents (ap (is_name name) e ∙ other)))
            ]
      ]

  Distinct-fill_buckets :
      (buckets : List (Text × List AgentObject)) (agents : List AgentObject)
      → Distinct (keys buckets)
      → Distinct (keys (fill_buckets re rule buckets agents))
  unfolding fill_buckets
  Distinct-fill_buckets buckets [] d = d
  Distinct-fill_buckets buckets (a ∷ agents) d = elim (Option-cases (service_name_of re rule a)) [
    | inl e ↦ rw (fill_buckets, e) (Distinct-fill_buckets buckets agents d)
    | inr (n, e) ↦
        rw (fill_buckets, e)
          (Distinct-fill_buckets (set buckets n (append_to (get buckets n) a)) agents
            (Distinct-set buckets n (append_to (get buckets n) a) d))
  ]

  -- Under each name stand the tasks of that service, in the order of the list, if they are two or
  -- more; under every other name there is nothing.
  pub get-group_by_service :
      (agents : List AgentObject) (name : Text)
      → get (group_by_service re rule agents) name ≡ (
          let list = tasks_of re rule name agents in
          if leb (length list) 1 then none else some list)
  unfolding group_by_service get
  get-group_by_service agents name =
      get-drop_single (fill_buckets re rule [] agents) name (Distinct-fill_buckets [] agents tt)
      ∙ ap at_least_two (get-fill_buckets [] agents name)
      ∙ two (tasks_of re rule name agents)
    where
      two :
          (list : List AgentObject)
          → at_least_two (more none list) ≡ (if leb (length list) 1 then none else some list)
      two [] = refl
      two (a ∷ list) = refl
