-- ===== src/Selection/Resolve.antt =====
-- What the resolved set of hashes holds.
use nscouter.Base.{
  Option-cases, length, ℕ, refl, inl, inr, Bool, true, false, not, some, List, [], arith, list_eq,
  ◌≡◌, ◌⊎◌, ◌&&◌, ◌||◌, ◌∷◌, ◌==◌, nat_eq,
}
use nscouter.Base.Sets.{has, add_all, delete, Distinct, has-add_all, has-delete}
use nscouter.Base.Text.{Text}
use nscouter.Xlog.{AgentObject}
use nscouter.Selection.Service.{GroupRule, RegExp, service_name_of}
use nscouter.Selection.Picking.{has-keep_in}
use nscouter.Selection.{
  keep_in, GroupSelection, alive_hashes, serves, served_alive, served, members, resolve_selection,
  resolve_past_selection, pick_task,
}

module _ (re : RegExp) (rule : GroupRule) where
  -- Some listed task with this hash belongs to one of the services.
  abbrev pub belongs : List Text → List AgentObject → ℕ → Bool
  belongs services [] h = false
  belongs services (a ∷ rest) h =
      (a.obj_hash == h) && serves re rule services a || belongs services rest h

  has-served :
      (services : List Text) (agents : List AgentObject) (h : ℕ)
      → has (served re rule services agents) h ≡ belongs services agents h
  has-served services [] h = refl
  has-served services (a ∷ rest) h = ground (arith, has-served services rest h)

  has-served_alive :
      (services : List Text) (alive : List ℕ) (agents : List AgentObject) (h : ℕ)
      → has (served_alive re rule services alive agents) h
        ≡ (has alive h && belongs services agents h)
  has-served_alive services alive [] h = ground arith
  has-served_alive services alive (a ∷ rest) h =
      ground (arith, has-served_alive services alive rest h)

  belongs-nil : (agents : List AgentObject) (h : ℕ) → belongs [] agents h ≡ false
  belongs-nil [] h = refl
  belongs-nil (a ∷ rest) h = ground (arith, belongs-nil rest h)

  empty_services :
      (services : List Text) (agents : List AgentObject) (h : ℕ)
      → length services ≡ 0
      → belongs services agents h ≡ false
  empty_services [] agents h e = belongs-nil agents h
  empty_services (s ∷ ss) agents h e = absurd (omega arith)

  empty_hashes : (hashes : List ℕ) (h : ℕ) → length hashes ≡ 0 → has hashes h ≡ false
  empty_hashes [] h e = refl
  empty_hashes (x ∷ xs) h e = absurd (omega arith)

  -- For the live view the resolved set holds a hash exactly if a task with it is alive and it is
  -- picked by itself or through its service.
  pub has-resolve_selection :
      (sel : GroupSelection) (agents : List AgentObject) (h : ℕ)
      → has (resolve_selection re rule sel agents) h
        ≡ (has (alive_hashes agents) h && (has sel.hashes h || belongs sel.services agents h))
  unfolding resolve_selection
  has-resolve_selection sel agents h = ground (
    arith,
    empty_services sel.services agents h,
    empty_hashes sel.hashes h,
    has-served_alive sel.services (alive_hashes agents) agents h,
    has-keep_in (alive_hashes agents) sel.hashes h,
    has-add_all [] (served_alive re rule sel.services (alive_hashes agents) agents) h,
    has-add_all (add_all [] (served_alive re rule sel.services (alive_hashes agents) agents))
        (keep_in (alive_hashes agents) sel.hashes) h,
    has-add_all [] (keep_in (alive_hashes agents) sel.hashes) h,
  )

  -- For a past range a task need not be alive, and one picked by itself need not be listed.
  pub has-resolve_past_selection :
      (sel : GroupSelection) (candidates : List AgentObject) (h : ℕ)
      → has (resolve_past_selection re rule sel candidates) h
        ≡ (has sel.hashes h || belongs sel.services candidates h)
  unfolding resolve_past_selection
  has-resolve_past_selection sel candidates h = ground (
    arith,
    empty_services sel.services candidates h,
    empty_hashes sel.hashes h,
    has-served sel.services candidates h,
    has-add_all [] (served re rule sel.services candidates) h,
    has-add_all (add_all [] (served re rule sel.services candidates)) sel.hashes h,
    has-add_all [] sel.hashes h,
  )

  abbrev pub Listed : AgentObject → List AgentObject → Type 0
  Listed agent [] = ⊥
  Listed agent (a ∷ rest) = (a ≡ agent) ⊎ Listed agent rest

  abbrev pub hashes_of : List AgentObject → List ℕ
  hashes_of [] = []
  hashes_of (a ∷ rest) = a.obj_hash ∷ hashes_of rest

  belongs-absent :
      (services : List Text) (agents : List AgentObject) (h : ℕ)
      → has (hashes_of agents) h ≡ false
      → belongs services agents h ≡ false
  belongs-absent services [] h e = refl
  belongs-absent services (a ∷ rest) h e = ground (arith, belongs-absent services rest h)

  Listed-has :
      (agent : AgentObject) (agents : List AgentObject)
      → Listed agent agents
      → has (hashes_of agents) agent.obj_hash ≡ true
  Listed-has agent [] l = elim l [ ]
  Listed-has agent (a ∷ rest) (inl e) = ground arith
  Listed-has agent (a ∷ rest) (inr l) = ground (arith, Listed-has agent rest l)

  -- Where each hash is listed once, the task with a listed hash is known.
  belongs-Listed :
      (services : List Text) (agent : AgentObject) (agents : List AgentObject)
      → Distinct (hashes_of agents)
      → Listed agent agents
      → belongs services agents agent.obj_hash ≡ serves re rule services agent
  belongs-Listed services agent [] d l = elim l [ ]
  belongs-Listed services agent (a ∷ rest) d (inl e) =
      rw (← e) (ground (arith, belongs-absent services rest a.obj_hash))
  belongs-Listed services agent (a ∷ rest) d (inr l) =
      ground (arith, belongs-Listed services agent rest d.1 l, Listed-has agent rest l)

  alive-absent :
      (agents : List AgentObject) (h : ℕ)
      → has (hashes_of agents) h ≡ false
      → has (alive_hashes agents) h ≡ false
  alive-absent [] h e = refl
  alive-absent (a ∷ rest) h e = ground (arith, alive-absent rest h)

  members-absent :
      (svc : Text) (agents : List AgentObject) (h : ℕ)
      → has (hashes_of agents) h ≡ false
      → has (members re rule svc agents) h ≡ false
  members-absent svc [] h e = refl
  members-absent svc (a ∷ rest) h e = ground (arith, members-absent svc rest h)

  serves-delete :
      (services : List Text) (svc : Text) (a : AgentObject)
      → has services svc ≡ true
      → serves re rule services a
        ≡ (serves re rule (svc ∷ []) a || serves re rule (delete services svc) a)
  serves-delete services svc a h = elim (Option-cases (service_name_of re rule a)) [
    | inl e ↦ rw (e, serves)
    | inr (name, e) ↦
        rw (e, serves)
          (ground (arith, has-delete services svc name, (list_eq {A = ℕ}).beq_iff svc name, h))
  ]

  -- Members of the service and picks through the other services: together, what was resolved.
  belongs-delete :
      (services : List Text) (svc : Text) (agents : List AgentObject) (h : ℕ)
      → has services svc ≡ true
      → Distinct (hashes_of agents)
      → (has (alive_hashes agents) h && belongs services agents h) ≡ (
          has (alive_hashes agents) h
          && (has (members re rule svc agents) h || belongs (delete services svc) agents h))
  belongs-delete services svc [] h s d = refl
  belongs-delete services svc (a ∷ rest) h s d = ground (
    arith,
    belongs-delete services svc rest h s d.1,
    serves-delete services svc a s,
    belongs-absent services rest a.obj_hash,
    belongs-absent (delete services svc) rest a.obj_hash,
    alive-absent rest a.obj_hash,
    members-absent svc rest a.obj_hash,
  )

  serves-removed :
      (services : List Text) (svc : Text) (a : AgentObject)
      → service_name_of re rule a ≡ some svc
      → serves re rule (delete services svc) a ≡ false
  serves-removed services svc a e =
      rw (e, serves)
        (ground (arith, has-delete services svc svc, (list_eq {A = ℕ}).beq_iff svc svc))

  -- Clicking a task of a service that is picked as a whole takes that task, and no other, out of
  -- what is queried. (Each hash is listed once, and the task is listed.)
  pub has-pick_task :
      (sel : GroupSelection) (agent : AgentObject) (agents : List AgentObject) (svc : Text) (h : ℕ)
      → Distinct (hashes_of agents)
      → Listed agent agents
      → service_name_of re rule agent ≡ some svc
      → has sel.services svc ≡ true
      → has (resolve_selection re rule (pick_task re rule sel agent agents) agents) h
        ≡ (has (resolve_selection re rule sel agents) h && not (agent.obj_hash == h))
  unfolding pick_task
  has-pick_task sel agent agents svc h d l e s =
      rw (e, s)
        (rw (has-resolve_selection, has-resolve_selection)
          (ground (
            arith,
            has-delete (add_all sel.hashes (members re rule svc agents)) agent.obj_hash h,
            has-add_all sel.hashes (members re rule svc agents) h,
            belongs-delete sel.services svc agents h s d,
            belongs-Listed (delete sel.services svc) agent agents d l,
            serves-removed sel.services svc agent e,
          )))
