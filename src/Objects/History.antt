-- ===== src/Objects/History.antt =====
-- What is known of a server survives every later list.
use nscouter.Base.{
  Bool-cases, ℕ, refl, sym, inl, inr, Bool, some, List, [], arith, list_eq, ◌≤◌, ◌≡◌, ◌∙◌, ◌≢◌, ◌⊎◌,
  ◌∷◌, ◌==◌, ◌===◌, nat_eq,
}
use nscouter.Base.Maps.{get-set, get, set}
use nscouter.Objects.{
  SeenObject, AgentObject, observe_all, observe_objects, observed, Timeline, Text,
}

-- The list brings this name, which is not empty, for server `h`.
abbrev pub Brings : ℕ → Text → List AgentObject → Type 0
Brings h name [] = ⊥
Brings h name (a ∷ rest) = (a.obj_hash ≡ h) × (a.obj_name ≡ name) × (name ≢ []) ⊎ Brings h name rest

-- Later news of server `h`: its name is that from before, or one that the list brings, and it was
-- seen alive no earlier than before.
pub record Continues (h : ℕ) (agents : List AgentObject) (p q : SeenObject) : Type 0 where
  pub first_kept : q.first_seen ≡ p.first_seen
  pub alive_later : p.last_alive ≤ q.last_alive
  pub name_kept : (q.obj_name ≡ p.obj_name) ⊎ Brings h q.obj_name agents

name_observed :
    (primed : Bool) (now : ℕ) (p : SeenObject) (a : AgentObject)
    → let q = observed primed now (some p) a in
      (q.obj_name ≡ p.obj_name) ⊎ (a.obj_name ≡ q.obj_name) × (q.obj_name ≢ [])
name_observed primed now p a = elim (Bool-cases (a.obj_name === [])) [
  | inl e ↦ rw e (inl refl)
  | inr e ↦ rw e (inr (refl, λ f. absurd (ground (arith, (list_eq {A = ℕ}).beq_iff a.obj_name []))))
]

-- The list tells of no time after `now`.
abbrev pub NotAfter : ℕ → List AgentObject → Type 0
NotAfter now [] = Unit
NotAfter now (a ∷ rest) = (a.wakeup ≤ now) × NotAfter now rest

-- What one entry of the list adds.
Continues-cons :
    (primed : Bool) (now h : ℕ) (p q : SeenObject) (a : AgentObject) (rest : List AgentObject)
    → a.obj_hash ≡ h
    → p.last_alive ≤ now
    → Continues h rest (observed primed now (some p) a) q
    → Continues h (a ∷ rest) p q
Continues-cons primed now h p q a rest same l c = record {
  first_kept = c.first_kept;
  alive_later = ground (arith, c.alive_later);
  name_kept = elim c.name_kept [
    | inr b ↦ inr (inr b)
    | inl e ↦ elim (name_observed primed now p a) [
      | inl f ↦ inl (e ∙ f)
      | inr (f, g) ↦ inr (inl (same, f ∙ sym e, λ k. g (sym e ∙ k)))
    ]
  ];
}

observe_all-Continues :
    (primed : Bool) (now : ℕ) (seen : List (ℕ × SeenObject)) (agents : List AgentObject) (h : ℕ)
    (p : SeenObject)
    → NotAfter now agents
    → get seen h ≡ some p
    → p.last_alive ≤ now
    → (q : SeenObject) × (get (observe_all primed now seen agents) h ≡ some q)
      × (q.last_alive ≤ now)
      × Continues h agents p q
unfolding observe_all
observe_all-Continues primed now seen [] h p t g l =
    (p, g, l, record { first_kept = refl; alive_later = omega arith; name_kept = inl refl })
observe_all-Continues primed now seen (a ∷ rest) h p t g l =
    let o = observed primed now (get seen a.obj_hash) a in
    elim (Bool-cases (a.obj_hash == h)) [
      | inr e ↦
          let (q, f, m, c) =
            observe_all-Continues primed now (set seen a.obj_hash o) rest h p t.1
              (get-set seen a.obj_hash h o ∙ rw e g) l in
          (
            q,
            f,
            m,
            record {
              first_kept = c.first_kept;
              alive_later = c.alive_later;
              name_kept = elim c.name_kept [ inl k ↦ inl k | inr k ↦ inr (inr k) ];
            },
          )
      | inl e ↦
          let same : a.obj_hash ≡ h = ground arith in
          let news = observed primed now (some p) a in
          let k : get (set seen a.obj_hash o) h ≡ some news =
            get-set seen a.obj_hash h o ∙ rw (e, same, g) refl in
          let bound : news.last_alive ≤ now = ground (arith, t.0) in
          let (q, f, m, c) =
            observe_all-Continues primed now (set seen a.obj_hash o) rest h news t.1 k bound in
          (q, f, m, Continues-cons primed now h p q a rest same l c)
    ]

-- A server that was seen stays known through every later list, whether it is on it or not: when it
-- was first seen does not change, it was alive no earlier than was known, and its name is the one
-- that was known or one, not empty, that the list brings for it. (The list tells of no time after
-- the one at which it comes, and the server was not seen alive after that time.)
pub observe_objects-Continues :
    (t : Timeline) (agents : List AgentObject) (now h : ℕ) (p : SeenObject)
    → NotAfter now agents
    → get t.seen h ≡ some p
    → p.last_alive ≤ now
    → (q : SeenObject) × (get (observe_objects t agents now).seen h ≡ some q)
      × Continues h agents p q
unfolding observe_objects
observe_objects-Continues t agents now h p n g l =
    let (q, f, _, c) = observe_all-Continues t.primed now t.seen agents h p n g l in (q, f, c)
