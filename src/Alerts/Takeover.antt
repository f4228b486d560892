-- ===== src/Alerts/Takeover.antt =====
-- When a server that went down was replaced, and what the status of a burst says of that.
use nscouter.Base.Sorts.{All}
use nscouter.Alerts.Bursts.{All-reverse_aux, filter_none}
use nscouter.Alerts.{
  AlertPack, down, RegExp, filter_alerts, replaced, GroupRule, GroupOptions, Text, takes_over,
  covered, AlertBurst, burst_of, service_of, went_down, is_title, in_service, any_takes_over,
  is_lost, alert_object_down, hashes_of,
}
use nscouter.Base.{
  ltb, Bool-cases, Option-cases, length, list_beq_iff, ℕ, zero, suc, refl, ap, inl, inr, Bool, true,
  false, some, List, [], arith, ◌+◌, ◌≤◌, ◌≡◌, ◌∙◌, ◌≢◌, ◌⊎◌, ◌∷◌, if◌then◌else◌, nat_eq, list_eq,
}
use nscouter.Base.Maps.{values}
use mathlib.Core.List.{reverse_aux}
use nscouter.Base.Sets.{add_all}
use nscouter.Objects.Persist.{In}
use nscouter.Objects.{SeenObject}

abbrev pub Exists : (AlertPack → Type 0) → List AlertPack → Type 0
Exists P [] = ⊥
Exists P (a ∷ rest) = P a ⊎ Exists P rest

pub Exists-reverse_aux :
    (P : AlertPack → Type 0) (xs acc : List AlertPack)
    → Exists P xs ⊎ Exists P acc
    → Exists P (reverse_aux xs acc)
Exists-reverse_aux P [] acc (inl e) = elim e [ ]
Exists-reverse_aux P [] acc (inr e) = e
Exists-reverse_aux P (x ∷ xs) acc (inl (inl p)) = Exists-reverse_aux P xs (x ∷ acc) (inr (inl p))
Exists-reverse_aux P (x ∷ xs) acc (inl (inr e)) = Exists-reverse_aux P xs (x ∷ acc) (inl e)
Exists-reverse_aux P (x ∷ xs) acc (inr e) = Exists-reverse_aux P xs (x ∷ acc) (inr (inr e))

-- Nothing passes the test, or something does.
pub find_alert :
    (p : AlertPack → Bool) (xs : List AlertPack)
    → (filter_alerts p xs ≡ []) ⊎ Exists (λ a. p a ≡ true) xs
find_alert p [] = inl refl
find_alert p (x ∷ xs) = elim (Bool-cases (p x)) [
  | inl e ↦ inr (inl e)
  | inr e ↦ elim (find_alert p xs) [ inl f ↦ inl (rw e f) | inr f ↦ inr (inr f) ]
]

pub Exists-imp :
    (P Q : AlertPack → Type 0) (xs : List AlertPack)
    → ((a : AlertPack) → P a → Q a)
    → Exists P xs
    → Exists Q xs
Exists-imp P Q [] f e = e
Exists-imp P Q (x ∷ xs) f (inl p) = inl (f x p)
Exists-imp P Q (x ∷ xs) f (inr e) = inr (Exists-imp P Q xs f e)

no_alert :
    (p : AlertPack → Bool) (xs : List AlertPack)
    → Exists (λ a. p a ≡ true) xs
    → All (λ a. p a ≡ false) xs
    → ⊥
no_alert p [] e a = e
no_alert p (x ∷ xs) (inl e) a = let k = a.0 in absurd (cc)
no_alert p (x ∷ xs) (inr e) a = no_alert p xs e a.1

status_down : (n : ℕ) → (n ≢ 0) → (if ltb 0 n then down else replaced) ≡ down
status_down zero h = absurd (h refl)
status_down (suc n) h = ground arith

module _ (re : RegExp) (rule : GroupRule) (history : List (ℕ × SeenObject))
    (opts : GroupOptions) where
  -- Another server of the service was there within the grace period after time `t`, and is up or was
  -- alive for long enough after it.
  abbrev pub TakesOver : AlertPack → Text → ℕ → SeenObject → Type 0
  TakesOver a svc t y =
      (y.obj_hash ≢ a.obj_hash)
      × (service_of re rule history y.obj_hash ≡ some svc)
      × (y.first_seen ≤ t + opts.grace_ms)
      × ((y.alive ≡ true) ⊎ (t + opts.overlap_ms ≤ y.last_alive))

  -- Some server of the history took over from the one that went down.
  abbrev pub Replaced : Text → AlertPack → Type 0
  Replaced svc a =
      (y : SeenObject) × In y (values history) × TakesOver a svc (went_down re rule history a) y

  -- The alert is not one on a server going down, or the server was replaced.
  abbrev pub Settled : Text → AlertPack → Type 0
  Settled svc a = (is_title alert_object_down a ≡ false) ⊎ Replaced svc a

  -- A server went down and was not replaced.
  abbrev pub Lost : Text → AlertPack → Type 0
  Lost svc a = (is_title alert_object_down a ≡ true) × (¬ Replaced svc a)

  in_service-some :
      (svc : Text) (h : ℕ)
      → in_service re rule history svc h ≡ true
      → service_of re rule history h ≡ some svc
  in_service-some svc h e = elim (Option-cases (service_of re rule history h)) [
    | inl f ↦ absurd (let g = rw (in_service, f) at e in cc)
    | inr (s, f) ↦ f ∙ ap (λ x. some x) ((list_beq_iff s svc).0 (rw (in_service, f) at e))
  ]

  some-in_service :
      (svc : Text) (h : ℕ)
      → service_of re rule history h ≡ some svc
      → in_service re rule history svc h ≡ true
  some-in_service svc h e = rw (in_service, e) ((list_beq_iff svc svc).1 refl)

  takes_over-TakesOver :
      (a : AlertPack) (svc : Text) (t : ℕ) (y : SeenObject)
      → takes_over re rule history opts a svc t y ≡ true
      → TakesOver a svc t y
  unfolding takes_over
  takes_over-TakesOver a svc t y h = (
    λ e. ground (arith, h, e),
    in_service-some svc y.obj_hash (ground (arith, h)),
    ground (arith, h),
    ground (arith, h),
  )

  TakesOver-takes_over :
      (a : AlertPack) (svc : Text) (t : ℕ) (y : SeenObject)
      → TakesOver a svc t y
      → takes_over re rule history opts a svc t y ≡ true
  unfolding takes_over
  TakesOver-takes_over a svc t y (n, s, f, l) =
      let here = some-in_service svc y.obj_hash s in ground (arith, n, here, f, l)

  found_one :
      (a : AlertPack) (svc : Text) (t : ℕ) (ys : List SeenObject)
      → any_takes_over re rule history opts a svc t ys ≡ true
      → (y : SeenObject) × In y ys × TakesOver a svc t y
  found_one a svc t [] h = absurd (cc)
  found_one a svc t (y ∷ ys) h = elim (Bool-cases (takes_over re rule history opts a svc t y)) [
    | inl e ↦ (y, inl refl, takes_over-TakesOver a svc t y e)
    | inr e ↦ let (z, i, p) = found_one a svc t ys (ground (arith, e, h)) in (z, inr i, p)
  ]

  some_one :
      (a : AlertPack) (svc : Text) (t : ℕ) (ys : List SeenObject) (y : SeenObject)
      → In y ys
      → TakesOver a svc t y
      → any_takes_over re rule history opts a svc t ys ≡ true
  some_one a svc t [] y i p = elim i [ ]
  some_one a svc t (z ∷ ys) y (inl e) p = rw (TakesOver-takes_over a svc t z (rw e p)) refl
  some_one a svc t (z ∷ ys) y (inr i) p = ground (arith, some_one a svc t ys y i p)

  pub Settled-of :
      (svc : Text) (a : AlertPack) → is_lost re rule history opts svc a ≡ false → Settled svc a
  unfolding covered
  Settled-of svc a h = elim (Bool-cases (is_title alert_object_down a)) [
    | inr e ↦ inl e
    | inl e ↦
        inr (found_one a svc (went_down re rule history a) (values history) (ground (arith, e, h)))
  ]

  pub Lost-of :
      (svc : Text) (a : AlertPack) → is_lost re rule history opts svc a ≡ true → Lost svc a
  unfolding covered
  Lost-of svc a h = (
    ground (arith, h),
    λ (y, i, p).
        let c = some_one a svc (went_down re rule history a) (values history) y i p in
        absurd (ground (arith, c, h)),
  )

  -- The status of a burst is replaced and every server in it that went down was replaced, or it is
  -- down and one of them was not.
  abbrev pub Judged : AlertBurst → Type 0
  Judged b =
      (b.status ≡ replaced) × All (Settled b.service) b.alerts
      ⊎ (b.status ≡ down) × Exists (Lost b.service) b.alerts

  Settled-All :
      (svc : Text) (run : List AlertPack)
      → All (λ a. is_lost re rule history opts svc a ≡ false) run
      → All (Settled svc) run
  Settled-All svc [] q = tt
  Settled-All svc (a ∷ run) q = (Settled-of svc a q.0, Settled-All svc run q.1)

  pub burst_of-Judged :
      (svc : Text) (run : List AlertPack) → Judged (burst_of re rule history opts svc run)
  unfolding burst_of add_all
  burst_of-Judged svc run = elim (find_alert (is_lost re rule history opts svc) run) [
    | inl e ↦ inl (
      rw e refl,
      All-reverse_aux (Settled svc) run []
          (Settled-All svc run (filter_none (is_lost re rule history opts svc) run (rw e refl))) tt,
    )
    | inr e ↦ inr (
      status_down
          (length (add_all [] (hashes_of (filter_alerts (is_lost re rule history opts svc) run))))
          (λ z.
            no_alert (is_lost re rule history opts svc) run e
              (filter_none (is_lost re rule history opts svc) run z)),
      Exists-reverse_aux (Lost svc) run [] (
          inl (
            Exists-imp (λ a. is_lost re rule history opts svc a ≡ true) (Lost svc) run
              (λ a h. Lost-of svc a h) e)),
    )
  ]
