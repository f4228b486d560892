-- ===== src/ConfigEdits/Replaced.antt =====
-- Which lines the edits replace.
use nscouter.Base.Sorts.{All}
use nscouter.Base.Sets.{has}
use nscouter.ConfigEdits.Lines.{Tiles}
use nscouter.ConfigEdits.{
  take_out, LogicalLine, has_key, take_out_all, hits_of, last_of, apply_edit, apply_edits, emit,
  ConfigEntry, Edited, is_default, one_line, value_of, setting,
}
use nscouter.Base.{
  ltb, leb, Bool-cases, Option-cases, beq_refl, ℕ, refl, ap, subst, inl, inr, true, false, Option,
  none, some, List, [], arith, ◌+◌, ◌-◌, ◌≤◌, ◌<◌, ◌≡◌, ◌∙◌, ◌&&◌, ◌||◌, ◌∷◌, ◌===◌, nat_eq,
  list_eq,
}
use nscouter.Base.Text.{Text}
use nscouter.Base.Maps.{get, set, keys, has-keys-set}
use nscouter.ConfigEdits.Sublists.{Sublist, done, keep, skip}
use nscouter.ConfigEdits.Keys.{
  Holds, key_at-Holds, start_lt, has-take_out, key_is, has_of_get, edited_key, is_edited, unedited,
}

module _ (logical : List LogicalLine) (all : List (Text × Text)) (e : ℕ)
    (t : Tiles 0 e logical) where
  -- Only lines of edited keys are replaced.
  pub Safe : List (ℕ × Option Text) → Type 0
  Safe replace = (i : ℕ) → has (keys replace) i ≡ true → is_edited logical all i ≡ true

  Hit : Text → LogicalLine → Type 0
  Hit key h = Holds logical h × (has_key key h ≡ true)

  edited_range :
      (key : Text) (h : LogicalLine) (i : ℕ)
      → has (keys all) key ≡ true
      → Hit key h
      → h.start ≤ i
      → i < h.end
      → is_edited logical all i ≡ true
  unfolding Hit
  edited_range key h i m (p, k) a b =
      let at = key_at-Holds 0 e i logical h t p a b in
      ap (edited_key all) (at ∙ key_is key h.key k) ∙ m

  pub Safe-nil : Safe []
  unfolding Safe
  Safe-nil i h = absurd (cc)

  Safe-set :
      (key : Text) (replace : List (ℕ × Option Text)) (h : LogicalLine) (v : Option Text)
      → has (keys all) key ≡ true
      → Safe replace
      → Hit key h
      → Safe (set replace h.start v)
  unfolding Safe Hit
  Safe-set key replace h v m s p i g = elim (Bool-cases (has (keys replace) i)) [
    | inl q ↦ s i q
    | inr q ↦
        let same : h.start ≡ i = ground (arith, q, g, has-keys-set replace h.start i v) in
        let l = start_lt 0 e logical h t p.0 in
        edited_range key h i m p (omega (arith, same)) (omega (arith, same, l))
  ]

  Safe-take_out :
      (replace : List (ℕ × Option Text)) (start count : ℕ)
      → Safe replace
      → ((i : ℕ) → start ≤ i → i < start + count → is_edited logical all i ≡ true)
      → Safe (take_out replace start count)
  unfolding Safe
  Safe-take_out replace start count s f i h = elim (Bool-cases (has (keys replace) i)) [
    | inl p ↦ s i p
    | inr p ↦
        let q = has-take_out replace start count i in
        let inside : (leb start i && ltb i (start + count)) ≡ true = ground (arith, p, q, h) in
        f i (ground arith) (ground arith)
  ]

  Safe-take_out_all :
      (key : Text) (replace : List (ℕ × Option Text)) (hits : List LogicalLine)
      → has (keys all) key ≡ true
      → Safe replace
      → All (Hit key) hits
      → Safe (take_out_all replace hits)
  unfolding take_out_all
  Safe-take_out_all key replace [] m s a = s
  Safe-take_out_all key replace (h ∷ hits) m s a =
      Safe-take_out_all key (take_out replace h.start (h.end - h.start)) hits m
        (Safe-take_out replace h.start (h.end - h.start) s
          (λ i l u. edited_range key h i m a.0 l (omega (arith, l, u))))
        a.1

  Hit-hits_of :
      (key : Text) (ls : List LogicalLine)
      → ((h : LogicalLine) → Holds ls h → Holds logical h)
      → All (Hit key) (hits_of key ls)
  unfolding Hit Holds
  Hit-hits_of key [] f = tt
  Hit-hits_of key (l ∷ ls) f = elim (Bool-cases (has_key key l)) [
    | inl k ↦ rw k ((f l (inl refl), k), Hit-hits_of key ls (λ h p. f h (inr p)))
    | inr k ↦ rw k (Hit-hits_of key ls (λ h p. f h (inr p)))
  ]

  All-last_of :
      (P : LogicalLine → Type 0) (ls : List LogicalLine) (h : LogicalLine)
      → All P ls
      → last_of ls ≡ some h
      → P h
  All-last_of P [] h a q = absurd (cc)
  All-last_of P (l ∷ []) h a q = let same : l ≡ h = cc in subst P same a.0
  All-last_of P (l ∷ m ∷ ls) h a q = All-last_of P (m ∷ ls) h a.1 q

  Safe-apply_edit :
      (entry : Option ConfigEntry) (key value : Text) (s : Edited)
      → has (keys all) key ≡ true
      → Safe s.replace
      → Safe (apply_edit logical entry key value s).replace
  unfolding apply_edit
  Safe-apply_edit entry key value s m safe =
      let hits = Hit-hits_of key logical (λ h p. p) in
      elim (Bool-cases (is_default entry value)) [
        | inl d ↦
            rw (apply_edit, d) (Safe-take_out_all key s.replace (hits_of key logical) m safe hits)
        | inr d ↦ elim (Option-cases (last_of (hits_of key logical))) [
          | inl n ↦ rw (apply_edit, d, n) safe
          | inr (h, n) ↦
              rw (apply_edit, d, n)
                (Safe-take_out (set s.replace h.start (some (setting key value))) (h.start + 1)
                  (h.end - (h.start + 1))
                  (Safe-set key s.replace h (some (setting key value)) m safe
                    (All-last_of (Hit key) (hits_of key logical) h hits n))
                  (λ i l u.
                    edited_range key h i m (All-last_of (Hit key) (hits_of key logical) h hits n)
                      (omega (arith, l)) (omega (arith, l, u))))
        ]
      ]

  pub Safe-apply_edits :
      (entries : List (Text × ConfigEntry)) (edits : List (Text × Text)) (s : Edited)
      → ((k : Text) → has (keys edits) k ≡ true → has (keys all) k ≡ true)
      → Safe s.replace
      → Safe (apply_edits logical entries edits s).replace
  unfolding apply_edits
  Safe-apply_edits entries [] s sub safe = safe
  Safe-apply_edits entries ((key, raw) ∷ edits) s sub safe =
      let rest : (k : Text) → has (keys edits) k ≡ true → has (keys all) k ≡ true =
        λ k h. sub k (ground (arith, h)) in
      elim (Bool-cases (one_line raw === value_of (get entries key))) [
        | inl q ↦ rw (apply_edits, q) (Safe-apply_edits entries edits s rest safe)
        | inr q ↦
            rw (apply_edits, q)
              (Safe-apply_edits entries edits
                (apply_edit logical (get entries key) key (one_line raw) s) rest
                (Safe-apply_edit (get entries key) key (one_line raw) s
                  (sub key (ground (arith, beq_refl key))) safe))
      ]

  pub unedited-emit :
      (replace : List (ℕ × Option Text)) (i : ℕ) (lines : List Text)
      → Safe replace
      → Sublist (unedited logical all i lines) (emit replace i lines)
  unfolding emit Safe
  unedited-emit replace i [] safe = done
  unedited-emit replace i (line ∷ lines) safe =
      let ih = unedited-emit replace (i + 1) lines safe in
      elim (Option-cases (get replace i)) [
        | inl n ↦ elim (Bool-cases (is_edited logical all i || (line === []))) [
          | inl b ↦ rw (emit, n, b) (skip ih)
          | inr b ↦ rw (emit, n, b) (keep ih)
        ]
        | inr (v, n) ↦
            let b : (is_edited logical all i || (line === [])) ≡ true =
              ground (arith, safe i (has_of_get replace i v n)) in
            rw b (emitted v n ih)
      ]
    where
      emitted :
          (v : Option Text)
          → get replace i ≡ some v
          → Sublist (unedited logical all (i + 1) lines) (emit replace (i + 1) lines)
          → Sublist (unedited logical all (i + 1) lines) (emit replace i (line ∷ lines))
      emitted none n ih = rw (emit, n) ih
      emitted (some next) n ih = rw (emit, n) (skip ih)

  pub unedited-NonBlank :
      (i : ℕ) (lines : List Text) → All (λ x. (x === []) ≡ false) (unedited logical all i lines)
  unedited-NonBlank i [] = tt
  unedited-NonBlank i (line ∷ lines) =
      elim (Bool-cases (is_edited logical all i || (line === []))) [
        | inl b ↦ rw b (unedited-NonBlank (i + 1) lines)
        | inr b ↦ rw b (ground (arith, b), unedited-NonBlank (i + 1) lines)
      ]
