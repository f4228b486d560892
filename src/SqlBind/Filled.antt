-- ===== src/SqlBind/Filled.antt =====
-- What is written into the slots.
use nscouter.Base.{
  ltb, leb, Bool-cases, length, get_elem?, take, drop, take-append-drop, ℕ, zero, suc, min, refl,
  sym, ap, subst, inl, inr, true, false, Option, none, some, List, [], append_assoc, arith, ◌+◌,
  ◌-◌, ◌≤◌, ◌<◌, ◌≡◌, ◌∙◌, ◌⊎◌, ◌&&◌, ◌∷◌, ◌++◌, nat_eq, list_eq,
}
use nscouter.Base.Text.{Text, trim}
use nscouter.SqlBind.{
  Slot, value_for, fill_from, slice, next_seq, bind_sql, Filling, split_params, has, unused_from,
  scan_slots, first_seq,
}
use nscouter.SqlBind.Slots.{InOrder, scan_slots-InOrder}

take-nil : (n : ℕ) → take {A = ℕ} n [] ≡ []
take-nil zero = refl
take-nil (suc n) = refl

pub drop-nil {ℓ} : {A : Type ℓ} (n : ℕ) → drop {A = A} n [] ≡ []
drop-nil zero = refl
drop-nil (suc n) = refl

-- A slice and what follows it.
slice-drop :
    (s : Text) (start end : ℕ) → start ≤ end → slice s start end ++ drop end s ≡ drop start s
slice-drop s zero end h =
    let e : end - 0 ≡ end = omega arith in
    ap (λ n. take n s ++ drop end s) e ∙ take-append-drop end s
slice-drop s (suc start) zero h = absurd (omega arith)
slice-drop [] (suc start) (suc end) h = rw (take-nil (suc end - suc start)) refl
slice-drop (c ∷ s) (suc start) (suc end) h =
    let e : suc end - suc start ≡ end - start = omega arith in
    ap (λ n. take n (drop start s) ++ drop end s) e ∙ slice-drop s start end (omega arith)

value_for-nil : (index : Option ℕ) (seq : ℕ) → value_for [] index seq ≡ none
value_for-nil none seq = refl
value_for-nil (some zero) seq = refl
value_for-nil (some (suc n)) seq = refl

-- A slot that is left as it is written.
kept_slot :
    (sql : Text) (cursor : ℕ) (x : Slot)
    → cursor ≤ x.start
    → x.start < x.end
    → slice sql cursor x.start ++ slice sql x.start x.end ++ drop x.end sql ≡ drop cursor sql
kept_slot sql cursor x h l =
    append_assoc (slice sql cursor x.start) (slice sql x.start x.end) (drop x.end sql)
    ∙ ap (λ t. slice sql cursor x.start ++ t) (slice-drop sql x.start x.end (omega arith))
    ∙ slice-drop sql cursor x.start h

-- Without values every slot is left as it is written.
fill_from-none :
    (sql : Text) (cursor seq : ℕ) (slots : List Slot)
    → InOrder cursor (length sql) slots
    → fill_from sql [] cursor seq slots ≡ record { out = drop cursor sql; bound = 0; used = [] }
unfolding fill_from
fill_from-none sql cursor seq [] o = refl
fill_from-none sql cursor seq (x ∷ slots) o =
    let ih = fill_from-none sql x.end (next_seq x.index seq) slots o.3 in
    rw (fill_from, value_for-nil x.index seq, ih)
      (ap (λ t. record { out = t; bound = 0; used = [] }) (kept_slot sql cursor x o.0 o.1))

-- With no parameters the statement is as it was.
pub bind_sql-none :
    (sql params : Text)
    → trim params ≡ []
    → bind_sql sql params
      ≡ record { text = sql; bound = 0; placeholders = length (scan_slots sql); leftover = [] }
unfolding bind_sql split_params unused_from
bind_sql-none sql params h =
    let slots = scan_slots sql in
    rw (h, fill_from-none sql 0 (first_seq 0 slots) slots (scan_slots-InOrder sql)) refl

-- A value for each slot in turn, and the rest of the statement as it is written.
abbrev pub weave : Text → ℕ → List Slot → List Text → Text
weave sql cursor [] values = drop cursor sql
weave sql cursor (x ∷ slots) [] = drop cursor sql
weave sql cursor (x ∷ slots) (v ∷ values) =
    slice sql cursor x.start ++ v ++ weave sql x.end slots values

abbrev pub Questions : List Slot → Type 0
Questions [] = Unit
Questions (x ∷ slots) = (x.index ≡ none) × Questions slots

weave-nil :
    (sql : Text) (cursor : ℕ) (slots : List Slot) → weave sql cursor slots [] ≡ drop cursor sql
weave-nil sql cursor [] = refl
weave-nil sql cursor (x ∷ slots) = refl

-- What stands at a place of the values.
seek :
    (values : List Text) (n : ℕ)
    → (get_elem? values n ≡ none)
        × (drop n values ≡ [])
        × (length values ≤ n)
        × (drop (suc n) values ≡ [])
      ⊎ (v : Text) × (get_elem? values n ≡ some v)
        × (drop n values ≡ v ∷ drop (suc n) values)
        × (n < length values)
seek [] n = inl (refl, drop-nil n, omega arith, refl)
seek (v ∷ values) zero = inr (v, refl, refl, omega arith)
seek (v ∷ values) (suc n) = elim (seek values n) [
  | inl (a, b, c, d) ↦ inl (a, b, omega (arith, c), d)
  | inr (w, a, b, c) ↦ inr (w, a, b, omega (arith, c))
]

record Woven (sql : Text) (values : List Text) (cursor seq : ℕ) (slots : List Slot) (f : Filling)
    : Type 0 where
  out_is : f.out ≡ weave sql cursor slots (drop seq values)
  bound_is : f.bound ≡ min (length slots) (length values - seq)
  used_is :
      (j : ℕ) → has f.used j ≡ (leb seq j && ltb j (seq + length slots) && ltb j (length values))

-- A `?` with a value and one without.
fill_from-some :
    (sql : Text) (values : List Text) (cursor seq : ℕ) (start end : ℕ) (index : Option ℕ)
    (slots : List Slot) (v : Text)
    → index ≡ none
    → get_elem? values seq ≡ some v
    → let rest = fill_from sql values end (seq + 1) slots in
      fill_from sql values cursor seq (record { start = start; end = end; index = index } ∷ slots)
      ≡ record {
        out = slice sql cursor start ++ v ++ rest.out;
        bound = rest.bound + 1;
        used = seq ∷ rest.used;
      }
unfolding fill_from
fill_from-some sql values cursor seq start end none slots v h g = rw (fill_from, g) refl
fill_from-some sql values cursor seq start end (some n) slots v h g = absurd (cc)

fill_from-missing :
    (sql : Text) (values : List Text) (cursor seq : ℕ) (start end : ℕ) (index : Option ℕ)
    (slots : List Slot)
    → index ≡ none
    → get_elem? values seq ≡ none
    → let rest = fill_from sql values end (seq + 1) slots in
      fill_from sql values cursor seq (record { start = start; end = end; index = index } ∷ slots)
      ≡ record {
        out = slice sql cursor start ++ slice sql start end ++ rest.out;
        bound = rest.bound;
        used = rest.used;
      }
unfolding fill_from
fill_from-missing sql values cursor seq start end none slots h g = rw (fill_from, g) refl
fill_from-missing sql values cursor seq start end (some n) slots h g = absurd (cc)

fill_from-Woven :
    (sql : Text) (values : List Text) (cursor seq : ℕ) (slots : List Slot)
    → InOrder cursor (length sql) slots
    → Questions slots
    → Woven sql values cursor seq slots (fill_from sql values cursor seq slots)
unfolding fill_from
fill_from-Woven sql values cursor seq [] o q = record {
  out_is = refl;
  bound_is = omega arith;
  used_is = λ j. ground arith;
}
fill_from-Woven sql values cursor seq (x ∷ slots) o q =
    let ih = fill_from-Woven sql values x.end (seq + 1) slots o.3 q.1 in
    let s : suc seq ≡ seq + 1 = omega arith in
    elim (seek values seq) [
      | inl (a, b, c, d) ↦
          let all : drop (seq + 1) values ≡ [] = subst (λ n. drop n values ≡ []) s d in
          rw (fill_from-missing sql values cursor seq x.start x.end x.index slots q.0 a) (record {
            out_is =
                ap (λ t. slice sql cursor x.start ++ slice sql x.start x.end ++ t)
                  (ih.out_is ∙ ap (weave sql x.end slots) all ∙ weave-nil sql x.end slots)
                ∙ kept_slot sql cursor x o.0 o.1
                ∙ sym (ap (weave sql cursor (x ∷ slots)) b);
            bound_is = omega (arith, ih.bound_is);
            used_is = λ j. ground (arith, ih.used_is j);
          })
      | inr (v, a, b, c) ↦
          rw (fill_from-some sql values cursor seq x.start x.end x.index slots v q.0 a) (record {
            out_is =
                ap (λ t. slice sql cursor x.start ++ v ++ t) ih.out_is
                ∙ sym (ap (weave sql cursor (x ∷ slots)) (b ∙ ap (λ n. v ∷ drop n values) s));
            bound_is = omega (arith, ih.bound_is);
            used_is = λ j. ground (arith, ih.used_is j);
          })
    ]

all_used :
    {sql : Text} {values : List Text} {cursor : ℕ} {slots : List Slot} {f : Filling}
    → Woven sql values cursor 0 slots f
    → (j : ℕ) → j < 0 + length values
    → has f.used j ≡ ltb j (length slots)
all_used w j l = ground (arith, w.used_is j, l)

first_seq-Questions : (seq : ℕ) (slots : List Slot) → Questions slots → first_seq seq slots ≡ seq
first_seq-Questions seq [] q = refl
first_seq-Questions seq (x ∷ slots) q = rw q.0 (first_seq-Questions seq slots q.1)

-- The values from number `i` on, when the first `n` were used.
unused_from-drop :
    (used : List ℕ) (n i : ℕ) (values : List Text)
    → ((j : ℕ) → j < i + length values → has used j ≡ ltb j n)
    → unused_from used i values ≡ drop (n - i) values
unfolding unused_from
unused_from-drop used n i [] h = sym (drop-nil (n - i))
unused_from-drop used n i (v ∷ values) h =
    let rest = unused_from-drop used n (i + 1) values (λ j l. h j (omega (arith, l))) in
    let now = h i (omega arith) in
    elim (Bool-cases (ltb i n)) [
      | inl e ↦
          let m : n - i ≡ suc (n - (i + 1)) = ground arith in
          let u : has used i ≡ true = now ∙ e in rw (u, m) rest
      | inr e ↦
          let m : n - i ≡ 0 = ground arith in
          let m2 : n - (i + 1) ≡ 0 = ground arith in
          let u : has used i ≡ false = now ∙ e in
          rw (u, m) (ap (λ t. v ∷ t) (rest ∙ ap (λ k. drop k values) m2))
    ]

-- In a statement with `?` alone, each takes the next value, in order; a `?` for which there is none
-- is left, and so are the values for which there is no `?`.
pub bind_sql-Questions :
    (sql params : Text)
    → Questions (scan_slots sql)
    → let values = split_params params in
      let slots = scan_slots sql in
      let b = bind_sql sql params in
      (b.text ≡ weave sql 0 slots values)
      × (b.bound ≡ min (length slots) (length values))
      × (b.leftover ≡ drop (length slots) values)
unfolding bind_sql
bind_sql-Questions sql params q =
    let values = split_params params in
    let slots = scan_slots sql in
    let w = fill_from-Woven sql values 0 0 slots (scan_slots-InOrder sql) q in
    let k = length slots in
    let used = (fill_from sql values 0 0 slots).used in
    let count : k - 0 ≡ k = omega arith in
    let first : (j : ℕ) → j < 0 + length values → has used j ≡ ltb j k = λ j l. all_used w j l in
    rw (first_seq-Questions 0 slots q) (
      w.out_is,
      omega (arith, w.bound_is),
      unused_from-drop used k 0 values first ∙ ap (λ n. drop n values) count,
    )
