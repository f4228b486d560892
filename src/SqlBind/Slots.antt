-- ===== src/SqlBind/Slots.antt =====
-- Where the scanner finds slots.
use nscouter.SqlBind.{
  plain, in_single, in_double, in_line_comment, in_block_comment, scan_round, Round, scan_from,
  Slot, read_indexed, plain_round, Mode, is_at, question, digits_at, go_on, push, scan_slots,
  slot_at,
}
use nscouter.Base.{
  Bool-cases, length, drop, ℕ, zero, suc, refl, subst, inl, inr, Bool, true, false, not, Option,
  none, some, List, [], arith, ◌+◌, ◌≤◌, ◌<◌, ◌≡◌, ◌&&◌, ◌||◌, ◌∷◌, ◌==◌, if◌then◌else◌,
}
use nscouter.Base.Text.{Text}

-- The slots stand one after the other, none is empty, all lie between `lo` and `hi`.
abbrev pub InOrder : ℕ → ℕ → List Slot → Type 0
InOrder lo hi [] = Unit
InOrder lo hi (x ∷ slots) =
    (lo ≤ x.start) × (x.start < x.end) × (x.end ≤ hi) × InOrder x.end hi slots

InOrder-le :
    (lo lower hi : ℕ) (slots : List Slot)
    → lower ≤ lo
    → InOrder lo hi slots
    → InOrder lower hi slots
InOrder-le lo lower hi [] h o = tt
InOrder-le lo lower hi (x ∷ slots) h o = (omega (arith, o.0), o.1, o.2, o.3)

-- A slot begins where the round stands, and the loop goes on after it, inside the statement.
abbrev Covered : ℕ → Text → Round → Type 0
Covered i s r = elim r.slot [
  | none ↦ Unit
  | some x ↦ (x.start ≡ i) × (x.end ≡ i + 1 + r.skip) × (r.skip ≤ length s)
]

is_at_lt : (s : Text) (i c : ℕ) → is_at s i c ≡ true → i < length s
is_at_lt [] i c h = absurd (cc)
is_at_lt (d ∷ s) zero c h = omega arith
is_at_lt (d ∷ s) (suc i) c h = omega (arith, is_at_lt s i c h)

read_indexed_lt : (s : Text) (index end : ℕ) → read_indexed s ≡ some (index, end) → end < length s
unfolding read_indexed
read_indexed_lt s index end h =
    let d = digits_at 0 0 (drop 2 s) in
    elim (Bool-cases (not (is_at s 0 b'@') || not (is_at s 1 b'{'))) [
      | inl e ↦ let h2 : none ≡ some (index, end) = rw e at h in absurd (cc)
      | inr e ↦ elim (Bool-cases ((d.0 == 0) || not (is_at s (2 + d.0) b'}'))) [
        | inl f ↦ let h2 : none ≡ some (index, end) = rw (e, f) at h in absurd (cc)
        | inr f ↦
            let h2 : some (d.1, 2 + d.0) ≡ some (index, end) = rw (e, f) at h in
            let at_end : 2 + d.0 ≡ end = cc in
            let found : is_at s (2 + d.0) b'}' ≡ true = ground arith in
            omega (arith, at_end, is_at_lt s (2 + d.0) b'}' found)
      ]
    ]

if-Covered :
    (i : ℕ) (s : Text) (b : Bool) (r q : Round)
    → (b ≡ true → Covered i s r)
    → (b ≡ false → Covered i s q)
    → Covered i s (if b then r else q)
if-Covered i s true r q f g = f refl
if-Covered i s false r q f g = g refl

question-Covered : (i ch : ℕ) (s : Text) → Covered i s (question i ch)
question-Covered i ch s = elim (Bool-cases (ch == b'?')) [
  | inl e ↦ rw e (refl, omega arith, omega arith)
  | inr e ↦ rw e tt
]

plain_round-Covered : (i ch : ℕ) (s : Text) → Covered i s (plain_round i ch s)
unfolding plain_round
plain_round-Covered i ch s =
    if-Covered i s (ch == b'\'') _ _ (λ _. quote (read_indexed s) refl)
      (λ _.
        if-Covered i s (ch == b'"') _ _ (λ _. tt)
          (λ _.
            if-Covered i s ((ch == b'-') && is_at s 0 b'-') _ _ (λ _. tt)
              (λ _.
                if-Covered i s ((ch == b'/') && is_at s 0 b'*') _ _ (λ _. tt)
                  (λ _.
                    if-Covered i s (ch == b'@') _ _ (λ _. number (read_indexed (ch ∷ s)) refl)
                      (λ _. question-Covered i ch s)))))
  where
    quote :
        (o : Option (ℕ × ℕ))
        → read_indexed s ≡ o
        → Covered i s (elim o [
          | none ↦ go_on in_single 0
          | some (index, end) ↦
              if is_at s (end + 1) b'\''
              then slot_at i (i + 1 + end + 2) (some index) (end + 2)
              else go_on in_single 0
        ])
    quote none e = tt
    quote (some (index, end)) e =
        if-Covered i s (is_at s (end + 1) b'\'') _ _
          (λ h. (refl, omega arith, omega (arith, is_at_lt s (end + 1) b'\'' h))) (λ _. tt)

    number :
        (o : Option (ℕ × ℕ))
        → read_indexed (ch ∷ s) ≡ o
        → Covered i s (elim o [
          | none ↦ question i ch
          | some (index, end) ↦ slot_at i (i + end + 1) (some index) end
        ])
    number none e = question-Covered i ch s
    number (some (index, end)) e =
        (refl, omega arith, omega (arith, read_indexed_lt (ch ∷ s) index end e))

scan_round-Covered : (mode : Mode) (i ch : ℕ) (s : Text) → Covered i s (scan_round mode i ch s)
unfolding scan_round
scan_round-Covered plain i ch s = plain_round-Covered i ch s
scan_round-Covered in_line_comment i ch s = tt
scan_round-Covered in_double i ch s = tt
scan_round-Covered in_block_comment i ch s =
    if-Covered i s ((ch == b'*') && is_at s 0 b'/') _ _ (λ _. tt) (λ _. tt)
scan_round-Covered in_single i ch s =
    if-Covered i s ((ch == b'\'') && is_at s 0 b'\'') _ _ (λ _. tt)
      (λ _. if-Covered i s (ch == b'\'') _ _ (λ _. tt) (λ _. tt))

push-InOrder :
    (i : ℕ) (s : Text) (r : Round) (slots : List Slot)
    → Covered i s r
    → InOrder (i + 1 + r.skip) (i + 1 + length s) slots
    → InOrder i (i + 1 + length s) (push r.slot slots)
push-InOrder i s r slots c o = go r.slot c
  where
    go :
        (x : Option Slot)
        → Covered i s (record { slot = x; mode = r.mode; skip = r.skip })
        → InOrder i (i + 1 + length s) (push x slots)
    go none k = InOrder-le (i + 1 + r.skip) i (i + 1 + length s) slots (omega arith) o
    go (some y) k = (omega (arith, k.0), omega (arith, k.0, k.1), omega (arith, k.1, k.2), rw k.1 o)

scan_from-InOrder :
    (mode : Mode) (skip i hi : ℕ) (s : Text)
    → i + length s ≡ hi
    → InOrder (i + skip) hi (scan_from mode skip i s)
unfolding scan_from
scan_from-InOrder mode skip i hi [] h = tt
scan_from-InOrder mode (suc skip) i hi (ch ∷ s) h =
    InOrder-le (i + 1 + skip) (i + suc skip) hi (scan_from mode skip (i + 1) s) (omega arith)
      (scan_from-InOrder mode skip (i + 1) hi s (omega (arith, h)))
scan_from-InOrder mode zero i hi (ch ∷ s) h =
    let r = scan_round mode i ch s in
    let e : i + 1 + length s ≡ hi = omega (arith, h) in
    let rest = scan_from-InOrder r.mode r.skip (i + 1) hi s e in
    InOrder-le i (i + 0) hi (push r.slot (scan_from r.mode r.skip (i + 1) s)) (omega arith) (
      subst (λ n. InOrder i n (push r.slot (scan_from r.mode r.skip (i + 1) s))) e
        (push-InOrder i s r (scan_from r.mode r.skip (i + 1) s) (scan_round-Covered mode i ch s)
          (rw e rest)))

-- The slots of a statement stand one after the other, none is empty, and all lie inside it.
pub scan_slots-InOrder : (sql : Text) → InOrder 0 (length sql) (scan_slots sql)
unfolding scan_slots
scan_slots-InOrder sql = scan_from-InOrder plain 0 0 (length sql) sql (omega arith)
