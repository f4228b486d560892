-- ===== src/ConfigEdits/Keys.antt =====
-- The key that a line of the file belongs to.
use nscouter.Base.Sets.{has}
use nscouter.ConfigEdits.Lines.{Tiles}
use nscouter.ConfigEdits.{take_out, LogicalLine}
use nscouter.Base.{
  ltb, leb, lt→ltb, Bool-cases, list_beq_iff, ℕ, zero, suc, sym, ap, subst, inl, inr, Bool, true,
  false, Option, none, some, List, [], arith, ◌+◌, ◌≤◌, ◌<◌, ◌≡◌, ◌⊎◌, ◌&&◌, ◌||◌, ◌∷◌, ◌===◌,
  if◌then◌else◌, nat_eq, list_eq,
}
use nscouter.Base.Text.{Text}
use nscouter.Base.Maps.{get, set, keys, has-keys-set, get-eq-none}

-- The key of the logical line that a line of the file belongs to.
abbrev pub key_at : List LogicalLine → ℕ → Option Text
key_at [] i = none
key_at (l ∷ ls) i = if ltb i l.end then l.key else key_at ls i

abbrev pub edited_key : List (Text × Text) → Option Text → Bool
edited_key edits none = false
edited_key edits (some k) = has (keys edits) k

-- Whether a line belongs to a key that is edited.
abbrev pub is_edited : List LogicalLine → List (Text × Text) → ℕ → Bool
is_edited logical edits i = edited_key edits (key_at logical i)

-- The lines from number `i` on that are of no edited key, but for the empty ones.
abbrev pub unedited : List LogicalLine → List (Text × Text) → ℕ → List Text → List Text
unedited logical edits i [] = []
unedited logical edits i (line ∷ lines) =
    if is_edited logical edits i || (line === [])
    then unedited logical edits (i + 1) lines
    else line ∷ unedited logical edits (i + 1) lines

unfoldable pub Holds : List LogicalLine → LogicalLine → Type 0
Holds [] h = ⊥
Holds (l ∷ ls) h = (l ≡ h) ⊎ Holds ls h

Tiles-Holds :
    (s e : ℕ) (ls : List LogicalLine) (h : LogicalLine) → Tiles s e ls → Holds ls h → s ≤ h.start
unfolding Holds
Tiles-Holds s e [] h t p = elim p [ ]
Tiles-Holds s e (l ∷ ls) h t (inl p) = omega (arith, t.0, ap (λ x. x.start) p)
Tiles-Holds s e (l ∷ ls) h t (inr p) = omega (arith, t.1, Tiles-Holds l.end e ls h t.2 p)

pub key_at-Holds :
    (s e i : ℕ) (ls : List LogicalLine) (h : LogicalLine)
    → Tiles s e ls
    → Holds ls h
    → h.start ≤ i
    → i < h.end
    → key_at ls i ≡ h.key
unfolding Holds
key_at-Holds s e i [] h t p a b = elim p [ ]
key_at-Holds s e i (l ∷ ls) h t (inl p) a b =
    let q : i < l.end = subst (λ x. i < x.end) (sym p) b in
    rw (lt→ltb i l.end q) (ap (λ x. x.key) p)
key_at-Holds s e i (l ∷ ls) h t (inr p) a b =
    let after = Tiles-Holds l.end e ls h t.2 p in
    let q : ltb i l.end ≡ false = ground (arith, after) in
    rw q (key_at-Holds l.end e i ls h t.2 p a b)

pub has-take_out :
    (replace : List (ℕ × Option Text)) (start count i : ℕ)
    → has (keys (take_out replace start count)) i
      ≡ (has (keys replace) i || (leb start i && ltb i (start + count)))
unfolding take_out
has-take_out replace start zero i = ground arith
has-take_out replace start (suc count) i = ground (
  arith,
  has-take_out (set replace start none) (start + 1) count i,
  has-keys-set replace start i none,
)

pub key_is :
    (key : Text) (o : Option Text)
    → elim o [ none ↦ false | some k ↦ k === key ] ≡ true
    → o ≡ some key
key_is key none h = absurd (cc)
key_is key (some k) h = ap some ((list_beq_iff k key).0 h)

pub start_lt :
    (s e : ℕ) (ls : List LogicalLine) (h : LogicalLine)
    → Tiles s e ls
    → Holds ls h
    → h.start < h.end
unfolding Holds
start_lt s e [] h t p = elim p [ ]
start_lt s e (l ∷ ls) h t (inl p) = subst (λ x. x.start < x.end) p (omega (arith, t.0, t.1))
start_lt s e (l ∷ ls) h t (inr p) = start_lt l.end e ls h t.2 p

pub has_of_get :
    (replace : List (ℕ × Option Text)) (i : ℕ) (v : Option Text)
    → get replace i ≡ some v
    → has (keys replace) i ≡ true
has_of_get replace i v h = elim (Bool-cases (has (keys replace) i)) [
  | inl e ↦ e
  | inr e ↦ let n = get-eq-none replace i e in absurd (cc)
]
