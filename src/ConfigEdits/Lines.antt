-- ===== src/ConfigEdits/Lines.antt =====
-- The logical lines of a file.
use nscouter.ConfigEdits.{parse_lines, LogicalLine, parse_from, ends_with_continuation, key_of}
use nscouter.Base.{
  Bool-cases, length, ℕ, refl, inl, inr, Option, none, some, List, [], arith, ◌+◌, ◌<◌, ◌≡◌, ◌∷◌,
}
use nscouter.Base.Text.{Text}

-- The logical lines lie end to end from `s` to `e`, and none is empty.
abbrev pub Tiles : ℕ → ℕ → List LogicalLine → Type 0
Tiles s e [] = s ≡ e
Tiles s e (l ∷ ls) = (l.start ≡ s) × (s < l.end) × Tiles l.end e ls

abbrev begin : Option (ℕ × Option Text) → ℕ → ℕ
begin none i = i
begin (some (start, key)) i = start

abbrev Before : Option (ℕ × Option Text) → ℕ → Type 0
Before none i = Unit
Before (some (start, key)) i = start < i

parse_from-Tiles :
    (begun : Option (ℕ × Option Text)) (i e : ℕ) (lines : List Text)
    → Before begun i
    → i + length lines ≡ e
    → Tiles (begin begun i) e (parse_from begun i lines)
unfolding parse_from
parse_from-Tiles none i e [] b h = omega (arith, h)
parse_from-Tiles (some (start, key)) i e [] b h = (refl, b, omega (arith, h))
parse_from-Tiles none i e (line ∷ lines) b h = elim (Bool-cases (ends_with_continuation line)) [
  | inl c ↦
      rw (parse_from, c)
        (parse_from-Tiles (some (i, key_of line)) (i + 1) e lines (omega arith) (omega (arith, h)))
  | inr c ↦
      rw (parse_from, c)
        (refl, omega arith, parse_from-Tiles none (i + 1) e lines tt (omega (arith, h)))
]
parse_from-Tiles (some (start, key)) i e (line ∷ lines) b h =
    elim (Bool-cases (ends_with_continuation line)) [
      | inl c ↦
          rw (parse_from, c)
            (parse_from-Tiles (some (start, key)) (i + 1) e lines (omega (arith, b))
              (omega (arith, h)))
      | inr c ↦
          rw (parse_from, c)
            (refl, omega (arith, b), parse_from-Tiles none (i + 1) e lines tt (omega (arith, h)))
    ]

-- The logical lines of a file lie end to end over all its lines, and none is empty.
pub parse_lines-Tiles : (lines : List Text) → Tiles 0 (length lines) (parse_lines lines)
unfolding parse_lines
parse_lines-Tiles lines = parse_from-Tiles none 0 (length lines) lines tt (omega arith)
