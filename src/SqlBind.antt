-- ===== src/SqlBind.antt =====
-- features/xlog/components/sqlBind.ts: the parameters of a profiled statement are put back into it.
-- The four flags of the scanner never hold together, so they are one mode. A place in the statement is
-- passed as the text from there on, with its position.
pub mod Slots
pub mod Filled
pub mod Pieces
pub mod Bound
mod Tests
use nscouter.Base.Sets.{has}
use nscouter.Base.{
  ltb, leb, length, get_elem?, take, drop, ℕ, zero, suc, Bool, true, false, not, Option, none, some,
  List, [], ◌+◌, ◌-◌, ◌*◌, ◌&&◌, ◌||◌, ◌∷◌, ◌++◌, ◌==◌, ◌===◌, if◌then◌else◌, nat_eq, list_eq,
}
use nscouter.Base.Text.{Text, trim}

pub record BoundSql : Type 0 where
  pub text : Text
  pub bound : ℕ
  pub placeholders : ℕ
  pub leftover : List Text

-- The loop of `splitParams`; `piece` is `params.slice(start, i)`.
unfoldable pub split_values : Bool → Bool → Text → Text → List Text
split_values in_single in_double piece [] = trim piece ∷ []
split_values in_single in_double piece (ch ∷ s) =
    if (ch == b',') && not in_single && not in_double
    then trim piece ∷ split_values in_single in_double [] s
    else if (ch == b'\'') && not in_double
    then split_values (not in_single) in_double (piece ++ ch ∷ []) s
    else if (ch == b'"') && not in_single
    then split_values in_single (not in_double) (piece ++ ch ∷ []) s
    else split_values in_single in_double (piece ++ ch ∷ []) s

unfoldable pub split_params : Text → List Text
split_params params = if trim params === [] then [] else split_values false false [] params

abbrev pub is_digit : ℕ → Bool
is_digit c = leb b'0' c && leb c b'9'

-- The digits at the front: how many, and their number.
unfoldable pub digits_at : ℕ → ℕ → Text → ℕ × ℕ
digits_at count value [] = (count, value)
digits_at count value (c ∷ s) = elim (is_digit c) [
  | true ↦ digits_at (count + 1) (value * 10 + (c - b'0')) s
  | false ↦ (count, value)
]

abbrev pub is_at : Text → ℕ → ℕ → Bool
is_at s i c = elim (get_elem? s i) [ none ↦ false | some d ↦ d == c ]

-- The number, and the place of `}` counted from that of `@`.
unfoldable pub read_indexed : Text → Option (ℕ × ℕ)
read_indexed s =
    if not (is_at s 0 b'@') || not (is_at s 1 b'{')
    then none
    else let d = digits_at 0 0 (drop 2 s) in
      if (d.0 == 0) || not (is_at s (2 + d.0) b'}') then none else some (d.1, 2 + d.0)

pub record Slot : Type 0 where
  pub start : ℕ
  pub end : ℕ
  pub index : Option ℕ

pub data Mode : Type 0 where
  plain : Mode
  in_single : Mode
  in_double : Mode
  in_line_comment : Mode
  in_block_comment : Mode

-- What one round of the loop does: the slot that it pushes, the mode, and how far it advances `i`.
pub record Round : Type 0 where
  pub slot : Option Slot
  pub mode : Mode
  pub skip : ℕ

abbrev pub go_on : Mode → ℕ → Round
go_on mode skip = record { slot = none; mode = mode; skip = skip }

abbrev pub slot_at : ℕ → ℕ → Option ℕ → ℕ → Round
slot_at start end index skip = record {
  slot = some (record { start = start; end = end; index = index });
  mode = plain;
  skip = skip;
}

-- `?`, at the end of the round.
abbrev pub question : ℕ → ℕ → Round
question i ch = if ch == b'?' then slot_at i (i + 1) none 0 else go_on plain 0

-- A round outside of strings and comments; `s` is what follows `ch`.
unfoldable pub plain_round : ℕ → ℕ → Text → Round
plain_round i ch s =
    if ch == b'\''
    then elim (read_indexed s) [
      | none ↦ go_on in_single 0
      | some (index, end) ↦
          if is_at s (end + 1) b'\''
          then slot_at i (i + 1 + end + 2) (some index) (end + 2)
          else go_on in_single 0
    ]
    else if ch == b'"'
    then go_on in_double 0
    else if (ch == b'-') && is_at s 0 b'-'
    then go_on in_line_comment 0
    else if (ch == b'/') && is_at s 0 b'*'
    then go_on in_block_comment 1
    else if ch == b'@'
    then elim (read_indexed (ch ∷ s)) [
      | none ↦ question i ch
      | some (index, end) ↦ slot_at i (i + end + 1) (some index) end
    ]
    else question i ch

unfoldable pub scan_round : Mode → ℕ → ℕ → Text → Round
scan_round in_line_comment i ch s = go_on (if ch == b'\n' then plain else in_line_comment) 0
scan_round in_block_comment i ch s =
    if (ch == b'*') && is_at s 0 b'/' then go_on plain 1 else go_on in_block_comment 0
scan_round in_single i ch s =
    if (ch == b'\'') && is_at s 0 b'\''
    then go_on in_single 1
    else if ch == b'\''
    then go_on plain 0
    else go_on in_single 0
scan_round in_double i ch s = go_on (if ch == b'"' then plain else in_double) 0
scan_round plain i ch s = plain_round i ch s

abbrev pub push : Option Slot → List Slot → List Slot
push none slots = slots
push (some x) slots = x ∷ slots

unfoldable pub scan_from : Mode → ℕ → ℕ → Text → List Slot
scan_from mode skip i [] = []
scan_from mode (suc skip) i (ch ∷ s) = scan_from mode skip (i + 1) s
scan_from mode zero i (ch ∷ s) =
    let r = scan_round mode i ch s in push r.slot (scan_from r.mode r.skip (i + 1) s)

unfoldable pub scan_slots : Text → List Slot
scan_slots sql = scan_from plain 0 0 sql

-- The first loop of `bindSql`: the greatest number of an `@{n}`.
abbrev pub first_seq : ℕ → List Slot → ℕ
first_seq seq [] = seq
first_seq seq (x ∷ slots) = elim x.index [
  | none ↦ first_seq seq slots
  | some n ↦ first_seq (if ltb seq n then n else seq) slots
]

abbrev pub slice : Text → ℕ → ℕ → Text
slice s start end = take (end - start) (drop start s)

pub record Filling : Type 0 where
  pub out : Text
  pub bound : ℕ
  pub used : List ℕ

-- `values[at]`; for `@{0}` there is no such place.
abbrev pub value_for : List Text → Option ℕ → ℕ → Option (ℕ × Text)
value_for values none seq = elim (get_elem? values seq) [ none ↦ none | some v ↦ some (seq, v) ]
value_for values (some zero) seq = none
value_for values (some (suc n)) seq = elim (get_elem? values n) [
  | none ↦ none
  | some v ↦ some (n, v)
]

abbrev pub next_seq : Option ℕ → ℕ → ℕ
next_seq none seq = seq + 1
next_seq (some n) seq = seq

-- The second loop, from `cursor` on.
unfoldable pub fill_from : Text → List Text → ℕ → ℕ → List Slot → Filling
fill_from sql values cursor seq [] = record { out = drop cursor sql; bound = 0; used = [] }
fill_from sql values cursor seq (x ∷ slots) =
    let rest = fill_from sql values x.end (next_seq x.index seq) slots in
    elim (value_for values x.index seq) [
      | some (at, v) ↦ record {
        out = slice sql cursor x.start ++ v ++ rest.out;
        bound = rest.bound + 1;
        used = at ∷ rest.used;
      }
      | none ↦ record {
        out = slice sql cursor x.start ++ slice sql x.start x.end ++ rest.out;
        bound = rest.bound;
        used = rest.used;
      }
    ]

-- The values from number `i` on that were not used.
unfoldable pub unused_from : List ℕ → ℕ → List Text → List Text
unused_from used i [] = []
unused_from used i (v ∷ values) =
    if has used i then unused_from used (i + 1) values else v ∷ unused_from used (i + 1) values

unfoldable pub bind_sql : Text → Text → BoundSql
bind_sql sql params =
    let values = split_params params in
    let slots = scan_slots sql in
    let f = fill_from sql values 0 (first_seq 0 slots) slots in
    record {
      text = f.out;
      bound = f.bound;
      placeholders = length slots;
      leftover = unused_from f.used 0 values;
    }
