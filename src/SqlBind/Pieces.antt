-- ===== src/SqlBind/Pieces.antt =====
-- Statements put together of marks and of text in which a question mark is no mark.
use nscouter.Base.{
  length, length-append, ℕ, refl, ap, Bool, true, false, not, none, List, [], append_assoc, arith,
  ◌+◌, ◌≡◌, ◌∙◌, ◌||◌, ◌∷◌, ◌++◌, ◌==◌, if◌then◌else◌, nat_eq, list_eq,
}
use nscouter.Base.Sets.{has}
use nscouter.Base.Text.{Text}
use nscouter.SqlBind.{
  scan_from, scan_round, plain_round, read_indexed, plain, in_single, in_double, in_line_comment,
  Mode, go_on,
}

-- A character of the statement itself, a mark, a name in double quotes, a literal in single quotes
-- with the character after it, and a comment up to the end of its line.
pub data Piece : Type 0 where
  code : ℕ → Piece
  mark : Piece
  named : Text → Piece
  quoted : Text → ℕ → Piece
  comment : Text → Piece

abbrev pub piece_text : Piece → Text
piece_text (code c) = c ∷ []
piece_text mark = b'?' ∷ []
piece_text (named t) = b'"' ∷ t ++ b'"' ∷ []
piece_text (quoted t c) = b'\'' ∷ t ++ b'\'' ∷ c ∷ []
piece_text (comment t) = b'-' ∷ b'-' ∷ t ++ b'\n' ∷ []

abbrev pub is_mark : Piece → Bool
is_mark (code c) = false
is_mark mark = true
is_mark (named t) = false
is_mark (quoted t c) = false
is_mark (comment t) = false

abbrev pub written : List Piece → Text
written [] = []
written (p ∷ ps) = piece_text p ++ written ps

-- The marks take the values in turn; all else stays as it is written.
abbrev pub filled : List Piece → List Text → Text
filled [] values = []
filled (p ∷ ps) [] = piece_text p ++ filled ps []
filled (p ∷ ps) (v ∷ values) =
    if is_mark p then v ++ filled ps values else piece_text p ++ filled ps (v ∷ values)

abbrev pub marks : List Piece → ℕ
marks [] = 0
marks (p ∷ ps) = let rest = marks ps in if is_mark p then 1 + rest else rest

-- It begins no literal, name, comment, number or mark.
abbrev pub ordinary : ℕ → Bool
ordinary c =
    not ((c == b'\'') || (c == b'"') || (c == b'-') || (c == b'/') || (c == b'@') || (c == b'?'))

-- Nothing inside a piece ends it.
abbrev pub SoundPiece : Piece → Type 0
SoundPiece (code c) = ordinary c ≡ true
SoundPiece mark = Unit
SoundPiece (named t) = has t b'"' ≡ false
SoundPiece (quoted t c) = (has t b'\'' ≡ false) × (has t b'@' ≡ false) × (ordinary c ≡ true)
SoundPiece (comment t) = has t b'\n' ≡ false

abbrev pub Sound : List Piece → Type 0
Sound [] = Unit
Sound (p ∷ ps) = SoundPiece p × Sound ps

scan-code :
    (i c : ℕ) (w : Text)
    → ordinary c ≡ true
    → scan_from plain 0 i (c ∷ w) ≡ scan_from plain 0 (i + 1) w
unfolding scan_from scan_round plain_round
scan-code i c w h = ground (arith, h)

scan-double :
    (i : ℕ) (t w : Text)
    → has t b'"' ≡ false
    → scan_from in_double 0 i (t ++ b'"' ∷ w) ≡ scan_from plain 0 (i + length t + 1) w
unfolding scan_from scan_round
scan-double i [] w h = ap (λ n. scan_from plain 0 n w) (omega arith)
scan-double i (c ∷ t) w h =
    let e : (c == b'"') ≡ false = ground (arith, h) in
    let rest : has t b'"' ≡ false = ground (arith, h) in
    rw e (scan-double (i + 1) t w rest ∙ ap (λ n. scan_from plain 0 n w) (omega arith))

scan-line :
    (i : ℕ) (t w : Text)
    → has t b'\n' ≡ false
    → scan_from in_line_comment 0 i (t ++ b'\n' ∷ w) ≡ scan_from plain 0 (i + length t + 1) w
unfolding scan_from scan_round
scan-line i [] w h = ap (λ n. scan_from plain 0 n w) (omega arith)
scan-line i (c ∷ t) w h =
    let e : (c == b'\n') ≡ false = ground (arith, h) in
    let rest : has t b'\n' ≡ false = ground (arith, h) in
    rw e (scan-line (i + 1) t w rest ∙ ap (λ n. scan_from plain 0 n w) (omega arith))

one_round :
    (from to : Mode) (i ch : ℕ) (s : Text)
    → scan_round from i ch s ≡ go_on to 0
    → scan_from from 0 i (ch ∷ s) ≡ scan_from to 0 (i + 1) s
unfolding scan_from
one_round from to i ch s h = rw h refl

end_quote :
    (i c : ℕ) (w : Text) → ordinary c ≡ true → scan_round in_single i b'\'' (c ∷ w) ≡ go_on plain 0
unfolding scan_round
end_quote i c w o = let e : (c == b'\'') ≡ false = ground (arith, o) in rw e refl

in_quote :
    (i d : ℕ) (w : Text) → (d == b'\'') ≡ false → scan_round in_single i d w ≡ go_on in_single 0
unfolding scan_round
in_quote i d w e = rw e refl

scan-single :
    (i c : ℕ) (t w : Text)
    → has t b'\'' ≡ false
    → ordinary c ≡ true
    → scan_from in_single 0 i (t ++ b'\'' ∷ c ∷ w) ≡ scan_from plain 0 (i + length t + 1) (c ∷ w)
scan-single i c [] w h o =
    one_round in_single plain i b'\'' (c ∷ w) (end_quote i c w o)
    ∙ ap (λ n. scan_from plain 0 n (c ∷ w)) (omega arith)
scan-single i c (d ∷ t) w h o =
    let e : (d == b'\'') ≡ false = ground (arith, h) in
    let rest : has t b'\'' ≡ false = ground (arith, h) in
    one_round in_single in_single i d (t ++ b'\'' ∷ c ∷ w) (in_quote i d _ e)
    ∙ scan-single (i + 1) c t w rest o
    ∙ ap (λ n. scan_from plain 0 n (c ∷ w)) (omega arith)

no_index : (t w : Text) → has t b'@' ≡ false → read_indexed (t ++ b'\'' ∷ w) ≡ none
unfolding read_indexed
no_index [] w h = refl
no_index (c ∷ t) w h = let e : (c == b'@') ≡ false = ground (arith, h) in rw e refl

begin_quote :
    (i : ℕ) (t w : Text)
    → has t b'@' ≡ false
    → scan_round plain i b'\'' (t ++ b'\'' ∷ w) ≡ go_on in_single 0
unfolding scan_round plain_round
begin_quote i t w h = rw (no_index t w h) refl

-- The scan passes over each piece that is no mark, and finds each mark.
scan-named :
    (i : ℕ) (t w : Text)
    → has t b'"' ≡ false
    → scan_from plain 0 i ((b'"' ∷ t ++ b'"' ∷ []) ++ w)
      ≡ scan_from plain 0 (i + length (b'"' ∷ t ++ b'"' ∷ [])) w
unfolding scan_round plain_round
scan-named i t w h =
    let l = length-append t (b'"' ∷ []) in
    ap (λ r. scan_from plain 0 i (b'"' ∷ r)) (append_assoc t (b'"' ∷ []) w)
    ∙ one_round plain in_double i b'"' (t ++ b'"' ∷ w) refl
    ∙ scan-double (i + 1) t w h
    ∙ ap (λ n. scan_from plain 0 n w) (omega (arith, l))

scan-quoted :
    (i c : ℕ) (t w : Text)
    → has t b'\'' ≡ false
    → has t b'@' ≡ false
    → ordinary c ≡ true
    → scan_from plain 0 i ((b'\'' ∷ t ++ b'\'' ∷ c ∷ []) ++ w)
      ≡ scan_from plain 0 (i + length (b'\'' ∷ t ++ b'\'' ∷ c ∷ [])) w
scan-quoted i c t w h a o =
    let l = length-append t (b'\'' ∷ c ∷ []) in
    ap (λ r. scan_from plain 0 i (b'\'' ∷ r)) (append_assoc t (b'\'' ∷ c ∷ []) w)
    ∙ one_round plain in_single i b'\'' (t ++ b'\'' ∷ c ∷ w) (begin_quote i t (c ∷ w) a)
    ∙ scan-single (i + 1) c t w h o
    ∙ scan-code (i + 1 + length t + 1) c w o
    ∙ ap (λ n. scan_from plain 0 n w) (omega (arith, l))

scan-comment :
    (i : ℕ) (t w : Text)
    → has t b'\n' ≡ false
    → scan_from plain 0 i ((b'-' ∷ b'-' ∷ t ++ b'\n' ∷ []) ++ w)
      ≡ scan_from plain 0 (i + length (b'-' ∷ b'-' ∷ t ++ b'\n' ∷ [])) w
unfolding scan_round plain_round
scan-comment i t w h =
    let l = length-append t (b'\n' ∷ []) in
    ap (λ r. scan_from plain 0 i (b'-' ∷ b'-' ∷ r)) (append_assoc t (b'\n' ∷ []) w)
    ∙ one_round plain in_line_comment i b'-' (b'-' ∷ t ++ b'\n' ∷ w) refl
    ∙ scan-line (i + 1) (b'-' ∷ t) w h
    ∙ ap (λ n. scan_from plain 0 n w) (omega (arith, l))

pub scan-mark :
    (i : ℕ) (w : Text)
    → scan_from plain 0 i (b'?' ∷ w)
      ≡ record { start = i; end = i + 1; index = none } ∷ scan_from plain 0 (i + 1) w
unfolding scan_from scan_round plain_round
scan-mark i w = refl

pub scan-piece :
    (i : ℕ) (p : Piece) (w : Text)
    → SoundPiece p
    → is_mark p ≡ false
    → scan_from plain 0 i (piece_text p ++ w) ≡ scan_from plain 0 (i + length (piece_text p)) w
scan-piece i (code c) w h n = scan-code i c w h
scan-piece i mark w h n = absurd (cc)
scan-piece i (named t) w h n = scan-named i t w h
scan-piece i (quoted t c) w h n = scan-quoted i c t w h.0 h.1 h.2
scan-piece i (comment t) w h n = scan-comment i t w h

pub mark_text : (p : Piece) → is_mark p ≡ true → p ≡ mark
mark_text (code c) h = absurd (cc)
mark_text mark h = refl
mark_text (named t) h = absurd (cc)
mark_text (quoted t c) h = absurd (cc)
mark_text (comment t) h = absurd (cc)
