-- ===== src/SqlBind/Bound.antt =====
-- The statement that is put together of its pieces and the values.
use nscouter.Base.{
  Bool-cases, length, length-append, take, drop, ℕ, zero, suc, min, refl, sym, ap, inl, inr, false,
  none, List, [], append_assoc, arith, ◌+◌, ◌-◌, ◌≡◌, ◌∙◌, ◌∷◌, ◌++◌, nat_eq, list_eq,
}
use nscouter.Base.Text.{Text}
use nscouter.SqlBind.{bind_sql, scan_from, split_params, plain, scan_slots, slice, Slot}
use nscouter.SqlBind.Pieces.{
  Piece, scan-piece, scan-mark, mark_text, filled, is_mark, Sound, written, piece_text, marks, mark,
}
use nscouter.SqlBind.Filled.{Questions, weave, bind_sql-Questions, drop-nil}

filled-none : (ps : List Piece) → filled ps [] ≡ written ps
filled-none [] = refl
filled-none (p ∷ ps) = ap (λ w. piece_text p ++ w) (filled-none ps)

filled-other :
    (p : Piece) (ps : List Piece) (values : List Text)
    → is_mark p ≡ false
    → filled (p ∷ ps) values ≡ piece_text p ++ filled ps values
filled-other p ps [] h = refl
filled-other p ps (v ∷ values) h = rw h refl

marks_at :
    (i : ℕ) (ps : List Piece)
    → Sound ps
    → Questions (scan_from plain 0 i (written ps))
      × (length (scan_from plain 0 i (written ps)) ≡ marks ps)
unfolding scan_from
marks_at i [] s = (tt, refl)
marks_at i (p ∷ ps) s = elim (Bool-cases (is_mark p)) [
  | inr e ↦ rw (scan-piece i p (written ps) s.0 e, e) (marks_at (i + length (piece_text p)) ps s.1)
  | inl e ↦
      let rest = marks_at (i + 1) ps s.1 in
      rw (mark_text p e, scan-mark i (written ps)) ((refl, rest.0), omega (arith, rest.1))
]

take-prefix : (pre w : Text) → take (length pre) (pre ++ w) ≡ pre
take-prefix [] w = refl
take-prefix (c ∷ pre) w = ap (λ t. c ∷ t) (take-prefix pre w)

drop-prefix : (pre w : Text) → drop (length pre) (pre ++ w) ≡ w
drop-prefix [] w = refl
drop-prefix (c ∷ pre) w = drop-prefix pre w

drop-drop : (m n : ℕ) (s : Text) → drop n (drop m s) ≡ drop (m + n) s
drop-drop zero n s = ap (λ k. drop k s) (omega arith)
drop-drop (suc m) n [] = drop-nil n ∙ sym (drop-nil (suc m + n))
drop-drop (suc m) n (c ∷ s) =
    let e : suc (m + n) ≡ suc m + n = omega arith in drop-drop m n s ∙ ap (λ k. drop k (c ∷ s)) e

after_mark :
    (sql pre w : Text) (cursor : ℕ)
    → drop cursor sql ≡ pre ++ b'?' ∷ w
    → drop (cursor + length pre + 1) sql ≡ w
after_mark sql pre w cursor d =
    let n : cursor + length pre + 1 ≡ cursor + length (pre ++ b'?' ∷ []) =
      omega (arith, length-append pre (b'?' ∷ [])) in
    ap (λ k. drop k sql) n
    ∙ sym (drop-drop cursor (length (pre ++ b'?' ∷ [])) sql)
    ∙ ap (λ t. drop (length (pre ++ b'?' ∷ [])) t) (d ∙ sym (append_assoc pre (b'?' ∷ []) w))
    ∙ drop-prefix (pre ++ b'?' ∷ []) w

before_mark :
    (sql pre w : Text) (cursor : ℕ)
    → drop cursor sql ≡ pre ++ w
    → slice sql cursor (cursor + length pre) ≡ pre
before_mark sql pre w cursor d =
    let n : cursor + length pre - cursor ≡ length pre = omega arith in rw (n, d) (take-prefix pre w)

-- A mark that is `pre` ahead of what was written.
marked :
    (sql pre w : Text) (cursor : ℕ) (ps : List Piece) (values : List Text) (slots : List Slot)
    → w ≡ written ps
    → drop cursor sql ≡ pre ++ b'?' ∷ w
    → ((vs : List Text) → weave sql (cursor + length pre + 1) slots vs ≡ filled ps vs)
    → weave sql cursor
        (record { start = cursor + length pre; end = cursor + length pre + 1; index = none }
          ∷ slots)
        values
      ≡ pre ++ filled (mark ∷ ps) values
marked sql pre w cursor ps [] slots e d r = d ∙ ap (λ t. pre ++ b'?' ∷ t) (e ∙ sym (filled-none ps))
marked sql pre w cursor ps (v ∷ values) slots e d r = rw (before_mark sql pre (b'?' ∷ w) cursor d) (
    append_assoc pre v (weave sql (cursor + length pre + 1) slots values)
    ∙ ap (λ t. pre ++ (v ++ t)) (r values))

-- What is still to be written, when the scan is `pre` ahead of what was written.
weave-filled :
    (sql pre : Text) (cursor : ℕ) (ps : List Piece) (values : List Text)
    → Sound ps
    → drop cursor sql ≡ pre ++ written ps
    → weave sql cursor (scan_from plain 0 (cursor + length pre) (written ps)) values
      ≡ pre ++ filled ps values
unfolding scan_from
weave-filled sql pre cursor [] values s d = d
weave-filled sql pre cursor (p ∷ ps) values s d = elim (Bool-cases (is_mark p)) [
  | inr e ↦
      let t = piece_text p in
      let ahead : drop cursor sql ≡ (pre ++ t) ++ written ps =
        d ∙ sym (append_assoc pre t (written ps)) in
      let place : cursor + length (pre ++ t) ≡ cursor + length pre + length t =
        omega (arith, length-append pre t) in
      let ih = weave-filled sql (pre ++ t) cursor ps values s.1 ahead in
      ap (λ slots. weave sql cursor slots values)
        (scan-piece (cursor + length pre) p (written ps) s.0 e
          ∙ ap (λ n. scan_from plain 0 n (written ps)) (sym place))
      ∙ ih
      ∙ append_assoc pre t (filled ps values)
      ∙ ap (λ w. pre ++ w) (sym (filled-other p ps values e))
  | inl e ↦
      let at = cursor + length pre in
      let none_ahead : at + 1 + 0 ≡ at + 1 = omega arith in
      let d' : drop cursor sql ≡ pre ++ b'?' ∷ written ps =
        d ∙ ap (λ q. pre ++ (piece_text q ++ written ps)) (mark_text p e) in
      rw (mark_text p e, scan-mark at (written ps))
        (marked sql pre (written ps) cursor ps values (scan_from plain 0 (at + 1) (written ps)) refl
          d'
          (λ vs.
            ap (λ k. weave sql (at + 1) (scan_from plain 0 k (written ps)) vs) (sym none_ahead)
            ∙ weave-filled sql [] (at + 1) ps vs s.1 (after_mark sql pre (written ps) cursor d')))
]

placeholders_lem :
    (sql params : Text) → (bind_sql sql params).placeholders ≡ length (scan_slots sql)
unfolding bind_sql
placeholders_lem sql params = refl

-- In a statement of ordinary characters, marks, names in double quotes, literals in single quotes and
-- comments of a line, each `?` outside of names, literals and comments, and no other, takes the next
-- value, in order; a `?` for which there is no value is left, and so are the values for which there
-- is no `?`; all else stays as it is written. (A literal holds no quote and no `@`, and the
-- character after it is an ordinary one; ordinary are all but quotes, `-`, `/`, `@` and `?`.)
pub bind_sql-filled :
    (ps : List Piece) (params : Text)
    → Sound ps
    → let values = split_params params in
      let b = bind_sql (written ps) params in
      (b.text ≡ filled ps values)
      × (b.bound ≡ min (marks ps) (length values))
      × (b.placeholders ≡ marks ps)
      × (b.leftover ≡ drop (marks ps) values)
unfolding scan_slots
bind_sql-filled ps params s =
    let (q, n) = marks_at 0 ps s in
    let values = split_params params in
    let (t, b, l) = bind_sql-Questions (written ps) params q in
    (
      t ∙ weave-filled (written ps) [] 0 ps values s refl,
      b ∙ ap (λ k. min k (length values)) n,
      placeholders_lem (written ps) params ∙ n,
      l ∙ ap (λ k. drop k values) n,
    )
