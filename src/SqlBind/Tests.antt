-- ===== src/SqlBind/Tests.antt =====
-- Statements of both kinds of placeholders.
use nscouter.SqlBind.Bound.{bind_sql-filled}
use nscouter.SqlBind.Pieces.{Piece, code, mark, named, quoted, comment, written, filled, marks}
use nscouter.SqlBind.{
  bind_sql, fill_from, unused_from, scan_slots, scan_from, scan_round, plain_round, read_indexed,
  digits_at, split_params, split_values,
}
use nscouter.Base.{length, drop, min, refl, List, [], ◌≡◌, ◌∷◌, nat_eq, list_eq}
use nscouter.Base.Text.{Text, text, trim}

both :
    bind_sql (text "where c = '@{1}' and d = '?' and id = ? -- ?") (text "'a,b', 7, 8") ≡ record {
      text = text "where c = 'a,b' and d = '?' and id = 7 -- ?";
      bound = 2;
      placeholders = 2;
      leftover = text "8" ∷ [];
    }
unfolding bind_sql fill_from unused_from scan_slots scan_from scan_round plain_round read_indexed
    digits_at split_params split_values trim
both = refl

-- insert into t values ( `?`, '?' , "?", ? -- ?
abbrev insert : List Piece
insert =
    code b'('
    ∷ mark
    ∷ code b','
    ∷ quoted (text "?") b','
    ∷ named (text "?")
    ∷ code b','
    ∷ mark
    ∷ comment (text " ?")
    ∷ mark
    ∷ []

abbrev two_values : Text
two_values = text "1, 'a,b'"

-- The third mark has no value.
bound_text : filled insert (text "1" ∷ text "'a,b'" ∷ []) ≡ text "(1,'?',\"?\",'a,b'-- ?\n?"
bound_text = refl

bind_sql-filled_example :
    let values = split_params two_values in
    let b = bind_sql (written insert) two_values in
    (b.text ≡ filled insert values)
    × (b.bound ≡ min (marks insert) (length values))
    × (b.placeholders ≡ marks insert)
    × (b.leftover ≡ drop (marks insert) values)
bind_sql-filled_example =
    bind_sql-filled insert two_values
      (refl, (tt, (refl, ((refl, refl, refl), (refl, (refl, (tt, (refl, (tt, tt)))))))))
