-- ===== src/Columns/Rows.antt =====
-- A batch in columns holds the same rows as its packs.
use nscouter.Base.{length, ℕ, zero, suc, refl, ap, some, List, [], map, ◌≡◌, ◌∙◌, ◌∷◌}
use nscouter.Columns.{
  XlogPack, row, rows_from, columns_of, xlog_columns_to_sxlogs, xlog_pack_to_sxlog,
}

row-columns_of :
    (ps : List XlogPack) (p : XlogPack) (i : ℕ)
    → row (columns_of (p ∷ ps)) (suc i) ≡ row (columns_of ps) i
unfolding columns_of
row-columns_of ps p i = refl

rows_from-columns_of :
    (ps : List XlogPack) (p : XlogPack) (i k : ℕ)
    → rows_from (columns_of (p ∷ ps)) (suc i) k ≡ rows_from (columns_of ps) i k
unfolding columns_of
rows_from-columns_of ps p i zero = refl
rows_from-columns_of ps p i (suc k) =
    ap (λ r. row (columns_of ps) i ∷ r) (rows_from-columns_of ps p (suc i) k)

-- The rows that are put together from the columns of a batch are its packs, one for one and in
-- their order, each as it would have come by itself; no field of a row is missing.
pub xlog_columns_to_sxlogs-columns_of :
    (ps : List XlogPack)
    → xlog_columns_to_sxlogs (columns_of ps) ≡ map (λ p. some (xlog_pack_to_sxlog p)) ps
unfolding columns_of xlog_columns_to_sxlogs
xlog_columns_to_sxlogs-columns_of [] = refl
xlog_columns_to_sxlogs-columns_of (p ∷ ps) =
    ap (λ r. some (xlog_pack_to_sxlog p) ∷ r)
      (rows_from-columns_of ps p 0 (length (columns_of ps).end_time)
        ∙ xlog_columns_to_sxlogs-columns_of ps)
