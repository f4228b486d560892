-- ===== src/DetailTabs/Saved.antt =====
-- features/xlog/hooks/openDetails.ts: the transactions whose tabs were open, kept in a file. An entry
-- of the file is `none` when it is no object; a field of it is `none` when it is no string.
use nscouter.Base.Sets.{has, add}
use nscouter.Base.{
  leb, Bool-cases, length, ℕ, max, inl, inr, Bool, true, false, not, Option, none, some, List, [],
  arith, ◌+◌, ◌≤◌, ◌≡◌, ◌&&◌, ◌||◌, ◌∷◌, ◌==◌, ◌===◌, if◌then◌else◌, nat_eq, list_eq,
}
use nscouter.Base.Text.{Text, trim, text, starts_with}

pub record OpenDetail : Type 0 where
  pub txid : Text
  pub date : Text

pub record RawDetail : Type 0 where
  pub raw_txid : Option Text
  pub raw_date : Option Text

abbrev trimmed : Option Text → Text
trimmed none = []
trimmed (some s) = trim s

abbrev only_digits : Text → Bool
only_digits [] = true
only_digits (c ∷ s) = leb b'0' c && leb c b'9' && only_digits s

-- `/^\d{8}$/`.
abbrev pub is_date : Text → Bool
is_date s = length s == 8 && only_digits s

-- The loop; `count` is `out.length`.
unfoldable pub normalize_from : List Text → ℕ → ℕ → List (Option RawDetail) → List OpenDetail
normalize_from seen count most [] = []
normalize_from seen count most (none ∷ list) = normalize_from seen count most list
normalize_from seen count most (some r ∷ list) =
    let txid = trimmed r.raw_txid in
    let date = trimmed r.raw_date in
    elim ((txid === []) || not (is_date date) || has seen txid) [
      | true ↦ normalize_from seen count most list
      | false ↦ elim (leb most (count + 1)) [
        | true ↦ record { txid = txid; date = date } ∷ []
        | false ↦
            record { txid = txid; date = date }
            ∷ normalize_from (add seen txid) (count + 1) most list
      ]
    ]

-- The argument is what the file holds; it is `none` when that is no array.
unfoldable pub normalize : Option (List (Option RawDetail)) → ℕ → List OpenDetail
normalize none most = []
normalize (some list) most = normalize_from [] 0 most list

-- What a tab tells: its key, and the transaction with the date of its end.
pub record TabView : Type 0 where
  pub key : Text
  pub xlog : Option (Text × ℕ)

module _ (to_date : ℕ → Text) where
  unfoldable pub from_tabs : List TabView → List OpenDetail
  from_tabs [] = []
  from_tabs (tab ∷ tabs) =
      let rest = from_tabs tabs in
      if starts_with tab.key (text "file:") then rest else elim tab.xlog [
        | none ↦ rest
        | some (txid, end_time) ↦ record { txid = txid; date = to_date end_time } ∷ rest
      ]

abbrev pub Usable : OpenDetail → Type 0
Usable d = ((d.txid === []) ≡ false) × (is_date d.date ≡ true)

-- None names a transaction of `seen`, or of an entry before it.
abbrev pub Fresh : List Text → List OpenDetail → Type 0
Fresh seen [] = Unit
Fresh seen (d ∷ ds) = (has seen d.txid ≡ false) × Usable d × Fresh (add seen d.txid) ds

normalize_from-Fresh :
    (seen : List Text) (count most : ℕ) (list : List (Option RawDetail))
    → Fresh seen (normalize_from seen count most list)
unfolding normalize_from
normalize_from-Fresh seen count most [] = tt
normalize_from-Fresh seen count most (none ∷ list) = normalize_from-Fresh seen count most list
normalize_from-Fresh seen count most (some r ∷ list) =
    let txid = trimmed r.raw_txid in
    let date = trimmed r.raw_date in
    elim (Bool-cases ((txid === []) || not (is_date date) || has seen txid)) [
      | inl e ↦ rw (normalize_from, e) (normalize_from-Fresh seen count most list)
      | inr e ↦ elim (Bool-cases (leb most (count + 1))) [
        | inl f ↦ rw (normalize_from, e, f) (ground arith, (ground arith, ground arith), tt)
        | inr f ↦
            rw (normalize_from, e, f)
              (
                ground arith,
                (ground arith, ground arith),
                normalize_from-Fresh (add seen txid) (count + 1) most list,
              )
      ]
    ]

length-normalize_from :
    (seen : List Text) (count most : ℕ) (list : List (Option RawDetail))
    → length (normalize_from seen count most list) + count ≤ max (count + 1) most
unfolding normalize_from
length-normalize_from seen count most [] = omega arith
length-normalize_from seen count most (none ∷ list) = length-normalize_from seen count most list
length-normalize_from seen count most (some r ∷ list) =
    let txid = trimmed r.raw_txid in
    let date = trimmed r.raw_date in
    elim (Bool-cases ((txid === []) || not (is_date date) || has seen txid)) [
      | inl e ↦ rw (normalize_from, e) (length-normalize_from seen count most list)
      | inr e ↦ elim (Bool-cases (leb most (count + 1))) [
        | inl f ↦ rw (normalize_from, e, f) (omega arith)
        | inr f ↦
            let ih = length-normalize_from (add seen txid) (count + 1) most list in
            rw (normalize_from, e, f) (ground (arith, f, ih))
      ]
    ]

-- Whatever the file holds, each entry that is taken from it has a transaction and a date of eight
-- digits, none names a transaction that stood before it, and there are no more than the limit, or one
-- at most where the limit is zero.
pub normalize-Fresh :
    (file : Option (List (Option RawDetail))) (most : ℕ)
    → Fresh [] (normalize file most) × (length (normalize file most) ≤ max 1 most)
unfolding normalize
normalize-Fresh none most = (tt, omega arith)
normalize-Fresh (some list) most =
    (normalize_from-Fresh [] 0 most list, omega (arith, length-normalize_from [] 0 most list))
