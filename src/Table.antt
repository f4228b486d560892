-- ===== src/Table.antt =====
-- features/xlog/components/xlogSort.ts: the table of transactions. Which are listed and in which order
-- they are shown are two questions. `localeCompare` is a parameter; a comparison comes to the sign of
-- its number.
pub mod Sorted
pub mod Slowest
mod Tests
use nscouter.Base.Sets.{has}
use nscouter.Base.Sorts.{sort_down}
use nscouter.Base.Text.{Text, text}
use nscouter.Base.{
  ltb, length, take, ℕ, Bool, true, false, Option, none, some, List, [], ◌∷◌, ◌==◌, if◌then◌else◌,
  nat_eq, list_eq,
}
use nscouter.Xlog.{SXlog}

pub data Sign : Type 0 where
  less same more : Sign

-- The sign of `a - b`.
unfoldable pub sign_of : ℕ → ℕ → Sign
sign_of a b = if ltb a b then less else if a == b then same else more

pub data SortKey : Type 0 where
  time server url ip elapsed y : SortKey

pub data SortDir : Type 0 where
  asc desc : SortDir

pub record SortState : Type 0 where
  pub key : SortKey
  pub dir : SortDir

abbrev pub default_sort : SortState
default_sort = record { key = time; dir = desc }

unfoldable pub first_dir : SortKey → SortDir
first_dir time = desc
first_dir server = asc
first_dir url = asc
first_dir ip = asc
first_dir elapsed = desc
first_dir y = desc

-- `===` on two columns.
unfoldable pub same_key : SortKey → SortKey → Bool
same_key time time = true
same_key server server = true
same_key url url = true
same_key ip ip = true
same_key elapsed elapsed = true
same_key y y = true
same_key k l = false

abbrev pub flip_dir : SortDir → SortDir
flip_dir asc = desc
flip_dir desc = asc

unfoldable pub next_sort : SortState → SortKey → SortState
next_sort cur key = record {
  key = key;
  dir = if same_key cur.key key then flip_dir cur.dir else first_dir key;
}

abbrev pub arrow : SortDir → Text
arrow asc = text "▲"
arrow desc = text "▼"

unfoldable pub sort_mark : SortState → SortKey → Text
sort_mark cur key = if same_key cur.key key then arrow cur.dir else []

pub record SortNames : Type 0 where
  pub server_name : ℕ → Text
  pub url_name : ℕ → Text
  pub y_value : SXlog → ℕ

-- `d * sign`.
abbrev pub times : SortDir → Sign → Sign
times asc d = d
times desc less = more
times desc same = same
times desc more = less

-- A stable sort by a comparison, of which is asked whether it is at most zero.
unfoldable pub insert_by : (SXlog → SXlog → Bool) → SXlog → List SXlog → List SXlog
insert_by le x [] = x ∷ []
insert_by le x (z ∷ zs) = if le x z then x ∷ z ∷ zs else z ∷ insert_by le x zs

unfoldable pub sort_by : (SXlog → SXlog → Bool) → List SXlog → List SXlog
sort_by le [] = []
sort_by le (x ∷ xs) = insert_by le x (sort_by le xs)

abbrev pub at_most : Sign → Bool
at_most less = true
at_most same = true
at_most more = false

module _ (locale_compare : Text → Text → Sign) where
  unfoldable pub compare : SXlog → SXlog → SortKey → SortNames → Sign
  compare a b time names = sign_of a.end_time b.end_time
  compare a b elapsed names = sign_of a.elapsed b.elapsed
  compare a b y names = sign_of (names.y_value a) (names.y_value b)
  compare a b server names =
      locale_compare (names.server_name a.obj_hash) (names.server_name b.obj_hash)
  compare a b url names = locale_compare (names.url_name a.service) (names.url_name b.service)
  compare a b ip names = locale_compare a.ip_addr b.ip_addr

  -- Rows with the same value stand with the latest first.
  abbrev pub decide : SortDir → Sign → SXlog → SXlog → Sign
  decide dir less a b = times dir less
  decide dir same a b = sign_of b.end_time a.end_time
  decide dir more a b = times dir more

  abbrev pub order : SortState → SortNames → SXlog → SXlog → Sign
  order state names a b = decide state.dir (compare a b state.key names) a b

  unfoldable pub sort_xlogs : List SXlog → SortState → SortNames → List SXlog
  sort_xlogs rows state names = sort_by (λ a b. at_most (order state names a b)) rows

pub record TableRows : Type 0 where
  pub matched : ℕ
  pub rows : List SXlog

-- `xlogs.filter(x => searchHits.has(x.txid))`.
abbrev pub hit_rows : List Text → List SXlog → List SXlog
hit_rows hits [] = []
hit_rows hits (x ∷ xs) = if has hits x.txid then x ∷ hit_rows hits xs else hit_rows hits xs

-- `none`: nothing is searched for.
abbrev pub base_rows : List SXlog → Option (List Text) → List SXlog
base_rows xlogs none = xlogs
base_rows xlogs (some hits) = hit_rows hits xlogs

unfoldable pub pick_table_rows : List SXlog → Option (List Text) → ℕ → TableRows
pick_table_rows xlogs search_hits limit =
    let base = base_rows xlogs search_hits in
    record { matched = length base; rows = take limit (sort_down (λ x. x.elapsed) base) }
