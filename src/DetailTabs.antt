-- ===== src/DetailTabs.antt =====
-- features/xlog/hooks/useXLogDetailTabs.ts: the open detail tabs. Each `setState` callback is a
-- function on the state; `Date.now()` is an argument. What a request brings comes back later, as a
-- call of `loaded` or `failed`, in any order with the rest. A profile is a payload of any type.
pub mod WellFormed
pub mod Events
pub mod Late
pub mod Gone
pub mod Saved
pub mod Victim
mod Tests
use nscouter.Base.{
  ltb, leb, length, get_elem?, ℕ, zero, suc, min, Bool, true, false, Option, none, some, List, [],
  ◌+◌, ◌-◌, ◌/◌, ◌%◌, ◌^◌, ◌∷◌, ◌++◌, ◌==◌, ◌===◌, if◌then◌else◌, nat_eq, list_eq,
}
use nscouter.Base.Maps.{get}
use nscouter.Base.Arrays.{index_of}
use nscouter.Base.Sets.{has}
use nscouter.Base.Text.{Text, text, decimal}
use nscouter.Xlog.{SXlog}

abbrev pub max_detail_tabs : ℕ
max_detail_tabs = 8

module _ (Profile : Type 0) where
  pub record DetailState : Type 0 where
    pub is_loading : Bool
    pub error : Option Text
    pub profile : Option Profile
    pub texts : List (ℕ × Text)
    pub xlog : Option SXlog

  pub record DetailTab : Type 0 where
    pub key : Text
    pub title : Text
    pub state : DetailState
    pub touched_at : ℕ

  pub record TabsState : Type 0 where
    pub tabs : List DetailTab
    pub active_key : Option Text

  pub record SavedProfile : Type 0 where
    pub txid : Text
    pub saved_at : ℕ
    pub service : Text
    pub xlog : SXlog
    pub profile : Profile
    pub texts : List (ℕ × Text)

abbrev hex_digit : ℕ → ℕ
hex_digit d = if ltb d 10 then b'0' + d else b'a' + (d - 10)

hex_from : ℕ → ℕ → Text → Text
hex_from zero n acc = acc
hex_from (suc fuel) n acc =
    let more = hex_from fuel (n / 16) (hex_digit (n % 16) ∷ acc) in if n == 0 then acc else more

-- `(n >>> 0).toString(16)`: a number below 2 ^ 32 has eight digits at most.
pub hex : ℕ → Text
unfolding hex_from
hex n = let u = n % 2 ^ 32 in if u == 0 then b'0' ∷ [] else hex_from 8 u []

unfoldable pub title_of : SXlog → List (ℕ × Text) → Text
unfolding hex
title_of xlog texts = elim (get texts xlog.service) [
  | none ↦ text "0x" ++ hex xlog.service
  | some t ↦ t
]

abbrev is_key : Option Text → Text → Bool
is_key none key = false
is_key (some k) key = key === k

pub data Dir : Type 0 where
  forward backward : Dir

-- `((i + dir) % n + n) % n`, where JavaScript's `-1 % n` is `-(1 % n)`.
abbrev pub next_index : Dir → ℕ → ℕ → ℕ
next_index forward i n = ((i + 1) % n + n) % n
next_index backward zero n = (n - 1 % n) % n
next_index backward (suc i) n = (i % n + n) % n

abbrev pub active_index : List Text → Option Text → ℕ
active_index ks none = 0
active_index ks (some k) = elim (index_of ks k) [ none ↦ 0 | some i ↦ i ]

module _ {Profile : Type 0} where
  abbrev pub tab_keys : List (DetailTab Profile) → List Text
  tab_keys [] = []
  tab_keys (t ∷ ts) = t.key ∷ tab_keys ts

  -- `tabs.filter(t => t.key !== key)`.
  abbrev pub without_key : List (DetailTab Profile) → Text → List (DetailTab Profile)
  without_key [] key = []
  without_key (t ∷ ts) key = if t.key === key then without_key ts key else t ∷ without_key ts key

  -- `tabs.map(t => (t.key === key ? f(t) : t))`.
  abbrev pub update :
      List (DetailTab Profile)
      → Text
      → (DetailTab Profile → DetailTab Profile)
      → List (DetailTab Profile)
  update [] key f = []
  update (t ∷ ts) key f = (if t.key === key then f t else t) ∷ update ts key f

  abbrev pub touch : ℕ → DetailTab Profile → DetailTab Profile
  touch now t = record t { touched_at = now }

  unfoldable pub activate : TabsState Profile → Text → ℕ → TabsState Profile
  activate prev key now =
      if has (tab_keys prev.tabs) key
      then record { tabs = update prev.tabs key (touch now); active_key = some key }
      else prev

  -- One step of the `reduce`.
  abbrev older : Option (DetailTab Profile) → DetailTab Profile → DetailTab Profile
  older none t = t
  older (some oldest) t = if ltb t.touched_at oldest.touched_at then t else oldest

  -- The least recently seen tab but the active one.
  unfoldable pub victim_from :
      Option Text
      → Option (DetailTab Profile)
      → List (DetailTab Profile)
      → Option (DetailTab Profile)
  victim_from active oldest [] = oldest
  victim_from active oldest (t ∷ ts) =
      victim_from active (if is_key active t.key then oldest else some (older oldest t)) ts

  unfoldable pub make_room : TabsState Profile → List (DetailTab Profile)
  make_room prev =
      if leb max_detail_tabs (length prev.tabs)
      then elim (victim_from prev.active_key none prev.tabs) [
        | none ↦ prev.tabs
        | some victim ↦ without_key prev.tabs victim.key
      ]
      else prev.tabs

  abbrev pub add_tab : TabsState Profile → DetailTab Profile → ℕ → TabsState Profile
  add_tab prev tab now =
      if has (tab_keys prev.tabs) tab.key
      then record { tabs = update prev.tabs tab.key (touch now); active_key = some tab.key }
      else record { tabs = make_room prev ++ tab ∷ []; active_key = some tab.key }

  abbrev pub seed : SXlog → ℕ → DetailTab Profile
  seed xlog now = record {
    key = xlog.txid;
    title = title_of xlog [];
    state = record {
      is_loading = true;
      error = none;
      profile = none;
      texts = [];
      xlog = some xlog;
    };
    touched_at = now;
  }

  unfoldable pub open_xlog : TabsState Profile → SXlog → ℕ → TabsState Profile
  open_xlog prev xlog now = add_tab prev (seed xlog now) now

  abbrev saved_key : SavedProfile Profile → Text
  saved_key saved = text "file:" ++ (saved.txid ++ (text ":" ++ decimal saved.saved_at))

  abbrev pub saved_tab : SavedProfile Profile → ℕ → DetailTab Profile
  saved_tab saved now = record {
    key = saved_key saved;
    title = if saved.service === [] then title_of saved.xlog saved.texts else saved.service;
    state = record {
      is_loading = false;
      error = none;
      profile = some saved.profile;
      texts = saved.texts;
      xlog = some saved.xlog;
    };
    touched_at = now;
  }

  unfoldable pub open_saved : TabsState Profile → SavedProfile Profile → ℕ → TabsState Profile
  open_saved prev saved now = add_tab prev (saved_tab saved now) now

  abbrev pub answered : SXlog → Profile → List (ℕ × Text) → DetailTab Profile → DetailTab Profile
  answered xlog profile texts t = record t {
    title = title_of xlog texts;
    state = record {
      is_loading = false;
      error = none;
      profile = some profile;
      texts = texts;
      xlog = some xlog;
    };
  }

  -- The answer to a request of `open_xlog`.
  unfoldable pub loaded : TabsState Profile → SXlog → Profile → List (ℕ × Text) → TabsState Profile
  loaded prev xlog profile texts =
      if has (tab_keys prev.tabs) xlog.txid
      then record prev { tabs = update prev.tabs xlog.txid (answered xlog profile texts) }
      else prev

  abbrev pub refused : Text → DetailTab Profile → DetailTab Profile
  refused msg t = record t { state = record (t.state) { is_loading = false; error = some msg } }

  unfoldable pub failed : TabsState Profile → SXlog → Text → TabsState Profile
  failed prev xlog msg =
      if has (tab_keys prev.tabs) xlog.txid
      then record prev { tabs = update prev.tabs xlog.txid (refused msg) }
      else prev

  -- `tabs[Math.min(idx, tabs.length - 1)]`, and its key or null.
  abbrev pub neighbor_key : List (DetailTab Profile) → ℕ → Option Text
  neighbor_key tabs idx = get_elem? (tab_keys tabs) (min idx (length tabs - 1))

  unfoldable pub close : TabsState Profile → Text → TabsState Profile
  close prev key = elim (index_of (tab_keys prev.tabs) key) [
    | none ↦ prev
    | some idx ↦
        let tabs = without_key prev.tabs key in
        if is_key prev.active_key key
        then record { tabs = tabs; active_key = neighbor_key tabs idx }
        else record prev { tabs = tabs }
  ]

  -- With an index of -1, `tabs[-1]` is `undefined`.
  unfoldable pub close_active : TabsState Profile → TabsState Profile
  close_active prev = elim prev.active_key [
    | none ↦ prev
    | some key ↦
        let tabs = without_key prev.tabs key in
        record {
          tabs = tabs;
          active_key = elim (index_of (tab_keys prev.tabs) key) [
            | none ↦ none
            | some idx ↦ neighbor_key tabs idx
          ];
        }
  ]

  unfoldable pub close_all : TabsState Profile
  close_all = record { tabs = []; active_key = none }

  unfoldable pub cycle : TabsState Profile → Dir → ℕ → TabsState Profile
  cycle prev dir now =
      if length prev.tabs == 0
      then prev
      else elim (get_elem? (tab_keys prev.tabs)
          (next_index dir (active_index (tab_keys prev.tabs) prev.active_key) (length prev.tabs))) [
            | none ↦ prev
            | some key ↦ record { tabs = update prev.tabs key (touch now); active_key = some key }
          ]
