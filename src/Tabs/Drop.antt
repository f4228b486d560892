-- ===== src/Tabs/Drop.antt =====
-- What a drop of a tab on a pane leaves on the screen.
use nscouter.Base.{
  leb, Bool-cases, length, ℕ, refl, inl, inr, Bool, true, false, not, arith, ◌≡◌, ◌≢◌, ◌&&◌, ◌||◌,
  ◌==◌, nat_eq, list_eq,
}
use nscouter.Base.Sets.{has, delete, Distinct, has-delete}
use nscouter.Base.Arrays.{index_of}
use nscouter.Tabs.Panes.{swap-eq-exchange, has-exchange, has-splice_pane}
use nscouter.Tabs.{XlogTabsState, tab_keys, DropSide, drop_tab, is_center, is_before, max_panes}

-- The drop takes the target's place, and does not set up a pane beside it.
abbrev pub takes_place : XlogTabsState → ℕ → DropSide → Bool
takes_place s key side = is_center side || leb max_panes (length s.panes) && not (has s.panes key)

-- The dropped tab is current and on the screen. Every other pane stays on it, but the target where a
-- tab that was not shown takes its place: in the middle of the pane, or with four panes already.
pub drop_tab-panes :
    (s : XlogTabsState) (key target : ℕ) (side : DropSide) (b : ℕ)
    → Distinct s.panes
    → has (tab_keys s.tabs) key ≡ true
    → has s.panes target ≡ true
    → key ≢ target
    → ((drop_tab s key target side).active_key ≡ key)
      × (has (drop_tab s key target side).panes b ≡ (
          (key == b)
          || has s.panes b
            && not ((target == b) && takes_place s key side && not (has s.panes key))))
unfolding drop_tab
drop_tab-panes s key target side b d k t ne =
    let e : (key == target) ≡ false = ground arith in
    elim (Bool-cases (takes_place s key side)) [
      | inl c ↦
          rw (k, t, e, c, swap-eq-exchange key target s.panes d)
            (refl, ground (arith, has-exchange key target s.panes b e))
      | inr c ↦
          rw (k, t, e, c)
            (
              refl,
              ground (
                arith,
                has-splice_pane (is_before side) (index_of (delete s.panes key) target) key
                    (delete s.panes key) b,
                has-delete s.panes key b,
              ),
            )
    ]
