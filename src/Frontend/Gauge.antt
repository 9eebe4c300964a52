-- ===== src/Frontend/Gauge.antt =====
-- frontend/src/components/HealthGauge.tsx: the keyboard on the points of the history;
-- frontend/src/lib/design-tokens.ts: the colour of a health factor.
use stellar_kraal.Common.{
  ltb, leb, if◌then◌else◌, ℕ, ◌+◌, ◌-◌, ◌<◌, ◌≡◌, ◌⊎◌, Option, none, some, List, [], ◌∷◌, arith,
}

-- The point that has the focus, and the point whose tooltip is shown.
pub record Chart : Type 0 where
  pub focused : ℕ
  pub active_index : Option ℕ

pub data Key : Type 0 where
  enter space escape arrow_left arrow_up arrow_right arrow_down other : Key

-- `showTooltipForIndex`, for a history of that length.
unfoldable pub show_tooltip_for_index : ℕ → ℕ → Chart → Chart
show_tooltip_for_index count i c = if ltb i count then record c { active_index = some i } else c

-- `focusPoint`: the focus takes the tooltip off one point and puts it on the other.
unfoldable pub focus_point : ℕ → ℕ → Chart → Chart
unfolding show_tooltip_for_index
focus_point count i c = show_tooltip_for_index count i (record { focused = i; active_index = none })

-- `handlePointKeyDown` of the point that has the focus.
unfoldable pub handle_point_key_down : ℕ → Key → Chart → Chart
unfolding focus_point show_tooltip_for_index
handle_point_key_down count enter c = show_tooltip_for_index count c.focused c
handle_point_key_down count space c = show_tooltip_for_index count c.focused c
handle_point_key_down count escape c = record c { active_index = none }
handle_point_key_down count arrow_left c =
    if ltb 0 c.focused then focus_point count (c.focused - 1) c else c
handle_point_key_down count arrow_up c =
    if ltb 0 c.focused then focus_point count (c.focused - 1) c else c
handle_point_key_down count arrow_right c =
    if ltb (c.focused + 1) count then focus_point count (c.focused + 1) c else c
handle_point_key_down count arrow_down c =
    if ltb (c.focused + 1) count then focus_point count (c.focused + 1) c else c
handle_point_key_down count other c = c

abbrev pub keys : ℕ → List Key → Chart → Chart
keys count [] c = c
keys count (k ∷ ks) c = keys count ks (handle_point_key_down count k c)

-- The focus is on a point of the history, and a tooltip is at the focus.
abbrev pub IsOnPoint : ℕ → Chart → Type 0
IsOnPoint count c =
    (c.focused < count) × ((c.active_index ≡ none) ⊎ (c.active_index ≡ some c.focused))

handle_point_key_down-IsOnPoint :
    (count : ℕ) (k : Key) (c : Chart)
    → IsOnPoint count c
    → IsOnPoint count (handle_point_key_down count k c)
unfolding handle_point_key_down
handle_point_key_down-IsOnPoint count enter c h = ground (arith, h)
handle_point_key_down-IsOnPoint count space c h = ground (arith, h)
handle_point_key_down-IsOnPoint count escape c h = ground (arith, h)
handle_point_key_down-IsOnPoint count arrow_left c h = ground (arith, h)
handle_point_key_down-IsOnPoint count arrow_up c h = ground (arith, h)
handle_point_key_down-IsOnPoint count arrow_right c h = ground (arith, h)
handle_point_key_down-IsOnPoint count arrow_down c h = ground (arith, h)
handle_point_key_down-IsOnPoint count other c h = h

-- Whatever keys are pressed, the focus stays on a point of the history, and a tooltip is shown for the
-- point that has the focus or for none.
pub keys-IsOnPoint :
    (count : ℕ) (ks : List Key) (c : Chart) → IsOnPoint count c → IsOnPoint count (keys count ks c)
keys-IsOnPoint count [] c h = h
keys-IsOnPoint count (k ∷ ks) c h =
    keys-IsOnPoint count ks (handle_point_key_down count k c)
      (handle_point_key_down-IsOnPoint count k c h)

pub data Colour : Type 0 where
  green amber red : Colour

unfoldable pub health_color : ℕ → Colour
health_color value = if leb 15000 value then green else if leb 10000 value then amber else red
