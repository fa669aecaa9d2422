-- ===== src/Calendar/Generation.antt =====
-- `generate_calendar` of app/agents/_calendar.py.
use marketing_agentic_system.Common.{
  ℕ, zero, suc, ◌+◌, ◌-◌, ◌*◌, ◌/◌, ◌%◌, String, Bool, not, ◌&&◌, ◌||◌, Option, none, some, List,
  [], ◌∷◌, ◌++◌, ltb, leb, ◌==◌, if◌then◌else◌, str_eq, length, min, max, last_where,
}
use marketing_agentic_system.Common.Text.{lower, clean}
use marketing_agentic_system.Data.{Result, ok, err, exception, microseconds_per_day}
use marketing_agentic_system.EmailDispatch.Footer.{is_empty}
use marketing_agentic_system.Calendar.{
  PlannedTouchpoint, HardCap, Violation, window_days, enforce_hard_caps,
}

-- An entry of the proposal's channels. `allocation_pct` is what `Decimal` makes of it, in some unit: 0 if
-- it refuses, and if it is negative.
pub data ChannelEntry : Type 0 where
  other : ChannelEntry
  channel : (platform : String) (allocation_pct : ℕ) → ChannelEntry

-- round(float(allocation_pct) / 100.0 * duration_days / 7.0)
abbrev pub Share : Type 0
Share = ℕ → ℕ → ℕ

-- _index_hard_caps and the look-up of a platform: the last cap that names it.
unfoldable pub cap_for : List HardCap → String → Option HardCap
cap_for caps platform =
    last_where
      (λ (c : HardCap). not (is_empty (lower c.platform)) && str_eq (lower c.platform) platform)
      caps

unfoldable pub max_touches : ℕ → Option ℕ → Option ℕ → ℕ
max_touches duration_days none days = 0
max_touches duration_days (some limit) none = 0
max_touches duration_days (some limit) (some days) =
    if limit == 0 then 0 else max 1 (duration_days * limit / max 1 days)

-- _max_touches_for_cap
unfoldable pub max_touches_for_cap : HardCap → ℕ → ℕ
unfolding max_touches
max_touches_for_cap cap duration_days =
    max_touches duration_days cap.limit (window_days (lower cap.per))

unfoldable pub capped_count : ℕ → ℕ → Option HardCap → ℕ
capped_count duration_days count none = count
capped_count duration_days count (some cap) = min count (max_touches_for_cap cap duration_days)

unfoldable pub touch_count : Share → List HardCap → ℕ → String → ℕ → ℕ
unfolding capped_count
touch_count share caps duration_days platform allocation_pct = max 1 (
    capped_count duration_days (max 1 (share allocation_pct duration_days)) (cap_for caps platform))

-- round(n / m): to the nearest, and to the even one of two.
unfoldable pub round_half_even : ℕ → ℕ → ℕ
round_half_even n m =
    if ltb (2 * (n % m)) m || ((2 * (n % m) == m) && (n / m % 2 == 0)) then n / m else n / m + 1

unfoldable pub offset_of : ℕ → ℕ → ℕ → ℕ
unfolding round_half_even
offset_of duration_days count i =
    if count == 1 then duration_days / 2 else round_half_even (i * (duration_days - 1)) (count - 1)

-- 09:00 of the day.
abbrev pub nine_o_clock : ℕ → ℕ
nine_o_clock day = day * microseconds_per_day + 9 * 60 * 60 * 1000000

-- The touches from number `i` on, `left` of them.
unfoldable pub distribute_from : ℕ → ℕ → ℕ → String → ℕ → ℕ → ℕ → ℕ → List PlannedTouchpoint
unfolding offset_of
distribute_from start_date duration_days count platform audience_id position_start i zero = []
distribute_from start_date duration_days count platform audience_id position_start i (suc left) =
    record {
      channel_platform = platform;
      audience_id = audience_id;
      scheduled_at = nine_o_clock (start_date + offset_of duration_days count i);
      position = position_start + i;
    }
    ∷ distribute_from start_date duration_days count platform audience_id position_start (i + 1)
        left

abbrev pub days_between : ℕ → ℕ → ℕ
days_between start_date end_date = max 1 (end_date - start_date + 1)

-- _distribute
unfoldable pub distribute : ℕ → ℕ → ℕ → String → ℕ → ℕ → List PlannedTouchpoint
unfolding distribute_from
distribute count start_date end_date platform audience_id position_start =
    distribute_from start_date (days_between start_date end_date) count platform audience_id
      position_start 0 count

unfoldable pub channel_touches :
    Share → List HardCap → ℕ → ℕ → ℕ → ChannelEntry → ℕ → List PlannedTouchpoint
unfolding distribute
channel_touches share caps start_date end_date audience_id other position = []
channel_touches share caps start_date end_date audience_id (channel platform pct) position =
    if is_empty (clean platform) || (pct == 0)
    then []
    else distribute (touch_count share caps (days_between start_date end_date) (clean platform) pct)
        start_date end_date (clean platform) audience_id position

-- The loop over the channels, with its position_cursor.
unfoldable pub lay_out :
    Share → List HardCap → ℕ → ℕ → ℕ → List ChannelEntry → ℕ → List PlannedTouchpoint
unfolding channel_touches
lay_out share caps start_date end_date audience_id [] position = []
lay_out share caps start_date end_date audience_id (ch ∷ rest) position =
    let touches = channel_touches share caps start_date end_date audience_id ch position in
    touches ++ lay_out share caps start_date end_date audience_id rest (position + length touches)

unfoldable pub comes_first : PlannedTouchpoint → PlannedTouchpoint → Bool
comes_first t u =
    ltb t.scheduled_at u.scheduled_at
    || ((t.scheduled_at == u.scheduled_at) && leb t.position u.position)

unfoldable pub insert_touch : PlannedTouchpoint → List PlannedTouchpoint → List PlannedTouchpoint
unfolding comes_first
insert_touch t [] = t ∷ []
insert_touch t (u ∷ rest) = if comes_first t u then t ∷ u ∷ rest else u ∷ insert_touch t rest

-- out.sort(key=lambda t: (t.scheduled_at, t.position))
unfoldable pub sort_touches : List PlannedTouchpoint → List PlannedTouchpoint
unfolding insert_touch
sort_touches [] = []
sort_touches (t ∷ rest) = insert_touch t (sort_touches rest)

unfoldable pub unless_violated :
    List PlannedTouchpoint → List Violation → Result (List PlannedTouchpoint)
unless_violated out [] = ok out
unless_violated out (v ∷ rest) = err (exception "HardCapViolationError")

unfoldable pub generate_calendar :
    Share → List ChannelEntry → ℕ → ℕ → ℕ → List HardCap → Result (List PlannedTouchpoint)
unfolding unless_violated
generate_calendar share channels start_date end_date audience_id caps =
    let out = sort_touches (lay_out share caps start_date end_date audience_id channels 0) in
    unless_violated out (enforce_hard_caps out caps)
