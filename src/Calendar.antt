-- ===== src/Calendar.antt =====
-- app/agents/_calendar.py: the sequence calendar of a strategy. Dates are days and times microseconds
-- from one origin. `limit` is what `int` makes of the cap's limit, none if it refuses; a negative limit
-- counts as 0. The floating-point share of touches is an argument.
pub mod Windows
pub mod Caps
pub mod Generation
pub mod Spread
pub mod Generated
pub mod Frequency
pub mod Crowded
pub mod Grouped
pub mod Warned
use marketing_agentic_system.Common.{
  ℕ, ◌+◌, ◌-◌, ◌*◌, ◌/◌, ◌%◌, String, Bool, true, false, not, ◌&&◌, ◌||◌, Option, none, some, List,
  [], ◌∷◌, ◌++◌, ltb, leb, ◌==◌, if◌then◌else◌, str_eq, is_some, length, min, max, last_where,
  select_where,
}
use marketing_agentic_system.Common.Text.{lower, clean}
use marketing_agentic_system.EmailDispatch.Footer.{is_empty}
use marketing_agentic_system.Data.{microseconds_per_day}

pub record PlannedTouchpoint : Type 0 where
  pub channel_platform : String
  pub audience_id : ℕ
  pub scheduled_at : ℕ
  pub position : ℕ

pub record HardCap : Type 0 where
  pub platform : String
  pub per : String
  pub limit : Option ℕ

pub record Violation : Type 0 where
  pub platform : String
  pub per : String
  pub limit : ℕ
  pub observed : ℕ
  pub window_start : ℕ

-- _HARD_CAP_WINDOWS, in days
unfoldable pub window_days : String → Option ℕ
window_days per =
    if str_eq per "day"
    then some 1
    else (if str_eq per "week" then some 7 else (if str_eq per "month" then some 30 else none))

-- A cap that can be enforced: its platform, the length of its window in days, and its limit.
pub record Effective : Type 0 where
  pub platform : String
  pub per : String
  pub days : ℕ
  pub limit : ℕ

unfoldable pub effective_of : HardCap → Option ℕ → Option ℕ → Option Effective
effective_of cap none days = none
effective_of cap (some limit) none = none
effective_of cap (some limit) (some days) =
    if is_empty cap.platform || (limit == 0)
    then none
    else some
        (record { platform = lower cap.platform; per = lower cap.per; days = days; limit = limit })

unfoldable pub effective : HardCap → Option Effective
unfolding effective_of
effective cap = effective_of cap cap.limit (window_days (lower cap.per))

unfoldable pub insert_by_time : PlannedTouchpoint → List PlannedTouchpoint → List PlannedTouchpoint
insert_by_time t [] = t ∷ []
insert_by_time t (u ∷ rest) =
    if leb t.scheduled_at u.scheduled_at then t ∷ u ∷ rest else u ∷ insert_by_time t rest

-- sorted(..., key=lambda t: t.scheduled_at)
unfoldable pub sorted_by_time : List PlannedTouchpoint → List PlannedTouchpoint
sorted_by_time [] = []
sorted_by_time (t ∷ rest) = insert_by_time t (sorted_by_time rest)

-- The inner loop, up to its break: the later touches that fall into the anchor's window.
unfoldable pub count_window : ℕ → ℕ → List PlannedTouchpoint → ℕ
count_window window start [] = 0
count_window window start (t ∷ rest) =
    let more = count_window window start rest in
    if ltb t.scheduled_at (start + window) then 1 + more else 0

unfoldable pub violation_at : Effective → ℕ → ℕ → Option Violation → Option Violation
violation_at cap start observed next =
    if ltb cap.limit observed
    then some (record {
      platform = cap.platform;
      per = cap.per;
      limit = cap.limit;
      observed = observed;
      window_start = start;
    })
    else next

-- The outer loop, up to its break: the first anchor whose window holds too many touches.
unfoldable pub first_violation : Effective → List PlannedTouchpoint → Option Violation
unfolding violation_at
first_violation cap [] = none
first_violation cap (t ∷ rest) =
    violation_at cap t.scheduled_at
      (1 + count_window (cap.days * microseconds_per_day) t.scheduled_at rest)
      (first_violation cap rest)

abbrev pub is_on : String → PlannedTouchpoint → Bool
is_on platform t = str_eq t.channel_platform platform

unfoldable pub violation_of : List PlannedTouchpoint → Option Effective → Option Violation
violation_of touchpoints none = none
violation_of touchpoints (some cap) =
    let matching = sorted_by_time (select_where (is_on cap.platform) touchpoints) in
    if leb (length matching) cap.limit then none else first_violation cap matching

unfoldable pub add_violation : Option Violation → List Violation → List Violation
add_violation none rest = rest
add_violation (some v) rest = v ∷ rest

-- enforce_hard_caps: the violations that it raises, none if it returns.
unfoldable pub enforce_hard_caps : List PlannedTouchpoint → List HardCap → List Violation
unfolding add_violation violation_of effective
enforce_hard_caps touchpoints [] = []
enforce_hard_caps touchpoints (cap ∷ rest) =
    add_violation (violation_of touchpoints (effective cap)) (enforce_hard_caps touchpoints rest)
