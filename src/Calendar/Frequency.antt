-- ===== src/Calendar/Frequency.antt =====
-- `detect_frequency_warnings` of app/agents/_calendar.py. A window is given in microseconds. The touches
-- are objects whose warnings are set in place: here each is returned with its warning, audience by
-- audience. Warnings of an earlier run are cleared first, so they are no input.
use marketing_agentic_system.Common.{
  ℕ, zero, suc, ◌+◌, ◌-◌, ◌*◌, ◌/◌, Option, none, some, Bool, List, [], ◌∷◌, ◌++◌, ltb, ◌==◌,
  if◌then◌else◌, length, select_where,
}
use marketing_agentic_system.Data.{microseconds_per_day}
use marketing_agentic_system.Calendar.{PlannedTouchpoint, sorted_by_time}

pub record FrequencyWarning : Type 0 where
  pub cap_per_days : ℕ
  pub limit : ℕ
  pub count_in_window : ℕ

abbrev pub default_frequency_cap : ℕ
default_frequency_cap = 3

abbrev pub default_frequency_window : ℕ
default_frequency_window = 7 * microseconds_per_day

-- xs[:n]
unfoldable pub leading {ℓ} : {A : Type ℓ} → ℕ → List A → List A
leading zero xs = []
leading (suc n) [] = []
leading (suc n) (x ∷ xs) = x ∷ leading n xs

-- abs(t.scheduled_at - anchor.scheduled_at) < window
abbrev pub is_close : ℕ → PlannedTouchpoint → PlannedTouchpoint → Bool
is_close window anchor t =
    ltb ((t.scheduled_at - anchor.scheduled_at) + (anchor.scheduled_at - t.scheduled_at)) window

-- The touches of the slice around an anchor that lie in its window: `before` has the earlier ones, the
-- nearest first, and `from` the anchor and the later ones.
unfoldable pub in_window_count :
    ℕ → ℕ → PlannedTouchpoint → List PlannedTouchpoint → List PlannedTouchpoint → ℕ
unfolding leading
in_window_count cap window anchor before from =
    length (select_where (is_close window anchor) (leading (cap * 2) before))
    + length (select_where (is_close window anchor) (leading (cap * 2 + 1) from))

unfoldable pub warning_of : ℕ → ℕ → ℕ → Option FrequencyWarning
warning_of cap window count =
    if ltb cap count
    then some (record {
      cap_per_days = window / microseconds_per_day;
      limit = cap;
      count_in_window = count;
    })
    else none

-- The loop over the sorted touches of an audience.
unfoldable pub warn_each :
    ℕ
    → ℕ
    → List PlannedTouchpoint
    → List PlannedTouchpoint
    → List (PlannedTouchpoint × Option FrequencyWarning)
unfolding warning_of in_window_count
warn_each cap window before [] = []
warn_each cap window before (anchor ∷ rest) =
    (anchor, warning_of cap window (in_window_count cap window anchor before (anchor ∷ rest)))
    ∷ warn_each cap window (anchor ∷ before) rest

unfoldable pub warn_audience :
    ℕ → ℕ → List PlannedTouchpoint → List (PlannedTouchpoint × Option FrequencyWarning)
unfolding warn_each
warn_audience cap window audience_touches =
    warn_each cap window [] (sorted_by_time audience_touches)

-- by_audience.setdefault(tp.audience_id, []).append(tp)
unfoldable pub add_to_audience :
    PlannedTouchpoint → List (ℕ × List PlannedTouchpoint) → List (ℕ × List PlannedTouchpoint)
add_to_audience tp [] = (tp.audience_id, tp ∷ []) ∷ []
add_to_audience tp ((audience_id, touches) ∷ others) =
    let rest = add_to_audience tp others in
    if audience_id == tp.audience_id
    then (audience_id, touches ++ (tp ∷ [])) ∷ others
    else (audience_id, touches) ∷ rest

unfoldable pub by_audience_from :
    List (ℕ × List PlannedTouchpoint) → List PlannedTouchpoint → List (ℕ × List PlannedTouchpoint)
unfolding add_to_audience
by_audience_from groups [] = groups
by_audience_from groups (tp ∷ rest) = by_audience_from (add_to_audience tp groups) rest

unfoldable pub warn_audiences :
    ℕ → ℕ → List (ℕ × List PlannedTouchpoint) → List (PlannedTouchpoint × Option FrequencyWarning)
unfolding warn_audience
warn_audiences cap window [] = []
warn_audiences cap window ((audience_id, audience_touches) ∷ rest) =
    warn_audience cap window audience_touches ++ warn_audiences cap window rest

unfoldable pub detect_frequency_warnings :
    ℕ → ℕ → List PlannedTouchpoint → List (PlannedTouchpoint × Option FrequencyWarning)
unfolding warn_audiences by_audience_from
detect_frequency_warnings cap window touchpoints =
    warn_audiences cap window (by_audience_from [] touchpoints)
