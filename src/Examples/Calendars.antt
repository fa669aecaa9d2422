-- ===== src/Examples/Calendars.antt =====
-- The theorems on the sequence calendar (app/agents/_calendar.py), at a week with a cap of two e-mails
-- and at the touches of two audiences.
use marketing_agentic_system.Common.{ℕ, ◌*◌, ◌/◌, ◌≡◌, arith, ◌↔◌, some, List, [], ◌∷◌}
use marketing_agentic_system.Calendar.{PlannedTouchpoint, HardCap, enforce_hard_caps}
use marketing_agentic_system.Calendar.Caps.{RespectsAll, enforce_hard_caps_iff}
use marketing_agentic_system.Calendar.Frequency.{detect_frequency_warnings}
use marketing_agentic_system.Calendar.Warned.{Warned, detect_frequency_warnings-Warned}
use marketing_agentic_system.Calendar.Generation.{other, channel, Share, generate_calendar}
use marketing_agentic_system.Calendar.Generated.{Generated, generate_calendar-Generated}

abbrev two_a_week : List HardCap
two_a_week = record { platform = "email"; per = "week"; limit = some 2 } ∷ []

abbrev touch : ℕ → PlannedTouchpoint
touch at = record { channel_platform = "email"; audience_id = 80; scheduled_at = at; position = 0 }

enforce_hard_caps_iff_example :
    (enforce_hard_caps (touch 10 ∷ touch 30 ∷ touch 20 ∷ []) two_a_week ≡ [])
    ↔ RespectsAll (touch 10 ∷ touch 30 ∷ touch 20 ∷ []) two_a_week
enforce_hard_caps_iff_example =
    enforce_hard_caps_iff (touch 10 ∷ touch 30 ∷ touch 20 ∷ []) two_a_week

abbrev weekly : Share
weekly pct days = pct * days / 700

generate_calendar-Generated_example :
    Generated weekly
      (channel " Email" 60 ∷ other ∷ [])
      100
      120
      80
      two_a_week
      (generate_calendar weekly (channel " Email" 60 ∷ other ∷ []) 100 120 80 two_a_week)
generate_calendar-Generated_example =
    generate_calendar-Generated weekly (channel " Email" 60 ∷ other ∷ []) 100 120 80 two_a_week

abbrev touch_of : ℕ → ℕ → PlannedTouchpoint
touch_of audience at = record {
  channel_platform = "email";
  audience_id = audience;
  scheduled_at = at;
  position = 0;
}

-- Two audiences, the first with three touches in a window of 20.
abbrev busy : List PlannedTouchpoint
busy = touch_of 80 30 ∷ touch_of 81 31 ∷ touch_of 80 20 ∷ touch_of 80 12 ∷ touch_of 81 90 ∷ []

detect_frequency_warnings-Warned_example : Warned 2 20 busy (detect_frequency_warnings 2 20 busy)
detect_frequency_warnings-Warned_example = detect_frequency_warnings-Warned 2 20 busy (omega arith)
