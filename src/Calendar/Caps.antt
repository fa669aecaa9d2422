-- ===== src/Calendar/Caps.antt =====
-- What `enforce_hard_caps` of app/agents/_calendar.py accepts.
use marketing_agentic_system.Common.{
  ℕ, ◌*◌, ◌≤◌, ◌≡◌, ◌↔◌, refl, sym, ap, ◌∙◌, Bool, ◌&&◌, ◌||◌, String, Option, none, some, List, [],
  ◌∷◌, ◌==◌, arith, inl, inr, Bool-cases, Option-cases, leb, if◌then◌else◌, length, count_where,
  All, select_where, count_where-select_where, str_eq,
}
use marketing_agentic_system.Common.Text.{lower}
use marketing_agentic_system.EmailDispatch.Footer.{is_empty}
use marketing_agentic_system.Data.{microseconds_per_day}
use marketing_agentic_system.Calendar.{
  PlannedTouchpoint, HardCap, Effective, Violation, window_days, effective_of, effective,
  sorted_by_time, is_on, violation_of, add_violation, enforce_hard_caps,
}
use marketing_agentic_system.Calendar.Windows.{
  in_window, sorted_by_time-InOrder, sorted_by_time-count, first_violation-IsWithin,
  IsWithin-first_violation,
}

-- No window of the cap's length, wherever it begins, holds more touches of its platform than its limit.
abbrev pub Respects : List PlannedTouchpoint → Effective → Type 0
Respects touchpoints e =
    (start : ℕ)
    → count_where
        (λ (t : PlannedTouchpoint).
          is_on e.platform t && in_window (e.days * microseconds_per_day) start t)
        touchpoints
      ≤ e.limit

window_days-positive : (per : String) (n : ℕ) → window_days per ≡ some n → 1 ≤ n
unfolding window_days
window_days-positive per n h = elim (Bool-cases (str_eq per "day")) [
  | inl a ↦ let k : 1 ≡ n = cc (rw a at h) in omega (arith, k)
  | inr a ↦ elim (Bool-cases (str_eq per "week")) [
    | inl b ↦ let k : 7 ≡ n = cc (rw (a, b) at h) in omega (arith, k)
    | inr b ↦ elim (Bool-cases (str_eq per "month")) [
      | inl c ↦ let k : 30 ≡ n = cc (rw (a, b, c) at h) in omega (arith, k)
      | inr c ↦ cc (rw (a, b, c) at h)
    ]
  ]
]

effective_of-days :
    (cap : HardCap) (limit days : Option ℕ) (e : Effective)
    → effective_of cap limit days ≡ some e
    → days ≡ some e.days
unfolding effective_of
effective_of-days cap none days e h = cc
effective_of-days cap (some limit) none e h = cc
effective_of-days cap (some limit) (some n) e h =
    elim (Bool-cases (is_empty cap.platform || (limit == 0))) [
      | inl t ↦ cc (rw t at h)
      | inr f ↦ ground (arith, h, f)
    ]

effective-days : (cap : HardCap) (e : Effective) → effective cap ≡ some e → 1 ≤ e.days
unfolding effective
effective-days cap e h =
    window_days-positive (lower cap.per) e.days
      (effective_of-days cap cap.limit (window_days (lower cap.per)) e h)

count-length :
    (p : PlannedTouchpoint → Bool) (l : List PlannedTouchpoint) → count_where p l ≤ length l
count-length p [] = omega arith
count-length p (t ∷ rest) =
    let ih = count-length p rest in let one = at_most_one (p t) in omega (arith, ih, one)
  where
    at_most_one : (b : Bool) → (if b then 1 else 0) ≤ 1
    at_most_one b = ground arith

-- The sorted touches of the platform, counted in the whole calendar.
matching-count :
    (touchpoints : List PlannedTouchpoint) (e : Effective) (start : ℕ)
    → count_where
        (in_window (e.days * microseconds_per_day) start)
        (sorted_by_time (select_where (is_on e.platform) touchpoints))
      ≡ count_where
          (λ (t : PlannedTouchpoint).
            is_on e.platform t && in_window (e.days * microseconds_per_day) start t)
          touchpoints
matching-count touchpoints e start =
    sorted_by_time-count (in_window (e.days * microseconds_per_day) start)
      (select_where (is_on e.platform) touchpoints)
    ∙ count_where-select_where (is_on e.platform) (in_window (e.days * microseconds_per_day) start)
        touchpoints

violation_of-none :
    (touchpoints : List PlannedTouchpoint) (e : Effective)
    → violation_of touchpoints (some e) ≡ none
    → Respects touchpoints e
unfolding violation_of
violation_of-none touchpoints e h = λ start.
    let matching = sorted_by_time (select_where (is_on e.platform) touchpoints) in
    let same = matching-count touchpoints e start in
    elim (Bool-cases (leb (length matching) e.limit)) [
      | inl t ↦
          let few : length matching ≤ e.limit = ground (arith, t) in
          let all = count-length (in_window (e.days * microseconds_per_day) start) matching in
          omega (arith, few, all, same)
      | inr f ↦
          let inner =
            first_violation-IsWithin e matching
              (sorted_by_time-InOrder (select_where (is_on e.platform) touchpoints)) (rw f at h)
              start in
          omega (arith, inner, same)
    ]

none-violation_of :
    (touchpoints : List PlannedTouchpoint) (e : Effective)
    → 1 ≤ e.days
    → Respects touchpoints e
    → violation_of touchpoints (some e) ≡ none
unfolding violation_of
none-violation_of touchpoints e d h =
    let matching = sorted_by_time (select_where (is_on e.platform) touchpoints) in
    elim (Bool-cases (leb (length matching) e.limit)) [
      | inl t ↦ rw t refl
      | inr f ↦ rw f (
          IsWithin-first_violation e matching d
            (sorted_by_time-InOrder (select_where (is_on e.platform) touchpoints))
            (λ start.
              let k = h start in
              let same = matching-count touchpoints e start in omega (arith, k, same)))
    ]

-- The calendar respects every cap that can be enforced.
abbrev pub RespectsAll : List PlannedTouchpoint → List HardCap → Type 0
RespectsAll touchpoints caps =
    All (λ (cap : HardCap). (e : Effective) → effective cap ≡ some e → Respects touchpoints e) caps

enforced-respects :
    (touchpoints : List PlannedTouchpoint) (caps : List HardCap)
    → enforce_hard_caps touchpoints caps ≡ []
    → RespectsAll touchpoints caps
unfolding enforce_hard_caps
enforced-respects touchpoints [] h = tt
enforced-respects touchpoints (cap ∷ rest) h =
    let (none_here, none_later) =
      split (violation_of touchpoints (effective cap)) (enforce_hard_caps touchpoints rest) h in
    (
      λ e q. violation_of-none touchpoints e (ap (violation_of touchpoints) (sym q) ∙ none_here),
      enforced-respects touchpoints rest none_later,
    )
  where
    split :
        (o : Option Violation) (l : List Violation) → add_violation o l ≡ [] → (o ≡ none) × (l ≡ [])
    split none l h = (refl, h)
    split (some v) l h = cc

respects-enforced :
    (touchpoints : List PlannedTouchpoint) (caps : List HardCap)
    → RespectsAll touchpoints caps
    → enforce_hard_caps touchpoints caps ≡ []
unfolding enforce_hard_caps
respects-enforced touchpoints [] h = refl
respects-enforced touchpoints (cap ∷ rest) h =
    let ih = respects-enforced touchpoints rest h.1 in
    elim (Option-cases (effective cap)) [
      | inl n ↦ rw (n, ih) refl
      | inr (e, q) ↦
          let here = none-violation_of touchpoints e (effective-days cap e q) (h.0 e q) in
          rw (q, here, ih) refl
    ]

-- The check raises no violation exactly when the calendar respects every cap that can be enforced, that
-- is, one with a platform, a known period and a positive limit: then no window of the cap's length,
-- wherever it begins, holds more touches of the platform than the limit.
pub enforce_hard_caps_iff :
    (touchpoints : List PlannedTouchpoint) (caps : List HardCap)
    → (enforce_hard_caps touchpoints caps ≡ []) ↔ RespectsAll touchpoints caps
enforce_hard_caps_iff touchpoints caps =
    (enforced-respects touchpoints caps, respects-enforced touchpoints caps)
