-- ===== src/Calendar/Crowded.antt =====
-- Which touches `detect_frequency_warnings` of app/agents/_calendar.py marks.
use marketing_agentic_system.Common.{
  ℕ, zero, suc, ◌+◌, ◌*◌, ◌≤◌, ◌≡◌, refl, ◌∙◌, Bool, false, Option, List, [], ◌∷◌, arith, inl, inr,
  Bool-cases, ltb, length, min, is_some, select_where, count_where, All, All-map, All-of_Row,
}
use marketing_agentic_system.Calendar.{PlannedTouchpoint, sorted_by_time}
use marketing_agentic_system.Calendar.Windows.{
  LaterThan, InOrder, sorted_by_time-InOrder, sorted_by_time-count,
}
use marketing_agentic_system.Calendar.Frequency.{
  FrequencyWarning, leading, is_close, in_window_count, warning_of, warn_each, warn_audience,
}

-- Once `p` fails, it fails for the rest.
abbrev StopsOnce : (PlannedTouchpoint → Bool) → List PlannedTouchpoint → Type 0
StopsOnce p [] = Unit
StopsOnce p (t ∷ rest) = (p t ≡ false → count_where p rest ≡ 0) × StopsOnce p rest

length-select_where :
    (p : PlannedTouchpoint → Bool) (l : List PlannedTouchpoint)
    → length (select_where p l) ≡ count_where p l
length-select_where p [] = refl
length-select_where p (t ∷ rest) =
    let ih = length-select_where p rest in
    elim (Bool-cases (p t)) [ inl e ↦ rw e (omega (arith, ih)) | inr e ↦ rw e (omega (arith, ih)) ]

count_where-leading :
    (p : PlannedTouchpoint → Bool) (n : ℕ) (l : List PlannedTouchpoint)
    → StopsOnce p l
    → count_where p (leading n l) ≡ min n (count_where p l)
unfolding leading
count_where-leading p zero l h = omega arith
count_where-leading p (suc n) [] h = omega arith
count_where-leading p (suc n) (t ∷ rest) h =
    let ih = count_where-leading p n rest h.1 in
    elim (Bool-cases (p t)) [
      | inl e ↦ rw e (omega (arith, ih))
      | inr e ↦ let none_left = h.0 e in rw e (omega (arith, ih, none_left))
    ]

none_close :
    (window : ℕ) (anchor : PlannedTouchpoint) (l : List PlannedTouchpoint)
    → All (λ (t : PlannedTouchpoint). is_close window anchor t ≡ false) l
    → count_where (is_close window anchor) l ≡ 0
none_close window anchor [] h = refl
none_close window anchor (t ∷ rest) h =
    let ih = none_close window anchor rest h.1 in let out = h.0 in rw out (omega (arith, ih))

later-StopsOnce :
    (window : ℕ) (anchor : PlannedTouchpoint) (l : List PlannedTouchpoint)
    → LaterThan anchor.scheduled_at l
    → InOrder l
    → StopsOnce (is_close window anchor) l
later-StopsOnce window anchor [] h o = tt
later-StopsOnce window anchor (t ∷ rest) h o =
    let after = h.0 in
    (
      λ far. none_close window anchor rest (
          All-map (λ (x : PlannedTouchpoint). t.scheduled_at ≤ x.scheduled_at)
            (λ (x : PlannedTouchpoint). is_close window anchor x ≡ false) rest
            (λ x k. ground (arith, far, after, k)) o.0),
      later-StopsOnce window anchor rest h.1 o.1,
    )

abbrev EarlierThan : ℕ → List PlannedTouchpoint → Type 0
EarlierThan at l = All (λ (t : PlannedTouchpoint). t.scheduled_at ≤ at) l

-- Sorted by time, the latest first.
abbrev InReverse : List PlannedTouchpoint → Type 0
InReverse [] = Unit
InReverse (t ∷ rest) = EarlierThan t.scheduled_at rest × InReverse rest

earlier-StopsOnce :
    (window : ℕ) (anchor : PlannedTouchpoint) (l : List PlannedTouchpoint)
    → EarlierThan anchor.scheduled_at l
    → InReverse l
    → StopsOnce (is_close window anchor) l
earlier-StopsOnce window anchor [] h o = tt
earlier-StopsOnce window anchor (t ∷ rest) h o =
    let before = h.0 in
    (
      λ far. none_close window anchor rest (
          All-map (λ (x : PlannedTouchpoint). x.scheduled_at ≤ t.scheduled_at)
            (λ (x : PlannedTouchpoint). is_close window anchor x ≡ false) rest
            (λ x k. ground (arith, far, before, k)) o.0),
      earlier-StopsOnce window anchor rest h.1 o.1,
    )

warning_of-is_some : (cap window count : ℕ) → is_some (warning_of cap window count) ≡ ltb cap count
unfolding warning_of
warning_of-is_some cap window count = elim (Bool-cases (ltb cap count)) [
  | inl e ↦ rw e refl
  | inr e ↦ rw e refl
]

-- A touch has a warning exactly where more than `cap` of all the touches are close to it.
abbrev pub IsMarked :
    ℕ → ℕ → List PlannedTouchpoint → PlannedTouchpoint × Option FrequencyWarning → Type 0
IsMarked cap window all marked =
    is_some marked.1 ≡ ltb cap (count_where (is_close window marked.0) all)

wide_enough :
    (cap x y : ℕ) → 1 ≤ cap → ltb cap (min (cap * 2) x + min (cap * 2 + 1) y) ≡ ltb cap (x + y)
wide_enough cap x y positive = elim (Bool-cases (ltb cap (x + y))) [
  | inl e ↦ ground (arith, e, positive)
  | inr e ↦ ground (arith, e, positive)
]

-- The slice is wide enough to tell.
slice_tells :
    (cap window : ℕ) (anchor : PlannedTouchpoint) (before rest : List PlannedTouchpoint)
    → 1 ≤ cap
    → EarlierThan anchor.scheduled_at before
    → InReverse before
    → LaterThan anchor.scheduled_at rest
    → InOrder rest
    → ltb cap (in_window_count cap window anchor before (anchor ∷ rest))
      ≡ ltb cap (
          count_where (is_close window anchor) before
          + count_where (is_close window anchor) (anchor ∷ rest))
unfolding in_window_count
slice_tells cap window anchor before rest positive h o k r =
    let p = is_close window anchor in
    let b =
      length-select_where p (leading (cap * 2) before)
      ∙ count_where-leading p (cap * 2) before (earlier-StopsOnce window anchor before h o) in
    let self : anchor.scheduled_at ≤ anchor.scheduled_at = omega arith in
    let a =
      length-select_where p (leading (cap * 2 + 1) (anchor ∷ rest))
      ∙ count_where-leading p (cap * 2 + 1) (anchor ∷ rest)
          (later-StopsOnce window anchor (anchor ∷ rest) (self, k) (k, r)) in
    rw (b, a) (wide_enough cap (count_where p before) (count_where p (anchor ∷ rest)) positive)

passed_anchor :
    (anchor : PlannedTouchpoint) (before l : List PlannedTouchpoint)
    → All (λ (t : PlannedTouchpoint). EarlierThan t.scheduled_at before) l
    → LaterThan anchor.scheduled_at l
    → All (λ (t : PlannedTouchpoint). EarlierThan t.scheduled_at (anchor ∷ before)) l
passed_anchor anchor before [] h k = tt
passed_anchor anchor before (t ∷ rest) h k = ((k.0, h.0), passed_anchor anchor before rest h.1 k.1)

warn_each-IsMarked :
    (cap window : ℕ) (all before l : List PlannedTouchpoint)
    → 1 ≤ cap
    → InReverse before
    → InOrder l
    → All (λ (t : PlannedTouchpoint). EarlierThan t.scheduled_at before) l
    → ((p : PlannedTouchpoint → Bool) → count_where p before + count_where p l ≡ count_where p all)
    → All (IsMarked cap window all) (warn_each cap window before l)
unfolding warn_each
warn_each-IsMarked cap window all before [] positive o r h total = tt
warn_each-IsMarked cap window all before (anchor ∷ rest) positive o r h total =
    let told = slice_tells cap window anchor before rest positive h.0 o r.0 r.1 in
    let count = total (is_close window anchor) in
    let mark : IsMarked cap window all
        (anchor, warning_of cap window (in_window_count cap window anchor before (anchor ∷ rest))) =
      warning_of-is_some cap window (in_window_count cap window anchor before (anchor ∷ rest))
      ∙ told
      ∙ rw count refl in
    (
      mark,
      warn_each-IsMarked cap window all (anchor ∷ before) rest positive (h.0, o) r.1
          (passed_anchor anchor before rest h.1 r.0) (λ p. let e = total p in omega (arith, e)),
    )

-- Every touch of an audience comes back with a warning exactly where more than `cap` of the audience's
-- touches are less than `window` away from it, if `cap` is at least 1.
pub warn_audience-IsMarked :
    (cap window : ℕ) (audience_touches : List PlannedTouchpoint)
    → 1 ≤ cap
    → All (IsMarked cap window audience_touches) (warn_audience cap window audience_touches)
unfolding warn_audience
warn_audience-IsMarked cap window audience_touches positive =
    warn_each-IsMarked cap window audience_touches [] (sorted_by_time audience_touches) positive tt
      (sorted_by_time-InOrder audience_touches)
      (All-of_Row (λ (t : PlannedTouchpoint). EarlierThan t.scheduled_at [])
        (sorted_by_time audience_touches) (λ t r. tt))
      (λ p. let e = sorted_by_time-count p audience_touches in omega (arith, e))
