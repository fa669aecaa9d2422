-- ===== src/Calendar/Warned.antt =====
-- `detect_frequency_warnings` of app/agents/_calendar.py as a whole.
use marketing_agentic_system.Common.{
  ℕ, ◌≤◌, ◌≡◌, refl, ◌∙◌, Bool, true, ◌&&◌, Option, List, [], ◌∷◌, arith, inl, inr, Bool-cases, ltb,
  leb, is_some, count_where, count_where-append, All, All-map, All-append,
}
use marketing_agentic_system.Calendar.{PlannedTouchpoint, insert_by_time, sorted_by_time}
use marketing_agentic_system.Calendar.Windows.{sorted_by_time-count}
use marketing_agentic_system.Calendar.Frequency.{
  FrequencyWarning, is_close, warn_each, warn_audience, by_audience_from, warn_audiences,
  detect_frequency_warnings,
}
use marketing_agentic_system.Calendar.Crowded.{IsMarked, warn_audience-IsMarked}
use marketing_agentic_system.Calendar.Grouped.{
  Group, is_of, Own, total, IsGrouped, by_audience_from-IsGrouped, onto, onto-count,
}

abbrev pub Marked : Type 0
Marked = PlannedTouchpoint × Option FrequencyWarning

-- A touch has a warning exactly where more than `cap` of its audience's touches are close to it.
abbrev pub IsFlagged : ℕ → ℕ → List PlannedTouchpoint → Marked → Type 0
IsFlagged cap window touchpoints marked =
    is_some marked.1
    ≡ ltb cap (
        count_where
          (λ (t : PlannedTouchpoint). is_of marked.0.audience_id t && is_close window marked.0 t)
          touchpoints)

insert_by_time-All :
    (P : PlannedTouchpoint → Type 0) (t : PlannedTouchpoint) (l : List PlannedTouchpoint)
    → P t
    → All P l
    → All P (insert_by_time t l)
unfolding insert_by_time
insert_by_time-All P t [] h k = (h, tt)
insert_by_time-All P t (u ∷ rest) h k = elim (Bool-cases (leb t.scheduled_at u.scheduled_at)) [
  | inl e ↦ rw e (h, k)
  | inr e ↦ rw e (k.0, insert_by_time-All P t rest h k.1)
]

sorted_by_time-All :
    (P : PlannedTouchpoint → Type 0) (l : List PlannedTouchpoint)
    → All P l
    → All P (sorted_by_time l)
unfolding sorted_by_time
sorted_by_time-All P [] h = tt
sorted_by_time-All P (t ∷ rest) h =
    insert_by_time-All P t (sorted_by_time rest) h.0 (sorted_by_time-All P rest h.1)

warn_each-All :
    (P : PlannedTouchpoint → Type 0) (cap window : ℕ) (before l : List PlannedTouchpoint)
    → All P l
    → All (λ (m : Marked). P m.0) (warn_each cap window before l)
unfolding warn_each
warn_each-All P cap window before [] h = tt
warn_each-All P cap window before (t ∷ rest) h =
    (h.0, warn_each-All P cap window (t ∷ before) rest h.1)

warn_each-count :
    (q : PlannedTouchpoint → Bool) (cap window : ℕ) (before l : List PlannedTouchpoint)
    → count_where (λ (m : Marked). q m.0) (warn_each cap window before l) ≡ count_where q l
unfolding warn_each
warn_each-count q cap window before [] = refl
warn_each-count q cap window before (t ∷ rest) =
    let ih = warn_each-count q cap window (t ∷ before) rest in omega (arith, ih)

All-both :
    (P Q : Marked → Type 0) (l : List Marked)
    → All P l
    → All Q l
    → All (λ (m : Marked). P m × Q m) l
All-both P Q [] h k = tt
All-both P Q (m ∷ rest) h k = ((h.0, k.0), All-both P Q rest h.1 k.1)

-- A group's marks, counted in all the touches seen.
group-IsFlagged :
    (cap window : ℕ) (seen : List PlannedTouchpoint) (g : Group)
    → 1 ≤ cap
    → Own seen g
    → All (IsFlagged cap window seen) (warn_audience cap window g.1)
unfolding warn_audience
group-IsFlagged cap window seen g positive own =
    All-map (λ (m : Marked). IsMarked cap window g.1 m × (is_of g.0 m.0 ≡ true))
      (IsFlagged cap window seen) (warn_audience cap window g.1)
      (λ m both.
        let mine = both.1 in
        let at : m.0.audience_id ≡ g.0 = ground (arith, mine) in
        both.0 ∙ rw (at, own.counted (is_close window m.0)) refl)
      (All-both (IsMarked cap window g.1) (λ (m : Marked). is_of g.0 m.0 ≡ true)
        (warn_audience cap window g.1) (warn_audience-IsMarked cap window g.1 positive)
        (warn_each-All (λ (t : PlannedTouchpoint). is_of g.0 t ≡ true) cap window []
          (sorted_by_time g.1)
          (sorted_by_time-All (λ (t : PlannedTouchpoint). is_of g.0 t ≡ true) g.1 own.same)))

warn_audiences-IsFlagged :
    (cap window : ℕ) (seen : List PlannedTouchpoint) (groups : List Group)
    → 1 ≤ cap
    → All (Own seen) groups
    → All (IsFlagged cap window seen) (warn_audiences cap window groups)
unfolding warn_audiences
warn_audiences-IsFlagged cap window seen [] positive own = tt
warn_audiences-IsFlagged cap window seen ((a, l) ∷ rest) positive own =
    All-append (IsFlagged cap window seen) (warn_audience cap window l)
      (warn_audiences cap window rest) (group-IsFlagged cap window seen (a, l) positive own.0)
      (warn_audiences-IsFlagged cap window seen rest positive own.1)

warn_audiences-count :
    (q : PlannedTouchpoint → Bool) (cap window : ℕ) (groups : List Group)
    → count_where (λ (m : Marked). q m.0) (warn_audiences cap window groups) ≡ total q groups
unfolding warn_audiences warn_audience
warn_audiences-count q cap window [] = refl
warn_audiences-count q cap window ((a, l) ∷ rest) =
    let joined =
      count_where-append (λ (m : Marked). q m.0) (warn_audience cap window l)
        (warn_audiences cap window rest) in
    let here = warn_each-count q cap window [] (sorted_by_time l) in
    let sorted = sorted_by_time-count q l in
    let ih = warn_audiences-count q cap window rest in omega (arith, joined, here, sorted, ih)

-- What the run leaves: the warnings of the touches, and every touch as often as before.
pub record Warned (cap window : ℕ) (touchpoints : List PlannedTouchpoint) (marked : List Marked)
    : Type 0 where
  pub flagged : All (IsFlagged cap window touchpoints) marked
  pub same_touches :
      (q : PlannedTouchpoint → Bool)
      → count_where (λ (m : Marked). q m.0) marked ≡ count_where q touchpoints

-- If the cap is at least 1, then after detect_frequency_warnings a touch has a warning exactly where more
-- than `cap` touches of its audience are less than the window away from it, although
-- only the 2 * cap touches before and after it are looked at; and each touch is there as often as before.
pub detect_frequency_warnings-Warned :
    (cap window : ℕ) (touchpoints : List PlannedTouchpoint)
    → 1 ≤ cap
    → Warned cap window touchpoints (detect_frequency_warnings cap window touchpoints)
unfolding detect_frequency_warnings
detect_frequency_warnings-Warned cap window touchpoints positive =
    let groups = by_audience_from [] touchpoints in
    let grouped : IsGrouped (onto [] touchpoints) groups =
      by_audience_from-IsGrouped [] [] touchpoints
        (record { own = tt; distinct = tt; kept = λ q. refl }) in
    let seen = onto [] touchpoints in
    record {
      flagged =
          All-map (IsFlagged cap window seen) (IsFlagged cap window touchpoints)
            (warn_audiences cap window groups)
            (λ m h.
              let q = λ (t : PlannedTouchpoint). is_of m.0.audience_id t && is_close window m.0 t in
              let e : count_where q seen ≡ count_where q touchpoints =
                omega (arith, onto-count q [] touchpoints) in
              h ∙ rw e refl)
            (warn_audiences-IsFlagged cap window seen groups positive grouped.own);
      same_touches = λ q.
          let e = warn_audiences-count q cap window groups in
          let k = grouped.kept q in let o = onto-count q [] touchpoints in omega (arith, e, k, o);
    }
