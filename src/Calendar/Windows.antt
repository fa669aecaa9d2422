-- ===== src/Calendar/Windows.antt =====
-- The sliding windows of `enforce_hard_caps` (app/agents/_calendar.py).
use marketing_agentic_system.Common.{
  ℕ, ◌+◌, ◌*◌, ◌≤◌, ◌≡◌, refl, sym, ◌∙◌, Bool, true, false, ◌&&◌, none, List, [], ◌∷◌, arith, inl,
  inr, Bool-cases, if-false, ltb, leb, if◌then◌else◌, count_where, All, All-map,
}
use marketing_agentic_system.Data.{microseconds_per_day}
use marketing_agentic_system.Calendar.{
  PlannedTouchpoint, Effective, insert_by_time, sorted_by_time, count_window, violation_at,
  first_violation,
}

-- The touch falls into the window that begins at `start`.
abbrev pub in_window : ℕ → ℕ → PlannedTouchpoint → Bool
in_window window start t = leb start t.scheduled_at && ltb t.scheduled_at (start + window)

abbrev pub LaterThan : ℕ → List PlannedTouchpoint → Type 0
LaterThan start l = All (λ (t : PlannedTouchpoint). start ≤ t.scheduled_at) l

-- Sorted by time.
abbrev pub InOrder : List PlannedTouchpoint → Type 0
InOrder [] = Unit
InOrder (t ∷ rest) = LaterThan t.scheduled_at rest × InOrder rest

insert_by_time-LaterThan :
    (start : ℕ) (t : PlannedTouchpoint) (l : List PlannedTouchpoint)
    → start ≤ t.scheduled_at
    → LaterThan start l
    → LaterThan start (insert_by_time t l)
unfolding insert_by_time
insert_by_time-LaterThan start t [] h k = (h, tt)
insert_by_time-LaterThan start t (u ∷ rest) h k =
    elim (Bool-cases (leb t.scheduled_at u.scheduled_at)) [
      | inl e ↦ rw e (h, k)
      | inr e ↦ rw e (k.0, insert_by_time-LaterThan start t rest h k.1)
    ]

insert_by_time-InOrder :
    (t : PlannedTouchpoint) (l : List PlannedTouchpoint) → InOrder l → InOrder (insert_by_time t l)
unfolding insert_by_time
insert_by_time-InOrder t [] h = (tt, tt)
insert_by_time-InOrder t (u ∷ rest) h = elim (Bool-cases (leb t.scheduled_at u.scheduled_at)) [
  | inl e ↦
      let le : t.scheduled_at ≤ u.scheduled_at = ground (arith, e) in
      let after =
        All-map (λ (x : PlannedTouchpoint). u.scheduled_at ≤ x.scheduled_at)
          (λ (x : PlannedTouchpoint). t.scheduled_at ≤ x.scheduled_at) rest
          (λ x k. omega (arith, le, k)) h.0 in
      rw e ((le, after), h)
  | inr e ↦
      let le : u.scheduled_at ≤ t.scheduled_at = ground (arith, e) in
      rw e
        (insert_by_time-LaterThan u.scheduled_at t rest le h.0, insert_by_time-InOrder t rest h.1)
]

pub sorted_by_time-InOrder : (l : List PlannedTouchpoint) → InOrder (sorted_by_time l)
unfolding sorted_by_time
sorted_by_time-InOrder [] = tt
sorted_by_time-InOrder (t ∷ rest) =
    insert_by_time-InOrder t (sorted_by_time rest) (sorted_by_time-InOrder rest)

insert_by_time-count :
    (p : PlannedTouchpoint → Bool) (t : PlannedTouchpoint) (l : List PlannedTouchpoint)
    → count_where p (insert_by_time t l) ≡ (if p t then 1 else 0) + count_where p l
unfolding insert_by_time
insert_by_time-count p t [] = refl
insert_by_time-count p t (u ∷ rest) =
    let ih = insert_by_time-count p t rest in
    elim (Bool-cases (leb t.scheduled_at u.scheduled_at)) [
      | inl e ↦ rw e refl
      | inr e ↦ rw e (omega (arith, ih))
    ]

-- Sorting keeps every count.
pub sorted_by_time-count :
    (p : PlannedTouchpoint → Bool) (l : List PlannedTouchpoint)
    → count_where p (sorted_by_time l) ≡ count_where p l
unfolding sorted_by_time
sorted_by_time-count p [] = refl
sorted_by_time-count p (t ∷ rest) =
    let ih = sorted_by_time-count p rest in
    let e = insert_by_time-count p t (sorted_by_time rest) in omega (arith, e, ih)

-- No window holds more than the limit, wherever it begins.
abbrev pub IsWithin : ℕ → ℕ → List PlannedTouchpoint → Type 0
IsWithin window limit l = (start : ℕ) → count_where (in_window window start) l ≤ limit

none_left :
    (window start : ℕ) (l : List PlannedTouchpoint)
    → LaterThan (start + window) l
    → count_where (in_window window start) l ≡ 0
none_left window start [] h = refl
none_left window start (t ∷ rest) h =
    let late = h.0 in
    let e : ltb t.scheduled_at (start + window) ≡ false = ground (arith, late) in
    let ih = none_left window start rest h.1 in
    let out : in_window window start t ≡ false = ground (arith, e) in rw out (omega (arith, ih))

-- In order, the inner loop counts the whole window.
count_window-bound :
    (window start : ℕ) (l : List PlannedTouchpoint)
    → LaterThan start l
    → InOrder l
    → count_window window start l ≡ count_where (in_window window start) l
unfolding count_window
count_window-bound window start [] h o = refl
count_window-bound window start (t ∷ rest) h o =
    let ih = count_window-bound window start rest h.1 o.1 in
    elim (Bool-cases (ltb t.scheduled_at (start + window))) [
      | inl e ↦
          let early = h.0 in
          let k : leb start t.scheduled_at ≡ true = ground (arith, early) in rw (e, k, ih) refl
      | inr e ↦
          let late : start + window ≤ t.scheduled_at = ground (arith, e) in
          let after =
            All-map (λ (x : PlannedTouchpoint). t.scheduled_at ≤ x.scheduled_at)
              (λ (x : PlannedTouchpoint). start + window ≤ x.scheduled_at) rest
              (λ x k. omega (arith, late, k)) o.0 in
          let zero = none_left window start (t ∷ rest) (late, after) in
          if-false (1 + count_window window start rest) 0 e ∙ sym zero
    ]

-- A window that begins before the first touch holds no more than the first touch's own.
first_window :
    (window start first : ℕ) (l : List PlannedTouchpoint)
    → start ≤ first
    → LaterThan first l
    → count_where (in_window window start) l ≤ count_where (in_window window first) l
first_window window start first [] h k = omega arith
first_window window start first (t ∷ rest) h k =
    let ih = first_window window start first rest h k.1 in
    let after = k.0 in
    elim (Bool-cases (in_window window start t)) [
      | inl e ↦
          let f : in_window window first t ≡ true = ground (arith, e, h, after) in
          rw (e, f) (omega (arith, ih))
      | inr e ↦ rw e (omega (arith, ih))
    ]

-- The observed count of an anchor.
observed : Effective → PlannedTouchpoint → List PlannedTouchpoint → ℕ
observed cap t rest = 1 + count_window (cap.days * microseconds_per_day) t.scheduled_at rest

first_violation-none :
    (cap : Effective) (t : PlannedTouchpoint) (rest : List PlannedTouchpoint)
    → first_violation cap (t ∷ rest) ≡ none
    → (observed cap t rest ≤ cap.limit) × (first_violation cap rest ≡ none)
unfolding first_violation violation_at observed
first_violation-none cap t rest h = elim (Bool-cases (ltb cap.limit (observed cap t rest))) [
  | inl e ↦ cc (rw e at h)
  | inr e ↦ (ground (arith, e), rw e at h)
]

pub first_violation-IsWithin :
    (cap : Effective) (l : List PlannedTouchpoint)
    → InOrder l
    → first_violation cap l ≡ none
    → IsWithin (cap.days * microseconds_per_day) cap.limit l
unfolding observed
first_violation-IsWithin cap [] o h = λ start. omega arith
first_violation-IsWithin cap (t ∷ rest) o h = λ start.
    let window = cap.days * microseconds_per_day in
    let (few, later) = first_violation-none cap t rest h in
    let ih = first_violation-IsWithin cap rest o.1 later start in
    elim (Bool-cases (leb start t.scheduled_at)) [
      | inr e ↦
          let out : in_window window start t ≡ false = ground (arith, e) in
          rw out (omega (arith, ih))
      | inl e ↦
          let before : start ≤ t.scheduled_at = ground (arith, e) in
          let same = count_window-bound window t.scheduled_at rest o.0 o.1 in
          let fewer = first_window window start t.scheduled_at rest before o.0 in
          let one = at_most_one (in_window window start t) in omega (arith, few, same, fewer, one)
    ]
  where
    at_most_one : (b : Bool) → (if b then 1 else 0) ≤ 1
    at_most_one b = ground arith

pub IsWithin-first_violation :
    (cap : Effective) (l : List PlannedTouchpoint)
    → 1 ≤ cap.days
    → InOrder l
    → IsWithin (cap.days * microseconds_per_day) cap.limit l
    → first_violation cap l ≡ none
unfolding first_violation violation_at
IsWithin-first_violation cap [] d o h = refl
IsWithin-first_violation cap (t ∷ rest) d o h =
    let window = cap.days * microseconds_per_day in
    let same = count_window-bound window t.scheduled_at rest o.0 o.1 in
    let all = h t.scheduled_at in
    let positive : 1 ≤ window = omega (arith, d) in
    let own : in_window window t.scheduled_at t ≡ true = ground (arith, positive) in
    let all' : 1 + count_where (in_window window t.scheduled_at) rest ≤ cap.limit = rw own at all in
    let e : ltb cap.limit (1 + count_window window t.scheduled_at rest) ≡ false =
      ground (arith, same, all') in
    let ih =
      IsWithin-first_violation cap rest d o.1 (λ start. let k = h start in omega (arith, k)) in
    rw e ih
