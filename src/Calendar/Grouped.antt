-- ===== src/Calendar/Grouped.antt =====
-- How `detect_frequency_warnings` of app/agents/_calendar.py splits the touches by audience.
use marketing_agentic_system.Common.{
  ℕ, ◌+◌, ◌≡◌, refl, sym, ◌∙◌, Bool, true, false, ◌&&◌, ◌==◌, List, [], ◌∷◌, ◌++◌, arith, inl, inr,
  Bool-cases, if◌then◌else◌, count_where, count_where-append, All, All-append,
}
use marketing_agentic_system.Calendar.{PlannedTouchpoint}
use marketing_agentic_system.Calendar.Frequency.{add_to_audience, by_audience_from}

abbrev pub Group : Type 0
Group = ℕ × List PlannedTouchpoint

abbrev pub is_of : ℕ → PlannedTouchpoint → Bool
is_of audience_id t = t.audience_id == audience_id

-- The group holds the touches seen of its audience, and no others.
pub record Own (seen : List PlannedTouchpoint) (g : Group) : Type 0 where
  pub same : All (λ (t : PlannedTouchpoint). is_of g.0 t ≡ true) g.1
  pub counted :
      (q : PlannedTouchpoint → Bool)
      → count_where q g.1 ≡ count_where (λ (t : PlannedTouchpoint). is_of g.0 t && q t) seen

abbrev Missing : ℕ → List Group → Type 0
Missing audience_id groups = All (λ (g : Group). (audience_id == g.0) ≡ false) groups

abbrev Distinct : List Group → Type 0
Distinct [] = Unit
Distinct (g ∷ rest) = Missing g.0 rest × Distinct rest

abbrev pub total : (PlannedTouchpoint → Bool) → List Group → ℕ
total q [] = 0
total q (g ∷ rest) = count_where q g.1 + total q rest

add_to_audience-Missing :
    (k : ℕ) (tp : PlannedTouchpoint) (groups : List Group)
    → (k == tp.audience_id) ≡ false
    → Missing k groups
    → Missing k (add_to_audience tp groups)
unfolding add_to_audience
add_to_audience-Missing k tp [] e h = (e, tt)
add_to_audience-Missing k tp ((a, l) ∷ others) e h = elim (Bool-cases (a == tp.audience_id)) [
  | inl t ↦ rw t h
  | inr f ↦ rw f (h.0, add_to_audience-Missing k tp others e h.1)
]

add_to_audience-Distinct :
    (tp : PlannedTouchpoint) (groups : List Group)
    → Distinct groups
    → Distinct (add_to_audience tp groups)
unfolding add_to_audience
add_to_audience-Distinct tp [] h = (tt, tt)
add_to_audience-Distinct tp ((a, l) ∷ others) h = elim (Bool-cases (a == tp.audience_id)) [
  | inl t ↦ rw t h
  | inr f ↦ rw f (add_to_audience-Missing a tp others f h.0, add_to_audience-Distinct tp others h.1)
]

add_to_audience-total :
    (q : PlannedTouchpoint → Bool) (tp : PlannedTouchpoint) (groups : List Group)
    → total q (add_to_audience tp groups) ≡ (if q tp then 1 else 0) + total q groups
unfolding add_to_audience
add_to_audience-total q tp [] = omega arith
add_to_audience-total q tp ((a, l) ∷ others) =
    let ih = add_to_audience-total q tp others in
    let joined = count_where-append q l (tp ∷ []) in
    elim (Bool-cases (a == tp.audience_id)) [
      | inl t ↦ rw t (omega (arith, joined))
      | inr f ↦ rw f (omega (arith, ih))
    ]

-- A touch of another audience leaves a group as it is.
Own-other :
    (tp : PlannedTouchpoint) (seen : List PlannedTouchpoint) (g : Group)
    → is_of g.0 tp ≡ false
    → Own seen g
    → Own (tp ∷ seen) g
Own-other tp seen g f own = record {
  same = own.same;
  counted = λ q. let e = own.counted q in rw f (omega (arith, e));
}

Own-joined :
    (tp : PlannedTouchpoint) (seen l : List PlannedTouchpoint) (a : ℕ)
    → is_of a tp ≡ true
    → Own seen (a, l)
    → Own (tp ∷ seen) (a, l ++ (tp ∷ []))
Own-joined tp seen l a t own = record {
  same = All-append (λ (x : PlannedTouchpoint). is_of a x ≡ true) l (tp ∷ []) own.same (t, tt);
  counted = λ q.
      let e = own.counted q in
      let joined = count_where-append q l (tp ∷ []) in rw t (omega (arith, e, joined));
}

others-Own :
    (tp : PlannedTouchpoint) (seen : List PlannedTouchpoint) (a : ℕ) (groups : List Group)
    → (a == tp.audience_id) ≡ true
    → Missing a groups
    → All (Own seen) groups
    → All (Own (tp ∷ seen)) groups
others-Own tp seen a [] t m own = tt
others-Own tp seen a (g ∷ rest) t m own =
    let apart = m.0 in
    let theirs : is_of g.0 tp ≡ false = ground (arith, apart, t) in
    (Own-other tp seen g theirs own.0, others-Own tp seen a rest t m.1 own.1)

-- None of an audience has been seen, unless it has a group.
abbrev Unseen : PlannedTouchpoint → List PlannedTouchpoint → List Group → Type 0
Unseen tp seen groups =
    Missing tp.audience_id groups
    → (q : PlannedTouchpoint → Bool)
    → count_where (λ (t : PlannedTouchpoint). is_of tp.audience_id t && q t) seen ≡ 0

add_to_audience-Own :
    (tp : PlannedTouchpoint) (seen : List PlannedTouchpoint) (groups : List Group)
    → All (Own seen) groups
    → Distinct groups
    → Unseen tp seen groups
    → All (Own (tp ∷ seen)) (add_to_audience tp groups)
unfolding add_to_audience
add_to_audience-Own tp seen [] own d unseen =
    let self : is_of tp.audience_id tp ≡ true = ground arith in
    (
      record {
        same = (self, tt);
        counted = λ q. let e = unseen tt q in rw self (omega (arith, e));
      },
      tt,
    )
add_to_audience-Own tp seen ((a, l) ∷ others) own d unseen =
    elim (Bool-cases (a == tp.audience_id)) [
      | inl t ↦
          let mine : is_of a tp ≡ true = ground (arith, t) in
          rw t (Own-joined tp seen l a mine own.0, others-Own tp seen a others t d.0 own.1)
      | inr f ↦
          let theirs : is_of a tp ≡ false = ground (arith, f) in
          rw f (
            Own-other tp seen (a, l) theirs own.0,
            add_to_audience-Own tp seen others own.1 d.1
                (λ missing. unseen (ground (arith, f), missing)),
          )
    ]

-- What the groups know of the touches seen.
pub record IsGrouped (seen : List PlannedTouchpoint) (groups : List Group) : Type 0 where
  pub own : All (Own seen) groups
  pub distinct : Distinct groups
  pub kept : (q : PlannedTouchpoint → Bool) → total q groups ≡ count_where q seen

none_of :
    (a b : ℕ) (q : PlannedTouchpoint → Bool) (l : List PlannedTouchpoint)
    → (a == b) ≡ false
    → All (λ (t : PlannedTouchpoint). is_of b t ≡ true) l
    → count_where (λ (t : PlannedTouchpoint). is_of a t && q t) l ≡ 0
none_of a b q [] e h = refl
none_of a b q (t ∷ rest) e h =
    let ih = none_of a b q rest e h.1 in
    let hers = h.0 in
    let out : is_of a t ≡ false = ground (arith, e, hers) in rw out (omega (arith, ih))

total-Missing :
    (seen : List PlannedTouchpoint) (a : ℕ) (q : PlannedTouchpoint → Bool) (groups : List Group)
    → All (Own seen) groups
    → Missing a groups
    → total (λ (t : PlannedTouchpoint). is_of a t && q t) groups ≡ 0
total-Missing seen a q [] own m = refl
total-Missing seen a q (g ∷ rest) own m =
    let here = none_of a g.0 q g.1 m.0 own.0.same in
    let ih = total-Missing seen a q rest own.1 m.1 in omega (arith, here, ih)

add_to_audience-IsGrouped :
    (tp : PlannedTouchpoint) (seen : List PlannedTouchpoint) (groups : List Group)
    → IsGrouped seen groups
    → IsGrouped (tp ∷ seen) (add_to_audience tp groups)
add_to_audience-IsGrouped tp seen groups g = record {
  own = add_to_audience-Own tp seen groups g.own g.distinct (λ missing q.
      sym (g.kept (λ (t : PlannedTouchpoint). is_of tp.audience_id t && q t))
      ∙ total-Missing seen tp.audience_id q groups g.own missing);
  distinct = add_to_audience-Distinct tp groups g.distinct;
  kept = λ q. let e = add_to_audience-total q tp groups in let k = g.kept q in omega (arith, e, k);
}

-- The touches of a list after those seen, the last first.
abbrev pub onto : List PlannedTouchpoint → List PlannedTouchpoint → List PlannedTouchpoint
onto seen [] = seen
onto seen (tp ∷ rest) = onto (tp ∷ seen) rest

pub by_audience_from-IsGrouped :
    (seen : List PlannedTouchpoint) (groups : List Group) (touchpoints : List PlannedTouchpoint)
    → IsGrouped seen groups
    → IsGrouped (onto seen touchpoints) (by_audience_from groups touchpoints)
unfolding by_audience_from
by_audience_from-IsGrouped seen groups [] g = g
by_audience_from-IsGrouped seen groups (tp ∷ rest) g =
    by_audience_from-IsGrouped (tp ∷ seen) (add_to_audience tp groups) rest
      (add_to_audience-IsGrouped tp seen groups g)

pub onto-count :
    (q : PlannedTouchpoint → Bool) (seen l : List PlannedTouchpoint)
    → count_where q (onto seen l) ≡ count_where q seen + count_where q l
onto-count q seen [] = omega arith
onto-count q seen (tp ∷ rest) = let ih = onto-count q (tp ∷ seen) rest in omega (arith, ih)
