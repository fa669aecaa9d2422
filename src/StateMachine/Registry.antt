-- ===== src/StateMachine/Registry.antt =====
-- What `register` and `apply` promise for any table of transitions.
use marketing_agentic_system.Common.{
  ℕ, ◌≡◌, refl, ◌∙◌, String, Bool, true, Option, none, some, List, [], ◌∷◌, ◌++◌, arith, inl, inr,
  Bool-cases, Option-cases, Row, find_where, find_where-some, if◌then◌else◌, is_some, str_eq_iff,
}
use marketing_agentic_system.Data.{CampaignStatus, Campaign, Db, ok}
use marketing_agentic_system.StateMachine.{
  Transition, StateMachine, OnEnter, same_status, has_transition_key, register, passes, enter,
  moved, record_move, take, apply,
}

pub same_status-eq : (s t : CampaignStatus) → same_status s t ≡ true → s ≡ t
unfolding same_status
same_status-eq s t h = ground arith

find_where-append {ℓ} :
    {A : Type ℓ} (p : A → Bool) (xs : List A) (y : A)
    → find_where p (xs ++ (y ∷ []))
      ≡ (if is_some (find_where p xs) then find_where p xs else (if p y then some y else none))
find_where-append p [] y = refl
find_where-append p (x ∷ xs) y = elim (Bool-cases (p x)) [
  | inl t ↦ rw t
  | inr f ↦ rw f (find_where-append p xs y)
]

key-parts :
    (status : CampaignStatus) (name : String) (t : Transition)
    → has_transition_key status name t ≡ true
    → (t.from_state ≡ status) × (t.name ≡ name)
unfolding has_transition_key
key-parts status name t h =
    (same_status-eq t.from_state status (ground arith), ground (arith, str_eq_iff t.name name))

find-appended :
    (t : Transition) (sm : StateMachine) (status : CampaignStatus) (name : String)
    → find_where (has_transition_key t.from_state t.name) sm ≡ none
    → find_where (has_transition_key status name) (sm ++ (t ∷ [])) ≡ (
        if has_transition_key status name t
        then some t
        else find_where (has_transition_key status name) sm)
find-appended t sm status name e = elim (Bool-cases (has_transition_key status name t)) [
  | inl k ↦
      let (s, n) = key-parts status name t k in
      let free : find_where (has_transition_key status name) sm ≡ none = rw (← s, ← n) e in
      find_where-append _ sm t ∙ rw (free, k) refl
  | inr k ↦
      find_where-append _ sm t
      ∙ rw k (same_or_none (find_where (has_transition_key status name) sm))
]
  where
    same_or_none : (o : Option Transition) → (if is_some o then o else none) ≡ o
    same_or_none none = refl
    same_or_none (some u) = refl

-- A registration is accepted only if its own key was free, and then it changes the answer for that
-- key alone.
pub register-find :
    (t : Transition) (sm sm' : StateMachine) (status : CampaignStatus) (name : String)
    → register t sm ≡ some sm'
    → (find_where (has_transition_key t.from_state t.name) sm ≡ none)
      × (find_where (has_transition_key status name) sm' ≡ (
          if has_transition_key status name t
          then some t
          else find_where (has_transition_key status name) sm))
unfolding register
register-find t sm sm' status name h =
    elim (Option-cases (find_where (has_transition_key t.from_state t.name) sm)) [
      | inl e ↦
          let s : sm ++ (t ∷ []) ≡ sm' = cc (rw e at h) in
          (e, rw (← s) (find-appended t sm status name e))
      | inr (u, e) ↦ cc (rw e at h)
    ]

-- A transition that `apply` may have taken.
pub record Applied (now : ℕ) (sm : StateMachine) (db : Db) (c : Campaign) (name : String)
    (end : Db × Campaign) : Type 0 where
  pub used : Transition
  pub registered : Row used sm
  pub leaves : used.from_state ≡ c.status
  pub named : used.name ≡ name
  pub guarded : passes used.guard now db c ≡ true
  pub arrives : end.1 ≡ moved used c
  pub entered : enter used.on_enter now (record_move used c db) (moved used c) ≡ ok end

enter-campaign :
    (o : Option OnEnter) (now : ℕ) (db : Db) (c : Campaign) (end : Db × Campaign)
    → enter o now db c ≡ ok end
    → end.1 ≡ c
unfolding enter
enter-campaign none now db c end h = cc
enter-campaign (some f) now db c end h = ground arith

take-Applied :
    (now : ℕ) (sm : StateMachine) (db : Db) (c : Campaign) (name : String) (end : Db × Campaign)
    (o : Option Transition)
    → find_where (has_transition_key c.status name) sm ≡ o
    → take now db c o ≡ ok end
    → Applied now sm db c name end
unfolding take
take-Applied now sm db c name end none e h = cc
take-Applied now sm db c name end (some t) e h =
    let (row, key) = find_where-some (has_transition_key c.status name) sm e in
    let (leaves, named) = key-parts c.status name t key in
    elim (Bool-cases (passes t.guard now db c)) [
      | inl p ↦
          let done : enter t.on_enter now (record_move t c db) (moved t c) ≡ ok end = rw p at h in
          record {
            used = t;
            registered = row;
            leaves = leaves;
            named = named;
            guarded = p;
            arrives = enter-campaign t.on_enter now (record_move t c db) (moved t c) end done;
            entered = done;
          }
      | inr p ↦ cc (rw p at h)
    ]

-- `apply` succeeds only by a registered transition that leaves the campaign's status under the given
-- name and whose guard passes, and the campaign arrives in that transition's target status.
pub apply-Applied :
    (now : ℕ) (sm : StateMachine) (db : Db) (c : Campaign) (name : String) (end : Db × Campaign)
    → apply now sm db c name ≡ ok end
    → Applied now sm db c name end
unfolding apply
apply-Applied now sm db c name end h = take-Applied now sm db c name end _ refl h
