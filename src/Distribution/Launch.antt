-- ===== src/Distribution/Launch.antt =====
-- `schedule_approved_assets` (app/agents/distribution.py) as the state machine calls it.
use marketing_agentic_system.Common.{
  ℕ, ◌≡◌, ◌≢◌, refl, sym, subst, Bool, true, false, Option, none, some, List, [], ◌∷◌, arith, ◌⊎◌,
  inl, inr, Option-cases, max, Row, first, later, All, All-Row, All-of_Row, Pairs,
  Pairs-select_where, select_where, select_where-Row, select_where-All, select_where-of_Row,
}
use marketing_agentic_system.Data.{AssetStatus, Campaign, ContentAsset, StrategyTouchpoint, Db}
use marketing_agentic_system.Data.Agents.{
  ensure_distribution_agent, ensure_distribution_agent-assets,
}
use marketing_agentic_system.Distribution.Schedule.{
  slotted, place, schedule_all, is_approved_of, schedule_approved_assets,
}
use marketing_agentic_system.Distribution.Scheduled.{HasId}
use marketing_agentic_system.Distribution.Launched.{IsLaunched, each-IsLaunched, each-other}

-- No two rows of the table share an id.
abbrev pub DistinctIds : List ContentAsset → Type 0
DistinctIds = Pairs (λ (x y : ContentAsset). x.id ≢ y.id)

schedule_all-IsLaunched :
    (now : ℕ) (db : Db) (c : Campaign) (l : List ContentAsset) (a : ContentAsset)
    → DistinctIds l
    → All (λ (x : ContentAsset). HasId x.id db.assets) l
    → Row a l
    → IsLaunched now db.touchpoints a (schedule_all now db c l)
unfolding schedule_all
schedule_all-IsLaunched now db c [] a p h r = elim r [ ]
schedule_all-IsLaunched now db c (x ∷ rest) a p h r =
    let (db', agent) = ensure_distribution_agent db c.tenant_id in
    each-IsLaunched now c agent.id db.touchpoints (x ∷ rest) db' a p
      (subst (λ rows. All (λ (y : ContentAsset). HasId y.id rows) (x ∷ rest))
        (sym (ensure_distribution_agent-assets db c.tenant_id)) h)
      r

schedule_all_other :
    (now : ℕ) (db : Db) (c : Campaign) (l : List ContentAsset) (x : ContentAsset)
    → Row x db.assets
    → All (λ (a : ContentAsset). x.id ≢ a.id) l
    → Row x (schedule_all now db c l).assets
unfolding schedule_all
schedule_all_other now db c [] x r h = r
schedule_all_other now db c (a ∷ rest) x r h =
    let (db', agent) = ensure_distribution_agent db c.tenant_id in
    each-other now c agent.id db.touchpoints (a ∷ rest) db' x
      (subst (λ rows. Row x rows) (sym (ensure_distribution_agent-assets db c.tenant_id)) r) h

-- Two rows that a test tells apart have different ids.
pub told_apart :
    (p : ContentAsset → Bool) (l : List ContentAsset) (x a : ContentAsset)
    → DistinctIds l
    → Row x l
    → Row a l
    → p x ≡ false
    → p a ≡ true
    → x.id ≢ a.id
told_apart p [] x a d r s hx ha = elim r [ ]
told_apart p (y ∷ ys) x a d (first e) (first e') hx ha = cc
told_apart p (y ∷ ys) x a d (first e) (later s) hx ha = rw e (All-Row _ s d.0)
told_apart p (y ∷ ys) x a d (later r) (first e) hx ha = λ q. All-Row _ r d.0 (rw (← e) (sym q))
told_apart p (y ∷ ys) x a d (later r) (later s) hx ha = told_apart p ys x a d.1 r s hx ha

-- If the assets' ids are distinct, every approved asset of the campaign gets a slot and, if its type can be dispatched, a queued task
-- that dispatches it at that slot; every other asset is left as it was.
pub schedule_approved_assets_lem :
    (now : ℕ) (db : Db) (c : Campaign)
    → DistinctIds db.assets
    → let db' = schedule_approved_assets now db c in
      ((a : ContentAsset)
        → Row a db.assets
        → is_approved_of c.id a ≡ true
        → IsLaunched now db.touchpoints a db')
      × ((x : ContentAsset) → Row x db.assets → is_approved_of c.id x ≡ false → Row x db'.assets)
unfolding schedule_approved_assets
schedule_approved_assets_lem now db c d =
    let p = is_approved_of c.id in
    let l = select_where p db.assets in
    (
      λ a r h.
          schedule_all-IsLaunched now db c l a (Pairs-select_where _ p db.assets d)
            (All-of_Row _ l (λ x s. (x, select_where-Row p db.assets s, refl)))
            (select_where-of_Row p db.assets r h),
      λ x r h. schedule_all_other now db c l x r (
          All-of_Row _ l λ a s.
            told_apart p db.assets x a d r (select_where-Row p db.assets s) h
              (All-Row _ s (select_where-All p db.assets))),
    )

-- What the loop makes of an asset before its dispatch is enqueued.
pub record IsSlotted (now : ℕ) (o : Option StrategyTouchpoint) (a b : ContentAsset) : Type 0 where
  pub status : b.status ≡ AssetStatus.scheduled
  pub same : (b.id ≡ a.id) × (b.asset_type ≡ a.asset_type) × (b.content ≡ a.content)
  pub on_calendar :
      (t : StrategyTouchpoint) → o ≡ some t → b.scheduled_at ≡ some (max now t.scheduled_at)
  pub off_calendar :
      o ≡ none
      → (slot : ℕ) × (b.scheduled_at ≡ some slot) × ((slot ≡ now) ⊎ (a.scheduled_at ≡ some slot))

-- The loop marks an asset as scheduled and keeps what it is. An asset with a touchpoint gets the later
-- of the touchpoint's time and the time of the launch, and one without keeps a slot of its own or gets
-- the time of the launch.
pub slotted-IsSlotted :
    (now : ℕ) (o : Option StrategyTouchpoint) (a : ContentAsset)
    → IsSlotted now o a (slotted now o a)
unfolding slotted place
slotted-IsSlotted now none a = record {
  status = refl;
  same = (refl, refl, refl);
  on_calendar = λ t h. cc;
  off_calendar = λ h. elim (Option-cases a.scheduled_at) [
    | inl e ↦ (now, ground arith, inl refl)
    | inr (s, e) ↦ (s, ground arith, inr e)
  ];
}
slotted-IsSlotted now (some t) a = record {
  status = ground arith;
  same = (ground arith, ground arith, ground arith);
  on_calendar = λ u h. ground arith;
  off_calendar = λ h. cc;
}
