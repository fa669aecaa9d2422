-- ===== src/StateMachine/Launch.antt =====
-- The transition `start_launch` of app/orchestrator/state_machine.py, from the guard to the queue.
use marketing_agentic_system.Common.{
  ℕ, ◌≡◌, refl, sym, subst, true, false, not, ◌&&◌, some, arith, inl, inr, Bool-cases, Row, All-Row,
  any_where-false, any_where-true, find_where,
}
use marketing_agentic_system.Data.{
  CampaignStatus, Campaign, ContentAsset, Db, Result, ok, err, guard_failed,
}
use marketing_agentic_system.Distribution.Schedule.{is_approved, is_approved_of}
use marketing_agentic_system.Distribution.Launched.{IsLaunched}
use marketing_agentic_system.Distribution.Launch.{DistinctIds, schedule_approved_assets_lem}
use marketing_agentic_system.StateMachine.{
  has_transition_key, passes, enter, moved, record_move, take,
}
use marketing_agentic_system.StateMachine.Guards.{
  is_required_of, some_required, all_required_assets_approved, start_distribution,
}
use marketing_agentic_system.StateMachine.Machine.{start_launch, Hooks, campaign_sm, apply_campaign}

-- A launch that went through.
pub record Launched (now : ℕ) (db : Db) (c : Campaign) (end : Db × Campaign) : Type 0 where
  pub ready : end.1.status ≡ CampaignStatus.ready_to_launch
  pub present : (a : ContentAsset) × Row a db.assets × (is_required_of c.id a ≡ true)
  pub required :
      (a : ContentAsset)
      → Row a db.assets
      → is_required_of c.id a ≡ true
      → IsLaunched now db.touchpoints a end.0

pub data Launch (now : ℕ) (db : Db) (c : Campaign) : Result (Db × Campaign) → Type 0 where
  refused : all_required_assets_approved now db c ≡ false → Launch now db c (err guard_failed)
  accepted : {end : Db × Campaign} → Launched now db c end → Launch now db c (ok end)

required-approved :
    (now : ℕ) (db : Db) (c : Campaign) (a : ContentAsset)
    → all_required_assets_approved now db c ≡ true
    → Row a db.assets
    → is_required_of c.id a ≡ true
    → is_approved_of c.id a ≡ true
unfolding all_required_assets_approved some_required is_required_of is_approved_of
required-approved now db c a h r q =
    let u =
      any_where-false (λ a. is_required_of c.id a && not (is_approved a.status)) db.assets
        (ground arith) in
    let f = All-Row _ r u in ground (arith, f)

some_required-Row :
    (now : ℕ) (db : Db) (c : Campaign)
    → all_required_assets_approved now db c ≡ true
    → (a : ContentAsset) × Row a db.assets × (is_required_of c.id a ≡ true)
unfolding all_required_assets_approved some_required
some_required-Row now db c h =
    let (a, r, t) = any_where-true (λ a. is_required_of c.id a && true) db.assets (ground arith) in
    (a, r, ground arith)

take-Launch :
    (now : ℕ) (db : Db) (c : Campaign)
    → DistinctIds db.assets
    → Launch now db c (take now db c (some start_launch))
unfolding take passes enter moved record_move start_distribution
take-Launch now db c d = elim (Bool-cases (all_required_assets_approved now db c)) [
  | inl g ↦
      let s =
        schedule_approved_assets_lem now (record_move start_launch c db) (moved start_launch c) d in
      rw g (
        accepted (record {
          ready = refl;
          present = some_required-Row now db c g;
          required = λ a r q. s.0 a r (required-approved now db c a g r q);
        }))
  | inr g ↦ rw g (refused g)
]

-- If the assets' ids are distinct, a campaign that waits for approval is either refused because the
-- guard fails, or launched: it is then ready to launch, has a required asset, and each of its required
-- assets has its slot and, if its type can be dispatched, a queued task that dispatches it then.
pub start_launch_lem :
    (hooks : Hooks) (now : ℕ) (db : Db) (c : Campaign)
    → DistinctIds db.assets
    → c.status ≡ CampaignStatus.approval_pending
    → Launch now db c (apply_campaign hooks now db c "start_launch")
unfolding apply_campaign campaign_sm has_transition_key
start_launch_lem hooks now db c d h =
    subst
      (λ s.
        Launch now db c
          (take now db c (find_where (has_transition_key s "start_launch") (campaign_sm hooks))))
      (sym h) (take-Launch now db c d)
