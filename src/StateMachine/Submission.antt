-- ===== src/StateMachine/Submission.antt =====
-- The transition `submit_for_approval` of app/orchestrator/state_machine.py.
use marketing_agentic_system.Common.{
  ℕ, ◌≡◌, refl, sym, subst, true, false, ◌&&◌, some, arith, inl, inr, Bool-cases, Row, All, All-Row,
  All-of_Row, All-update_where, Row-update_where, any_where-false, any_where-true, find_where,
  if◌then◌else◌, ◌==◌,
}
use marketing_agentic_system.Data.{
  CampaignStatus, Campaign, ContentAsset, TenantApprovalSettings, ApprovalThreshold, Db, Result, ok,
  err, guard_failed,
}
use marketing_agentic_system.StateMachine.{
  has_transition_key, passes, enter, moved, record_move, take,
}
use marketing_agentic_system.StateMachine.Guards.{
  is_required_of, some_required, is_unfinished, is_drafted, compliance_blocked, is_submittable,
  submitted, threshold_snapshot, all_required_assets_drafted,
  flip_drafted_assets_to_pending_approval,
}
use marketing_agentic_system.StateMachine.Machine.{
  submit_for_approval, Hooks, campaign_sm, apply_campaign,
}

-- What is true of each asset once its campaign waits for approval.
abbrev pub IsSubmitted : ℕ → ContentAsset → Type 0
IsSubmitted campaign a =
    is_required_of campaign a ≡ true
    → (is_unfinished a.status ≡ false)
      × (is_drafted a.status ≡ false)
      × (compliance_blocked a ≡ false)

submitted-IsSubmitted :
    (now campaign : ℕ) (s : ApprovalThreshold) (a : ContentAsset)
    → (is_required_of campaign a && is_unfinished a.status ≡ false)
      × (is_required_of campaign a && compliance_blocked a ≡ false)
    → IsSubmitted campaign (if is_submittable campaign a then submitted now s a else a)
unfolding is_submittable submitted is_required_of is_drafted is_unfinished compliance_blocked
submitted-IsSubmitted now campaign s a h = ground arith

guard_rows :
    (now : ℕ) (db : Db) (c : Campaign)
    → all_required_assets_drafted now db c ≡ true
    → All
        (λ a.
          (is_required_of c.id a && is_unfinished a.status ≡ false)
          × (is_required_of c.id a && compliance_blocked a ≡ false))
        db.assets
unfolding all_required_assets_drafted some_required
guard_rows now db c h =
    let u =
      any_where-false (λ a. is_required_of c.id a && is_unfinished a.status) db.assets
        (ground arith) in
    let b =
      any_where-false (λ a. is_required_of c.id a && compliance_blocked a) db.assets
        (ground arith) in
    All-of_Row _ db.assets (λ a r. (All-Row _ r u, All-Row _ r b))

-- The thresholds of the campaign's tenant at this time.
abbrev pub snapshot_at : ℕ → Db → Campaign → ApprovalThreshold
snapshot_at now db c =
    threshold_snapshot now
      (find_where (λ (s : TenantApprovalSettings). s.tenant_id == c.tenant_id) db.approval_settings)

-- A submission that went through.
pub record Submitted (now : ℕ) (db : Db) (c : Campaign) (end : Db × Campaign) : Type 0 where
  pub pending : end.1.status ≡ CampaignStatus.approval_pending
  pub finished : All (IsSubmitted c.id) end.0.assets
  pub present : (a : ContentAsset) × Row a db.assets × (is_required_of c.id a ≡ true)
  pub flipped :
      (a : ContentAsset)
      → Row a db.assets
      → is_submittable c.id a ≡ true
      → Row (submitted now (snapshot_at now db c) a) end.0.assets
  pub kept :
      (a : ContentAsset) → Row a db.assets → is_submittable c.id a ≡ false → Row a end.0.assets

pub data Submission (now : ℕ) (db : Db) (c : Campaign) : Result (Db × Campaign) → Type 0 where
  refused : all_required_assets_drafted now db c ≡ false → Submission now db c (err guard_failed)
  accepted : {end : Db × Campaign} → Submitted now db c end → Submission now db c (ok end)

some_required-Row :
    (now : ℕ) (db : Db) (c : Campaign)
    → all_required_assets_drafted now db c ≡ true
    → (a : ContentAsset) × Row a db.assets × (is_required_of c.id a ≡ true)
unfolding all_required_assets_drafted some_required
some_required-Row now db c h =
    let (a, r, t) = any_where-true (λ a. is_required_of c.id a && true) db.assets (ground arith) in
    (a, r, ground arith)

take-Submission :
    (now : ℕ) (db : Db) (c : Campaign)
    → Submission now db c (take now db c (some submit_for_approval))
unfolding take passes enter moved record_move flip_drafted_assets_to_pending_approval
take-Submission now db c = elim (Bool-cases (all_required_assets_drafted now db c)) [
  | inl g ↦
      let s = snapshot_at now db c in
      rw g (
        accepted (record {
          pending = refl;
          finished =
              All-update_where _ (IsSubmitted c.id) (is_submittable c.id) (submitted now s)
                db.assets (submitted-IsSubmitted now c.id s) (guard_rows now db c g);
          present = some_required-Row now db c g;
          flipped = λ a r h.
              rw h at (Row-update_where (is_submittable c.id) (submitted now s) db.assets r);
          kept = λ a r h.
              rw h at (Row-update_where (is_submittable c.id) (submitted now s) db.assets r);
        }))
  | inr g ↦ rw g (refused g)
]

-- A campaign in production is either refused because the guard fails, or submitted. Then it has a
-- required asset, none of those is unfinished, still a draft or blocked by compliance, each required
-- draft now waits for approval under the tenant's thresholds of this moment, and every other asset is
-- as it was.
pub submit_for_approval_lem :
    (hooks : Hooks) (now : ℕ) (db : Db) (c : Campaign)
    → c.status ≡ CampaignStatus.content_in_production
    → Submission now db c (apply_campaign hooks now db c "submit_for_approval")
unfolding apply_campaign campaign_sm has_transition_key
submit_for_approval_lem hooks now db c h =
    subst
      (λ s. Submission now db c (
        take now db c
          (find_where (has_transition_key s "submit_for_approval") (campaign_sm hooks))))
      (sym h) (take-Submission now db c)
