-- ===== src/Examples/Reviews.antt =====
-- The theorems on the approvals (app/api/approvals.py), at the newsletter of a campaign.
use marketing_agentic_system.Common.{arith, ◌≡◌, refl, ◌↔◌, none, some, [], ◌∷◌, true, false, inl}
use marketing_agentic_system.Data.{
  CampaignStatus, AssetStatus, UserRole, RejectionCategory, ContentAsset, ApprovalDecisionLog,
  Campaign, decimal, Db, Result, ok,
}
use marketing_agentic_system.Approvals.{
  load_asset_and_campaign, load_campaign_of, is_compliance_blocked, is_approvable, is_pending,
  is_below, is_admin, ApproveRequest, evaluate_threshold,
}
use marketing_agentic_system.Approvals.Endpoints.{
  record_approval, approve_asset, is_valid_reason, RejectRequest, record_rejection, reject_asset,
  try_advance_after_approval,
}
use marketing_agentic_system.Approvals.Rejection.{Rejected, reject_asset-Rejected}
use marketing_agentic_system.Approvals.AutoAdvance.{Returns, try_advance_after_approval-Returns}
use marketing_agentic_system.Approvals.DryRun.{Foretells, batch_approve-Foretells}
use marketing_agentic_system.Approvals.Batch.{
  BatchApproveResponse, batch_approve, is_valid_size, passed, screen,
}
use marketing_agentic_system.Approvals.Gate.{
  IsOverThreshold, evaluate_threshold-IsOverThreshold, MayApprove, Approved, approve_asset-Approved,
  approve_asset_total,
}
use marketing_agentic_system.Approvals.Refusals.{Answer, approve_asset-Answer}
use marketing_agentic_system.Approvals.Filters.{IsScreened, screen-IsScreened}
use marketing_agentic_system.Examples.{newsletter, spring, office, no_hooks, no_metadata, reviewer}

abbrev dear : ContentAsset
dear = record (newsletter AssetStatus.pending_approval) {
  extra_metadata = record no_metadata {
    approval_threshold = some (record {
      admin_required_above_amount = some (decimal 4000);
      auto_approval_cap_amount = some (decimal 9000);
      currency = some "USD";
      snapshot_taken_at = some 10;
    });
  };
}

abbrev campaign : Campaign
campaign = spring CampaignStatus.approval_pending

abbrev desk : Db
desk = record (office CampaignStatus.approval_pending AssetStatus.pending_approval) {
  assets = dear ∷ [];
}

abbrev plain_request : ApproveRequest
plain_request = record { edited_content = none; edited_fields = none; note = none }

evaluate_threshold-IsOverThreshold_example :
    ((evaluate_threshold dear campaign).requires_admin ≡ true) ↔ IsOverThreshold dear campaign
evaluate_threshold-IsOverThreshold_example = evaluate_threshold-IsOverThreshold dear campaign

loads : load_asset_and_campaign desk 3 ≡ ok (dear, campaign)
unfolding load_asset_and_campaign load_campaign_of
loads = refl

admin_may : MayApprove (reviewer UserRole.admin) dear campaign
unfolding is_below is_approvable is_compliance_blocked is_admin
admin_may = record { ranked = refl; in_queue = refl; clear = refl; entitled = inl refl }

abbrev approve_desk : Result (Db × ApprovalDecisionLog)
approve_desk = approve_asset no_hooks 40 desk (reviewer UserRole.admin) plain_request 3

approves :
    (db' : Db) × (approve_desk
      ≡ ok (db', (record_approval desk (reviewer UserRole.admin) dear campaign plain_request).1))
approves =
    approve_asset_total no_hooks 40 desk (reviewer UserRole.admin) plain_request 3 dear campaign
      loads admin_may

approve_asset_total_example :
    (db' : Db) × (approve_desk
      ≡ ok (db', (record_approval desk (reviewer UserRole.admin) dear campaign plain_request).1))
approve_asset_total_example =
    approve_asset_total no_hooks 40 desk (reviewer UserRole.admin) plain_request 3 dear campaign
      loads admin_may

approve_asset-Approved_example :
    Approved desk
      (reviewer UserRole.admin)
      3
      (record_approval desk (reviewer UserRole.admin) dear campaign plain_request).1
approve_asset-Approved_example =
    approve_asset-Approved no_hooks 40 desk (reviewer UserRole.admin) plain_request 3 approves.0
      (record_approval desk (reviewer UserRole.admin) dear campaign plain_request).1 approves.1

screen-IsScreened_example : (screen desk (reviewer UserRole.admin) 3 ≡ passed dear campaign) ↔ (
    (load_asset_and_campaign desk 3 ≡ ok (dear, campaign))
    × IsScreened (reviewer UserRole.admin) dear campaign)
screen-IsScreened_example = screen-IsScreened desk (reviewer UserRole.admin) 3 dear campaign

admin_ranked : is_below UserRole.manager (reviewer UserRole.admin) ≡ false
unfolding is_below
admin_ranked = refl

manager_ranked : is_below UserRole.manager (reviewer UserRole.manager) ≡ false
unfolding is_below
manager_ranked = refl

two_fit : is_valid_size (3 ∷ 8 ∷ []) ≡ true
unfolding is_valid_size
two_fit = refl

tone_is_valid : is_valid_reason "tone" ≡ true
unfolding is_valid_reason
tone_is_valid = refl

abbrev off_brand : RejectRequest
off_brand = record { reason = "tone"; category = RejectionCategory.off_voice }

pending : is_pending dear.status ≡ true
unfolding is_pending
pending = refl

reject_asset-Rejected_example :
    (db' : Db) × (reject_asset no_hooks 40 desk (reviewer UserRole.manager) off_brand 3
      ≡ ok (db', (record_rejection desk (reviewer UserRole.manager) off_brand dear).1))
    × Rejected desk (reviewer UserRole.manager) off_brand dear campaign db'
reject_asset-Rejected_example =
    reject_asset-Rejected no_hooks 40 desk (reviewer UserRole.manager) off_brand 3 dear campaign
      manager_ranked tone_is_valid loads pending

try_advance_after_approval-Returns_example :
    Returns
      (try_advance_after_approval no_hooks 40 desk (spring CampaignStatus.content_in_production))
try_advance_after_approval-Returns_example =
    try_advance_after_approval-Returns no_hooks 40 desk
      (spring CampaignStatus.content_in_production)

batch_approve-Foretells_example :
    (dry : BatchApproveResponse) × (real : BatchApproveResponse) × (batch_approve no_hooks 40
        (λ i. none)
        desk
        (reviewer UserRole.admin)
        (3 ∷ 8 ∷ [])
        true
      ≡ ok dry)
    × (batch_approve no_hooks 40 (λ i. none) desk (reviewer UserRole.admin) (3 ∷ 8 ∷ []) false
        ≡ ok real)
    × (dry.db ≡ desk)
    × Foretells dry real
batch_approve-Foretells_example =
    batch_approve-Foretells no_hooks 40 (λ i. none) desk (reviewer UserRole.admin) (3 ∷ 8 ∷ [])
      admin_ranked two_fit ((ground arith, tt), (tt, tt))

approve_asset-Answer_example :
    Answer desk
      (reviewer UserRole.manager)
      plain_request
      3
      (approve_asset no_hooks 40 desk (reviewer UserRole.manager) plain_request 3)
approve_asset-Answer_example =
    approve_asset-Answer no_hooks 40 desk (reviewer UserRole.manager) plain_request 3
