-- ===== src/Approvals/Advance.antt =====
-- The transitions that follow a decision (app/api/approvals.py) never fail the request.
use marketing_agentic_system.Common.{
  ℕ, ◌≡◌, refl, sym, subst, true, arith, inl, inr, Bool-cases, find_where,
}
use marketing_agentic_system.Data.{CampaignStatus, Campaign, Db, Result, ok}
use marketing_agentic_system.StateMachine.{has_transition_key, passes, enter, take, apply}
use marketing_agentic_system.StateMachine.Guards.{
  all_required_assets_approved, start_distribution, any_required_asset_rejected,
}
use marketing_agentic_system.StateMachine.Machine.{Hooks, campaign_sm, apply_campaign}
use marketing_agentic_system.Approvals.{is_awaiting_approval, unless_refused}
use marketing_agentic_system.Approvals.Endpoints.{
  maybe_advance_to_ready_to_launch, maybe_revert_to_content_in_production,
}

pub awaiting-pending :
    (s : CampaignStatus) → is_awaiting_approval s ≡ true → s ≡ CampaignStatus.approval_pending
unfolding is_awaiting_approval
awaiting-pending s h = ground arith

abbrev pub IsOk : Result Db → Type 0
IsOk r = (db : Db) × (r ≡ ok db)

module _ (hooks : Hooks) (now : ℕ) (db : Db) (c : Campaign) where
  launch-IsOk : IsOk (
      unless_refused db (
        take now db c (
          find_where
            (has_transition_key CampaignStatus.approval_pending "start_launch")
            (campaign_sm hooks))))
  unfolding campaign_sm has_transition_key take passes enter start_distribution unless_refused
  launch-IsOk = elim (Bool-cases (all_required_assets_approved now db c)) [
    | inl g ↦ rw g (_, refl)
    | inr g ↦ rw g (_, refl)
  ]

  revert-IsOk : IsOk (
      unless_refused db (
        take now db c (
          find_where
            (has_transition_key CampaignStatus.approval_pending "regenerate_after_rejection")
            (campaign_sm hooks))))
  unfolding campaign_sm has_transition_key take passes enter unless_refused
  revert-IsOk = elim (Bool-cases (any_required_asset_rejected now db c)) [
    | inl g ↦ rw g (_, refl)
    | inr g ↦ rw g (_, refl)
  ]

  pub maybe_advance_total : IsOk (maybe_advance_to_ready_to_launch hooks now db c)
  unfolding maybe_advance_to_ready_to_launch apply_campaign apply
  maybe_advance_total = elim (Bool-cases (is_awaiting_approval c.status)) [
    | inl w ↦ rw w (
        subst
          (λ s. IsOk (
            unless_refused db (
              take now db c
                (find_where (has_transition_key s "start_launch") (campaign_sm hooks)))))
          (sym (awaiting-pending c.status w)) launch-IsOk)
    | inr w ↦ rw w (db, refl)
  ]

  pub maybe_revert_total : IsOk (maybe_revert_to_content_in_production hooks now db c)
  unfolding maybe_revert_to_content_in_production apply_campaign apply
  maybe_revert_total = elim (Bool-cases (is_awaiting_approval c.status)) [
    | inl w ↦ rw w (
        subst
          (λ s. IsOk (
            unless_refused db (
              take now db c (
                find_where (has_transition_key s "regenerate_after_rejection")
                  (campaign_sm hooks)))))
          (sym (awaiting-pending c.status w)) revert-IsOk)
    | inr w ↦ rw w (db, refl)
  ]
