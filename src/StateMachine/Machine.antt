-- ===== src/StateMachine/Machine.antt =====
-- app/orchestrator/state_machine.py: `campaign_sm`, the built-in transitions.
use marketing_agentic_system.Common.{ℕ, String, Option, none, some, [], ◌∷◌}
use marketing_agentic_system.Data.{CampaignStatus, Campaign, Db, Result}
use marketing_agentic_system.StateMachine.{Guard, OnEnter, Transition, StateMachine, apply}
use marketing_agentic_system.StateMachine.Guards.{
  enqueue_echo_step, has_accepted_strategy, all_required_assets_drafted,
  flip_drafted_assets_to_pending_approval, all_required_assets_approved, start_distribution,
  ready_to_go_live, any_required_asset_rejected, cancel_queued_on_pause, resume_distribution,
}

-- The two hooks that start another subsystem: the seeding of content assets
-- (app/agents/content_creator.py) and the campaign report (app/analytics/report.py).
pub record Hooks : Type 0 where
  pub seed_content_assets : OnEnter
  pub auto_generate_report : OnEnter

abbrev pub transition :
    String → CampaignStatus → CampaignStatus → Option Guard → Option OnEnter → Transition
transition name from_state to_state guard on_enter = record {
  name = name;
  from_state = from_state;
  to_state = to_state;
  guard = guard;
  on_enter = on_enter;
}

abbrev pub pause_from : CampaignStatus → Transition
pause_from s = transition "pause" s CampaignStatus.paused none (some cancel_queued_on_pause)

abbrev pub complete_from : Hooks → CampaignStatus → Transition
complete_from hooks s =
    transition "complete_campaign" s CampaignStatus.completed none (some hooks.auto_generate_report)

abbrev pub echo_step : Transition
echo_step =
    transition "echo_step" CampaignStatus.drafted CampaignStatus.drafted none
      (some enqueue_echo_step)

abbrev pub set_strategy : Transition
set_strategy =
    transition "set_strategy" CampaignStatus.audience_built CampaignStatus.strategy_set
      (some has_accepted_strategy) none

abbrev pub start_content : Hooks → Transition
start_content hooks =
    transition "start_content" CampaignStatus.strategy_set CampaignStatus.content_in_production none
      (some hooks.seed_content_assets)

abbrev pub submit_for_approval : Transition
submit_for_approval =
    transition "submit_for_approval" CampaignStatus.content_in_production
      CampaignStatus.approval_pending (some all_required_assets_drafted)
      (some flip_drafted_assets_to_pending_approval)

abbrev pub start_launch : Transition
start_launch =
    transition "start_launch" CampaignStatus.approval_pending CampaignStatus.ready_to_launch
      (some all_required_assets_approved) (some start_distribution)

abbrev pub start_live : Transition
start_live =
    transition "start_live" CampaignStatus.ready_to_launch CampaignStatus.live
      (some ready_to_go_live) none

abbrev pub regenerate_after_rejection : Transition
regenerate_after_rejection =
    transition "regenerate_after_rejection" CampaignStatus.approval_pending
      CampaignStatus.content_in_production (some any_required_asset_rejected) none

abbrev pub resume : Transition
resume =
    transition "resume" CampaignStatus.paused CampaignStatus.live none (some resume_distribution)

-- The registrations, in the order in which the module makes them.
unfoldable pub campaign_sm : Hooks → StateMachine
campaign_sm hooks =
    echo_step
    ∷ set_strategy
    ∷ start_content hooks
    ∷ submit_for_approval
    ∷ start_launch
    ∷ start_live
    ∷ regenerate_after_rejection
    ∷ pause_from CampaignStatus.live
    ∷ pause_from CampaignStatus.optimising
    ∷ pause_from CampaignStatus.ready_to_launch
    ∷ resume
    ∷ complete_from hooks CampaignStatus.live
    ∷ complete_from hooks CampaignStatus.optimising
    ∷ complete_from hooks CampaignStatus.paused
    ∷ []

-- A request to the built-in machine.
unfoldable pub apply_campaign : Hooks → ℕ → Db → Campaign → String → Result (Db × Campaign)
unfolding apply campaign_sm
apply_campaign hooks now db campaign name = apply now (campaign_sm hooks) db campaign name
