-- ===== src/Examples/Campaigns.antt =====
-- The theorems on the state machine (app/orchestrator/state_machine.py) and on the scheduling
-- (app/agents/distribution.py), at a campaign with a required newsletter and an optional banner.
use marketing_agentic_system.Common.{◌≡◌, refl, [], true, false, arith, Row}
use marketing_agentic_system.Data.{
  CampaignStatus, AssetStatus, Campaign, ContentAsset, Db, ok, err, guard_failed,
}
use marketing_agentic_system.StateMachine.{
  has_transition_key, same_status, status_index, passes, enter, moved, record_move, take, apply,
}
use marketing_agentic_system.StateMachine.Guards.{
  all_required_assets_approved, some_required, is_required_of, start_distribution,
}
use marketing_agentic_system.Distribution.Schedule.{
  is_approved, is_approved_of, schedule_approved_assets,
}
use marketing_agentic_system.Distribution.Suspension.{
  resume_distribution_for_campaign, is_paused, pause_campaign,
}
use marketing_agentic_system.Distribution.Launched.{IsLaunched}
use marketing_agentic_system.Distribution.Launch.{DistinctIds, schedule_approved_assets_lem}
use marketing_agentic_system.StateMachine.Machine.{start_launch, campaign_sm, apply_campaign}
use marketing_agentic_system.StateMachine.Registry.{Applied, apply-Applied}
use marketing_agentic_system.StateMachine.Guards.{ready_to_go_live}
use marketing_agentic_system.StateMachine.Graph.{
  start, step, LaunchedIn, launch_needs_approval, resume_skips_start_date,
}
use marketing_agentic_system.StateMachine.Launch.{Launch, start_launch_lem}
use marketing_agentic_system.StateMachine.Submission.{Submission, submit_for_approval_lem}
use marketing_agentic_system.Distribution.Resumption.{
  Resumption, resume_distribution_for_campaign-Resumption,
}
use marketing_agentic_system.Distribution.Pause.{Paused, pause_campaign-Paused}
use marketing_agentic_system.Examples.{two_tasks, spring, office, no_hooks}

abbrev approved_office : Db
approved_office = office CampaignStatus.approval_pending AssetStatus.approved

distinct : DistinctIds approved_office.assets
distinct = ((ground arith, tt), (tt, tt))

abbrev launched_at : Db × Campaign
launched_at = (
  schedule_approved_assets 40
      (record_move start_launch (spring CampaignStatus.approval_pending) approved_office)
      (moved start_launch (spring CampaignStatus.approval_pending)),
  moved start_launch (spring CampaignStatus.approval_pending),
)

launches :
    apply_campaign no_hooks 40 approved_office
      (spring CampaignStatus.approval_pending)
      "start_launch"
    ≡ ok launched_at
unfolding apply_campaign campaign_sm apply has_transition_key same_status status_index take passes
    enter start_distribution all_required_assets_approved some_required is_required_of is_approved
launches = refl

left : spring CampaignStatus.ready_to_launch ≡ launched_at.1
unfolding moved
left = refl

launch_needs_approval_example :
    LaunchedIn no_hooks
      (spring CampaignStatus.approval_pending)
      launched_at.1
      (step start 40 approved_office "start_launch" launches)
unfolding moved
launch_needs_approval_example =
    launch_needs_approval no_hooks (spring CampaignStatus.approval_pending) launched_at.1
      (step start 40 approved_office "start_launch" launches) refl refl

start_launch_lem_example : Launch 40 approved_office (spring CampaignStatus.approval_pending) (
    apply_campaign no_hooks 40 approved_office
      (spring CampaignStatus.approval_pending)
      "start_launch")
start_launch_lem_example =
    start_launch_lem no_hooks 40 approved_office (spring CampaignStatus.approval_pending) distinct
      refl

submit_for_approval_lem_example :
    Submission 40
      (office CampaignStatus.content_in_production AssetStatus.drafted)
      (spring CampaignStatus.content_in_production)
      (apply_campaign no_hooks 40
        (office CampaignStatus.content_in_production AssetStatus.drafted)
        (spring CampaignStatus.content_in_production)
        "submit_for_approval")
submit_for_approval_lem_example =
    submit_for_approval_lem no_hooks 40
      (office CampaignStatus.content_in_production AssetStatus.drafted)
      (spring CampaignStatus.content_in_production) refl

apply-Applied_example :
    Applied 40
      (campaign_sm no_hooks)
      approved_office
      (spring CampaignStatus.approval_pending)
      "start_launch"
      launched_at
unfolding apply_campaign
apply-Applied_example =
    apply-Applied 40 (campaign_sm no_hooks) approved_office (spring CampaignStatus.approval_pending)
      "start_launch" launched_at launches

abbrev far_off : Campaign
far_off = record (spring CampaignStatus.ready_to_launch) { start_date = 30000 }

resume_skips_start_date_example :
    (apply_campaign no_hooks 50 approved_office far_off "start_live" ≡ err guard_failed)
    × (p : Db × Campaign) × (apply_campaign no_hooks 40 approved_office far_off "pause" ≡ ok p)
    × (ready_to_go_live 50 p.0 p.1 ≡ false)
    × (r : Db × Campaign) × (apply_campaign no_hooks 50 p.0 p.1 "resume" ≡ ok r)
    × (r.1.status ≡ CampaignStatus.live)
    × (r.1.start_date ≡ far_off.start_date)
resume_skips_start_date_example =
    resume_skips_start_date no_hooks 40 50 approved_office far_off refl (ground arith)

schedule_approved_assets_lem_example :
    let db' =
      schedule_approved_assets 40 approved_office (spring CampaignStatus.approval_pending) in
    ((a : ContentAsset)
      → Row a approved_office.assets
      → is_approved_of 5 a ≡ true
      → IsLaunched 40 approved_office.touchpoints a db')
    × ((x : ContentAsset)
        → Row x approved_office.assets
        → is_approved_of 5 x ≡ false
        → Row x db'.assets)
schedule_approved_assets_lem_example =
    schedule_approved_assets_lem 40 approved_office (spring CampaignStatus.approval_pending)
      distinct

abbrev busy_office : Db
busy_office = record (office CampaignStatus.live AssetStatus.scheduled) { tasks = two_tasks }

running : is_paused (spring CampaignStatus.live).status ≡ false
unfolding is_paused
running = refl

pause_campaign-Paused_example :
    let (db', c') = pause_campaign 40 busy_office (spring CampaignStatus.live) "manual" [] in
    Paused busy_office (spring CampaignStatus.live) db' c'
pause_campaign-Paused_example =
    pause_campaign-Paused 40 busy_office (spring CampaignStatus.live) "manual" [] running

resume_distribution_for_campaign-Resumption_example :
    Resumption 40 busy_office
      (spring CampaignStatus.live)
      (resume_distribution_for_campaign 40 busy_office (spring CampaignStatus.live))
resume_distribution_for_campaign-Resumption_example =
    resume_distribution_for_campaign-Resumption 40 busy_office (spring CampaignStatus.live)
      ((ground arith, tt), (tt, tt))
