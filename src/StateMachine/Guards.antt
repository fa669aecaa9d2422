-- ===== src/StateMachine/Guards.antt =====
-- app/orchestrator/state_machine.py: the guards and the hooks of the built-in transitions.
use marketing_agentic_system.Common.{
  ℕ, ◌/◌, Bool, true, false, not, Option, none, some, [], ◌∷◌, ltb, ◌==◌, ◌&&◌, any_where,
  find_where, update_where,
}
use marketing_agentic_system.Queue.{NewTask, text, uuid, enqueue_task, cancel_queued_for_campaign}
use marketing_agentic_system.Data.{
  AssetStatus, Campaign, ContentAsset, TenantApprovalSettings, ApprovalThreshold, decimal, Db,
  Result, ok, microseconds_per_day,
}
use marketing_agentic_system.Data.Agents.{ensure_orchestrator_agent}
use marketing_agentic_system.Distribution.Schedule.{is_approved, schedule_approved_assets}
use marketing_agentic_system.Distribution.Suspension.{resume_distribution_for_campaign}

-- _enqueue_echo_step
unfoldable pub enqueue_echo_step : ℕ → Db → Campaign → Result Db
enqueue_echo_step now db campaign =
    let (db', agent) = ensure_orchestrator_agent db campaign.tenant_id in
    let task : NewTask = record {
      tenant_id = campaign.tenant_id;
      agent_id = agent.id;
      skill_name = "echo";
      input_data = ("campaign_id", uuid campaign.id) ∷ ("transition", text "echo_step") ∷ [];
      campaign_id = some campaign.id;
      parent_task_id = none;
      idempotency_key = none;
      scheduled_for = none;
      max_attempts = 3;
      priority = 5;
    } in
    ok (record db' { tasks = (enqueue_task now db'.tasks task).0 })

-- _has_accepted_strategy
unfoldable pub has_accepted_strategy : ℕ → Db → Campaign → Bool
has_accepted_strategy now db campaign =
    any_where (λ p. (p.campaign_id == campaign.id) && p.is_accepted) db.proposals

-- The rows that the guards look at.
unfoldable pub is_required_of : ℕ → ContentAsset → Bool
is_required_of campaign a = (a.campaign_id == campaign) && a.is_required

unfoldable pub some_required : (ContentAsset → Bool) → Db → Campaign → Bool
unfolding is_required_of
some_required p db campaign = any_where (λ a. is_required_of campaign.id a && p a) db.assets

-- requested, generating or failed
unfoldable pub is_unfinished : AssetStatus → Bool
is_unfinished AssetStatus.requested = true
is_unfinished AssetStatus.generating = true
is_unfinished AssetStatus.failed = true
is_unfinished _ = false

unfoldable pub is_rejected : AssetStatus → Bool
is_rejected AssetStatus.rejected = true
is_rejected _ = false

unfoldable pub is_drafted : AssetStatus → Bool
is_drafted AssetStatus.drafted = true
is_drafted _ = false

-- What `start_live` waits for: every status before `scheduled`, and `failed`.
unfoldable pub is_before_scheduled : AssetStatus → Bool
is_before_scheduled AssetStatus.requested = true
is_before_scheduled AssetStatus.generating = true
is_before_scheduled AssetStatus.drafted = true
is_before_scheduled AssetStatus.pending_approval = true
is_before_scheduled AssetStatus.approved = true
is_before_scheduled AssetStatus.rejected = true
is_before_scheduled AssetStatus.failed = true
is_before_scheduled _ = false

-- metadata["compliance"]["blocked"] is true.
unfoldable pub compliance_blocked : ContentAsset → Bool
compliance_blocked a = elim a.extra_metadata.compliance_blocked [ none ↦ false | some b ↦ b ]

-- _all_required_assets_drafted
unfoldable pub all_required_assets_drafted : ℕ → Db → Campaign → Bool
unfolding some_required is_unfinished compliance_blocked
all_required_assets_drafted now db campaign =
    some_required (λ _. true) db campaign
    && not (some_required (λ a. is_unfinished a.status) db campaign)
    && not (some_required compliance_blocked db campaign)

unfoldable pub threshold_snapshot : ℕ → Option TenantApprovalSettings → ApprovalThreshold
threshold_snapshot now none = record {
  admin_required_above_amount = none;
  auto_approval_cap_amount = some (decimal 0);
  currency = some "USD";
  snapshot_taken_at = some now;
}
threshold_snapshot now (some s) = record {
  admin_required_above_amount = elim s.admin_required_above_amount [
    | none ↦ none
    | some n ↦ some (decimal n)
  ];
  auto_approval_cap_amount = some (decimal s.auto_approval_cap_amount);
  currency = some s.currency;
  snapshot_taken_at = some now;
}

unfoldable pub submitted : ℕ → ApprovalThreshold → ContentAsset → ContentAsset
submitted now snapshot a = record a {
  status = AssetStatus.pending_approval;
  updated_at = now;
  extra_metadata = record a.extra_metadata { approval_threshold = some snapshot };
}

unfoldable pub is_submittable : ℕ → ContentAsset → Bool
unfolding is_required_of is_drafted
is_submittable campaign a = is_required_of campaign a && is_drafted a.status

-- _flip_drafted_assets_to_pending_approval
unfoldable pub flip_drafted_assets_to_pending_approval : ℕ → Db → Campaign → Result Db
unfolding is_submittable submitted threshold_snapshot
flip_drafted_assets_to_pending_approval now db campaign =
    let snapshot = threshold_snapshot now (
      find_where (λ (s : TenantApprovalSettings). s.tenant_id == campaign.tenant_id)
        db.approval_settings) in
    ok (record db {
      assets = update_where (is_submittable campaign.id) (submitted now snapshot) db.assets;
    })

-- _all_required_assets_approved
unfoldable pub all_required_assets_approved : ℕ → Db → Campaign → Bool
unfolding some_required
all_required_assets_approved now db campaign =
    some_required (λ _. true) db campaign
    && not (some_required (λ a. not (is_approved a.status)) db campaign)

-- _schedule_approved_assets
unfoldable pub start_distribution : ℕ → Db → Campaign → Result Db
start_distribution now db campaign = ok (schedule_approved_assets now db campaign)

-- _ready_to_go_live
unfoldable pub ready_to_go_live : ℕ → Db → Campaign → Bool
unfolding some_required is_before_scheduled
ready_to_go_live now db campaign =
    not (ltb (now / microseconds_per_day) campaign.start_date)
    && some_required (λ _. true) db campaign
    && not (some_required (λ a. is_before_scheduled a.status) db campaign)

-- _any_required_asset_rejected
unfoldable pub any_required_asset_rejected : ℕ → Db → Campaign → Bool
unfolding some_required is_rejected
any_required_asset_rejected now db campaign = some_required (λ a. is_rejected a.status) db campaign

-- _cancel_queued_on_pause
unfoldable pub cancel_queued_on_pause : ℕ → Db → Campaign → Result Db
cancel_queued_on_pause now db campaign =
    ok (record db { tasks = (cancel_queued_for_campaign now db.tasks campaign.id).0 })

-- _resume_distribution
unfoldable pub resume_distribution : ℕ → Db → Campaign → Result Db
resume_distribution now db campaign = ok (resume_distribution_for_campaign now db campaign).db
