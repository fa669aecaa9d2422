-- ===== src/Distribution/Suspension.antt =====
-- app/agents/distribution.py: `pause_campaign`, and `resume_distribution_for_campaign`, which the state
-- machine's hook for a resumption calls.
use marketing_agentic_system.Common.{
  ℕ, ◌+◌, String, Bool, true, false, Option, none, some, List, [], ◌∷◌, ltb, ◌==◌, ◌&&◌,
  if◌then◌else◌, get_or_else, select_where,
}
use marketing_agentic_system.Queue.{Payload, text, enqueue_task, cancel_queued_for_campaign}
use marketing_agentic_system.Data.{
  AssetStatus, CampaignStatus, Campaign, ContentAsset, Db, of_asset, of_campaign, write_asset,
  write_campaign, write_audit,
}
use marketing_agentic_system.Data.Agents.{ensure_distribution_agent}
use marketing_agentic_system.Distribution.Schedule.{is_scheduled, dispatch_skill_for, dispatch_task}

unfoldable pub is_paused : CampaignStatus → Bool
is_paused CampaignStatus.paused = true
is_paused _ = false

-- `metadata` is what the caller adds to the reason.
unfoldable pub pause_campaign : ℕ → Db → Campaign → String → Payload → Db × Campaign
unfolding is_paused
pause_campaign now db campaign reason metadata =
    let after = record campaign { status = CampaignStatus.paused } in
    if is_paused campaign.status then (db, campaign) else (
      write_audit
          (record {
            tenant_id = campaign.tenant_id;
            entity_kind = "campaign";
            entity_id = campaign.id;
            action = "paused";
            before_state = of_campaign campaign;
            after_state = of_campaign after;
            extra_metadata = ("reason", text reason) ∷ metadata;
            applied_threshold = none;
          })
          (let db' = write_campaign after db in
            record db' { tasks = (cancel_queued_for_campaign now db'.tasks campaign.id).0 }),
      after,
    )

unfoldable pub elapsed_before : ℕ → ContentAsset → Bool
elapsed_before now a = elim a.scheduled_at [ none ↦ false | some slot ↦ ltb slot now ]

unfoldable pub expired_slot : ℕ → ContentAsset → ContentAsset
expired_slot now a = record a {
  status = AssetStatus.failed;
  extra_metadata = record a.extra_metadata {
    skip_reason = some "slot_elapsed_during_pause";
    elapsed_at = some now;
  };
}

-- The counts of a resumption.
pub record Resumed : Type 0 where
  pub db : Db
  pub requeued : ℕ
  pub elapsed_failed : ℕ

unfoldable pub requeue : ℕ → Campaign → ℕ → ContentAsset → Option String → Resumed → Resumed
requeue now campaign agent a none r = r
requeue now campaign agent a (some skill) r =
    let task = dispatch_task campaign agent skill a (get_or_else a.scheduled_at now) in
    record r {
      db = record r.db { tasks = (enqueue_task now r.db.tasks task).0 };
      requeued = r.requeued + 1;
    }

unfoldable pub fail_elapsed : ℕ → ContentAsset → Resumed → Resumed
unfolding expired_slot
fail_elapsed now a r =
    let b = expired_slot now a in
    record r {
      db =
          write_audit
            (record {
              tenant_id = a.tenant_id;
              entity_kind = "content_asset";
              entity_id = a.id;
              action = "skipped_elapsed";
              before_state = of_asset a;
              after_state = of_asset b;
              extra_metadata = ("reason", text "slot_elapsed_during_pause") ∷ [];
              applied_threshold = none;
            })
            (write_asset b r.db);
      elapsed_failed = r.elapsed_failed + 1;
    }

unfoldable pub resume_one : ℕ → Campaign → ℕ → ContentAsset → Resumed → Resumed
unfolding fail_elapsed requeue elapsed_before dispatch_skill_for
resume_one now campaign agent a r =
    if elapsed_before now a
    then fail_elapsed now a r
    else requeue now campaign agent a (dispatch_skill_for a.asset_type) r

unfoldable pub resume_each : ℕ → Campaign → ℕ → List ContentAsset → Resumed → Resumed
resume_each now campaign agent [] r = r
resume_each now campaign agent (a ∷ rest) r =
    resume_each now campaign agent rest (resume_one now campaign agent a r)

unfoldable pub is_scheduled_of : ℕ → ContentAsset → Bool
unfolding is_scheduled
is_scheduled_of campaign a = (a.campaign_id == campaign) && is_scheduled a.status

unfoldable pub resume_all : ℕ → Db → Campaign → List ContentAsset → Resumed
resume_all now db campaign [] = record { db = db; requeued = 0; elapsed_failed = 0 }
resume_all now db campaign (a ∷ rest) =
    let (db', agent) = ensure_distribution_agent db campaign.tenant_id in
    resume_each now campaign agent.id (a ∷ rest)
      (record { db = db'; requeued = 0; elapsed_failed = 0 })

unfoldable pub resume_distribution_for_campaign : ℕ → Db → Campaign → Resumed
unfolding resume_all
resume_distribution_for_campaign now db campaign =
    resume_all now db campaign (select_where (is_scheduled_of campaign.id) db.assets)
