-- ===== src/Distribution/Schedule.antt =====
-- app/agents/distribution.py: `schedule_approved_assets`, which the state machine's hook for a launch
-- calls.
use marketing_agentic_system.Common.{
  ℕ, String, Bool, true, false, Option, none, some, List, [], ◌∷◌, leb, ◌==◌, ◌&&◌, if◌then◌else◌,
  get_or_else, select_where, find_where,
}
use marketing_agentic_system.Queue.{Value, null, NewTask, uuid, number, enqueue_task}
use marketing_agentic_system.Data.{
  AssetStatus, AssetType, Campaign, ContentAsset, StrategyTouchpoint, Db, past_slot, no_touchpoint,
  no_dispatch_handler, of_asset, write_asset, write_audit,
}
use marketing_agentic_system.Data.Agents.{ensure_distribution_agent}

abbrev pub email_skill : String
email_skill = "distribution.dispatch_email"

abbrev pub social_skill : String
social_skill = "distribution.dispatch_social"

-- _dispatch_skill_for
unfoldable pub dispatch_skill_for : AssetType → Option String
dispatch_skill_for AssetType.email = some email_skill
dispatch_skill_for AssetType.social_post = some social_skill
dispatch_skill_for _ = none

unfoldable pub is_approved : AssetStatus → Bool
is_approved AssetStatus.approved = true
is_approved _ = false

unfoldable pub is_scheduled : AssetStatus → Bool
is_scheduled AssetStatus.scheduled = true
is_scheduled _ = false

-- touchpoints_by_id.get(_touchpoint_id_for(asset))
unfoldable pub touchpoint_of : List StrategyTouchpoint → ContentAsset → Option StrategyTouchpoint
touchpoint_of touchpoints a = elim a.extra_metadata.touchpoint_id [
  | none ↦ none
  | some i ↦ find_where (λ t. t.id == i) touchpoints
]

-- The slot that an approved asset gets, with the warning that goes with it.
unfoldable pub place : ℕ → Option StrategyTouchpoint → ContentAsset → ContentAsset
place now (some t) a =
    if leb now t.scheduled_at then record a { scheduled_at = some t.scheduled_at } else (record a {
      scheduled_at = some now;
      extra_metadata = record a.extra_metadata {
        schedule_warning = some (past_slot t.scheduled_at now);
      };
    })
place now none a = record a {
  scheduled_at = some (get_or_else a.scheduled_at now);
  extra_metadata = record a.extra_metadata { schedule_warning = some (no_touchpoint now) };
}

unfoldable pub slotted : ℕ → Option StrategyTouchpoint → ContentAsset → ContentAsset
unfolding place
slotted now t a = record (place now t a) { status = AssetStatus.scheduled }

abbrev pub optional : (ℕ → Value) → Option ℕ → Value
optional f none = null
optional f (some n) = f n

-- The dispatch task of an asset.
unfoldable pub dispatch_task : Campaign → ℕ → String → ContentAsset → ℕ → NewTask
dispatch_task campaign agent skill a slot = record {
  tenant_id = a.tenant_id;
  agent_id = agent;
  skill_name = skill;
  input_data = ("asset_id", uuid a.id) ∷ ("campaign_id", uuid campaign.id) ∷ [];
  campaign_id = some campaign.id;
  parent_task_id = none;
  idempotency_key = none;
  scheduled_for = some slot;
  max_attempts = 3;
  priority = 5;
}

unfoldable pub unhandled : ContentAsset → ContentAsset
unhandled a = record a {
  extra_metadata = record a.extra_metadata {
    schedule_warning = some (no_dispatch_handler a.asset_type);
  };
}

-- The end of the loop's body: an asset type that nothing dispatches keeps its slot, with a warning.
unfoldable pub enqueue_dispatch : ℕ → Campaign → ℕ → ContentAsset → Option String → Db → Db
enqueue_dispatch now campaign agent a none db = write_asset (unhandled a) db
enqueue_dispatch now campaign agent a (some skill) db = record db {
  tasks =
      (enqueue_task now db.tasks
        (dispatch_task campaign agent skill a (get_or_else a.scheduled_at now))).0;
}

unfoldable pub audit_schedule : ContentAsset → ContentAsset → Db → Db
audit_schedule a b db =
    write_audit
      (record {
        tenant_id = b.tenant_id;
        entity_kind = "content_asset";
        entity_id = b.id;
        action = "scheduled";
        before_state = of_asset a;
        after_state = of_asset b;
        extra_metadata =
            ("prior_slot", optional number a.scheduled_at)
            ∷ ("new_slot", optional number b.scheduled_at)
            ∷ ("touchpoint_id", optional uuid b.extra_metadata.touchpoint_id)
            ∷ [];
        applied_threshold = none;
      })
      db

-- The body of the loop over the approved assets.
unfoldable pub schedule_one : ℕ → Campaign → ℕ → List StrategyTouchpoint → ContentAsset → Db → Db
schedule_one now campaign agent touchpoints a db =
    let b = slotted now (touchpoint_of touchpoints a) a in
    enqueue_dispatch now campaign agent b (dispatch_skill_for b.asset_type)
      (audit_schedule a b (write_asset b db))

unfoldable pub schedule_each :
    ℕ → Campaign → ℕ → List StrategyTouchpoint → List ContentAsset → Db → Db
schedule_each now campaign agent touchpoints [] db = db
schedule_each now campaign agent touchpoints (a ∷ rest) db =
    schedule_each now campaign agent touchpoints rest
      (schedule_one now campaign agent touchpoints a db)

unfoldable pub is_approved_of : ℕ → ContentAsset → Bool
unfolding is_approved
is_approved_of campaign a = (a.campaign_id == campaign) && is_approved a.status

unfoldable pub schedule_all : ℕ → Db → Campaign → List ContentAsset → Db
schedule_all now db campaign [] = db
schedule_all now db campaign (a ∷ rest) =
    let (db', agent) = ensure_distribution_agent db campaign.tenant_id in
    schedule_each now campaign agent.id db.touchpoints (a ∷ rest) db'

unfoldable pub schedule_approved_assets : ℕ → Db → Campaign → Db
unfolding schedule_all
schedule_approved_assets now db campaign =
    schedule_all now db campaign (select_where (is_approved_of campaign.id) db.assets)
