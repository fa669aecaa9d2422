-- ===== src/Examples.antt =====
-- Concrete rows, and the theorems at them. Times are small numbers of microseconds, days are 0.
pub mod Queues
pub mod Campaigns
pub mod Reviews
pub mod Variants
pub mod Mails
pub mod Deliveries
pub mod Calendars
use marketing_agentic_system.Common.{ℕ, Option, none, some, List, [], ◌∷◌, Bool, true, false}
use marketing_agentic_system.Queue.{Task, TaskStatus, queued, TaskTable, NewTask, number}
use marketing_agentic_system.Data.{
  CampaignStatus, AssetStatus, AssetType, Campaign, ContentAsset, Metadata, StrategyTouchpoint,
  TenantApprovalSettings, Db, UserRole, AppUser,
}
use marketing_agentic_system.StateMachine.Machine.{Hooks}
use marketing_agentic_system.Data.{ok}

abbrev pub request : NewTask
request = record {
  tenant_id = 1;
  agent_id = 9;
  skill_name = "echo";
  input_data = ("n", number 1) ∷ [];
  campaign_id = some 5;
  parent_task_id = none;
  idempotency_key = some "once";
  scheduled_for = some 10;
  max_attempts = 3;
  priority = 5;
}

abbrev pub urgent_request : NewTask
urgent_request = record request {
  idempotency_key = none;
  campaign_id = none;
  priority = 8;
  scheduled_for = some 20;
}

abbrev pub waiting_task : Task
waiting_task = record {
  id = 0;
  tenant_id = 1;
  campaign_id = some 5;
  agent_id = 9;
  parent_task_id = none;
  skill_name = "echo";
  status = queued;
  priority = 5;
  attempt = 0;
  max_attempts = 3;
  idempotency_key = some "once";
  leased_until = none;
  worker_id = none;
  input_data = [];
  output_data = [];
  error_message = none;
  scheduled_for = 10;
  started_at = none;
  completed_at = none;
}

abbrev pub urgent_task : Task
urgent_task = record waiting_task {
  id = 1;
  campaign_id = none;
  priority = 8;
  idempotency_key = none;
  scheduled_for = 20;
}

abbrev pub two_tasks : TaskTable
two_tasks = record { rows = waiting_task ∷ urgent_task ∷ []; next_id = 2 }

abbrev pub no_metadata : Metadata
no_metadata = record {
  touchpoint_id = some 70;
  channel_platform = none;
  compliance_blocked = none;
  fields = [];
  approval_threshold = none;
  schedule_warning = none;
  skip_reason = none;
  elapsed_at = none;
  ab_test_group_id = none;
  dispatch_summary = none;
  dispatch_provider = none;
}

abbrev pub newsletter : AssetStatus → ContentAsset
newsletter s = record {
  id = 3;
  tenant_id = 1;
  campaign_id = 5;
  asset_type = AssetType.email;
  status = s;
  title = some "News";
  content = some "hello";
  extra_metadata = no_metadata;
  is_required = true;
  scheduled_at = none;
  published_at = none;
  updated_at = 0;
}

abbrev pub banner : ContentAsset
banner = record (newsletter AssetStatus.drafted) {
  id = 4;
  asset_type = AssetType.ad_creative;
  is_required = false;
}

abbrev pub spring : CampaignStatus → Campaign
spring s = record {
  id = 5;
  tenant_id = 1;
  status = s;
  budget_total = 5000;
  currency = "USD";
  start_date = 0;
}

abbrev pub slot : StrategyTouchpoint
slot = record { id = 70; proposal_id = 60; scheduled_at = 100 }

abbrev pub gates : TenantApprovalSettings
gates = record {
  tenant_id = 1;
  admin_required_above_amount = some 4000;
  auto_approval_cap_amount = 9000;
  currency = "USD";
}

abbrev pub office : CampaignStatus → AssetStatus → Db
office c a = record {
  campaigns = spring c ∷ [];
  assets = newsletter a ∷ banner ∷ [];
  tasks = record { rows = []; next_id = 0 };
  agents = [];
  proposals = [];
  touchpoints = slot ∷ [];
  approval_settings = gates ∷ [];
  decisions = [];
  audit = [];
  next_id = 200;
}

abbrev pub no_hooks : Hooks
no_hooks = record {
  seed_content_assets = λ now db c. ok db;
  auto_generate_report = λ now db c. ok db;
}

abbrev pub reviewer : UserRole → AppUser
reviewer r = record { id = 31; role = r }
