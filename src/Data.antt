-- ===== src/Data.antt =====
-- app/db/enums.py and app/db/models.py: the rows that the agents and the endpoints read and write, as
-- one session sees them. A row is found by its id; a JSON column is a record of the keys that the
-- modelled code reads or writes. Amounts are in cents, dates in days, times in microseconds.
pub mod Agents
use marketing_agentic_system.Common.{
  ℕ, ◌+◌, ◌*◌, String, Bool, true, false, Option, none, some, List, [], ◌∷◌, ◌++◌, ◌==◌,
  if◌then◌else◌, update_where, ◌≡◌, refl,
}
use marketing_agentic_system.Queue.{TaskTable, Payload}

pub data CampaignStatus : Type 0 where
  drafted audience_built strategy_set content_in_production approval_pending : CampaignStatus
  ready_to_launch live optimising paused completed : CampaignStatus

pub data AssetStatus : Type 0 where
  requested generating drafted pending_approval approved rejected : AssetStatus
  scheduled published failed measuring variant_winner archived : AssetStatus

pub data AssetType : Type 0 where
  email social_post ad_creative blog_post landing_page_copy sms push linkedin_dm : AssetType

pub data AgentKind : Type 0 where
  orchestrator campaign_strategist audience_targeting content_creator : AgentKind
  approval_orchestrator channel_distribution analytics_optimisation : AgentKind

pub data UserRole : Type 0 where
  admin manager marketer viewer : UserRole

pub data ApprovalDecision : Type 0 where
  approved approved_with_edits rejected : ApprovalDecision

pub data RejectionCategory : Type 0 where
  off_voice inaccurate wrong_audience length compliance other : RejectionCategory

pub record AppUser : Type 0 where
  pub id : ℕ
  pub role : UserRole

pub record Campaign : Type 0 where
  pub id : ℕ
  pub tenant_id : ℕ
  pub status : CampaignStatus
  pub budget_total : ℕ
  pub currency : String
  pub start_date : ℕ

pub record Agent : Type 0 where
  pub id : ℕ
  pub tenant_id : ℕ
  pub name : String
  pub agent_type : AgentKind

pub record StrategyProposal : Type 0 where
  pub id : ℕ
  pub campaign_id : ℕ
  pub is_accepted : Bool

pub record StrategyTouchpoint : Type 0 where
  pub id : ℕ
  pub proposal_id : ℕ
  pub scheduled_at : ℕ

pub record TenantApprovalSettings : Type 0 where
  pub tenant_id : ℕ
  pub admin_required_above_amount : Option ℕ
  pub auto_approval_cap_amount : ℕ
  pub currency : String

-- A JSON value where an amount is expected: what `Decimal(str(value))` makes of it.
pub data Amount : Type 0 where
  decimal : ℕ → Amount
  malformed : Amount

-- metadata["approval_threshold"].
pub record ApprovalThreshold : Type 0 where
  pub admin_required_above_amount : Option Amount
  pub auto_approval_cap_amount : Option Amount
  pub currency : Option String
  pub snapshot_taken_at : Option ℕ

-- metadata["schedule_warning"].
pub data ScheduleWarning : Type 0 where
  past_slot : ℕ → ℕ → ScheduleWarning
  no_touchpoint : ℕ → ScheduleWarning
  no_dispatch_handler : AssetType → ScheduleWarning

-- metadata["dispatch_summary"].
pub record DispatchSummary : Type 0 where
  pub sent : ℕ
  pub suppressed : ℕ
  pub rejected : ℕ
  pub skipped : ℕ
  pub deduped : ℕ
  pub audience_size : ℕ
  pub skip_reason : Option String
  pub compliance_footer_injected : Bool

-- The keys of `content_asset.metadata`. In `ab_test_group_id`, `some none` is a text that is no UUID. A `touchpoint_id` that is no UUID is `none`.
pub record Metadata : Type 0 where
  pub touchpoint_id : Option ℕ
  pub channel_platform : Option String
  pub compliance_blocked : Option Bool
  pub fields : List (String × String)
  pub approval_threshold : Option ApprovalThreshold
  pub schedule_warning : Option ScheduleWarning
  pub skip_reason : Option String
  pub elapsed_at : Option ℕ
  pub ab_test_group_id : Option (Option ℕ)
  pub dispatch_summary : Option DispatchSummary
  pub dispatch_provider : Option String

pub record ContentAsset : Type 0 where
  pub id : ℕ
  pub tenant_id : ℕ
  pub campaign_id : ℕ
  pub asset_type : AssetType
  pub status : AssetStatus
  pub title : Option String
  pub content : Option String
  pub extra_metadata : Metadata
  pub is_required : Bool
  pub scheduled_at : Option ℕ
  pub published_at : Option ℕ
  pub updated_at : ℕ

-- `column_snapshot` of a row, or the part of it that an audit entry keeps.
pub data Image : Type 0 where
  of_status : CampaignStatus → Image
  of_campaign : Campaign → Image
  of_asset : ContentAsset → Image
  of_payload : Payload → Image
  nothing : Image

-- The gate that a reviewer was held against, kept in the audit entry of an approval.
pub record AppliedThreshold : Type 0 where
  pub admin_required_above_amount : Option Amount
  pub snapshot_currency : String
  pub campaign_budget : ℕ
  pub campaign_currency : String
  pub snapshot_taken_at : Option ℕ
  pub skipped : Option String

-- A row of `audit_log`. Who acted comes from context variables and is left out.
pub record AuditEntry : Type 0 where
  pub tenant_id : ℕ
  pub entity_kind : String
  pub entity_id : ℕ
  pub action : String
  pub before_state : Image
  pub after_state : Image
  pub extra_metadata : Payload
  pub applied_threshold : Option AppliedThreshold

-- `approval_decision_log.edits`.
pub data Edits : Type 0 where
  edited :
      (previous_content : Option String) (previous_fields : List (String × String))
      (current_content : Option String) (current_fields : List (String × String))
      (note : Option String)
      → Edits
  category : RejectionCategory → Edits
  batch : Edits

pub record ApprovalDecisionLog : Type 0 where
  pub id : ℕ
  pub content_asset_id : ℕ
  pub reviewer_id : ℕ
  pub decision : ApprovalDecision
  pub reason : Option String
  pub edits : Option Edits

-- The rows that one session can see. `next_id` is the id of the next row that is not a task.
pub record Db : Type 0 where
  pub campaigns : List Campaign
  pub assets : List ContentAsset
  pub tasks : TaskTable
  pub agents : List Agent
  pub proposals : List StrategyProposal
  pub touchpoints : List StrategyTouchpoint
  pub approval_settings : List TenantApprovalSettings
  pub decisions : List ApprovalDecisionLog
  pub audit : List AuditEntry
  pub next_id : ℕ

-- What a call that may raise returns. An exception that leaves the request rolls its transaction
-- back, so no state comes with it.
pub data Error : Type 0 where
  unknown_transition guard_failed : Error
  http : ℕ → Error
  exception : String → Error

pub data Result {ℓ} (A : Type ℓ) : Type ℓ where
  ok : A → Result A
  err : Error → Result A

infixl 5 ◌>>=◌
abbrev pub ◌>>=◌ {ℓ κ} : {A : Type ℓ} {B : Type κ} → Result A → (A → Result B) → Result B
ok a >>= f = f a
err e >>= f = err e

-- Two continuations that agree.
pub bind-agrees {ℓ κ} :
    {A : Type ℓ} {B : Type κ} (r : Result A) (f g : A → Result B)
    → ((a : A) → f a ≡ g a)
    → (r >>= f) ≡ (r >>= g)
bind-agrees (ok a) f g h = h a
bind-agrees (err e) f g h = refl

abbrev pub microseconds_per_day : ℕ
microseconds_per_day = 86400 * 1000000

abbrev pub has_asset_id : ℕ → ContentAsset → Bool
has_asset_id i a = a.id == i

-- The new values of an asset's row.
abbrev pub write_asset : ContentAsset → Db → Db
write_asset a db = record db { assets = update_where (has_asset_id a.id) (λ _. a) db.assets }

abbrev pub write_campaign : Campaign → Db → Db
write_campaign c db = record db {
  campaigns = update_where (λ (x : Campaign). x.id == c.id) (λ _. c) db.campaigns;
}

abbrev pub write_audit : AuditEntry → Db → Db
write_audit e db = record db { audit = db.audit ++ (e ∷ []) }
