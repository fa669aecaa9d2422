-- ===== src/Approvals.antt =====
-- app/api/approvals.py: the decisions on assets that wait for approval. An endpoint returns the new
-- database, or the status code of its error, with which its transaction is rolled back.
pub mod Endpoints
pub mod Batch
pub mod Gate
pub mod Advance
pub mod Filters
pub mod Counts
pub mod Tally
pub mod Response
pub mod AutoAdvance
pub mod Loading
pub mod DryRun
pub mod Rejection
pub mod Refusals
use marketing_agentic_system.Common.{
  ℕ, ◌+◌, String, Bool, true, false, not, ◌&&◌, ◌||◌, Option, none, some, List, [], ◌∷◌, ◌++◌, ltb,
  ◌==◌, if◌then◌else◌, is_some, get_or_else, str_eq, find_where,
}
use marketing_agentic_system.Queue.{Payload, NewTask, text, uuid, enqueue_task}
use marketing_agentic_system.Data.{
  AssetStatus, CampaignStatus, UserRole, AppUser, ApprovalDecision, RejectionCategory,
  ApprovalDecisionLog, Edits, edited, category, Campaign, ContentAsset, Metadata, Amount, decimal,
  malformed, ApprovalThreshold, AppliedThreshold, Db, Result, ok, err, http, unknown_transition,
  guard_failed, of_asset, write_asset, write_audit, has_asset_id, ◌>>=◌,
}
use marketing_agentic_system.Data.Agents.{ensure_content_creator_agent}
use marketing_agentic_system.StateMachine.Guards.{compliance_blocked}
use marketing_agentic_system.StateMachine.Machine.{Hooks, apply_campaign}

-- _load_asset_and_campaign
unfoldable pub load_campaign_of : Db → Option ContentAsset → Result (ContentAsset × Campaign)
load_campaign_of db none = err (http 404)
load_campaign_of db (some a) =
    elim (find_where (λ (c : Campaign). c.id == a.campaign_id) db.campaigns) [
      | none ↦ err (http 404)
      | some c ↦ ok (a, c)
    ]

unfoldable pub load_asset_and_campaign : Db → ℕ → Result (ContentAsset × Campaign)
unfolding load_campaign_of
load_asset_and_campaign db asset_id =
    load_campaign_of db (find_where (has_asset_id asset_id) db.assets)

-- _is_compliance_blocked
unfoldable pub is_compliance_blocked : ContentAsset → Bool
is_compliance_blocked a = elim a.extra_metadata.compliance_blocked [ none ↦ false | some b ↦ b ]

-- pending_approval or rejected
unfoldable pub is_approvable : AssetStatus → Bool
is_approvable AssetStatus.pending_approval = true
is_approvable AssetStatus.rejected = true
is_approvable _ = false

unfoldable pub is_pending : AssetStatus → Bool
is_pending AssetStatus.pending_approval = true
is_pending _ = false

unfoldable pub is_admin : UserRole → Bool
is_admin UserRole.admin = true
is_admin _ = false

-- _ROLE_RANK (app/api/deps.py)
unfoldable pub role_rank : UserRole → ℕ
role_rank UserRole.viewer = 0
role_rank UserRole.marketer = 1
role_rank UserRole.manager = 2
role_rank UserRole.admin = 3

unfoldable pub is_below : UserRole → AppUser → Bool
unfolding role_rank
is_below minimum user = ltb (role_rank user.role) (role_rank minimum)

-- The dependency that `require_role` of app/api/deps.py builds.
unfoldable pub require_role : UserRole → AppUser → Result AppUser
unfolding is_below
require_role minimum user = if is_below minimum user then err (http 403) else ok user

unfoldable pub is_awaiting_approval : CampaignStatus → Bool
is_awaiting_approval CampaignStatus.approval_pending = true
is_awaiting_approval _ = false

-- `value or default` on a text that may be missing.
unfoldable pub text_or : Option String → String → String
text_or none default = default
text_or (some s) default = if str_eq s "" then default else s

abbrev pub no_snapshot : ApprovalThreshold
no_snapshot = record {
  admin_required_above_amount = none;
  auto_approval_cap_amount = none;
  currency = none;
  snapshot_taken_at = none;
}

abbrev pub snapshot_of : ContentAsset → ApprovalThreshold
snapshot_of a = get_or_else a.extra_metadata.approval_threshold no_snapshot

pub record ThresholdDecision : Type 0 where
  pub requires_admin : Bool
  pub applied_threshold : AppliedThreshold

applied : ApprovalThreshold → Campaign → Option String → AppliedThreshold
applied s c skipped = record {
  admin_required_above_amount = s.admin_required_above_amount;
  snapshot_currency = text_or s.currency "USD";
  campaign_budget = c.budget_total;
  campaign_currency = c.currency;
  snapshot_taken_at = s.snapshot_taken_at;
  skipped = skipped;
}

skip_threshold : ApprovalThreshold → Campaign → String → ThresholdDecision
skip_threshold s c why = record {
  requires_admin = false;
  applied_threshold = applied s c (some why);
}

-- The test of the budget against a threshold that is there, in the campaign's currency.
compare_budget : ApprovalThreshold → Campaign → Amount → ThresholdDecision
compare_budget s c malformed = skip_threshold s c "invalid_threshold_value"
compare_budget s c (decimal limit) = record {
  requires_admin = ltb limit c.budget_total;
  applied_threshold = applied s c none;
}

evaluate_amount : ApprovalThreshold → Campaign → Option Amount → ThresholdDecision
evaluate_amount s c none = skip_threshold s c "no_threshold_configured"
evaluate_amount s c (some amount) =
    if str_eq (text_or s.currency "USD") c.currency
    then compare_budget s c amount
    else skip_threshold s c "currency_mismatch"

-- _evaluate_threshold; who the user is plays no part in it.
unfoldable pub evaluate_threshold : ContentAsset → Campaign → ThresholdDecision
unfolding evaluate_amount compare_budget skip_threshold applied text_or
evaluate_threshold a c =
    evaluate_amount (snapshot_of a) c (snapshot_of a).admin_required_above_amount

cap_exceeded : Campaign → Amount → Bool × Option ℕ
cap_exceeded c malformed = (false, none)
cap_exceeded c (decimal cap) = (ltb cap c.budget_total, some cap)

-- _exceeds_auto_approval_cap
unfoldable pub exceeds_auto_approval_cap : ContentAsset → Campaign → Bool × Option ℕ
unfolding cap_exceeded text_or
exceeds_auto_approval_cap a c =
    if str_eq (text_or (snapshot_of a).currency "USD") c.currency
    then cap_exceeded c (get_or_else (snapshot_of a).auto_approval_cap_amount (decimal 0))
    else (false, none)

-- dict[key] = value
put_field : List (String × String) → String × String → List (String × String)
put_field [] (k, v) = (k, v) ∷ []
put_field ((j, w) ∷ rest) (k, v) =
    if str_eq j k then (k, v) ∷ rest else (j, w) ∷ put_field rest (k, v)

-- _merge_fields, `dict.update`
unfoldable pub merge_fields :
    List (String × String) → List (String × String) → List (String × String)
unfolding put_field
merge_fields existing [] = existing
merge_fields existing (o ∷ overrides) = merge_fields (put_field existing o) overrides

pub record ApproveRequest : Type 0 where
  pub edited_content : Option String
  pub edited_fields : Option (List (String × String))
  pub note : Option String

unfoldable pub has_edits : ApproveRequest → Bool
has_edits body =
    is_some body.edited_content
    || elim body.edited_fields [ none ↦ false | some fs ↦ elim fs [ [] ↦ false | _ ∷ _ ↦ true ] ]

abbrev pub new_fields : ApproveRequest → List (String × String)
new_fields body = get_or_else body.edited_fields []

-- The note, if it is a text that is not empty.
noted : ApproveRequest → Option String
noted body = elim body.note [ none ↦ none | some s ↦ if str_eq s "" then none else some s ]

unfoldable pub edits_payload : ContentAsset → ApproveRequest → Option Edits
unfolding has_edits merge_fields noted
edits_payload a body =
    if has_edits body
    then some (
        edited a.content a.extra_metadata.fields
          (if is_some body.edited_content then body.edited_content else a.content)
          (merge_fields a.extra_metadata.fields (new_fields body)) (noted body))
    else none

unfoldable pub apply_edits : ApproveRequest → ContentAsset → ContentAsset
unfolding merge_fields
apply_edits body a = record a {
  content = if is_some body.edited_content then body.edited_content else a.content;
  extra_metadata = record a.extra_metadata {
    fields = merge_fields a.extra_metadata.fields (new_fields body);
  };
}

unfoldable pub insert_decision :
    Db → ℕ → ℕ → ApprovalDecision → Option String → Option Edits → Db × ApprovalDecisionLog
insert_decision db asset_id reviewer decision reason edits =
    let row : ApprovalDecisionLog = record {
      id = db.next_id;
      content_asset_id = asset_id;
      reviewer_id = reviewer;
      decision = decision;
      reason = reason;
      edits = edits;
    } in
    (record db { decisions = db.decisions ++ (row ∷ []); next_id = db.next_id + 1 }, row)

-- The decision, the asset's new status and the audit entry, which the endpoints write together.
unfoldable pub decide :
    Db
    → AppUser
    → ContentAsset
    → AssetStatus
    → ApprovalDecision
    → Option String
    → Option Edits
    → String
    → Payload
    → Option AppliedThreshold
    → Db × ApprovalDecisionLog
unfolding insert_decision
decide db user a new_status decision reason edits action details threshold =
    let (db', row) = insert_decision db a.id user.id decision reason edits in
    let b = record a { status = new_status } in
    (
      write_audit
          (record {
            tenant_id = a.tenant_id;
            entity_kind = "content_asset";
            entity_id = a.id;
            action = action;
            before_state = of_asset a;
            after_state = of_asset b;
            extra_metadata = ("decision_id", uuid row.id) ∷ details;
            applied_threshold = threshold;
          })
          (write_asset b db'),
      row,
    )

-- `except (UnknownTransitionError, GuardFailedError): return`; other exceptions go on up.
unfoldable pub unless_refused : Db → Result (Db × Campaign) → Result Db
unless_refused db (ok (db', c)) = ok db'
unless_refused db (err unknown_transition) = ok db
unless_refused db (err guard_failed) = ok db
unless_refused db (err e) = err e
