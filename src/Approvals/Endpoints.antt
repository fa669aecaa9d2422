-- ===== src/Approvals/Endpoints.antt =====
-- app/api/approvals.py: `approve_asset` and `reject_asset`; app/approvals/auto_advance.py.
use marketing_agentic_system.Common.{
  ℕ, ◌+◌, leb, String, Bool, true, false, not, ◌&&◌, Option, none, some, [], ◌∷◌, if◌then◌else◌,
  is_some,
}
use marketing_agentic_system.Queue.{NewTask, text, uuid, enqueue_task}
use marketing_agentic_system.Data.{
  AssetStatus, CampaignStatus, UserRole, AppUser, ApprovalDecision, RejectionCategory,
  ApprovalDecisionLog, category, Campaign, ContentAsset, Db, Result, ok, err, http,
  unknown_transition, guard_failed, ◌>>=◌,
}
use marketing_agentic_system.EmailDispatch.Footer.{is_empty}
use marketing_agentic_system.Data.Agents.{ensure_content_creator_agent}
use marketing_agentic_system.StateMachine.Machine.{Hooks, apply_campaign}
use marketing_agentic_system.Approvals.{
  require_role, load_asset_and_campaign, is_compliance_blocked, is_approvable, is_pending, is_admin,
  is_awaiting_approval, evaluate_threshold, ApproveRequest, edits_payload, apply_edits, decide,
  unless_refused,
}

module _ (hooks : Hooks) where
  -- _maybe_advance_to_ready_to_launch
  unfoldable pub maybe_advance_to_ready_to_launch : ℕ → Db → Campaign → Result Db
  unfolding is_awaiting_approval unless_refused
  maybe_advance_to_ready_to_launch now db campaign =
      if is_awaiting_approval campaign.status
      then unless_refused db (apply_campaign hooks now db campaign "start_launch")
      else ok db

  -- _maybe_revert_to_content_in_production
  unfoldable pub maybe_revert_to_content_in_production : ℕ → Db → Campaign → Result Db
  unfolding is_awaiting_approval unless_refused
  maybe_revert_to_content_in_production now db campaign =
      if is_awaiting_approval campaign.status
      then unless_refused db (apply_campaign hooks now db campaign "regenerate_after_rejection")
      else ok db

-- The checks before an approval: the code of the first that fails.
unfoldable pub approval_refusal : AppUser → ContentAsset → Campaign → Option ℕ
unfolding is_approvable is_admin
approval_refusal user a c =
    if not (is_approvable a.status)
    then some 409
    else if is_compliance_blocked a
    then some 422
    else if (evaluate_threshold a c).requires_admin && not (is_admin user.role)
    then some 403
    else none

unfoldable pub record_approval :
    Db → AppUser → ContentAsset → Campaign → ApproveRequest → Db × ApprovalDecisionLog
record_approval db user a c body =
    let edits = edits_payload a body in
    decide db user (apply_edits body a) AssetStatus.approved
      (if is_some edits then ApprovalDecision.approved_with_edits else ApprovalDecision.approved)
      body.note edits (if is_some edits then "approved_with_edits" else "approved") []
      (some (evaluate_threshold a c).applied_threshold)

module _ (hooks : Hooks) where
  unfoldable pub approve_loaded :
      ℕ
      → Db
      → AppUser
      → ApproveRequest
      → ContentAsset
      → Campaign
      → Option ℕ
      → Result (Db × ApprovalDecisionLog)
  approve_loaded now db user body a c (some code) = err (http code)
  approve_loaded now db user body a c none =
      let (db', decision) = record_approval db user a c body in
      do db'' ← maybe_advance_to_ready_to_launch hooks now db' c; ok (db'', decision)

  unfoldable pub approve_asset :
      ℕ → Db → AppUser → ApproveRequest → ℕ → Result (Db × ApprovalDecisionLog)
  approve_asset now db user body asset_id = do
    reviewer ← require_role UserRole.manager user
    (a, c) ← load_asset_and_campaign db asset_id
    approve_loaded now db reviewer body a c (approval_refusal reviewer a c)

pub record RejectRequest : Type 0 where
  pub reason : String
  pub category : RejectionCategory

unfoldable pub text_length : String → ℕ
text_length String.[] = 0
text_length (String.◌∷◌ c s) = 1 + text_length s

-- `reason` has 1 to 2000 characters.
unfoldable pub is_valid_reason : String → Bool
unfolding text_length
is_valid_reason reason = not (is_empty reason) && leb (text_length reason) 2000

-- The request's validation.
unfoldable pub validate_reject : RejectRequest → Result RejectRequest
unfolding is_valid_reason
validate_reject body = if is_valid_reason body.reason then ok body else err (http 422)

unfoldable pub category_value : RejectionCategory → String
category_value RejectionCategory.off_voice = "off_voice"
category_value RejectionCategory.inaccurate = "inaccurate"
category_value RejectionCategory.wrong_audience = "wrong_audience"
category_value RejectionCategory.length = "length"
category_value RejectionCategory.compliance = "compliance"
category_value RejectionCategory.other = "other"

-- The regeneration task of a rejected asset.
unfoldable pub regenerate_task : ContentAsset → AppUser → RejectRequest → ℕ → NewTask
unfolding category_value
regenerate_task a user body agent = record {
  tenant_id = a.tenant_id;
  agent_id = agent;
  skill_name = "content_creator.generate_asset";
  input_data =
      ("asset_id", uuid a.id)
      ∷ ("campaign_id", uuid a.campaign_id)
      ∷ ("triggered_by_user_id", uuid user.id)
      ∷ ("rejection_reason", text body.reason)
      ∷ ("rejection_category", text (category_value body.category))
      ∷ [];
  campaign_id = some a.campaign_id;
  parent_task_id = none;
  idempotency_key = none;
  scheduled_for = none;
  max_attempts = 3;
  priority = 5;
}

unfoldable pub record_rejection :
    Db → AppUser → RejectRequest → ContentAsset → Db × ApprovalDecisionLog
record_rejection db user body a =
    decide db user a AssetStatus.rejected ApprovalDecision.rejected (some body.reason)
      (some (category body.category)) "rejected"
      (("category", text (category_value body.category)) ∷ []) none

unfoldable pub enqueue_regenerate : ℕ → Db → AppUser → RejectRequest → ContentAsset → Db
enqueue_regenerate now db user body a =
    let (db', agent) = ensure_content_creator_agent db a.tenant_id in
    record db' { tasks = (enqueue_task now db'.tasks (regenerate_task a user body agent.id)).0 }

module _ (hooks : Hooks) where
  unfoldable pub reject_loaded :
      ℕ → Db → AppUser → RejectRequest → ContentAsset → Campaign → Result (Db × ApprovalDecisionLog)
  reject_loaded now db user body a c =
      let (db', decision) = record_rejection db user body a in
      if is_pending a.status
      then (maybe_revert_to_content_in_production hooks now (enqueue_regenerate now db' user body a)
            c
          >>= λ db''. ok (db'', decision))
      else err (http 409)

  unfoldable pub reject_asset :
      ℕ → Db → AppUser → RejectRequest → ℕ → Result (Db × ApprovalDecisionLog)
  reject_asset now db user body asset_id = do
    reviewer ← require_role UserRole.manager user
    request ← validate_reject body
    (a, c) ← load_asset_and_campaign db asset_id
    reject_loaded now db reviewer request a c

-- A transition inside `try`: none if the state machine refused it.
unfoldable pub attempt : Result (Db × Campaign) → Result (Option (Db × Campaign))
attempt (ok end) = ok (some end)
attempt (err unknown_transition) = ok none
attempt (err guard_failed) = ok none
attempt (err e) = err e

unfoldable pub is_in_production : CampaignStatus → Bool
is_in_production CampaignStatus.content_in_production = true
is_in_production _ = false

unfoldable pub is_ready_to_launch : CampaignStatus → Bool
is_ready_to_launch CampaignStatus.ready_to_launch = true
is_ready_to_launch _ = false

-- What `try_advance_after_approval` returns, with the state that it leaves.
pub record Advanced : Type 0 where
  pub db : Db
  pub campaign : Campaign
  pub launched : Bool

unfoldable pub launch_ended : Db → Campaign → Option (Db × Campaign) → Advanced
launch_ended db c none = record { db = db; campaign = c; launched = false }
launch_ended db c (some (db', c')) = record {
  db = db';
  campaign = c';
  launched = is_ready_to_launch c'.status;
}

module _ (hooks : Hooks) where
  unfoldable pub advance_launch : ℕ → Db → Campaign → Result Advanced
  unfolding is_awaiting_approval attempt is_ready_to_launch launch_ended
  advance_launch now db c =
      if is_awaiting_approval c.status
      then (attempt (apply_campaign hooks now db c "start_launch") >>= λ r.
          ok (launch_ended db c r))
      else ok (record { db = db; campaign = c; launched = is_ready_to_launch c.status })

  unfoldable pub submit_ended : ℕ → Db → Campaign → Option (Db × Campaign) → Result Advanced
  unfolding advance_launch
  submit_ended now db c none = ok (record { db = db; campaign = c; launched = false })
  submit_ended now db c (some (db', c')) = advance_launch now db' c'

  -- try_advance_after_approval (app/approvals/auto_advance.py); `launched` is "ready_to_launch".
  unfoldable pub try_advance_after_approval : ℕ → Db → Campaign → Result Advanced
  unfolding submit_ended is_in_production
  try_advance_after_approval now db c =
      if is_in_production c.status
      then (attempt (apply_campaign hooks now db c "submit_for_approval") >>= submit_ended now db c)
      else advance_launch now db c
