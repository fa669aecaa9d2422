-- ===== src/Approvals/Batch.antt =====
-- app/api/approvals.py: `batch_approve`.
use marketing_agentic_system.Common.{
  ℕ, ◌+◌, String, Bool, true, false, not, ◌&&◌, Option, none, some, List, [], ◌∷◌, ◌++◌, ◌==◌,
  if◌then◌else◌, get_or_else, str_eq, find_where, any_where, length, leb,
}
use marketing_agentic_system.Queue.{text}
use marketing_agentic_system.Data.{
  AssetStatus, AssetType, UserRole, AppUser, ApprovalDecision, ApprovalDecisionLog, batch, Campaign,
  ContentAsset, Amount, Db, Result, ok, err, http, has_asset_id, ◌>>=◌,
}
use marketing_agentic_system.StateMachine.Machine.{Hooks}
use marketing_agentic_system.Approvals.{
  require_role, is_compliance_blocked, is_approvable, is_admin, evaluate_threshold,
  exceeds_auto_approval_cap, decide,
}
use marketing_agentic_system.Approvals.Endpoints.{maybe_advance_to_ready_to_launch}

-- Why an asset was left out, with the details of the entry.
pub data Exclusion : Type 0 where
  not_found : (missing_campaign : Bool) → Exclusion
  wrong_status : AssetStatus → Exclusion
  compliance_flagged : Exclusion
  above_auto_approval_cap : (budget : ℕ) (cap : Option ℕ) (currency : String) → Exclusion
  requires_admin_role : (budget : ℕ) (threshold : Option Amount) (currency : String) → Exclusion
  write_failed : String → Exclusion

pub data Screened : Type 0 where
  excluded : Exclusion → Screened
  passed : ContentAsset → Campaign → Screened

-- The filters, in the order in which the loop applies them.
unfoldable pub screen_loaded : AppUser → ContentAsset → Campaign → Screened
screen_loaded user a c =
    if not (is_approvable a.status)
    then excluded (wrong_status a.status)
    else if is_compliance_blocked a
    then excluded compliance_flagged
    else if (exceeds_auto_approval_cap a c).0
    then excluded
        (above_auto_approval_cap c.budget_total (exceeds_auto_approval_cap a c).1 c.currency)
    else if (evaluate_threshold a c).requires_admin && not (is_admin user.role)
    then excluded (
        requires_admin_role c.budget_total
          (evaluate_threshold a c).applied_threshold.admin_required_above_amount c.currency)
    else passed a c

unfoldable pub screen_campaign : AppUser → ContentAsset → Option Campaign → Screened
screen_campaign user a none = excluded (not_found true)
screen_campaign user a (some c) = screen_loaded user a c

unfoldable pub screen_asset : Db → AppUser → Option ContentAsset → Screened
screen_asset db user none = excluded (not_found false)
screen_asset db user (some a) =
    screen_campaign user a (find_where (λ (c : Campaign). c.id == a.campaign_id) db.campaigns)

unfoldable pub screen : Db → AppUser → ℕ → Screened
screen db user asset_id = screen_asset db user (find_where (has_asset_id asset_id) db.assets)

unfoldable pub asset_type_value : AssetType → String
asset_type_value AssetType.email = "email"
asset_type_value AssetType.social_post = "social_post"
asset_type_value AssetType.ad_creative = "ad_creative"
asset_type_value AssetType.blog_post = "blog_post"
asset_type_value AssetType.landing_page_copy = "landing_page_copy"
asset_type_value AssetType.sms = "sms"
asset_type_value AssetType.push = "push"
asset_type_value AssetType.linkedin_dm = "linkedin_dm"

-- `_platform_for(asset) or asset.asset_type.value`
unfoldable pub platform_for : ContentAsset → String
platform_for a = elim a.extra_metadata.channel_platform [
  | none ↦ asset_type_value a.asset_type
  | some p ↦ if str_eq p "" then asset_type_value a.asset_type else p
]

-- counts[key] = counts.get(key, 0) + 1
unfoldable pub count_up : String → List (String × ℕ) → List (String × ℕ)
count_up key [] = (key, 1) ∷ []
count_up key ((k, n) ∷ rest) =
    if str_eq k key then (k, n + 1) ∷ rest else (k, n) ∷ count_up key rest

-- set.add; the members in the order in which they came.
unfoldable pub add_id : ℕ → List ℕ → List ℕ
add_id i ids = if any_where (λ j. j == i) ids then ids else ids ++ (i ∷ [])

-- The variables of the loop.
pub record BatchState : Type 0 where
  pub db : Db
  pub approved : List (ℕ × Option ℕ)
  pub excluded_entries : List (ℕ × Exclusion)
  pub channel_counts : List (String × ℕ)
  pub approved_campaign_ids : List ℕ
  pub currency : Option String

-- Why the database refuses the write of an asset's approval, in at most 200 characters, if it does: the
-- savepoint is rolled back.
abbrev pub WriteError : Type 0
WriteError = ℕ → Option String

unfoldable pub exclude : ℕ → Exclusion → BatchState → BatchState
exclude asset_id why s = record s {
  excluded_entries = s.excluded_entries ++ ((asset_id, why) ∷ []);
}

unfoldable pub approve_entry : ℕ → Option ℕ → BatchState → BatchState
approve_entry asset_id decision s = record s {
  approved = s.approved ++ ((asset_id, decision) ∷ []);
}

unfoldable pub counted : ContentAsset → Campaign → BatchState → BatchState
unfolding count_up add_id platform_for
counted a c s = record s {
  channel_counts = count_up (platform_for a) s.channel_counts;
  approved_campaign_ids = add_id c.id s.approved_campaign_ids;
  currency = elim s.currency [
    | none ↦ some c.currency
    | some k ↦ if str_eq k "" then some c.currency else some k
  ];
}

unfoldable pub write_approval : Db → AppUser → ContentAsset → Campaign → Db × ApprovalDecisionLog
write_approval db user a c =
    decide db user a AssetStatus.approved ApprovalDecision.approved none (some batch) "approved"
      (("via", text "batch_approve") ∷ []) (some (evaluate_threshold a c).applied_threshold)

unfoldable pub batch_write :
    Option String → AppUser → ℕ → ContentAsset → Campaign → BatchState → BatchState
batch_write (some error) user asset_id a c s = exclude asset_id (write_failed error) s
batch_write none user asset_id a c s =
    let (db', decision) = write_approval s.db user a c in
    approve_entry asset_id (some decision.id) (record s { db = db' })

unfoldable pub batch_screened : Bool → WriteError → AppUser → ℕ → Screened → BatchState → BatchState
batch_screened dry_run write_error user asset_id (excluded why) s = exclude asset_id why s
batch_screened dry_run write_error user asset_id (passed a c) s =
    if dry_run
    then approve_entry asset_id none (counted a c s)
    else batch_write (write_error asset_id) user asset_id a c (counted a c s)

unfoldable pub batch_each : Bool → WriteError → AppUser → List ℕ → BatchState → BatchState
batch_each dry_run write_error user [] s = s
batch_each dry_run write_error user (i ∷ rest) s =
    batch_each dry_run write_error user rest
      (batch_screened dry_run write_error user i (screen s.db user i) s)

unfoldable pub sum_budgets : List Campaign → List ℕ → ℕ
sum_budgets campaigns [] = 0
sum_budgets campaigns (i ∷ rest) =
    elim (find_where (λ (c : Campaign). c.id == i) campaigns) [ none ↦ 0 | some c ↦ c.budget_total ]
    + sum_budgets campaigns rest

unfoldable pub advance_each : Hooks → ℕ → List Campaign → List ℕ → Db → Result Db
advance_each hooks now campaigns [] db = ok db
advance_each hooks now campaigns (i ∷ rest) db =
    elim (find_where (λ (c : Campaign). c.id == i) campaigns) [
      | none ↦ ok db
      | some c ↦ maybe_advance_to_ready_to_launch hooks now db c
    ]
    >>= advance_each hooks now campaigns rest

pub record BatchApproveResponse : Type 0 where
  pub db : Db
  pub channel_counts : List (String × ℕ)
  pub total_spend_exposed : ℕ
  pub currency : String
  pub would_approve_count : ℕ
  pub excluded_count : ℕ
  pub approved : List (ℕ × Option ℕ)
  pub excluded_entries : List (ℕ × Exclusion)
  pub dry_run : Bool

abbrev pub batch_start : Db → BatchState
batch_start db = record {
  db = db;
  approved = [];
  excluded_entries = [];
  channel_counts = [];
  approved_campaign_ids = [];
  currency = none;
}

unfoldable pub respond : Bool → List Campaign → BatchState → Db → BatchApproveResponse
respond dry_run campaigns s db = record {
  db = db;
  channel_counts = s.channel_counts;
  total_spend_exposed = sum_budgets campaigns s.approved_campaign_ids;
  currency = get_or_else s.currency "USD";
  would_approve_count = length s.approved;
  excluded_count = length s.excluded_entries;
  approved = s.approved;
  excluded_entries = s.excluded_entries;
  dry_run = dry_run;
}

-- The endpoint's own code. `db.campaigns` before the loop are the campaigns that were loaded up front.
unfoldable pub batch_answer :
    Hooks → ℕ → WriteError → Db → AppUser → List ℕ → Bool → Result BatchApproveResponse
unfolding respond
batch_answer hooks now write_error db user asset_ids dry_run =
    let s = batch_each dry_run write_error user asset_ids (batch_start db) in
    elim dry_run [
      | true ↦ ok s.db
      | false ↦ advance_each hooks now db.campaigns s.approved_campaign_ids s.db
    ]
    >>= λ db'. ok (respond dry_run db.campaigns s db')

-- A request names 1 to 200 assets.
unfoldable pub is_valid_size : List ℕ → Bool
is_valid_size asset_ids = leb 1 (length asset_ids) && leb (length asset_ids) 200

unfoldable pub validate_batch : List ℕ → Result (List ℕ)
unfolding is_valid_size
validate_batch asset_ids = if is_valid_size asset_ids then ok asset_ids else err (http 422)

unfoldable pub batch_approve :
    Hooks → ℕ → WriteError → Db → AppUser → List ℕ → Bool → Result BatchApproveResponse
unfolding batch_answer validate_batch
batch_approve hooks now write_error db user asset_ids dry_run = do
  reviewer ← require_role UserRole.manager user
  ids ← validate_batch asset_ids
  batch_answer hooks now write_error db reviewer ids dry_run
