-- ===== src/Approvals/Gate.antt =====
-- Who may approve what: the gates of app/api/approvals.py, for one asset and for a batch.
use marketing_agentic_system.Common.{
  ℕ, ◌<◌, ◌≡◌, refl, ap, ◌∙◌, ◌↔◌, true, false, Option, none, some, arith, ◌⊎◌, inl, inr,
  Bool-cases, ltb, str_eq, str_eq_iff,
}
use marketing_agentic_system.Data.{
  UserRole, AppUser, Campaign, ContentAsset, Amount, decimal, malformed, ApprovalDecisionLog, Db,
  Result, ok, err, ◌>>=◌,
}
use marketing_agentic_system.StateMachine.Machine.{Hooks}
use marketing_agentic_system.Approvals.{
  is_below, require_role, load_asset_and_campaign, is_compliance_blocked, is_approvable, is_admin,
  text_or, snapshot_of, skip_threshold, evaluate_amount, compare_budget, evaluate_threshold,
  ApproveRequest, apply_edits, decide, insert_decision,
}
use marketing_agentic_system.Approvals.Endpoints.{
  approval_refusal, record_approval, approve_loaded, approve_asset,
  maybe_advance_to_ready_to_launch,
}
use marketing_agentic_system.Approvals.Advance.{maybe_advance_total}

-- The budget is over the threshold that was in force when the asset was submitted, in one currency.
pub record IsOverThreshold (a : ContentAsset) (c : Campaign) : Type 0 where
  pub limit : ℕ
  pub configured : (snapshot_of a).admin_required_above_amount ≡ some (decimal limit)
  pub currency : text_or (snapshot_of a).currency "USD" ≡ c.currency
  pub over : limit < c.budget_total

evaluate_amount-over :
    (a : ContentAsset) (c : Campaign) (o : Option Amount)
    → (snapshot_of a).admin_required_above_amount ≡ o
    → (evaluate_amount (snapshot_of a) c o).requires_admin ≡ true
    → IsOverThreshold a c
unfolding evaluate_amount compare_budget skip_threshold
evaluate_amount-over a c none e h = cc
evaluate_amount-over a c (some malformed) e h = ground (arith)
evaluate_amount-over a c (some (decimal n)) e h = record {
  limit = n;
  configured = e;
  currency = ground (arith, str_eq_iff (text_or (snapshot_of a).currency "USD") c.currency);
  over = ground arith;
}

pub requires_admin-over :
    (a : ContentAsset) (c : Campaign)
    → (evaluate_threshold a c).requires_admin ≡ true
    → IsOverThreshold a c
unfolding evaluate_threshold
requires_admin-over a c h =
    evaluate_amount-over a c (snapshot_of a).admin_required_above_amount refl h

over-requires_admin :
    (a : ContentAsset) (c : Campaign)
    → IsOverThreshold a c
    → (evaluate_threshold a c).requires_admin ≡ true
unfolding evaluate_threshold
over-requires_admin a c o =
    let m : str_eq (text_or (snapshot_of a).currency "USD") c.currency ≡ true =
      (str_eq_iff (text_or (snapshot_of a).currency "USD") c.currency).1 o.currency in
    let limit = ltb-over o.limit c.budget_total o.over in
    ap (λ x. (evaluate_amount (snapshot_of a) c x).requires_admin) o.configured
    ∙ at_limit a c o.limit m limit
  where
    ltb-over : (m n : ℕ) → m < n → ltb m n ≡ true
    ltb-over m n h = ground arith

    at_limit :
        (a : ContentAsset) (c : Campaign) (n : ℕ)
        → str_eq (text_or (snapshot_of a).currency "USD") c.currency ≡ true
        → ltb n c.budget_total ≡ true
        → (evaluate_amount (snapshot_of a) c (some (decimal n))).requires_admin ≡ true
    at_limit a c n m h = ground arith

-- The gate asks for an admin exactly when the campaign's budget is over the threshold that the asset
-- was submitted under, and that threshold is an amount in the campaign's own currency.
pub evaluate_threshold-IsOverThreshold :
    (a : ContentAsset) (c : Campaign)
    → ((evaluate_threshold a c).requires_admin ≡ true) ↔ IsOverThreshold a c
evaluate_threshold-IsOverThreshold a c = (requires_admin-over a c, over-requires_admin a c)

-- A reviewer's right to approve an asset: the rank of a manager, and an admin's if the budget demands
-- it.
pub record MayApprove (user : AppUser) (a : ContentAsset) (c : Campaign) : Type 0 where
  pub ranked : is_below UserRole.manager user ≡ false
  pub in_queue : is_approvable a.status ≡ true
  pub clear : is_compliance_blocked a ≡ false
  pub entitled : (is_admin user.role ≡ true) ⊎ ¬ IsOverThreshold a c

pub approval_refusal-none :
    (user : AppUser) (a : ContentAsset) (c : Campaign)
    → is_below UserRole.manager user ≡ false
    → approval_refusal user a c ≡ none
    → MayApprove user a c
unfolding approval_refusal
approval_refusal-none user a c rank h = record {
  ranked = rank;
  in_queue = ground arith;
  clear = ground arith;
  entitled = elim (Bool-cases (is_admin user.role)) [
    | inl e ↦ inl e
    | inr e ↦ inr (λ o. let t = over-requires_admin a c o in ground arith)
  ];
}

-- A decision that was recorded by the endpoint.
pub record Approved (db : Db) (user : AppUser) (asset_id : ℕ) (d : ApprovalDecisionLog)
    : Type 0 where
  pub asset : ContentAsset
  pub campaign : Campaign
  pub loaded : load_asset_and_campaign db asset_id ≡ ok (asset, campaign)
  pub right : MayApprove user asset campaign
  pub decided : d.content_asset_id ≡ asset.id
  pub reviewer : d.reviewer_id ≡ user.id

paired :
    (r : Result Db) (e : ApprovalDecisionLog) {db' : Db} {d : ApprovalDecisionLog}
    → ◌>>=◌ {B = Db × ApprovalDecisionLog} r (λ x. ok (x, e)) ≡ ok (db', d)
    → e ≡ d
paired (ok x) e h = cc
paired (err x) e h = cc

module _ (hooks : Hooks) where
  approve_loaded-refusal :
      (now : ℕ) (db : Db) (user : AppUser) (body : ApproveRequest) (a : ContentAsset) (c : Campaign)
      (o : Option ℕ) (db' : Db) (d : ApprovalDecisionLog)
      → approve_loaded hooks now db user body a c o ≡ ok (db', d)
      → (o ≡ none) × (d.content_asset_id ≡ a.id) × (d.reviewer_id ≡ user.id)
  unfolding approve_loaded record_approval decide insert_decision apply_edits
  approve_loaded-refusal now db user body a c none db' d h =
      let e : (record_approval db user a c body).1 ≡ d =
        paired (maybe_advance_to_ready_to_launch hooks now (record_approval db user a c body).0 c) _
          h in
      (refl, rw (← e), rw (← e))
  approve_loaded-refusal now db user body a c (some code) db' d h = cc

  approve_found :
      (now : ℕ) (db : Db) (user : AppUser) (body : ApproveRequest) (asset_id : ℕ)
      (l : Result (ContentAsset × Campaign)) (db' : Db) (d : ApprovalDecisionLog)
      → is_below UserRole.manager user ≡ false
      → load_asset_and_campaign db asset_id ≡ l
      → (l >>= λ p. approve_loaded hooks now db user body p.0 p.1 (approval_refusal user p.0 p.1))
        ≡ ok (db', d)
      → Approved db user asset_id d
  approve_found now db user body asset_id (err e) db' d rank q h = cc
  approve_found now db user body asset_id (ok (a, c)) db' d rank q h =
      let (r, i, u) =
        approve_loaded-refusal now db user body a c (approval_refusal user a c) db' d h in
      record {
        asset = a;
        campaign = c;
        loaded = q;
        right = approval_refusal-none user a c rank r;
        decided = i;
        reviewer = u;
      }

  -- The endpoint records an approval only for a manager or an admin, and only of an asset that is there
  -- with its campaign, waits for one or was rejected, is not blocked by compliance, and whose budget is
  -- not over the threshold unless the reviewer is an admin; the decision names that asset and that
  -- reviewer.
  pub approve_asset-Approved :
      (now : ℕ) (db : Db) (user : AppUser) (body : ApproveRequest) (asset_id : ℕ) (db' : Db)
      (d : ApprovalDecisionLog)
      → approve_asset hooks now db user body asset_id ≡ ok (db', d)
      → Approved db user asset_id d
  unfolding approve_asset require_role
  approve_asset-Approved now db user body asset_id db' d h =
      elim (Bool-cases (is_below UserRole.manager user)) [
        | inl t ↦ cc (rw t at h)
        | inr f ↦
            approve_found now db user body asset_id (load_asset_and_campaign db asset_id) db' d f
              refl (rw f at h)
      ]

MayApprove-refusal :
    (user : AppUser) (a : ContentAsset) (c : Campaign)
    → MayApprove user a c
    → approval_refusal user a c ≡ none
unfolding approval_refusal
MayApprove-refusal user a c m =
    let q = m.in_queue in
    let k = m.clear in
    elim m.entitled [
      | inl admin ↦ ground arith
      | inr under ↦ elim (Bool-cases (evaluate_threshold a c).requires_admin) [
        | inl e ↦ absurd (under (requires_admin-over a c e))
        | inr e ↦ ground arith
      ]
    ]

module _ (hooks : Hooks) where
  pub approve_loaded_total :
      (now : ℕ) (db : Db) (user : AppUser) (body : ApproveRequest) (a : ContentAsset) (c : Campaign)
      → (db' : Db) × (approve_loaded hooks now db user body a c none
          ≡ ok (db', (record_approval db user a c body).1))
  unfolding approve_loaded
  approve_loaded_total now db user body a c =
      let (db', e) = maybe_advance_total hooks now (record_approval db user a c body).0 c in
      (
        db',
        ap
            (λ r.
              ◌>>=◌ {B = Db × ApprovalDecisionLog} r
                (λ x. ok (x, (record_approval db user a c body).1)))
            e,
      )

  -- The endpoint approves an asset whenever the reviewer may approve it, which takes a manager's rank, an
  -- asset that waits or was rejected and is not blocked by compliance, and an admin if the budget is over
  -- the threshold: the attempt to advance the campaign that follows never fails the request.
  pub approve_asset_total :
      (now : ℕ) (db : Db) (user : AppUser) (body : ApproveRequest) (asset_id : ℕ) (a : ContentAsset)
      (c : Campaign)
      → load_asset_and_campaign db asset_id ≡ ok (a, c)
      → MayApprove user a c
      → (db' : Db) × (approve_asset hooks now db user body asset_id
          ≡ ok (db', (record_approval db user a c body).1))
  unfolding approve_asset require_role
  approve_asset_total now db user body asset_id a c l m =
      let (db', e) = approve_loaded_total now db user body a c in
      let rank = m.ranked in (db', rw rank (rw l (rw (MayApprove-refusal user a c m) e)))
