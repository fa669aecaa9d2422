-- ===== src/Approvals/Refusals.antt =====
-- Each way in which the endpoint `approve_asset` of app/api/approvals.py answers.
use marketing_agentic_system.Common.{
  ℕ, ◌≡◌, refl, sym, subst, true, false, Option, none, some, inl, inr, Bool-cases, find_where, ◌==◌,
}
use marketing_agentic_system.Data.{
  UserRole, AppUser, Campaign, ContentAsset, ApprovalDecisionLog, Db, Result, Error, ok, err, http,
  has_asset_id, ◌>>=◌,
}
use marketing_agentic_system.StateMachine.Machine.{Hooks}
use marketing_agentic_system.Approvals.{
  is_below, require_role, load_campaign_of, load_asset_and_campaign, is_compliance_blocked,
  is_approvable, is_admin, evaluate_threshold, ApproveRequest,
}
use marketing_agentic_system.Approvals.Endpoints.{
  approval_refusal, record_approval, approve_loaded, approve_asset,
}
use marketing_agentic_system.Approvals.Gate.{
  IsOverThreshold, requires_admin-over, MayApprove, approval_refusal-none, approve_loaded_total,
}

-- How a request to approve an asset is answered, with the reason.
pub data Answer (db : Db) (user : AppUser) (body : ApproveRequest) (asset_id : ℕ)
    : Result (Db × ApprovalDecisionLog) → Type 0 where
  below_manager :
      is_below UserRole.manager user ≡ true → Answer db user body asset_id (err (http 403))
  not_found :
      is_below UserRole.manager user ≡ false
      → load_asset_and_campaign db asset_id ≡ err (http 404)
      → Answer db user body asset_id (err (http 404))
  not_eligible :
      (a : ContentAsset) (c : Campaign)
      → is_below UserRole.manager user ≡ false
      → load_asset_and_campaign db asset_id ≡ ok (a, c)
      → is_approvable a.status ≡ false
      → Answer db user body asset_id (err (http 409))
  blocked :
      (a : ContentAsset) (c : Campaign)
      → is_below UserRole.manager user ≡ false
      → load_asset_and_campaign db asset_id ≡ ok (a, c)
      → is_approvable a.status ≡ true
      → is_compliance_blocked a ≡ true
      → Answer db user body asset_id (err (http 422))
  needs_admin :
      (a : ContentAsset) (c : Campaign)
      → is_below UserRole.manager user ≡ false
      → load_asset_and_campaign db asset_id ≡ ok (a, c)
      → is_approvable a.status ≡ true
      → is_compliance_blocked a ≡ false
      → is_admin user.role ≡ false
      → IsOverThreshold a c
      → Answer db user body asset_id (err (http 403))
  approved :
      (a : ContentAsset) (c : Campaign) (db' : Db)
      → load_asset_and_campaign db asset_id ≡ ok (a, c)
      → MayApprove user a c
      → Answer db user body asset_id (ok (db', (record_approval db user a c body).1))

-- What the checks answer.
data Checked (user : AppUser) (a : ContentAsset) (c : Campaign) : Option ℕ → Type 0 where
  ineligible : is_approvable a.status ≡ false → Checked user a c (some 409)
  flagged :
      is_approvable a.status ≡ true → is_compliance_blocked a ≡ true → Checked user a c (some 422)
  too_expensive :
      is_approvable a.status ≡ true
      → is_compliance_blocked a ≡ false
      → is_admin user.role ≡ false
      → IsOverThreshold a c
      → Checked user a c (some 403)
  clear : approval_refusal user a c ≡ none → Checked user a c none

approval_refusal-Checked :
    (user : AppUser) (a : ContentAsset) (c : Campaign)
    → Checked user a c (approval_refusal user a c)
unfolding approval_refusal
approval_refusal-Checked user a c = elim (Bool-cases (is_approvable a.status)) [
  | inr e ↦ rw e (ineligible e)
  | inl e ↦ elim (Bool-cases (is_compliance_blocked a)) [
    | inl b ↦ rw (e, b) (flagged e b)
    | inr b ↦ elim (Bool-cases (evaluate_threshold a c).requires_admin) [
      | inr t ↦
          let done : approval_refusal user a c ≡ none = rw (e, b, t) refl in
          subst (Checked user a c) (sym done) (clear done)
      | inl t ↦ elim (Bool-cases (is_admin user.role)) [
        | inl r ↦
            let done : approval_refusal user a c ≡ none = rw (e, b, t, r) refl in
            subst (Checked user a c) (sym done) (clear done)
        | inr r ↦ rw (e, b, t, r) (too_expensive e b r (requires_admin-over a c t))
      ]
    ]
  ]
]

load_campaign_of-error :
    (db : Db) (o : Option ContentAsset) {e : Error}
    → load_campaign_of db o ≡ err e
    → load_campaign_of db o ≡ err (http 404)
unfolding load_campaign_of
load_campaign_of-error db none h = refl
load_campaign_of-error db (some a) h =
    campaign_missing a (find_where (λ (c : Campaign). c.id == a.campaign_id) db.campaigns) h
  where
    campaign_missing :
        (a : ContentAsset) (o : Option Campaign) {e : Error}
        → ◌≡◌ {A = Result (ContentAsset × Campaign)}
            (elim o [ none ↦ err (http 404) | some c ↦ ok (a, c) ])
            (err e)
        → ◌≡◌ {A = Result (ContentAsset × Campaign)}
            (elim o [ none ↦ err (http 404) | some c ↦ ok (a, c) ])
            (err (http 404))
    campaign_missing a none h = refl
    campaign_missing a (some c) h = cc

module _ (hooks : Hooks) (now : ℕ) (db : Db) (user : AppUser) (body : ApproveRequest)
    (asset_id : ℕ) where
  Checked-Answer :
      (a : ContentAsset) (c : Campaign) (o : Option ℕ)
      → is_below UserRole.manager user ≡ false
      → load_asset_and_campaign db asset_id ≡ ok (a, c)
      → approval_refusal user a c ≡ o
      → Checked user a c o
      → Answer db user body asset_id (approve_loaded hooks now db user body a c o)
  unfolding approve_loaded
  Checked-Answer a c _ rank l e (ineligible s) = not_eligible a c rank l s
  Checked-Answer a c _ rank l e (flagged s b) = blocked a c rank l s b
  Checked-Answer a c _ rank l e (too_expensive s b r over) = needs_admin a c rank l s b r over
  Checked-Answer a c _ rank l e (clear same) =
      let m = approval_refusal-none user a c rank same in
      let (db', done) = approve_loaded_total hooks now db user body a c in
      subst (Answer db user body asset_id) (sym done) (approved a c db' l m)

  loaded-Answer :
      (l : Result (ContentAsset × Campaign))
      → is_below UserRole.manager user ≡ false
      → load_asset_and_campaign db asset_id ≡ l
      → Answer db user body asset_id
          (l >>= λ p. approve_loaded hooks now db user body p.0 p.1 (approval_refusal user p.0 p.1))
  unfolding load_asset_and_campaign
  loaded-Answer (err e) rank l =
      let missing = load_campaign_of-error db (find_where (has_asset_id asset_id) db.assets) l in
      let same : e ≡ http 404 = cc (l, missing) in rw same (not_found rank missing)
  loaded-Answer (ok (a, c)) rank l =
      Checked-Answer a c (approval_refusal user a c) rank l refl (approval_refusal-Checked user a c)

  -- Every request to approve an asset is answered in one of these ways: 403 for a user below a manager;
  -- then 404 if the asset or its campaign is not there; then 409 if the asset neither waits for approval
  -- nor was rejected; then 422 if compliance blocks it; then 403 if its budget is over the threshold and
  -- the user is no admin; and otherwise it is approved.
  pub approve_asset-Answer :
      Answer db user body asset_id (approve_asset hooks now db user body asset_id)
  unfolding approve_asset require_role
  approve_asset-Answer = elim (Bool-cases (is_below UserRole.manager user)) [
    | inl t ↦ rw t (below_manager t)
    | inr f ↦ rw f (loaded-Answer (load_asset_and_campaign db asset_id) f refl)
  ]
