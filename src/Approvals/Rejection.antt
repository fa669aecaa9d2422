-- ===== src/Approvals/Rejection.antt =====
-- What the endpoint `reject_asset` of app/api/approvals.py leaves.
use marketing_agentic_system.Common.{
  ℕ, ◌≡◌, refl, sym, subst, ap, ◌∙◌, ◌⊎◌, inl, inr, true, false, ◌&&◌, ◌++◌, some, [], ◌∷◌, arith,
  Bool-cases, ◌==◌, ==_iff, Row, Row-last, Row-update_where, All-Row, any_where-false, find_where,
  if◌then◌else◌,
}
use marketing_agentic_system.Queue.{
  Task, TaskTable, queued, new_row, enqueue_task, conflicting, key_holder, insert_or_existing,
  insert_task, Payload, uuid,
}
use marketing_agentic_system.Data.{
  AssetStatus, CampaignStatus, UserRole, AppUser, Campaign, ContentAsset, ApprovalDecisionLog, Db,
  ok, ◌>>=◌,
}
use marketing_agentic_system.Data.Agents.{
  ensure_content_creator_agent, ensure_content_creator_agent_kept,
}
use marketing_agentic_system.Distribution.Scheduled.{write_asset-own}
use marketing_agentic_system.StateMachine.{
  has_transition_key, passes, enter, moved, record_move, take, apply,
}
use marketing_agentic_system.StateMachine.Guards.{
  any_required_asset_rejected, some_required, is_required_of, is_rejected,
}
use marketing_agentic_system.StateMachine.Machine.{
  Hooks, regenerate_after_rejection, campaign_sm, apply_campaign,
}
use marketing_agentic_system.Approvals.{
  is_below, require_role, load_asset_and_campaign, is_pending, is_awaiting_approval, decide,
  insert_decision, unless_refused,
}
use marketing_agentic_system.Approvals.Loading.{Loaded, load-Loaded}
use marketing_agentic_system.Approvals.Advance.{awaiting-pending}
use marketing_agentic_system.Approvals.Endpoints.{
  RejectRequest, is_valid_reason, validate_reject, regenerate_task, record_rejection,
  enqueue_regenerate, maybe_revert_to_content_in_production, reject_loaded, reject_asset,
}

abbrev pub rejected : ContentAsset → ContentAsset
rejected a = record a { status = AssetStatus.rejected }

-- The database after the attempt to send the campaign back.
abbrev reverted : ℕ → Db → Campaign → Db
reverted now db c =
    if is_awaiting_approval c.status && any_required_asset_rejected now db c
    then record_move regenerate_after_rejection c db
    else db

module _ (hooks : Hooks) (now : ℕ) where
  pending-reverted :
      (db : Db) (c : Campaign)
      → unless_refused db (
          take now db c (
            find_where
              (has_transition_key CampaignStatus.approval_pending "regenerate_after_rejection")
              (campaign_sm hooks)))
        ≡ ok (
            if any_required_asset_rejected now db c
            then record_move regenerate_after_rejection c db
            else db)
  unfolding campaign_sm has_transition_key take passes enter unless_refused
  pending-reverted db c = elim (Bool-cases (any_required_asset_rejected now db c)) [
    | inl g ↦ rw g refl
    | inr g ↦ rw g refl
  ]

  maybe_revert-reverted :
      (db : Db) (c : Campaign)
      → maybe_revert_to_content_in_production hooks now db c ≡ ok (reverted now db c)
  unfolding maybe_revert_to_content_in_production apply_campaign apply
  maybe_revert-reverted db c = elim (Bool-cases (is_awaiting_approval c.status)) [
    | inl w ↦ rw w (
        subst
          (λ s.
            unless_refused db (
              take now db c (
                find_where (has_transition_key s "regenerate_after_rejection") (campaign_sm hooks)))
            ≡ ok (
                if any_required_asset_rejected now db c
                then record_move regenerate_after_rejection c db
                else db))
          (sym (awaiting-pending c.status w)) (pending-reverted db c))
    | inr w ↦ rw w refl
  ]

reverted_kept :
    (now : ℕ) (db : Db) (c : Campaign)
    → ((reverted now db c).assets ≡ db.assets) × ((reverted now db c).tasks ≡ db.tasks)
unfolding record_move
reverted_kept now db c =
    elim (Bool-cases (is_awaiting_approval c.status && any_required_asset_rejected now db c)) [
      | inl e ↦ rw e (refl, refl)
      | inr e ↦ rw e (refl, refl)
    ]

regenerate_enqueued :
    (now : ℕ) (q : TaskTable) (a : ContentAsset) (user : AppUser) (body : RejectRequest) (agent : ℕ)
    → (enqueue_task now q (regenerate_task a user body agent)).0.rows
      ≡ q.rows ++ (new_row now q.next_id (regenerate_task a user body agent) ∷ [])
unfolding enqueue_task conflicting key_holder insert_or_existing insert_task regenerate_task
regenerate_enqueued now q a user body agent = refl

-- A task in the queue that generates the asset anew.
pub record Regenerates (a : ContentAsset) (t : Task) : Type 0 where
  pub waits : t.status ≡ queued
  pub skill_name : t.skill_name ≡ "content_creator.generate_asset"
  pub campaign : t.campaign_id ≡ some a.campaign_id
  pub input : (rest : Payload) × (t.input_data ≡ ("asset_id", uuid a.id) ∷ rest)

-- A rejection that went through.
pub record Rejected (db : Db) (user : AppUser) (body : RejectRequest) (a : ContentAsset)
    (c : Campaign) (db' : Db) : Type 0 where
  pub row : Row (rejected a) db'.assets
  pub task : (t : Task) × Row t db'.tasks.rows × Regenerates a t
  pub sent_back :
      (is_awaiting_approval c.status && a.is_required ≡ false)
      ⊎ Row (record c { status = CampaignStatus.content_in_production }) db'.campaigns

any_rejected :
    (now : ℕ) (db : Db) (a : ContentAsset) (c : Campaign)
    → Row (rejected a) db.assets
    → c.id ≡ a.campaign_id
    → a.is_required ≡ true
    → any_required_asset_rejected now db c ≡ true
unfolding any_required_asset_rejected some_required is_required_of is_rejected
any_rejected now db a c r o q = elim (Bool-cases (any_required_asset_rejected now db c)) [
  | inl t ↦ t
  | inr f ↦
      let n = All-Row _ r (any_where-false _ db.assets f) in
      ground (arith, ==_iff a.campaign_id c.id)
]

campaign_moved :
    (db : Db) (c : Campaign)
    → Row c db.campaigns
    → Row
        (record c { status = CampaignStatus.content_in_production })
        (record_move regenerate_after_rejection c db).campaigns
unfolding record_move moved
campaign_moved db c r = rw ((==_iff c.id c.id).1 refl) at (
    Row-update_where (λ (x : Campaign). x.id == c.id) (λ _. moved regenerate_after_rejection c)
      db.campaigns r)

-- The database before the attempt to send the campaign back.
abbrev requested : ℕ → Db → AppUser → RejectRequest → ContentAsset → Db
requested now db user body a =
    enqueue_regenerate now (record_rejection db user body a).0 user body a

recorded_row :
    (db : Db) (user : AppUser) (body : RejectRequest) (a : ContentAsset)
    → Row a db.assets
    → Row (rejected a) (record_rejection db user body a).0.assets
unfolding record_rejection decide insert_decision
recorded_row db user body a r = write_asset-own (rejected a) db (a, r, refl)

recorded_campaigns :
    (db : Db) (user : AppUser) (body : RejectRequest) (a : ContentAsset)
    → (record_rejection db user body a).0.campaigns ≡ db.campaigns
unfolding record_rejection decide insert_decision
recorded_campaigns db user body a = refl

module _ (now : ℕ) (db : Db) (user : AppUser) (body : RejectRequest) (a : ContentAsset) where
  requested_row : Row a db.assets → Row (rejected a) (requested now db user body a).assets
  unfolding enqueue_regenerate
  requested_row r =
      subst (λ l. Row (rejected a) l)
        (sym (ensure_content_creator_agent_kept (record_rejection db user body a).0 a.tenant_id).0)
        (recorded_row db user body a r)

  requested_campaigns : (requested now db user body a).campaigns ≡ db.campaigns
  unfolding enqueue_regenerate
  requested_campaigns =
      (ensure_content_creator_agent_kept (record_rejection db user body a).0 a.tenant_id).1
      ∙ recorded_campaigns db user body a

  requested_task : (t : Task) × Row t (requested now db user body a).tasks.rows × Regenerates a t
  unfolding enqueue_regenerate new_row regenerate_task
  requested_task =
      let (db', agent) =
        ensure_content_creator_agent (record_rejection db user body a).0 a.tenant_id in
      (
        new_row now db'.tasks.next_id (regenerate_task a user body agent.id),
        rw (regenerate_enqueued now db'.tasks a user body agent.id) (Row-last _ _),
        record { waits = refl; skill_name = refl; campaign = refl; input = (_, refl) },
      )

  sent_or_not :
      (c : Campaign) (d : Db)
      → Row (rejected a) d.assets
      → Row c d.campaigns
      → c.id ≡ a.campaign_id
      → (is_awaiting_approval c.status && a.is_required ≡ false)
        ⊎ Row
            (record c { status = CampaignStatus.content_in_production })
            (reverted now d c).campaigns
  sent_or_not c d r s o = elim (Bool-cases a.is_required) [
    | inl q ↦
        let g = any_rejected now d a c r o q in
        elim (Bool-cases (is_awaiting_approval c.status)) [
          | inl w ↦ inr (rw (w, g) (campaign_moved d c s))
          | inr w ↦ inl (ground arith)
        ]
    | inr q ↦ inl (ground arith)
  ]

  requested-Rejected :
      (asset_id : ℕ) (c : Campaign)
      → Loaded db asset_id a c
      → Rejected db user body a c (reverted now (requested now db user body a) c)
  requested-Rejected asset_id c l =
      let d = requested now db user body a in
      let kept = reverted_kept now d c in
      let (t, r, facts) = requested_task in
      record {
        row = subst (λ rows. Row (rejected a) rows) (sym kept.0) (requested_row l.asset);
        task = (t, subst (λ (q : TaskTable). Row t q.rows) (sym kept.1) r, facts);
        sent_back =
            sent_or_not c d (requested_row l.asset)
              (subst (λ rows. Row c rows) (sym requested_campaigns) l.campaign) l.owner;
      }

-- A manager or an admin can reject, with a reason of 1 to 2000 characters, any asset that is loaded with its
-- campaign and waits for approval. It is then
-- marked as rejected, a task that generates it anew is queued, and the campaign is back in production
-- unless it was not waiting for approval or the asset is not required.
pub reject_asset-Rejected :
    (hooks : Hooks) (now : ℕ) (db : Db) (user : AppUser) (body : RejectRequest) (asset_id : ℕ)
    (a : ContentAsset) (c : Campaign)
    → is_below UserRole.manager user ≡ false
    → is_valid_reason body.reason ≡ true
    → load_asset_and_campaign db asset_id ≡ ok (a, c)
    → is_pending a.status ≡ true
    → (db' : Db) × (reject_asset hooks now db user body asset_id
        ≡ ok (db', (record_rejection db user body a).1))
      × Rejected db user body a c db'
unfolding reject_asset require_role validate_reject reject_loaded load_asset_and_campaign
reject_asset-Rejected hooks now db user body asset_id a c rank reason l p =
    let d = requested now db user body a in
    let done =
      ap
        (λ r.
          ◌>>=◌ {B = Db × ApprovalDecisionLog} r (λ x. ok (x, (record_rejection db user body a).1)))
        (maybe_revert-reverted hooks now d c) in
    (
      reverted now d c,
      rw rank (rw reason (rw l (rw p done))),
      requested-Rejected now db user body a asset_id c (load-Loaded db asset_id a c _ refl l),
    )
