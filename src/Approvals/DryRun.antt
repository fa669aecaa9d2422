-- ===== src/Approvals/DryRun.antt =====
-- A dry run of `batch_approve` (app/api/approvals.py) beside the real one.
use marketing_agentic_system.Common.{
  ℕ, ◌≡◌, ◌≢◌, refl, sym, ap, ◌∙◌, true, false, Option, none, some, List, [], ◌∷◌, ◌++◌, arith, map,
  All, All-Row, All-of_Row, Pairs,
}
use marketing_agentic_system.Data.{
  AssetStatus, UserRole, AppUser, ContentAsset, Campaign, Db, ok, has_asset_id, ◌>>=◌,
}
use marketing_agentic_system.StateMachine.Machine.{Hooks}
use marketing_agentic_system.Approvals.{is_below, decide, insert_decision}
use marketing_agentic_system.Approvals.Batch.{
  Exclusion, Screened, excluded, passed, screen_asset, screen, BatchState, WriteError, exclude,
  approve_entry, counted, write_approval, batch_write, batch_screened, batch_each, batch_start,
  BatchApproveResponse, respond, batch_answer, is_valid_size, batch_approve,
}
use marketing_agentic_system.Approvals.Response.{advance_each_total, batch_approve-batch_answer}
use marketing_agentic_system.Approvals.Tally.{screen-found, find_where-update_where}

-- Writing the approval of one asset does not change what the filters say of another.
screen-other :
    (db : Db) (user : AppUser) (a : ContentAsset) (c : Campaign) (j : ℕ)
    → j ≢ a.id
    → screen (write_approval db user a c).0 user j ≡ screen db user j
unfolding screen screen_asset write_approval decide insert_decision
screen-other db user a c j n = ap (screen_asset db user) (
    find_where-update_where (has_asset_id j) (has_asset_id a.id)
      (λ _. record a { status = AssetStatus.approved }) db.assets
      λ x e. (ground arith, ground arith))

abbrev ids_of : List (ℕ × Option ℕ) → List ℕ
ids_of = map (λ (p : ℕ × Option ℕ). p.0)

ids_of-snoc :
    (xs : List (ℕ × Option ℕ)) (p : ℕ × Option ℕ)
    → ids_of (xs ++ (p ∷ [])) ≡ ids_of xs ++ (p.0 ∷ [])
ids_of-snoc [] p = refl
ids_of-snoc (x ∷ xs) p = ap (λ l. x.0 ∷ l) (ids_of-snoc xs p)

-- Two loops, a dry one and a real one, that have said the same so far.
record Same (d r : BatchState) : Type 0 where
  approved : ids_of d.approved ≡ ids_of r.approved
  excluded_entries : d.excluded_entries ≡ r.excluded_entries
  channel_counts : d.channel_counts ≡ r.channel_counts
  approved_campaign_ids : d.approved_campaign_ids ≡ r.approved_campaign_ids
  currency : d.currency ≡ r.currency

exclude-Same :
    (i : ℕ) (why : Exclusion) (d r : BatchState)
    → Same d r
    → Same (exclude i why d) (exclude i why r)
unfolding exclude
exclude-Same i why d r s = record {
  approved = s.approved;
  excluded_entries = ap (λ l. l ++ ((i, why) ∷ [])) s.excluded_entries;
  channel_counts = s.channel_counts;
  approved_campaign_ids = s.approved_campaign_ids;
  currency = s.currency;
}

approve-Same :
    (user : AppUser) (i : ℕ) (a : ContentAsset) (c : Campaign) (d r : BatchState)
    → Same d r
    → Same (approve_entry i none (counted a c d)) (batch_write none user i a c (counted a c r))
unfolding batch_write approve_entry counted
approve-Same user i a c d r s =
    let x = ids_of-snoc d.approved (i, none) in
    let y = ids_of-snoc r.approved (i, some (write_approval r.db user a c).1.id) in
    record {
      approved = x ∙ ap (λ l. l ++ (i ∷ [])) s.approved ∙ sym y;
      excluded_entries = s.excluded_entries;
      channel_counts = rw s.channel_counts refl;
      approved_campaign_ids = rw s.approved_campaign_ids refl;
      currency = rw s.currency refl;
    }

-- The filters say the same of the assets that are still to come.
abbrev Agrees : AppUser → List ℕ → Db → Db → Type 0
Agrees user ids x y = All (λ j. screen x user j ≡ screen y user j) ids

-- One step of both loops.
record Stepped (user : AppUser) (rest : List ℕ) (d r d' r' : BatchState) : Type 0 where
  same : Same d' r'
  dry : d'.db ≡ d.db
  agrees : Agrees user rest r'.db d.db

step-Stepped :
    (we : WriteError) (user : AppUser) (i : ℕ) (rest : List ℕ) (d r : BatchState) (o : Screened)
    → screen r.db user i ≡ o
    → All (λ j. i ≢ j) rest
    → Agrees user rest r.db d.db
    → Same d r
    → Stepped user rest d r
        (batch_screened true we user i o d)
        (batch_screened false (λ _. none) user i o r)
unfolding batch_screened batch_write approve_entry counted exclude
step-Stepped we user i rest d r (excluded why) e n g s = record {
  same = exclude-Same i why d r s;
  dry = refl;
  agrees = g;
}
step-Stepped we user i rest d r (passed a c) e n g s = record {
  same = approve-Same user i a c d r s;
  dry = refl;
  agrees = All-of_Row _ rest (λ j q.
      screen-other r.db user a c j
        (λ h. All-Row (λ j. i ≢ j) q n (cc (h, (screen-found r.db user i a c e).1)))
      ∙ All-Row (λ j. screen r.db user j ≡ screen d.db user j) q g);
}

each-Stepped :
    (we : WriteError) (user : AppUser) (ids : List ℕ) (d r : BatchState)
    → Pairs (λ i j. i ≢ j) ids
    → Agrees user ids r.db d.db
    → Same d r
    → Same (batch_each true we user ids d) (batch_each false (λ _. none) user ids r)
      × ((batch_each true we user ids d).db ≡ d.db)
unfolding batch_each
each-Stepped we user [] d r p g s = (s, refl)
each-Stepped we user (i ∷ rest) d r p g s =
    let d' = batch_screened true we user i (screen d.db user i) d in
    let r' = batch_screened false (λ _. none) user i (screen r.db user i) r in
    let t : Stepped user rest d r d' r' =
      rw (← g.0) (step-Stepped we user i rest d r (screen r.db user i) refl p.0 g.1 s) in
    let (same, db) = each-Stepped we user rest d' r' p.1 (rw t.dry t.agrees) t.same in
    (same, db ∙ t.dry)

-- What a dry run says of the real one.
pub record Foretells (dry real : BatchApproveResponse) : Type 0 where
  pub approved :
      map (λ (p : ℕ × Option ℕ). p.0) dry.approved ≡ map (λ (p : ℕ × Option ℕ). p.0) real.approved
  pub excluded_entries : dry.excluded_entries ≡ real.excluded_entries
  pub channel_counts : dry.channel_counts ≡ real.channel_counts
  pub total_spend_exposed : dry.total_spend_exposed ≡ real.total_spend_exposed
  pub currency : dry.currency ≡ real.currency

respond-Foretells :
    (campaigns : List Campaign) (d r : BatchState) (x y : Db)
    → Same d r
    → Foretells (respond true campaigns d x) (respond false campaigns r y)
unfolding respond
respond-Foretells campaigns d r x y s = record {
  approved = s.approved;
  excluded_entries = s.excluded_entries;
  channel_counts = s.channel_counts;
  total_spend_exposed = rw s.approved_campaign_ids refl;
  currency = rw s.currency refl;
}

-- If a manager or an admin names 1 to 200 assets, none twice, and the database refuses no write, a dry
-- run changes nothing, and answers
-- with the assets, the exclusions and the summary that the real run then answers with.
pub batch_approve-Foretells :
    (hooks : Hooks) (now : ℕ) (write_error : WriteError) (db : Db) (user : AppUser) (ids : List ℕ)
    → is_below UserRole.manager user ≡ false
    → is_valid_size ids ≡ true
    → Pairs (λ i j. i ≢ j) ids
    → (dry : BatchApproveResponse) × (real : BatchApproveResponse) × (batch_approve hooks now
          write_error db user ids true
        ≡ ok dry)
      × (batch_approve hooks now (λ _. none) db user ids false ≡ ok real)
      × (dry.db ≡ db)
      × Foretells dry real
unfolding batch_answer respond
batch_approve-Foretells hooks now write_error db user ids rank size p =
    let d = batch_each true write_error user ids (batch_start db) in
    let r = batch_each false (λ _. none) user ids (batch_start db) in
    let (s, same_db) =
      each-Stepped write_error user ids (batch_start db) (batch_start db) p
        (All-of_Row _ ids (λ _ _. refl))
        (record {
          approved = refl;
          excluded_entries = refl;
          channel_counts = refl;
          approved_campaign_ids = refl;
          currency = refl;
        }) in
    let (db', e) = advance_each_total hooks now db.campaigns r.approved_campaign_ids r.db in
    (
      respond true db.campaigns d d.db,
      respond false db.campaigns r db',
      batch_approve-batch_answer hooks now write_error db user ids true rank size,
      batch_approve-batch_answer hooks now (λ _. none) db user ids false rank size
          ∙ ap (λ x. x >>= λ y. ok (respond false db.campaigns r y)) e,
      same_db,
      respond-Foretells db.campaigns d r d.db db' s,
    )
