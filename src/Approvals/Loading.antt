-- ===== src/Approvals/Loading.antt =====
-- What `_load_asset_and_campaign` of app/api/approvals.py finds.
use marketing_agentic_system.Common.{
  ℕ, ◌≡◌, refl, subst, ap, ◌∙◌, Option, none, some, ◌==◌, ==_iff, Row, find_where, find_where-some,
}
use marketing_agentic_system.Data.{Campaign, ContentAsset, Db, Result, ok, err, http, has_asset_id}
use marketing_agentic_system.Approvals.{load_campaign_of}

-- The rows that a request loads.
pub record Loaded (db : Db) (asset_id : ℕ) (a : ContentAsset) (c : Campaign) : Type 0 where
  pub asset : Row a db.assets
  pub campaign : Row c db.campaigns
  pub found : find_where (has_asset_id asset_id) db.assets ≡ some a
  pub id : a.id ≡ asset_id
  pub owner : c.id ≡ a.campaign_id

load_campaign_of-Loaded :
    (db : Db) (asset_id : ℕ) (a b : ContentAsset) (c : Campaign) (o : Option Campaign)
    → find_where (has_asset_id asset_id) db.assets ≡ some b
    → find_where (λ (x : Campaign). x.id == b.campaign_id) db.campaigns ≡ o
    → ◌≡◌ {A = Result (ContentAsset × Campaign)}
        (elim o [ none ↦ err (http 404) | some c ↦ ok (b, c) ])
        (ok (a, c))
    → Loaded db asset_id a c
load_campaign_of-Loaded db asset_id a b c none e f h = cc
load_campaign_of-Loaded db asset_id a b c (some d) e f h =
    let (r, p) = find_where-some (has_asset_id asset_id) db.assets e in
    let (s, q) = find_where-some (λ (x : Campaign). x.id == b.campaign_id) db.campaigns f in
    let eb : b ≡ a = cc in
    let ed : d ≡ c = cc in
    record {
      asset = subst (λ x. Row x db.assets) eb r;
      campaign = subst (λ x. Row x db.campaigns) ed s;
      found = e ∙ ap some eb;
      id = cc ((==_iff b.id asset_id).0 p, eb);
      owner = cc ((==_iff d.id b.campaign_id).0 q, eb, ed);
    }

pub load-Loaded :
    (db : Db) (asset_id : ℕ) (a : ContentAsset) (c : Campaign) (o : Option ContentAsset)
    → find_where (has_asset_id asset_id) db.assets ≡ o
    → load_campaign_of db o ≡ ok (a, c)
    → Loaded db asset_id a c
unfolding load_campaign_of
load-Loaded db asset_id a c none e h = cc
load-Loaded db asset_id a c (some b) e h = load_campaign_of-Loaded db asset_id a b c _ e refl h
