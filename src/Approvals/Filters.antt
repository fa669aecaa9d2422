-- ===== src/Approvals/Filters.antt =====
-- The filters of a batch (app/api/approvals.py, `batch_approve`) beside the gate of the endpoint.
use marketing_agentic_system.Common.{ℕ, ◌≡◌, ap₂, ◌↔◌, false, Option, none, some, arith}
use marketing_agentic_system.Data.{AppUser, Campaign, ContentAsset, Db, Result, ok, err, http}
use marketing_agentic_system.Approvals.{
  load_asset_and_campaign, load_campaign_of, exceeds_auto_approval_cap,
}
use marketing_agentic_system.Approvals.Endpoints.{approval_refusal}
use marketing_agentic_system.Approvals.Batch.{
  passed, screen_loaded, screen_campaign, screen_asset, screen,
}

-- The check of the automatic cap, which only a batch makes.
unfoldable pub IsScreened : AppUser → ContentAsset → Campaign → Type 0
IsScreened user a c =
    (approval_refusal user a c ≡ none) × ((exceeds_auto_approval_cap a c).0 ≡ false)

screen_loaded-IsScreened :
    (user : AppUser) (a b : ContentAsset) (c d : Campaign)
    → screen_loaded user a c ≡ passed b d
    → (a ≡ b) × (c ≡ d) × IsScreened user b d
unfolding screen_loaded approval_refusal IsScreened
screen_loaded-IsScreened user a b c d h = ground arith

IsScreened-screen_loaded :
    (user : AppUser) (a : ContentAsset) (c : Campaign)
    → IsScreened user a c
    → screen_loaded user a c ≡ passed a c
unfolding screen_loaded approval_refusal IsScreened
IsScreened-screen_loaded user a c s = ground arith

-- What the endpoint loads, given its campaign.
abbrev loaded_with : ContentAsset → Option Campaign → Result (ContentAsset × Campaign)
loaded_with a o = elim o [ none ↦ err (http 404) | some c ↦ ok (a, c) ]

screen_campaign-IsScreened :
    (user : AppUser) (a b : ContentAsset) (o : Option Campaign) (d : Campaign)
    → screen_campaign user a o ≡ passed b d
    → (loaded_with a o ≡ ok (b, d)) × IsScreened user b d
unfolding screen_campaign
screen_campaign-IsScreened user a b none d h = cc
screen_campaign-IsScreened user a b (some c) d h =
    let (p, q, r) = screen_loaded-IsScreened user a b c d h in (ap₂ (λ x y. ok (x, y)) p q, r)

IsScreened-screen_campaign :
    (user : AppUser) (a b : ContentAsset) (o : Option Campaign) (d : Campaign)
    → loaded_with a o ≡ ok (b, d)
    → IsScreened user b d
    → screen_campaign user a o ≡ passed b d
unfolding screen_campaign
IsScreened-screen_campaign user a b none d h s = cc
IsScreened-screen_campaign user a b (some c) d h s =
    let e = IsScreened-screen_loaded user b d s in cc

screen_asset-IsScreened :
    (db : Db) (user : AppUser) (o : Option ContentAsset) (b : ContentAsset) (d : Campaign)
    → (screen_asset db user o ≡ passed b d)
      ↔ ((load_campaign_of db o ≡ ok (b, d)) × IsScreened user b d)
unfolding screen_asset load_campaign_of
screen_asset-IsScreened db user none b d = (λ h. cc, λ h. let e = h.0 in cc)
screen_asset-IsScreened db user (some a) b d = (
  λ h. screen_campaign-IsScreened user a b _ d h,
  λ h. IsScreened-screen_campaign user a b _ d h.0 h.1,
)

-- An asset passes the filters of a batch exactly when the endpoint would load it with its campaign,
-- would not refuse its approval to the same reviewer, and its campaign's budget does not exceed the
-- cap of automatic approvals.
pub screen-IsScreened :
    (db : Db) (user : AppUser) (asset_id : ℕ) (a : ContentAsset) (c : Campaign)
    → (screen db user asset_id ≡ passed a c)
      ↔ ((load_asset_and_campaign db asset_id ≡ ok (a, c)) × IsScreened user a c)
unfolding screen load_asset_and_campaign
screen-IsScreened db user asset_id a c = screen_asset-IsScreened db user _ a c
