-- ===== src/Distribution/Delivered.antt =====
-- What `dispatch_email_asset` of app/agents/distribution.py leaves, branch by branch.
use marketing_agentic_system.Common.{
  ℕ, ◌≡◌, ◌≢◌, refl, sym, subst, ◌∙◌, String, true, false, Option, none, some, List, [], ◌∷◌, arith,
  inl, inr, Bool-cases, length, is_some, find_where, ◌==◌,
}
use marketing_agentic_system.Data.{
  Campaign, ContentAsset, Db, Result, ok, err, Error, has_asset_id, ◌>>=◌,
}
use marketing_agentic_system.Mail.{AudienceMember, IntegrationCredential, Mail}
use marketing_agentic_system.Distribution.Schedule.{is_scheduled}
use marketing_agentic_system.Distribution.Suspension.{is_paused}
use marketing_agentic_system.Distribution.Recipients.{
  Kept, Sorted, load_audience_members, filter_for_test, running_ab_test_for_asset, sort_members,
  left_out,
}
use marketing_agentic_system.Distribution.Sends.{
  Tally, build_compliance_footer, record_capped, summarise,
}
use marketing_agentic_system.Unsubscribe.{compliance_of}
use marketing_agentic_system.Distribution.Email.{
  is_email, finish, send_sorted, dispatch_kept, dispatch_members, dispatch_for, dispatch_loaded,
  dispatch_email_asset,
}
use marketing_agentic_system.Distribution.Publishing.{
  World, Dispatched, campaign_paused, precondition_error, load_email_credential, send_to,
}
use marketing_agentic_system.Distribution.Attempted.{record_capped-Attempted}
use marketing_agentic_system.Distribution.Counted.{sort_members-total}
use marketing_agentic_system.Distribution.Sent.{Delivery, send_to-SentTo, finish-eq}

-- An asset that is due, with its campaign.
pub record IsDue (db : Db) (asset_id : ℕ) (asset : ContentAsset) (c : Campaign) : Type 0 where
  pub found : find_where (has_asset_id asset_id) db.assets ≡ some asset
  pub scheduled : is_scheduled asset.status ≡ true
  pub campaign : find_where (λ (x : Campaign). x.id == asset.campaign_id) db.campaigns ≡ some c

-- The start of the tally, with the rows of the capped members.
abbrev pub first_tally : Mail → ContentAsset → String → Sorted → Tally
first_tally mail asset provider s = record {
  sent = 0;
  suppressed = 0;
  rejected = 0;
  attempts = record_capped asset provider s.capped mail.attempts;
}

abbrev pub kept_members : World → Mail → ContentAsset → Kept
kept_members w mail asset =
    filter_for_test w.hash w.racers mail asset (load_audience_members mail asset.campaign_id)
      (running_ab_test_for_asset mail.ab_tests asset)

abbrev pub sorted_members : World → Mail → ContentAsset → Sorted
sorted_members w mail asset =
    let kept = (kept_members w mail asset).1 in sort_members (left_out w.now mail asset kept) kept

abbrev pub filtered_mail : World → Mail → ContentAsset → Mail
filtered_mail w mail asset = record mail { assignments = (kept_members w mail asset).0 }

-- The outcomes of a dispatch.
pub data Dispatch (w : World) (db : Db) (mail : Mail) (asset_id : ℕ)
    : Result Dispatched → Type 0 where
  no_asset :
      find_where (has_asset_id asset_id) db.assets ≡ none
      → Dispatch w db mail asset_id (err precondition_error)
  not_scheduled :
      (asset : ContentAsset)
      → find_where (has_asset_id asset_id) db.assets ≡ some asset
      → is_scheduled asset.status ≡ false
      → Dispatch w db mail asset_id (err precondition_error)
  no_campaign :
      (asset : ContentAsset)
      → find_where (has_asset_id asset_id) db.assets ≡ some asset
      → find_where (λ (x : Campaign). x.id == asset.campaign_id) db.campaigns ≡ none
      → Dispatch w db mail asset_id (err precondition_error)
  paused :
      (asset : ContentAsset) (c : Campaign)
      → IsDue db asset_id asset c
      → is_paused c.status ≡ true
      → Dispatch w db mail asset_id
          (ok (record { db = db; mail = mail; outcome = campaign_paused asset.status }))
  not_email :
      (asset : ContentAsset) (c : Campaign)
      → IsDue db asset_id asset c
      → is_email asset.asset_type ≡ false
      → Dispatch w db mail asset_id (err precondition_error)
  no_connector :
      (asset : ContentAsset) (c : Campaign) {e : Error}
      → IsDue db asset_id asset c
      → load_email_credential mail asset.tenant_id ≡ err e
      → Dispatch w db mail asset_id (err e)
  no_members :
      (asset : ContentAsset) (c : Campaign)
      → IsDue db asset_id asset c
      → load_audience_members mail asset.campaign_id ≡ []
      → Dispatch w db mail asset_id (err precondition_error)
  tool_failed :
      (asset : ContentAsset) (c : Campaign) (cred : IntegrationCredential) {e : Error}
      → IsDue db asset_id asset c
      → load_email_credential mail asset.tenant_id ≡ ok cred
      → send_to w
          (filtered_mail w mail asset)
          asset
          cred
          (build_compliance_footer (compliance_of mail.compliance asset.tenant_id))
          (sorted_members w mail asset).to_send
          (first_tally mail asset cred.provider (sorted_members w mail asset))
        ≡ err e
      → Dispatch w db mail asset_id (err e)
  delivered :
      (asset : ContentAsset) (c : Campaign) (cred : IntegrationCredential) {d : Dispatched}
      → IsDue db asset_id asset c
      → is_paused c.status ≡ false
      → is_email asset.asset_type ≡ true
      → load_email_credential mail asset.tenant_id ≡ ok cred
      → load_audience_members mail asset.campaign_id ≢ []
      → Delivery w db mail asset c cred (kept_members w mail asset).1 d
      → Dispatch w db mail asset_id (ok d)

module _ (w : World) (db : Db) (mail : Mail) (asset_id : ℕ) (asset : ContentAsset) (c : Campaign)
    (cred : IntegrationCredential) (due : IsDue db asset_id asset c)
    (running : is_paused c.status ≡ false) (email : is_email asset.asset_type ≡ true)
    (loaded : load_email_credential mail asset.tenant_id ≡ ok cred)
    (members : load_audience_members mail asset.campaign_id ≢ []) where
  sent-Dispatch :
      (r : Result Tally)
      → send_to w
          (filtered_mail w mail asset)
          asset
          cred
          (build_compliance_footer (compliance_of mail.compliance asset.tenant_id))
          (sorted_members w mail asset).to_send
          (first_tally mail asset cred.provider (sorted_members w mail asset))
        ≡ r
      → Dispatch w db mail asset_id (
          r >>= λ t.
          finish w db
            (filtered_mail w mail asset)
            asset
            c
            cred.provider
            (summarise t
              (length (sorted_members w mail asset).capped)
              (length (sorted_members w mail asset).deduped)
              (length (kept_members w mail asset).1)
              (is_some (build_compliance_footer (compliance_of mail.compliance asset.tenant_id))))
            t)
  unfolding summarise
  sent-Dispatch (err e) h = tool_failed asset c cred due loaded h
  sent-Dispatch (ok t) h =
      let kept = (kept_members w mail asset).1 in
      let s = sorted_members w mail asset in
      let sent =
        send_to-SentTo w (filtered_mail w mail asset) asset cred
          (build_compliance_footer (compliance_of mail.compliance asset.tenant_id)) mail.attempts
          s.to_send (first_tally mail asset cred.provider s) t
          (record_capped-Attempted asset cred.provider s.capped mail.attempts) h in
      let all = sort_members-total (left_out w.now mail asset kept) kept in
      let total = sent.total in
      rw
        (finish-eq w db (filtered_mail w mail asset) asset c cred.provider
          (summarise t (length s.capped) (length s.deduped) (length kept)
            (is_some (build_compliance_footer (compliance_of mail.compliance asset.tenant_id))))
          t)
        (delivered asset c cred due running email loaded members (record {
          summary =
              summarise t (length s.capped) (length s.deduped) (length kept)
                (is_some (build_compliance_footer (compliance_of mail.compliance asset.tenant_id)));
          outcome = refl;
          conserved = (refl, omega (arith, all, total));
          state = refl;
          attempts = sent.attempts;
        }))

members-Dispatch :
    (w : World) (db : Db) (mail : Mail) (asset_id : ℕ) (asset : ContentAsset) (c : Campaign)
    (cred : IntegrationCredential) (l : List AudienceMember)
    → IsDue db asset_id asset c
    → is_paused c.status ≡ false
    → is_email asset.asset_type ≡ true
    → load_email_credential mail asset.tenant_id ≡ ok cred
    → load_audience_members mail asset.campaign_id ≡ l
    → Dispatch w db mail asset_id (dispatch_members w db mail asset c cred l)
unfolding dispatch_members dispatch_kept send_sorted
members-Dispatch w db mail asset_id asset c cred [] due running email loaded e =
    no_members asset c due e
members-Dispatch w db mail asset_id asset c cred (m ∷ rest) due running email loaded e =
    subst
      (λ l. Dispatch w db mail asset_id (
        dispatch_kept w db mail asset c cred (
          filter_for_test w.hash w.racers mail asset l
            (running_ab_test_for_asset mail.ab_tests asset))))
      e
      (sent-Dispatch w db mail asset_id asset c cred due running email loaded (λ q. cc (sym e ∙ q))
        _ refl)

connected-Dispatch :
    (w : World) (db : Db) (mail : Mail) (asset_id : ℕ) (asset : ContentAsset) (c : Campaign)
    (r : Result IntegrationCredential)
    → IsDue db asset_id asset c
    → is_paused c.status ≡ false
    → is_email asset.asset_type ≡ true
    → load_email_credential mail asset.tenant_id ≡ r
    → Dispatch w db mail asset_id (
        r >>= λ cred.
        dispatch_members w db mail asset c cred (load_audience_members mail asset.campaign_id))
connected-Dispatch w db mail asset_id asset c (err e) due running email h =
    no_connector asset c due h
connected-Dispatch w db mail asset_id asset c (ok cred) due running email h =
    members-Dispatch w db mail asset_id asset c cred (load_audience_members mail asset.campaign_id)
      due running email h refl

campaign-Dispatch :
    (w : World) (db : Db) (mail : Mail) (asset_id : ℕ) (asset : ContentAsset) (o : Option Campaign)
    → find_where (has_asset_id asset_id) db.assets ≡ some asset
    → is_scheduled asset.status ≡ true
    → find_where (λ (x : Campaign). x.id == asset.campaign_id) db.campaigns ≡ o
    → Dispatch w db mail asset_id (dispatch_for w db mail asset o)
unfolding dispatch_for
campaign-Dispatch w db mail asset_id asset none f s h = no_campaign asset f h
campaign-Dispatch w db mail asset_id asset (some c) f s h =
    let due : IsDue db asset_id asset c = record { found = f; scheduled = s; campaign = h } in
    elim (Bool-cases (is_paused c.status)) [
      | inl t ↦ rw t (paused asset c due t)
      | inr running ↦ elim (Bool-cases (is_email asset.asset_type)) [
        | inl t ↦
            rw (running, t)
              (connected-Dispatch w db mail asset_id asset c
                (load_email_credential mail asset.tenant_id) due running t refl)
        | inr t ↦ rw (running, t) (not_email asset c due t)
      ]
    ]

asset-Dispatch :
    (w : World) (db : Db) (mail : Mail) (asset_id : ℕ) (o : Option ContentAsset)
    → find_where (has_asset_id asset_id) db.assets ≡ o
    → Dispatch w db mail asset_id (dispatch_loaded w db mail o)
unfolding dispatch_loaded
asset-Dispatch w db mail asset_id none h = no_asset h
asset-Dispatch w db mail asset_id (some asset) h = elim (Bool-cases (is_scheduled asset.status)) [
  | inl t ↦ rw t (campaign-Dispatch w db mail asset_id asset _ h t refl)
  | inr f ↦ rw f (not_scheduled asset h f)
]

-- Every dispatch of an e-mail asset ends in one of the listed ways. It is refused, with the reason that
-- holds of the state, or the tool fails, or the campaign is paused and nothing changes. Otherwise the
-- e-mails went out: the sent, suppressed, rejected, skipped and deduplicated members, with those
-- that have no address, are all that the A/B filter kept; the asset is published with that summary; the
-- campaign is live if it was ready to launch and the guard lets it; and of the recorded attempts none
-- that says `sent` changed, and their keys are still unique if they were.
pub dispatch_email_asset-Dispatch :
    (w : World) (db : Db) (mail : Mail) (asset_id : ℕ)
    → Dispatch w db mail asset_id (dispatch_email_asset w db mail asset_id)
unfolding dispatch_email_asset
dispatch_email_asset-Dispatch w db mail asset_id = asset-Dispatch w db mail asset_id _ refl
