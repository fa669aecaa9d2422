-- ===== src/Distribution/Safety.antt =====
-- To whom `dispatch_email_asset` of app/agents/distribution.py lets the provider write, through the
-- tool of app/tools/email_dispatch.py.
use marketing_agentic_system.Common.{
  ℕ, ◌≡◌, ◌≢◌, refl, sym, subst, ◌∙◌, ap, String, true, false, Option, none, some, List, [], ◌∷◌,
  inl, inr, Bool-cases, Row, All, All-map, All-Row, map, find_where, get_or_else, ◌==◌,
}
use marketing_agentic_system.Common.Text.{clean, clean_idem}
use marketing_agentic_system.Data.{Campaign, ContentAsset, Db, bind-agrees, has_asset_id}
use marketing_agentic_system.Mail.{AudienceMember, IntegrationCredential, SuppressionEntry, Mail}
use marketing_agentic_system.EmailDispatch.Address.{
  matches_email, domain_of, blocked_recipient_domains, member_of,
}
use marketing_agentic_system.EmailDispatch.Footer.{EmailMessage, ComplianceFooter, is_empty}
use marketing_agentic_system.EmailDispatch.Tool.{EmailRecipient, candidates, call}
use marketing_agentic_system.EmailDispatch.Screened.{Suppresses, Deliverable, call-screened}
use marketing_agentic_system.Distribution.Recipients.{
  email_of, filter_for_test, load_audience_members, running_ab_test_for_asset, sort_members,
  left_out,
}
use marketing_agentic_system.Distribution.Sends.{
  batch_entry, tool_inputs, Tally, build_compliance_footer,
}
use marketing_agentic_system.Distribution.Email.{
  finish, send_sorted, dispatch_kept, dispatch_members, dispatch_for, dispatch_loaded,
  dispatch_email_asset,
}
use marketing_agentic_system.Distribution.Publishing.{
  World, Provider, load_email_credential, connector_of, url_of, send_to, maybe_go_live,
}
use marketing_agentic_system.Distribution.Fresh.{to_send-IsFresh}
use marketing_agentic_system.Distribution.Unsent.{IsFresh}
use marketing_agentic_system.Distribution.Delivered.{kept_members, filtered_mail, first_tally}
use marketing_agentic_system.Unsubscribe.{compliance_of}

-- A recipient that the provider may be asked to write to for this asset.
pub record MayReceive (w : World) (mail : Mail) (asset : ContentAsset) (r : EmailRecipient)
    : Type 0 where
  pub fresh : IsFresh w.now mail asset (kept_members w mail asset).1 r.email
  pub valid : matches_email r.email ≡ true
  pub allowed : member_of (domain_of r.email) blocked_recipient_domains ≡ false
  pub not_suppressed :
      (s : SuppressionEntry) → Row s mail.suppressions → ¬ Suppresses asset.tenant_id r.email s

email_of-clean : (m : AudienceMember) → clean (email_of m) ≡ email_of m
unfolding email_of
email_of-clean m = clean_idem (get_or_else m.email "")

-- An address that the tool looks up is one of those that it was given.
candidates-All :
    (P : String → Type 0) (url : String → Option String) (l : List (AudienceMember × String))
    → All (λ (e : AudienceMember × String). P (clean e.1)) l
    → All P (candidates (map (batch_entry url) l))
unfolding candidates batch_entry
candidates-All P url [] h = tt
candidates-All P url ((m, email) ∷ rest) h = elim (Bool-cases (is_empty email)) [
  | inl t ↦ rw t (candidates-All P url rest h.1)
  | inr f ↦ rw f (h.0, candidates-All P url rest h.1)
]

IsFresh-clean :
    (now : ℕ) (mail : Mail) (asset : ContentAsset) (members : List AudienceMember) (email : String)
    → IsFresh now mail asset members email
    → IsFresh now mail asset members (clean email)
IsFresh-clean now mail asset members email f =
    let same : clean email ≡ email = ap clean (sym f.owner) ∙ email_of-clean f.member ∙ f.owner in
    subst (IsFresh now mail asset members) (sym same) f

-- Two providers that answer alike wherever every recipient may receive the asset.
abbrev pub AgreeOnReceivers : World → Provider → Mail → ContentAsset → Type 0
AgreeOnReceivers w p mail asset =
    (from_email : String) (message : EmailMessage) (rs : List EmailRecipient)
    → All (MayReceive w mail asset) rs
    → rs ≢ []
    → w.provider from_email message rs ≡ p from_email message rs

abbrev pub with_provider : World → Provider → World
with_provider w p = record w { provider = p }

url_of-same :
    (w : World) (p : Provider) (mail : Mail) (tenant : ℕ) (footer : Option ComplianceFooter)
    (email : String)
    → url_of w mail tenant footer email ≡ url_of (with_provider w p) mail tenant footer email
unfolding url_of
url_of-same w p mail tenant none email = refl
url_of-same w p mail tenant (some f) email = refl

module _ (w : World) (p : Provider) (mail : Mail) (asset : ContentAsset)
    (agree : AgreeOnReceivers w p mail asset) where
  call-agrees :
      (cred : IntegrationCredential) (footer : Option ComplianceFooter)
      (url : String → Option String) (l : List (AudienceMember × String))
      → All
          (λ (e : AudienceMember × String).
            IsFresh w.now mail asset (kept_members w mail asset).1 e.1)
          l
      → let inputs = tool_inputs url (get_or_else cred.default_from_email "") footer asset l in
        call (connector_of w cred) asset.tenant_id mail.suppressions inputs
        ≡ call (connector_of (with_provider w p) cred) asset.tenant_id mail.suppressions inputs
  unfolding connector_of tool_inputs
  call-agrees cred footer url l fresh =
      let kept = (kept_members w mail asset).1 in
      let listed = candidates-All (IsFresh w.now mail asset kept) url l (
        All-map (λ (e : AudienceMember × String). IsFresh w.now mail asset kept e.1)
          (λ (e : AudienceMember × String). IsFresh w.now mail asset kept (clean e.1)) l
          (λ e f. IsFresh-clean w.now mail asset kept e.1 f) fresh) in
      let inputs = tool_inputs url (get_or_else cred.default_from_email "") footer asset l in
      call-screened asset.tenant_id mail.suppressions inputs (connector_of w cred)
        (connector_of (with_provider w p) cred) refl refl refl
        (λ from_email message rs ds. agree from_email message rs (
          All-map
            (Deliverable asset.tenant_id mail.suppressions (candidates (map (batch_entry url) l)))
            (MayReceive w mail asset) rs
            (λ r d. record {
              fresh = All-Row (IsFresh w.now mail asset kept) d.requested listed;
              valid = d.valid;
              allowed = d.allowed;
              not_suppressed = d.not_suppressed;
            })
            ds))

  send_to-agrees :
      (cred : IntegrationCredential) (footer : Option ComplianceFooter) (mail' : Mail)
      (l : List (AudienceMember × String)) (t : Tally)
      → mail'.suppressions ≡ mail.suppressions
      → All
          (λ (e : AudienceMember × String).
            IsFresh w.now mail asset (kept_members w mail asset).1 e.1)
          l
      → send_to w mail' asset cred footer l t
        ≡ send_to (with_provider w p) mail' asset cred footer l t
  unfolding send_to
  send_to-agrees cred footer mail' [] t s fresh = refl
  send_to-agrees cred footer mail' (r ∷ rest) t s fresh =
      let urls : url_of w mail' asset.tenant_id footer
          ≡ url_of (with_provider w p) mail' asset.tenant_id footer =
        λ i. λ email. url_of-same w p mail' asset.tenant_id footer email i in
      let same =
        call-agrees cred footer (url_of (with_provider w p) mail' asset.tenant_id footer) (r ∷ rest)
          fresh in
      rw (urls, s, same) refl

module _ (w : World) (p : Provider) (db : Db) (mail : Mail) (asset : ContentAsset)
    (agree : AgreeOnReceivers w p mail asset) where
  kept-agrees :
      (c : Campaign) (cred : IntegrationCredential)
      → dispatch_kept w db mail asset c cred (kept_members w mail asset)
        ≡ dispatch_kept (with_provider w p) db mail asset c cred (kept_members w mail asset)
  unfolding dispatch_kept send_sorted finish maybe_go_live
  kept-agrees c cred =
      let kept = kept_members w mail asset in
      let s = sort_members (left_out w.now mail asset kept.1) kept.1 in
      let same =
        send_to-agrees w p mail asset agree cred
          (build_compliance_footer (compliance_of mail.compliance asset.tenant_id))
          (filtered_mail w mail asset) s.to_send (first_tally mail asset cred.provider s) refl
          (to_send-IsFresh w.now mail asset kept.1) in
      rw same refl

  members-agrees :
      (c : Campaign) (cred : IntegrationCredential) (l : List AudienceMember)
      → load_audience_members mail asset.campaign_id ≡ l
      → dispatch_members w db mail asset c cred l
        ≡ dispatch_members (with_provider w p) db mail asset c cred l
  unfolding dispatch_members
  members-agrees c cred [] e = refl
  members-agrees c cred (m ∷ rest) e =
      subst
        (λ l.
          let kept =
            filter_for_test w.hash w.racers mail asset l
              (running_ab_test_for_asset mail.ab_tests asset) in
          dispatch_kept w db mail asset c cred kept
          ≡ dispatch_kept (with_provider w p) db mail asset c cred kept)
        e (kept-agrees c cred)

  campaign-agrees :
      (o : Option Campaign)
      → dispatch_for w db mail asset o ≡ dispatch_for (with_provider w p) db mail asset o
  unfolding dispatch_for
  campaign-agrees none = refl
  campaign-agrees (some c) =
      let members = load_audience_members mail asset.campaign_id in
      let same =
        bind-agrees (load_email_credential mail asset.tenant_id)
          (λ cred. dispatch_members w db mail asset c cred members)
          (λ cred. dispatch_members (with_provider w p) db mail asset c cred members)
          (λ cred. members-agrees c cred members refl) in
      rw same refl

asset-agrees :
    (w : World) (p : Provider) (db : Db) (mail : Mail) (o : Option ContentAsset)
    → ((asset : ContentAsset) → o ≡ some asset → AgreeOnReceivers w p mail asset)
    → dispatch_loaded w db mail o ≡ dispatch_loaded (with_provider w p) db mail o
unfolding dispatch_loaded
asset-agrees w p db mail none agree = refl
asset-agrees w p db mail (some asset) agree =
    let same =
      campaign-agrees w p db mail asset (agree asset refl)
        (find_where (λ (c : Campaign). c.id == asset.campaign_id) db.campaigns) in
    rw same refl

-- What a dispatch does depends on the provider only where every recipient may receive the asset: a kept
-- member of the audience with a well-formed address at a domain that is not blocked, under no e-mail
-- suppression of the tenant, to whom this asset was not sent before, nothing of the tenant within a
-- day, and fewer e-mails within the window of the tenant's cap than the cap allows, if one of at least 1
-- is enabled. So no one else is ever handed to the provider: a provider that differs on other
-- recipients only gives the same result.
pub dispatch_email_asset-agrees :
    (w : World) (p : Provider) (db : Db) (mail : Mail) (asset_id : ℕ)
    → ((asset : ContentAsset)
        → find_where (has_asset_id asset_id) db.assets ≡ some asset
        → AgreeOnReceivers w p mail asset)
    → dispatch_email_asset w db mail asset_id
      ≡ dispatch_email_asset (with_provider w p) db mail asset_id
unfolding dispatch_email_asset
dispatch_email_asset-agrees w p db mail asset_id agree = asset-agrees w p db mail _ agree
