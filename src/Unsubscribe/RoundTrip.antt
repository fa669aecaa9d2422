-- ===== src/Unsubscribe/RoundTrip.antt =====
-- From the link in an e-mail (app/agents/distribution.py) through app/api/unsubscribe.py to the next
-- dispatch.
use marketing_agentic_system.Common.{
  ℕ, ◌≡◌, ◌≢◌, refl, sym, ◌∙◌, String, true, false, Option, none, some, List, [], ◌∷◌, ◌++◌, and3,
  ==_iff, ◌==◌, str_eq, str_eq_iff, Row, All, All-map, Row-append, Row-last, find_where,
  find_where-some, find_where-of_Row, ap,
}
use marketing_agentic_system.Common.Text.{lower, lower_idem}
use marketing_agentic_system.Data.{ContentAsset, Db, ok, has_asset_id}
use marketing_agentic_system.Mail.{ChannelPlatform, same_platform, SuppressionEntry, Mail}
use marketing_agentic_system.EmailDispatch.Footer.{is_empty, EmailMessage}
use marketing_agentic_system.EmailDispatch.Tool.{EmailRecipient}
use marketing_agentic_system.EmailDispatch.Screened.{Suppresses}
use marketing_agentic_system.Distribution.Email.{dispatch_email_asset}
use marketing_agentic_system.Distribution.Publishing.{World, Provider}
use marketing_agentic_system.Distribution.Safety.{
  MayReceive, with_provider, dispatch_email_asset-agrees,
}
use marketing_agentic_system.Unsubscribe.{
  Serializer, link_payload, unsubscribe_token, is_entry_of, Unsubscribed, suppress, consume_payload,
  consume_unsubscribe_token,
}
use marketing_agentic_system.Unsubscribe.Tokens.{Signs, verify_token-unsubscribe_token}

-- What following the link leaves: the address is suppressed, what was suppressed still is, and
-- following it again changes nothing.
pub record Opted (serializer : Serializer) (fallback : String) (mail : Mail) (tenant : ℕ)
    (email : String) (token : String) (out : Unsubscribed) : Type 0 where
  pub entry : SuppressionEntry
  pub row : Row entry out.1
  pub suppresses : Suppresses tenant (lower email) entry
  pub kept : (s : SuppressionEntry) → Row s mail.suppressions → Row s out.1
  pub again :
      (now : ℕ)
      → (answer : Unsubscribed) × (consume_unsubscribe_token serializer fallback now out.0
            (record mail { suppressions = out.1 })
            token
          ≡ ok answer)
        × (answer.0 ≡ out.0)
        × (answer.1 ≡ out.1)
        × (answer.2.already_existed ≡ true)

-- The entry that a look-up finds is the address's.
is_entry_of-Suppresses :
    (tenant : ℕ) (email : String) (s : SuppressionEntry)
    → is_entry_of tenant ChannelPlatform.email (lower email) s ≡ true
    → Suppresses tenant (lower email) s
unfolding is_entry_of
is_entry_of-Suppresses tenant email s h =
    let (t, p, i) =
      and3 (s.tenant_id == tenant) (same_platform s.channel_platform ChannelPlatform.email)
        (str_eq (lower s.identifier) (lower (lower email))) h in
    (
      (==_iff s.tenant_id tenant).0 t,
      p,
      (str_eq_iff (lower s.identifier) (lower (lower email))).0 i ∙ lower_idem email,
    )

-- The payload that comes back, in the handler.
consume-payload :
    (serializer : Serializer) (fallback : String) (now : ℕ) (db : Db) (mail : Mail) (tenant : ℕ)
    (email : String) (o : Option SuppressionEntry)
    → is_empty fallback ≡ false
    → Signs serializer (link_payload tenant email)
    → find_where (is_entry_of tenant ChannelPlatform.email (lower email)) mail.suppressions ≡ o
    → consume_unsubscribe_token serializer fallback now db mail
        (unsubscribe_token serializer fallback mail.compliance tenant email)
      ≡ ok (suppress now db mail.suppressions tenant ChannelPlatform.email (lower email) o)
unfolding consume_unsubscribe_token consume_payload link_payload
consume-payload serializer fallback now db mail tenant email o e s f =
    rw (verify_token-unsubscribe_token serializer fallback mail.compliance tenant email e s, f) refl

known-Opted :
    (serializer : Serializer) (fallback : String) (now : ℕ) (db : Db) (mail : Mail) (tenant : ℕ)
    (email : String) (table : List SuppressionEntry) (s : SuppressionEntry)
    → is_empty fallback ≡ false
    → Signs serializer (link_payload tenant email)
    → find_where (is_entry_of tenant ChannelPlatform.email (lower email)) table ≡ some s
    → (answer : Unsubscribed) × (consume_unsubscribe_token serializer fallback now db
          (record mail { suppressions = table })
          (unsubscribe_token serializer fallback mail.compliance tenant email)
        ≡ ok answer)
      × (answer.0 ≡ db)
      × (answer.1 ≡ table)
      × (answer.2.already_existed ≡ true)
unfolding suppress
known-Opted serializer fallback now db mail tenant email table s e g f = (
  suppress now db table tenant ChannelPlatform.email (lower email) (some s),
  consume-payload serializer fallback now db (record mail { suppressions = table }) tenant email
      (some s) e g f,
  refl,
  refl,
  refl,
)

email_same : same_platform ChannelPlatform.email ChannelPlatform.email ≡ true
unfolding same_platform
email_same = refl

own_entry :
    (tenant : ℕ) (email : String) (s : SuppressionEntry)
    → Suppresses tenant (lower email) s
    → is_entry_of tenant ChannelPlatform.email (lower email) s ≡ true
unfolding is_entry_of
own_entry tenant email s h =
    let t = (==_iff s.tenant_id tenant).1 h.0 in
    let i =
      (str_eq_iff (lower s.identifier) (lower (lower email))).1 (h.2 ∙ sym (lower_idem email)) in
    rw (t, h.1, i) refl

suppress-Opted :
    (serializer : Serializer) (fallback : String) (now : ℕ) (db : Db) (mail : Mail) (tenant : ℕ)
    (email : String) (o : Option SuppressionEntry)
    → is_empty fallback ≡ false
    → Signs serializer (link_payload tenant email)
    → find_where (is_entry_of tenant ChannelPlatform.email (lower email)) mail.suppressions ≡ o
    → Opted serializer fallback mail tenant email
        (unsubscribe_token serializer fallback mail.compliance tenant email)
        (suppress now db mail.suppressions tenant ChannelPlatform.email (lower email) o)
unfolding suppress
suppress-Opted serializer fallback now db mail tenant email (some s) e g f =
    let (row, hit) = find_where-some _ mail.suppressions f in
    record {
      entry = s;
      row = row;
      suppresses = is_entry_of-Suppresses tenant email s hit;
      kept = λ x r. r;
      again = λ later.
          known-Opted serializer fallback later db mail tenant email mail.suppressions s e g f;
    }
suppress-Opted serializer fallback now db mail tenant email none e g f =
    let added : SuppressionEntry = record {
      id = db.next_id;
      tenant_id = tenant;
      channel_platform = ChannelPlatform.email;
      identifier = lower email;
      reason = "unsubscribe";
      suppressed_at = now;
    } in
    let own : Suppresses tenant (lower email) added = (refl, email_same, lower_idem email) in
    let table = mail.suppressions ++ (added ∷ []) in
    let (s, hit) =
      find_where-of_Row (is_entry_of tenant ChannelPlatform.email (lower email)) table added
        (Row-last mail.suppressions added) (own_entry tenant email added own) in
    record {
      entry = added;
      row = Row-last mail.suppressions added;
      suppresses = own;
      kept = λ x r. Row-append (added ∷ []) r;
      again = λ later. known-Opted serializer fallback later _ mail tenant email table s e g hit;
    }

-- If the signing library is sound on the link's payload and the fallback secret is not empty, then
-- whoever follows the link in an e-mail of a tenant is unsubscribed: the request succeeds, whichever of
-- the tenant's own and the fallback secret signed the link; the tenant's suppressions hold an entry for
-- the address, and what they held before; and a second request succeeds, says that the entry was
-- there, and changes nothing.
pub consume_unsubscribe_token-Opted :
    (serializer : Serializer) (fallback : String) (now : ℕ) (db : Db) (mail : Mail) (tenant : ℕ)
    (email : String)
    → is_empty fallback ≡ false
    → Signs serializer (link_payload tenant email)
    → let token = unsubscribe_token serializer fallback mail.compliance tenant email in
      (out : Unsubscribed) × (consume_unsubscribe_token serializer fallback now db mail token
        ≡ ok out)
      × Opted serializer fallback mail tenant email token out
consume_unsubscribe_token-Opted serializer fallback now db mail tenant email e g =
    let o = find_where (is_entry_of tenant ChannelPlatform.email (lower email)) mail.suppressions in
    (
      suppress now db mail.suppressions tenant ChannelPlatform.email (lower email) o,
      consume-payload serializer fallback now db mail tenant email o e g refl,
      suppress-Opted serializer fallback now db mail tenant email o e g refl,
    )

-- Once a request for the link of an address succeeded, no dispatch of an asset of that tenant, on any
-- later database and mail tables that still hold the suppressions which the request left, hands the
-- address to the provider: a provider that differs on batches with that address only gives the same
-- result. The signing library is sound on the link's payload and the fallback secret is not empty.
pub unsubscribed-never_sent :
    (serializer : Serializer) (fallback : String) (now : ℕ) (db : Db) (mail : Mail) (email : String)
    (later : Db) (letters : Mail) (w : World) (p : Provider) (asset_id : ℕ) (asset : ContentAsset)
    (out : Unsubscribed)
    → is_empty fallback ≡ false
    → Signs serializer (link_payload asset.tenant_id email)
    → consume_unsubscribe_token serializer fallback now db mail
        (unsubscribe_token serializer fallback mail.compliance asset.tenant_id email)
      ≡ ok out
    → ((s : SuppressionEntry) → Row s out.1 → Row s letters.suppressions)
    → find_where (has_asset_id asset_id) later.assets ≡ some asset
    → ((from_email : String) (message : EmailMessage) (rs : List EmailRecipient)
        → All (λ (r : EmailRecipient). r.email ≢ lower email) rs
        → w.provider from_email message rs ≡ p from_email message rs)
    → dispatch_email_asset w later letters asset_id
      ≡ dispatch_email_asset (with_provider w p) later letters asset_id
unsubscribed-never_sent serializer fallback now db mail email later letters w p asset_id asset out e
      g h k f agree =
    let (done, eq, opted) =
      consume_unsubscribe_token-Opted serializer fallback now db mail asset.tenant_id email e g in
    let same : out ≡ done = cc (h, eq) in
    let row : Row opted.entry letters.suppressions = k opted.entry (rw same opted.row) in
    dispatch_email_asset-agrees w p later letters asset_id
      (λ a found from_email message rs all nonempty.
        let its : asset ≡ a = cc (f, found) in
        agree from_email message rs (
          All-map (MayReceive w letters a) (λ (r : EmailRecipient). r.email ≢ lower email) rs
            (λ r m q. m.not_suppressed opted.entry row (
              opted.suppresses.0 ∙ ap (λ (x : ContentAsset). x.tenant_id) its,
              opted.suppresses.1,
              opted.suppresses.2 ∙ sym q,
            ))
            all))
