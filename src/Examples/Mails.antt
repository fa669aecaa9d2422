-- ===== src/Examples/Mails.antt =====
-- The theorems on the dispatch of e-mails (app/agents/distribution.py, app/tools/email_dispatch.py) and on
-- unsubscribing (app/api/unsubscribe.py), at an audience of two members, one of whom is suppressed.
use marketing_agentic_system.Common.{
  ◌≡◌, ◌≢◌, refl, sym, ◌∙◌, String, true, false, not, ◌&&◌, ◌||◌, none, some, List, [], ◌∷◌, inl,
  inr, Bool-cases, if◌then◌else◌, str_eq, str_eq_iff, any_where, All, All-map, first, find_where,
}
use marketing_agentic_system.Common.Text.{
  clean, strip, lstrip, rstrip, lower, before_stripped, lower_char, is_upper, is_blank, of_code,
  char_of, below_surrogates,
}
use marketing_agentic_system.Data.{
  CampaignStatus, AssetStatus, ContentAsset, Db, Result, ok, err, exception, has_asset_id,
}
use marketing_agentic_system.Mail.{
  ChannelPlatform, same_platform, AudienceMember, SuppressionEntry, AttemptStatus, DispatchAttempt,
  Mail,
}
use marketing_agentic_system.EmailDispatch.Footer.{EmailMessage}
use marketing_agentic_system.EmailDispatch.Tool.{EmailRecipient, SendResult}
use marketing_agentic_system.EmailDispatch.Screened.{Suppresses}
use marketing_agentic_system.Unsubscribe.{
  Serializer, link_payload, unsubscribe_token, Unsubscribed, consume_unsubscribe_token,
}
use marketing_agentic_system.Unsubscribe.RoundTrip.{
  Opted, consume_unsubscribe_token-Opted, unsubscribed-never_sent,
}
use marketing_agentic_system.Unsubscribe.Tokens.{Signs}
use marketing_agentic_system.Distribution.Email.{dispatch_email_asset}
use marketing_agentic_system.Distribution.Publishing.{World, Provider}
use marketing_agentic_system.Distribution.Attempts.{
  has_idempotency_key, is_sent, upsert_dispatch_attempt,
}
use marketing_agentic_system.Distribution.Delivered.{Dispatch, dispatch_email_asset-Dispatch}
use marketing_agentic_system.Distribution.Safety.{
  MayReceive, with_provider, dispatch_email_asset-agrees,
}
use marketing_agentic_system.Distribution.OnRecord.{is_on_record, upsert_dispatch_attempt-on_record}
use marketing_agentic_system.Examples.{office, newsletter, no_hooks}

cleans : clean "  Ann@Mail.IO " ≡ "ann@mail.io"
unfolding clean strip lstrip rstrip lower before_stripped lower_char is_upper is_blank of_code
    char_of below_surrogates
cleans = refl

abbrev member : String → AudienceMember
member address = record {
  audience_id = 80;
  external_id = address;
  email = some address;
  fields = [];
}

abbrev opted_out : SuppressionEntry
opted_out = record {
  id = 90;
  tenant_id = 1;
  channel_platform = ChannelPlatform.email;
  identifier = "bob@mail.io";
  reason = "unsubscribe";
  suppressed_at = 2;
}

abbrev mail : Mail
mail = record {
  audiences = record { id = 80; campaign_id = 5; created_at = 1 } ∷ [];
  audience_members = member "ann@mail.io" ∷ member "bob@mail.io" ∷ [];
  suppressions = opted_out ∷ [];
  attempts = [];
  frequency_caps = [];
  compliance = [];
  credentials =
      record {
        tenant_id = 1;
        provider = "sendgrid";
        verified_senders = [];
        default_from_email = some "news@mail.io";
        webhook_secret = none;
      }
      ∷ [];
  ab_tests = [];
  assignments = [];
}

abbrev accepts : List EmailRecipient → List SendResult
accepts [] = []
accepts (r ∷ rest) =
    record { email = r.email; provider_message_id = some "m1"; accepted = true; error = none }
    ∷ accepts rest

-- A token is its secret.
abbrev serializer : Serializer
serializer = record {
  dumps = λ secret payload. secret;
  loads = λ secret token. if str_eq secret token then some (link_payload 1 "ann@mail.io") else none;
}

abbrev world : World
world = record {
  now = 40;
  hash = λ test recipient. 3;
  racers = λ rows. rows;
  serializer = serializer;
  fallback_secret = "dev";
  provider = λ from_email message rs. ok (accepts rs);
  hooks = no_hooks;
}

abbrev due_office : Db
due_office = office CampaignStatus.live AssetStatus.scheduled

dispatch_email_asset-Dispatch_example :
    Dispatch world due_office mail 3 (dispatch_email_asset world due_office mail 3)
dispatch_email_asset-Dispatch_example = dispatch_email_asset-Dispatch world due_office mail 3

-- A provider that fails whenever the address is in the batch.
abbrev failing_for : String → Provider
failing_for address from_email message rs =
    if any_where (λ (r : EmailRecipient). str_eq r.email address) rs
    then err (exception "ProviderUnreachableError")
    else ok (accepts rs)

not_in :
    (address : String) (rs : List EmailRecipient)
    → All (λ (r : EmailRecipient). r.email ≢ address) rs
    → any_where (λ (r : EmailRecipient). str_eq r.email address) rs ≡ false
not_in address [] h = refl
not_in address (r ∷ rest) h = elim (Bool-cases (str_eq r.email address)) [
  | inl t ↦ absurd (h.0 ((str_eq_iff r.email address).0 t))
  | inr f ↦ rw f (not_in address rest h.1)
]

failing_same :
    (address from_email : String) (message : EmailMessage) (rs : List EmailRecipient)
    → All (λ (r : EmailRecipient). r.email ≢ address) rs
    → ◌≡◌ {A = Result (List SendResult)}
        (ok (accepts rs))
        (failing_for address from_email message rs)
failing_same address from_email message rs h = rw (not_in address rs h) refl

bob_suppressed : Suppresses 1 "bob@mail.io" opted_out
unfolding same_platform lower lower_char is_upper
bob_suppressed = (refl, refl, refl)

scheduled : find_where (has_asset_id 3) due_office.assets ≡ some (newsletter AssetStatus.scheduled)
scheduled = refl

not_bob :
    (asset : ContentAsset) (r : EmailRecipient)
    → some (newsletter AssetStatus.scheduled) ≡ some asset
    → MayReceive world mail asset r
    → r.email ≢ "bob@mail.io"
not_bob asset r e m h =
    let tenant : 1 ≡ asset.tenant_id = cc in
    m.not_suppressed opted_out (first refl) (tenant, bob_suppressed.1, bob_suppressed.2 ∙ sym h)

dispatch_email_asset-agrees_example :
    dispatch_email_asset world due_office mail 3
    ≡ dispatch_email_asset (with_provider world (failing_for "bob@mail.io")) due_office mail 3
dispatch_email_asset-agrees_example =
    dispatch_email_asset-agrees world (failing_for "bob@mail.io") due_office mail 3
      (λ asset found from_email message rs all nonempty.
        failing_same "bob@mail.io" from_email message rs (
          All-map (MayReceive world mail asset) (λ (r : EmailRecipient). r.email ≢ "bob@mail.io") rs
            (λ r m. not_bob asset r found m) all))

signs : Signs serializer (link_payload 1 "ann@mail.io")
signs = record {
  back = λ k. rw ((str_eq_iff k k).1 refl) refl;
  strict = λ k l h. elim (Bool-cases (str_eq l k)) [
    | inl t ↦ absurd (h (sym ((str_eq_iff l k).0 t)))
    | inr f ↦ rw f refl
  ];
}

abbrev token : String
token = unsubscribe_token serializer "dev" mail.compliance 1 "ann@mail.io"

consume_unsubscribe_token-Opted_example :
    (out : Unsubscribed) × (consume_unsubscribe_token serializer "dev" 50 due_office mail token
      ≡ ok out)
    × Opted serializer "dev" mail 1 "ann@mail.io" token out
consume_unsubscribe_token-Opted_example =
    consume_unsubscribe_token-Opted serializer "dev" 50 due_office mail 1 "ann@mail.io" refl signs

left_by_link :
    (out : Unsubscribed) × (consume_unsubscribe_token serializer "dev" 50 due_office mail token
      ≡ ok out)
left_by_link =
    let (out, done, opted) =
      consume_unsubscribe_token-Opted serializer "dev" 50 due_office mail 1 "ann@mail.io" refl
        signs in
    (out, done)

unsubscribed-never_sent_example :
    let mail' = record mail { suppressions = left_by_link.0.1 } in
    dispatch_email_asset world due_office mail' 3
    ≡ dispatch_email_asset
        (with_provider world (failing_for (lower "ann@mail.io")))
        due_office
        mail'
        3
unsubscribed-never_sent_example =
    unsubscribed-never_sent serializer "dev" 50 due_office mail "ann@mail.io" due_office
      (record mail { suppressions = left_by_link.0.1 }) world (failing_for (lower "ann@mail.io")) 3
      (newsletter AssetStatus.scheduled) left_by_link.0 refl signs left_by_link.1 (λ s r. r)
      scheduled (failing_same (lower "ann@mail.io"))

abbrev failed_before : DispatchAttempt
failed_before = record {
  tenant_id = 1;
  content_asset_id = 3;
  audience_external_id = some "ann@mail.io";
  recipient_identifier = "ann@mail.io";
  idempotency_key = (3, "ann@mail.io");
  provider = "sendgrid";
  provider_message_id = none;
  status = AttemptStatus.failed;
  attempt_count = 1;
  last_error = some "no_provider_acknowledgement";
  sent_at = none;
}

abbrev sent_now : DispatchAttempt
sent_now = record failed_before {
  provider_message_id = some "m1";
  status = AttemptStatus.sent;
  last_error = none;
  sent_at = some 40;
}

upsert_dispatch_attempt-on_record_example :
    any_where
      (is_on_record 1 (3, "ann@mail.io"))
      (upsert_dispatch_attempt sent_now (failed_before ∷ []))
    ≡ (any_where (is_on_record 1 (3, "ann@mail.io")) (failed_before ∷ [])
        || (not (any_where (has_idempotency_key 1 (3, "ann@mail.io")) (failed_before ∷ []))
            && is_sent AttemptStatus.sent))
upsert_dispatch_attempt-on_record_example =
    upsert_dispatch_attempt-on_record sent_now (failed_before ∷ [])
