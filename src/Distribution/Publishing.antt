-- ===== src/Distribution/Publishing.antt =====
-- app/agents/distribution.py: the steps of `dispatch_email_asset`, up to the campaign's going live.
use Prim.Native.String.{◌++◌ as append}
use marketing_agentic_system.Common.{
  ℕ, String, Bool, true, false, ◌&&◌, Option, none, some, List, [], ◌∷◌, ◌==◌, if◌then◌else◌,
  get_or_else, str_eq, select_where,
}
use marketing_agentic_system.Queue.{Payload, number}
use marketing_agentic_system.Data.{
  CampaignStatus, AssetStatus, Campaign, ContentAsset, DispatchSummary, Db, Result, ok, err, Error,
  exception, unknown_transition, guard_failed, http, ◌>>=◌, of_asset, write_asset, write_audit,
}
use marketing_agentic_system.AbTesting.{Hash}
use marketing_agentic_system.Mail.{AudienceMember, IntegrationCredential, Mail}
use marketing_agentic_system.EmailDispatch.Footer.{EmailMessage, ComplianceFooter}
use marketing_agentic_system.EmailDispatch.Tool.{EmailRecipient, SendResult, EmailConnector, call}
use marketing_agentic_system.StateMachine.Machine.{Hooks, apply_campaign}
use marketing_agentic_system.Unsubscribe.{Serializer, unsubscribe_token}
use marketing_agentic_system.Distribution.Recipients.{Racers}
use marketing_agentic_system.Distribution.Sends.{tool_inputs, Tally, record_sends}

-- `send_batch` of the connector.
abbrev pub Provider : Type 0
Provider = String → EmailMessage → List EmailRecipient → Result (List SendResult)

-- What the handler meets outside of the database: the clock, the hash and the racing workers of
-- `assign_variant`, the signing of links, the provider, and the hooks of the state machine.
pub record World : Type 0 where
  pub now : ℕ
  pub hash : Hash
  pub racers : Racers
  pub serializer : Serializer
  pub fallback_secret : String
  pub provider : Provider
  pub hooks : Hooks

-- The dictionary that is returned, and what the session then holds.
pub data Outcome : Type 0 where
  campaign_paused : AssetStatus → Outcome
  dispatched : AssetStatus → DispatchSummary → Outcome

pub record Dispatched : Type 0 where
  pub db : Db
  pub mail : Mail
  pub outcome : Outcome

abbrev pub precondition_error : Error
precondition_error = exception "DistributionPreconditionError"

-- scalar_one_or_none() and the check that there is one.
unfoldable pub only : List IntegrationCredential → Result IntegrationCredential
only [] = err precondition_error
only (c ∷ []) = ok c
only (c ∷ d ∷ rest) = err (exception "MultipleResultsFound")

-- _load_email_connector, up to the decryption of the payload.
unfoldable pub load_email_credential : Mail → ℕ → Result IntegrationCredential
unfolding only
load_email_credential mail tenant_id = only (
    select_where
      (λ (c : IntegrationCredential). (c.tenant_id == tenant_id) && str_eq c.provider "sendgrid")
      mail.credentials)

unfoldable pub connector_of : World → IntegrationCredential → EmailConnector
connector_of w c = record {
  provider = c.provider;
  verified_senders = c.verified_senders;
  send_batch = w.provider;
}

-- The link of `_build_unsubscribe_signer`; there is one only if there is a footer.
unfoldable pub url_of : World → Mail → ℕ → Option ComplianceFooter → String → Option String
url_of w mail tenant_id none email = none
url_of w mail tenant_id (some footer) email = some (
    append "https://app.example.com/api/unsubscribe/"
      (unsubscribe_token w.serializer w.fallback_secret mail.compliance tenant_id email))

-- The tool is called only if someone is left to write to.
unfoldable pub send_to :
    World
    → Mail
    → ContentAsset
    → IntegrationCredential
    → Option ComplianceFooter
    → List (AudienceMember × String)
    → Tally
    → Result Tally
unfolding connector_of url_of
send_to w mail asset cred footer [] t = ok t
send_to w mail asset cred footer (r ∷ rest) t =
    call (connector_of w cred) asset.tenant_id mail.suppressions (
      tool_inputs (url_of w mail asset.tenant_id footer) (get_or_else cred.default_from_email "")
        footer asset (r ∷ rest))
    >>= λ result. ok (record_sends w.now asset cred.provider result (r ∷ rest) t)

-- The asset once it is published.
unfoldable pub published : ℕ → DispatchSummary → String → ContentAsset → ContentAsset
published now summary provider a = record a {
  status = AssetStatus.published;
  published_at = some now;
  extra_metadata = record a.extra_metadata {
    dispatch_summary = some summary;
    dispatch_provider = some provider;
  };
}

-- The counts in the audit entry.
unfoldable pub summary_payload : DispatchSummary → Payload
summary_payload s =
    ("sent", number s.sent)
    ∷ ("suppressed", number s.suppressed)
    ∷ ("rejected", number s.rejected)
    ∷ ("skipped", number s.skipped)
    ∷ ("deduped", number s.deduped)
    ∷ ("audience_size", number s.audience_size)
    ∷ []

unfoldable pub publish : ℕ → DispatchSummary → String → ContentAsset → Db → Db
unfolding published summary_payload
publish now summary provider a db =
    let b = published now summary provider a in
    write_audit
      (record {
        tenant_id = a.tenant_id;
        entity_kind = "content_asset";
        entity_id = a.id;
        action = "published";
        before_state = of_asset a;
        after_state = of_asset b;
        extra_metadata = summary_payload summary;
        applied_threshold = none;
      })
      (write_asset b db)

-- A refused transition is no error; whatever else is raised leaves the handler.
unfoldable pub after_start_live : Db → Result (Db × Campaign) → Result Db
after_start_live db (ok (db', campaign)) = ok db'
after_start_live db (err unknown_transition) = ok db
after_start_live db (err guard_failed) = ok db
after_start_live db (err (http status)) = err (http status)
after_start_live db (err (exception name)) = err (exception name)

unfoldable pub is_ready_to_launch : CampaignStatus → Bool
is_ready_to_launch CampaignStatus.ready_to_launch = true
is_ready_to_launch _ = false

-- _maybe_go_live
unfoldable pub maybe_go_live : World → Db → Campaign → Result Db
unfolding after_start_live is_ready_to_launch
maybe_go_live w db campaign =
    if is_ready_to_launch campaign.status
    then after_start_live db (apply_campaign w.hooks w.now db campaign "start_live")
    else ok db
