-- ===== src/Webhooks/Dispatcher.antt =====
-- `dispatch_webhook` of app/webhooks/dispatcher.py.
use marketing_agentic_system.Common.{
  ℕ, ◌+◌, String, true, false, ◌&&◌, Option, none, some, List, [], ◌∷◌, ◌++◌, ◌==◌, if◌then◌else◌,
  str_eq, select_where,
}
use marketing_agentic_system.Queue.{text}
use marketing_agentic_system.Data.{Result, ok, nothing, write_audit, ◌>>=◌}
use marketing_agentic_system.Mail.{IntegrationCredential}
use marketing_agentic_system.EmailDispatch.Footer.{is_empty}
use marketing_agentic_system.Webhooks.{
  SignatureCheck, RawWebhook, Headers, ProviderHandler, Inbox, DispatchResult, ProviderRegistry,
  get_provider, only_credential, normalise_headers, ParseIso, Ingest, ingest,
}

-- _load_credential_payload
unfoldable pub load_credential_payload :
    List IntegrationCredential → ℕ → String → Result (Option IntegrationCredential)
unfolding only_credential
load_credential_payload credentials tenant_id provider = only_credential (
    select_where
      (λ (c : IntegrationCredential). (c.tenant_id == tenant_id) && str_eq c.provider provider)
      credentials)

unfoldable pub raw_row : ℕ → ℕ → String → SignatureCheck → Headers → String → Option ℕ → RawWebhook
raw_row id tenant_id provider sig headers body mapped_event_id = record {
  id = id;
  tenant_id = tenant_id;
  provider = provider;
  signature_valid = sig.valid;
  signature_reason = sig.reason;
  headers = normalise_headers headers;
  payload = body;
  mapped_event_id = mapped_event_id;
}

-- sig.reason or "invalid"
unfoldable pub reason_text : Option String → String
reason_text none = "invalid"
reason_text (some reason) = if is_empty reason then "invalid" else reason

-- The raw webhook is kept, and the failure audited.
unfoldable pub reject_signature :
    Inbox → ℕ → ProviderHandler → Headers → String → SignatureCheck → Inbox × DispatchResult
unfolding raw_row reason_text
reject_signature inbox tenant_id handler headers body sig =
    let id = inbox.db.next_id in
    (
      record inbox {
        db =
            write_audit
              (record {
                tenant_id = tenant_id;
                entity_kind = "raw_webhook";
                entity_id = id;
                action = "webhook_signature_failed";
                before_state = nothing;
                after_state = nothing;
                extra_metadata =
                    ("provider", text handler.provider)
                    ∷ ("reason", text (reason_text sig.reason))
                    ∷ [];
                applied_threshold = none;
              })
              (record inbox.db { next_id = id + 1 });
        raw_webhooks =
            inbox.raw_webhooks
            ++ (raw_row id tenant_id handler.provider sig headers body none ∷ []);
      },
      record {
        signature_valid = false;
        signature_reason = sig.reason;
        raw_webhook_id = id;
        events_written = 0;
        events_deduped = 0;
        mapped_event_id = none;
      },
    )

abbrev pub first_ingest : Inbox → Ingest
first_ingest inbox = record {
  events = inbox.events;
  next_id = inbox.db.next_id + 1;
  events_written = 0;
  events_deduped = 0;
  first_mapped_id = none;
}

-- The raw webhook is kept and points to the first event that it led to.
unfoldable pub accept_signature :
    Inbox
    → ℕ
    → ProviderHandler
    → Headers
    → String
    → SignatureCheck
    → Ingest
    → Inbox × DispatchResult
unfolding raw_row
accept_signature inbox tenant_id handler headers body sig s =
    let id = inbox.db.next_id in
    (
      record inbox {
        db = record inbox.db { next_id = s.next_id };
        events = s.events;
        raw_webhooks =
            inbox.raw_webhooks
            ++ (raw_row id tenant_id handler.provider sig headers body s.first_mapped_id ∷ []);
      },
      record {
        signature_valid = true;
        signature_reason = none;
        raw_webhook_id = id;
        events_written = s.events_written;
        events_deduped = s.events_deduped;
        mapped_event_id = s.first_mapped_id;
      },
    )

unfoldable pub after_check :
    ParseIso
    → ℕ
    → Inbox
    → ℕ
    → ProviderHandler
    → Headers
    → String
    → SignatureCheck
    → Result (Inbox × DispatchResult)
unfolding reject_signature accept_signature
after_check parse_iso now inbox tenant_id handler headers body sig =
    if sig.valid
    then (handler.map_to_events body >>= λ mapped. ok (
        accept_signature inbox tenant_id handler headers body sig
          (ingest parse_iso now tenant_id mapped (first_ingest inbox))))
    else ok (reject_signature inbox tenant_id handler headers body sig)

unfoldable pub dispatch_webhook :
    ParseIso
    → ProviderRegistry
    → ℕ
    → Inbox
    → String
    → ℕ
    → Headers
    → String
    → Result (Inbox × DispatchResult)
unfolding after_check
dispatch_webhook parse_iso registry now inbox provider tenant_id headers body =
    get_provider provider registry >>= λ handler.
    load_credential_payload inbox.credentials tenant_id handler.provider >>= λ credential.
    after_check parse_iso now inbox tenant_id handler headers body
      (handler.verify_signature headers body credential)
