-- ===== src/Webhooks.antt =====
-- app/webhooks/dispatcher.py, app/webhooks/base.py and app/webhooks/registry.py: inbound webhooks. JSON
-- payloads and bodies are texts; the reading of ISO times is an argument.
pub mod Dispatcher
pub mod Handlers
pub mod Ingested
pub mod Answers
pub mod Replay
pub mod Authentic
use marketing_agentic_system.Common.{
  ℕ, ◌+◌, String, Bool, true, false, ◌&&◌, Option, none, some, List, [], ◌∷◌, ◌++◌, ◌==◌,
  if◌then◌else◌, str_eq, is_some, map, find_where, any_where,
}
use marketing_agentic_system.Common.Text.{lower, clean}
use marketing_agentic_system.Queue.{text}
use marketing_agentic_system.Data.{
  Db, Result, ok, err, Error, exception, nothing, write_audit, ◌>>=◌,
}
use marketing_agentic_system.Mail.{IntegrationCredential}
use marketing_agentic_system.EmailDispatch.Address.{member_of}
use marketing_agentic_system.EmailDispatch.Footer.{is_empty}

pub data EventKind : Type 0 where
  impression click opened reply conversion unsubscribe bounce spam_complaint spend : EventKind

pub record SignatureCheck : Type 0 where
  pub valid : Bool
  pub reason : Option String

pub record MappedEvent : Type 0 where
  pub provider_event_id : String
  pub event_type : String
  pub occurred_at : Option String
  pub payload : String

pub record AnalyticEvent : Type 0 where
  pub id : ℕ
  pub tenant_id : ℕ
  pub event_type : EventKind
  pub payload : String
  pub provider_event_id : Option String
  pub event_at : ℕ

abbrev pub Headers : Type 0
Headers = List (String × String)

pub record RawWebhook : Type 0 where
  pub id : ℕ
  pub tenant_id : ℕ
  pub provider : String
  pub signature_valid : Bool
  pub signature_reason : Option String
  pub headers : Headers
  pub payload : String
  pub mapped_event_id : Option ℕ

-- What the handler of a provider is given: of the credential's payload, the secret.
pub record ProviderHandler : Type 0 where
  pub provider : String
  pub verify_signature : Headers → String → Option IntegrationCredential → SignatureCheck
  pub map_to_events : String → Result (List MappedEvent)

-- The session: the tables of webhooks, and the rest for the audit log and the ids.
pub record Inbox : Type 0 where
  pub db : Db
  pub events : List AnalyticEvent
  pub raw_webhooks : List RawWebhook
  pub credentials : List IntegrationCredential

pub record DispatchResult : Type 0 where
  pub signature_valid : Bool
  pub signature_reason : Option String
  pub raw_webhook_id : ℕ
  pub events_written : ℕ
  pub events_deduped : ℕ
  pub mapped_event_id : Option ℕ

abbrev pub ProviderRegistry : Type 0
ProviderRegistry = List ProviderHandler

-- ProviderRegistry.register; `none` is the ValueError of a provider that is taken.
unfoldable pub register_provider : ProviderHandler → ProviderRegistry → Option ProviderRegistry
register_provider h handlers =
    if any_where (λ (x : ProviderHandler). str_eq x.provider h.provider) handlers
    then none
    else some (handlers ++ (h ∷ []))

abbrev pub unknown_provider : Error
unknown_provider = exception "UnknownProviderError"

unfoldable pub known_handler : Option ProviderHandler → Result ProviderHandler
known_handler none = err unknown_provider
known_handler (some h) = ok h

-- ProviderRegistry.get
unfoldable pub get_provider : String → ProviderRegistry → Result ProviderHandler
unfolding known_handler
get_provider provider handlers =
    known_handler
      (find_where (λ (x : ProviderHandler). str_eq x.provider (clean provider)) handlers)

-- _load_credential_payload; a second row of the provider raises.
unfoldable pub only_credential : List IntegrationCredential → Result (Option IntegrationCredential)
only_credential [] = ok none
only_credential (c ∷ []) = ok (some c)
only_credential (c ∷ d ∷ rest) = err (exception "MultipleResultsFound")

-- _normalise_headers
abbrev pub redacted : List String
redacted = "x-mas-webhook-secret" ∷ "authorization" ∷ "cookie" ∷ []

unfoldable pub normalise_header : String × String → String × String
normalise_header (name, value) =
    (name, if member_of (lower name) redacted then "***redacted***" else value)

unfoldable pub normalise_headers : Headers → Headers
normalise_headers headers = map normalise_header headers

-- EventKind(value)
abbrev pub event_kinds : List (String × EventKind)
event_kinds =
    ("impression", EventKind.impression)
    ∷ ("click", EventKind.click)
    ∷ ("open", EventKind.opened)
    ∷ ("reply", EventKind.reply)
    ∷ ("conversion", EventKind.conversion)
    ∷ ("unsubscribe", EventKind.unsubscribe)
    ∷ ("bounce", EventKind.bounce)
    ∷ ("spam_complaint", EventKind.spam_complaint)
    ∷ ("spend", EventKind.spend)
    ∷ []

unfoldable pub kind_of : Option (String × EventKind) → Option EventKind
kind_of none = none
kind_of (some e) = some e.1

-- _coerce_event_kind
unfoldable pub coerce_event_kind : String → Option EventKind
unfolding kind_of
coerce_event_kind value =
    kind_of (find_where (λ (e : String × EventKind). str_eq e.0 value) event_kinds)

-- datetime.fromisoformat; `none` is its ValueError.
abbrev pub ParseIso : Type 0
ParseIso = String → Option ℕ

unfoldable pub or_now : ℕ → Option ℕ → ℕ
or_now now none = now
or_now now (some t) = t

-- _parse_iso_or_now
unfoldable pub parse_iso_or_now : ParseIso → ℕ → Option String → ℕ
unfolding or_now
parse_iso_or_now parse_iso now none = now
parse_iso_or_now parse_iso now (some value) =
    if is_empty value then now else or_now now (parse_iso value)

abbrev has_event_id : String → Option String → Bool
has_event_id i none = false
has_event_id i (some j) = str_eq j i

-- The partial unique index on (tenant_id, provider_event_id).
unfoldable pub is_event_of : ℕ → String → AnalyticEvent → Bool
is_event_of tenant_id provider_event_id e =
    (e.tenant_id == tenant_id) && has_event_id provider_event_id e.provider_event_id

-- The loop's variables, the table and the next id.
pub record Ingest : Type 0 where
  pub events : List AnalyticEvent
  pub next_id : ℕ
  pub events_written : ℕ
  pub events_deduped : ℕ
  pub first_mapped_id : Option ℕ

unfoldable pub or_first : Option ℕ → ℕ → Option ℕ
or_first none i = some i
or_first (some first) i = some first

-- INSERT ... ON CONFLICT DO NOTHING RETURNING id
unfoldable pub insert_event : ParseIso → ℕ → ℕ → MappedEvent → EventKind → Ingest → Ingest
unfolding or_first
insert_event parse_iso now tenant_id evt kind s =
    if any_where (is_event_of tenant_id evt.provider_event_id) s.events
    then record s { events_deduped = s.events_deduped + 1 }
    else record {
      events =
          s.events
          ++ (record {
            id = s.next_id;
            tenant_id = tenant_id;
            event_type = kind;
            payload = evt.payload;
            provider_event_id = some evt.provider_event_id;
            event_at = parse_iso_or_now parse_iso now evt.occurred_at;
          }
              ∷ []);
      next_id = s.next_id + 1;
      events_written = s.events_written + 1;
      events_deduped = s.events_deduped;
      first_mapped_id = or_first s.first_mapped_id s.next_id;
    }

unfoldable pub ingest_one : ParseIso → ℕ → ℕ → MappedEvent → Option EventKind → Ingest → Ingest
unfolding insert_event
ingest_one parse_iso now tenant_id evt none s = s
ingest_one parse_iso now tenant_id evt (some kind) s =
    insert_event parse_iso now tenant_id evt kind s

unfoldable pub ingest : ParseIso → ℕ → ℕ → List MappedEvent → Ingest → Ingest
unfolding ingest_one
ingest parse_iso now tenant_id [] s = s
ingest parse_iso now tenant_id (evt ∷ rest) s =
    ingest parse_iso now tenant_id rest
      (ingest_one parse_iso now tenant_id evt (coerce_event_kind evt.event_type) s)
