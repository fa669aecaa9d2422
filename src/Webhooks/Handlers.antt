-- ===== src/Webhooks/Handlers.antt =====
-- app/webhooks/sendgrid.py with the parser of app/integrations/email/sendgrid.py, and
-- app/webhooks/linkedin.py: the built-in handlers. The reading of JSON is an argument.
use marketing_agentic_system.Common.{
  String, true, false, Option, none, some, List, [], ◌∷◌, if◌then◌else◌, str_eq, find_where,
  get_or_else,
}
use marketing_agentic_system.Common.Text.{lower}
use marketing_agentic_system.Data.{Result, ok, ◌>>=◌}
use marketing_agentic_system.Mail.{IntegrationCredential}
use marketing_agentic_system.EmailDispatch.Footer.{is_empty}
use marketing_agentic_system.Webhooks.{
  SignatureCheck, MappedEvent, Headers, ProviderHandler, ProviderRegistry,
}

-- A text that is there and not empty.
unfoldable pub nonempty : Option String → Option String
nonempty none = none
nonempty (some s) = if is_empty s then none else some s

unfoldable pub header_value : Option (String × String) → Option String
header_value none = none
header_value (some h) = some h.1

-- headers.get(name)
unfoldable pub header_of : String → Headers → Option String
unfolding header_value
header_of name headers =
    header_value (find_where (λ (h : String × String). str_eq h.0 name) headers)

unfoldable pub or_else : Option String → Option String → Option String
or_else none o = o
or_else (some s) o = some s

-- headers.get("x-mas-webhook-secret") or headers.get("X-MAS-Webhook-Secret"), if it is not empty
unfoldable pub provided_secret : Headers → Option String
unfolding nonempty header_of or_else
provided_secret headers =
    or_else (nonempty (header_of "x-mas-webhook-secret" headers))
      (nonempty (header_of "X-MAS-Webhook-Secret" headers))

abbrev pub invalid : String → SignatureCheck
invalid reason = record { valid = false; reason = some reason }

abbrev pub valid_signature : SignatureCheck
valid_signature = record { valid = true; reason = none }

-- What the two handlers differ in: the reason for a header that is missing.
unfoldable pub compare_secret : String → String → Option String → SignatureCheck
compare_secret missing expected none = invalid missing
compare_secret missing expected (some provided) =
    if str_eq provided expected then valid_signature else invalid "secret_mismatch"

unfoldable pub check_secret : String → Headers → Option String → SignatureCheck
unfolding compare_secret
check_secret missing headers none = invalid "webhook_secret_not_configured"
check_secret missing headers (some expected) =
    compare_secret missing expected (provided_secret headers)

unfoldable pub verify_shared_secret :
    String → Headers → Option IntegrationCredential → SignatureCheck
unfolding check_secret
verify_shared_secret missing headers none = invalid "no_credential"
verify_shared_secret missing headers (some c) =
    check_secret missing headers (nonempty c.webhook_secret)

-- An event object of SendGrid's: the keys that are read, and what `datetime.fromtimestamp` makes of its
-- `timestamp`, if that is a number: the ISO form, or the error that it raises for one out of range.
pub record RawEvent : Type 0 where
  pub event : String
  pub sg_event_id : Option String
  pub sg_message_id : Option String
  pub timestamp : Result (Option String)
  pub payload : String

-- _SENDGRID_EVENT_MAP
abbrev pub sendgrid_event_map : List (String × String)
sendgrid_event_map =
    ("delivered", "delivered")
    ∷ ("open", "open")
    ∷ ("click", "click")
    ∷ ("bounce", "bounce")
    ∷ ("dropped", "bounce")
    ∷ ("deferred", "other")
    ∷ ("processed", "other")
    ∷ ("spamreport", "spam_complaint")
    ∷ ("unsubscribe", "unsubscribe")
    ∷ ("group_unsubscribe", "unsubscribe")
    ∷ ("group_resubscribe", "other")
    ∷ []

-- _EVENT_KIND_FOR_NORMALISED
abbrev pub event_kind_for_normalised : List (String × String)
event_kind_for_normalised =
    ("delivered", "impression")
    ∷ ("open", "open")
    ∷ ("click", "click")
    ∷ ("bounce", "bounce")
    ∷ ("spam_complaint", "spam_complaint")
    ∷ ("unsubscribe", "unsubscribe")
    ∷ []

pub record EmailWebhookEvent : Type 0 where
  pub provider_event_id : String
  pub event_type : String
  pub occurred_at : Option String
  pub payload : String

unfoldable pub add_parsed :
    RawEvent → Option String → Result (List EmailWebhookEvent) → Result (List EmailWebhookEvent)
unfolding header_of
add_parsed raw none out = out
add_parsed raw (some event_id) out = do
  occurred_at ← raw.timestamp
  more ← out
  ok (
      record {
        provider_event_id = event_id;
        event_type = get_or_else (header_of (lower raw.event) sendgrid_event_map) "other";
        occurred_at = occurred_at;
        payload = raw.payload;
      }
      ∷ more)

-- SendGridConnector.parse_webhook
unfoldable pub parse_webhook : List RawEvent → Result (List EmailWebhookEvent)
unfolding add_parsed
parse_webhook [] = ok []
parse_webhook (raw ∷ rest) =
    add_parsed raw (or_else (nonempty raw.sg_event_id) (nonempty raw.sg_message_id))
      (parse_webhook rest)

unfoldable pub add_mapped : EmailWebhookEvent → Option String → List MappedEvent → List MappedEvent
add_mapped evt none out = out
add_mapped evt (some event_kind) out =
    record {
      provider_event_id = evt.provider_event_id;
      event_type = event_kind;
      occurred_at = evt.occurred_at;
      payload = evt.payload;
    }
    ∷ out

unfoldable pub map_events : List EmailWebhookEvent → List MappedEvent
unfolding add_mapped
map_events [] = []
map_events (evt ∷ rest) =
    add_mapped evt (header_of evt.event_type event_kind_for_normalised) (map_events rest)

-- The event objects of a body: none if it is empty, no JSON, or neither an array nor an object, and an
-- error if its bytes are no text, which `json.loads` raises and the handler does not catch.
abbrev pub ReadEvents : Type 0
ReadEvents = String → Result (List RawEvent)

-- SendGridWebhookHandler
abbrev pub sendgrid_handler : ReadEvents → ProviderHandler
sendgrid_handler read = record {
  provider = "sendgrid";
  verify_signature =
      λ headers body credential. verify_shared_secret "missing_header" headers credential;
  map_to_events =
      λ body. read body >>= λ events. parse_webhook events >>= λ parsed. ok (map_events parsed);
}

-- LinkedInWebhookHandler
abbrev pub linkedin_handler : ProviderHandler
linkedin_handler = record {
  provider = "linkedin";
  verify_signature =
      λ headers body credential. verify_shared_secret "secret_mismatch" headers credential;
  map_to_events = λ body. ok [];
}

-- register_builtin_handlers, on the empty registry
abbrev pub builtin_handlers : ReadEvents → ProviderRegistry
builtin_handlers read = sendgrid_handler read ∷ linkedin_handler ∷ []
