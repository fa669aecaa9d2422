-- ===== src/Examples/Deliveries.antt =====
-- The theorems on inbound webhooks (app/webhooks/dispatcher.py), at a SendGrid delivery of one click.
use marketing_agentic_system.Common.{◌+◌, ◌≡◌, refl, String, true, false, none, some, [], ◌∷◌, Row}
use marketing_agentic_system.Common.Text.{
  clean, strip, lstrip, rstrip, lower, before_stripped, lower_char, is_upper, is_blank, of_code,
  char_of, below_surrogates,
}
use marketing_agentic_system.Data.{CampaignStatus, AssetStatus, ok}
use marketing_agentic_system.Mail.{IntegrationCredential}
use marketing_agentic_system.EmailDispatch.Footer.{is_empty}
use marketing_agentic_system.Webhooks.{
  Headers, Inbox, DispatchResult, ParseIso, known_handler, get_provider, only_credential, kind_of,
  coerce_event_kind, normalise_header, normalise_headers, parse_iso_or_now, or_now, is_event_of,
  or_first, insert_event, ingest_one, ingest,
}
use marketing_agentic_system.Webhooks.Handlers.{
  RawEvent, ReadEvents, builtin_handlers, nonempty, header_value, header_of, or_else,
  provided_secret, compare_secret, check_secret, verify_shared_secret, add_parsed, parse_webhook,
  add_mapped, map_events,
}
use marketing_agentic_system.Webhooks.Dispatcher.{
  load_credential_payload, raw_row, accept_signature, after_check, dispatch_webhook,
}
use marketing_agentic_system.Webhooks.Replay.{dispatch_webhook_replayed}
use marketing_agentic_system.Webhooks.Answers.{Delivery, dispatch_webhook-Delivery}
use marketing_agentic_system.Webhooks.Authentic.{dispatch_webhook-authenticated}
use marketing_agentic_system.Examples.{office}

abbrev credential : IntegrationCredential
credential = record {
  tenant_id = 1;
  provider = "sendgrid";
  verified_senders = [];
  default_from_email = none;
  webhook_secret = some "s3";
}

abbrev click : RawEvent
click = record {
  event = "click";
  sg_event_id = some "e1";
  sg_message_id = none;
  timestamp = ok none;
  payload = "{}";
}

abbrev read : ReadEvents
read body = ok (click ∷ [])

abbrev no_times : ParseIso
no_times s = none

abbrev inbox : Inbox
inbox = record {
  db = office CampaignStatus.live AssetStatus.scheduled;
  events = [];
  raw_webhooks = [];
  credentials = credential ∷ [];
}

abbrev headers : Headers
headers = ("x-mas-webhook-secret", "s3") ∷ []

dispatch_webhook-Delivery_example :
    Delivery
      (builtin_handlers read)
      inbox
      "sendgrid"
      1
      headers
      "[]"
      (dispatch_webhook no_times (builtin_handlers read) 40 inbox "sendgrid" 1 headers "[]")
dispatch_webhook-Delivery_example =
    dispatch_webhook-Delivery no_times (builtin_handlers read) 40 inbox "sendgrid" 1 headers "[]"

-- The same delivery twice.
delivered_twice :
    (one : Inbox × DispatchResult) × (two : Inbox × DispatchResult) × (dispatch_webhook no_times
        (builtin_handlers read)
        40
        inbox
        "sendgrid"
        1
        headers
        "[]"
      ≡ ok one)
    × (one.1.signature_valid ≡ true)
    × (dispatch_webhook no_times (builtin_handlers read) 50 one.0 "sendgrid" 1 headers "[]"
        ≡ ok two)
    × (two.1.signature_valid ≡ true)
    × (one.1.events_written ≡ 1)
unfolding clean strip lstrip rstrip lower before_stripped lower_char is_upper is_blank of_code
    char_of below_surrogates known_handler get_provider only_credential kind_of coerce_event_kind
    normalise_header normalise_headers parse_iso_or_now or_now is_event_of or_first insert_event
    ingest_one ingest nonempty header_value header_of or_else provided_secret compare_secret
    check_secret verify_shared_secret add_parsed parse_webhook add_mapped map_events
    load_credential_payload raw_row accept_signature after_check dispatch_webhook
delivered_twice = (_, _, refl, refl, refl, refl, refl)

dispatch_webhook_replayed_example :
    (delivered_twice.1.0.events ≡ delivered_twice.0.0.events)
    × (delivered_twice.1.1.events_written ≡ 0)
    × (delivered_twice.1.1.events_deduped
        ≡ delivered_twice.0.1.events_written + delivered_twice.0.1.events_deduped)
dispatch_webhook_replayed_example =
    dispatch_webhook_replayed no_times (builtin_handlers read) 40 50 inbox "sendgrid" 1 headers
      headers "[]" delivered_twice.0 delivered_twice.1 delivered_twice.2 delivered_twice.3
      delivered_twice.4 delivered_twice.5

dispatch_webhook-authenticated_example :
    (c : IntegrationCredential) × Row c inbox.credentials
    × (c.tenant_id ≡ 1)
    × (c.provider ≡ clean "sendgrid")
    × ((secret : String) × (c.webhook_secret ≡ some secret)
        × (is_empty secret ≡ false)
        × (provided_secret headers ≡ some secret))
dispatch_webhook-authenticated_example =
    dispatch_webhook-authenticated no_times read 40 inbox "sendgrid" 1 headers "[]"
      delivered_twice.0 delivered_twice.2 delivered_twice.3
