-- ===== src/EmailDispatch/Tool.antt =====
-- `EmailDispatchTool` of app/tools/email_dispatch.py.
use marketing_agentic_system.Common.{
  ℕ, String, Bool, not, ◌&&◌, Option, none, some, List, [], ◌∷◌, ◌++◌, ◌==◌, if◌then◌else◌, length,
  map, select_where,
}
use marketing_agentic_system.Common.Text.{lower, clean}
use marketing_agentic_system.Data.{Result, ok, err, ◌>>=◌}
use marketing_agentic_system.Mail.{ChannelPlatform, same_platform, SuppressionEntry}
use marketing_agentic_system.EmailDispatch.Address.{
  matches_email, domain_of, blocked_recipient_domains, member_of,
}
use marketing_agentic_system.EmailDispatch.Footer.{
  EmailMessage, ComplianceFooter, validation_error, is_empty, build_message,
}

pub record EmailRecipient : Type 0 where
  pub email : String
  pub merge_fields : List (String × String)
  pub name : Option String

pub record SendResult : Type 0 where
  pub email : String
  pub provider_message_id : Option String
  pub accepted : Bool
  pub error : Option String

-- The abstract connector: its name, its verified senders in lower case, and `send_batch`.
pub record EmailConnector : Type 0 where
  pub provider : String
  pub verified_senders : List String
  pub send_batch : String → EmailMessage → List EmailRecipient → Result (List SendResult)

-- An entry of `audience_batch`.
pub data RawRecipient : Type 0 where
  shapeless : String → RawRecipient
  object :
      (email : String) (merge_fields : List (String × String)) (name : Option String) → RawRecipient

pub record ToolInputs : Type 0 where
  pub from_email : String
  pub audience_batch : List RawRecipient
  pub message : EmailMessage
  pub transactional : Bool
  pub compliance_footer : Option ComplianceFooter

pub record Rejection : Type 0 where
  pub email : String
  pub reason : String

pub record ToolResult : Type 0 where
  pub provider : String
  pub accepted_count : ℕ
  pub rejected_count : ℕ
  pub per_message_ids : List (String × String)
  pub rejections : List Rejection

-- Raw addresses of the batch; an empty one is not looked up.
unfoldable pub candidates : List RawRecipient → List String
candidates [] = []
candidates (shapeless s ∷ rest) = candidates rest
candidates (object email merge_fields name ∷ rest) =
    let others = candidates rest in if is_empty email then others else clean email ∷ others

-- Columns of type CITEXT are compared without regard to case.
unfoldable pub is_suppressed_among : ℕ → List String → SuppressionEntry → Bool
is_suppressed_among tenant_id normalised s =
    (s.tenant_id == tenant_id)
    && same_platform s.channel_platform ChannelPlatform.email
    && member_of (lower s.identifier) normalised

unfoldable pub load_suppressed_emails : ℕ → List SuppressionEntry → List RawRecipient → List String
load_suppressed_emails tenant_id table batch =
    map (λ (s : SuppressionEntry). lower s.identifier)
      (select_where (is_suppressed_among tenant_id (candidates batch)) table)

unfoldable pub validate_recipient : String → List String → Option String
validate_recipient email suppressed =
    if member_of email suppressed
    then some "suppressed"
    else (if not (matches_email email)
        then some "invalid_address"
        else (if member_of (domain_of email) blocked_recipient_domains
            then some "blocked_domain"
            else none))

-- What the loop over the recipients collects.
pub record Screening : Type 0 where
  pub send_payload : List EmailRecipient
  pub rejections : List Rejection

abbrev reject : String → String → Screening → Screening
reject email reason s = record s {
  rejections = record { email = email; reason = reason } ∷ s.rejections;
}

unfoldable pub validated : EmailRecipient → Option String → Screening → Screening
validated r (some reason) s = reject r.email reason s
validated r none s = record s { send_payload = r ∷ s.send_payload }

unfoldable pub screen_one : List String → RawRecipient → Screening → Screening
unfolding validated
screen_one suppressed (shapeless s) rest = reject s "invalid_shape" rest
screen_one suppressed (object email merge_fields name) rest =
    if is_empty (clean email)
    then reject "" "missing_email" rest
    else validated (record { email = clean email; merge_fields = merge_fields; name = name })
        (validate_recipient (clean email) suppressed) rest

unfoldable pub screen_recipients : List String → List RawRecipient → Screening
screen_recipients suppressed [] = record { send_payload = []; rejections = [] }
screen_recipients suppressed (r ∷ rest) =
    screen_one suppressed r (screen_recipients suppressed rest)

-- An empty text counts as no id.
unfoldable pub message_id_of : SendResult → Option String → List (String × String)
message_id_of res none = []
message_id_of res (some i) = if is_empty i then [] else (res.email, i) ∷ []

unfoldable pub message_ids : List SendResult → List (String × String)
unfolding message_id_of
message_ids [] = []
message_ids (res ∷ rest) =
    (if res.accepted then message_id_of res res.provider_message_id else []) ++ message_ids rest

unfoldable pub reason_of : Option String → String
reason_of none = "provider_rejected"
reason_of (some e) = if is_empty e then "provider_rejected" else e

unfoldable pub provider_rejections : List SendResult → List Rejection
unfolding reason_of
provider_rejections [] = []
provider_rejections (res ∷ rest) =
    (if res.accepted then [] else record { email = res.email; reason = reason_of res.error } ∷ [])
    ++ provider_rejections rest

unfoldable pub normalised_result : String → Screening → List SendResult → ToolResult
normalised_result provider s results =
    let per_message_ids = message_ids results in
    let rejections = s.rejections ++ provider_rejections results in
    record {
      provider = provider;
      accepted_count =
          if (length per_message_ids == 0) && (length rejections == 0)
          then length s.send_payload
          else length per_message_ids;
      rejected_count = length rejections;
      per_message_ids = per_message_ids;
      rejections = rejections;
    }

-- The provider is called only if someone is left to write to.
unfoldable pub send_screened :
    EmailConnector → String → EmailMessage → Screening → List EmailRecipient → Result ToolResult
send_screened connector from_email message s [] = ok (normalised_result connector.provider s [])
send_screened connector from_email message s (r ∷ rest) =
    connector.send_batch from_email message (r ∷ rest) >>= λ results.
    ok (normalised_result connector.provider s results)

unfoldable pub suppressed_for : ℕ → List SuppressionEntry → ToolInputs → List String
suppressed_for tenant_id table inputs =
    if inputs.transactional
    then []
    else load_suppressed_emails tenant_id table inputs.audience_batch

unfoldable pub is_unverified : EmailConnector → String → Bool
is_unverified connector from_email =
    not (length connector.verified_senders == 0)
    && not (member_of from_email (map lower connector.verified_senders))

unfoldable pub send_batch_of :
    EmailConnector → ℕ → List SuppressionEntry → ToolInputs → EmailMessage → Result ToolResult
unfolding send_screened suppressed_for
send_batch_of connector tenant_id table inputs message =
    if length inputs.audience_batch == 0
    then err validation_error
    else (let s = screen_recipients (suppressed_for tenant_id table inputs) inputs.audience_batch in
        send_screened connector (clean inputs.from_email) message s s.send_payload)

-- EmailDispatchTool.call
unfoldable pub call : EmailConnector → ℕ → List SuppressionEntry → ToolInputs → Result ToolResult
unfolding send_batch_of is_unverified
call connector tenant_id table inputs =
    if is_empty (clean inputs.from_email)
    then err validation_error
    else (if is_unverified connector (clean inputs.from_email)
        then err validation_error
        else (build_message inputs.message
              (if inputs.transactional then none else inputs.compliance_footer)
            >>= λ message. send_batch_of connector tenant_id table inputs message))
