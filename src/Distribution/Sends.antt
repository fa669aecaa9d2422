-- ===== src/Distribution/Sends.antt =====
-- app/agents/distribution.py: the inputs that `dispatch_email_asset` gives the tool, and what it records
-- of the tool's answer.
use marketing_agentic_system.Common.{
  ℕ, ◌+◌, String, Bool, false, ◌&&◌, not, Option, none, some, List, [], ◌∷◌, ◌++◌, leb, ltb, ◌==◌,
  if◌then◌else◌, get_or_else, str_eq, map, last_where, select_where,
}
use marketing_agentic_system.Common.Text.{lower}
use marketing_agentic_system.Data.{ContentAsset, DispatchSummary}
use marketing_agentic_system.Mail.{
  AudienceMember, PayloadValue, text, number, other, AttemptStatus, DispatchAttempt,
  TenantComplianceSettings,
}
use marketing_agentic_system.EmailDispatch.Footer.{EmailMessage, ComplianceFooter, is_empty}
use marketing_agentic_system.EmailDispatch.Tool.{
  RawRecipient, object, ToolInputs, ToolResult, Rejection,
}
use marketing_agentic_system.Distribution.Attempts.{idempotency_key, upsert_dispatch_attempt}

abbrev or_text : Option String → String → String
or_text none default = default
or_text (some s) default = if is_empty s then default else s

-- fields.get(name)
unfoldable pub field_of : String → List (String × String) → Option String
field_of name [] = none
field_of name ((key, value) ∷ rest) = if str_eq key name then some value else field_of name rest

-- _message_from_asset
unfoldable pub message_from_asset : ContentAsset → EmailMessage
unfolding field_of
message_from_asset asset = record {
  subject =
      or_text (field_of "subject" asset.extra_metadata.fields) (or_text asset.title "(no subject)");
  html_body = some (get_or_else asset.content "");
  text_body = some (get_or_else asset.content "");
  headers = [];
  reply_to = none;
}

-- _string_only_payload
unfoldable pub string_only_payload : List (String × PayloadValue) → List (String × String)
string_only_payload [] = []
string_only_payload ((key, text value) ∷ rest) = (key, value) ∷ string_only_payload rest
string_only_payload ((key, number value) ∷ rest) = (key, value) ∷ string_only_payload rest
string_only_payload ((key, other) ∷ rest) = string_only_payload rest

abbrev email_field : Option String → List (String × PayloadValue)
email_field none = []
email_field (some email) = ("email", text email) ∷ []

-- merge_fields["unsubscribe_url"] = url
unfoldable pub with_unsubscribe_url :
    Option String → List (String × String) → List (String × String)
with_unsubscribe_url none fields = fields
with_unsubscribe_url (some url) fields =
    select_where (λ (f : String × String). not (str_eq f.0 "unsubscribe_url")) fields
    ++ (("unsubscribe_url", url) ∷ [])

-- _build_compliance_footer
unfoldable pub build_compliance_footer : Option TenantComplianceSettings → Option ComplianceFooter
build_compliance_footer none = none
build_compliance_footer (some settings) = elim settings.postal_address [
  | none ↦ none
  | some address ↦
      if is_empty address
      then none
      else some (record { unsubscribe_url = "{{unsubscribe_url}}"; postal_address = address })
]

-- `url_of` is the signer, if there is a footer.
unfoldable pub batch_entry : (String → Option String) → AudienceMember × String → RawRecipient
batch_entry url_of (member, email) =
    object email
      (with_unsubscribe_url (url_of email)
        (string_only_payload (email_field member.email ++ member.fields)))
      none

unfoldable pub tool_inputs :
    (String → Option String)
    → String
    → Option ComplianceFooter
    → ContentAsset
    → List (AudienceMember × String)
    → ToolInputs
unfolding batch_entry message_from_asset
tool_inputs url_of from_email compliance_footer asset to_send = record {
  from_email = from_email;
  audience_batch = map (batch_entry url_of) to_send;
  message = message_from_asset asset;
  transactional = false;
  compliance_footer = compliance_footer;
}

-- What the loop after the call decides for one recipient.
pub record Recorded : Type 0 where
  pub status : AttemptStatus
  pub provider_message_id : Option String
  pub last_error : Option String
  pub sent_at : Option ℕ

abbrev is_suppressed_reason : String → Bool
is_suppressed_reason = str_eq "suppressed"

unfoldable pub rejected_outcome : Option Rejection → Recorded
rejected_outcome (some r) = record {
  status =
      if is_suppressed_reason r.reason then AttemptStatus.suppressed else AttemptStatus.rejected;
  provider_message_id = none;
  last_error = some r.reason;
  sent_at = none;
}
rejected_outcome none = record {
  status = AttemptStatus.failed;
  provider_message_id = none;
  last_error = some "no_provider_acknowledgement";
  sent_at = none;
}

unfoldable pub accepted_outcome : ℕ → Option (String × String) → Option Rejection → Recorded
unfolding rejected_outcome
accepted_outcome now (some entry) rejection = record {
  status = AttemptStatus.sent;
  provider_message_id = some entry.1;
  last_error = none;
  sent_at = some now;
}
accepted_outcome now none rejection = rejected_outcome rejection

unfoldable pub outcome_of : ℕ → ToolResult → String → Recorded
unfolding accepted_outcome
outcome_of now result email =
    accepted_outcome now
      (last_where (λ (e : String × String). str_eq (lower e.0) email) result.per_message_ids)
      (last_where (λ (r : Rejection). str_eq (lower r.email) email) result.rejections)

-- The counters, and the rows of dispatch_attempt.
pub record Tally : Type 0 where
  pub sent : ℕ
  pub suppressed : ℕ
  pub rejected : ℕ
  pub attempts : List DispatchAttempt

unfoldable pub count_status : AttemptStatus → Tally → Tally
count_status AttemptStatus.sent t = record t { sent = t.sent + 1 }
count_status AttemptStatus.suppressed t = record t { suppressed = t.suppressed + 1 }
count_status AttemptStatus.rejected t = record t { rejected = t.rejected + 1 }
count_status AttemptStatus.failed t = record t { rejected = t.rejected + 1 }
count_status AttemptStatus.skipped t = t

unfoldable pub attempt_row :
    ContentAsset → String → AudienceMember → String → Recorded → DispatchAttempt
attempt_row asset provider member email o = record {
  tenant_id = asset.tenant_id;
  content_asset_id = asset.id;
  audience_external_id = some member.external_id;
  recipient_identifier = email;
  idempotency_key = idempotency_key asset.id email;
  provider = provider;
  provider_message_id = o.provider_message_id;
  status = o.status;
  attempt_count = 1;
  last_error = o.last_error;
  sent_at = o.sent_at;
}

unfoldable pub record_sends :
    ℕ → ContentAsset → String → ToolResult → List (AudienceMember × String) → Tally → Tally
unfolding count_status attempt_row
record_sends now asset provider result [] t = t
record_sends now asset provider result ((member, email) ∷ rest) t =
    let o = outcome_of now result email in
    record_sends now asset provider result rest (record (count_status o.status t) {
      attempts = upsert_dispatch_attempt (attempt_row asset provider member email o) t.attempts;
    })

abbrev capped_outcome : Recorded
capped_outcome = record {
  status = AttemptStatus.skipped;
  provider_message_id = none;
  last_error = some "frequency_cap";
  sent_at = none;
}

unfoldable pub record_capped :
    ContentAsset
    → String
    → List (AudienceMember × String)
    → List DispatchAttempt
    → List DispatchAttempt
unfolding attempt_row
record_capped asset provider [] attempts = attempts
record_capped asset provider ((member, email) ∷ rest) attempts =
    record_capped asset provider rest
      (upsert_dispatch_attempt (attempt_row asset provider member email capped_outcome) attempts)

unfoldable pub skip_reason : ℕ → ℕ → ℕ → ℕ → Option String
skip_reason sent skipped suppressed rejected =
    if (sent == 0) && ltb 0 (skipped + suppressed + rejected)
    then some (
        if leb suppressed skipped && leb rejected skipped
        then "frequency_cap"
        else (if leb rejected suppressed then "suppressed" else "rejected"))
    else none

unfoldable pub summarise : Tally → ℕ → ℕ → ℕ → Bool → DispatchSummary
unfolding skip_reason
summarise t skipped deduped audience_size footer = record {
  sent = t.sent;
  suppressed = t.suppressed;
  rejected = t.rejected;
  skipped = skipped;
  deduped = deduped;
  audience_size = audience_size;
  skip_reason = skip_reason t.sent skipped t.suppressed t.rejected;
  compliance_footer_injected = footer;
}
