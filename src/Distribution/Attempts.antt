-- ===== src/Distribution/Attempts.antt =====
-- app/agents/distribution.py: the rows of `dispatch_attempt`, by which no one is written to twice.
-- Addresses are compared as columns of type CITEXT are, without regard to case.
use marketing_agentic_system.Common.{
  ℕ, ◌+◌, ◌*◌, String, Bool, true, false, not, ◌&&◌, Option, none, some, List, [], ◌∷◌, ◌++◌, leb,
  ◌==◌, if◌then◌else◌, str_eq, map, select_where, count_where, find_where, any_where, update_where,
}
use marketing_agentic_system.Common.Text.{lower}
use marketing_agentic_system.Data.{microseconds_per_day}
use marketing_agentic_system.Mail.{
  ChannelPlatform, same_platform, AttemptStatus, DispatchAttempt, FrequencyCapSetting,
}
use marketing_agentic_system.EmailDispatch.Address.{member_of}

-- _DEDUP_WINDOW
abbrev pub dedup_window : ℕ
dedup_window = microseconds_per_day

abbrev pub idempotency_key : ℕ → String → ℕ × String
idempotency_key content_asset_id recipient_email = (content_asset_id, lower recipient_email)

unfoldable pub is_sent : AttemptStatus → Bool
is_sent AttemptStatus.sent = true
is_sent _ = false

unfoldable pub is_sent_for : ℕ → DispatchAttempt → Bool
unfolding is_sent
is_sent_for content_asset_id a = (a.content_asset_id == content_asset_id) && is_sent a.status

abbrev pub address_of : DispatchAttempt → String
address_of a = lower a.recipient_identifier

-- _existing_attempts, whose callers use the keys only
unfoldable pub existing_attempts : List DispatchAttempt → ℕ → List String
existing_attempts attempts content_asset_id =
    map address_of (select_where (is_sent_for content_asset_id) attempts)

-- sent_at >= start, where the window's start is `now - window`
abbrev pub is_since : ℕ → ℕ → Option ℕ → Bool
is_since now window none = false
is_since now window (some sent_at) = leb now (sent_at + window)

unfoldable pub sent_since : ℕ → ℕ → ℕ → List String → DispatchAttempt → Bool
unfolding is_sent
sent_since now window tenant_id normalised a =
    (a.tenant_id == tenant_id)
    && is_sent a.status
    && is_since now window a.sent_at
    && member_of (address_of a) normalised

-- _recent_sent_recipients
unfoldable pub recent_sent_recipients : ℕ → List DispatchAttempt → ℕ → List String → List String
recent_sent_recipients now attempts tenant_id normalised =
    map address_of (select_where (sent_since now dedup_window tenant_id normalised) attempts)

unfoldable pub is_enabled_cap : ℕ → ChannelPlatform → FrequencyCapSetting → Bool
is_enabled_cap tenant_id platform s =
    (s.tenant_id == tenant_id) && same_platform s.channel_platform platform && s.enabled

-- The groups of rows of one address that the HAVING keeps.
unfoldable pub at_cap : ℕ → List DispatchAttempt → DispatchAttempt → Bool
at_cap max_sends rows a =
    leb max_sends (count_where (λ b. str_eq (address_of b) (address_of a)) rows)

unfoldable pub capped_by :
    ℕ → List DispatchAttempt → ℕ → List String → Option FrequencyCapSetting → List String
unfolding at_cap
capped_by now attempts tenant_id normalised none = []
capped_by now attempts tenant_id normalised (some setting) =
    let rows =
      select_where
        (sent_since now (setting.window_days * microseconds_per_day) tenant_id normalised)
        attempts in
    map address_of (select_where (at_cap setting.max_sends_per_recipient rows) rows)

-- _capped_recipients
unfoldable pub capped_recipients :
    ℕ
    → List DispatchAttempt
    → List FrequencyCapSetting
    → ℕ
    → ChannelPlatform
    → List String
    → List String
unfolding capped_by
capped_recipients now attempts caps tenant_id platform normalised =
    capped_by now attempts tenant_id normalised
      (find_where (is_enabled_cap tenant_id platform) caps)

unfoldable pub has_idempotency_key : ℕ → ℕ × String → DispatchAttempt → Bool
has_idempotency_key tenant_id key a =
    (a.tenant_id == tenant_id) && (a.idempotency_key.0 == key.0) && str_eq a.idempotency_key.1 key.1

unfoldable pub bumped : Option String → DispatchAttempt → DispatchAttempt
bumped last_error a = record a { attempt_count = a.attempt_count + 1; last_error = last_error }

-- _upsert_dispatch_attempt: INSERT, or on a conflict DO UPDATE ... WHERE status != 'sent'
unfoldable pub upsert_dispatch_attempt :
    DispatchAttempt → List DispatchAttempt → List DispatchAttempt
unfolding has_idempotency_key is_sent bumped
upsert_dispatch_attempt a rows =
    if any_where (has_idempotency_key a.tenant_id a.idempotency_key) rows
    then update_where
        (λ b. has_idempotency_key a.tenant_id a.idempotency_key b && not (is_sent b.status))
        (bumped a.last_error) rows
    else rows ++ (a ∷ [])
