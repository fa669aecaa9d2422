-- ===== src/Mail.antt =====
-- The tables behind the sending of e-mails (app/db/models.py): audiences and their members, what was
-- sent to whom, who must not be written to, and the tenants' settings. A member's `email` is the text
-- that its JSON payload has under that key; `fields` are the payload's other keys.
use marketing_agentic_system.Common.{ℕ, String, Bool, Option, List, ◌==◌}
use marketing_agentic_system.AbTesting.{AbTest, AssignmentTable}

pub data ChannelPlatform : Type 0 where
  email linkedin x meta instagram google_ads meta_ads web blog sms : ChannelPlatform

-- The enum's position, by which two platforms are compared.
abbrev platform_index : ChannelPlatform → ℕ
platform_index ChannelPlatform.email = 0
platform_index ChannelPlatform.linkedin = 1
platform_index ChannelPlatform.x = 2
platform_index ChannelPlatform.meta = 3
platform_index ChannelPlatform.instagram = 4
platform_index ChannelPlatform.google_ads = 5
platform_index ChannelPlatform.meta_ads = 6
platform_index ChannelPlatform.web = 7
platform_index ChannelPlatform.blog = 8
platform_index ChannelPlatform.sms = 9

unfoldable pub platform_value : ChannelPlatform → String
platform_value ChannelPlatform.email = "email"
platform_value ChannelPlatform.linkedin = "linkedin"
platform_value ChannelPlatform.x = "x"
platform_value ChannelPlatform.meta = "meta"
platform_value ChannelPlatform.instagram = "instagram"
platform_value ChannelPlatform.google_ads = "google_ads"
platform_value ChannelPlatform.meta_ads = "meta_ads"
platform_value ChannelPlatform.web = "web"
platform_value ChannelPlatform.blog = "blog"
platform_value ChannelPlatform.sms = "sms"

unfoldable pub same_platform : ChannelPlatform → ChannelPlatform → Bool
same_platform p q = platform_index p == platform_index q

pub record Audience : Type 0 where
  pub id : ℕ
  pub campaign_id : ℕ
  pub created_at : ℕ

-- A value of a payload: a text, a number as `str` prints it, or anything else.
pub data PayloadValue : Type 0 where
  text number : String → PayloadValue
  other : PayloadValue

pub record AudienceMember : Type 0 where
  pub audience_id : ℕ
  pub external_id : String
  pub email : Option String
  pub fields : List (String × PayloadValue)

pub record SuppressionEntry : Type 0 where
  pub id : ℕ
  pub tenant_id : ℕ
  pub channel_platform : ChannelPlatform
  pub identifier : String
  pub reason : String
  pub suppressed_at : ℕ

pub data AttemptStatus : Type 0 where
  sent suppressed rejected failed skipped : AttemptStatus

-- `idempotency_key` is the pair of which its text is made.
pub record DispatchAttempt : Type 0 where
  pub tenant_id : ℕ
  pub content_asset_id : ℕ
  pub audience_external_id : Option String
  pub recipient_identifier : String
  pub idempotency_key : ℕ × String
  pub provider : String
  pub provider_message_id : Option String
  pub status : AttemptStatus
  pub attempt_count : ℕ
  pub last_error : Option String
  pub sent_at : Option ℕ

pub record FrequencyCapSetting : Type 0 where
  pub tenant_id : ℕ
  pub channel_platform : ChannelPlatform
  pub max_sends_per_recipient : ℕ
  pub window_days : ℕ
  pub enabled : Bool

pub record TenantComplianceSettings : Type 0 where
  pub tenant_id : ℕ
  pub postal_address : Option String
  pub unsubscribe_secret : Option String

-- A row with its payload decrypted, of which the keys that are read are listed.
pub record IntegrationCredential : Type 0 where
  pub tenant_id : ℕ
  pub provider : String
  pub verified_senders : List String
  pub default_from_email : Option String
  pub webhook_secret : Option String

pub record Mail : Type 0 where
  pub audiences : List Audience
  pub audience_members : List AudienceMember
  pub suppressions : List SuppressionEntry
  pub attempts : List DispatchAttempt
  pub frequency_caps : List FrequencyCapSetting
  pub compliance : List TenantComplianceSettings
  pub credentials : List IntegrationCredential
  pub ab_tests : List AbTest
  pub assignments : AssignmentTable
