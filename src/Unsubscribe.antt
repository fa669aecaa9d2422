-- ===== src/Unsubscribe.antt =====
-- app/api/unsubscribe.py, and the links that app/agents/distribution.py puts into e-mails. The signing
-- library is an argument: `dumps secret payload` is a token, `loads secret token` its payload, or none if
-- the signature is bad or the payload lacks one of the keys.
pub mod Tokens
pub mod RoundTrip
use marketing_agentic_system.Common.{
  ℕ, ◌+◌, String, Bool, true, false, not, ◌&&◌, Option, none, some, List, [], ◌∷◌, ◌++◌, ◌==◌,
  if◌then◌else◌, str_eq, find_where, any_where,
}
use marketing_agentic_system.Common.Text.{lower}
use marketing_agentic_system.Mail.{
  ChannelPlatform, same_platform, platform_value, SuppressionEntry, TenantComplianceSettings, Mail,
}
use marketing_agentic_system.EmailDispatch.Footer.{is_empty}
use marketing_agentic_system.EmailDispatch.Address.{member_of}
use marketing_agentic_system.Data.{
  Db, Result, ok, err, http, of_payload, nothing, write_audit, ◌>>=◌,
}
use marketing_agentic_system.Queue.{text}

-- The three keys of a token's payload. A platform that the enum does not have is `none`.
pub record LinkPayload : Type 0 where
  pub tenant_id : ℕ
  pub channel_platform : Option ChannelPlatform
  pub identifier : String

pub record Serializer : Type 0 where
  pub dumps : String → LinkPayload → String
  pub loads : String → String → Option LinkPayload

-- The tenant's own secret, if it has one that is not empty.
unfoldable pub own_secret : Option TenantComplianceSettings → Option String
own_secret none = none
own_secret (some row) = elim row.unsubscribe_secret [
  | none ↦ none
  | some secret ↦ if is_empty secret then none else some secret
]

abbrev pub compliance_of : List TenantComplianceSettings → ℕ → Option TenantComplianceSettings
compliance_of rows tenant_id =
    find_where (λ (row : TenantComplianceSettings). row.tenant_id == tenant_id) rows

unfoldable pub secret_or : String → Option String → String
secret_or fallback none = fallback
secret_or fallback (some secret) = secret

-- The secret that _build_unsubscribe_signer signs with.
unfoldable pub signing_secret : String → List TenantComplianceSettings → ℕ → String
unfolding own_secret secret_or
signing_secret fallback rows tenant_id =
    secret_or fallback (own_secret (compliance_of rows tenant_id))

unfoldable pub link_payload : ℕ → String → LinkPayload
link_payload tenant_id email = record {
  tenant_id = tenant_id;
  channel_platform = some ChannelPlatform.email;
  identifier = lower email;
}

-- The token in the link of _build_unsubscribe_signer.
unfoldable pub unsubscribe_token :
    Serializer → String → List TenantComplianceSettings → ℕ → String → String
unsubscribe_token serializer fallback rows tenant_id email =
    serializer.dumps (signing_secret fallback rows tenant_id) (link_payload tenant_id email)

unfoldable pub add_secret : Option String → List String → List String
add_secret none secrets = secrets
add_secret (some secret) secrets = secret ∷ secrets

unfoldable pub tenant_secrets : List TenantComplianceSettings → List String
unfolding own_secret add_secret
tenant_secrets [] = []
tenant_secrets (row ∷ rest) = add_secret (own_secret (some row)) (tenant_secrets rest)

unfoldable pub candidate_secrets : String → List TenantComplianceSettings → List String
candidate_secrets fallback rows =
    let secrets = tenant_secrets rows in
    if not (is_empty fallback) && not (member_of fallback secrets)
    then secrets ++ (fallback ∷ [])
    else secrets

unfoldable pub or_next : Option LinkPayload → Result LinkPayload → Result LinkPayload
or_next none next = next
or_next (some payload) next = ok payload

unfoldable pub first_verified : Serializer → String → List String → Result LinkPayload
unfolding or_next
first_verified serializer token [] = err (http 404)
first_verified serializer token (secret ∷ rest) =
    or_next (serializer.loads secret token) (first_verified serializer token rest)

-- _verify_token
unfoldable pub verify_token :
    Serializer → String → List TenantComplianceSettings → String → Result LinkPayload
verify_token serializer fallback rows token =
    first_verified serializer token (candidate_secrets fallback rows)

-- Columns of type CITEXT are compared without regard to case.
unfoldable pub is_entry_of : ℕ → ChannelPlatform → String → SuppressionEntry → Bool
is_entry_of tenant_id platform identifier s =
    (s.tenant_id == tenant_id)
    && same_platform s.channel_platform platform
    && str_eq (lower s.identifier) (lower identifier)

pub record UnsubscribeResponse : Type 0 where
  pub tenant_id : ℕ
  pub channel_platform : ChannelPlatform
  pub identifier : String
  pub suppressed_at : ℕ
  pub already_existed : Bool

-- The session's state, the suppression table and the answer.
abbrev pub Unsubscribed : Type 0
Unsubscribed = Db × List SuppressionEntry × UnsubscribeResponse

unfoldable pub audit_unsubscribed : ℕ → ChannelPlatform → String → Db → Db
audit_unsubscribed tenant_id platform identifier db =
    write_audit
      (record {
        tenant_id = tenant_id;
        entity_kind = "suppression_entry";
        entity_id = db.next_id;
        action = "unsubscribed";
        before_state = nothing;
        after_state = of_payload (
            ("channel_platform", text (platform_value platform))
            ∷ ("identifier", text identifier)
            ∷ ("reason", text "unsubscribe")
            ∷ []);
        extra_metadata = ("source", text "public_token") ∷ [];
        applied_threshold = none;
      })
      (record db { next_id = db.next_id + 1 })

unfoldable pub suppress :
    ℕ
    → Db
    → List SuppressionEntry
    → ℕ
    → ChannelPlatform
    → String
    → Option SuppressionEntry
    → Unsubscribed
unfolding audit_unsubscribed
suppress now db table tenant_id platform identifier (some existing) = (
  db,
  table,
  record {
    tenant_id = tenant_id;
    channel_platform = platform;
    identifier = identifier;
    suppressed_at = existing.suppressed_at;
    already_existed = true;
  },
)
suppress now db table tenant_id platform identifier none = (
  audit_unsubscribed tenant_id platform identifier db,
  table
      ++ (record {
        id = db.next_id;
        tenant_id = tenant_id;
        channel_platform = platform;
        identifier = identifier;
        reason = "unsubscribe";
        suppressed_at = now;
      }
          ∷ []),
  record {
    tenant_id = tenant_id;
    channel_platform = platform;
    identifier = identifier;
    suppressed_at = now;
    already_existed = false;
  },
)

unfoldable pub consume_payload :
    ℕ → Db → List SuppressionEntry → LinkPayload → Option ChannelPlatform → Result Unsubscribed
unfolding suppress is_entry_of
consume_payload now db table payload none = err (http 404)
consume_payload now db table payload (some platform) = ok (
    suppress now db table payload.tenant_id platform payload.identifier
      (find_where (is_entry_of payload.tenant_id platform payload.identifier) table))

-- consume_unsubscribe_token
unfoldable pub consume_unsubscribe_token :
    Serializer → String → ℕ → Db → Mail → String → Result Unsubscribed
unfolding consume_payload
consume_unsubscribe_token serializer fallback now db mail token =
    verify_token serializer fallback mail.compliance token >>= λ payload.
    consume_payload now db mail.suppressions payload payload.channel_platform
