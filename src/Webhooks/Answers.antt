-- ===== src/Webhooks/Answers.antt =====
-- How one delivery to `dispatch_webhook` (app/webhooks/dispatcher.py) ends.
use marketing_agentic_system.Common.{
  ℕ, ◌+◌, ◌≡◌, refl, sym, subst, String, true, false, Option, none, List, [], ◌∷◌, ◌++◌, arith, inl,
  inr, Bool-cases, if-true, if-false, Row, All, length,
}
use marketing_agentic_system.Data.{AuditEntry, Error, Result, ok, err, ◌>>=◌}
use marketing_agentic_system.Mail.{IntegrationCredential}
use marketing_agentic_system.Webhooks.{
  SignatureCheck, MappedEvent, AnalyticEvent, Headers, ProviderHandler, ProviderRegistry, Inbox,
  DispatchResult, ParseIso, ingest, get_provider,
}
use marketing_agentic_system.Webhooks.Dispatcher.{
  load_credential_payload, raw_row, first_ingest, reject_signature, accept_signature, after_check,
  dispatch_webhook,
}
use marketing_agentic_system.Webhooks.Ingested.{
  recognised, IsStored, HasUniqueEvents, ingest-Ingested,
}

-- A delivery whose signature was refused: no event is written, and it is on record.
pub record Refused (inbox : Inbox) (tenant : ℕ) (handler : ProviderHandler) (headers : Headers)
    (body : String) (sig : SignatureCheck) (out : Inbox × DispatchResult) : Type 0 where
  pub events : out.0.events ≡ inbox.events
  pub audited :
      (entry : AuditEntry) × (out.0.db.audit ≡ inbox.db.audit ++ (entry ∷ []))
      × (entry.action ≡ "webhook_signature_failed")
  pub raw :
      out.0.raw_webhooks
      ≡ inbox.raw_webhooks
        ++ (raw_row inbox.db.next_id tenant handler.provider sig headers body none ∷ [])
  pub result :
      (out.1.signature_valid ≡ false) × (out.1.events_written ≡ 0) × (out.1.events_deduped ≡ 0)

-- A delivery that was taken in, with the events that the handler mapped its body to.
pub record Accepted (inbox : Inbox) (tenant : ℕ) (handler : ProviderHandler) (headers : Headers)
    (body : String) (sig : SignatureCheck) (mapped : List MappedEvent)
    (out : Inbox × DispatchResult) : Type 0 where
  pub kept : (e : AnalyticEvent) → Row e inbox.events → Row e out.0.events
  pub written : length out.0.events ≡ length inbox.events + out.1.events_written
  pub counted : out.1.events_written + out.1.events_deduped ≡ recognised mapped
  pub stored : All (IsStored tenant out.0.events) mapped
  pub unique : HasUniqueEvents inbox.events → HasUniqueEvents out.0.events
  pub raw :
      out.0.raw_webhooks
      ≡ inbox.raw_webhooks
        ++ (raw_row inbox.db.next_id tenant handler.provider sig headers body out.1.mapped_event_id
            ∷ [])

-- How a delivery ends.
pub data Delivery (registry : ProviderRegistry) (inbox : Inbox) (provider : String) (tenant : ℕ)
    (headers : Headers) (body : String) : Result (Inbox × DispatchResult) → Type 0 where
  unknown :
      {e : Error}
      → get_provider provider registry ≡ err e
      → Delivery registry inbox provider tenant headers body (err e)
  ambiguous :
      (handler : ProviderHandler) {e : Error}
      → get_provider provider registry ≡ ok handler
      → load_credential_payload inbox.credentials tenant handler.provider ≡ err e
      → Delivery registry inbox provider tenant headers body (err e)
  unreadable :
      (handler : ProviderHandler) (credential : Option IntegrationCredential) {e : Error}
      → get_provider provider registry ≡ ok handler
      → load_credential_payload inbox.credentials tenant handler.provider ≡ ok credential
      → (handler.verify_signature headers body credential).valid ≡ true
      → handler.map_to_events body ≡ err e
      → Delivery registry inbox provider tenant headers body (err e)
  refused :
      (handler : ProviderHandler) (credential : Option IntegrationCredential)
      {out : Inbox × DispatchResult}
      → get_provider provider registry ≡ ok handler
      → load_credential_payload inbox.credentials tenant handler.provider ≡ ok credential
      → (handler.verify_signature headers body credential).valid ≡ false
      → Refused inbox tenant handler headers body
          (handler.verify_signature headers body credential)
          out
      → Delivery registry inbox provider tenant headers body (ok out)
  accepted :
      (handler : ProviderHandler) (credential : Option IntegrationCredential)
      (mapped : List MappedEvent) {out : Inbox × DispatchResult}
      → get_provider provider registry ≡ ok handler
      → load_credential_payload inbox.credentials tenant handler.provider ≡ ok credential
      → (handler.verify_signature headers body credential).valid ≡ true
      → handler.map_to_events body ≡ ok mapped
      → Accepted inbox tenant handler headers body
          (handler.verify_signature headers body credential)
          mapped
          out
      → Delivery registry inbox provider tenant headers body (ok out)

module _ (parse_iso : ParseIso) (now : ℕ) (inbox : Inbox) (tenant : ℕ) (handler : ProviderHandler)
    (headers : Headers) (body : String) (sig : SignatureCheck) where
  reject_signature-Refused :
      Refused inbox tenant handler headers body sig
        (reject_signature inbox tenant handler headers body sig)
  unfolding reject_signature
  reject_signature-Refused = record {
    events = refl;
    audited = (_, refl, refl);
    raw = refl;
    result = (refl, refl, refl);
  }

  pub accept_signature-Accepted :
      (mapped : List MappedEvent)
      → Accepted inbox tenant handler headers body sig mapped (
          accept_signature inbox tenant handler headers body sig
            (ingest parse_iso now tenant mapped (first_ingest inbox)))
  unfolding accept_signature
  accept_signature-Accepted mapped =
      let i = ingest-Ingested parse_iso now tenant mapped (first_ingest inbox) in
      let g = i.grown in
      let c = i.counted in
      record {
        kept = i.kept;
        written = omega (arith, g);
        counted = omega (arith, c);
        stored = i.stored;
        unique = i.unique;
        raw = refl;
      }

  pub after_check-valid :
      sig.valid ≡ true
      → after_check parse_iso now inbox tenant handler headers body sig ≡ (
          handler.map_to_events body >>= λ mapped. ok (
            accept_signature inbox tenant handler headers body sig
              (ingest parse_iso now tenant mapped (first_ingest inbox))))
  unfolding after_check
  after_check-valid h = if-true _ _ h

  pub after_check-invalid :
      sig.valid ≡ false
      → after_check parse_iso now inbox tenant handler headers body sig
        ≡ ok (reject_signature inbox tenant handler headers body sig)
  unfolding after_check
  after_check-invalid h = if-false _ _ h

read-Delivery :
    (parse_iso : ParseIso) (registry : ProviderRegistry) (now : ℕ) (inbox : Inbox)
    (provider : String) (tenant : ℕ) (headers : Headers) (body : String) (handler : ProviderHandler)
    (credential : Option IntegrationCredential) (m : Result (List MappedEvent))
    → let sig = handler.verify_signature headers body credential in
      get_provider provider registry ≡ ok handler
      → load_credential_payload inbox.credentials tenant handler.provider ≡ ok credential
      → sig.valid ≡ true
      → handler.map_to_events body ≡ m
      → Delivery registry inbox provider tenant headers body (
          m >>= λ mapped. ok (
            accept_signature inbox tenant handler headers body sig
              (ingest parse_iso now tenant mapped (first_ingest inbox))))
read-Delivery parse_iso registry now inbox provider tenant headers body handler credential (err e) f
      l t m =
    unreadable handler credential f l t m
read-Delivery parse_iso registry now inbox provider tenant headers body handler credential
      (ok mapped) f l t m =
    accepted handler credential mapped f l t m (
      accept_signature-Accepted parse_iso now inbox tenant handler headers body
        (handler.verify_signature headers body credential) mapped)

checked-Delivery :
    (parse_iso : ParseIso) (registry : ProviderRegistry) (now : ℕ) (inbox : Inbox)
    (provider : String) (tenant : ℕ) (headers : Headers) (body : String) (handler : ProviderHandler)
    (r : Result (Option IntegrationCredential))
    → get_provider provider registry ≡ ok handler
    → load_credential_payload inbox.credentials tenant handler.provider ≡ r
    → Delivery registry inbox provider tenant headers body (
        r >>= λ credential.
        after_check parse_iso now inbox tenant handler headers body
          (handler.verify_signature headers body credential))
checked-Delivery parse_iso registry now inbox provider tenant headers body handler (err e) f l =
    ambiguous handler f l
checked-Delivery parse_iso registry now inbox provider tenant headers body handler (ok credential) f
      l =
    let sig = handler.verify_signature headers body credential in
    elim (Bool-cases sig.valid) [
      | inl t ↦
          subst (Delivery registry inbox provider tenant headers body)
            (sym (after_check-valid parse_iso now inbox tenant handler headers body sig t))
            (read-Delivery parse_iso registry now inbox provider tenant headers body handler
              credential (handler.map_to_events body) f l t refl)
      | inr t ↦
          subst (Delivery registry inbox provider tenant headers body)
            (sym (after_check-invalid parse_iso now inbox tenant handler headers body sig t))
            (refused handler credential f l t
              (reject_signature-Refused parse_iso now inbox tenant handler headers body sig))
    ]

found-Delivery :
    (parse_iso : ParseIso) (registry : ProviderRegistry) (now : ℕ) (inbox : Inbox)
    (provider : String) (tenant : ℕ) (headers : Headers) (body : String)
    (r : Result ProviderHandler)
    → get_provider provider registry ≡ r
    → Delivery registry inbox provider tenant headers body (
        r >>= λ handler.
        load_credential_payload inbox.credentials tenant handler.provider >>= λ credential.
        after_check parse_iso now inbox tenant handler headers body
          (handler.verify_signature headers body credential))
found-Delivery parse_iso registry now inbox provider tenant headers body (err e) h = unknown h
found-Delivery parse_iso registry now inbox provider tenant headers body (ok handler) h =
    checked-Delivery parse_iso registry now inbox provider tenant headers body handler
      (load_credential_payload inbox.credentials tenant handler.provider) h refl

-- If the database and the decryption of the credential do not fail, every delivery ends in one of these
-- ways. It raises, and nothing is written, if the provider is unknown
-- or its credential ambiguous, or if the signature is valid and the handler raises on the body. Or the
-- signature is refused: no event is written, and the raw webhook and an audit entry are. Or it is valid
-- and the body is mapped to events: every event of a known kind is then stored, what was stored still is,
-- no event is stored twice if none was, the events written and the duplicates together are the events of
-- known kinds, and the table grew by those written.
pub dispatch_webhook-Delivery :
    (parse_iso : ParseIso) (registry : ProviderRegistry) (now : ℕ) (inbox : Inbox)
    (provider : String) (tenant : ℕ) (headers : Headers) (body : String)
    → Delivery registry inbox provider tenant headers body
        (dispatch_webhook parse_iso registry now inbox provider tenant headers body)
unfolding dispatch_webhook
dispatch_webhook-Delivery parse_iso registry now inbox provider tenant headers body =
    found-Delivery parse_iso registry now inbox provider tenant headers body
      (get_provider provider registry) refl
