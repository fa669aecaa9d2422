-- ===== src/Webhooks/Replay.antt =====
-- What one delivery to `dispatch_webhook` (app/webhooks/dispatcher.py) leaves, and a second one of the
-- same body.
use marketing_agentic_system.Common.{
  ℕ, ◌+◌, ◌≡◌, refl, sym, subst, ap, ◌∙◌, String, true, false, Option, List, arith, inl, inr,
  Bool-cases, All,
}
use marketing_agentic_system.Data.{Result, ok, err, ◌>>=◌}
use marketing_agentic_system.Mail.{IntegrationCredential}
use marketing_agentic_system.Webhooks.{
  SignatureCheck, MappedEvent, Headers, ProviderHandler, ProviderRegistry, Inbox, DispatchResult,
  ParseIso, ingest, get_provider,
}
use marketing_agentic_system.Webhooks.Dispatcher.{
  load_credential_payload, first_ingest, reject_signature, accept_signature, after_check,
  dispatch_webhook,
}
use marketing_agentic_system.Webhooks.Ingested.{recognised, IsStored, ingest_known}
use marketing_agentic_system.Webhooks.Answers.{
  Accepted, accept_signature-Accepted, after_check-valid, after_check-invalid,
}

-- How an answer came about.
pub record Answered (parse_iso : ParseIso) (registry : ProviderRegistry) (now : ℕ) (inbox : Inbox)
    (provider : String) (tenant : ℕ) (headers : Headers) (body : String)
    (out : Inbox × DispatchResult) : Type 0 where
  pub handler : ProviderHandler
  pub credential : Option IntegrationCredential
  pub sig : SignatureCheck
  pub found : get_provider provider registry ≡ ok handler
  pub loaded : load_credential_payload inbox.credentials tenant handler.provider ≡ ok credential
  pub checked : handler.verify_signature headers body credential ≡ sig
  pub done : after_check parse_iso now inbox tenant handler headers body sig ≡ ok out

module _ (parse_iso : ParseIso) (registry : ProviderRegistry) (now : ℕ) (inbox : Inbox)
    (provider : String) (tenant : ℕ) (headers : Headers) (body : String)
    (out : Inbox × DispatchResult) where
  checked-Answered :
      (handler : ProviderHandler) (r : Result (Option IntegrationCredential))
      → get_provider provider registry ≡ ok handler
      → load_credential_payload inbox.credentials tenant handler.provider ≡ r
      → (r >>= λ credential.
          after_check parse_iso now inbox tenant handler headers body
            (handler.verify_signature headers body credential))
        ≡ ok out
      → Answered parse_iso registry now inbox provider tenant headers body out
  checked-Answered handler (err e) f l h = cc
  checked-Answered handler (ok credential) f l h = record {
    handler = handler;
    credential = credential;
    sig = handler.verify_signature headers body credential;
    found = f;
    loaded = l;
    checked = refl;
    done = h;
  }

  found-Answered :
      (r : Result ProviderHandler)
      → get_provider provider registry ≡ r
      → (r >>= λ handler.
          load_credential_payload inbox.credentials tenant handler.provider >>= λ credential.
          after_check parse_iso now inbox tenant handler headers body
            (handler.verify_signature headers body credential))
        ≡ ok out
      → Answered parse_iso registry now inbox provider tenant headers body out
  found-Answered (err e) f h = cc
  found-Answered (ok handler) f h =
      checked-Answered handler (load_credential_payload inbox.credentials tenant handler.provider) f
        refl h

  pub dispatch_webhook-Answered :
      dispatch_webhook parse_iso registry now inbox provider tenant headers body ≡ ok out
      → Answered parse_iso registry now inbox provider tenant headers body out
  unfolding dispatch_webhook
  dispatch_webhook-Answered h = found-Answered (get_provider provider registry) refl h

refused_flag :
    (inbox : Inbox) (tenant : ℕ) (handler : ProviderHandler) (headers : Headers) (body : String)
    (sig : SignatureCheck)
    → (reject_signature inbox tenant handler headers body sig).1.signature_valid ≡ false
unfolding reject_signature
refused_flag inbox tenant handler headers body sig = refl

pub valid_sig :
    (parse_iso : ParseIso) (registry : ProviderRegistry) (now : ℕ) (inbox : Inbox)
    (provider : String) (tenant : ℕ) (headers : Headers) (body : String)
    (out : Inbox × DispatchResult)
    (a : Answered parse_iso registry now inbox provider tenant headers body out)
    → out.1.signature_valid ≡ true
    → a.sig.valid ≡ true
valid_sig parse_iso registry now inbox provider tenant headers body out a v =
    elim (Bool-cases a.sig.valid) [
      | inl t ↦ t
      | inr f ↦
          let e =
            sym (after_check-invalid parse_iso now inbox tenant a.handler headers body a.sig f)
            ∙ a.done in
          let same : reject_signature inbox tenant a.handler headers body a.sig ≡ out = cc in
          let flag = refused_flag inbox tenant a.handler headers body a.sig in
          cc (rw same at flag, v)
    ]

-- The events of an answer that is valid.
record Mapped (parse_iso : ParseIso) (now : ℕ) (inbox : Inbox) (tenant : ℕ)
    (handler : ProviderHandler) (headers : Headers) (body : String) (sig : SignatureCheck)
    (out : Inbox × DispatchResult) : Type 0 where
  mapped : List MappedEvent
  read : handler.map_to_events body ≡ ok mapped
  answer :
      accept_signature inbox tenant handler headers body sig
        (ingest parse_iso now tenant mapped (first_ingest inbox))
      ≡ out

read-Mapped :
    (parse_iso : ParseIso) (now : ℕ) (inbox : Inbox) (tenant : ℕ) (handler : ProviderHandler)
    (headers : Headers) (body : String) (sig : SignatureCheck) (out : Inbox × DispatchResult)
    (m : Result (List MappedEvent))
    → handler.map_to_events body ≡ m
    → (m >>= λ mapped. ok (
        accept_signature inbox tenant handler headers body sig
          (ingest parse_iso now tenant mapped (first_ingest inbox))))
      ≡ ok out
    → Mapped parse_iso now inbox tenant handler headers body sig out
read-Mapped parse_iso now inbox tenant handler headers body sig out (err e) f h = cc
read-Mapped parse_iso now inbox tenant handler headers body sig out (ok mapped) f h = record {
  mapped = mapped;
  read = f;
  answer = cc;
}

valid_answer :
    (parse_iso : ParseIso) (registry : ProviderRegistry) (now : ℕ) (inbox : Inbox)
    (provider : String) (tenant : ℕ) (headers : Headers) (body : String)
    (out : Inbox × DispatchResult)
    (a : Answered parse_iso registry now inbox provider tenant headers body out)
    → out.1.signature_valid ≡ true
    → Mapped parse_iso now inbox tenant a.handler headers body a.sig out
valid_answer parse_iso registry now inbox provider tenant headers body out a v =
    read-Mapped parse_iso now inbox tenant a.handler headers body a.sig out
      (a.handler.map_to_events body) refl
      (sym (
          after_check-valid parse_iso now inbox tenant a.handler headers body a.sig
            (valid_sig parse_iso registry now inbox provider tenant headers body out a v))
        ∙ a.done)

-- What a delivery of events that are all stored gives.
accepted_known :
    (parse_iso : ParseIso) (now : ℕ) (inbox : Inbox) (tenant : ℕ) (handler : ProviderHandler)
    (headers : Headers) (body : String) (sig : SignatureCheck) (mapped : List MappedEvent)
    → All (IsStored tenant inbox.events) mapped
    → let out =
        accept_signature inbox tenant handler headers body sig
          (ingest parse_iso now tenant mapped (first_ingest inbox)) in
      (out.0.events ≡ inbox.events)
      × (out.1.events_written ≡ 0)
      × (out.1.events_deduped ≡ recognised mapped)
unfolding accept_signature
accepted_known parse_iso now inbox tenant handler headers body sig mapped h =
    let e = ingest_known parse_iso now tenant mapped (first_ingest inbox) h in
    (rw e refl, rw e refl, rw e (omega arith))

-- If a delivery is answered as valid, then a second one of the same body to the same provider and
-- tenant that is answered as valid too, at any time and with any headers, writes no event: the table of
-- events stays, and all its events of known kinds are counted as duplicates.
pub dispatch_webhook_replayed :
    (parse_iso : ParseIso) (registry : ProviderRegistry) (now now' : ℕ) (inbox : Inbox)
    (provider : String) (tenant : ℕ) (headers headers' : Headers) (body : String)
    (one two : Inbox × DispatchResult)
    → dispatch_webhook parse_iso registry now inbox provider tenant headers body ≡ ok one
    → one.1.signature_valid ≡ true
    → dispatch_webhook parse_iso registry now' one.0 provider tenant headers' body ≡ ok two
    → two.1.signature_valid ≡ true
    → (two.0.events ≡ one.0.events)
      × (two.1.events_written ≡ 0)
      × (two.1.events_deduped ≡ one.1.events_written + one.1.events_deduped)
dispatch_webhook_replayed parse_iso registry now now' inbox provider tenant headers headers' body
      one two h v h' v' =
    let a =
      dispatch_webhook-Answered parse_iso registry now inbox provider tenant headers body one h in
    let b =
      dispatch_webhook-Answered parse_iso registry now' one.0 provider tenant headers' body two
        h' in
    let same : b.handler ≡ a.handler = cc (a.found, b.found) in
    let one_mapped =
      valid_answer parse_iso registry now inbox provider tenant headers body one a v in
    let two_mapped =
      valid_answer parse_iso registry now' one.0 provider tenant headers' body two b v' in
    let again : two_mapped.mapped ≡ one_mapped.mapped =
      cc (
        one_mapped.read,
        two_mapped.read,
        ap (λ (x : ProviderHandler). x.map_to_events body) same,
      ) in
    let first =
      subst (Accepted inbox tenant a.handler headers body a.sig one_mapped.mapped) one_mapped.answer
        (accept_signature-Accepted parse_iso now inbox tenant a.handler headers body a.sig
          one_mapped.mapped) in
    let stored : All (IsStored tenant one.0.events) two_mapped.mapped =
      subst (All (IsStored tenant one.0.events)) (sym again) first.stored in
    let e = two_mapped.answer in
    let known =
      accepted_known parse_iso now' one.0 tenant b.handler headers' body b.sig two_mapped.mapped
        stored in
    (
      ap (λ (x : Inbox × DispatchResult). x.0.events) (sym e) ∙ known.0,
      ap (λ (x : Inbox × DispatchResult). x.1.events_written) (sym e) ∙ known.1,
      ap (λ (x : Inbox × DispatchResult). x.1.events_deduped) (sym e)
          ∙ known.2
          ∙ ap recognised again
          ∙ sym first.counted,
    )
