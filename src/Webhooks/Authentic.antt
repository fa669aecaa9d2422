-- ===== src/Webhooks/Authentic.antt =====
-- Whose deliveries the built-in handlers (app/webhooks/sendgrid.py, app/webhooks/linkedin.py) let
-- `dispatch_webhook` take in.
use marketing_agentic_system.Common.{
  ℕ, ◌≡◌, refl, sym, ap, ◌∙◌, String, Bool, true, false, ◌&&◌, Option, none, some, List, [], ◌∷◌,
  arith, inl, inr, Bool-cases, Row, first, later, find_where-some, select_where, select_where-Row,
  str_eq, str_eq_iff, ◌==◌, ==_iff, select_where-true, find_where,
}
use marketing_agentic_system.Common.Text.{clean}
use marketing_agentic_system.Data.{ok}
use marketing_agentic_system.Mail.{IntegrationCredential}
use marketing_agentic_system.EmailDispatch.Footer.{is_empty}
use marketing_agentic_system.Webhooks.{
  Headers, ProviderHandler, Inbox, DispatchResult, ParseIso, only_credential, known_handler,
  get_provider,
}
use marketing_agentic_system.Webhooks.Handlers.{
  nonempty, provided_secret, compare_secret, check_secret, verify_shared_secret, ReadEvents,
  builtin_handlers,
}
use marketing_agentic_system.Webhooks.Dispatcher.{load_credential_payload, dispatch_webhook}
use marketing_agentic_system.Webhooks.Replay.{dispatch_webhook-Answered, valid_sig}

nonempty-some :
    (o : Option String) (s : String) → nonempty o ≡ some s → (o ≡ some s) × (is_empty s ≡ false)
unfolding nonempty
nonempty-some none s h = cc
nonempty-some (some x) s h = elim (Bool-cases (is_empty x)) [
  | inl t ↦ cc (rw t at h)
  | inr f ↦ let same : x ≡ s = cc (rw f at h) in rw (← same) (refl, f)
]

-- What a valid signature shows of the credential and the headers.
pub record Shared (headers : Headers) (credential : Option IntegrationCredential) : Type 0 where
  pub row : IntegrationCredential
  pub known : credential ≡ some row
  pub secret : String
  pub configured : row.webhook_secret ≡ some secret
  pub nonempty_secret : is_empty secret ≡ false
  pub provided : provided_secret headers ≡ some secret

compare_secret-valid :
    (missing expected : String) (o : Option String)
    → (compare_secret missing expected o).valid ≡ true
    → o ≡ some expected
unfolding compare_secret
compare_secret-valid missing expected none h = cc
compare_secret-valid missing expected (some p) h = elim (Bool-cases (str_eq p expected)) [
  | inl t ↦ ap some ((str_eq_iff p expected).0 t)
  | inr f ↦ cc (rw f at h)
]

check_secret-valid :
    (missing : String) (headers : Headers) (o : Option String)
    → (check_secret missing headers o).valid ≡ true
    → (s : String) × (o ≡ some s) × (provided_secret headers ≡ some s)
unfolding check_secret
check_secret-valid missing headers none h = cc
check_secret-valid missing headers (some s) h =
    (s, refl, compare_secret-valid missing s (provided_secret headers) h)

verify_shared_secret-valid :
    (missing : String) (headers : Headers) (o : Option IntegrationCredential)
    → (verify_shared_secret missing headers o).valid ≡ true
    → Shared headers o
unfolding verify_shared_secret
verify_shared_secret-valid missing headers none h = cc
verify_shared_secret-valid missing headers (some c) h =
    let (s, e, p) = check_secret-valid missing headers (nonempty c.webhook_secret) h in
    let (configured, nonempty_secret) = nonempty-some c.webhook_secret s e in
    record {
      row = c;
      known = refl;
      secret = s;
      configured = configured;
      nonempty_secret = nonempty_secret;
      provided = p;
    }

known_handler-Row :
    (read : ReadEvents) (o : Option ProviderHandler) (h : ProviderHandler) (provider : String)
    → find_where (λ (x : ProviderHandler). str_eq x.provider provider) (builtin_handlers read) ≡ o
    → known_handler o ≡ ok h
    → Row h (builtin_handlers read) × (h.provider ≡ provider)
unfolding known_handler
known_handler-Row read none h provider f e = cc
known_handler-Row read (some x) h provider f e =
    let same : x ≡ h = cc in
    let (row, t) =
      find_where-some (λ (y : ProviderHandler). str_eq y.provider provider) (builtin_handlers read)
        f in
    (
      rw (← same) row,
      ap (λ (y : ProviderHandler). y.provider) (sym same) ∙ (str_eq_iff x.provider provider).0 t,
    )

builtin-Shared :
    (read : ReadEvents) (h : ProviderHandler) (headers : Headers) (body : String)
    (o : Option IntegrationCredential)
    → Row h (builtin_handlers read)
    → (h.verify_signature headers body o).valid ≡ true
    → Shared headers o
builtin-Shared read h headers body o (first e) v =
    verify_shared_secret-valid "missing_header" headers o (rw e at v)
builtin-Shared read h headers body o (later (first e)) v =
    verify_shared_secret-valid "secret_mismatch" headers o (rw e at v)
builtin-Shared read h headers body o (later (later r)) v = elim r [ ]

only_credential-Row :
    (l : List IntegrationCredential) (c : IntegrationCredential)
    → only_credential l ≡ ok (some c)
    → Row c l
unfolding only_credential
only_credential-Row [] c h = cc
only_credential-Row (x ∷ []) c h = let same : x ≡ c = cc in first (sym same)
only_credential-Row (x ∷ y ∷ rest) c h = cc

-- With the built-in handlers, a delivery is answered as valid only if the tenant has a credential of
-- the named provider, cleaned of blanks and case, whose webhook secret is not empty, and the headers
-- provide that secret.
pub dispatch_webhook-authenticated :
    (parse_iso : ParseIso) (read : ReadEvents) (now : ℕ) (inbox : Inbox) (provider : String)
    (tenant : ℕ) (headers : Headers) (body : String) (out : Inbox × DispatchResult)
    → dispatch_webhook parse_iso (builtin_handlers read) now inbox provider tenant headers body
      ≡ ok out
    → out.1.signature_valid ≡ true
    → (c : IntegrationCredential) × Row c inbox.credentials
      × (c.tenant_id ≡ tenant)
      × (c.provider ≡ clean provider)
      × ((secret : String) × (c.webhook_secret ≡ some secret)
          × (is_empty secret ≡ false)
          × (provided_secret headers ≡ some secret))
unfolding get_provider load_credential_payload
dispatch_webhook-authenticated parse_iso read now inbox provider tenant headers body out h v =
    let a =
      dispatch_webhook-Answered parse_iso (builtin_handlers read) now inbox provider tenant headers
        body out h in
    let (row, named) =
      known_handler-Row read
        (find_where (λ (x : ProviderHandler). str_eq x.provider (clean provider))
          (builtin_handlers read))
        a.handler (clean provider) refl a.found in
    let valid =
      valid_sig parse_iso (builtin_handlers read) now inbox provider tenant headers body out a v in
    let shared =
      builtin-Shared read a.handler headers body a.credential row (rw (sym a.checked) at valid) in
    let p = λ (c : IntegrationCredential).
      (c.tenant_id == tenant) && str_eq c.provider a.handler.provider in
    let one : Row shared.row (select_where p inbox.credentials) =
      only_credential-Row (select_where p inbox.credentials) shared.row
        (a.loaded ∙ ap ok shared.known) in
    let hit = select_where-true p inbox.credentials one in
    let (own, of_provider) =
      and2 (shared.row.tenant_id == tenant) (str_eq shared.row.provider a.handler.provider) hit in
    (
      shared.row,
      select_where-Row p inbox.credentials one,
      (==_iff shared.row.tenant_id tenant).0 own,
      (str_eq_iff shared.row.provider a.handler.provider).0 of_provider ∙ named,
      (shared.secret, shared.configured, shared.nonempty_secret, shared.provided),
    )
  where
    and2 : (p q : Bool) → (p && q) ≡ true → (p ≡ true) × (q ≡ true)
    and2 p q h = (ground arith, ground arith)
