-- ===== src/EmailDispatch/Screened.antt =====
-- To whom `EmailDispatchTool.call` of app/tools/email_dispatch.py lets the provider write.
use marketing_agentic_system.Common.{
  ℕ, ◌≡◌, ◌≢◌, refl, sym, String, true, false, Option, none, some, List, [], ◌∷◌, arith, inl, inr,
  Bool-cases, ==_iff, str_eq_iff, if◌then◌else◌, Row, first, later, All, str_eq, All-map,
  select_where, select_where-of_Row, any_where-of_Row, Row-map,
}
use marketing_agentic_system.Common.Text.{lower, strip, lstrip, rstrip, clean}
use marketing_agentic_system.Data.{bind-agrees}
use marketing_agentic_system.Mail.{ChannelPlatform, same_platform, SuppressionEntry}
use marketing_agentic_system.EmailDispatch.Address.{
  matches_email, domain_of, blocked_recipient_domains, member_of,
}
use marketing_agentic_system.EmailDispatch.Footer.{EmailMessage, is_empty, build_message}
use marketing_agentic_system.EmailDispatch.Tool.{
  EmailRecipient, EmailConnector, RawRecipient, shapeless, object, ToolInputs, candidates,
  is_suppressed_among, load_suppressed_emails, validate_recipient, Screening, validated, screen_one,
  screen_recipients, send_screened, suppressed_for, is_unverified, send_batch_of, call,
}

-- The tenant's e-mail suppression entry `s` is for the address.
abbrev pub Suppresses : ℕ → String → SuppressionEntry → Type 0
Suppresses tenant address s =
    (s.tenant_id ≡ tenant)
    × (same_platform s.channel_platform ChannelPlatform.email ≡ true)
    × (lower s.identifier ≡ address)

-- A recipient that the provider may be asked to write to.
pub record Deliverable (tenant : ℕ) (table : List SuppressionEntry) (batch : List String)
    (r : EmailRecipient) : Type 0 where
  pub requested : Row r.email batch
  pub valid : matches_email r.email ≡ true
  pub allowed : member_of (domain_of r.email) blocked_recipient_domains ≡ false
  pub not_suppressed : (s : SuppressionEntry) → Row s table → ¬ Suppresses tenant r.email s

-- What the loop checks.
abbrev Passed : List String → List String → EmailRecipient → Type 0
Passed suppressed batch r = (validate_recipient r.email suppressed ≡ none) × Row r.email batch

clean-nonempty : (s : String) → is_empty (clean s) ≡ false → is_empty s ≡ false
unfolding clean strip lstrip rstrip lower
clean-nonempty String.[] h = cc
clean-nonempty (String.◌∷◌ c s) h = refl

validated-Passed :
    (suppressed batch : List String) (r : EmailRecipient) (o : Option String) (s : Screening)
    → validate_recipient r.email suppressed ≡ o
    → Row r.email batch
    → All (Passed suppressed batch) s.send_payload
    → All (Passed suppressed batch) (validated r o s).send_payload
unfolding validated
validated-Passed suppressed batch r none s e row h = ((e, row), h)
validated-Passed suppressed batch r (some reason) s e row h = h

Passed-more :
    (suppressed batch : List String) (x : String) (l : List EmailRecipient)
    → All (Passed suppressed batch) l
    → All (Passed suppressed (x ∷ batch)) l
Passed-more suppressed batch x l =
    All-map (Passed suppressed batch) (Passed suppressed (x ∷ batch)) l (λ r h. (h.0, later h.1))

screen_recipients-Passed :
    (suppressed : List String) (batch : List RawRecipient)
    → All (Passed suppressed (candidates batch)) (screen_recipients suppressed batch).send_payload
unfolding screen_recipients screen_one candidates
screen_recipients-Passed suppressed [] = tt
screen_recipients-Passed suppressed (shapeless s ∷ rest) = screen_recipients-Passed suppressed rest
screen_recipients-Passed suppressed (object email merge_fields name ∷ rest) =
    let ih = screen_recipients-Passed suppressed rest in
    elim (Bool-cases (is_empty (clean email))) [
      | inl t ↦ elim (Bool-cases (is_empty email)) [
        | inl u ↦ rw (t, u) ih
        | inr u ↦ rw (t, u) (Passed-more suppressed _ (clean email) _ ih)
      ]
      | inr f ↦
          rw (f, clean-nonempty email f)
            (validated-Passed suppressed _ _ _ (screen_recipients suppressed rest) refl (first refl)
              (Passed-more suppressed _ (clean email) _ ih))
    ]

validate_recipient-none :
    (email : String) (suppressed : List String)
    → validate_recipient email suppressed ≡ none
    → (member_of email suppressed ≡ false)
      × (matches_email email ≡ true)
      × (member_of (domain_of email) blocked_recipient_domains ≡ false)
unfolding validate_recipient
validate_recipient-none email suppressed h = elim (Bool-cases (member_of email suppressed)) [
  | inl t ↦ cc (rw t at h)
  | inr f ↦ elim (Bool-cases (matches_email email)) [
    | inl u ↦ (f, u, ground arith)
    | inr u ↦ ground arith
  ]
]

suppressed-member :
    (tenant : ℕ) (table : List SuppressionEntry) (batch : List RawRecipient) (address : String)
    (s : SuppressionEntry)
    → Row address (candidates batch)
    → Row s table
    → Suppresses tenant address s
    → member_of address (load_suppressed_emails tenant table batch) ≡ true
unfolding load_suppressed_emails is_suppressed_among
suppressed-member tenant table batch address s r q h =
    let same = (str_eq_iff address (lower s.identifier)).1 (sym h.2) in
    let known =
      any_where-of_Row (str_eq (lower s.identifier)) (candidates batch) r
        ((str_eq_iff (lower s.identifier) address).1 h.2) in
    let named = (==_iff s.tenant_id tenant).1 h.0 in
    let hit : is_suppressed_among tenant (candidates batch) s ≡ true =
      rw (named, h.1, known) refl in
    let row =
      Row-map (λ (x : SuppressionEntry). lower x.identifier)
        (select_where (is_suppressed_among tenant (candidates batch)) table)
        (select_where-of_Row (is_suppressed_among tenant (candidates batch)) table q hit) in
    any_where-of_Row (str_eq address) _ row same

Passed-Deliverable :
    (tenant : ℕ) (table : List SuppressionEntry) (batch : List RawRecipient) (r : EmailRecipient)
    → Passed (load_suppressed_emails tenant table batch) (candidates batch) r
    → Deliverable tenant table (candidates batch) r
Passed-Deliverable tenant table batch r p =
    let v = validate_recipient-none r.email (load_suppressed_emails tenant table batch) p.0 in
    record {
      requested = p.1;
      valid = v.1;
      allowed = v.2;
      not_suppressed = λ s q h. cc (suppressed-member tenant table batch r.email s p.1 q h, v.0);
    }

-- The two providers answer alike wherever every recipient is deliverable.
abbrev pub AgreeOnDeliverable :
    ℕ → List SuppressionEntry → ToolInputs → EmailConnector → EmailConnector → Type 0
AgreeOnDeliverable tenant table inputs c d =
    (from_email : String) (message : EmailMessage) (rs : List EmailRecipient)
    → All (Deliverable tenant table (candidates inputs.audience_batch)) rs
    → rs ≢ []
    → c.send_batch from_email message rs ≡ d.send_batch from_email message rs

send_screened-agrees :
    (tenant : ℕ) (table : List SuppressionEntry) (inputs : ToolInputs) (c d : EmailConnector)
    (from_email : String) (message : EmailMessage) (s : Screening) (rs : List EmailRecipient)
    → c.provider ≡ d.provider
    → AgreeOnDeliverable tenant table inputs c d
    → All (Deliverable tenant table (candidates inputs.audience_batch)) rs
    → send_screened c from_email message s rs ≡ send_screened d from_email message s rs
unfolding send_screened
send_screened-agrees tenant table inputs c d from_email message s [] e h a = rw e refl
send_screened-agrees tenant table inputs c d from_email message s (r ∷ rest) e h a =
    rw (e, h from_email message (r ∷ rest) a (λ q. cc)) refl

send_batch_of-agrees :
    (tenant : ℕ) (table : List SuppressionEntry) (inputs : ToolInputs) (c d : EmailConnector)
    (message : EmailMessage)
    → inputs.transactional ≡ false
    → c.provider ≡ d.provider
    → AgreeOnDeliverable tenant table inputs c d
    → send_batch_of c tenant table inputs message ≡ send_batch_of d tenant table inputs message
unfolding send_batch_of suppressed_for
send_batch_of-agrees tenant table inputs c d message t e h =
    let s =
      screen_recipients (load_suppressed_emails tenant table inputs.audience_batch)
        inputs.audience_batch in
    let a =
      All-map _ (Deliverable tenant table (candidates inputs.audience_batch)) s.send_payload
        (Passed-Deliverable tenant table inputs.audience_batch)
        (screen_recipients-Passed (load_suppressed_emails tenant table inputs.audience_batch)
          inputs.audience_batch) in
    let same =
      send_screened-agrees tenant table inputs c d (clean inputs.from_email) message s
        s.send_payload e h a in
    rw (t, same) refl

-- Unless the call is transactional, its outcome depends on the provider only where every recipient is
-- deliverable: requested in the batch, a well-formed address at a domain that is not blocked, and
-- under no e-mail suppression of the tenant. So no other recipient is ever handed to a provider: two
-- connectors with the same name and verified senders that agree on such batches give the same result.
pub call-screened :
    (tenant : ℕ) (table : List SuppressionEntry) (inputs : ToolInputs) (c d : EmailConnector)
    → inputs.transactional ≡ false
    → c.provider ≡ d.provider
    → c.verified_senders ≡ d.verified_senders
    → AgreeOnDeliverable tenant table inputs c d
    → call c tenant table inputs ≡ call d tenant table inputs
unfolding call is_unverified
call-screened tenant table inputs c d t e v h =
    let same =
      bind-agrees
        (build_message inputs.message
          (if inputs.transactional then none else inputs.compliance_footer))
        (send_batch_of c tenant table inputs) (send_batch_of d tenant table inputs)
        (λ message. send_batch_of-agrees tenant table inputs c d message t e h) in
    rw (v, same) refl
