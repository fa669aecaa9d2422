-- ===== src/Distribution/OnRecord.antt =====
-- Which sends the rows of `dispatch_attempt` remember (app/agents/distribution.py).
use marketing_agentic_system.Common.{
  ℕ, ◌≡◌, refl, String, Bool, true, false, not, ◌&&◌, ◌||◌, List, arith, inl, inr, Bool-cases,
  ==_iff, str_eq_iff, if◌then◌else◌, any_where, any_where-update_where, any_where-append_one,
}
use marketing_agentic_system.Mail.{DispatchAttempt}
use marketing_agentic_system.Distribution.Attempts.{
  is_sent, has_idempotency_key, bumped, upsert_dispatch_attempt,
}

-- A row under the key says that the e-mail was sent.
abbrev pub is_on_record : ℕ → ℕ × String → DispatchAttempt → Bool
is_on_record tenant key b = has_idempotency_key tenant key b && is_sent b.status

bumped-on_record :
    (a b : DispatchAttempt)
    → is_on_record a.tenant_id a.idempotency_key (
        if has_idempotency_key a.tenant_id a.idempotency_key b && not (is_sent b.status)
        then bumped a.last_error b
        else b)
      ≡ is_on_record a.tenant_id a.idempotency_key b
unfolding has_idempotency_key bumped
bumped-on_record a b =
    elim (Bool-cases
      (has_idempotency_key a.tenant_id a.idempotency_key b && not (is_sent b.status))) [
        | inl t ↦ rw t refl
        | inr f ↦ rw f refl
      ]

own_key : (a : DispatchAttempt) → has_idempotency_key a.tenant_id a.idempotency_key a ≡ true
unfolding has_idempotency_key
own_key a =
    let t = (==_iff a.tenant_id a.tenant_id).1 refl in
    let i = (==_iff a.idempotency_key.0 a.idempotency_key.0).1 refl in
    let k = (str_eq_iff a.idempotency_key.1 a.idempotency_key.1).1 refl in rw (t, i, k) refl

-- After an upsert a key is on record as sent exactly when it was before, or when no row had the key and
-- the new attempt says sent. So a success under a key with an earlier failure is not recorded.
pub upsert_dispatch_attempt-on_record :
    (a : DispatchAttempt) (rows : List DispatchAttempt)
    → any_where (is_on_record a.tenant_id a.idempotency_key) (upsert_dispatch_attempt a rows) ≡ (
        any_where (is_on_record a.tenant_id a.idempotency_key) rows
        || (not (any_where (has_idempotency_key a.tenant_id a.idempotency_key) rows)
            && is_sent a.status))
unfolding upsert_dispatch_attempt
upsert_dispatch_attempt-on_record a rows =
    let key = has_idempotency_key a.tenant_id a.idempotency_key in
    let q = is_on_record a.tenant_id a.idempotency_key in
    elim (Bool-cases (any_where key rows)) [
      | inl t ↦
          let e =
            any_where-update_where q (λ b. key b && not (is_sent b.status)) (bumped a.last_error)
              rows (bumped-on_record a) in
          rw (t, e) (or_false (any_where q rows))
      | inr f ↦ let e = any_where-append_one q rows a in rw (f, e, own_key a) refl
    ]
  where
    or_false : (b : Bool) → b ≡ (b || false)
    or_false b = ground arith
