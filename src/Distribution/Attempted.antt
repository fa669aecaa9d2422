-- ===== src/Distribution/Attempted.antt =====
-- What `_upsert_dispatch_attempt` of app/agents/distribution.py does to the rows that are there.
use marketing_agentic_system.Common.{
  Option, ℕ, ◌≡◌, String, Bool, true, false, not, ◌&&◌, List, [], ◌∷◌, arith, inl, inr, Bool-cases,
  str_eq_iff, if◌then◌else◌, Row, All-map, Pairs, Pairs-update_where, Pairs-append_one,
  Row-update_where, Row-append, any_where, any_where-false,
}
use marketing_agentic_system.Mail.{AudienceMember, DispatchAttempt}
use marketing_agentic_system.Data.{ContentAsset}
use marketing_agentic_system.EmailDispatch.Tool.{ToolResult}
use marketing_agentic_system.Distribution.Attempts.{
  is_sent, has_idempotency_key, bumped, upsert_dispatch_attempt,
}
use marketing_agentic_system.Distribution.Sends.{record_sends, record_capped, Tally}

-- Every row that says `sent` is still there, unchanged.
abbrev pub KeepsSent : List DispatchAttempt → List DispatchAttempt → Type 0
KeepsSent before after =
    (a : DispatchAttempt) → Row a before → is_sent a.status ≡ true → Row a after

-- The constraint uq_dispatch_attempt_tenant_idem_key.
abbrev pub HasUniqueKeys : List DispatchAttempt → Type 0
HasUniqueKeys =
    Pairs (λ (a b : DispatchAttempt). has_idempotency_key a.tenant_id a.idempotency_key b ≡ false)

upsert-KeepsSent :
    (a : DispatchAttempt) (rows : List DispatchAttempt)
    → KeepsSent rows (upsert_dispatch_attempt a rows)
unfolding upsert_dispatch_attempt
upsert-KeepsSent a rows b r s =
    elim (Bool-cases (any_where (has_idempotency_key a.tenant_id a.idempotency_key) rows)) [
      | inl t ↦
          let p = λ (x : DispatchAttempt).
            has_idempotency_key a.tenant_id a.idempotency_key x && not (is_sent x.status) in
          let kept : p b ≡ false = ground (arith, s) in
          let row = Row-update_where p (bumped a.last_error) rows r in rw t (rw kept at row)
      | inr f ↦ rw f (Row-append (a ∷ []) r)
    ]

key_sym :
    (a b : DispatchAttempt)
    → has_idempotency_key a.tenant_id a.idempotency_key b ≡ false
    → has_idempotency_key b.tenant_id b.idempotency_key a ≡ false
unfolding has_idempotency_key
key_sym a b h =
    let e = str_eq_iff a.idempotency_key.1 b.idempotency_key.1 in
    let f = str_eq_iff b.idempotency_key.1 a.idempotency_key.1 in ground (arith, e, f)

bumped-key :
    (p q : Bool) (x y : DispatchAttempt) (e : Option String)
    → has_idempotency_key x.tenant_id x.idempotency_key y ≡ false
    → has_idempotency_key
        (if p then bumped e x else x).tenant_id
        (if p then bumped e x else x).idempotency_key
        (if q then bumped e y else y)
      ≡ false
unfolding has_idempotency_key bumped
bumped-key true true x y e h = h
bumped-key true false x y e h = h
bumped-key false true x y e h = h
bumped-key false false x y e h = h

upsert-HasUniqueKeys :
    (a : DispatchAttempt) (rows : List DispatchAttempt)
    → HasUniqueKeys rows
    → HasUniqueKeys (upsert_dispatch_attempt a rows)
unfolding upsert_dispatch_attempt
upsert-HasUniqueKeys a rows u =
    let R =
      λ (x y : DispatchAttempt). has_idempotency_key x.tenant_id x.idempotency_key y ≡ false in
    let p = λ (x : DispatchAttempt).
      has_idempotency_key a.tenant_id a.idempotency_key x && not (is_sent x.status) in
    elim (Bool-cases (any_where (has_idempotency_key a.tenant_id a.idempotency_key) rows)) [
      | inl t ↦ rw t (
          Pairs-update_where R p (bumped a.last_error) rows
            (λ x y h. bumped-key (p x) (p y) x y a.last_error h) u)
      | inr f ↦
          let fresh = any_where-false (has_idempotency_key a.tenant_id a.idempotency_key) rows f in
          rw f
            (Pairs-append_one R rows a u (All-map _ (λ x. R x a) rows (λ x h. key_sym a x h) fresh))
    ]

-- What every upsert keeps, the two loops keep.
module _ (P : List DispatchAttempt → Type 0)
    (upsert : (a : DispatchAttempt) (rows : List DispatchAttempt)
      → P rows
      → P (upsert_dispatch_attempt a rows)) where
  record_capped_keeps :
      (asset : ContentAsset) (provider : String) (l : List (AudienceMember × String))
      (rows : List DispatchAttempt)
      → P rows
      → P (record_capped asset provider l rows)
  unfolding record_capped
  record_capped_keeps asset provider [] rows h = h
  record_capped_keeps asset provider ((m, email) ∷ rest) rows h =
      record_capped_keeps asset provider rest _ (upsert _ rows h)

  record_sends_keeps :
      (now : ℕ) (asset : ContentAsset) (provider : String) (result : ToolResult)
      (l : List (AudienceMember × String)) (t : Tally)
      → P t.attempts
      → P (record_sends now asset provider result l t).attempts
  unfolding record_sends
  record_sends_keeps now asset provider result [] t h = h
  record_sends_keeps now asset provider result ((m, email) ∷ rest) t h =
      record_sends_keeps now asset provider result rest _ (upsert _ t.attempts h)

-- What holds of the attempts after a dispatch: no row that says `sent` was touched, and the keys are
-- still unique if they were.
pub record Attempted (before after : List DispatchAttempt) : Type 0 where
  pub keeps_sent : KeepsSent before after
  pub unique : HasUniqueKeys before → HasUniqueKeys after

upsert-Attempted :
    (before : List DispatchAttempt) (a : DispatchAttempt) (rows : List DispatchAttempt)
    → Attempted before rows
    → Attempted before (upsert_dispatch_attempt a rows)
upsert-Attempted before a rows h = record {
  keeps_sent = λ b r s. upsert-KeepsSent a rows b (h.keeps_sent b r s) s;
  unique = λ u. upsert-HasUniqueKeys a rows (h.unique u);
}

pub record_capped-Attempted :
    (asset : ContentAsset) (provider : String) (l : List (AudienceMember × String))
    (rows : List DispatchAttempt)
    → Attempted rows (record_capped asset provider l rows)
record_capped-Attempted asset provider l rows =
    record_capped_keeps (Attempted rows) (upsert-Attempted rows) asset provider l rows
      (record { keeps_sent = λ a r s. r; unique = λ u. u })

pub record_sends-Attempted :
    (before : List DispatchAttempt) (now : ℕ) (asset : ContentAsset) (provider : String)
    (result : ToolResult) (l : List (AudienceMember × String)) (t : Tally)
    → Attempted before t.attempts
    → Attempted before (record_sends now asset provider result l t).attempts
record_sends-Attempted before = record_sends_keeps (Attempted before) (upsert-Attempted before)
