-- ===== src/Distribution/Unsent.antt =====
-- app/agents/distribution.py: who was not written to before, said of the tables instead of the lists of
-- addresses that the code makes of them.
use marketing_agentic_system.Common.{
  ℕ, ◌*◌, ◌≤◌, ◌<◌, ◌≡◌, ◌≢◌, refl, ◌∙◌, String, Bool, true, false, ◌&&◌, some, List, arith, inl,
  inr, Bool-cases, ◌==◌, leb, str_eq, str_eq_iff, Row, map, Row-map, select_where, count_where,
  find_where, any_where-of_Row, select_where-of_Row, count_where-select_where, count_where-same,
  count_where-Row,
}
use marketing_agentic_system.Data.{ContentAsset, microseconds_per_day}
use marketing_agentic_system.Mail.{
  AudienceMember, DispatchAttempt, FrequencyCapSetting, ChannelPlatform, Mail,
}
use marketing_agentic_system.EmailDispatch.Address.{member_of}
use marketing_agentic_system.Distribution.Attempts.{
  dedup_window, is_sent, is_sent_for, existing_attempts, sent_since, recent_sent_recipients,
  is_since, is_enabled_cap, at_cap, capped_by, address_of,
}
use marketing_agentic_system.Distribution.Recipients.{email_of}

-- The tenant's sends to the address within the window.
abbrev pub is_send_to : ℕ → ℕ → ℕ → String → DispatchAttempt → Bool
is_send_to now window tenant address a =
    (a.tenant_id == tenant)
    && is_sent a.status
    && is_since now window a.sent_at
    && str_eq (address_of a) address

-- An address that this asset may be sent to: the member's own, not written to for the asset nor by the
-- tenant within a day, and below the tenant's cap.
pub record IsFresh (now : ℕ) (mail : Mail) (asset : ContentAsset) (members : List AudienceMember)
    (address : String) : Type 0 where
  pub member : AudienceMember
  pub among : Row member members
  pub owner : email_of member ≡ address
  pub unsent :
      (a : DispatchAttempt)
      → Row a mail.attempts
      → is_sent_for asset.id a ≡ true
      → address_of a ≢ address
  pub rested :
      (a : DispatchAttempt)
      → Row a mail.attempts
      → is_send_to now dedup_window asset.tenant_id address a ≡ false
  pub below_cap :
      (s : FrequencyCapSetting)
      → find_where (is_enabled_cap asset.tenant_id ChannelPlatform.email) mail.frequency_caps
        ≡ some s
      → 1 ≤ s.max_sends_per_recipient
      → count_where
          (is_send_to now (s.window_days * microseconds_per_day) asset.tenant_id address)
          mail.attempts
        < s.max_sends_per_recipient

pub member_of-Row :
    (address : String) (l : List String) → Row address l → member_of address l ≡ true
member_of-Row address l r =
    any_where-of_Row (str_eq address) l r ((str_eq_iff address address).1 refl)

-- The rows that are looked up for one known address.
sent_since-address :
    (now window tenant : ℕ) (normalised : List String) (address : String) (a : DispatchAttempt)
    → member_of address normalised ≡ true
    → (sent_since now window tenant normalised a && str_eq (address_of a) address)
      ≡ is_send_to now window tenant address a
unfolding sent_since
sent_since-address now window tenant normalised address a h =
    elim (Bool-cases (str_eq (address_of a) address)) [
      | inl t ↦
          let e = (str_eq_iff (address_of a) address).0 t in
          let k : member_of (address_of a) normalised ≡ true = rw e h in
          rw (t, k)
            (all_true (a.tenant_id == tenant) (is_sent a.status) (is_since now window a.sent_at))
      | inr f ↦ rw f (
          none_true (a.tenant_id == tenant) (is_sent a.status) (is_since now window a.sent_at)
            (member_of (address_of a) normalised))
    ]
  where
    all_true : (p q r : Bool) → ((p && q && r && true) && true) ≡ (p && q && r && true)
    all_true p q r = ground arith

    none_true : (p q r s : Bool) → ((p && q && r && s) && false) ≡ (p && q && r && false)
    none_true p q r s = ground arith

pub unsent-of :
    (asset_id : ℕ) (attempts : List DispatchAttempt) (address : String)
    → member_of address (existing_attempts attempts asset_id) ≡ false
    → (a : DispatchAttempt) → Row a attempts
    → is_sent_for asset_id a ≡ true
    → address_of a ≢ address
unfolding existing_attempts
unsent-of asset_id attempts address h a r s e =
    let rows = select_where (is_sent_for asset_id) attempts in
    let row = Row-map address_of rows (select_where-of_Row (is_sent_for asset_id) attempts r s) in
    let k = member_of-Row address (map address_of rows) (rw e at row) in cc (k, h)

pub rested-of :
    (now tenant : ℕ) (attempts : List DispatchAttempt) (normalised : List String) (address : String)
    → member_of address normalised ≡ true
    → member_of address (recent_sent_recipients now attempts tenant normalised) ≡ false
    → (a : DispatchAttempt) → Row a attempts
    → is_send_to now dedup_window tenant address a ≡ false
unfolding recent_sent_recipients
rested-of now tenant attempts normalised address k h a r =
    elim (Bool-cases (is_send_to now dedup_window tenant address a)) [
      | inr f ↦ f
      | inl t ↦
          let both = sent_since-address now dedup_window tenant normalised address a k ∙ t in
          let p =
            and_left (sent_since now dedup_window tenant normalised a)
              (str_eq (address_of a) address) both in
          let q =
            and_right (sent_since now dedup_window tenant normalised a)
              (str_eq (address_of a) address) both in
          let e = (str_eq_iff (address_of a) address).0 q in
          let rows = select_where (sent_since now dedup_window tenant normalised) attempts in
          let row =
            Row-map address_of rows
              (select_where-of_Row (sent_since now dedup_window tenant normalised) attempts r p) in
          let k = member_of-Row address (map address_of rows) (rw e at row) in cc (k, h)
    ]
  where
    and_left : (p q : Bool) → (p && q) ≡ true → p ≡ true
    and_left p q h = ground arith

    and_right : (p q : Bool) → (p && q) ≡ true → q ≡ true
    and_right p q h = ground arith

pub below_cap-of :
    (now tenant : ℕ) (attempts : List DispatchAttempt) (normalised : List String) (address : String)
    (s : FrequencyCapSetting)
    → member_of address normalised ≡ true
    → member_of address (capped_by now attempts tenant normalised (some s)) ≡ false
    → 1 ≤ s.max_sends_per_recipient
    → count_where (is_send_to now (s.window_days * microseconds_per_day) tenant address) attempts
      < s.max_sends_per_recipient
unfolding capped_by at_cap
below_cap-of now tenant attempts normalised address s k h one =
    let window = s.window_days * microseconds_per_day in
    let rows = select_where (sent_since now window tenant normalised) attempts in
    let here = λ (b : DispatchAttempt). str_eq (address_of b) address in
    let counted =
      count_where-select_where (sent_since now window tenant normalised) here attempts
      ∙ count_where-same (λ b. sent_since now window tenant normalised b && here b)
          (is_send_to now window tenant address) attempts
          (λ b. sent_since-address now window tenant normalised address b k) in
    elim (Bool-cases (leb s.max_sends_per_recipient (count_where here rows))) [
      | inr f ↦ ground (arith, f, counted)
      | inl t ↦
          let (a, r, e) = count_where-Row here rows (ground (arith, t, one)) in
          let same = (str_eq_iff (address_of a) address).0 e in
          let full : at_cap s.max_sends_per_recipient rows a ≡ true = rw same t in
          let capped = select_where (at_cap s.max_sends_per_recipient rows) rows in
          let row =
            Row-map address_of capped
              (select_where-of_Row (at_cap s.max_sends_per_recipient rows) rows r full) in
          let m = member_of-Row address (map address_of capped) (rw same at row) in cc (m, h)
    ]
