-- ===== src/Unsubscribe/Tokens.antt =====
-- The token of a link in an e-mail verifies, in app/api/unsubscribe.py.
use marketing_agentic_system.Common.{
  ℕ, ◌≡◌, ◌≢◌, refl, String, false, not, ◌&&◌, Option, none, some, List, [], ◌∷◌, inl, inr,
  Bool-cases, str_eq, str_eq_iff, Row, first, later, Row-append, Row-last, find_where-some,
  any_where-true,
}
use marketing_agentic_system.Data.{ok}
use marketing_agentic_system.Mail.{TenantComplianceSettings}
use marketing_agentic_system.EmailDispatch.Address.{member_of}
use marketing_agentic_system.EmailDispatch.Footer.{is_empty}
use marketing_agentic_system.Unsubscribe.{
  LinkPayload, Serializer, own_secret, compliance_of, secret_or, signing_secret, link_payload,
  unsubscribe_token, add_secret, tenant_secrets, candidate_secrets, or_next, first_verified,
  verify_token,
}

-- The signing library, for one payload: the right secret gives it back, any other is a bad signature.
pub record Signs (serializer : Serializer) (payload : LinkPayload) : Type 0 where
  pub back : (k : String) → serializer.loads k (serializer.dumps k payload) ≡ some payload
  pub strict : (k l : String) → k ≢ l → serializer.loads l (serializer.dumps k payload) ≡ none

first_verified-of_Row :
    (serializer : Serializer) (payload : LinkPayload) (k : String) (l : List String)
    → Signs serializer payload
    → Row k l
    → first_verified serializer (serializer.dumps k payload) l ≡ ok payload
unfolding first_verified or_next
first_verified-of_Row serializer payload k [] s r = elim r [ ]
first_verified-of_Row serializer payload k (l ∷ rest) s (first e) =
    let b : serializer.loads l (serializer.dumps k payload) ≡ some payload = rw e (s.back l) in
    rw b refl
first_verified-of_Row serializer payload k (l ∷ rest) s (later r) = elim (Bool-cases (str_eq k l)) [
  | inl t ↦
      let e = (str_eq_iff k l).0 t in
      let b : serializer.loads l (serializer.dumps k payload) ≡ some payload = rw e (s.back l) in
      rw b refl
  | inr f ↦
      let b = s.strict k l (λ e. cc (f, (str_eq_iff k l).1 e)) in
      rw b (first_verified-of_Row serializer payload k rest s r)
]

add_secret-more :
    (o : Option String) (k : String) (l : List String) → Row k l → Row k (add_secret o l)
unfolding add_secret
add_secret-more none k l r = r
add_secret-more (some s) k l r = later r

tenant_secrets-of_Row :
    (rows : List TenantComplianceSettings) (row : TenantComplianceSettings) (k : String)
    → Row row rows
    → own_secret (some row) ≡ some k
    → Row k (tenant_secrets rows)
unfolding tenant_secrets add_secret
tenant_secrets-of_Row [] row k r h = elim r [ ]
tenant_secrets-of_Row (x ∷ rest) row k (first e) h =
    let own : own_secret (some x) ≡ some k = rw (← e) h in rw own (first refl)
tenant_secrets-of_Row (x ∷ rest) row k (later r) h =
    add_secret-more (own_secret (some x)) k _ (tenant_secrets-of_Row rest row k r h)

candidates-own :
    (fallback : String) (rows : List TenantComplianceSettings) (k : String)
    → Row k (tenant_secrets rows)
    → Row k (candidate_secrets fallback rows)
unfolding candidate_secrets
candidates-own fallback rows k r =
    elim (Bool-cases (not (is_empty fallback) && not (member_of fallback (tenant_secrets rows)))) [
      | inl t ↦ rw t (Row-append (fallback ∷ []) r)
      | inr f ↦ rw f r
    ]

candidates-fallback :
    (fallback : String) (rows : List TenantComplianceSettings)
    → is_empty fallback ≡ false
    → Row fallback (candidate_secrets fallback rows)
unfolding candidate_secrets
candidates-fallback fallback rows e = elim (Bool-cases (member_of fallback (tenant_secrets rows))) [
  | inl t ↦
      let (x, r, h) = any_where-true (str_eq fallback) (tenant_secrets rows) t in
      let same = (str_eq_iff fallback x).0 h in rw (e, t) (rw (← same) at r)
  | inr f ↦ rw (e, f) (Row-last (tenant_secrets rows) fallback)
]

signing_secret-Row :
    (fallback : String) (rows : List TenantComplianceSettings) (tenant : ℕ)
    → is_empty fallback ≡ false
    → Row (signing_secret fallback rows tenant) (candidate_secrets fallback rows)
unfolding signing_secret
signing_secret-Row fallback rows tenant e = found (compliance_of rows tenant) refl
  where
    own :
        (row : TenantComplianceSettings) (o : Option String)
        → Row row rows
        → own_secret (some row) ≡ o
        → Row (secret_or fallback o) (candidate_secrets fallback rows)
    own row none r h = candidates-fallback fallback rows e
    own row (some k) r h = candidates-own fallback rows k (tenant_secrets-of_Row rows row k r h)

    found :
        (o : Option TenantComplianceSettings)
        → compliance_of rows tenant ≡ o
        → Row (secret_or fallback (own_secret o)) (candidate_secrets fallback rows)
    found none h = candidates-fallback fallback rows e
    found (some row) h = own row (own_secret (some row)) (find_where-some _ rows h).0 refl

pub verify_token-unsubscribe_token :
    (serializer : Serializer) (fallback : String) (rows : List TenantComplianceSettings)
    (tenant : ℕ) (email : String)
    → is_empty fallback ≡ false
    → Signs serializer (link_payload tenant email)
    → verify_token serializer fallback rows
        (unsubscribe_token serializer fallback rows tenant email)
      ≡ ok (link_payload tenant email)
unfolding verify_token unsubscribe_token
verify_token-unsubscribe_token serializer fallback rows tenant email e s =
    first_verified-of_Row serializer (link_payload tenant email)
      (signing_secret fallback rows tenant) (candidate_secrets fallback rows) s
      (signing_secret-Row fallback rows tenant e)
