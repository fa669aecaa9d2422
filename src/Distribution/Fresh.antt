-- ===== src/Distribution/Fresh.antt =====
-- To whom `dispatch_email_asset` of app/agents/distribution.py may write: what the loop over the members
-- lets through, said of the tables instead of the lists of addresses that the code makes of them.
use marketing_agentic_system.Common.{
  ℕ, ◌≡◌, refl, String, false, List, [], ◌∷◌, inl, inr, Bool-cases, Row, first, later, All, All-map,
}
use marketing_agentic_system.Data.{ContentAsset}
use marketing_agentic_system.Mail.{AudienceMember, Mail}
use marketing_agentic_system.EmailDispatch.Address.{member_of}
use marketing_agentic_system.EmailDispatch.Footer.{is_empty}
use marketing_agentic_system.Distribution.Attempts.{capped_recipients}
use marketing_agentic_system.Distribution.Recipients.{
  Sorted, LeftOut, email_of, addresses, sort_one, sort_members, left_out,
}
use marketing_agentic_system.Distribution.Unsent.{
  IsFresh, member_of-Row, unsent-of, rested-of, below_cap-of,
}

-- What the loop leaves in `to_send`.
record ToSend (out : LeftOut) (members : List AudienceMember) (address : String) : Type 0 where
  member : AudienceMember
  among : Row member members
  owner : email_of member ≡ address
  listed : Row address (addresses members)
  not_existing : member_of address out.existing ≡ false
  not_recent : member_of address out.recent ≡ false
  not_capped : member_of address out.capped ≡ false

ToSend-more :
    (out : LeftOut) (m : AudienceMember) (members : List AudienceMember) (address : String)
    → ToSend out members address
    → ToSend out (m ∷ members) address
unfolding addresses
ToSend-more out m members address t = record {
  member = t.member;
  among = later t.among;
  owner = t.owner;
  listed = elim (Bool-cases (is_empty (email_of m))) [
    | inl e ↦ rw e t.listed
    | inr e ↦ rw e (later t.listed)
  ];
  not_existing = t.not_existing;
  not_recent = t.not_recent;
  not_capped = t.not_capped;
}

abbrev AllToSend : LeftOut → List AudienceMember → List (AudienceMember × String) → Type 0
AllToSend out members l = All (λ (e : AudienceMember × String). ToSend out members e.1) l

sort_one-ToSend :
    (out : LeftOut) (m : AudienceMember) (rest : List AudienceMember) (s : Sorted)
    → AllToSend out (m ∷ rest) s.to_send
    → AllToSend out (m ∷ rest) (sort_one out m (email_of m) s).to_send
unfolding sort_one addresses
sort_one-ToSend out m rest s h = elim (Bool-cases (is_empty (email_of m))) [
  | inl e ↦ rw e h
  | inr e ↦ elim (Bool-cases (member_of (email_of m) out.existing)) [
    | inl x ↦ rw (e, x) h
    | inr x ↦ elim (Bool-cases (member_of (email_of m) out.recent)) [
      | inl y ↦ rw (e, x, y) h
      | inr y ↦ elim (Bool-cases (member_of (email_of m) out.capped)) [
        | inl z ↦ rw (e, x, y, z) h
        | inr z ↦
            let own : ToSend out (m ∷ rest) (email_of m) = record {
              member = m;
              among = first refl;
              owner = refl;
              listed = rw e (first refl);
              not_existing = x;
              not_recent = y;
              not_capped = z;
            } in
            rw (e, x, y, z) (own, h)
      ]
    ]
  ]
]

sort_members-ToSend :
    (out : LeftOut) (members : List AudienceMember)
    → AllToSend out members (sort_members out members).to_send
unfolding sort_members
sort_members-ToSend out [] = tt
sort_members-ToSend out (m ∷ rest) = sort_one-ToSend out m rest (sort_members out rest) (
    All-map (λ (e : AudienceMember × String). ToSend out rest e.1)
      (λ (e : AudienceMember × String). ToSend out (m ∷ rest) e.1) (sort_members out rest).to_send
      (λ e t. ToSend-more out m rest e.1 t) (sort_members-ToSend out rest))

ToSend-IsFresh :
    (now : ℕ) (mail : Mail) (asset : ContentAsset) (members : List AudienceMember)
    (address : String)
    → ToSend (left_out now mail asset members) members address
    → IsFresh now mail asset members address
unfolding left_out capped_recipients
ToSend-IsFresh now mail asset members address t =
    let listed = member_of-Row address (addresses members) t.listed in
    record {
      member = t.member;
      among = t.among;
      owner = t.owner;
      unsent = unsent-of asset.id mail.attempts address t.not_existing;
      rested =
          rested-of now asset.tenant_id mail.attempts (addresses members) address listed
            t.not_recent;
      below_cap = λ s found one.
          below_cap-of now asset.tenant_id mail.attempts (addresses members) address s listed
            (rw found at t.not_capped) one;
    }

-- Whoever is left to write to is fresh.
pub to_send-IsFresh :
    (now : ℕ) (mail : Mail) (asset : ContentAsset) (members : List AudienceMember)
    → All
        (λ (e : AudienceMember × String). IsFresh now mail asset members e.1)
        (sort_members (left_out now mail asset members) members).to_send
to_send-IsFresh now mail asset members =
    All-map (λ (e : AudienceMember × String). ToSend (left_out now mail asset members) members e.1)
      (λ (e : AudienceMember × String). IsFresh now mail asset members e.1)
      (sort_members (left_out now mail asset members) members).to_send
      (λ e t. ToSend-IsFresh now mail asset members e.1 t)
      (sort_members-ToSend (left_out now mail asset members) members)
