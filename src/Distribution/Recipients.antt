-- ===== src/Distribution/Recipients.antt =====
-- app/agents/distribution.py: to whom `dispatch_email_asset` writes: the campaign's audience, the slice
-- of it that an A/B test leaves, and the members that were written to before or too often.
use marketing_agentic_system.Common.{
  ℕ, String, Bool, true, false, not, ◌&&◌, ◌||◌, Option, none, some, List, [], ◌∷◌, leb, ◌==◌,
  if◌then◌else◌, get_or_else, find_where, select_where,
}
use marketing_agentic_system.Common.Text.{clean}
use marketing_agentic_system.Data.{ContentAsset, Result, ok, err}
use marketing_agentic_system.Mail.{Audience, AudienceMember, ChannelPlatform, Mail}
use marketing_agentic_system.AbTesting.{AbTestStatus, AbTest, AssignmentTable, Hash, assign_variant}
use marketing_agentic_system.EmailDispatch.Address.{member_of}
use marketing_agentic_system.EmailDispatch.Footer.{is_empty}
use marketing_agentic_system.Distribution.Attempts.{
  existing_attempts, recent_sent_recipients, capped_recipients,
}

-- ORDER BY created_at DESC LIMIT 1
abbrev pub newest_of : Audience → List Audience → Audience
newest_of a [] = a
newest_of a (b ∷ rest) = newest_of (if leb b.created_at a.created_at then a else b) rest

abbrev newest : List Audience → Option Audience
newest [] = none
newest (a ∷ rest) = some (newest_of a rest)

unfoldable pub members_of : List AudienceMember → Option Audience → List AudienceMember
members_of members none = []
members_of members (some a) = select_where (λ (m : AudienceMember). m.audience_id == a.id) members

-- _load_audience_members
unfoldable pub load_audience_members : Mail → ℕ → List AudienceMember
unfolding members_of
load_audience_members mail campaign_id =
    members_of mail.audience_members
      (newest (select_where (λ (a : Audience). a.campaign_id == campaign_id) mail.audiences))

abbrev is_running : AbTestStatus → Bool
is_running AbTestStatus.running = true
is_running _ = false

abbrev is_variant : Option ℕ → ℕ → Bool
is_variant none id = false
is_variant (some variant_id) id = variant_id == id

unfoldable pub is_test_of : ContentAsset → AbTest → Bool
is_test_of asset t =
    (t.tenant_id == asset.tenant_id)
    && is_running t.status
    && (is_variant t.variant_a_id asset.id || is_variant t.variant_b_id asset.id)

-- The test that the asset's metadata names, if it runs.
unfoldable pub or_else_running : Option AbTest → Option AbTest → Option AbTest
or_else_running none fallback = fallback
or_else_running (some t) fallback = if is_running t.status then some t else fallback

unfoldable pub test_by_group : List AbTest → ContentAsset → Option (Option ℕ) → Option AbTest
unfolding is_test_of or_else_running
test_by_group tests asset none = find_where (is_test_of asset) tests
test_by_group tests asset (some none) = none
test_by_group tests asset (some (some id)) =
    or_else_running (find_where (λ (t : AbTest). t.id == id) tests)
      (find_where (is_test_of asset) tests)

-- _running_ab_test_for_asset
unfoldable pub running_ab_test_for_asset : List AbTest → ContentAsset → Option AbTest
unfolding test_by_group
running_ab_test_for_asset tests asset =
    test_by_group tests asset asset.extra_metadata.ab_test_group_id

-- The assignments that were made, and the members that are kept.
abbrev pub Kept : Type 0
Kept = AssignmentTable × List AudienceMember

unfoldable pub keep_if : Bool → AudienceMember → Kept → Kept
keep_if b member kept = (kept.0, if b then member ∷ kept.1 else kept.1)

-- What other workers write to the assignments while this worker reads them.
abbrev pub Racers : Type 0
Racers = AssignmentTable → AssignmentTable

unfoldable pub after_assignment : AssignmentTable → Result (AssignmentTable × ℕ) → AssignmentTable
after_assignment rows (ok (rows', variant)) = rows'
after_assignment rows (err e) = rows

-- A misconfigured test keeps the member.
unfoldable pub is_assigned_to : ℕ → Result (AssignmentTable × ℕ) → Bool
is_assigned_to asset_id (ok (rows, variant)) = variant == asset_id
is_assigned_to asset_id (err e) = true

unfoldable pub filter_each :
    Hash → Racers → List AbTest → ContentAsset → ℕ → AssignmentTable → List AudienceMember → Kept
unfolding keep_if after_assignment is_assigned_to
filter_each hash racers tests asset test_id rows [] = (rows, [])
filter_each hash racers tests asset test_id rows (member ∷ rest) =
    let assigned =
      assign_variant hash racers tests rows asset.tenant_id test_id member.external_id in
    let known = not (is_empty member.external_id) in
    keep_if (if known then is_assigned_to asset.id assigned else true) member (
      filter_each hash racers tests asset test_id
        (if known then after_assignment rows assigned else rows) rest)

-- _filter_audience_for_ab_test
unfoldable pub filter_for_test :
    Hash → Racers → Mail → ContentAsset → List AudienceMember → Option AbTest → Kept
filter_for_test hash racers mail asset members none = (mail.assignments, members)
filter_for_test hash racers mail asset members (some t) =
    filter_each hash racers mail.ab_tests asset t.id mail.assignments members

unfoldable pub email_of : AudienceMember → String
email_of m = clean (get_or_else m.email "")

-- What the loop over the members sorts them into. A member without an address is in none of the lists.
pub record Sorted : Type 0 where
  pub to_send : List (AudienceMember × String)
  pub deduped : List (AudienceMember × String)
  pub capped : List (AudienceMember × String)

-- The addresses that are left out.
pub record LeftOut : Type 0 where
  pub existing : List String
  pub recent : List String
  pub capped : List String

unfoldable pub sort_one : LeftOut → AudienceMember → String → Sorted → Sorted
sort_one out member email rest =
    if is_empty email
    then rest
    else (if member_of email out.existing || member_of email out.recent
        then record rest { deduped = (member, email) ∷ rest.deduped }
        else (if member_of email out.capped
            then record rest { capped = (member, email) ∷ rest.capped }
            else record rest { to_send = (member, email) ∷ rest.to_send }))

unfoldable pub sort_members : LeftOut → List AudienceMember → Sorted
unfolding sort_one
sort_members out [] = record { to_send = []; deduped = []; capped = [] }
sort_members out (m ∷ rest) = sort_one out m (email_of m) (sort_members out rest)

-- The addresses that are looked up. Empty ones are not, and no member with one is written to.
unfoldable pub addresses : List AudienceMember → List String
addresses [] = []
addresses (m ∷ rest) =
    let others = addresses rest in if is_empty (email_of m) then others else email_of m ∷ others

unfoldable pub left_out : ℕ → Mail → ContentAsset → List AudienceMember → LeftOut
left_out now mail asset members = record {
  existing = existing_attempts mail.attempts asset.id;
  recent = recent_sent_recipients now mail.attempts asset.tenant_id (addresses members);
  capped =
      capped_recipients now mail.attempts mail.frequency_caps asset.tenant_id ChannelPlatform.email
        (addresses members);
}
