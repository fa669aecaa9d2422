-- ===== src/Distribution/Counted.antt =====
-- The counts in the summary of `dispatch_email_asset` (app/agents/distribution.py).
use marketing_agentic_system.Common.{
  ℕ, ◌+◌, ◌≡◌, ◌≢◌, refl, String, Option, none, some, List, [], ◌∷◌, arith, if◌then◌else◌, length,
  count_where, str_eq, last_where,
}
use marketing_agentic_system.Common.Text.{lower}
use marketing_agentic_system.Data.{ContentAsset}
use marketing_agentic_system.Mail.{AudienceMember, AttemptStatus}
use marketing_agentic_system.EmailDispatch.Footer.{is_empty}
use marketing_agentic_system.EmailDispatch.Tool.{ToolResult, Rejection}
use marketing_agentic_system.Distribution.Recipients.{
  Sorted, LeftOut, email_of, sort_one, sort_members,
}
use marketing_agentic_system.Distribution.Attempts.{upsert_dispatch_attempt}
use marketing_agentic_system.Distribution.Sends.{
  outcome_of, accepted_outcome, rejected_outcome, Tally, count_status, attempt_row, record_sends,
}

-- Members without an address.
abbrev pub without_address : List AudienceMember → ℕ
without_address members = count_where (λ m. is_empty (email_of m)) members

abbrev sorted_total : Sorted → ℕ
sorted_total s = length s.to_send + length s.deduped + length s.capped

sort_one-total :
    (out : LeftOut) (m : AudienceMember) (email : String) (s : Sorted)
    → sorted_total (sort_one out m email s) + (if is_empty email then 1 else 0) ≡ 1 + sorted_total s
unfolding sort_one
sort_one-total out m email s = ground arith

pub sort_members-total :
    (out : LeftOut) (members : List AudienceMember)
    → sorted_total (sort_members out members) + without_address members ≡ length members
unfolding sort_members
sort_members-total out [] = refl
sort_members-total out (m ∷ rest) =
    let ih = sort_members-total out rest in
    let one = sort_one-total out m (email_of m) (sort_members out rest) in omega (arith, ih, one)

abbrev pub tally_total : Tally → ℕ
tally_total t = t.sent + t.suppressed + t.rejected

count_status-total :
    (s : AttemptStatus) (t : Tally)
    → s ≢ AttemptStatus.skipped
    → tally_total (count_status s t) ≡ 1 + tally_total t
unfolding count_status
count_status-total AttemptStatus.sent t h = omega arith
count_status-total AttemptStatus.suppressed t h = omega arith
count_status-total AttemptStatus.rejected t h = omega arith
count_status-total AttemptStatus.failed t h = omega arith
count_status-total AttemptStatus.skipped t h = absurd (h refl)

accepted_outcome-status :
    (now : ℕ) (o : Option (String × String)) (r : Option Rejection)
    → (accepted_outcome now o r).status ≢ AttemptStatus.skipped
unfolding accepted_outcome rejected_outcome
accepted_outcome-status now (some e) r = λ h. cc
accepted_outcome-status now none none = λ h. cc
accepted_outcome-status now none (some r) = λ h. ground (arith, h)

outcome_of-status :
    (now : ℕ) (result : ToolResult) (email : String)
    → (outcome_of now result email).status ≢ AttemptStatus.skipped
unfolding outcome_of
outcome_of-status now result email =
    accepted_outcome-status now
      (last_where (λ (e : String × String). str_eq (lower e.0) email) result.per_message_ids)
      (last_where (λ (r : Rejection). str_eq (lower r.email) email) result.rejections)

pub record_sends-total :
    (now : ℕ) (asset : ContentAsset) (provider : String) (result : ToolResult)
    (l : List (AudienceMember × String)) (t : Tally)
    → tally_total (record_sends now asset provider result l t) ≡ tally_total t + length l
unfolding record_sends
record_sends-total now asset provider result [] t = omega arith
record_sends-total now asset provider result ((m, email) ∷ rest) t =
    let o = outcome_of now result email in
    let next : Tally = record (count_status o.status t) {
      attempts = upsert_dispatch_attempt (attempt_row asset provider m email o) t.attempts;
    } in
    let ih = record_sends-total now asset provider result rest next in
    let one = count_status-total o.status t (outcome_of-status now result email) in
    omega (arith, ih, one)
