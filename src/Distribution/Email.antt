-- ===== src/Distribution/Email.antt =====
-- app/agents/distribution.py: `dispatch_email_asset`, the handler of `distribution.dispatch_email`.
use marketing_agentic_system.Common.{
  ℕ, String, Bool, true, false, Option, none, some, List, [], ◌∷◌, ◌==◌, if◌then◌else◌, length,
  find_where, is_some,
}
use marketing_agentic_system.Data.{
  AssetStatus, AssetType, Campaign, ContentAsset, DispatchSummary, Db, Result, ok, err, ◌>>=◌,
  has_asset_id,
}
use marketing_agentic_system.Mail.{AudienceMember, IntegrationCredential, Mail}
use marketing_agentic_system.EmailDispatch.Footer.{ComplianceFooter}
use marketing_agentic_system.Unsubscribe.{compliance_of}
use marketing_agentic_system.Distribution.Schedule.{is_scheduled}
use marketing_agentic_system.Distribution.Suspension.{is_paused}
use marketing_agentic_system.Distribution.Recipients.{
  Kept, load_audience_members, filter_for_test, running_ab_test_for_asset, Sorted, sort_members,
  left_out,
}
use marketing_agentic_system.Distribution.Sends.{
  build_compliance_footer, Tally, record_capped, summarise,
}
use marketing_agentic_system.Distribution.Publishing.{
  World, campaign_paused, dispatched, Dispatched, precondition_error, load_email_credential,
  send_to, publish, maybe_go_live,
}

unfoldable pub finish :
    World
    → Db
    → Mail
    → ContentAsset
    → Campaign
    → String
    → DispatchSummary
    → Tally
    → Result Dispatched
unfolding maybe_go_live
finish w db mail asset campaign provider summary t =
    maybe_go_live w (publish w.now summary provider asset db) campaign >>= λ db'. ok (record {
      db = db';
      mail = record mail { attempts = t.attempts };
      outcome = dispatched AssetStatus.published summary;
    })

-- From the sorted members on. `mail` holds the assignments that the filter made.
unfoldable pub send_sorted :
    World
    → Db
    → Mail
    → ContentAsset
    → Campaign
    → IntegrationCredential
    → ℕ
    → Option ComplianceFooter
    → Sorted
    → Result Dispatched
unfolding finish
send_sorted w db mail asset campaign cred audience_size footer s =
    send_to w mail asset cred footer s.to_send (record {
      sent = 0;
      suppressed = 0;
      rejected = 0;
      attempts = record_capped asset cred.provider s.capped mail.attempts;
    })
    >>= λ t.
        finish w db mail asset campaign cred.provider
          (summarise t (length s.capped) (length s.deduped) audience_size (is_some footer)) t

unfoldable pub dispatch_kept :
    World → Db → Mail → ContentAsset → Campaign → IntegrationCredential → Kept → Result Dispatched
unfolding send_sorted
dispatch_kept w db mail asset campaign cred (assignments, members) =
    send_sorted w db (record mail { assignments = assignments }) asset campaign cred
      (length members) (build_compliance_footer (compliance_of mail.compliance asset.tenant_id))
      (sort_members (left_out w.now mail asset members) members)

unfoldable pub dispatch_members :
    World
    → Db
    → Mail
    → ContentAsset
    → Campaign
    → IntegrationCredential
    → List AudienceMember
    → Result Dispatched
unfolding dispatch_kept
dispatch_members w db mail asset campaign cred [] = err precondition_error
dispatch_members w db mail asset campaign cred (m ∷ rest) =
    dispatch_kept w db mail asset campaign cred (
      filter_for_test w.hash w.racers mail asset (m ∷ rest)
        (running_ab_test_for_asset mail.ab_tests asset))

abbrev pub is_email : AssetType → Bool
is_email AssetType.email = true
is_email _ = false

unfoldable pub dispatch_for : World → Db → Mail → ContentAsset → Option Campaign → Result Dispatched
unfolding dispatch_members is_paused
dispatch_for w db mail asset none = err precondition_error
dispatch_for w db mail asset (some campaign) =
    if is_paused campaign.status
    then ok (record { db = db; mail = mail; outcome = campaign_paused asset.status })
    else (if is_email asset.asset_type
        then (load_email_credential mail asset.tenant_id >>= λ cred.
            dispatch_members w db mail asset campaign cred
              (load_audience_members mail asset.campaign_id))
        else err precondition_error)

unfoldable pub dispatch_loaded : World → Db → Mail → Option ContentAsset → Result Dispatched
unfolding dispatch_for is_scheduled
dispatch_loaded w db mail none = err precondition_error
dispatch_loaded w db mail (some asset) =
    if is_scheduled asset.status
    then dispatch_for w db mail asset
        (find_where (λ (c : Campaign). c.id == asset.campaign_id) db.campaigns)
    else err precondition_error

unfoldable pub dispatch_email_asset : World → Db → Mail → ℕ → Result Dispatched
unfolding dispatch_loaded
dispatch_email_asset w db mail asset_id =
    dispatch_loaded w db mail (find_where (has_asset_id asset_id) db.assets)
