-- ===== src/Distribution/Sent.antt =====
-- What the sends of `dispatch_email_asset` (app/agents/distribution.py) leave.
use marketing_agentic_system.Common.{
  ℕ, ◌+◌, ◌≡◌, refl, subst, String, ◌&&◌, Option, List, [], ◌∷◌, arith, if◌then◌else◌, length,
  get_or_else,
}
use marketing_agentic_system.Data.{
  AssetStatus, Campaign, ContentAsset, DispatchSummary, Db, Result, ok, err, ◌>>=◌,
}
use marketing_agentic_system.Mail.{AudienceMember, DispatchAttempt, IntegrationCredential, Mail}
use marketing_agentic_system.StateMachine.{record_move}
use marketing_agentic_system.StateMachine.Guards.{ready_to_go_live}
use marketing_agentic_system.StateMachine.Machine.{start_live}
use marketing_agentic_system.EmailDispatch.Tool.{ToolResult, call}
use marketing_agentic_system.EmailDispatch.Footer.{ComplianceFooter}
use marketing_agentic_system.Distribution.Sends.{Tally, tool_inputs, record_sends}
use marketing_agentic_system.Distribution.Email.{finish}
use marketing_agentic_system.Distribution.Publishing.{
  World, Dispatched, dispatched, connector_of, url_of, send_to, publish, is_ready_to_launch,
}
use marketing_agentic_system.Distribution.Attempted.{Attempted, record_sends-Attempted}
use marketing_agentic_system.Distribution.Counted.{without_address, tally_total, record_sends-total}
use marketing_agentic_system.Distribution.GoLive.{maybe_go_live_lem}

-- The state once the asset is published, and the campaign live if it can be.
abbrev pub after_publish : World → Db → Campaign → Db
after_publish w db c =
    if is_ready_to_launch c.status && ready_to_go_live w.now db c
    then record_move start_live c db
    else db

-- What a dispatch leaves, of the members that the A/B filter kept.
pub record Delivery (w : World) (db : Db) (mail : Mail) (asset : ContentAsset) (c : Campaign)
    (cred : IntegrationCredential) (kept : List AudienceMember) (d : Dispatched) : Type 0 where
  pub summary : DispatchSummary
  pub outcome : d.outcome ≡ dispatched AssetStatus.published summary
  pub conserved :
      (summary.audience_size ≡ length kept)
      × (summary.sent
            + summary.suppressed
            + summary.rejected
            + summary.skipped
            + summary.deduped
            + without_address kept
          ≡ length kept)
  pub state : d.db ≡ after_publish w (publish w.now summary cred.provider asset db) c
  pub attempts : Attempted mail.attempts d.mail.attempts

-- What `send_to` leaves of the tally that it starts from.
pub record SentTo (before : List DispatchAttempt) (t : Tally) (n : ℕ) (t' : Tally) : Type 0 where
  pub total : tally_total t' ≡ tally_total t + n
  pub attempts : Attempted before t'.attempts

pub send_to-SentTo :
    (w : World) (mail : Mail) (asset : ContentAsset) (cred : IntegrationCredential)
    (footer : Option ComplianceFooter) (before : List DispatchAttempt)
    (l : List (AudienceMember × String)) (t t' : Tally)
    → Attempted before t.attempts
    → send_to w mail asset cred footer l t ≡ ok t'
    → SentTo before t (length l) t'
unfolding send_to
send_to-SentTo w mail asset cred footer before [] t t' a h =
    let same : t ≡ t' = cc in
    subst (SentTo before t 0) same (record { total = omega arith; attempts = a })
send_to-SentTo w mail asset cred footer before (r ∷ rest) t t' a h =
    recorded
      (call (connector_of w cred) asset.tenant_id mail.suppressions (
        tool_inputs (url_of w mail asset.tenant_id footer) (get_or_else cred.default_from_email "")
          footer asset (r ∷ rest)))
      h
  where
    recorded :
        (result : Result ToolResult)
        → (result >>= λ x. ok (record_sends w.now asset cred.provider x (r ∷ rest) t)) ≡ ok t'
        → SentTo before t (length (r ∷ rest)) t'
    recorded (err e) h = cc
    recorded (ok x) h =
        let same : record_sends w.now asset cred.provider x (r ∷ rest) t ≡ t' = cc in
        subst (SentTo before t (length (r ∷ rest))) same (record {
          total = record_sends-total w.now asset cred.provider x (r ∷ rest) t;
          attempts = record_sends-Attempted before w.now asset cred.provider x (r ∷ rest) t a;
        })

pub finish-eq :
    (w : World) (db : Db) (mail : Mail) (asset : ContentAsset) (c : Campaign) (provider : String)
    (summary : DispatchSummary) (t : Tally)
    → finish w db mail asset c provider summary t
      ≡ ok (record {
        db = after_publish w (publish w.now summary provider asset db) c;
        mail = record mail { attempts = t.attempts };
        outcome = dispatched AssetStatus.published summary;
      })
unfolding finish
finish-eq w db mail asset c provider summary t =
    rw (maybe_go_live_lem w (publish w.now summary provider asset db) c) refl
