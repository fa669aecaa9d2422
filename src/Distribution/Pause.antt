-- ===== src/Distribution/Pause.antt =====
-- `pause_campaign` of app/agents/distribution.py and the claims that come after it.
use marketing_agentic_system.Common.{ℕ, ◌≡◌, ◌≢◌, refl, String, Bool, false, some, Row}
use marketing_agentic_system.Queue.{
  Task, TaskTable, Payload, claim_next, waits_for_campaign, cancel_queued_for_campaign,
}
use marketing_agentic_system.Queue.Cancel.{
  Undisturbed, Undisturbed-NoneWaits, claim_next-silent, cancel_queued_for_campaign-NoneWaits,
  cancel_queued_for_campaign_lem,
}
use marketing_agentic_system.Data.{CampaignStatus, Campaign, Db}
use marketing_agentic_system.Distribution.Suspension.{is_paused, pause_campaign}

-- What a pause leaves: a paused campaign none of whose tasks is handed out, and all else as it was.
pub record Paused (db : Db) (c : Campaign) (db' : Db) (c' : Campaign) : Type 0 where
  pub status : c'.status ≡ CampaignStatus.paused
  pub assets : db'.assets ≡ db.assets
  pub silent :
      (r : TaskTable) (now : ℕ) (locked : ℕ → Bool) (worker : String) (lease : ℕ) (u : Task)
      → Undisturbed db'.tasks r
      → (claim_next now locked r worker lease).1 ≡ some u
      → u.campaign_id ≢ some c.id
  pub kept :
      (t : Task) → Row t db.tasks.rows → waits_for_campaign c.id t ≡ false → Row t db'.tasks.rows

-- Pausing a campaign that is not paused makes it so. However many claims and completions follow, no
-- worker is handed one of its tasks as long as no task fails, no lease is reaped and nothing is
-- enqueued. Its running and finished tasks, the tasks of others and all assets are as they were.
pub pause_campaign-Paused :
    (now : ℕ) (db : Db) (c : Campaign) (reason : String) (metadata : Payload)
    → is_paused c.status ≡ false
    → let (db', c') = pause_campaign now db c reason metadata in Paused db c db' c'
unfolding pause_campaign
pause_campaign-Paused now db c reason metadata h = rw h (record {
  status = refl;
  assets = refl;
  silent = λ r at locked worker lease u run e.
      claim_next-silent at c.id locked r worker lease u
        (Undisturbed-NoneWaits c.id (cancel_queued_for_campaign now db.tasks c.id).0 r
          (cancel_queued_for_campaign-NoneWaits now c.id db.tasks) run)
        e;
  kept = (cancel_queued_for_campaign_lem now now c.id (λ i. false) db.tasks "" 0).1;
})
