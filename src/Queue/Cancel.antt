-- ===== src/Queue/Cancel.antt =====
-- `cancel_queued_for_campaign` (app/orchestrator/queue.py) and the claims that come after it.
use marketing_agentic_system.Common.{
  ℕ, ◌≡◌, ◌≢◌, refl, String, Bool, true, false, Option, none, some, arith, All, Row, All-Row,
  All-of_Row, All-update_where, first, later, update_where, if◌then◌else◌, List, [], ◌∷◌,
}
use marketing_agentic_system.Queue.{
  Task, TaskTable, Payload, has_id, next_task, take_task, complete, completed, is_waiting, is_ready,
  claim_next, claimed, waits_for_campaign, cancelled_at, cancel_queued_for_campaign,
}
use marketing_agentic_system.Queue.Claim.{claim_next-Taken}

claimed-campaign_id :
    (now : ℕ) (worker : String) (lease : ℕ) (t : Task)
    → (claimed now worker lease t).campaign_id ≡ t.campaign_id
unfolding claimed
claimed-campaign_id now worker lease t = refl

cancelled-not_waiting :
    (now campaign : ℕ) (t : Task)
    → waits_for_campaign campaign (if waits_for_campaign campaign t then cancelled_at now t else t)
      ≡ false
unfolding waits_for_campaign cancelled_at is_waiting
cancelled-not_waiting now campaign t = ground arith

cancelled-kept :
    (now campaign : ℕ) (t : Task) (l : List Task)
    → Row t l
    → waits_for_campaign campaign t ≡ false
    → Row t (update_where (waits_for_campaign campaign) (cancelled_at now) l)
cancelled-kept now campaign t [] r h = elim r [ ]
cancelled-kept now campaign t (x ∷ xs) (first e) h = first (rw (← e, h))
cancelled-kept now campaign t (x ∷ xs) (later r) h = later (cancelled-kept now campaign t xs r h)

ready-waits :
    (now : ℕ) (locked : ℕ → Bool) (campaign : ℕ) (t : Task)
    → is_ready now locked t ≡ true
    → t.campaign_id ≡ some campaign
    → waits_for_campaign campaign t ≡ true
unfolding is_ready waits_for_campaign
ready-waits now locked campaign t h e = rw e (ground arith)

-- No task of the campaign waits.
abbrev pub NoneWaits : ℕ → TaskTable → Type 0
NoneWaits campaign q = All (λ (t : Task). waits_for_campaign campaign t ≡ false) q.rows

pub cancel_queued_for_campaign-NoneWaits :
    (now campaign : ℕ) (q : TaskTable)
    → NoneWaits campaign (cancel_queued_for_campaign now q campaign).0
unfolding cancel_queued_for_campaign
cancel_queued_for_campaign-NoneWaits now campaign q =
    All-update_where (λ _. Unit {0}) (λ t. waits_for_campaign campaign t ≡ false)
      (waits_for_campaign campaign) (cancelled_at now) q.rows
      (λ t _. cancelled-not_waiting now campaign t) (All-of_Row _ q.rows (λ _ _. tt))

pub claim_next-silent :
    (now campaign : ℕ) (locked : ℕ → Bool) (q : TaskTable) (worker : String) (lease : ℕ) (u : Task)
    → NoneWaits campaign q
    → (claim_next now locked q worker lease).1 ≡ some u
    → u.campaign_id ≢ some campaign
claim_next-silent now campaign locked q worker lease u gone h e =
    let a = claim_next-Taken now locked q worker lease u h in
    cc (
      All-Row (λ t. waits_for_campaign campaign t ≡ false) a.chosen.row gone,
      ready-waits now locked campaign a.source a.chosen.ready
          (cc (a.written, e, claimed-campaign_id now worker lease a.source)),
    )

not_waiting :
    (campaign : ℕ) (t : Task) → is_waiting t.status ≡ false → waits_for_campaign campaign t ≡ false
unfolding waits_for_campaign
not_waiting campaign t h = ground (arith, h)

if-not_waiting :
    (campaign : ℕ) (b : Bool) (x y : Task)
    → waits_for_campaign campaign x ≡ false
    → waits_for_campaign campaign y ≡ false
    → waits_for_campaign campaign (if b then x else y) ≡ false
if-not_waiting campaign true x y h k = h
if-not_waiting campaign false x y h k = k

take_task-NoneWaits :
    (now campaign : ℕ) (q : TaskTable) (worker : String) (lease : ℕ) (o : Option Task)
    → NoneWaits campaign q
    → NoneWaits campaign (take_task now q worker lease o).0
unfolding take_task claimed is_waiting
take_task-NoneWaits now campaign q worker lease none gone = gone
take_task-NoneWaits now campaign q worker lease (some t) gone =
    All-update_where (λ x. waits_for_campaign campaign x ≡ false)
      (λ x. waits_for_campaign campaign x ≡ false) (has_id t.id) (claimed now worker lease) q.rows
      (λ x h.
        if-not_waiting campaign (has_id t.id x) (claimed now worker lease x) x
          (not_waiting campaign (claimed now worker lease x) refl) h)
      gone

complete-NoneWaits :
    (now campaign : ℕ) (q : TaskTable) (id : ℕ) (output : Payload)
    → NoneWaits campaign q
    → NoneWaits campaign (complete now q id output)
unfolding complete completed is_waiting
complete-NoneWaits now campaign q id output gone =
    All-update_where (λ x. waits_for_campaign campaign x ≡ false)
      (λ x. waits_for_campaign campaign x ≡ false) (has_id id) (completed now output) q.rows
      (λ x h.
        if-not_waiting campaign (has_id id x) (completed now output x) x
          (not_waiting campaign (completed now output x) refl) h)
      gone

-- What workers do to a table while no task fails, no lease is reaped and nothing is enqueued.
pub data Undisturbed (q : TaskTable) : TaskTable → Type 0 where
  still : Undisturbed q q
  claims :
      {r : TaskTable} (now : ℕ) (locked : ℕ → Bool) (worker : String) (lease : ℕ)
      → Undisturbed q r
      → Undisturbed q (claim_next now locked r worker lease).0
  completes :
      {r : TaskTable} (now id : ℕ) (output : Payload)
      → Undisturbed q r
      → Undisturbed q (complete now r id output)

pub Undisturbed-NoneWaits :
    (campaign : ℕ) (q r : TaskTable) → NoneWaits campaign q → Undisturbed q r → NoneWaits campaign r
unfolding claim_next
Undisturbed-NoneWaits campaign q r gone still = gone
Undisturbed-NoneWaits campaign q _ gone (claims {r} now locked worker lease run) =
    take_task-NoneWaits now campaign r worker lease (next_task now locked r)
      (Undisturbed-NoneWaits campaign q r gone run)
Undisturbed-NoneWaits campaign q _ gone (completes {r} now id output run) =
    complete-NoneWaits now campaign r id output (Undisturbed-NoneWaits campaign q r gone run)

pub cancel_queued_for_campaign_lem :
    (now later_on campaign : ℕ) (locked : ℕ → Bool) (q : TaskTable) (worker : String) (lease : ℕ)
    → let q' = (cancel_queued_for_campaign now q campaign).0 in
      ((u : Task)
        → (claim_next later_on locked q' worker lease).1 ≡ some u
        → u.campaign_id ≢ some campaign)
      × ((t : Task) → Row t q.rows → waits_for_campaign campaign t ≡ false → Row t q'.rows)
unfolding cancel_queued_for_campaign
cancel_queued_for_campaign_lem now later_on campaign locked q worker lease = (
  λ u h.
      claim_next-silent later_on campaign locked (cancel_queued_for_campaign now q campaign).0
        worker lease u (cancel_queued_for_campaign-NoneWaits now campaign q) h,
  λ t r h. cancelled-kept now campaign t q.rows r h,
)
