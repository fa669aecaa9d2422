-- ===== src/Worker/Rounds.antt =====
-- What one round of a worker does to the table, whatever the handlers do.
use marketing_agentic_system.Common.{
  ℕ, ◌≡◌, refl, ap, subst, String, Bool, true, false, Option, none, some, List, arith, All, Row,
  All-update_where, All-of_Row, find_where, find_where-some, find_where-of_Row, Row-update_where,
  if◌then◌else◌, ==_iff,
}
use marketing_agentic_system.Queue.{
  Task, TaskTable, Payload, has_id, is_running, is_ready, claimed, next_task, take_task, claim_next,
  completed, complete, after_failure, given_up, put_back, fail_loaded, fail, update_rows,
}
use marketing_agentic_system.Queue.Claim.{IsNext, claimed-id, next_task-IsNext, next_task-none}
use marketing_agentic_system.Worker.{
  Outcome, returned, raised, HandlerFn, Handlers, Round, handled, settle, dispatch, after_claim,
  run_once,
}

-- No row with the id is running.
abbrev pub Settled : ℕ → TaskTable → Type 0
Settled i q = All (λ t. t.id ≡ i → is_running t.status ≡ false) q.rows

completed-settled :
    (now : ℕ) (output : Payload) (i : ℕ) (t : Task)
    → (if has_id i t then completed now output t else t).id ≡ i
    → is_running (if has_id i t then completed now output t else t).status ≡ false
unfolding completed is_running
completed-settled now output i t = ground arith

failed-settled :
    (draw : ℕ → ℕ) (now : ℕ) (error : String) (permanent : Bool) (loaded : Task) (i : ℕ) (t : Task)
    → let w = after_failure draw now error permanent loaded in
      (if has_id i t then w t else t).id ≡ i
      → is_running (if has_id i t then w t else t).status ≡ false
unfolding after_failure given_up put_back is_running
failed-settled draw now error permanent loaded i t = ground arith

complete-Settled :
    (now : ℕ) (q : TaskTable) (i : ℕ) (output : Payload) → Settled i (complete now q i output)
unfolding complete
complete-Settled now q i output =
    All-update_where (λ _. Unit {0}) (λ (t : Task). t.id ≡ i → is_running t.status ≡ false)
      (has_id i) (completed now output) q.rows (λ t _. completed-settled now output i t)
      (All-of_Row _ q.rows (λ _ _. tt))

found_id : (l : List Task) (i : ℕ) (t : Task) → find_where (has_id i) l ≡ some t → t.id ≡ i
found_id l i t e = (==_iff t.id i).0 (find_where-some (has_id i) l e).1

-- A table with a row of the id.
abbrev Holds : ℕ → TaskTable → Type 0
Holds i q = (t : Task) × (find_where (has_id i) q.rows ≡ some t)

fail-Settled :
    (draw : ℕ → ℕ) (now : ℕ) (q : TaskTable) (i : ℕ) (error : String) (permanent : Bool)
    → Holds i q
    → (q' : TaskTable) × (t : Task) × (fail draw now q i error permanent ≡ some (q', t))
      × Settled i q'
unfolding fail fail_loaded
fail-Settled draw now q i error permanent (t, e) =
    let w = after_failure draw now error permanent t in
    let s : Settled t.id (update_rows (has_id t.id) w q) =
      All-update_where (λ _. Unit {0}) (λ (u : Task). u.id ≡ t.id → is_running u.status ≡ false)
        (has_id t.id) w q.rows (λ u _. failed-settled draw now error permanent t t.id u)
        (All-of_Row _ q.rows (λ _ _. tt)) in
    (
      update_rows (has_id t.id) w q,
      w t,
      ap (fail_loaded draw now q error permanent) e,
      subst (λ (j : ℕ). Settled j (update_rows (has_id t.id) w q)) (found_id q.rows i t e) s,
    )

claimed-has_id :
    (now : ℕ) (worker : String) (lease : ℕ) (t : Task)
    → has_id t.id (if has_id t.id t then claimed now worker lease t else t) ≡ true
unfolding claimed
claimed-has_id now worker lease t = ground arith

claimed-Holds :
    (now : ℕ) (worker : String) (lease : ℕ) (q : TaskTable) (t : Task)
    → Row t q.rows
    → Holds t.id (update_rows (has_id t.id) (claimed now worker lease) q)
claimed-Holds now worker lease q t r =
    find_where-of_Row (has_id t.id) _ _
      (Row-update_where (has_id t.id) (claimed now worker lease) q.rows r)
      (claimed-has_id now worker lease t)

-- The ways in which a round can end: nothing was ready and nothing changed, or the next task was
-- taken and is not running any more.
pub data RoundEnd (r : Round) (q : TaskTable) : TaskTable × Bool → Type 0 where
  idle :
      ((u : Task) → Row u q.rows → is_ready r.claimed_at r.locked u ≡ false)
      → RoundEnd r q (q, false)
  worked :
      {q' : TaskTable} (t : Task)
      → IsNext r.claimed_at r.locked q t
      → Settled t.id q'
      → RoundEnd r q (q', true)

handled-fail :
    (r : Round) (q q₁ : TaskTable) (t : Task) (i : ℕ) (error : String) (permanent : Bool)
    → IsNext r.claimed_at r.locked q t
    → i ≡ t.id
    → Holds t.id q₁
    → (end : TaskTable × Bool) × (handled (fail r.draw r.settled_at q₁ i error permanent)
        ≡ some end)
      × RoundEnd r q end
unfolding handled
handled-fail r q q₁ t i error permanent n same h =
    let (q', u, e, s) = fail-Settled r.draw r.settled_at q₁ t.id error permanent h in
    ((q', true), rw (same, e), worked t n s)

settle-RoundEnd :
    (r : Round) (q q₁ : TaskTable) (t u : Task) (o : Outcome)
    → IsNext r.claimed_at r.locked q t
    → u.id ≡ t.id
    → Holds t.id q₁
    → (end : TaskTable × Bool) × (settle r q₁ u o ≡ some end) × RoundEnd r q end
unfolding settle
settle-RoundEnd r q q₁ t u (returned output q₂) n same h = (
  (complete r.settled_at q₂ u.id output, true),
  refl,
  worked t n (rw same (complete-Settled r.settled_at q₂ t.id output)),
)
settle-RoundEnd r q q₁ t u (raised error) n same h = handled-fail r q q₁ t u.id error false n same h

dispatch-RoundEnd :
    (r : Round) (q q₁ : TaskTable) (t u : Task) (h : Option HandlerFn)
    → IsNext r.claimed_at r.locked q t
    → u.id ≡ t.id
    → Holds t.id q₁
    → (end : TaskTable × Bool) × (dispatch r q₁ u h ≡ some end) × RoundEnd r q end
unfolding dispatch
dispatch-RoundEnd r q q₁ t u none n same h = handled-fail r q q₁ t u.id _ true n same h
dispatch-RoundEnd r q q₁ t u (some f) n same h = settle-RoundEnd r q q₁ t u (f q₁ u) n same h

claimed_once :
    (handlers : Handlers) (r : Round) (q : TaskTable) (o : Option Task)
    → next_task r.claimed_at r.locked q ≡ o
    → let (q', t) = take_task r.claimed_at q r.worker_id r.lease_seconds o in
      (end : TaskTable × Bool) × (after_claim handlers r q' t ≡ some end) × RoundEnd r q end
unfolding take_task after_claim
claimed_once handlers r q none e =
    ((q, false), refl, idle (next_task-none r.claimed_at r.locked q e))
claimed_once handlers r q (some t) e =
    let n = next_task-IsNext r.claimed_at r.locked q t e in
    dispatch-RoundEnd r q _ t _ _ n (claimed-id r.claimed_at r.worker_id r.lease_seconds t)
      (claimed-Holds r.claimed_at r.worker_id r.lease_seconds q t n.row)

-- A round of the worker always comes to an end, whatever the registered handlers do to the table and
-- whether they return or raise: it reports an empty queue and changes nothing if no task was ready,
-- and otherwise it took the next task, and leaves no row with that task's id running.
pub run_once-RoundEnd :
    (handlers : Handlers) (r : Round) (q : TaskTable)
    → (end : TaskTable × Bool) × (run_once handlers r q ≡ some end) × RoundEnd r q end
unfolding run_once claim_next
run_once-RoundEnd handlers r q = claimed_once handlers r q (next_task r.claimed_at r.locked q) refl
