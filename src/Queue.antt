-- ===== src/Queue.antt =====
-- app/orchestrator/queue.py: the durable task queue, as the rows of the `task` table. A function
-- takes the table and returns the new one. Times are microseconds, and `now` is the clock that the
-- function reads. The proofs are in the modules below.
pub mod Invariant
pub mod Claim
pub mod Enqueue
pub mod Retry
pub mod Cancel
pub mod Crash
use marketing_agentic_system.Common.{
  ℕ, suc, ◌+◌, ◌*◌, ◌/◌, ◌^◌, min, String, Bool, true, false, not, ◌&&◌, ◌||◌, Option, none, some,
  List, [], ◌∷◌, ◌++◌, ltb, leb, ◌==◌, if◌then◌else◌, get_or_else, str_eq, select_where, find_where,
  update_where, count_where,
}

pub data TaskStatus : Type 0 where
  queued running succeeded failed cancelled awaiting_retry : TaskStatus

-- A value of a JSON payload, as far as the tasks' payloads use them.
pub data Value : Type 0 where
  text : String → Value
  uuid : ℕ → Value
  number : ℕ → Value
  null : Value

abbrev pub Payload : Type 0
Payload = List (String × Value)

-- A row of the table. `attempt`, `max_attempts` and `priority` are small integers in the database: a write
-- that takes one above 32767 raises there, which is not modelled. `created_at` and `updated_at` are kept by the database and read by no one.
pub record Task : Type 0 where
  pub id : ℕ
  pub tenant_id : ℕ
  pub campaign_id : Option ℕ
  pub agent_id : ℕ
  pub parent_task_id : Option ℕ
  pub skill_name : String
  pub status : TaskStatus
  pub priority : ℕ
  pub attempt : ℕ
  pub max_attempts : ℕ
  pub idempotency_key : Option String
  pub leased_until : Option ℕ
  pub worker_id : Option String
  pub input_data : Payload
  pub output_data : Payload
  pub error_message : Option String
  pub scheduled_for : ℕ
  pub started_at : Option ℕ
  pub completed_at : Option ℕ

-- The table, with the id that the next inserted row gets.
pub record TaskTable : Type 0 where
  pub rows : List Task
  pub next_id : ℕ

-- The arguments of `enqueue_task`.
pub record NewTask : Type 0 where
  pub tenant_id : ℕ
  pub agent_id : ℕ
  pub skill_name : String
  pub input_data : Payload
  pub campaign_id : Option ℕ
  pub parent_task_id : Option ℕ
  pub idempotency_key : Option String
  pub scheduled_for : Option ℕ
  pub max_attempts : ℕ
  pub priority : ℕ

abbrev pub second : ℕ
second = 1000000

abbrev pub backoff_base_seconds : ℕ
backoff_base_seconds = 30

abbrev pub backoff_max_seconds : ℕ
backoff_max_seconds = 3600

-- `draw x` stands for `random.uniform(0, x)`. From attempt 1024 on the source's floating-point product
-- overflows and raises, which is not modelled.
unfoldable pub compute_next_attempt_delay : (ℕ → ℕ) → ℕ → ℕ
compute_next_attempt_delay draw attempt =
    let delay = min (backoff_base_seconds * 2 ^ attempt) backoff_max_seconds * second in
    delay + draw (delay / 10)

-- The partial unique index on (tenant_id, idempotency_key): a row without a key never matches.
unfoldable pub has_key : ℕ → String → Task → Bool
has_key tenant key t =
    (t.tenant_id == tenant) && elim t.idempotency_key [ none ↦ false | some k ↦ str_eq k key ]

unfoldable pub new_row : ℕ → ℕ → NewTask → Task
new_row now id a = record {
  id = id;
  tenant_id = a.tenant_id;
  campaign_id = a.campaign_id;
  agent_id = a.agent_id;
  parent_task_id = a.parent_task_id;
  skill_name = a.skill_name;
  status = queued;
  priority = a.priority;
  attempt = 0;
  max_attempts = a.max_attempts;
  idempotency_key = a.idempotency_key;
  leased_until = none;
  worker_id = none;
  input_data = a.input_data;
  output_data = [];
  error_message = none;
  scheduled_for = get_or_else a.scheduled_for now;
  started_at = none;
  completed_at = none;
}

unfoldable pub insert_task : ℕ → TaskTable → NewTask → TaskTable × Task
insert_task now q a =
    let row = new_row now q.next_id a in
    (record { rows = q.rows ++ (row ∷ []); next_id = q.next_id + 1 }, row)

unfoldable pub key_holder : TaskTable → ℕ → Option String → Option Task
key_holder q tenant none = none
key_holder q tenant (some key) = find_where (has_key tenant key) q.rows

-- The row that the insert conflicts with, if the task has a key that is taken.
unfoldable pub conflicting : TaskTable → NewTask → Option Task
unfolding key_holder
conflicting q a = key_holder q a.tenant_id a.idempotency_key

unfoldable pub insert_or_existing : ℕ → TaskTable → NewTask → Option Task → TaskTable × Task
insert_or_existing now q a none = insert_task now q a
insert_or_existing now q a (some existing) = (q, existing)

unfoldable pub enqueue_task : ℕ → TaskTable → NewTask → TaskTable × Task
unfolding insert_or_existing
enqueue_task now q a = insert_or_existing now q a (conflicting q a)

unfoldable pub is_waiting : TaskStatus → Bool
is_waiting queued = true
is_waiting awaiting_retry = true
is_waiting _ = false

unfoldable pub is_running : TaskStatus → Bool
is_running running = true
is_running _ = false

-- Ready, and not locked by another transaction (FOR UPDATE SKIP LOCKED).
unfoldable pub is_ready : ℕ → (ℕ → Bool) → Task → Bool
unfolding is_waiting
is_ready now locked t = is_waiting t.status && leb t.scheduled_for now && not (locked t.id)

-- ORDER BY priority DESC, scheduled_for ASC. Rows that tie on both come in the table's order.
unfoldable pub comes_before : Task → Task → Bool
comes_before t u =
    ltb u.priority t.priority || ((t.priority == u.priority) && ltb t.scheduled_for u.scheduled_for)

unfoldable pub earlier_of : Task → Option Task → Task
earlier_of t none = t
earlier_of t (some u) = if comes_before u t then u else t

-- LIMIT 1 of the ordered rows.
unfoldable pub first_of_order : List Task → Option Task
first_of_order [] = none
first_of_order (t ∷ ts) = some (earlier_of t (first_of_order ts))

unfoldable pub claimed : ℕ → String → ℕ → Task → Task
claimed now worker lease_seconds t = record t {
  status = running;
  worker_id = some worker;
  leased_until = some (now + lease_seconds * second);
  started_at = some now;
  attempt = t.attempt + 1;
  error_message = none;
}

abbrev pub has_id : ℕ → Task → Bool
has_id i t = t.id == i

abbrev pub update_rows : (Task → Bool) → (Task → Task) → TaskTable → TaskTable
update_rows p f q = record q { rows = update_where p f q.rows }

-- The task that a claim at this time takes.
unfoldable pub next_task : ℕ → (ℕ → Bool) → TaskTable → Option Task
next_task now locked q = first_of_order (select_where (is_ready now locked) q.rows)

unfoldable pub take_task : ℕ → TaskTable → String → ℕ → Option Task → TaskTable × Option Task
take_task now q worker lease_seconds none = (q, none)
take_task now q worker lease_seconds (some t) =
    let claim = claimed now worker lease_seconds in
    (update_rows (has_id t.id) claim q, some (claim t))

unfoldable pub claim_next : ℕ → (ℕ → Bool) → TaskTable → String → ℕ → TaskTable × Option Task
unfolding take_task
claim_next now locked q worker lease_seconds =
    take_task now q worker lease_seconds (next_task now locked q)

unfoldable pub completed : ℕ → Payload → Task → Task
completed now output t = record t {
  status = succeeded;
  output_data = output;
  completed_at = some now;
  leased_until = none;
  worker_id = none;
  error_message = none;
}

unfoldable pub complete : ℕ → TaskTable → ℕ → Payload → TaskTable
complete now q id output = update_rows (has_id id) (completed now output) q

unfoldable pub given_up : ℕ → String → Task → Task
given_up now error t = record t {
  status = failed;
  error_message = some error;
  completed_at = some now;
  leased_until = none;
  worker_id = none;
}

unfoldable pub put_back : ℕ → String → Task → Task
put_back again error t = record t {
  status = awaiting_retry;
  error_message = some error;
  scheduled_for = again;
  leased_until = none;
  worker_id = none;
}

-- What `fail` writes on the row, by the attempts that the loaded task has used.
unfoldable pub after_failure : (ℕ → ℕ) → ℕ → String → Bool → Task → Task → Task
unfolding given_up put_back compute_next_attempt_delay
after_failure draw now error permanent loaded t =
    if permanent || leb loaded.max_attempts loaded.attempt
    then given_up now error t
    else put_back (now + compute_next_attempt_delay draw loaded.attempt) error t

unfoldable pub fail_loaded :
    (ℕ → ℕ) → ℕ → TaskTable → String → Bool → Option Task → Option (TaskTable × Task)
fail_loaded draw now q error permanent none = none
fail_loaded draw now q error permanent (some t) =
    let write = after_failure draw now error permanent t in
    some (update_rows (has_id t.id) write q, write t)

-- `none` is the failed assertion that the task is there.
unfoldable pub fail : (ℕ → ℕ) → ℕ → TaskTable → ℕ → String → Bool → Option (TaskTable × Task)
unfolding fail_loaded
fail draw now q id error permanent =
    fail_loaded draw now q error permanent (find_where (has_id id) q.rows)

unfoldable pub lease_expired : ℕ → Task → Bool
unfolding is_running
lease_expired now t =
    is_running t.status && elim t.leased_until [ none ↦ false | some until ↦ ltb until now ]

unfoldable pub reaped : Task → Task
reaped t = record t { status = awaiting_retry; leased_until = none; worker_id = none }

unfoldable pub reap_expired_leases : ℕ → TaskTable → TaskTable × ℕ
reap_expired_leases now q =
    (update_rows (lease_expired now) reaped q, count_where (lease_expired now) q.rows)

unfoldable pub waits_for_campaign : ℕ → Task → Bool
unfolding is_waiting
waits_for_campaign campaign t =
    elim t.campaign_id [ none ↦ false | some c ↦ c == campaign ] && is_waiting t.status

unfoldable pub cancelled_at : ℕ → Task → Task
cancelled_at now t = record t {
  status = cancelled;
  completed_at = some now;
  leased_until = none;
  worker_id = none;
}

unfoldable pub cancel_queued_for_campaign : ℕ → TaskTable → ℕ → TaskTable × ℕ
cancel_queued_for_campaign now q campaign = (
  update_rows (waits_for_campaign campaign) (cancelled_at now) q,
  count_where (waits_for_campaign campaign) q.rows,
)
