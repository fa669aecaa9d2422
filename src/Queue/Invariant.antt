-- ===== src/Queue/Invariant.antt =====
-- What holds of the task table between any two operations of app/orchestrator/queue.py.
use marketing_agentic_system.Common.{
  ℕ, ◌+◌, ◌<◌, String, ◌≡◌, ◌≢◌, refl, sym, ap, ◌∙◌, Bool, false, Option, none, some, [], arith,
  if◌then◌else◌, is_some, if-elim, str_eq, ◌&&◌, ◌==◌, All-of_Row, All-Row, All, Pairs, All-map,
  All-append, All-update_where, Pairs-update_where, Pairs-append_one, find_where-none, str_eq_iff,
}
use marketing_agentic_system.Queue.{
  Task, TaskTable, NewTask, Payload, is_running, has_key, has_id, new_row, insert_task, key_holder,
  conflicting, insert_or_existing, enqueue_task, claimed, take_task, claim_next, completed,
  complete, after_failure, fail_loaded, fail, lease_expired, reaped, reap_expired_leases,
  waits_for_campaign, cancelled_at, cancel_queued_for_campaign, update_rows,
}

-- A row's id was given out, and exactly a running task has a worker and a lease.
pub record TaskIsValid (next : ℕ) (t : Task) : Type 0 where
  pub id_given : t.id < next
  pub leased : is_some t.leased_until ≡ is_running t.status
  pub owned : is_some t.worker_id ≡ is_running t.status

-- Two rows differ in their ids, and do not share an idempotency key within a tenant.
pub record Apart (t u : Task) : Type 0 where
  pub ids : t.id ≢ u.id
  pub keys : (key : String) → t.idempotency_key ≡ some key → has_key t.tenant_id key u ≡ false

pub record IsValid (q : TaskTable) : Type 0 where
  pub tasks : All (TaskIsValid q.next_id) q.rows
  pub apart : Pairs Apart q.rows

abbrev pub empty : TaskTable
empty = record { rows = []; next_id = 0 }

pub empty-IsValid : IsValid empty
empty-IsValid = record { tasks = tt; apart = tt }

-- An update that leaves ids, tenants and keys alone, and keeps each row valid.
record Keeps (f : Task → Task) : Type 0 where
  id : (t : Task) → (f t).id ≡ t.id
  tenant : (t : Task) → (f t).tenant_id ≡ t.tenant_id
  key : (t : Task) → (f t).idempotency_key ≡ t.idempotency_key
  valid : (n : ℕ) (t : Task) → TaskIsValid n t → TaskIsValid n (f t)

-- `t'` is `t` as far as the table's keys go.
record SameKeys (t t' : Task) : Type 0 where
  id : t'.id ≡ t.id
  tenant : t'.tenant_id ≡ t.tenant_id
  key : t'.idempotency_key ≡ t.idempotency_key

Apart-SameKeys : (t u t' u' : Task) → SameKeys t t' → SameKeys u u' → Apart t u → Apart t' u'
unfolding has_key
Apart-SameKeys t u t' u' s r a = record {
  ids = λ e. a.ids (cc (s.id, r.id, e));
  keys = λ key e. rw (s.tenant, r.tenant, r.key) (a.keys key (cc (s.key, e)));
}

module _ (p : Task → Bool) (f : Task → Task) (k : Keeps f) where
  updated-SameKeys : (t : Task) → SameKeys t (if p t then f t else t)
  updated-SameKeys t =
      if-elim (SameKeys t) (p t) (record { id = k.id t; tenant = k.tenant t; key = k.key t })
        (record { id = refl; tenant = refl; key = refl })

  updated-TaskIsValid :
      (n : ℕ) (t : Task) → TaskIsValid n t → TaskIsValid n (if p t then f t else t)
  updated-TaskIsValid n t v = if-elim (TaskIsValid n) (p t) (k.valid n t v) v

  updated-Apart : (t u : Task) → Apart t u → Apart (if p t then f t else t) (if p u then f u else u)
  updated-Apart t u = Apart-SameKeys t u _ _ (updated-SameKeys t) (updated-SameKeys u)

  update_rows-IsValid : (q : TaskTable) → IsValid q → IsValid (update_rows p f q)
  update_rows-IsValid q v = record {
    tasks = All-update_where _ _ p f q.rows (updated-TaskIsValid q.next_id) v.tasks;
    apart = Pairs-update_where Apart p f q.rows updated-Apart v.apart;
  }

claimed-Keeps : (now : ℕ) (worker : String) (lease : ℕ) → Keeps (claimed now worker lease)
unfolding claimed is_running
claimed-Keeps now worker lease = ground arith

completed-Keeps : (now : ℕ) (output : Payload) → Keeps (completed now output)
unfolding completed is_running
completed-Keeps now output = ground arith

after_failure-Keeps :
    (draw : ℕ → ℕ) (now : ℕ) (error : String) (permanent : Bool) (loaded : Task)
    → Keeps (after_failure draw now error permanent loaded)
unfolding after_failure is_running
after_failure-Keeps draw now error permanent loaded = ground arith

reaped-Keeps : Keeps reaped
unfolding reaped is_running
reaped-Keeps = ground arith

cancelled_at-Keeps : (now : ℕ) → Keeps (cancelled_at now)
unfolding cancelled_at is_running
cancelled_at-Keeps now = ground arith

take_task-IsValid :
    (now : ℕ) (q : TaskTable) (worker : String) (lease : ℕ) (o : Option Task)
    → IsValid q
    → IsValid (take_task now q worker lease o).0
unfolding take_task
take_task-IsValid now q worker lease none v = v
take_task-IsValid now q worker lease (some t) v =
    update_rows-IsValid (has_id t.id) _ (claimed-Keeps now worker lease) q v

fail_loaded-IsValid :
    (draw : ℕ → ℕ) (now : ℕ) (q : TaskTable) (error : String) (permanent : Bool) (o : Option Task)
    {q' : TaskTable} {t : Task}
    → fail_loaded draw now q error permanent o ≡ some (q', t)
    → IsValid q
    → IsValid q'
unfolding fail_loaded
fail_loaded-IsValid draw now q error permanent none e v = cc
fail_loaded-IsValid draw now q error permanent (some t) {q'} e v =
    let w = after_failure draw now error permanent t in
    let p : update_rows (has_id t.id) w q ≡ q' = cc in
    rw (← p)
      (update_rows-IsValid (has_id t.id) w (after_failure-Keeps draw now error permanent t) q v)

-- A row that the lookup in the unique index passed over does not hold the new key.
conflicting-none :
    (q : TaskTable) (a : NewTask)
    → conflicting q a ≡ none
    → (key : String) → a.idempotency_key ≡ some key
    → All (λ t. has_key a.tenant_id key t ≡ false) q.rows
unfolding conflicting
conflicting-none q a e key k = find_where-none _ q.rows (sym (ap (key_holder q a.tenant_id) k) ∙ e)

-- The other way round: a row that does not hold the key `o` is apart from one that holds it.
keys_apart :
    (t : Task) (tenant : ℕ) (o : Option String)
    → ((key : String) → o ≡ some key → has_key tenant key t ≡ false)
    → (key : String) → t.idempotency_key ≡ some key
    → ((tenant == t.tenant_id) && elim o [ none ↦ false | some k ↦ str_eq k key ]) ≡ false
unfolding has_key
keys_apart t tenant none h key e = ground arith
keys_apart t tenant (some k) h key e = ground (arith, h k refl, str_eq_iff k key, str_eq_iff key k)

new_row-Apart :
    (now n : ℕ) (a : NewTask) (t : Task)
    → t.id < n
    → ((key : String) → a.idempotency_key ≡ some key → has_key a.tenant_id key t ≡ false)
    → Apart t (new_row now n a)
unfolding new_row has_key
new_row-Apart now n a t l h = record {
  ids = omega arith;
  keys = keys_apart t a.tenant_id a.idempotency_key h;
}

older-TaskIsValid : (n : ℕ) (t : Task) → TaskIsValid n t → TaskIsValid (n + 1) t
older-TaskIsValid n t v = ground arith

insert_task-IsValid :
    (now : ℕ) (q : TaskTable) (a : NewTask)
    → conflicting q a ≡ none
    → IsValid q
    → IsValid (insert_task now q a).0
unfolding insert_task new_row is_running
insert_task-IsValid now q a e v = record {
  tasks =
      All-append _ q.rows _ (All-map _ _ q.rows (older-TaskIsValid q.next_id) v.tasks)
        (ground arith, tt);
  apart = Pairs-append_one Apart q.rows _ v.apart (
      All-of_Row _ q.rows λ t r.
        new_row-Apart now q.next_id a t (All-Row _ r v.tasks).id_given
          λ key k. All-Row _ r (conflicting-none q a e key k));
}

insert_or_existing-IsValid :
    (now : ℕ) (q : TaskTable) (a : NewTask) (o : Option Task)
    → conflicting q a ≡ o
    → IsValid q
    → IsValid (insert_or_existing now q a o).0
unfolding insert_or_existing
insert_or_existing-IsValid now q a none e v = insert_task-IsValid now q a e v
insert_or_existing-IsValid now q a (some t) e v = v

-- One operation of the queue, by any caller.
pub data Step (q : TaskTable) : TaskTable → Type 0 where
  enqueue : (now : ℕ) (a : NewTask) → Step q (enqueue_task now q a).0
  claim :
      (now : ℕ) (locked : ℕ → Bool) (worker : String) (lease : ℕ)
      → Step q (claim_next now locked q worker lease).0
  finish : (now id : ℕ) (output : Payload) → Step q (complete now q id output)
  failure :
      (draw : ℕ → ℕ) (now id : ℕ) (error : String) (permanent : Bool) {q' : TaskTable} {t : Task}
      → fail draw now q id error permanent ≡ some (q', t)
      → Step q q'
  reap : (now : ℕ) → Step q (reap_expired_leases now q).0
  cancel : (now campaign : ℕ) → Step q (cancel_queued_for_campaign now q campaign).0

pub data Reach (q : TaskTable) : TaskTable → Type 0 where
  here : Reach q q
  next : {r s : TaskTable} → Reach q r → Step r s → Reach q s

pub Step-IsValid : {q q' : TaskTable} → Step q q' → IsValid q → IsValid q'
unfolding enqueue_task claim_next complete fail reap_expired_leases cancel_queued_for_campaign
Step-IsValid {q} (enqueue now a) v = insert_or_existing-IsValid now q a (conflicting q a) refl v
Step-IsValid {q} (claim now locked worker lease) v = take_task-IsValid now q worker lease _ v
Step-IsValid {q} (finish now id output) v =
    update_rows-IsValid (has_id id) _ (completed-Keeps now output) q v
Step-IsValid {q} (failure draw now id error permanent e) v =
    fail_loaded-IsValid draw now q error permanent _ e v
Step-IsValid {q} (reap now) v = update_rows-IsValid (lease_expired now) _ reaped-Keeps q v
Step-IsValid {q} (cancel now campaign) v =
    update_rows-IsValid (waits_for_campaign campaign) _ (cancelled_at-Keeps now) q v

-- Every table that the operations of the queue build up from an empty one is valid: ids are distinct,
-- at most one task of a tenant holds an idempotency key, and exactly the running tasks have a worker
-- and a lease.
pub Reach-IsValid : (q : TaskTable) → Reach empty q → IsValid q
Reach-IsValid q here = empty-IsValid
Reach-IsValid q (next {r} path s) = Step-IsValid s (Reach-IsValid r path)
