-- ===== src/Queue/Crash.antt =====
-- Leases that expire: `reap_expired_leases` and `claim_next` of app/orchestrator/queue.py together.
use marketing_agentic_system.Common.{
  ℕ, zero, suc, ◌+◌, ◌*◌, ◌≤◌, ◌≡◌, refl, ◌∙◌, Bool, true, false, [], ◌∷◌, arith,
}
use marketing_agentic_system.Queue.{
  Task, TaskTable, is_waiting, is_running, is_ready, earlier_of, first_of_order, next_task,
  take_task, claimed, claim_next, lease_expired, reaped, reap_expired_leases, second,
}
use marketing_agentic_system.Queue.Invariant.{Reach, Step, here, next, claim, reap}

abbrev pub alone : ℕ → Task → TaskTable
alone n t = record { rows = t ∷ []; next_id = n }

nobody : ℕ → Bool
nobody _ = false

-- The task after a worker has claimed it and died, and its lease was reaped.
abbrev crashed : ℕ → Task → Task
crashed lease t = reaped (claimed t.scheduled_for "worker" lease t)

claim_alone :
    (n lease : ℕ) (t : Task)
    → is_waiting t.status ≡ true
    → (claim_next t.scheduled_for nobody (alone n t) "worker" lease).0
      ≡ alone n (claimed t.scheduled_for "worker" lease t)
unfolding claim_next take_task next_task first_of_order earlier_of is_ready nobody
claim_alone n lease t w = ground arith

reap_alone :
    (n lease : ℕ) (t : Task)
    → (reap_expired_leases
        (t.scheduled_for + lease * second + 1)
        (alone n (claimed t.scheduled_for "worker" lease t))).0
      ≡ alone n (crashed lease t)
unfolding reap_expired_leases lease_expired claimed is_running
reap_alone n lease t = ground arith

crashed_again :
    (lease : ℕ) (t : Task)
    → (is_waiting (crashed lease t).status ≡ true)
      × ((crashed lease t).attempt ≡ t.attempt + 1)
      × ((crashed lease t).max_attempts ≡ t.max_attempts)
unfolding reaped claimed is_waiting
crashed_again lease t = (refl, refl, refl)

-- The largest value of the column `attempt`.
abbrev pub small_integer_max : ℕ
small_integer_max = 32767

-- A waiting task that is alone in the table, and whose workers die one after the other, is claimed and
-- reaped as often as its `attempt` stays within the column's range, that is up to 32767, and waits
-- again, whatever its `max_attempts` is.
pub crash_loop :
    (n lease k : ℕ) (t : Task)
    → is_waiting t.status ≡ true
    → t.attempt + k ≤ small_integer_max
    → (u : Task) × Reach (alone n t) (alone n u)
      × (is_waiting u.status ≡ true)
      × (u.attempt ≡ t.attempt + k)
      × (u.max_attempts ≡ t.max_attempts)
crash_loop n lease zero t w b = (t, here, w, omega arith, refl)
crash_loop n lease (suc k) t w b =
    let (u, r, w', a, m) = crash_loop n lease k t w (omega (arith, b)) in
    let s : Step (alone n u) (alone n (claimed u.scheduled_for "worker" lease u)) =
      rw (← claim_alone n lease u w') (claim u.scheduled_for nobody "worker" lease) in
    let e : Step (alone n (claimed u.scheduled_for "worker" lease u)) (alone n (crashed lease u)) =
      rw (← reap_alone n lease u) (reap (u.scheduled_for + lease * second + 1)) in
    let c = crashed_again lease u in
    (crashed lease u, next (next r s) e, c.0, omega (arith, c), c.2 ∙ m)
