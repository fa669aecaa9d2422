-- ===== src/Examples/Queues.antt =====
-- The theorems on the queue and the worker (app/orchestrator), at a table of two tasks.
use marketing_agentic_system.Common.{
  ℕ, ◌+◌, ◌*◌, ◌/◌, ◌≤◌, ◌≡◌, ◌≢◌, refl, some, [], ◌∷◌, Bool, true, false, arith, Row,
}
use marketing_agentic_system.Queue.{
  Task, second, TaskTable, compute_next_attempt_delay, enqueue_task, claim_next, fail, is_waiting,
  next_task, first_of_order, earlier_of, is_ready, comes_before, claimed, take_task, fail_loaded,
  after_failure, put_back,
}
use marketing_agentic_system.Queue.Invariant.{
  IsValid, Reach, here, next, enqueue, claim, empty, Reach-IsValid,
}
use marketing_agentic_system.Queue.Claim.{Claim, claim_next-Claim, claim_next_exclusive}
use marketing_agentic_system.Queue.Retry.{
  nominal, compute_next_attempt_delay_bounds, Failure, Settled, fail-Failure,
}
use marketing_agentic_system.Queue.Crash.{alone, crash_loop}
use marketing_agentic_system.Worker.{Handlers, raised, Round, run_once}
use marketing_agentic_system.Worker.Rounds.{RoundEnd, run_once-RoundEnd}
use marketing_agentic_system.Examples.{request, waiting_task, urgent_task, two_tasks}

abbrev free : ℕ → Bool
free i = false

abbrev no_jitter : ℕ → ℕ
no_jitter n = 0

no_jitter-le : (x : ℕ) → no_jitter x ≤ x
no_jitter-le x = omega arith

abbrev filled : TaskTable
filled = (claim_next 50 free (enqueue_task 0 empty request).0 "w1" 300).0

Reach-IsValid_example : IsValid filled
Reach-IsValid_example =
    Reach-IsValid filled (next (next here (enqueue 0 request)) (claim 50 free "w1" 300))

claim_next-Claim_example : Claim 50 free two_tasks "w1" 300 (claim_next 50 free two_tasks "w1" 300)
claim_next-Claim_example = claim_next-Claim 50 free two_tasks "w1" 300

claim_first : (claim_next 50 free two_tasks "w1" 300).1 ≡ some (claimed 50 "w1" 300 urgent_task)
unfolding claim_next next_task first_of_order earlier_of is_ready is_waiting comes_before take_task
    claimed
claim_first = refl

claim_second :
    (claim_next 60 free (claim_next 50 free two_tasks "w1" 300).0 "w2" 300).1
    ≡ some (claimed 60 "w2" 300 waiting_task)
unfolding claim_next next_task first_of_order earlier_of is_ready is_waiting comes_before take_task
    claimed
claim_second = refl

claim_next_exclusive_example :
    (claimed 50 "w1" 300 urgent_task).id ≢ (claimed 60 "w2" 300 waiting_task).id
claim_next_exclusive_example =
    claim_next_exclusive 50 60 free free two_tasks "w1" "w2" 300 300
      (claimed 50 "w1" 300 urgent_task) (claimed 60 "w2" 300 waiting_task) claim_first claim_second

abbrev failed_table : TaskTable × Task
failed_table = (
  record two_tasks { rows = waiting_task ∷ put_back 30000040 "e" urgent_task ∷ [] },
  put_back 30000040 "e" urgent_task,
)

fails : fail no_jitter 40 two_tasks 1 "e" false ≡ some failed_table
unfolding fail fail_loaded after_failure put_back compute_next_attempt_delay
fails = refl

fail-Failure_example :
    (t : Task) × Row t two_tasks.rows
    × (t.id ≡ 1)
    × Failure no_jitter 40 false t failed_table.1
    × Settled two_tasks 1 failed_table.0 failed_table.1
fail-Failure_example =
    fail-Failure no_jitter 40 two_tasks 1 "e" false failed_table.0 failed_table.1 no_jitter-le fails

compute_next_attempt_delay_bounds_example :
    (nominal 9 ≤ compute_next_attempt_delay no_jitter 9)
    × (compute_next_attempt_delay no_jitter 9 ≤ nominal 9 + nominal 9 / 10)
    × (30 * second ≤ nominal 9)
    × (compute_next_attempt_delay no_jitter 9 ≤ 3960 * second)
compute_next_attempt_delay_bounds_example =
    compute_next_attempt_delay_bounds no_jitter 9 no_jitter-le

waits : is_waiting waiting_task.status ≡ true
unfolding is_waiting
waits = refl

crash_loop_example :
    (u : Task) × Reach (alone 1 waiting_task) (alone 1 u)
    × (is_waiting u.status ≡ true)
    × (u.attempt ≡ waiting_task.attempt + 20)
    × (u.max_attempts ≡ waiting_task.max_attempts)
crash_loop_example = crash_loop 1 300 20 waiting_task waits (omega arith)

abbrev one_round : Round
one_round = record {
  claimed_at = 50;
  settled_at = 60;
  locked = free;
  worker_id = "w1";
  lease_seconds = 300;
  draw = no_jitter;
}

abbrev failing : Handlers
failing = ("echo", λ q t. raised "down") ∷ []

run_once-RoundEnd_example :
    (end : TaskTable × Bool) × (run_once failing one_round two_tasks ≡ some end)
    × RoundEnd one_round two_tasks end
run_once-RoundEnd_example = run_once-RoundEnd failing one_round two_tasks
