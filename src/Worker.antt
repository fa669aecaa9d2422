-- ===== src/Worker.antt =====
-- app/orchestrator/worker.py and registry.py: one round of a worker. Each `session.begin()` block is
-- a transaction: a handler that raises leaves the table as the claim left it.
pub mod Rounds
use Prim.Native.String.{◌++◌}
use marketing_agentic_system.Common.{
  ℕ, String, Bool, true, false, Option, none, some, List, [], ◌∷◌, if◌then◌else◌, str_eq,
}
use marketing_agentic_system.Queue.{Task, TaskTable, Payload, claim_next, complete, fail}

-- What a handler's transaction ends in: an output and the table that it committed, or an exception.
pub data Outcome : Type 0 where
  returned : Payload → TaskTable → Outcome
  raised : String → Outcome

abbrev pub HandlerFn : Type 0
HandlerFn = TaskTable → Task → Outcome

-- The registry, the latest registration first.
abbrev pub Handlers : Type 0
Handlers = List (String × HandlerFn)

-- Last write wins.
unfoldable pub register_handler : String → HandlerFn → Handlers → Handlers
register_handler skill_name handler handlers = (skill_name, handler) ∷ handlers

unfoldable pub get_handler : String → Handlers → Option HandlerFn
get_handler skill_name [] = none
get_handler skill_name ((name, handler) ∷ rest) =
    if str_eq name skill_name then some handler else get_handler skill_name rest

-- The clock readings of a round: at the claim, and when its outcome is written.
pub record Round : Type 0 where
  pub claimed_at : ℕ
  pub settled_at : ℕ
  pub locked : ℕ → Bool
  pub worker_id : String
  pub lease_seconds : ℕ
  pub draw : ℕ → ℕ

unfoldable pub handled : Option (TaskTable × Task) → Option (TaskTable × Bool)
handled none = none
handled (some (q, t)) = some (q, true)

unfoldable pub settle : Round → TaskTable → Task → Outcome → Option (TaskTable × Bool)
settle r q t (returned output q') = some (complete r.settled_at q' t.id output, true)
settle r q t (raised error) = handled (fail r.draw r.settled_at q t.id error false)

unfoldable pub dispatch : Round → TaskTable → Task → Option HandlerFn → Option (TaskTable × Bool)
dispatch r q t none = handled (
    fail r.draw r.settled_at q t.id ("no handler registered for skill '" ++ t.skill_name ++ "'")
      true)
dispatch r q t (some handler) = settle r q t (handler q t)

unfoldable pub after_claim : Handlers → Round → TaskTable → Option Task → Option (TaskTable × Bool)
after_claim handlers r q none = some (q, false)
after_claim handlers r q (some t) = dispatch r q t (get_handler t.skill_name handlers)

-- `none` is an assertion that fails outside the handler; the flag is False if the queue was empty.
unfoldable pub run_once : Handlers → Round → TaskTable → Option (TaskTable × Bool)
run_once handlers r q =
    let (q', t) = claim_next r.claimed_at r.locked q r.worker_id r.lease_seconds in
    after_claim handlers r q' t
