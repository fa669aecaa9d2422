-- ===== src/StateMachine.antt =====
-- app/orchestrator/state_machine.py: the registry of transitions and `apply`.
pub mod Guards
pub mod Machine
pub mod Registry
pub mod Graph
pub mod Submission
pub mod Launch
use marketing_agentic_system.Common.{
  ℕ, String, Bool, true, false, not, Option, none, some, List, [], ◌∷◌, ◌++◌, ◌==◌, ◌&&◌,
  if◌then◌else◌, is_some, str_eq, find_where,
}
use marketing_agentic_system.Queue.{text}
use marketing_agentic_system.Data.{
  CampaignStatus, Campaign, Db, Result, ok, err, unknown_transition, guard_failed, of_status,
  write_campaign, write_audit,
}

-- A guard and an `on_enter` callback are given the time at which they read the clock.
abbrev pub Guard : Type 0
Guard = ℕ → Db → Campaign → Bool

abbrev pub OnEnter : Type 0
OnEnter = ℕ → Db → Campaign → Result Db

pub record Transition : Type 0 where
  pub name : String
  pub from_state : CampaignStatus
  pub to_state : CampaignStatus
  pub guard : Option Guard
  pub on_enter : Option OnEnter

-- `_transitions`, in the order of registration.
abbrev pub StateMachine : Type 0
StateMachine = List Transition

-- The enum's position, by which two statuses are compared.
unfoldable pub status_index : CampaignStatus → ℕ
status_index CampaignStatus.drafted = 0
status_index CampaignStatus.audience_built = 1
status_index CampaignStatus.strategy_set = 2
status_index CampaignStatus.content_in_production = 3
status_index CampaignStatus.approval_pending = 4
status_index CampaignStatus.ready_to_launch = 5
status_index CampaignStatus.live = 6
status_index CampaignStatus.optimising = 7
status_index CampaignStatus.paused = 8
status_index CampaignStatus.completed = 9

unfoldable pub same_status : CampaignStatus → CampaignStatus → Bool
unfolding status_index
same_status s t = status_index s == status_index t

unfoldable pub has_transition_key : CampaignStatus → String → Transition → Bool
unfolding same_status
has_transition_key status name t = same_status t.from_state status && str_eq t.name name

-- `none` is the ValueError of a key that is taken.
unfoldable pub register : Transition → StateMachine → Option StateMachine
register t sm =
    if is_some (find_where (has_transition_key t.from_state t.name) sm)
    then none
    else some (sm ++ (t ∷ []))

unfoldable pub passes : Option Guard → ℕ → Db → Campaign → Bool
passes none now db campaign = true
passes (some guard) now db campaign = guard now db campaign

unfoldable pub enter : Option OnEnter → ℕ → Db → Campaign → Result (Db × Campaign)
enter none now db campaign = ok (db, campaign)
enter (some hook) now db campaign = elim (hook now db campaign) [
  | ok db' ↦ ok (db', campaign)
  | err e ↦ err e
]

unfoldable pub moved : Transition → Campaign → Campaign
moved t campaign = record campaign { status = t.to_state }

-- The campaign's row and the audit log once the status is written.
unfoldable pub record_move : Transition → Campaign → Db → Db
unfolding moved
record_move t campaign db =
    write_audit
      (record {
        tenant_id = campaign.tenant_id;
        entity_kind = "campaign";
        entity_id = campaign.id;
        action = "transition_applied";
        before_state = of_status campaign.status;
        after_state = of_status t.to_state;
        extra_metadata = ("transition", text t.name) ∷ [];
        applied_threshold = none;
      })
      (write_campaign (moved t campaign) db)

unfoldable pub take : ℕ → Db → Campaign → Option Transition → Result (Db × Campaign)
take now db campaign none = err unknown_transition
take now db campaign (some t) =
    if passes t.guard now db campaign
    then enter t.on_enter now (record_move t campaign db) (moved t campaign)
    else err guard_failed

-- The campaign comes back as the session then holds it.
unfoldable pub apply : ℕ → StateMachine → Db → Campaign → String → Result (Db × Campaign)
unfolding take
apply now sm db campaign name =
    take now db campaign (find_where (has_transition_key campaign.status name) sm)
