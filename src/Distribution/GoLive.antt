-- ===== src/Distribution/GoLive.antt =====
-- `_maybe_go_live` of app/agents/distribution.py.
use marketing_agentic_system.Common.{
  ℕ, ◌≡◌, refl, sym, subst, true, ◌&&◌, some, arith, inl, inr, Bool-cases, find_where,
  if◌then◌else◌,
}
use marketing_agentic_system.Data.{CampaignStatus, Campaign, Db, ok}
use marketing_agentic_system.StateMachine.{has_transition_key, passes, enter, record_move, take}
use marketing_agentic_system.StateMachine.Guards.{ready_to_go_live}
use marketing_agentic_system.StateMachine.Machine.{start_live, campaign_sm, apply_campaign}
use marketing_agentic_system.Distribution.Publishing.{
  World, after_start_live, is_ready_to_launch, maybe_go_live,
}

is_ready_to_launch-eq :
    (s : CampaignStatus) → is_ready_to_launch s ≡ true → s ≡ CampaignStatus.ready_to_launch
unfolding is_ready_to_launch
is_ready_to_launch-eq s h = ground arith

take-after :
    (now : ℕ) (db : Db) (c : Campaign)
    → after_start_live db (take now db c (some start_live))
      ≡ ok (if ready_to_go_live now db c then record_move start_live c db else db)
unfolding take passes enter after_start_live
take-after now db c = elim (Bool-cases (ready_to_go_live now db c)) [
  | inl t ↦ rw t refl
  | inr f ↦ rw f refl
]

-- It never fails: the campaign goes live exactly when it is ready to launch and the guard of
-- `start_live` lets it, and otherwise nothing changes.
pub maybe_go_live_lem :
    (w : World) (db : Db) (c : Campaign)
    → maybe_go_live w db c
      ≡ ok (
          if is_ready_to_launch c.status && ready_to_go_live w.now db c
          then record_move start_live c db
          else db)
unfolding maybe_go_live apply_campaign campaign_sm has_transition_key
maybe_go_live_lem w db c = elim (Bool-cases (is_ready_to_launch c.status)) [
  | inl t ↦
      let s = is_ready_to_launch-eq c.status t in
      rw t (
        subst
          (λ s.
            after_start_live db (
              take w.now db c
                (find_where (has_transition_key s "start_live") (campaign_sm w.hooks)))
            ≡ ok (if ready_to_go_live w.now db c then record_move start_live c db else db))
          (sym s) (take-after w.now db c))
  | inr f ↦ rw f refl
]
