-- ===== src/StateMachine/Graph.antt =====
-- The ways of a campaign through `campaign_sm` (app/orchestrator/state_machine.py).
use marketing_agentic_system.Common.{
  ℕ, ◌/◌, ◌<◌, ltb, ◌≡◌, refl, ap, ◌∙◌, String, Bool, true, false, none, some, arith, ◌⊎◌, inl, inr,
  Bool-cases, All, All-Row, find_where,
}
use marketing_agentic_system.Data.{
  CampaignStatus, Campaign, Db, ok, err, guard_failed, microseconds_per_day,
}
use marketing_agentic_system.StateMachine.{
  Transition, has_transition_key, passes, enter, moved, record_move, take,
}
use marketing_agentic_system.StateMachine.Guards.{
  ready_to_go_live, all_required_assets_approved, cancel_queued_on_pause, resume_distribution,
}
use marketing_agentic_system.StateMachine.Machine.{
  Hooks, pause_from, transition, campaign_sm, apply_campaign,
}
use marketing_agentic_system.StateMachine.Registry.{apply-Applied}

-- Whether the campaign has not been launched.
abbrev pub before_launch : CampaignStatus → Bool
before_launch CampaignStatus.drafted = true
before_launch CampaignStatus.audience_built = true
before_launch CampaignStatus.strategy_set = true
before_launch CampaignStatus.content_in_production = true
before_launch CampaignStatus.approval_pending = true
before_launch _ = false

-- A transition that leaves the phase before the launch is guarded by the approvals.
abbrev IsGuarded : Transition → Type 0
IsGuarded t =
    before_launch t.from_state ≡ true
    → (before_launch t.to_state ≡ true) ⊎ (t.guard ≡ some all_required_assets_approved)

guarded-passes :
    (t : Transition) (now : ℕ) (db : Db) (c : Campaign)
    → passes t.guard now db c ≡ true
    → t.guard ≡ some all_required_assets_approved
    → all_required_assets_approved now db c ≡ true
unfolding passes
guarded-passes t now db c h e = rw e at h

-- The transitions that a campaign has gone through, as its row stood before and after each. Other
-- code may have changed the rest of the database in between, so each step has a database of its own.
pub data Trace (hooks : Hooks) (c : Campaign) : Campaign → Type 0 where
  start : Trace hooks c c
  step :
      {d : Campaign}
      → Trace hooks c d
      → (now : ℕ) (db : Db) (name : String) {end : Db × Campaign}
      → apply_campaign hooks now db d name ≡ ok end
      → Trace hooks c end.1

-- A step of the trace took the campaign out of the phase before the launch, and at that time the
-- campaign, as it stood, had all its required assets approved.
pub data LaunchedIn (hooks : Hooks) (c : Campaign) : (d : Campaign) → Trace hooks c d → Type 0 where
  now_launched :
      {e : Campaign} (r : Trace hooks c e) (now : ℕ) (db : Db) (name : String) {end : Db × Campaign}
      (h : apply_campaign hooks now db e name ≡ ok end)
      → before_launch e.status ≡ true
      → all_required_assets_approved now db e ≡ true
      → LaunchedIn hooks c end.1 (step r now db name h)
  launched_before :
      {e : Campaign} (r : Trace hooks c e) (now : ℕ) (db : Db) (name : String) {end : Db × Campaign}
      (h : apply_campaign hooks now db e name ≡ ok end)
      → LaunchedIn hooks c e r
      → LaunchedIn hooks c end.1 (step r now db name h)

module _ (hooks : Hooks) where
  campaign_sm-IsGuarded : All IsGuarded (campaign_sm hooks)
  unfolding campaign_sm
  campaign_sm-IsGuarded = ground arith

  launch_step :
      (now : ℕ) (db : Db) (c : Campaign) (name : String) (end : Db × Campaign)
      → apply_campaign hooks now db c name ≡ ok end
      → before_launch c.status ≡ true
      → (before_launch end.1.status ≡ true) ⊎ (all_required_assets_approved now db c ≡ true)
  unfolding apply_campaign moved
  launch_step now db c name end h b =
      let a = apply-Applied now (campaign_sm hooks) db c name end h in
      let g =
        All-Row IsGuarded a.registered campaign_sm-IsGuarded (ap before_launch a.leaves ∙ b) in
      elim g [
        | inl stays ↦ inl (ap (λ (d : Campaign). before_launch d.status) a.arrives ∙ stays)
        | inr e ↦ inr (guarded-passes a.used now db c a.guarded e)
      ]

  -- However its transitions are ordered and whatever happens to other rows between them, a campaign
  -- whose own row only transitions change, and that has left the phase before the launch, left it by
  -- a step that found the campaign's required assets all approved.
  pub launch_needs_approval :
      (c d : Campaign) (r : Trace hooks c d)
      → before_launch c.status ≡ true
      → before_launch d.status ≡ false
      → LaunchedIn hooks c d r
  launch_needs_approval c d start b l = cc
  launch_needs_approval c d (step {d = e} r now db name {end} h) b l =
      elim (Bool-cases (before_launch e.status)) [
        | inl still ↦ elim (launch_step now db e name end h still) [
          | inl p ↦ cc
          | inr p ↦ now_launched r now db name h still p
        ]
        | inr gone ↦ launched_before r now db name h (launch_needs_approval c e r b gone)
      ]

  too_early :
      (now : ℕ) (db : Db) (c : Campaign)
      → now / microseconds_per_day < c.start_date
      → ready_to_go_live now db c ≡ false
  unfolding ready_to_go_live
  too_early now db c h =
      let early : ltb (now / microseconds_per_day) c.start_date ≡ true = ground (arith, h) in
      rw early refl

  pause_ready_found :
      (now : ℕ) (db : Db) (c : Campaign)
      → c.status ≡ CampaignStatus.ready_to_launch
      → let t = pause_from CampaignStatus.ready_to_launch in
        apply_campaign hooks now db c "pause"
        ≡ enter t.on_enter now (record_move t c db) (moved t c)
  unfolding apply_campaign campaign_sm take has_transition_key passes
  pause_ready_found now db c h =
      ap (λ s. take now db c (find_where (has_transition_key s "pause") (campaign_sm hooks))) h

  resume_found :
      (now : ℕ) (db : Db) (c : Campaign)
      → c.status ≡ CampaignStatus.paused
      → let t =
          transition "resume" CampaignStatus.paused CampaignStatus.live none
            (some resume_distribution) in
        apply_campaign hooks now db c "resume"
        ≡ enter t.on_enter now (record_move t c db) (moved t c)
  unfolding apply_campaign campaign_sm take has_transition_key passes
  resume_found now db c h =
      ap (λ s. take now db c (find_where (has_transition_key s "resume") (campaign_sm hooks))) h

  start_live_refused :
      (now : ℕ) (db : Db) (c : Campaign)
      → c.status ≡ CampaignStatus.ready_to_launch
      → ready_to_go_live now db c ≡ false
      → apply_campaign hooks now db c "start_live" ≡ err guard_failed
  unfolding apply_campaign campaign_sm take has_transition_key passes
  start_live_refused now db c h g =
      ap (λ s. take now db c (find_where (has_transition_key s "start_live") (campaign_sm hooks))) h
      ∙ rw g refl

  -- A campaign that is ready to launch before its start date, whose `start_live` the guard therefore
  -- refuses, can be paused, and a request to resume it, still before that date, takes it live.
  pub resume_skips_start_date :
      (paused_at resumed_at : ℕ) (db : Db) (c : Campaign)
      → c.status ≡ CampaignStatus.ready_to_launch
      → resumed_at / microseconds_per_day < c.start_date
      → (apply_campaign hooks resumed_at db c "start_live" ≡ err guard_failed)
        × (p : Db × Campaign) × (apply_campaign hooks paused_at db c "pause" ≡ ok p)
        × (ready_to_go_live resumed_at p.0 p.1 ≡ false)
        × (r : Db × Campaign) × (apply_campaign hooks resumed_at p.0 p.1 "resume" ≡ ok r)
        × (r.1.status ≡ CampaignStatus.live)
        × (r.1.start_date ≡ c.start_date)
  unfolding enter cancel_queued_on_pause resume_distribution moved
  resume_skips_start_date paused_at resumed_at db c h early =
      let held = moved (pause_from CampaignStatus.ready_to_launch) c in
      (
        start_live_refused resumed_at db c h (too_early resumed_at db c early),
        _,
        pause_ready_found paused_at db c h,
        too_early resumed_at _ held early,
        _,
        resume_found resumed_at _ held refl,
        refl,
        refl,
      )
