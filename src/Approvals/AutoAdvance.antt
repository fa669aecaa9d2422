-- ===== src/Approvals/AutoAdvance.antt =====
-- `try_advance_after_approval` of app/approvals/auto_advance.py never fails its caller.
use marketing_agentic_system.Common.{
  ℕ, ◌≡◌, refl, sym, subst, ap, ◌∙◌, true, false, Option, none, some, inl, inr, arith, Bool-cases,
  find_where,
}
use marketing_agentic_system.Data.{CampaignStatus, Campaign, Db, Result, ok, ◌>>=◌}
use marketing_agentic_system.StateMachine.{has_transition_key, passes, enter, take, apply}
use marketing_agentic_system.StateMachine.Guards.{
  all_required_assets_approved, all_required_assets_drafted, start_distribution,
  flip_drafted_assets_to_pending_approval,
}
use marketing_agentic_system.StateMachine.Machine.{Hooks, campaign_sm, apply_campaign}
use marketing_agentic_system.Approvals.{is_awaiting_approval}
use marketing_agentic_system.Approvals.Advance.{awaiting-pending}
use marketing_agentic_system.Approvals.Endpoints.{
  attempt, is_in_production, is_ready_to_launch, Advanced, launch_ended, advance_launch,
  submit_ended, try_advance_after_approval,
}

-- A call that returned, and says that the campaign is ready exactly when it is.
abbrev pub Returns : Result Advanced → Type 0
Returns r = (a : Advanced) × (r ≡ ok a) × (a.launched ≡ is_ready_to_launch a.campaign.status)

module _ (hooks : Hooks) (now : ℕ) where
  launch_attempt :
      (db : Db) (c : Campaign)
      → c.status ≡ CampaignStatus.approval_pending
      → (o : Option (Db × Campaign)) × (attempt (apply_campaign hooks now db c "start_launch")
          ≡ ok o)
  unfolding apply_campaign apply campaign_sm has_transition_key take passes enter start_distribution
      attempt
  launch_attempt db c h =
      subst
        (λ s.
          (o : Option (Db × Campaign)) × (attempt
              (take now db c (find_where (has_transition_key s "start_launch") (campaign_sm hooks)))
            ≡ ok o))
        (sym h)
        (elim (Bool-cases (all_required_assets_approved now db c)) [
          | inl g ↦ rw g (_, refl)
          | inr g ↦ rw g (_, refl)
        ])

  submit_attempt :
      (db : Db) (c : Campaign)
      → c.status ≡ CampaignStatus.content_in_production
      → (o : Option (Db × Campaign)) × (attempt
            (apply_campaign hooks now db c "submit_for_approval")
          ≡ ok o)
  unfolding apply_campaign apply campaign_sm has_transition_key take passes enter
      flip_drafted_assets_to_pending_approval attempt
  submit_attempt db c h =
      subst
        (λ s.
          (o : Option (Db × Campaign)) × (attempt (
              take now db c
                (find_where (has_transition_key s "submit_for_approval") (campaign_sm hooks)))
            ≡ ok o))
        (sym h)
        (elim (Bool-cases (all_required_assets_drafted now db c)) [
          | inl g ↦ rw g (_, refl)
          | inr g ↦ rw g (_, refl)
        ])

  launch_ended-Returns :
      (db : Db) (c : Campaign) (o : Option (Db × Campaign))
      → is_ready_to_launch c.status ≡ false
      → (launch_ended db c o).launched ≡ is_ready_to_launch (launch_ended db c o).campaign.status
  unfolding launch_ended
  launch_ended-Returns db c none h = sym h
  launch_ended-Returns db c (some (db', c')) h = refl

  pending-not_ready :
      (s : CampaignStatus) → is_awaiting_approval s ≡ true → is_ready_to_launch s ≡ false
  unfolding is_awaiting_approval is_ready_to_launch
  pending-not_ready s h = ground arith

  advance_launch-Returns : (db : Db) (c : Campaign) → Returns (advance_launch hooks now db c)
  unfolding advance_launch
  advance_launch-Returns db c = elim (Bool-cases (is_awaiting_approval c.status)) [
    | inl w ↦
        let (o, e) = launch_attempt db c (awaiting-pending c.status w) in
        rw w (
          launch_ended db c o,
          ap (λ r. r >>= λ x. ok (launch_ended db c x)) e,
          launch_ended-Returns db c o (pending-not_ready c.status w),
        )
    | inr w ↦ rw w (_, refl, refl)
  ]

  production :
      (s : CampaignStatus)
      → is_in_production s ≡ true
      → (s ≡ CampaignStatus.content_in_production) × (is_ready_to_launch s ≡ false)
  unfolding is_in_production is_ready_to_launch
  production s h = ground arith

  submit_ended-Returns :
      (db : Db) (c : Campaign) (o : Option (Db × Campaign))
      → is_ready_to_launch c.status ≡ false
      → Returns (submit_ended hooks now db c o)
  unfolding submit_ended
  submit_ended-Returns db c none h = (_, refl, sym h)
  submit_ended-Returns db c (some (db', c')) h = advance_launch-Returns db' c'

  -- The automatic advance never fails the request that calls it, whatever state the campaign is in and
  -- whatever its assets are, and what it returns says that the campaign is ready to launch exactly when
  -- the campaign's status says so.
  pub try_advance_after_approval-Returns :
      (db : Db) (c : Campaign) → Returns (try_advance_after_approval hooks now db c)
  unfolding try_advance_after_approval
  try_advance_after_approval-Returns db c = elim (Bool-cases (is_in_production c.status)) [
    | inl w ↦
        let (status, ready) = production c.status w in
        let (o, e) = submit_attempt db c status in
        let (a, f, l) = submit_ended-Returns db c o ready in
        rw w (a, ap (λ r. r >>= submit_ended hooks now db c) e ∙ f, l)
    | inr w ↦ rw w (advance_launch-Returns db c)
  ]
