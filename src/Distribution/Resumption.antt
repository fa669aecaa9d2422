-- ===== src/Distribution/Resumption.antt =====
-- `resume_distribution_for_campaign` of app/agents/distribution.py.
use marketing_agentic_system.Common.{
  ℕ, ◌≡◌, ◌≢◌, refl, sym, subst, true, false, List, [], ◌∷◌, arith, count_where, Row, All, All-Row,
  All-of_Row, Pairs-select_where, select_where, select_where-Row, select_where-All,
  select_where-of_Row,
}
use marketing_agentic_system.Data.{Campaign, ContentAsset, Db}
use marketing_agentic_system.Data.Agents.{
  ensure_distribution_agent, ensure_distribution_agent-assets,
}
use marketing_agentic_system.Distribution.Suspension.{
  elapsed_before, Resumed, is_scheduled_of, resume_all, resume_distribution_for_campaign,
}
use marketing_agentic_system.Distribution.Launch.{DistinctIds, told_apart}
use marketing_agentic_system.Distribution.Requeued.{
  IsResumed, is_dispatched_again, each-Kept, each-IsResumed, each-counts,
}

-- The loop starts with the agent's row in place and nothing counted.
abbrev started : Db → Campaign → Resumed
started db c = record {
  db = (ensure_distribution_agent db c.tenant_id).0;
  requeued = 0;
  elapsed_failed = 0;
}

started_rows :
    (db : Db) (c : Campaign) (a : ContentAsset) → Row a db.assets → Row a (started db c).db.assets
started_rows db c a w =
    subst (λ l. Row a l) (sym (ensure_distribution_agent-assets db c.tenant_id)) w

module _ (now : ℕ) (db : Db) (c : Campaign) where
  resume_all-IsResumed :
      (l : List ContentAsset) (a : ContentAsset)
      → DistinctIds l
      → All (λ (x : ContentAsset). Row x db.assets) l
      → Row a l
      → IsResumed now a (resume_all now db c l).db
  unfolding resume_all
  resume_all-IsResumed [] a p h w = elim w [ ]
  resume_all-IsResumed (x ∷ rest) a p h w =
      each-IsResumed now c (ensure_distribution_agent db c.tenant_id).1.id (x ∷ rest) (started db c)
        a p
        (All-of_Row _ (x ∷ rest)
          (λ y s. started_rows db c y (All-Row (λ (x : ContentAsset). Row x db.assets) s h)))
        w

  resume_all_other :
      (l : List ContentAsset) (b : ContentAsset)
      → Row b db.assets
      → All (λ (a : ContentAsset). b.id ≢ a.id) l
      → Row b (resume_all now db c l).db.assets
  unfolding resume_all
  resume_all_other [] b w h = w
  resume_all_other (x ∷ rest) b w h =
      (each-Kept now c (ensure_distribution_agent db c.tenant_id).1.id b (x ∷ rest) (started db c)
          h).asset
        b refl (started_rows db c b w)

  resume_all-counts :
      (l : List ContentAsset)
      → ((resume_all now db c l).elapsed_failed ≡ count_where (elapsed_before now) l)
        × ((resume_all now db c l).requeued ≡ count_where (is_dispatched_again now) l)
  unfolding resume_all
  resume_all-counts [] = (refl, refl)
  resume_all-counts (x ∷ rest) =
      let k =
        each-counts now c (ensure_distribution_agent db c.tenant_id).1.id (x ∷ rest)
          (started db c) in
      (omega (arith, k), omega (arith, k))

-- What a resumption leaves, and what it reports.
pub record Resumption (now : ℕ) (db : Db) (c : Campaign) (r : Resumed) : Type 0 where
  pub scheduled :
      (a : ContentAsset) → Row a db.assets → is_scheduled_of c.id a ≡ true → IsResumed now a r.db
  pub others :
      (b : ContentAsset) → Row b db.assets → is_scheduled_of c.id b ≡ false → Row b r.db.assets
  pub elapsed_failed :
      r.elapsed_failed
      ≡ count_where (elapsed_before now) (select_where (is_scheduled_of c.id) db.assets)
  pub requeued :
      r.requeued
      ≡ count_where (is_dispatched_again now) (select_where (is_scheduled_of c.id) db.assets)

-- If the assets' ids are distinct, a resumption fails each scheduled asset of the campaign whose slot
-- has passed, keeps each other one and queues a task for it if its type can be dispatched, leaves all
-- other assets as they were, and reports how many there were of both kinds.
pub resume_distribution_for_campaign-Resumption :
    (now : ℕ) (db : Db) (c : Campaign)
    → DistinctIds db.assets
    → Resumption now db c (resume_distribution_for_campaign now db c)
unfolding resume_distribution_for_campaign
resume_distribution_for_campaign-Resumption now db c d =
    let p = is_scheduled_of c.id in
    let l = select_where p db.assets in
    let n = resume_all-counts now db c l in
    record {
      scheduled = λ a w h.
          resume_all-IsResumed now db c l a (Pairs-select_where _ p db.assets d)
            (All-of_Row _ l (λ x s. select_where-Row p db.assets s))
            (select_where-of_Row p db.assets w h);
      others = λ b w h. resume_all_other now db c l b w (
          All-of_Row _ l λ a s.
            told_apart p db.assets b a d w (select_where-Row p db.assets s) h
              (All-Row _ s (select_where-All p db.assets)));
      elapsed_failed = n.0;
      requeued = n.1;
    }
