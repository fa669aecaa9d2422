-- ===== src/Distribution/Requeued.antt =====
-- The loop of `resume_distribution_for_campaign` (app/agents/distribution.py).
use marketing_agentic_system.Common.{
  ℕ, ◌≡◌, ◌≢◌, refl, sym, ◌∙◌, String, Bool, true, false, Option, none, some, List, [], ◌∷◌, arith,
  inl, inr, Bool-cases, get_or_else, not, ◌&&◌, ◌+◌, is_some, count_where, Row, first, later,
  Row-append, Row-last, All, All-Row, All-of_Row, if◌then◌else◌,
}
use marketing_agentic_system.Queue.{Task, Payload, queued, uuid, new_row}
use marketing_agentic_system.Data.{Campaign, ContentAsset, Db}
use marketing_agentic_system.Distribution.Schedule.{dispatch_skill_for, dispatch_task}
use marketing_agentic_system.Distribution.Suspension.{
  elapsed_before, expired_slot, Resumed, requeue, fail_elapsed, resume_one, resume_each,
}
use marketing_agentic_system.Distribution.Scheduled.{
  write_asset-own, write_asset-other, enqueued_dispatch,
}
use marketing_agentic_system.Distribution.Launch.{DistinctIds}

-- A task in the queue that dispatches the asset with this skill, at its slot or at once.
pub record Redispatches (now : ℕ) (a : ContentAsset) (skill : String) (t : Task) : Type 0 where
  pub waits : t.status ≡ queued
  pub skill_name : t.skill_name ≡ skill
  pub due : t.scheduled_for ≡ get_or_else a.scheduled_at now
  pub input : (rest : Payload) × (t.input_data ≡ ("asset_id", uuid a.id) ∷ rest)

-- What becomes of a scheduled asset: it failed because its slot has passed, or it is still scheduled
-- and, if its type can be dispatched, a task for it is queued.
pub data IsResumed (now : ℕ) (a : ContentAsset) (db : Db) : Type 0 where
  elapsed : elapsed_before now a ≡ true → Row (expired_slot now a) db.assets → IsResumed now a db
  requeued :
      elapsed_before now a ≡ false
      → Row a db.assets
      → ((skill : String)
          → dispatch_skill_for a.asset_type ≡ some skill
          → (t : Task) × Row t db.tasks.rows × Redispatches now a skill t)
      → IsResumed now a db

-- A scheduled asset that is not too late and has a dispatch.
unfoldable pub is_dispatched_again : ℕ → ContentAsset → Bool
is_dispatched_again now a = not (elapsed_before now a) && is_some (dispatch_skill_for a.asset_type)

-- Rows that the rest of the loop keeps.
pub record Kept (a : ContentAsset) (x y : Db) : Type 0 where
  pub asset : (b : ContentAsset) → b.id ≡ a.id → Row b x.assets → Row b y.assets
  pub task : (t : Task) → Row t x.tasks.rows → Row t y.tasks.rows

Kept-IsResumed :
    (now : ℕ) (a : ContentAsset) (x y : Db) → Kept a x y → IsResumed now a x → IsResumed now a y
unfolding expired_slot
Kept-IsResumed now a x y k (elapsed e r) = elapsed e (k.asset (expired_slot now a) refl r)
Kept-IsResumed now a x y k (requeued e r q) =
    requeued e (k.asset a refl r) (λ skill s. let (t, w, d) = q skill s in (t, k.task t w, d))

module _ (now : ℕ) (c : Campaign) (agent : ℕ) where
  requeue-task :
      (a : ContentAsset) (skill : String) (o : Option String) (r : Resumed)
      → o ≡ some skill
      → (t : Task) × Row t (requeue now c agent a o r).db.tasks.rows × Redispatches now a skill t
  unfolding requeue new_row dispatch_task
  requeue-task a skill none r e = cc
  requeue-task a skill (some s) r e = (
    new_row now r.db.tasks.next_id (dispatch_task c agent s a (get_or_else a.scheduled_at now)),
    rw (enqueued_dispatch now r.db.tasks c agent s a (get_or_else a.scheduled_at now))
        (Row-last _ _),
    record { waits = refl; skill_name = cc; due = refl; input = (_, refl) },
  )

  requeue-Kept :
      (b a : ContentAsset) (o : Option String) (r : Resumed)
      → Kept b r.db (requeue now c agent a o r).db
  unfolding requeue
  requeue-Kept b a none r = record { asset = λ x e w. w; task = λ t w. w }
  requeue-Kept b a (some s) r = record {
    asset = λ x e w. w;
    task = λ t w.
        rw (enqueued_dispatch now r.db.tasks c agent s a (get_or_else a.scheduled_at now))
          (Row-append _ w);
  }

  fail-Kept :
      (b a : ContentAsset) (r : Resumed) → b.id ≢ a.id → Kept b r.db (fail_elapsed now a r).db
  unfolding fail_elapsed expired_slot
  fail-Kept b a r n = record {
    asset = λ x e w. write_asset-other (expired_slot now a) r.db x w (λ h. n (sym e ∙ h));
    task = λ t w. w;
  }

  fail-row :
      (a : ContentAsset) (r : Resumed)
      → Row a r.db.assets
      → Row (expired_slot now a) (fail_elapsed now a r).db.assets
  unfolding fail_elapsed expired_slot
  fail-row a r w = write_asset-own (expired_slot now a) r.db (a, w, refl)

  one-Kept :
      (b a : ContentAsset) (r : Resumed) → b.id ≢ a.id → Kept b r.db (resume_one now c agent a r).db
  unfolding resume_one
  one-Kept b a r n = elim (Bool-cases (elapsed_before now a)) [
    | inl e ↦ rw e (fail-Kept b a r n)
    | inr e ↦ rw e (requeue-Kept b a (dispatch_skill_for a.asset_type) r)
  ]

  one-IsResumed :
      (a : ContentAsset) (r : Resumed)
      → Row a r.db.assets
      → IsResumed now a (resume_one now c agent a r).db
  unfolding resume_one
  one-IsResumed a r w = elim (Bool-cases (elapsed_before now a)) [
    | inl e ↦ rw e (elapsed e (fail-row a r w))
    | inr e ↦ rw e (
        requeued e ((requeue-Kept a a (dispatch_skill_for a.asset_type) r).asset a refl w)
          (λ skill s. requeue-task a skill (dispatch_skill_for a.asset_type) r s))
  ]

  pub each-Kept :
      (b : ContentAsset) (l : List ContentAsset) (r : Resumed)
      → All (λ (x : ContentAsset). b.id ≢ x.id) l
      → Kept b r.db (resume_each now c agent l r).db
  unfolding resume_each
  each-Kept b [] r h = record { asset = λ x e w. w; task = λ t w. w }
  each-Kept b (a ∷ rest) r h =
      let k = one-Kept b a r h.0 in
      let k' = each-Kept b rest (resume_one now c agent a r) h.1 in
      record { asset = λ x e w. k'.asset x e (k.asset x e w); task = λ t w. k'.task t (k.task t w) }

  pub each-IsResumed :
      (l : List ContentAsset) (r : Resumed) (a : ContentAsset)
      → DistinctIds l
      → All (λ (x : ContentAsset). Row x r.db.assets) l
      → Row a l
      → IsResumed now a (resume_each now c agent l r).db
  unfolding resume_each
  each-IsResumed [] r a p h w = elim w [ ]
  each-IsResumed (x ∷ rest) r a p h (first e) = rw e (
      Kept-IsResumed now x _ _ (each-Kept x rest (resume_one now c agent x r) p.0)
        (one-IsResumed x r h.0))
  each-IsResumed (x ∷ rest) r a p h (later w) =
      each-IsResumed rest (resume_one now c agent x r) a p.1
        (All-of_Row _ rest
          (λ y s. (one-Kept y x r (λ q. All-Row _ s p.0 (sym q))).asset y refl (All-Row _ s h.1)))
        w

  requeue-counts :
      (a : ContentAsset) (o : Option String) (r : Resumed)
      → ((requeue now c agent a o r).elapsed_failed ≡ r.elapsed_failed)
        × ((requeue now c agent a o r).requeued ≡ r.requeued + (if is_some o then 1 else 0))
  unfolding requeue
  requeue-counts a none r = (refl, omega arith)
  requeue-counts a (some s) r = (refl, refl)

  one-counts :
      (a : ContentAsset) (r : Resumed)
      → ((resume_one now c agent a r).elapsed_failed
          ≡ r.elapsed_failed + (if elapsed_before now a then 1 else 0))
        × ((resume_one now c agent a r).requeued
            ≡ r.requeued + (if is_dispatched_again now a then 1 else 0))
  unfolding resume_one fail_elapsed is_dispatched_again
  one-counts a r = elim (Bool-cases (elapsed_before now a)) [
    | inl e ↦ rw e (refl, omega arith)
    | inr e ↦
        let k = requeue-counts a (dispatch_skill_for a.asset_type) r in rw e (omega (arith, k), k.1)
  ]

  pub each-counts :
      (l : List ContentAsset) (r : Resumed)
      → ((resume_each now c agent l r).elapsed_failed
          ≡ r.elapsed_failed + count_where (elapsed_before now) l)
        × ((resume_each now c agent l r).requeued
            ≡ r.requeued + count_where (is_dispatched_again now) l)
  unfolding resume_each
  each-counts [] r = (omega arith, omega arith)
  each-counts (a ∷ rest) r =
      let i = each-counts rest (resume_one now c agent a r) in
      let o = one-counts a r in (omega (arith, i, o), omega (arith, i, o))
