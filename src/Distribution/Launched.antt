-- ===== src/Distribution/Launched.antt =====
-- The loop of `schedule_approved_assets` (app/agents/distribution.py), and what a launch leaves.
use marketing_agentic_system.Common.{
  ℕ, ◌≡◌, ◌≢◌, refl, sym, ap, ◌∙◌, subst, String, Option, none, some, List, [], ◌∷◌, Row, first,
  later, All, All-map, Pairs,
}
use marketing_agentic_system.Queue.{Task}
use marketing_agentic_system.Data.{Campaign, ContentAsset, StrategyTouchpoint, Db, write_asset}
use marketing_agentic_system.Distribution.Schedule.{
  dispatch_skill_for, touchpoint_of, slotted, unhandled, enqueue_dispatch, audit_schedule,
  schedule_one, schedule_each,
}
use marketing_agentic_system.Distribution.Scheduled.{
  scheduled_row, Dispatches, HasId, write_asset-own, write_asset-other, write_asset-HasId,
  slotted-id, slotted-type, slotted-slot, dispatch-own, dispatch-other, dispatch-HasId,
  dispatch-tasks, dispatch-task,
}

-- What the launch owes to an approved asset: its row with the slot, and a task if its type has one.
pub record IsLaunched (now : ℕ) (tps : List StrategyTouchpoint) (a : ContentAsset) (db : Db)
    : Type 0 where
  pub row : Row (scheduled_row now tps a (dispatch_skill_for a.asset_type)) db.assets
  pub task :
      (skill : String)
      → dispatch_skill_for a.asset_type ≡ some skill
      → (t : Task) × Row t db.tasks.rows × Dispatches (slotted now (touchpoint_of tps a) a) skill t

module _ (now : ℕ) (c : Campaign) (agent : ℕ) (tps : List StrategyTouchpoint) where
  -- The state in which the loop's last step finds the asset's row.
  written : ContentAsset → Db → Db
  written a db =
      let b = slotted now (touchpoint_of tps a) a in audit_schedule a b (write_asset b db)

  written-own :
      (a : ContentAsset) (db : Db)
      → HasId a.id db.assets
      → Row (slotted now (touchpoint_of tps a) a) (written a db).assets
  unfolding written audit_schedule
  written-own a db (x, r, e) =
      let b = slotted now (touchpoint_of tps a) a in
      write_asset-own b db (x, r, e ∙ sym (slotted-id now (touchpoint_of tps a) a))

  one-other :
      (a : ContentAsset) (db : Db) (x : ContentAsset)
      → Row x db.assets
      → x.id ≢ a.id
      → Row x (schedule_one now c agent tps a db).assets
  unfolding schedule_one audit_schedule
  one-other a db x r n =
      let b = slotted now (touchpoint_of tps a) a in
      let n' : x.id ≢ b.id = λ e. n (e ∙ slotted-id now (touchpoint_of tps a) a) in
      dispatch-other now c agent b _ _ x (write_asset-other b db x r n') n'

  one-HasId :
      (a : ContentAsset) (db : Db) (i : ℕ)
      → HasId i db.assets
      → HasId i (schedule_one now c agent tps a db).assets
  unfolding schedule_one audit_schedule
  one-HasId a db i h =
      let b = slotted now (touchpoint_of tps a) a in
      dispatch-HasId now c agent i b _ _ (write_asset-HasId i b db h)

  one-tasks :
      (a : ContentAsset) (db : Db) (t : Task)
      → Row t db.tasks.rows
      → Row t (schedule_one now c agent tps a db).tasks.rows
  unfolding schedule_one audit_schedule
  one-tasks a db t r = dispatch-tasks now c agent (slotted now (touchpoint_of tps a) a) _ _ t r

  scheduled_row-cases :
      (a : ContentAsset) (o : Option String)
      → scheduled_row now tps a o ≡ elim o [
        | none ↦ unhandled (slotted now (touchpoint_of tps a) a)
        | some _ ↦ slotted now (touchpoint_of tps a) a
      ]
  scheduled_row-cases a none = refl
  scheduled_row-cases a (some s) = refl

  one-own :
      (a : ContentAsset) (db : Db)
      → HasId a.id db.assets
      → IsLaunched now tps a (schedule_one now c agent tps a db)
  unfolding schedule_one written
  one-own a db h =
      let b = slotted now (touchpoint_of tps a) a in
      let (slot, at) = slotted-slot now (touchpoint_of tps a) a in
      let same : b.asset_type ≡ a.asset_type = slotted-type now (touchpoint_of tps a) a in
      record {
        row =
            subst (λ o. Row (scheduled_row now tps a o) (schedule_one now c agent tps a db).assets)
              (ap dispatch_skill_for same)
              (rw (scheduled_row-cases a _)
                (dispatch-own now c agent b _ (written a db) (written-own a db h)));
        task = λ skill e.
            subst
              (λ o.
                (t : Task) × Row t (enqueue_dispatch now c agent b o (written a db)).tasks.rows
                × Dispatches b skill t)
              (sym (ap dispatch_skill_for same ∙ e))
              (dispatch-task now c agent b skill (written a db) slot at);
      }

  scheduled_row-id : (a : ContentAsset) (o : Option String) → (scheduled_row now tps a o).id ≡ a.id
  unfolding unhandled
  scheduled_row-id a none = slotted-id now (touchpoint_of tps a) a
  scheduled_row-id a (some s) = slotted-id now (touchpoint_of tps a) a

  -- A row stays through the loop if no asset of the loop has its id, and a task stays in any case.
  pub each-other :
      (l : List ContentAsset) (db : Db) (x : ContentAsset)
      → Row x db.assets
      → All (λ (a : ContentAsset). x.id ≢ a.id) l
      → Row x (schedule_each now c agent tps l db).assets
  unfolding schedule_each
  each-other [] db x r h = r
  each-other (a ∷ rest) db x r h =
      each-other rest (schedule_one now c agent tps a db) x (one-other a db x r h.0) h.1

  each-tasks :
      (l : List ContentAsset) (db : Db) (t : Task)
      → Row t db.tasks.rows
      → Row t (schedule_each now c agent tps l db).tasks.rows
  unfolding schedule_each
  each-tasks [] db t r = r
  each-tasks (a ∷ rest) db t r =
      each-tasks rest (schedule_one now c agent tps a db) t (one-tasks a db t r)

  pub each-IsLaunched :
      (l : List ContentAsset) (db : Db) (a : ContentAsset)
      → Pairs (λ (x y : ContentAsset). x.id ≢ y.id) l
      → All (λ (x : ContentAsset). HasId x.id db.assets) l
      → Row a l
      → IsLaunched now tps a (schedule_each now c agent tps l db)
  unfolding schedule_each
  each-IsLaunched [] db a p h r = elim r [ ]
  each-IsLaunched (x ∷ rest) db a p h (first e) =
      let s = one-own x db h.0 in
      let o = dispatch_skill_for x.asset_type in
      let kept =
        each-other rest (schedule_one now c agent tps x db) _ s.row
          (All-map _ _ rest (λ y n. λ q. n (sym (scheduled_row-id x o) ∙ q)) p.0) in
      rw e (record {
        row = kept;
        task = λ skill k.
            let (t, tr, d) = s.task skill k in
            (t, each-tasks rest (schedule_one now c agent tps x db) t tr, d);
      })
  each-IsLaunched (x ∷ rest) db a p h (later r) =
      each-IsLaunched rest (schedule_one now c agent tps x db) a p.1
        (All-map _ _ rest (λ y. one-HasId x db y.id) h.1) r
