-- ===== src/Distribution/Scheduled.antt =====
-- What `schedule_approved_assets` (app/agents/distribution.py) does to the assets and the queue.
use marketing_agentic_system.Common.{
  ℕ, ◌≡◌, ◌≢◌, refl, sym, ap, ◌∙◌, String, false, Option, none, some, List, [], ◌∷◌, ◌++◌, arith,
  inl, inr, Bool-cases, Row, Row-update_where, Row-append, Row-last, ◌==◌, leb, get_or_else, ==_iff,
}
use marketing_agentic_system.Queue.{
  uuid, Payload, Task, TaskTable, queued, new_row, insert_task, conflicting, key_holder,
  insert_or_existing, enqueue_task,
}
use marketing_agentic_system.Data.{
  Campaign, ContentAsset, StrategyTouchpoint, Db, write_asset, has_asset_id,
}
use marketing_agentic_system.Distribution.Schedule.{
  is_approved, touchpoint_of, slotted, unhandled, dispatch_task, enqueue_dispatch,
}

-- The dispatch task inserts one row, which is due at the slot.
pub enqueued_dispatch :
    (now : ℕ) (q : TaskTable) (c : Campaign) (agent : ℕ) (skill : String) (a : ContentAsset)
    (slot : ℕ)
    → (enqueue_task now q (dispatch_task c agent skill a slot)).0.rows
      ≡ q.rows ++ (new_row now q.next_id (dispatch_task c agent skill a slot) ∷ [])
unfolding enqueue_task insert_or_existing insert_task conflicting key_holder dispatch_task
enqueued_dispatch now q c agent skill a slot = refl

-- An approved asset once it is scheduled, as its row ends up.
abbrev pub scheduled_row : ℕ → List StrategyTouchpoint → ContentAsset → Option String → ContentAsset
scheduled_row now touchpoints a none = unhandled (slotted now (touchpoint_of touchpoints a) a)
scheduled_row now touchpoints a (some skill) = slotted now (touchpoint_of touchpoints a) a

-- A task in the queue that dispatches the asset with this skill at this slot.
pub record Dispatches (a : ContentAsset) (skill : String) (t : Task) : Type 0 where
  pub waits : t.status ≡ queued
  pub skill_name : t.skill_name ≡ skill
  pub due : a.scheduled_at ≡ some t.scheduled_for
  pub input : (rest : Payload) × (t.input_data ≡ ("asset_id", uuid a.id) ∷ rest)

abbrev pub HasId : ℕ → List ContentAsset → Type 0
HasId i l = (x : ContentAsset) × Row x l × (x.id ≡ i)

pub write_asset-own :
    (b : ContentAsset) (db : Db) → HasId b.id db.assets → Row b (write_asset b db).assets
write_asset-own b db (x, r, e) =
    rw ((==_iff x.id b.id).1 e) at (Row-update_where (has_asset_id b.id) (λ _. b) db.assets r)

pub write_asset-other :
    (b : ContentAsset) (db : Db) (x : ContentAsset)
    → Row x db.assets
    → x.id ≢ b.id
    → Row x (write_asset b db).assets
write_asset-other b db x r n =
    let e : has_asset_id b.id x ≡ false = ground arith in
    rw e at (Row-update_where (has_asset_id b.id) (λ _. b) db.assets r)

pub write_asset-HasId :
    (i : ℕ) (b : ContentAsset) (db : Db) → HasId i db.assets → HasId i (write_asset b db).assets
write_asset-HasId i b db (x, r, e) = elim (Bool-cases (x.id == b.id)) [
  | inl t ↦ (b, write_asset-own b db (x, r, (==_iff x.id b.id).0 t), cc (e, (==_iff x.id b.id).0 t))
  | inr f ↦ (x, write_asset-other b db x r (λ q. cc (f, (==_iff x.id b.id).1 q)), e)
]

pub slotted-id :
    (now : ℕ) (o : Option StrategyTouchpoint) (a : ContentAsset) → (slotted now o a).id ≡ a.id
unfolding slotted
slotted-id now none a = refl
slotted-id now (some t) a = ground arith

pub slotted-type :
    (now : ℕ) (o : Option StrategyTouchpoint) (a : ContentAsset)
    → (slotted now o a).asset_type ≡ a.asset_type
unfolding slotted
slotted-type now none a = refl
slotted-type now (some t) a = ground arith

pub slotted-not_approved :
    (now : ℕ) (o : Option StrategyTouchpoint) (a : ContentAsset)
    → is_approved (slotted now o a).status ≡ false
unfolding slotted is_approved
slotted-not_approved now o a = refl

pub slotted-slot :
    (now : ℕ) (o : Option StrategyTouchpoint) (a : ContentAsset)
    → (slot : ℕ) × ((slotted now o a).scheduled_at ≡ some slot)
unfolding slotted
slotted-slot now none a = (get_or_else a.scheduled_at now, refl)
slotted-slot now (some t) a = elim (Bool-cases (leb now t.scheduled_at)) [
  | inl e ↦ (t.scheduled_at, rw e)
  | inr e ↦ (now, rw e)
]

-- The loop's last step, for the asset as it then stands.
module _ (now : ℕ) (c : Campaign) (agent : ℕ) where
  pub dispatch-own :
      (b : ContentAsset) (o : Option String) (db : Db)
      → Row b db.assets
      → Row
          (elim o [ none ↦ unhandled b | some _ ↦ b ])
          (enqueue_dispatch now c agent b o db).assets
  unfolding enqueue_dispatch unhandled
  dispatch-own b none db r = write_asset-own (unhandled b) db (b, r, refl)
  dispatch-own b (some skill) db r = r

  pub dispatch-other :
      (b : ContentAsset) (o : Option String) (db : Db) (x : ContentAsset)
      → Row x db.assets
      → x.id ≢ b.id
      → Row x (enqueue_dispatch now c agent b o db).assets
  unfolding enqueue_dispatch unhandled
  dispatch-other b none db x r n = write_asset-other (unhandled b) db x r n
  dispatch-other b (some skill) db x r n = r

  pub dispatch-HasId :
      (i : ℕ) (b : ContentAsset) (o : Option String) (db : Db)
      → HasId i db.assets
      → HasId i (enqueue_dispatch now c agent b o db).assets
  unfolding enqueue_dispatch
  dispatch-HasId i b none db h = write_asset-HasId i (unhandled b) db h
  dispatch-HasId i b (some skill) db h = h

  pub dispatch-tasks :
      (b : ContentAsset) (o : Option String) (db : Db) (t : Task)
      → Row t db.tasks.rows
      → Row t (enqueue_dispatch now c agent b o db).tasks.rows
  unfolding enqueue_dispatch
  dispatch-tasks b none db t r = r
  dispatch-tasks b (some skill) db t r =
      rw (enqueued_dispatch now db.tasks c agent skill b (get_or_else b.scheduled_at now))
        (Row-append _ r)

  pub dispatch-task :
      (b : ContentAsset) (skill : String) (db : Db) (slot : ℕ)
      → b.scheduled_at ≡ some slot
      → (t : Task) × Row t (enqueue_dispatch now c agent b (some skill) db).tasks.rows
        × Dispatches b skill t
  unfolding enqueue_dispatch new_row dispatch_task
  dispatch-task b skill db slot e = (
    new_row now db.tasks.next_id (dispatch_task c agent skill b (get_or_else b.scheduled_at now)),
    rw (enqueued_dispatch now db.tasks c agent skill b (get_or_else b.scheduled_at now))
        (Row-last _ _),
    record {
      waits = refl;
      skill_name = refl;
      due = e ∙ ap some (sym (ap (λ o. get_or_else o now) e));
      input = (_, refl);
    },
  )
