-- ===== src/Queue/Claim.antt =====
-- What `claim_next` of app/orchestrator/queue.py hands to a worker.
use marketing_agentic_system.Common.{
  ℕ, ◌≡◌, ◌≢◌, refl, String, Bool, true, false, Option, none, some, List, [], ◌∷◌, arith, inl, inr,
  Bool-cases, All, Row, first, later, All-Row, All-map, select_where, select_where-All,
  select_where-Row, update_where, All-update_where, All-of_Row, if-elim, if◌then◌else◌,
}
use marketing_agentic_system.Queue.{
  Task, TaskTable, has_id, is_waiting, is_ready, comes_before, earlier_of, first_of_order, claimed,
  next_task, take_task, claim_next,
}

comes_before_irreflexive : (t : Task) → comes_before t t ≡ false
unfolding comes_before
comes_before_irreflexive t = ground arith

comes_before_asymmetric : (t u : Task) → comes_before t u ≡ true → comes_before u t ≡ false
unfolding comes_before
comes_before_asymmetric t u h = ground arith

not_before_trans :
    (x u t : Task) → comes_before x u ≡ false → comes_before u t ≡ false → comes_before x t ≡ false
unfolding comes_before
not_before_trans x u t h k = ground arith

-- The picked row stands in the list, and no row comes before it.
record IsFirst (l : List Task) (t : Task) : Type 0 where
  row : Row t l
  least : All (λ u. comes_before u t ≡ false) l

earlier_of-IsFirst :
    (x : Task) (xs : List Task) (o : Option Task)
    → first_of_order xs ≡ o
    → ((u : Task) → o ≡ some u → IsFirst xs u)
    → IsFirst (x ∷ xs) (earlier_of x o)
unfolding earlier_of first_of_order
earlier_of-IsFirst x [] none n ih = record {
  row = first refl;
  least = (comes_before_irreflexive x, tt);
}
earlier_of-IsFirst x (y ∷ ys) none n ih = cc
earlier_of-IsFirst x xs (some u) s ih =
    let f : IsFirst xs u = ih u refl in
    elim (Bool-cases (comes_before u x)) [
      | inl b ↦
          rw b (record { row = later f.row; least = (comes_before_asymmetric u x b, f.least) })
      | inr b ↦ rw b (record {
        row = first refl;
        least = (
          comes_before_irreflexive x,
          All-map _ _ xs (λ y h. not_before_trans y u x h b) f.least,
        );
      })
    ]

first_of_order-IsFirst : (l : List Task) (t : Task) → first_of_order l ≡ some t → IsFirst l t
unfolding first_of_order
first_of_order-IsFirst [] t e = cc
first_of_order-IsFirst (x ∷ xs) t e =
    let q : earlier_of x (first_of_order xs) ≡ t = cc in
    rw (← q) (earlier_of-IsFirst x xs (first_of_order xs) refl (first_of_order-IsFirst xs))

first_of_order-none : (l : List Task) → first_of_order l ≡ none → l ≡ []
unfolding first_of_order
first_of_order-none [] e = refl
first_of_order-none (t ∷ ts) e = cc

-- The task `t` is the one that a claim should take.
pub record IsNext (now : ℕ) (locked : ℕ → Bool) (q : TaskTable) (t : Task) : Type 0 where
  pub row : Row t q.rows
  pub ready : is_ready now locked t ≡ true
  pub least : (u : Task) → Row u q.rows → is_ready now locked u ≡ true → comes_before u t ≡ false

select_where_complete :
    (p : Task → Bool) (l : List Task) (u : Task) → Row u l → p u ≡ true → Row u (select_where p l)
select_where_complete p [] u r h = elim r [ ]
select_where_complete p (y ∷ ys) u (first e) h = rw (← e) (rw h (first refl))
select_where_complete p (y ∷ ys) u (later r) h =
    if-elim (Row u) (p y) (later (select_where_complete p ys u r h))
      (select_where_complete p ys u r h)

pub next_task-IsNext :
    (now : ℕ) (locked : ℕ → Bool) (q : TaskTable) (t : Task)
    → next_task now locked q ≡ some t
    → IsNext now locked q t
unfolding next_task
next_task-IsNext now locked q t e =
    let f = first_of_order-IsFirst (select_where (is_ready now locked) q.rows) t e in
    record {
      row = select_where-Row (is_ready now locked) q.rows f.row;
      ready = All-Row _ f.row (select_where-All (is_ready now locked) q.rows);
      least = λ u r h. All-Row _ (select_where_complete (is_ready now locked) q.rows u r h) f.least;
    }

pub next_task-none :
    (now : ℕ) (locked : ℕ → Bool) (q : TaskTable)
    → next_task now locked q ≡ none
    → (u : Task) → Row u q.rows
    → is_ready now locked u ≡ false
unfolding next_task
next_task-none now locked q e u r = elim (Bool-cases (is_ready now locked u)) [
  | inl h ↦ absurd (
      no_row u _ (first_of_order-none _ e)
        (select_where_complete (is_ready now locked) q.rows u r h))
  | inr h ↦ h
]
  where
    no_row : (u : Task) (l : List Task) → l ≡ [] → Row u l → ⊥
    no_row u l e (first h) = cc
    no_row u l e (later h) = cc

-- What one call of `claim_next` does: either no unlocked row is ready and nothing changes, or the
-- best ready row is marked as running, with one attempt more, and returned as it now stands.
pub data Claim (now : ℕ) (locked : ℕ → Bool) (q : TaskTable) (worker : String) (lease : ℕ)
    : TaskTable × Option Task → Type 0 where
  idle :
      ((u : Task) → Row u q.rows → is_ready now locked u ≡ false)
      → Claim now locked q worker lease (q, none)
  took :
      (t : Task)
      → IsNext now locked q t
      → Claim now locked q worker lease (
        record q { rows = update_where (has_id t.id) (claimed now worker lease) q.rows },
        some (claimed now worker lease t),
      )

take_task-Claim :
    (now : ℕ) (locked : ℕ → Bool) (q : TaskTable) (worker : String) (lease : ℕ) (o : Option Task)
    → next_task now locked q ≡ o
    → Claim now locked q worker lease (take_task now q worker lease o)
unfolding take_task
take_task-Claim now locked q worker lease none e = idle (next_task-none now locked q e)
take_task-Claim now locked q worker lease (some t) e = took t (next_task-IsNext now locked q t e)

-- `claim_next` takes a ready row that no other session holds and that no such row comes before,
-- in the order of falling priority and rising schedule, and only if there is none it takes nothing.
pub claim_next-Claim :
    (now : ℕ) (locked : ℕ → Bool) (q : TaskTable) (worker : String) (lease : ℕ)
    → Claim now locked q worker lease (claim_next now locked q worker lease)
unfolding claim_next
claim_next-Claim now locked q worker lease =
    take_task-Claim now locked q worker lease (next_task now locked q) refl

claimed-not_ready :
    (now later_on : ℕ) (worker : String) (lease : ℕ) (free : ℕ → Bool) (i : ℕ) (t : Task)
    → (if has_id i t then claimed now worker lease t else t).id ≡ i
    → is_ready later_on free (if has_id i t then claimed now worker lease t else t) ≡ false
unfolding claimed is_ready is_waiting
claimed-not_ready now later_on worker lease free i t = ground arith

-- The claim that a returned task comes from.
pub record Taken (now : ℕ) (locked : ℕ → Bool) (q : TaskTable) (worker : String) (lease : ℕ)
    (t : Task) : Type 0 where
  pub source : Task
  pub chosen : IsNext now locked q source
  pub written : t ≡ claimed now worker lease source
  pub rows :
      (claim_next now locked q worker lease).0.rows
      ≡ update_where (has_id source.id) (claimed now worker lease) q.rows

take_task-Taken :
    (now : ℕ) (locked : ℕ → Bool) (q : TaskTable) (worker : String) (lease : ℕ) (t : Task)
    (o : Option Task)
    → next_task now locked q ≡ o
    → (take_task now q worker lease o).1 ≡ some t
    → Taken now locked q worker lease t
unfolding take_task claim_next
take_task-Taken now locked q worker lease t none e h = cc
take_task-Taken now locked q worker lease t (some s) e h = record {
  source = s;
  chosen = next_task-IsNext now locked q s e;
  written = cc;
  rows = rw e;
}

pub claim_next-Taken :
    (now : ℕ) (locked : ℕ → Bool) (q : TaskTable) (worker : String) (lease : ℕ) (t : Task)
    → (claim_next now locked q worker lease).1 ≡ some t
    → Taken now locked q worker lease t
unfolding claim_next
claim_next-Taken now locked q worker lease t h =
    take_task-Taken now locked q worker lease t (next_task now locked q) refl h

pub claimed-id :
    (now : ℕ) (worker : String) (lease : ℕ) (t : Task) → (claimed now worker lease t).id ≡ t.id
unfolding claimed
claimed-id now worker lease t = refl

-- A task that one worker has claimed is not handed to another, at whatever time that one asks and
-- whatever it sees locked, as long as nothing else has changed the table.
pub claim_next_exclusive :
    (now later_on : ℕ) (locked free : ℕ → Bool) (q : TaskTable) (worker other : String)
    (lease lease' : ℕ) (t u : Task)
    → (claim_next now locked q worker lease).1 ≡ some t
    → (claim_next later_on free (claim_next now locked q worker lease).0 other lease').1 ≡ some u
    → t.id ≢ u.id
claim_next_exclusive now later_on locked free q worker other lease lease' t u h k e =
    let a = claim_next-Taken now locked q worker lease t h in
    let b = claim_next-Taken later_on free _ other lease' u k in
    let none_ready =
      All-update_where (λ _. Unit {0})
        (λ (y : Task). y.id ≡ a.source.id → is_ready later_on free y ≡ false) (has_id a.source.id)
        (claimed now worker lease) q.rows
        (λ y _. claimed-not_ready now later_on worker lease free a.source.id y)
        (All-of_Row _ q.rows (λ _ _. tt)) in
    let r : Row b.source (update_where (has_id a.source.id) (claimed now worker lease) q.rows) =
      rw a.rows at b.chosen.row in
    let not_ready =
      All-Row (λ (y : Task). y.id ≡ a.source.id → is_ready later_on free y ≡ false) r none_ready in
    let same : b.source.id ≡ a.source.id = cc (
      a.written,
      b.written,
      e,
      claimed-id now worker lease a.source,
      claimed-id later_on other lease' b.source,
    ) in
    cc (not_ready same, b.chosen.ready)
