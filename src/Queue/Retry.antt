-- ===== src/Queue/Retry.antt =====
-- The retries of `fail` (app/orchestrator/queue.py): the backoff, and how many attempts there are.
use marketing_agentic_system.Common.{
  ℕ, zero, suc, ◌+◌, ◌*◌, ◌/◌, ◌^◌, ◌≤◌, ◌<◌, min, ◌≡◌, ◌≢◌, refl, sym, ap, String, Bool, true,
  false, Option, none, some, arith, ◌∙◌, ◌⊎◌, Bool-cases, inl, inr, leb, ◌||◌, List, Row,
  Row-update_where, All-Row, All-of_Row, All-update_where, update_where, find_where-some, ==_iff,
}
use native.Mathlib.Nat.{one-le-pow}
use marketing_agentic_system.Queue.{
  Task, TaskTable, failed, awaiting_retry, second, compute_next_attempt_delay, claimed, given_up,
  put_back, after_failure, fail_loaded, fail, has_id, update_rows,
}

pow_positive : (a : ℕ) → 1 ≤ 2 ^ a
pow_positive a = one-le-pow a 2 (omega arith)

-- What the backoff is before the jitter, in microseconds.
abbrev pub nominal : ℕ → ℕ
nominal attempt = min (30 * 2 ^ attempt) 3600 * second

-- If the random draw stays within its bound, the wait before the next attempt is the nominal backoff
-- plus at most a tenth of it; the nominal backoff is at least half a minute, and the wait, jitter
-- included, is at most 66 minutes.
pub compute_next_attempt_delay_bounds :
    (draw : ℕ → ℕ) (attempt : ℕ)
    → ((x : ℕ) → draw x ≤ x)
    → (nominal attempt ≤ compute_next_attempt_delay draw attempt)
      × (compute_next_attempt_delay draw attempt ≤ nominal attempt + nominal attempt / 10)
      × (30 * second ≤ nominal attempt)
      × (compute_next_attempt_delay draw attempt ≤ 3960 * second)
unfolding compute_next_attempt_delay
compute_next_attempt_delay_bounds draw attempt h =
    omega (arith, h (nominal attempt / 10), pow_positive attempt)

-- A worker's attempt at a task, which ends in an error that may be retried.
abbrev pub attempt_and_fail : (ℕ → ℕ) → ℕ → String → ℕ → String → Task → Task
attempt_and_fail draw now worker lease error t =
    after_failure draw now error false (claimed now worker lease t) (claimed now worker lease t)

abbrev pub attempts : (ℕ → ℕ) → (ℕ → ℕ) → String → ℕ → String → ℕ → Task → Task
attempts draw clock worker lease error zero t = t
attempts draw clock worker lease error (suc n) t =
    attempts draw clock worker lease error n (attempt_and_fail draw (clock n) worker lease error t)

module _ (draw clock : ℕ → ℕ) (worker : String) (lease : ℕ) (error : String) where
  retried :
      (now : ℕ) (t : Task)
      → t.attempt + 1 < t.max_attempts
      → let u = attempt_and_fail draw now worker lease error t in
        (u.status ≡ awaiting_retry)
        × (u.attempt ≡ t.attempt + 1)
        × (u.max_attempts ≡ t.max_attempts)
  unfolding after_failure claimed given_up put_back
  retried now t h = ground arith

  pub attempts_put_back :
      (n : ℕ) (t : Task)
      → t.attempt + suc n < t.max_attempts
      → (attempts draw clock worker lease error (suc n) t).status ≡ awaiting_retry
  attempts_put_back zero t h = (retried (clock 0) t (omega arith)).0
  attempts_put_back (suc n) t h =
      let r = retried (clock (suc n)) t (omega arith) in
      attempts_put_back n (attempt_and_fail draw (clock (suc n)) worker lease error t) (omega arith)

-- What a failed task becomes, by the row that `fail` loaded.
pub data Failure (draw : ℕ → ℕ) (now : ℕ) (permanent : Bool) (t : Task) : Task → Type 0 where
  final :
      {u : Task}
      → (permanent ≡ true) ⊎ (t.max_attempts ≤ t.attempt)
      → u.status ≡ failed
      → u.completed_at ≡ some now
      → u.scheduled_for ≡ t.scheduled_for
      → Failure draw now permanent t u
  retry :
      {u : Task}
      → permanent ≡ false
      → t.attempt < t.max_attempts
      → u.status ≡ awaiting_retry
      → now + 30 * second ≤ u.scheduled_for
      → u.scheduled_for ≤ now + 3960 * second
      → Failure draw now permanent t u

after_failure-Failure :
    (draw : ℕ → ℕ) (now : ℕ) (error : String) (permanent : Bool) (t : Task)
    → ((x : ℕ) → draw x ≤ x)
    → Failure draw now permanent t (after_failure draw now error permanent t t)
unfolding after_failure given_up put_back
after_failure-Failure draw now error true t h = final (inl refl) refl refl refl
after_failure-Failure draw now error false t h = elim (Bool-cases (leb t.max_attempts t.attempt)) [
  | inl e ↦ rw e (final (inr (ground arith)) refl refl refl)
  | inr e ↦
      let b = compute_next_attempt_delay_bounds draw t.attempt h in
      rw e (retry refl (ground arith) refl (omega arith) (omega arith))
]

-- What `fail` leaves in the table: the failed row, any row of its id in its status, and all other rows as
-- they were.
pub record Settled (q : TaskTable) (id : ℕ) (q' : TaskTable) (u : Task) : Type 0 where
  pub row : Row u q'.rows
  pub same_id : (x : Task) → Row x q'.rows → x.id ≡ id → x.status ≡ u.status
  pub kept : (x : Task) → Row x q.rows → x.id ≢ id → Row x q'.rows

after_failure_kept :
    (draw : ℕ → ℕ) (now : ℕ) (error : String) (permanent : Bool) (t x : Task)
    → ((after_failure draw now error permanent t x).id ≡ x.id)
      × ((after_failure draw now error permanent t x).status
          ≡ (after_failure draw now error permanent t t).status)
unfolding after_failure given_up put_back
after_failure_kept draw now error permanent t x =
    elim (Bool-cases (permanent || leb t.max_attempts t.attempt)) [
      | inl e ↦ rw e (refl, refl)
      | inr e ↦ rw e (refl, refl)
    ]

Row-update_other :
    (id : ℕ) (f : Task → Task) (l : List Task) (x : Task)
    → Row x l
    → x.id ≢ id
    → Row x (update_where (has_id id) f l)
Row-update_other id f l x r n =
    let other : has_id id x ≡ false = elim (Bool-cases (has_id id x)) [
      | inl t ↦ absurd (n ((==_iff x.id id).0 t))
      | inr e ↦ e
    ] in
    rw other at (Row-update_where (has_id id) f l r)

failed-Settled :
    (draw : ℕ → ℕ) (now : ℕ) (q : TaskTable) (id : ℕ) (error : String) (permanent : Bool) (t : Task)
    → Row t q.rows
    → t.id ≡ id
    → Settled q id
        (update_rows (has_id id) (after_failure draw now error permanent t) q)
        (after_failure draw now error permanent t t)
failed-Settled draw now q id error permanent t r own =
    let write = after_failure draw now error permanent t in
    let hit : has_id id t ≡ true = (==_iff t.id id).1 own in
    record {
      row = rw hit at (Row-update_where (has_id id) write q.rows r);
      same_id = λ x row.
          All-Row (λ (y : Task). y.id ≡ id → y.status ≡ (write t).status) row
            (All-update_where (λ _. Unit {0})
              (λ (y : Task). y.id ≡ id → y.status ≡ (write t).status) (has_id id) write q.rows
              (λ y _. elim (Bool-cases (has_id id y)) [
                | inl e ↦ rw e (λ _. (after_failure_kept draw now error permanent t y).1)
                | inr e ↦ rw e (λ s. absurd (cc (e, (==_iff y.id id).1 s)))
              ])
              (All-of_Row _ q.rows (λ _ _. tt)));
      kept = λ x row n. Row-update_other id write q.rows x row n;
    }

fail_loaded-Failure :
    (draw : ℕ → ℕ) (now : ℕ) (q : TaskTable) (error : String) (permanent : Bool) (o : Option Task)
    (q' : TaskTable) (u : Task)
    → ((x : ℕ) → draw x ≤ x)
    → fail_loaded draw now q error permanent o ≡ some (q', u)
    → (t : Task) × (o ≡ some t)
      × Failure draw now permanent t u
      × (q' ≡ update_rows (has_id t.id) (after_failure draw now error permanent t) q)
      × (u ≡ after_failure draw now error permanent t t)
unfolding fail_loaded
fail_loaded-Failure draw now q error permanent none q' u h e = cc
fail_loaded-Failure draw now q error permanent (some t) q' u h e =
    let s : after_failure draw now error permanent t t ≡ u = cc in
    (t, refl, rw (← s) (after_failure-Failure draw now error permanent t h), cc, sym s)

-- If the random draw stays within its bound and `fail` returns, a row with the id was there; a
-- permanent error, or one when the attempts are used up, has put it in `failed` with its schedule
-- kept, and any other has put it back, due between 30 seconds and 66 minutes from now. The table holds
-- the row so changed, no row of this id in another status, and the rows of other ids as they were.
pub fail-Failure :
    (draw : ℕ → ℕ) (now : ℕ) (q : TaskTable) (id : ℕ) (error : String) (permanent : Bool)
    (q' : TaskTable) (u : Task)
    → ((x : ℕ) → draw x ≤ x)
    → fail draw now q id error permanent ≡ some (q', u)
    → (t : Task) × Row t q.rows × (t.id ≡ id) × Failure draw now permanent t u × Settled q id q' u
unfolding fail
fail-Failure draw now q id error permanent q' u h e =
    let (t, found, f, table, row) = fail_loaded-Failure draw now q error permanent _ q' u h e in
    let (r, same) = find_where-some (has_id id) q.rows found in
    let own : t.id ≡ id = (==_iff t.id id).0 same in
    let settled = failed-Settled draw now q id error permanent t r own in
    let table' : q' ≡ update_rows (has_id id) (after_failure draw now error permanent t) q =
      table ∙ ap (λ i. update_rows (has_id i) (after_failure draw now error permanent t) q) own in
    (t, r, own, f, rw (table', row) settled)
