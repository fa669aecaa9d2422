-- ===== src/Approvals/Response.antt =====
-- The response of a batch (app/api/approvals.py, `batch_approve`).
use marketing_agentic_system.Common.{
  ℕ, ◌+◌, ◌≡◌, refl, ap, ◌∙◌, Bool, true, false, Option, none, some, List, [], ◌∷◌, length,
  find_where, ◌==◌, ◌&&◌, String, count_where,
}
use marketing_agentic_system.Data.{UserRole, AppUser, Campaign, Db, ok, ◌>>=◌}
use marketing_agentic_system.StateMachine.Machine.{Hooks}
use marketing_agentic_system.Approvals.{is_below, require_role}
use marketing_agentic_system.Approvals.Endpoints.{maybe_advance_to_ready_to_launch}
use marketing_agentic_system.Approvals.Advance.{IsOk, maybe_advance_total}
use marketing_agentic_system.Approvals.Batch.{
  Exclusion, WriteError, BatchApproveResponse, advance_each, batch_answer, is_valid_size,
  validate_batch, batch_approve,
}
use marketing_agentic_system.Approvals.Counts.{names, count_for, is_write_failed, is_on}

-- A response to a batch, by the database before it: every id is an approved or an excluded entry as often
-- as the request names it, the two totals are those of the entries, and the summary counts for every
-- platform the approved assets of that platform and those whose write failed.
pub record Answers (db : Db) (ids : List ℕ) (r : BatchApproveResponse) : Type 0 where
  pub each_once :
      (i : ℕ)
      → count_where (names i) r.approved + count_where (names i) r.excluded_entries
        ≡ count_where (λ j. j == i) ids
  pub totals :
      (r.would_approve_count ≡ length r.approved) × (r.excluded_count ≡ length r.excluded_entries)
  pub channels :
      (k : String)
      → count_for k r.channel_counts
        ≡ count_where (λ (e : ℕ × Option ℕ). is_on db k e.0) r.approved
          + count_where
              (λ (e : ℕ × Exclusion). is_write_failed e.1 && is_on db k e.0)
              r.excluded_entries

module _ (hooks : Hooks) (now : ℕ) where
  advance_some :
      (db : Db) (o : Option Campaign)
      → IsOk (elim o [ none ↦ ok db | some c ↦ maybe_advance_to_ready_to_launch hooks now db c ])
  advance_some db none = (db, refl)
  advance_some db (some c) = maybe_advance_total hooks now db c

  pub advance_each_total :
      (campaigns : List Campaign) (ids : List ℕ) (db : Db)
      → IsOk (advance_each hooks now campaigns ids db)
  unfolding advance_each
  advance_each_total campaigns [] db = (db, refl)
  advance_each_total campaigns (i ∷ rest) db =
      let (db', e) = advance_some db (find_where (λ (c : Campaign). c.id == i) campaigns) in
      let (db'', e') = advance_each_total campaigns rest db' in
      (db'', ap (λ r. r >>= advance_each hooks now campaigns rest) e ∙ e')

  pub batch_approve-batch_answer :
      (write_error : WriteError) (db : Db) (user : AppUser) (ids : List ℕ) (dry_run : Bool)
      → is_below UserRole.manager user ≡ false
      → is_valid_size ids ≡ true
      → batch_approve hooks now write_error db user ids dry_run
        ≡ batch_answer hooks now write_error db user ids dry_run
  unfolding batch_approve require_role validate_batch
  batch_approve-batch_answer write_error db user ids dry_run rank size = rw (rank, size) refl
