-- ===== src/AbTesting/Stable.antt =====
-- A recipient keeps the variant that `assign_variant` of app/ab_testing/assignment.py gave it.
use marketing_agentic_system.Common.{
  ℕ, ◌≡◌, refl, sym, ap, ◌∙◌, String, Bool, Option, none, some, List, [], ◌∷◌, ◌++◌, inl, inr,
  Bool-cases, find_where,
}
use marketing_agentic_system.Data.{Result, ok, err, ◌>>=◌}
use marketing_agentic_system.AbTesting.{
  AbTest, AbTestAssignment, Split, Hash, AssignmentTable, coerce_split, pick_variant_index,
  is_assignment_of, persisted, insert_assignment, assign_new, assign_read, assign_variant,
}
use marketing_agentic_system.AbTesting.Assigned.{read-Assigned}

find_where-append :
    (p : AbTestAssignment → Bool) (rows more : AssignmentTable) (x : AbTestAssignment)
    → find_where p rows ≡ some x
    → find_where p (rows ++ more) ≡ some x
find_where-append p [] more x e = cc
find_where-append p (y ∷ ys) more x e = elim (Bool-cases (p y)) [
  | inl t ↦ rw t (rw t at e)
  | inr f ↦ rw f (find_where-append p ys more x (rw f at e))
]

-- What other workers commit is added to the table: they delete and change no row.
abbrev pub OnlyAdds : (AssignmentTable → AssignmentTable) → Type 0
OnlyAdds racers = (rows : AssignmentTable) → (more : AssignmentTable) × (racers rows ≡ rows ++ more)

-- Calls that came after a table, for any recipients and tests and of any outcome that is written.
pub data Later (rows : AssignmentTable) : AssignmentTable → Type 0 where
  now_on : Later rows rows
  call :
      {before after : AssignmentTable} (hash : Hash) (racers : AssignmentTable → AssignmentTable)
      (tests : List AbTest) (tenant test : ℕ) (recipient : String) (v : ℕ)
      → Later rows before
      → OnlyAdds racers
      → assign_variant hash racers tests before tenant test recipient ≡ ok (after, v)
      → Later rows after

-- The table is the first one and rows that were added.
abbrev Extends : AssignmentTable → AssignmentTable → Type 0
Extends rows rows' = (more : AssignmentTable) × (rows' ≡ rows ++ more)

append_assoc : (a b c : AssignmentTable) → (a ++ b) ++ c ≡ a ++ (b ++ c)
append_assoc [] b c = refl
append_assoc (x ∷ a) b c = ap (λ l. x ∷ l) (append_assoc a b c)

append_empty : (a : AssignmentTable) → a ++ [] ≡ a
append_empty [] = refl
append_empty (x ∷ a) = ap (λ l. x ∷ l) (append_empty a)

Extends-trans : (a b c : AssignmentTable) → Extends a b → Extends b c → Extends a c
Extends-trans a b c (m, e) (n, f) = (m ++ n, f ∙ ap (λ l. l ++ n) e ∙ append_assoc a m n)

persisted-Extends :
    (rows : AssignmentTable) (x : AbTestAssignment) (o : Option AbTestAssignment)
    → Extends rows (persisted rows x o).0
unfolding persisted
persisted-Extends rows x (some y) = ([], sym (append_empty rows))
persisted-Extends rows x none = (x ∷ [], refl)

module _ (hash : Hash) (tenant test : ℕ) (recipient : String) where
  picked-Extends :
      (rows rows' : AssignmentTable) (v : ℕ) (r : Result ℕ)
      → (r >>= λ i. ok (
          insert_assignment rows (record {
            tenant_id = tenant;
            ab_test_id = test;
            audience_external_id = recipient;
            variant_id = i;
          })))
        ≡ ok (rows', v)
      → Extends rows rows'
  unfolding insert_assignment
  picked-Extends rows rows' v (err e) h = cc
  picked-Extends rows rows' v (ok i) h =
      let x : AbTestAssignment = record {
        tenant_id = tenant;
        ab_test_id = test;
        audience_external_id = recipient;
        variant_id = i;
      } in
      let a : Extends rows (insert_assignment rows x).0 = persisted-Extends rows x _ in
      let e : insert_assignment rows x ≡ (rows', v) = cc in rw e at a

  split-Extends :
      (rows rows' : AssignmentTable) (v : ℕ) (r : Result Split)
      → (r >>= λ split. pick_variant_index hash test recipient split >>= λ i. ok (
          insert_assignment rows (record {
            tenant_id = tenant;
            ab_test_id = test;
            audience_external_id = recipient;
            variant_id = i;
          })))
        ≡ ok (rows', v)
      → Extends rows rows'
  split-Extends rows rows' v (err e) h = cc
  split-Extends rows rows' v (ok split) h =
      picked-Extends rows rows' v (pick_variant_index hash test recipient split) h

  new-Extends :
      (racers : AssignmentTable → AssignmentTable) (rows rows' : AssignmentTable) (v : ℕ)
      (o : Option AbTest)
      → OnlyAdds racers
      → assign_new hash racers rows tenant test recipient o ≡ ok (rows', v)
      → Extends rows rows'
  unfolding assign_new
  new-Extends racers rows rows' v none adds h = cc
  new-Extends racers rows rows' v (some t) adds h =
      Extends-trans rows (racers rows) rows' (adds rows)
        (split-Extends (racers rows) rows' v (coerce_split t.traffic_split) h)

  read-Extends :
      (racers : AssignmentTable → AssignmentTable) (tests : List AbTest)
      (rows rows' : AssignmentTable) (v : ℕ) (o : Option AbTestAssignment)
      → OnlyAdds racers
      → assign_read hash racers tests rows tenant test recipient o ≡ ok (rows', v)
      → Extends rows rows'
  unfolding assign_read
  read-Extends racers tests rows rows' v none adds h = new-Extends racers rows rows' v _ adds h
  read-Extends racers tests rows rows' v (some x) adds h =
      let e : (rows, x.variant_id) ≡ (rows', v) = cc in
      ([], sym (append_empty rows ∙ ap (λ (p : AssignmentTable × ℕ). p.0) e))

later-Extends : (rows rows' : AssignmentTable) → Later rows rows' → Extends rows rows'
unfolding assign_variant
later-Extends rows _ now_on = ([], sym (append_empty rows))
later-Extends rows rows' (call {before} hash racers tests tenant test recipient v run adds h) =
    Extends-trans rows before rows' (later-Extends rows before run)
      (read-Extends hash tenant test recipient racers tests before rows' v _ adds h)

-- Once a recipient was given a variant, a later call gives it the same one and changes nothing, whatever
-- calls were made in between for this or other recipients and tests, whose racing workers only add rows,
-- and even if the hash, the tests or their splits are other ones by then.
pub assign_variant_stable :
    (hash hash' : Hash) (racers racers' : AssignmentTable → AssignmentTable)
    (tests tests' : List AbTest) (rows rows' later : AssignmentTable) (tenant test : ℕ)
    (recipient : String) (v : ℕ)
    → assign_variant hash racers tests rows tenant test recipient ≡ ok (rows', v)
    → Later rows' later
    → assign_variant hash' racers' tests' later tenant test recipient ≡ ok (later, v)
unfolding assign_variant assign_read
assign_variant_stable hash hash' racers racers' tests tests' rows rows' later tenant test recipient
      v h run =
    let a = read-Assigned hash tenant test recipient racers tests rows rows' v _ refl h in
    let (more, e) = later-Extends rows' later run in
    let found : find_where (is_assignment_of tenant test recipient) later ≡ some a.row =
      ap (find_where (is_assignment_of tenant test recipient)) e
      ∙ find_where-append (is_assignment_of tenant test recipient) rows' more a.row a.found in
    rw (found, a.variant) refl
