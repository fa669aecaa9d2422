-- ===== src/AbTesting/Assigned.antt =====
-- What an assignment of app/ab_testing/assignment.py leaves for its recipient.
use marketing_agentic_system.Common.{
  ℕ, ◌≡◌, refl, ap, ◌∙◌, String, Bool, true, Option, none, some, List, [], ◌∷◌, ◌++◌, inl, inr,
  Bool-cases, ==_iff, str_eq_iff, find_where,
}
use marketing_agentic_system.Data.{Result, ok, err, ◌>>=◌}
use marketing_agentic_system.AbTesting.{
  AbTest, AbTestAssignment, Split, Hash, AssignmentTable, coerce_split, pick_variant_index,
  is_assignment_of, persisted, insert_assignment, assign_new, assign_read,
}

-- The table holds an assignment of this recipient, to the variant.
pub record Assigned (rows : AssignmentTable) (tenant test : ℕ) (recipient : String) (v : ℕ)
    : Type 0 where
  pub row : AbTestAssignment
  pub found : find_where (is_assignment_of tenant test recipient) rows ≡ some row
  pub variant : row.variant_id ≡ v

own-key :
    (x : AbTestAssignment)
    → is_assignment_of x.tenant_id x.ab_test_id x.audience_external_id x ≡ true
unfolding is_assignment_of
own-key x =
    let e = (str_eq_iff x.audience_external_id x.audience_external_id).1 refl in
    rw (e, (==_iff x.tenant_id x.tenant_id).1 refl, (==_iff x.ab_test_id x.ab_test_id).1 refl) refl

find_where-added :
    (p : AbTestAssignment → Bool) (rows : AssignmentTable) (x : AbTestAssignment)
    → find_where p rows ≡ none
    → p x ≡ true
    → find_where p (rows ++ (x ∷ [])) ≡ some x
find_where-added p [] x e h = rw h refl
find_where-added p (y ∷ ys) x e h = elim (Bool-cases (p y)) [
  | inl t ↦ cc (rw t at e)
  | inr f ↦ rw f (find_where-added p ys x (rw f at e) h)
]

persisted-Assigned :
    (rows : AssignmentTable) (x : AbTestAssignment) (o : Option AbTestAssignment)
    → find_where (is_assignment_of x.tenant_id x.ab_test_id x.audience_external_id) rows ≡ o
    → Assigned
        (persisted rows x o).0
        x.tenant_id
        x.ab_test_id
        x.audience_external_id
        (persisted rows x o).1
unfolding persisted
persisted-Assigned rows x (some y) e = record { row = y; found = e; variant = refl }
persisted-Assigned rows x none e = record {
  row = x;
  found = find_where-added _ rows x e (own-key x);
  variant = refl;
}

module _ (hash : Hash) (tenant test : ℕ) (recipient : String) where
  picked-Assigned :
      (rows rows' : AssignmentTable) (v : ℕ) (r : Result ℕ)
      → (r >>= λ i. ok (
          insert_assignment rows (record {
            tenant_id = tenant;
            ab_test_id = test;
            audience_external_id = recipient;
            variant_id = i;
          })))
        ≡ ok (rows', v)
      → Assigned rows' tenant test recipient v
  unfolding insert_assignment
  picked-Assigned rows rows' v (err e) h = cc
  picked-Assigned rows rows' v (ok i) h =
      let x : AbTestAssignment = record {
        tenant_id = tenant;
        ab_test_id = test;
        audience_external_id = recipient;
        variant_id = i;
      } in
      let a = persisted-Assigned rows x _ refl in
      let e : insert_assignment rows x ≡ (rows', v) = cc in rw e at a

  split-Assigned :
      (rows rows' : AssignmentTable) (v : ℕ) (r : Result Split)
      → (r >>= λ split. pick_variant_index hash test recipient split >>= λ i. ok (
          insert_assignment rows (record {
            tenant_id = tenant;
            ab_test_id = test;
            audience_external_id = recipient;
            variant_id = i;
          })))
        ≡ ok (rows', v)
      → Assigned rows' tenant test recipient v
  split-Assigned rows rows' v (err e) h = cc
  split-Assigned rows rows' v (ok split) h =
      picked-Assigned rows rows' v (pick_variant_index hash test recipient split) h

  new-Assigned :
      (racers : AssignmentTable → AssignmentTable) (rows rows' : AssignmentTable) (v : ℕ)
      (o : Option AbTest)
      → assign_new hash racers rows tenant test recipient o ≡ ok (rows', v)
      → Assigned rows' tenant test recipient v
  unfolding assign_new
  new-Assigned racers rows rows' v none h = cc
  new-Assigned racers rows rows' v (some t) h =
      split-Assigned (racers rows) rows' v (coerce_split t.traffic_split) h

  pub read-Assigned :
      (racers : AssignmentTable → AssignmentTable) (tests : List AbTest)
      (rows rows' : AssignmentTable) (v : ℕ) (o : Option AbTestAssignment)
      → find_where (is_assignment_of tenant test recipient) rows ≡ o
      → assign_read hash racers tests rows tenant test recipient o ≡ ok (rows', v)
      → Assigned rows' tenant test recipient v
  unfolding assign_read
  read-Assigned racers tests rows rows' v none e h = new-Assigned racers rows rows' v _ h
  read-Assigned racers tests rows rows' v (some x) e h = record {
    row = x;
    found = ap (find_where (is_assignment_of tenant test recipient)) (same_rows h) ∙ e;
    variant = same_variant h;
  }
    where
      same_rows :
          {x v : ℕ} {rows rows' : AssignmentTable}
          → ◌≡◌ {A = Result (AssignmentTable × ℕ)} (ok (rows, x)) (ok (rows', v))
          → rows' ≡ rows
      same_rows h = cc

      same_variant :
          {x v : ℕ} {rows rows' : AssignmentTable}
          → ◌≡◌ {A = Result (AssignmentTable × ℕ)} (ok (rows, x)) (ok (rows', v))
          → x ≡ v
      same_variant h = cc
