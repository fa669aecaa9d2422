-- ===== src/Examples/Variants.antt =====
-- The theorems on A/B tests (app/ab_testing/assignment.py), at a test with two variants.
use marketing_agentic_system.Common.{ℕ, ◌%◌, ◌≡◌, refl, ap, some, [], ◌∷◌, ◌++◌, arith}
use marketing_agentic_system.Data.{ok}
use marketing_agentic_system.AbTesting.{
  AbTest, AbTestStatus, Split, total_weight, sorted_items, Hash, AssignmentTable,
  pick_variant_index, assign_variant, assign_read, assign_new, coerce_split, coerce_items,
  keep_weight, is_assignment_of, insert_assignment, persisted,
}
use marketing_agentic_system.AbTesting.Buckets.{Owns, pick_variant_index-Owns}
use marketing_agentic_system.AbTesting.Stable.{OnlyAdds, now_on, call, assign_variant_stable}

abbrev sixty_forty : Split
sixty_forty = (12, 60) ∷ (11, 40) ∷ []

abbrev length_hash : Hash
length_hash test recipient = 1045

pick_variant_index-Owns_example :
    (v : ℕ) × (pick_variant_index length_hash 7 "ann" sixty_forty ≡ ok v)
    × Owns (sorted_items sixty_forty) (length_hash 7 "ann" % total_weight sixty_forty) v
pick_variant_index-Owns_example =
    pick_variant_index-Owns length_hash 7 "ann" sixty_forty (omega arith)

abbrev subject_lines : AbTest
subject_lines = record {
  id = 7;
  tenant_id = 1;
  status = AbTestStatus.running;
  variant_a_id = some 11;
  variant_b_id = some 12;
  traffic_split = some ((12, some 60) ∷ (11, some 40) ∷ []);
}

abbrev given : AssignmentTable
given = record { tenant_id = 1; ab_test_id = 7; audience_external_id = "ann"; variant_id = 12 } ∷ []

assigns : assign_variant length_hash (λ r. r) (subject_lines ∷ []) [] 1 7 "ann" ≡ ok (given, 12)
unfolding assign_variant assign_read assign_new coerce_split coerce_items keep_weight
    pick_variant_index insert_assignment persisted
assigns = refl

abbrev given_both : AssignmentTable
given_both =
    given
    ++ (record { tenant_id = 1; ab_test_id = 7; audience_external_id = "bob"; variant_id = 12 }
        ∷ [])

assigns_bob :
    assign_variant length_hash (λ r. r) (subject_lines ∷ []) given 1 7 "bob" ≡ ok (given_both, 12)
unfolding assign_variant assign_read assign_new coerce_split coerce_items keep_weight
    pick_variant_index insert_assignment persisted is_assignment_of
assigns_bob = refl

no_race : OnlyAdds (λ r. r)
no_race rows = ([], kept rows)
  where
    kept : (rows : AssignmentTable) → rows ≡ rows ++ []
    kept [] = refl
    kept (x ∷ rows) = ap (λ l. x ∷ l) (kept rows)

assign_variant_stable_example :
    assign_variant (λ t r. 3) (λ r. r) [] given_both 1 7 "ann" ≡ ok (given_both, 12)
assign_variant_stable_example =
    assign_variant_stable length_hash (λ t r. 3) (λ r. r) (λ r. r) (subject_lines ∷ []) [] [] given
      given_both 1 7 "ann" 12 assigns
      (call length_hash (λ r. r) (subject_lines ∷ []) 1 7 "bob" 12 now_on no_race assigns_bob)
