-- ===== src/AbTesting.antt =====
-- app/ab_testing/assignment.py: which variant of an A/B test a recipient sees. The hash is an argument.
-- A key of `traffic_split` is taken to be a variant's id, and the order of the ids as that of their
-- texts; a value is none if `int` refuses it, and 0 if it is not positive.
pub mod Buckets
pub mod Assigned
pub mod Stable
use marketing_agentic_system.Common.{
  ℕ, ◌+◌, ◌%◌, String, Bool, true, false, ◌&&◌, Option, none, some, List, [], ◌∷◌, ◌++◌, ltb, leb,
  ◌==◌, if◌then◌else◌, get_or_else, str_eq, find_where,
}
use marketing_agentic_system.Data.{Result, ok, err, Error, exception, ◌>>=◌}

pub data AbTestStatus : Type 0 where
  designing running significant inconclusive stopped : AbTestStatus

pub record AbTest : Type 0 where
  pub id : ℕ
  pub tenant_id : ℕ
  pub status : AbTestStatus
  pub variant_a_id : Option ℕ
  pub variant_b_id : Option ℕ
  pub traffic_split : Option (List (ℕ × Option ℕ))

pub record AbTestAssignment : Type 0 where
  pub tenant_id : ℕ
  pub ab_test_id : ℕ
  pub audience_external_id : String
  pub variant_id : ℕ

abbrev pub assignment_error : Error
assignment_error = exception "AbTestAssignmentError"

-- Variants and their weights.
abbrev pub Split : Type 0
Split = List (ℕ × ℕ)

unfoldable pub keep_weight : ℕ → ℕ → Split → Split
keep_weight variant weight out = if weight == 0 then out else (variant, weight) ∷ out

unfoldable pub coerce_items : List (ℕ × Option ℕ) → Result Split
coerce_items [] = ok []
coerce_items ((variant, none) ∷ rest) = err assignment_error
coerce_items ((variant, some weight) ∷ rest) =
    coerce_items rest >>= λ out. ok (keep_weight variant weight out)

-- _coerce_split
unfoldable pub coerce_split : Option (List (ℕ × Option ℕ)) → Result Split
coerce_split none = err assignment_error
coerce_split (some items) = coerce_items items

-- sum(split.values())
abbrev pub total_weight : Split → ℕ
total_weight [] = 0
total_weight ((variant, weight) ∷ rest) = weight + total_weight rest

abbrev pub insert_sorted : ℕ → ℕ → Split → Split
insert_sorted variant weight [] = (variant, weight) ∷ []
insert_sorted variant weight ((v, w) ∷ rest) =
    if leb variant v
    then (variant, weight) ∷ (v, w) ∷ rest
    else (v, w) ∷ insert_sorted variant weight rest

-- sorted(split.items())
abbrev pub sorted_items : Split → Split
sorted_items [] = []
sorted_items ((variant, weight) ∷ rest) = insert_sorted variant weight (sorted_items rest)

-- The loop over the cumulative weights; none if it falls off the end.
abbrev pub find_bucket : ℕ → ℕ → Split → Option ℕ
find_bucket bucket cumulative [] = none
find_bucket bucket cumulative ((variant, weight) ∷ rest) =
    if ltb bucket (cumulative + weight)
    then some variant
    else find_bucket bucket (cumulative + weight) rest

abbrev pub last_variant : ℕ → Split → ℕ
last_variant default [] = default
last_variant default ((variant, weight) ∷ rest) = last_variant variant rest

-- The first eight bytes of blake2b of "{test}:{recipient}", as a number.
abbrev pub Hash : Type 0
Hash = ℕ → String → ℕ

unfoldable pub pick_variant_index : Hash → ℕ → String → Split → Result ℕ
pick_variant_index hash ab_test_id audience_external_id [] = err assignment_error
pick_variant_index hash ab_test_id audience_external_id (item ∷ rest) =
    let split = item ∷ rest in
    if total_weight split == 0
    then err assignment_error
    else ok (
        get_or_else
          (find_bucket (hash ab_test_id audience_external_id % total_weight split) 0
            (sorted_items split))
          (last_variant 0 (sorted_items split)))

abbrev pub AssignmentTable : Type 0
AssignmentTable = List AbTestAssignment

unfoldable pub is_assignment_of : ℕ → ℕ → String → AbTestAssignment → Bool
is_assignment_of tenant_id ab_test_id audience_external_id x =
    (x.tenant_id == tenant_id)
    && (x.ab_test_id == ab_test_id)
    && str_eq x.audience_external_id audience_external_id

-- INSERT ... ON CONFLICT DO NOTHING, then the second read of the row.
unfoldable pub persisted :
    AssignmentTable → AbTestAssignment → Option AbTestAssignment → AssignmentTable × ℕ
persisted rows x (some racer) = (rows, racer.variant_id)
persisted rows x none = (rows ++ (x ∷ []), x.variant_id)

unfoldable pub insert_assignment : AssignmentTable → AbTestAssignment → AssignmentTable × ℕ
insert_assignment rows x =
    persisted rows x
      (find_where (is_assignment_of x.tenant_id x.ab_test_id x.audience_external_id) rows)

unfoldable pub assign_new :
    Hash
    → (AssignmentTable → AssignmentTable)
    → AssignmentTable
    → ℕ
    → ℕ
    → String
    → Option AbTest
    → Result (AssignmentTable × ℕ)
assign_new hash racers rows tenant_id ab_test_id audience_external_id none = err assignment_error
assign_new hash racers rows tenant_id ab_test_id audience_external_id (some test) = do
  split ← coerce_split test.traffic_split
  variant_id ← pick_variant_index hash ab_test_id audience_external_id split
  ok (
      insert_assignment (racers rows) (record {
        tenant_id = tenant_id;
        ab_test_id = ab_test_id;
        audience_external_id = audience_external_id;
        variant_id = variant_id;
      }))

unfoldable pub assign_read :
    Hash
    → (AssignmentTable → AssignmentTable)
    → List AbTest
    → AssignmentTable
    → ℕ
    → ℕ
    → String
    → Option AbTestAssignment
    → Result (AssignmentTable × ℕ)
assign_read hash racers tests rows tenant_id ab_test_id audience_external_id (some existing) =
    ok (rows, existing.variant_id)
assign_read hash racers tests rows tenant_id ab_test_id audience_external_id none =
    assign_new hash racers rows tenant_id ab_test_id audience_external_id
      (find_where (λ (t : AbTest). (t.id == ab_test_id) && (t.tenant_id == tenant_id)) tests)

-- `racers` is what other workers commit between the first read and the insert.
unfoldable pub assign_variant :
    Hash
    → (AssignmentTable → AssignmentTable)
    → List AbTest
    → AssignmentTable
    → ℕ
    → ℕ
    → String
    → Result (AssignmentTable × ℕ)
assign_variant hash racers tests rows tenant_id ab_test_id audience_external_id =
    assign_read hash racers tests rows tenant_id ab_test_id audience_external_id
      (find_where (is_assignment_of tenant_id ab_test_id audience_external_id) rows)
