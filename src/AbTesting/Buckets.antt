-- ===== src/AbTesting/Buckets.antt =====
-- The bucket that `pick_variant_index` of app/ab_testing/assignment.py finds.
use marketing_agentic_system.Common.{
  ℕ, ◌+◌, ◌%◌, ◌≤◌, ◌<◌, ◌≡◌, refl, ap, String, false, some, [], ◌∷◌, ◌++◌, arith, inl, inr,
  Bool-cases, ltb, ◌==◌,
}
use marketing_agentic_system.Data.{ok}
use marketing_agentic_system.AbTesting.{
  Split, total_weight, insert_sorted, sorted_items, find_bucket, Hash, pick_variant_index,
}

-- The variant `v` owns the bucket: its weight covers it in the order of the variants.
pub record Owns (split : Split) (bucket v : ℕ) : Type 0 where
  pub before : Split
  pub weight : ℕ
  pub after : Split
  pub place : split ≡ before ++ ((v, weight) ∷ after)
  pub above : total_weight before ≤ bucket
  pub below : bucket < total_weight before + weight

insert_sorted-total :
    (v w : ℕ) (s : Split) → total_weight (insert_sorted v w s) ≡ w + total_weight s
insert_sorted-total v w [] = refl
insert_sorted-total v w ((u, x) ∷ rest) = let i = insert_sorted-total v w rest in ground arith

sorted_items-total : (s : Split) → total_weight (sorted_items s) ≡ total_weight s
sorted_items-total [] = refl
sorted_items-total ((v, w) ∷ rest) =
    let i = sorted_items-total rest in
    let j = insert_sorted-total v w (sorted_items rest) in omega arith

-- The loop with the weights that it has passed.
record Found (split : Split) (bucket passed : ℕ) : Type 0 where
  variant : ℕ
  found : find_bucket bucket passed split ≡ some variant
  before : Split
  weight : ℕ
  after : Split
  place : split ≡ before ++ ((variant, weight) ∷ after)
  above : passed + total_weight before ≤ bucket
  below : bucket < passed + total_weight before + weight

find_bucket-Found :
    (split : Split) (bucket passed : ℕ)
    → passed ≤ bucket
    → bucket < passed + total_weight split
    → Found split bucket passed
find_bucket-Found [] bucket passed h l = absurd (omega arith)
find_bucket-Found ((v, w) ∷ rest) bucket passed h l = elim (Bool-cases (ltb bucket (passed + w))) [
  | inl t ↦ record {
    variant = v;
    found = rw t refl;
    before = [];
    weight = w;
    after = rest;
    place = refl;
    above = omega arith;
    below = ground arith;
  }
  | inr f ↦
      let next = find_bucket-Found rest bucket (passed + w) (ground arith) (omega arith) in
      let a = next.above in
      let b = next.below in
      record {
        variant = next.variant;
        found = rw f next.found;
        before = (v, w) ∷ next.before;
        weight = next.weight;
        after = next.after;
        place = ap (λ l. (v, w) ∷ l) next.place;
        above = omega arith;
        below = omega arith;
      }
]

mod-lt : (a b : ℕ) → 1 ≤ b → a % b < b
mod-lt a b h = omega arith

-- If the weights are not all 0, a variant is picked: the one that owns the bucket of the recipient's
-- hash when the variants, in the order of their ids, share out the buckets by their weights. So the
-- fallback after the loop is never used.
pub pick_variant_index-Owns :
    (hash : Hash) (test : ℕ) (recipient : String) (split : Split)
    → 1 ≤ total_weight split
    → (v : ℕ) × (pick_variant_index hash test recipient split ≡ ok v)
      × Owns (sorted_items split) (hash test recipient % total_weight split) v
unfolding pick_variant_index
pick_variant_index-Owns hash test recipient [] h = absurd (omega arith)
pick_variant_index-Owns hash test recipient (item ∷ rest) h =
    let split = item ∷ rest in
    let bucket = hash test recipient % total_weight split in
    let m = mod-lt (hash test recipient) (total_weight split) h in
    let s = sorted_items-total split in
    let f = find_bucket-Found (sorted_items split) bucket 0 (omega arith) (omega arith) in
    let z = not_zero (total_weight split) h in
    let a = f.above in
    let b = f.below in
    (
      f.variant,
      rw (z, f.found) refl,
      record {
        before = f.before;
        weight = f.weight;
        after = f.after;
        place = f.place;
        above = omega arith;
        below = omega arith;
      },
    )
  where
    not_zero : (n : ℕ) → 1 ≤ n → (n == 0) ≡ false
    not_zero n h = ground arith
