-- ===== src/Content/Variants.antt =====
-- How many variants `parse_ab_test_specs` of app/agents/_variants.py asks for.
use marketing_agentic_system.Common.{
  ◌≤◌, ◌≡◌, false, List, [], ◌∷◌, arith, inl, inr, Bool-cases, All,
}
use marketing_agentic_system.Common.Text.{clean, clean_idem}
use marketing_agentic_system.EmailDispatch.Footer.{is_empty}
use marketing_agentic_system.Content.{
  AbTestSpec, RawSpec, other, entry, clamped, parse_ab_test_specs, min_variants, max_variants,
}

-- A test that can be seeded: its channel is a cleaned name, and it has two to five variants.
pub record IsSpec (s : AbTestSpec) : Type 0 where
  pub named : is_empty s.channel ≡ false
  pub cleaned : clean s.channel ≡ s.channel
  pub at_least : min_variants ≤ s.variants
  pub at_most : s.variants ≤ max_variants

-- Every test that is read from a proposal is one that can be seeded, whatever its entry says.
pub parse_ab_test_specs-IsSpec : (raw : List RawSpec) → All IsSpec (parse_ab_test_specs raw)
unfolding parse_ab_test_specs clamped
parse_ab_test_specs-IsSpec [] = tt
parse_ab_test_specs-IsSpec (other ∷ rest) = parse_ab_test_specs-IsSpec rest
parse_ab_test_specs-IsSpec (entry channel variants ∷ rest) =
    elim (Bool-cases (is_empty (clean channel))) [
      | inl t ↦ rw t (parse_ab_test_specs-IsSpec rest)
      | inr f ↦ rw f (
        record {
          named = f;
          cleaned = clean_idem channel;
          at_least = omega arith;
          at_most = omega arith;
        },
        parse_ab_test_specs-IsSpec rest,
      )
    ]
