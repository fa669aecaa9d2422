-- ===== src/Content.antt =====
-- app/agents/_content_planner.py and app/agents/_variants.py: what the content creator makes of a
-- touchpoint's platform, and how many variants of it.
pub mod Variants
use marketing_agentic_system.Common.{
  ℕ, zero, suc, ◌+◌, ◌-◌, String, Bool, true, false, ◌||◌, Option, none, some, List, [], ◌∷◌, ltb,
  ◌==◌, if◌then◌else◌, str_eq, is_some, get_or_else, length, min, max, find_where,
}
use marketing_agentic_system.Common.Text.{clean}
use marketing_agentic_system.Data.{AssetType, Result, ok, err, exception}
use marketing_agentic_system.EmailDispatch.Footer.{is_empty}

pub record AssetPlan : Type 0 where
  pub asset_type : AssetType
  pub tool_channel : String
  pub requires_seo : Bool

-- _PLATFORM_TO_ASSET_TYPE
abbrev pub platform_to_asset_type : List (String × AssetType)
platform_to_asset_type =
    ("email", AssetType.email)
    ∷ ("linkedin", AssetType.social_post)
    ∷ ("x", AssetType.social_post)
    ∷ ("meta", AssetType.social_post)
    ∷ ("instagram", AssetType.social_post)
    ∷ ("google_ads", AssetType.ad_creative)
    ∷ ("meta_ads", AssetType.ad_creative)
    ∷ ("web", AssetType.landing_page_copy)
    ∷ ("blog", AssetType.blog_post)
    ∷ ("sms", AssetType.sms)
    ∷ []

-- _ASSET_TYPE_TO_TOOL_CHANNEL and its look-up: the pair of type and platform, then the type alone, then
-- the platform.
unfoldable pub tool_channel_for : AssetType → String → String
tool_channel_for AssetType.email platform = "email"
tool_channel_for AssetType.social_post platform =
    if str_eq platform "meta" || str_eq platform "instagram" then "social_post" else platform
tool_channel_for AssetType.ad_creative platform =
    if str_eq platform "google_ads" || str_eq platform "meta_ads" then "ad_creative" else platform
tool_channel_for AssetType.blog_post platform = "blog_post"
tool_channel_for AssetType.landing_page_copy platform = "landing_page_copy"
tool_channel_for AssetType.sms platform = "sms"
tool_channel_for AssetType.push platform = platform
tool_channel_for AssetType.linkedin_dm platform = platform

-- _SEO_ASSET_TYPES
unfoldable pub is_seo_type : AssetType → Bool
is_seo_type AssetType.blog_post = true
is_seo_type AssetType.landing_page_copy = true
is_seo_type _ = false

unfoldable pub plan_of : String → Option (String × AssetType) → Result AssetPlan
unfolding tool_channel_for is_seo_type
plan_of platform none = err (exception "PlannerError")
plan_of platform (some entry) = ok (record {
  asset_type = entry.1;
  tool_channel = tool_channel_for entry.1 platform;
  requires_seo = is_seo_type entry.1;
})

unfoldable pub plan_for_platform : String → Result AssetPlan
unfolding plan_of
plan_for_platform platform =
    plan_of (clean platform)
      (find_where (λ (e : String × AssetType). str_eq e.0 (clean platform)) platform_to_asset_type)

abbrev pub max_variants : ℕ
max_variants = 5

abbrev pub min_variants : ℕ
min_variants = 2

pub record AbTestSpec : Type 0 where
  pub channel : String
  pub variants : ℕ

-- An entry of the payload's `ab_tests`: its `variants` as `int` reads them, none if it refuses; a
-- negative number counts as 0.
pub data RawSpec : Type 0 where
  other : RawSpec
  entry : (channel : String) (variants : Option ℕ) → RawSpec

unfoldable pub clamped : Option ℕ → ℕ
clamped variants = max min_variants (min max_variants (get_or_else variants min_variants))

-- parse_ab_test_specs
unfoldable pub parse_ab_test_specs : List RawSpec → List AbTestSpec
unfolding clamped
parse_ab_test_specs [] = []
parse_ab_test_specs (other ∷ rest) = parse_ab_test_specs rest
parse_ab_test_specs (entry channel variants ∷ rest) =
    let more = parse_ab_test_specs rest in
    if is_empty (clean channel)
    then more
    else record { channel = clean channel; variants = clamped variants } ∷ more

abbrev pub variant_angles : List String
variant_angles =
    "lead with social proof — cite customer outcomes or peer adoption"
    ∷ "lead with risk reduction — emphasise safety, support, guarantees you can defend"
    ∷ "lead with novelty — frame it as something the reader hasn't seen before"
    ∷ "lead with urgency — give a concrete reason to act this week, not next quarter"
    ∷ "lead with savings — quantify the time or money the reader gets back" ∷ []

-- The angle at an index of a list, or its last angle past the end (`last` where the list is empty).
unfoldable pub angle_at : ℕ → List String → String → String
angle_at n [] last = last
angle_at zero (a ∷ rest) last = a
angle_at (suc n) (a ∷ rest) last = angle_at n rest a

unfoldable pub angle_for_index : ℕ → String
unfolding angle_at
angle_for_index zero = ""
angle_for_index (suc i) = angle_at i variant_angles ""
