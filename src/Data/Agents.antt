-- ===== src/Data/Agents.antt =====
-- The agent rows of a tenant, which are created when they are first needed:
-- `ensure_distribution_agent`, `ensure_content_creator_agent` and `_ensure_orchestrator_agent`. The look-up
-- takes the first agent of the kind; a second one, at which `scalar_one_or_none` raises, is not modelled.
use marketing_agentic_system.Common.{
  ℕ, ◌+◌, String, Bool, Option, none, some, [], ◌∷◌, ◌++◌, ◌==◌, ◌&&◌, find_where, ◌≡◌, refl,
}
use marketing_agentic_system.Data.{Db, Agent, AgentKind}

-- The enum's position, by which two kinds are compared.
abbrev kind_index : AgentKind → ℕ
kind_index AgentKind.orchestrator = 0
kind_index AgentKind.campaign_strategist = 1
kind_index AgentKind.audience_targeting = 2
kind_index AgentKind.content_creator = 3
kind_index AgentKind.approval_orchestrator = 4
kind_index AgentKind.channel_distribution = 5
kind_index AgentKind.analytics_optimisation = 6

is_agent_of : ℕ → AgentKind → Agent → Bool
is_agent_of tenant kind a = (a.tenant_id == tenant) && (kind_index a.agent_type == kind_index kind)

existing_or_new : AgentKind → String → Db → ℕ → Option Agent → Db × Agent
existing_or_new kind name db tenant (some existing) = (db, existing)
existing_or_new kind name db tenant none =
    let agent : Agent = record {
      id = db.next_id;
      tenant_id = tenant;
      name = name;
      agent_type = kind;
    } in
    (record db { agents = db.agents ++ (agent ∷ []); next_id = db.next_id + 1 }, agent)

ensure_agent : AgentKind → String → Db → ℕ → Db × Agent
unfolding is_agent_of existing_or_new
ensure_agent kind name db tenant =
    existing_or_new kind name db tenant (find_where (is_agent_of tenant kind) db.agents)

unfoldable pub ensure_distribution_agent : Db → ℕ → Db × Agent
unfolding ensure_agent
ensure_distribution_agent = ensure_agent AgentKind.channel_distribution "Channel Distribution"

unfoldable pub ensure_content_creator_agent : Db → ℕ → Db × Agent
unfolding ensure_agent
ensure_content_creator_agent = ensure_agent AgentKind.content_creator "Content Creator"

unfoldable pub ensure_orchestrator_agent : Db → ℕ → Db × Agent
unfolding ensure_agent
ensure_orchestrator_agent = ensure_agent AgentKind.orchestrator "Marketing Orchestrator"

existing_or_new-assets :
    (kind : AgentKind) (name : String) (db : Db) (tenant : ℕ) (o : Option Agent)
    → (existing_or_new kind name db tenant o).0.assets ≡ db.assets
unfolding existing_or_new
existing_or_new-assets kind name db tenant none = refl
existing_or_new-assets kind name db tenant (some a) = refl

-- Creating the agent leaves the assets alone.
pub ensure_distribution_agent-assets :
    (db : Db) (tenant : ℕ) → (ensure_distribution_agent db tenant).0.assets ≡ db.assets
unfolding ensure_distribution_agent
ensure_distribution_agent-assets db tenant =
    existing_or_new-assets AgentKind.channel_distribution "Channel Distribution" db tenant _

existing_or_new-campaigns :
    (kind : AgentKind) (name : String) (db : Db) (tenant : ℕ) (o : Option Agent)
    → (existing_or_new kind name db tenant o).0.campaigns ≡ db.campaigns
unfolding existing_or_new
existing_or_new-campaigns kind name db tenant none = refl
existing_or_new-campaigns kind name db tenant (some a) = refl

-- Creating the agent leaves the assets and the campaigns alone.
pub ensure_content_creator_agent_kept :
    (db : Db) (tenant : ℕ)
    → let db' = (ensure_content_creator_agent db tenant).0 in
      (db'.assets ≡ db.assets) × (db'.campaigns ≡ db.campaigns)
unfolding ensure_content_creator_agent
ensure_content_creator_agent_kept db tenant = (
  existing_or_new-assets AgentKind.content_creator "Content Creator" db tenant _,
  existing_or_new-campaigns AgentKind.content_creator "Content Creator" db tenant _,
)
