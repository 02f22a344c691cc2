-- ===== src/Config.antt =====
-- internal/config/config.go: the settings that decide what the modelled code does, and what is derived
-- from them. Reading them from the environment is left out.
pub mod Load
use ai_self_service.Prelude.{ℕ, String, Bool, not, ◌∷◌, [], concat, str_eq, if◌then◌else◌}
use ai_self_service.Keyprovider.{GatewayUser}

pub record Config : Type 0 where
  pub key_duration_days : ℕ
  pub litellm_user_id_prefix : String
  pub litellm_user_email : Bool
  pub admin_group : String
  pub admin_group_claim : String
  pub successor_url : String

-- `LiteLLMUserID`
unfoldable pub litellm_user_id : Config → String → String
litellm_user_id c sub =
    if str_eq c.litellm_user_id_prefix ""
    then sub
    else concat (c.litellm_user_id_prefix ∷ ":" ∷ sub ∷ [])

-- `LiteLLMUser`
unfoldable pub litellm_user : Config → String → String → String → GatewayUser
unfolding litellm_user_id
litellm_user c sub name email = record {
  id = litellm_user_id c sub;
  name = name;
  email = if c.litellm_user_email then email else "";
}

-- `AdminFromGroups`
unfoldable pub admin_from_groups : Config → Bool
admin_from_groups c = not (str_eq c.admin_group "")
