-- ===== src/Config/Load/Safe.antt =====
-- internal/config/config.go: what holds of the settings that are accepted.
use ai_self_service.Prelude.{ℕ, ◌<◌, true, false, ◌≡◌, str_eq}
use ai_self_service.Config.Load.{Environment, Loaded, loaded, Settings, valid_user_id_prefix}

-- What is loaded has a property.
record Gives {A : Type 0} (m : Loaded A) (Q : A → Type 0) : Type 0 where
  at : (a : A) → m ≡ loaded a → Q a

-- A number that is above zero as an int64.
abbrev pub IsPositive : ℕ → Type 0
IsPositive v = (0 < v) × (v < 0x8000000000000000)

-- Settings that the program can run with.
pub record IsSafe (e : Environment) (s : Settings) : Type 0 where
  pub secrets :
      (str_eq s.litellm_base_url "" ≡ false)
      × (str_eq s.litellm_master_key "" ≡ false)
      × (str_eq s.oidc_issuer_url "" ≡ false)
      × (str_eq s.oidc_client_id "" ≡ false)
      × (str_eq s.oidc_client_secret "" ≡ false)
      × (str_eq s.oidc_redirect_url "" ≡ false)
      × (str_eq s.frontend_url "" ≡ false)
  pub prefix : valid_user_id_prefix (e.runes s.config.litellm_user_id_prefix) ≡ true
  pub claim : str_eq s.config.admin_group_claim "" ≡ false
  pub history : IsPositive s.usage_history_days
  pub workers : IsPositive s.limit_sync_workers
  pub interval : IsPositive s.limit_sync_interval
  pub grace : IsPositive s.key_missing_grace_period
