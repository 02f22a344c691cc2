-- ===== src/Tests/Settings.antt =====
-- The theorem about the settings, at those of a small deployment.
use ai_self_service.Prelude.{String, true, none, some, [], ◌∷◌, str_eq, if◌then◌else◌}
use ai_self_service.Config.Load.{Environment, Settings, Loaded}

abbrev value : String → String
value key =
    if str_eq key "ADMIN_GROUP"
    then "staff"
    else if str_eq key "TRUSTED_PROXIES"
    then "none"
    else if str_eq key "PRIVACY_NOTICE_FILE_DE"
    then ""
    else if str_eq key "PRIVACY_NOTICE_FILE_EN"
    then ""
    else if str_eq key "ADMIN_GROUP_CLAIM"
    then ""
    else "set"

-- Every number is 30, and every text as it was written.
abbrev deployment : Environment
deployment = record {
  getenv = value;
  trim_space = λ s. s;
  parse_bool = λ s. some true;
  fields = λ s. s ∷ [];
  atoi = λ s. some 30;
  parse_duration = λ s. some 300;
  split_commas = λ s. s ∷ [];
  is_none = λ s. str_eq s "none";
  runes = λ s. 115 ∷ 101 ∷ 116 ∷ [];
  scheme = λ s. some "https";
  Addr = String;
  Prefix = String;
  parse_prefix = λ s. some s;
  parse_addr = λ s. some s;
  zone = λ a. "";
  unmap = λ a. a;
  whole = λ a. a;
  masked = λ p. p;
  read_file = λ s. none;
}

abbrev in_force : Settings
in_force = record {
  config = record {
    key_duration_days = 30;
    litellm_user_id_prefix = "set";
    litellm_user_email = true;
    admin_group = "staff";
    admin_group_claim = "groups";
    successor_url = "set";
  };
  litellm_base_url = "set";
  litellm_master_key = "set";
  oidc_issuer_url = "set";
  oidc_client_id = "set";
  oidc_client_secret = "set";
  oidc_redirect_url = "set";
  oidc_extra_scopes = "set" ∷ [];
  frontend_url = "set";
  db_path = "set";
  smtp_host = "set";
  smtp_from = "set";
  smtp_username = "set";
  smtp_password = "set";
  metrics_token = "set";
  listen_addr = "set";
  budget_unit = "set";
  obsolete_settings = "ADMIN_IDS" ∷ "ADMIN_EMAILS" ∷ "ADMIN_ROLE" ∷ "COOKIE_SECURE" ∷ [];
  cookie_secure = true;
  session_duration = 300;
  usage_history_days = 30;
  limit_sync_workers = 30;
  limit_sync_interval = 300;
  key_missing_grace_period = 300;
  privacy_notice_de = "";
  privacy_notice_en = "";
}
