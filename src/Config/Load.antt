-- ===== src/Config/Load.antt =====
-- internal/config/config.go: reading the settings from the environment, and which are refused.
pub mod Safe
use ai_self_service.Prelude.{
  ℕ, String, concat, Bool, true, false, not, ◌&&◌, ◌||◌, Option, none, some, List, [], ◌∷◌, ◌==◌,
  ltb, leb, str_eq, if◌then◌else◌,
}
use ai_self_service.Database.Models.{Time}
use ai_self_service.Config.{Config}

-- What the operator set, and Go's functions that read a text. A number is the 64-bit pattern of an
-- int64; `Addr` and `Prefix` are those of net/netip.
pub record Environment : Type 1 where
  pub getenv : String → String
  pub trim_space : String → String
  pub parse_bool : String → Option Bool
  pub fields : String → List String
  pub atoi : String → Option ℕ
  pub parse_duration : String → Option ℕ
  pub split_commas : String → List String
  -- strings.EqualFold(s, "none")
  pub is_none : String → Bool
  -- the code points of a text
  pub runes : String → List ℕ
  -- the scheme of a URL that parses
  pub scheme : String → Option String
  pub Addr : Type 0
  pub Prefix : Type 0
  pub parse_prefix : String → Option Prefix
  pub parse_addr : String → Option Addr
  pub zone : Addr → String
  pub unmap : Addr → Addr
  -- netip.PrefixFrom(a, a.BitLen())
  pub whole : Addr → Prefix
  pub masked : Prefix → Prefix
  -- os.ReadFile
  pub read_file : String → Option String

pub data Refusal : Type 0 where
  -- `requireEnv` ends the program
  unset : String → Refusal
  bad_value : String → Refusal
  claim_without_group : Refusal

pub data Loaded (A : Type 0) : Type 0 where
  loaded : A → Loaded A
  refused : Refusal → Loaded A

infixl 5 ◌>>=◌
unfoldable pub ◌>>=◌ : {A B : Type 0} → Loaded A → (A → Loaded B) → Loaded B
loaded a >>= f = f a
refused r >>= f = refused r

-- What `Load` fills in, beside what `Config` has.
pub record Settings : Type 0 where
  pub config : Config
  pub litellm_base_url : String
  pub litellm_master_key : String
  pub oidc_issuer_url : String
  pub oidc_client_id : String
  pub oidc_client_secret : String
  pub oidc_redirect_url : String
  pub oidc_extra_scopes : List String
  pub frontend_url : String
  pub db_path : String
  pub smtp_host : String
  pub smtp_from : String
  pub smtp_username : String
  pub smtp_password : String
  pub metrics_token : String
  pub listen_addr : String
  pub budget_unit : String
  pub obsolete_settings : List String
  pub cookie_secure : Bool
  pub session_duration : ℕ
  pub usage_history_days : ℕ
  pub limit_sync_workers : ℕ
  pub limit_sync_interval : ℕ
  pub key_missing_grace_period : ℕ
  pub privacy_notice_de : String
  pub privacy_notice_en : String

-- `v < 1` and `v <= 0`
abbrev pub not_positive : ℕ → Bool
not_positive v = v == 0 || leb 0x8000000000000000 v

-- The loop of `validUserIDPrefix`.
unfoldable pub is_prefix_rune : ℕ → Bool
is_prefix_rune r =
    leb 97 r && leb r 122
    || leb 65 r && leb r 90
    || leb 48 r && leb r 57
    || r == 45
    || r == 95
    || r == 46

unfoldable pub valid_user_id_prefix : List ℕ → Bool
unfolding is_prefix_rune
valid_user_id_prefix [] = true
valid_user_id_prefix (r ∷ rs) = is_prefix_rune r && valid_user_id_prefix rs

abbrev pub default_trusted_proxies : List String
default_trusted_proxies =
    "127.0.0.0/8" ∷ "::1/128" ∷ "10.0.0.0/8" ∷ "172.16.0.0/12" ∷ "192.168.0.0/16" ∷ "fc00::/7" ∷ []

abbrev pub obsolete_names : List String
obsolete_names = "ADMIN_IDS" ∷ "ADMIN_EMAILS" ∷ "ADMIN_ROLE" ∷ "COOKIE_SECURE" ∷ []

-- `requireEnv`
unfoldable pub require : String → String → Loaded String
require key v = if str_eq v "" then refused (unset key) else loaded v

abbrev pub or_default : String → String → String
or_default v def = if str_eq v "" then def else v

-- A number or a duration that has to be above zero.
unfoldable pub positive : String → Option ℕ → Loaded ℕ
positive key none = refused (bad_value key)
positive key (some v) = if not_positive v then refused (bad_value key) else loaded v

unfoldable pub parsed : {A : Type 0} → String → Option A → Loaded A
parsed key none = refused (bad_value key)
parsed key (some v) = loaded v

unfoldable pub group_claim : String → String → Loaded String
group_claim group claim =
    if not (str_eq claim "") && str_eq group ""
    then refused claim_without_group
    else loaded (if str_eq claim "" then "groups" else claim)

module _ (e : Environment) where
  -- `envOr`
  unfoldable pub env_or : String → String → String
  env_or key def = or_default (e.getenv key) def

  -- One entry of the list of proxies.
  unfoldable pub single_address : Option e.Addr → Option e.Prefix
  single_address none = none
  single_address (some a) = if str_eq (e.zone a) "" then some (e.whole (e.unmap a)) else none

  unfoldable pub proxy_entry : String → Option e.Prefix → Option e.Prefix
  unfolding single_address
  proxy_entry s (some p) = some (e.masked p)
  proxy_entry s none = elim (single_address (e.parse_addr s)) [
    | none ↦ none
    | some p ↦ some (e.masked p)
  ]

  unfoldable pub add_proxy : Option e.Prefix → Loaded (List e.Prefix) → Loaded (List e.Prefix)
  add_proxy none rest = refused (bad_value "TRUSTED_PROXIES")
  add_proxy (some p) rest = do ps ← rest; loaded (p ∷ ps)

  unfoldable pub proxy_entries : List String → Loaded (List e.Prefix)
  unfolding proxy_entry add_proxy
  proxy_entries [] = loaded []
  proxy_entries (s ∷ ss) =
      let rest = proxy_entries ss in
      let t = e.trim_space s in
      if str_eq t "" then rest else add_proxy (proxy_entry t (e.parse_prefix t)) rest

  -- `parseTrustedProxies`
  unfoldable pub parse_trusted_proxies : String → Loaded (List e.Prefix)
  unfolding proxy_entries
  parse_trusted_proxies raw =
      let t = e.trim_space raw in
      if e.is_none t
      then loaded []
      else proxy_entries (if str_eq t "" then default_trusted_proxies else e.split_commas t)

  unfoldable pub notice_text : String → Option String → Loaded String
  notice_text key none = refused (bad_value key)
  notice_text key (some text) =
      if str_eq (e.trim_space text) "" then refused (bad_value key) else loaded text

  -- `readNotice`
  unfoldable pub read_notice : String → Loaded String
  unfolding notice_text
  read_notice key =
      let path = e.trim_space (e.getenv key) in
      if str_eq path "" then loaded "" else notice_text key (e.read_file path)

  -- The settings of an older version that are still set.
  unfoldable pub set_names : List String → List String
  set_names [] = []
  set_names (n ∷ ns) =
      let rest = set_names ns in if str_eq (e.trim_space (e.getenv n)) "" then rest else n ∷ rest

  unfoldable pub is_https : Option String → Bool
  is_https none = false
  is_https (some s) = str_eq s "https"

  unfoldable pub user_id_prefix : String → Loaded String
  unfolding valid_user_id_prefix
  user_id_prefix p =
      if valid_user_id_prefix (e.runes p)
      then loaded p
      else refused (bad_value "LITELLM_USER_ID_PREFIX")

  -- `Load`
  unfoldable pub load : Loaded (Settings × List e.Prefix)
  unfolding require env_or user_id_prefix parsed group_claim positive parse_trusted_proxies
      read_notice set_names is_https
  load = do
    base_url ← require "LITELLM_BASE_URL" (e.getenv "LITELLM_BASE_URL")
    master_key ← require "LITELLM_MASTER_KEY" (e.getenv "LITELLM_MASTER_KEY")
    issuer ← require "OIDC_ISSUER_URL" (e.getenv "OIDC_ISSUER_URL")
    client_id ← require "OIDC_CLIENT_ID" (e.getenv "OIDC_CLIENT_ID")
    client_secret ← require "OIDC_CLIENT_SECRET" (e.getenv "OIDC_CLIENT_SECRET")
    redirect_url ← require "OIDC_REDIRECT_URL" (e.getenv "OIDC_REDIRECT_URL")
    frontend ← require "FRONTEND_URL" (e.getenv "FRONTEND_URL")
    prefix ← user_id_prefix (e.trim_space (e.getenv "LITELLM_USER_ID_PREFIX"))
    user_email ← parsed "LITELLM_USER_EMAIL" (e.parse_bool (env_or "LITELLM_USER_EMAIL" "false"))
    let group = e.trim_space (e.getenv "ADMIN_GROUP")
    claim ← group_claim group (e.trim_space (e.getenv "ADMIN_GROUP_CLAIM"))
    session ← parsed "SESSION_DURATION" (e.parse_duration (env_or "SESSION_DURATION" "24h"))
    history ← positive "USAGE_HISTORY_DAYS" (e.atoi (env_or "USAGE_HISTORY_DAYS" "30"))
    days ← parsed "KEY_DURATION_DAYS" (e.atoi (env_or "KEY_DURATION_DAYS" "90"))
    workers ← positive "LIMIT_SYNC_WORKERS" (e.atoi (env_or "LIMIT_SYNC_WORKERS" "1"))
    interval ← positive "LIMIT_SYNC_INTERVAL" (e.parse_duration (env_or "LIMIT_SYNC_INTERVAL" "5m"))
    grace ←
        positive "KEY_MISSING_GRACE_PERIOD"
          (e.parse_duration (env_or "KEY_MISSING_GRACE_PERIOD" "24h"))
    proxies ← parse_trusted_proxies (e.getenv "TRUSTED_PROXIES")
    notice_de ← read_notice "PRIVACY_NOTICE_FILE_DE"
    notice_en ← read_notice "PRIVACY_NOTICE_FILE_EN"
    loaded (
      record {
        config = record {
          key_duration_days = days;
          litellm_user_id_prefix = prefix;
          litellm_user_email = user_email;
          admin_group = group;
          admin_group_claim = claim;
          successor_url = e.trim_space (e.getenv "SUCCESSOR_URL");
        };
        litellm_base_url = base_url;
        litellm_master_key = master_key;
        oidc_issuer_url = issuer;
        oidc_client_id = client_id;
        oidc_client_secret = client_secret;
        oidc_redirect_url = redirect_url;
        oidc_extra_scopes = e.fields (e.getenv "OIDC_EXTRA_SCOPES");
        frontend_url = frontend;
        db_path = env_or "DB_PATH" "./data.db";
        smtp_host = e.getenv "SMTP_HOST";
        smtp_from = env_or "SMTP_FROM" "noreply@example.com";
        smtp_username = e.getenv "SMTP_USERNAME";
        smtp_password = e.getenv "SMTP_PASSWORD";
        metrics_token = e.trim_space (e.getenv "METRICS_TOKEN");
        listen_addr = env_or "LISTEN_ADDR" ":8080";
        budget_unit = env_or "BUDGET_UNIT" "$";
        obsolete_settings = set_names obsolete_names;
        cookie_secure = is_https (e.scheme redirect_url);
        session_duration = session;
        usage_history_days = history;
        limit_sync_workers = workers;
        limit_sync_interval = interval;
        key_missing_grace_period = grace;
        privacy_notice_de = notice_de;
        privacy_notice_en = notice_en;
      },
      proxies,
    )
