-- ===== src/Tests/Worlds.antt =====
-- The data that the examples run on.
use ai_self_service.Prelude.{ℕ, ◌+◌, ◌*◌, true, false, none, some, [], ◌∷◌, ◌==◌}
use ai_self_service.Database.Models.{ProfileQuota, Profile, User, ApiKey}
use ai_self_service.Database.Tables.{Db}
use ai_self_service.Database.SyncQueries.{LimitSyncTarget}
use ai_self_service.Exec.{Env, World, created}
use ai_self_service.LimitSync.{Syncer}

-- 10.0 and 2.5
abbrev pub ten : ℕ
ten = 0x4024000000000000

abbrev pub two_and_a_half : ℕ
two_and_a_half = 0x4004000000000000

abbrev pub monthly : ProfileQuota
monthly = record { id = 1; profile_id = 1; budget = ten; period = "30d" }

abbrev pub hourly : ProfileQuota
hourly = record { id = 2; profile_id = 1; budget = two_and_a_half; period = "1h" }

abbrev pub standard : Profile
standard = record {
  id = 1;
  name = "Default";
  description = "";
  models = "m1" ∷ [];
  tpm_limit = some 1000;
  rpm_limit = none;
  max_budget = none;
  budget_duration = none;
  key_duration_days = 365;
  quotas = [];
  is_default = true;
  limits_rev = 4;
  created_at = 1;
  updated_at = 1;
}

abbrev pub research : Profile
research = record standard { id = 2; name = "Research"; is_default = false; limits_rev = 1 }

abbrev pub ada : User
ada = record {
  id = 1;
  oidc_sub = "ada";
  email = "ada@example.org";
  name = "Ada";
  profile_id = none;
  profile = none;
  profile_expires_at = none;
  profile_after_expiry = none;
  revoke_key_at_expiry = true;
  is_admin = false;
  created_at = 1;
  updated_at = 1;
}

abbrev pub ada_key : ApiKey
ada_key = record {
  id = 7;
  user_id = 1;
  key_ref = "ref7";
  key_prefix = "sk-7";
  expires_at = 9000;
  created_at = 1;
  synced_profile_id = some 1;
  synced_rev = some 3;
  synced_owner_name = some "A. L.";
  synced_owner_email = some "ada@example.org";
  sync_error = "";
  sync_failed_at = none;
  missing_since = none;
}

abbrev pub new_key : ApiKey
new_key = record ada_key { id = 0; key_ref = "ref8" }

abbrev pub portal : Db
portal = record {
  profiles = standard ∷ research ∷ [];
  quotas = monthly ∷ hourly ∷ [];
  users = ada ∷ [];
  keys = ada_key ∷ [];
  sessions = [];
  events = [];
  notices = [];
  seqs = record {
    profile_seq = 3;
    quota_seq = 3;
    user_seq = 2;
    key_seq = 8;
    session_seq = 1;
    event_seq = 1;
    notice_seq = 1;
  };
}

abbrev pub empty_portal : Db
empty_portal = record {
  profiles = [];
  quotas = [];
  users = [];
  keys = [];
  sessions = [];
  events = [];
  notices = [];
  seqs = record {
    profile_seq = 1;
    quota_seq = 1;
    user_seq = 1;
    key_seq = 1;
    session_seq = 1;
    event_seq = 1;
    notice_seq = 1;
  };
}

-- Nothing fails, and the clock ticks from 500 on.
abbrev pub calm : Env
calm = record {
  clock = λ t. 500 + t;
  db_fails = λ t. false;
  cancelled = λ t. false;
  gateway = λ t c. none;
  creates = λ t c. created "sk-secret-of-the-new-key" "ref8";
  random_token = λ t. some "token";
  random_hex = λ t. some (97 ∷ 98 ∷ []);
  add_days = λ t n. t + n * 100;
  format_date = λ t. "2026-01-01";
  format_time = λ t. "1 Jan";
  format_duration = λ t. "720h0m0s";
  format_number = λ n. "1";
  format_error = λ e. "error";
}

-- The third question to the database fails.
abbrev pub stormy : Env
stormy = record calm { db_fails = λ t. t == 3 }

abbrev pub world_of : Env → Db → World
world_of e d = record { env = e; db = d; tick = 0; sent = [] }

abbrev pub calm_world : World
calm_world = world_of calm portal

abbrev pub stormy_world : World
stormy_world = world_of stormy portal

abbrev pub first_start : World
first_start = world_of calm empty_portal

abbrev pub plain_syncer : Syncer
plain_syncer = record {
  user = λ sub name email. record { id = sub; name = name; email = email };
  workers = 4;
  grace = 1000;
}

abbrev pub ada_target : LimitSyncTarget
ada_target = record {
  key_id = 7;
  key_ref = "ref7";
  key_prefix = "sk-7";
  user_id = 1;
  oidc_sub = "ada";
  email = "ada@example.org";
  name = "Ada";
  synced_owner_name = some "A. L.";
  profile_id = some 1;
  sync_error = "";
  sync_failed_at = none;
}
