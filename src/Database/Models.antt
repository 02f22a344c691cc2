-- ===== src/Database/Models.antt =====
-- internal/database/models.go: the rows. A time is a number of nanoseconds since Go's zero time.
use ai_self_service.Prelude.{ℕ, String, List, [], Option, none, some, Bool, map}
use ai_self_service.Keyprovider.{Float64, QuotaWindow, Limits}

abbrev pub Time : Type 0
Time = ℕ

pub record ProfileQuota : Type 0 where
  pub id : ℕ
  pub profile_id : ℕ
  pub budget : Float64
  pub period : String

-- `quotas` is a relation: the stored row has none, a query that asks for it fills it in.
pub record Profile : Type 0 where
  pub id : ℕ
  pub name : String
  pub description : String
  pub models : List String
  pub tpm_limit : Option ℕ
  pub rpm_limit : Option ℕ
  pub max_budget : Option Float64
  pub budget_duration : Option String
  pub key_duration_days : ℕ
  pub quotas : List ProfileQuota
  pub is_default : Bool
  pub limits_rev : ℕ
  pub created_at : Time
  pub updated_at : Time

-- `profile` is a relation too, filled in by `list_users` alone.
pub record User : Type 0 where
  pub id : ℕ
  pub oidc_sub : String
  pub email : String
  pub name : String
  pub profile_id : Option ℕ
  pub profile : Option Profile
  pub profile_expires_at : Option Time
  pub profile_after_expiry : Option ℕ
  pub revoke_key_at_expiry : Bool
  pub is_admin : Bool
  pub created_at : Time
  pub updated_at : Time

pub record ApiKey : Type 0 where
  pub id : ℕ
  pub user_id : ℕ
  pub key_ref : String
  pub key_prefix : String
  pub expires_at : Time
  pub created_at : Time
  pub synced_profile_id : Option ℕ
  pub synced_rev : Option ℕ
  pub synced_owner_name : Option String
  pub synced_owner_email : Option String
  pub sync_error : String
  pub sync_failed_at : Option Time
  pub missing_since : Option Time

pub record Session : Type 0 where
  pub id : ℕ
  pub user_id : ℕ
  pub token : String
  pub id_token : String
  pub expires_at : Time
  pub created_at : Time

pub data AuditAction : Type 0 where
  key_generated key_extended key_deleted key_revoked key_missing key_found key_gone : AuditAction
  profile_set profile_expired admin_granted admin_revoked : AuditAction
  profile_created profile_updated profile_deleted : AuditAction

pub record AuditEvent : Type 0 where
  pub id : ℕ
  pub created_at : Time
  pub action : AuditAction
  pub actor_email : String
  pub subject_email : String
  pub subject_id : Option ℕ
  pub detail : String

pub record ExpiryNotice : Type 0 where
  pub id : ℕ
  pub api_key_id : ℕ
  pub days_before : ℕ
  pub sent_at : Time

pub record ExpiringKey : Type 0 where
  pub key : ApiKey
  pub email : String
  pub name : String

unfoldable pub to_window : ProfileQuota → QuotaWindow
to_window q = record { budget = q.budget; period = q.period }

-- `Profile.Limits`; a nil profile means no restriction.
unfoldable pub limits : Option Profile → Limits
unfolding to_window
limits none = record {
  models = [];
  tokens_per_minute = none;
  requests_per_minute = none;
  quotas = [];
}
limits (some p) = record {
  models = p.models;
  tokens_per_minute = p.tpm_limit;
  requests_per_minute = p.rpm_limit;
  quotas = map to_window p.quotas;
}
