-- ===== src/Database/Tables.antt =====
-- The tables and what one statement does to them. The constraints are those of
-- internal/database/migrations: primary keys and AUTOINCREMENT, UNIQUE columns and indexes, foreign
-- keys (database.Open turns them on) with ON DELETE CASCADE.
use ai_self_service.Prelude.{
  ℕ, suc, ◌+◌, max, ◌&&◌, ◌||◌, not, Bool, true, false, Option, none, some, List, [], ◌∷◌, ◌++◌,
  ◌==◌, str_eq, same_nat, if◌then◌else◌, filter, any, update_if, delete_if,
}
use ai_self_service.Database.Errors.{Result, ok, err, constraint}
use ai_self_service.Database.Models.{
  ProfileQuota, Profile, User, ApiKey, Session, AuditEvent, ExpiryNotice,
}

-- The next value of each AUTOINCREMENT column; a number once given is never given again.
pub record Sequences : Type 0 where
  pub profile_seq : ℕ
  pub quota_seq : ℕ
  pub user_seq : ℕ
  pub key_seq : ℕ
  pub session_seq : ℕ
  pub event_seq : ℕ
  pub notice_seq : ℕ

-- The rows of each table, in the order of their row ids.
pub record Db : Type 0 where
  pub profiles : List Profile
  pub quotas : List ProfileQuota
  pub users : List User
  pub keys : List ApiKey
  pub sessions : List Session
  pub events : List AuditEvent
  pub notices : List ExpiryNotice
  pub seqs : Sequences

unfoldable pub profile_exists : ℕ → Db → Bool
profile_exists id d = any (λ (p : Profile). p.id == id) d.profiles

-- A reference that is NULL or names a row.
unfoldable pub valid_ref : Option ℕ → Db → Bool
unfolding profile_exists
valid_ref none d = true
valid_ref (some id) d = profile_exists id d

-- Two profiles that the UNIQUE column or the partial index on `is_default` keeps apart.
unfoldable pub clash : Profile → Profile → Bool
clash p r = str_eq r.name p.name || (r.is_default && p.is_default)

-- An id of 0 is left out of the INSERT, and the sequence gives one.
unfoldable pub fresh_id : ℕ → ℕ → ℕ
fresh_id seq id = if id == 0 then seq else id

unfoldable pub insert_profile : Profile → Db → Result (ℕ × Db)
unfolding clash fresh_id
insert_profile p d =
    let id = fresh_id d.seqs.profile_seq p.id in
    let row = record p { id = id; quotas = [] } in
    if any (λ (r : Profile). r.id == id || clash p r) d.profiles
    then err constraint
    else ok (
      id,
      record d {
        profiles = d.profiles ++ row ∷ [];
        seqs = record d.seqs { profile_seq = max d.seqs.profile_seq (suc id) };
      },
    )

-- UPDATE profiles … WHERE id = p.id: every column but the id and the creation time.
unfoldable pub update_profile_row : Profile → Db → Result (Unit {0} × Db)
unfolding clash
update_profile_row p d =
    let others = any (λ (r : Profile). not (r.id == p.id) && clash p r) d.profiles in
    if any (λ (r : Profile). r.id == p.id) d.profiles && others
    then err constraint
    else ok (
      tt,
      record d {
        profiles =
            update_if (λ (r : Profile). r.id == p.id)
              (λ (r : Profile). record p { created_at = r.created_at; quotas = [] }) d.profiles;
      },
    )

-- UPDATE profiles SET is_default = 0 WHERE is_default <> 0 [AND id <> keep].
unfoldable pub clear_default_rows : ℕ → Db → Db
clear_default_rows keep d = record d {
  profiles =
      update_if (λ (r : Profile). r.is_default && (keep == 0 || not (r.id == keep)))
        (λ (r : Profile). record r { is_default = false }) d.profiles;
}

-- UPDATE profiles SET limits_rev = limits_rev + 1 WHERE id = id.
unfoldable pub bump_rev_row : ℕ → Db → Db
bump_rev_row id d = record d {
  profiles =
      update_if (λ (r : Profile). r.id == id)
        (λ (r : Profile). record r { limits_rev = r.limits_rev + 1 }) d.profiles;
}

unfoldable pub quotas_of : ℕ → Db → List ProfileQuota
quotas_of id d = filter (λ (q : ProfileQuota). q.profile_id == id) d.quotas

unfoldable pub delete_quota_rows : ℕ → Db → Db
delete_quota_rows id d = record d {
  quotas = delete_if (λ (q : ProfileQuota). q.profile_id == id) d.quotas;
}

-- Rows that name a profile, with no two for one profile and period.
unfoldable pub fits_quota : Db → ProfileQuota → Bool
fits_quota d q =
    profile_exists q.profile_id d
    && not (
        any (λ (r : ProfileQuota). r.profile_id == q.profile_id && str_eq r.period q.period)
          d.quotas)

unfoldable pub add_quota_row : ProfileQuota → Db → Db
add_quota_row q d = record d {
  quotas = d.quotas ++ record q { id = d.seqs.quota_seq } ∷ [];
  seqs = record d.seqs { quota_seq = suc d.seqs.quota_seq };
}

-- One INSERT of several rows: all of them or none.
unfoldable pub insert_quotas : List ProfileQuota → Db → Result (Unit {0} × Db)
unfolding fits_quota add_quota_row
insert_quotas [] d = ok (tt, d)
insert_quotas (q ∷ qs) d =
    let rest = insert_quotas qs (add_quota_row q d) in
    if fits_quota d q then rest else err constraint

-- DELETE FROM profiles WHERE id = id: refused while a user is assigned, and the windows go along.
unfoldable pub delete_profile_row : ℕ → Db → Result (Unit {0} × Db)
unfolding profile_exists
delete_profile_row id d =
    if profile_exists id d && any (λ (u : User). same_nat u.profile_id (some id)) d.users
    then err constraint
    else ok (
      tt,
      record d {
        profiles = delete_if (λ (r : Profile). r.id == id) d.profiles;
        quotas =
            if profile_exists id d
            then delete_if (λ (q : ProfileQuota). q.profile_id == id) d.quotas
            else d.quotas;
      },
    )

unfoldable pub insert_user : User → Db → Result (ℕ × Db)
unfolding valid_ref
insert_user u d =
    let row = record u { id = d.seqs.user_seq } in
    if any (λ (r : User). str_eq r.oidc_sub u.oidc_sub) d.users || not (valid_ref u.profile_id d)
    then err constraint
    else ok (
      d.seqs.user_seq,
      record d {
        users = d.users ++ row ∷ [];
        seqs = record d.seqs { user_seq = suc d.seqs.user_seq };
      },
    )

unfoldable pub update_user_row : ℕ → (User → User) → Db → Db
update_user_row id f d = record d { users = update_if (λ (u : User). u.id == id) f d.users }

unfoldable pub user_exists : ℕ → Db → Bool
user_exists id d = any (λ (u : User). u.id == id) d.users

unfoldable pub insert_key : ApiKey → Db → Result (ℕ × Db)
unfolding user_exists
insert_key k d =
    let row = record k { id = d.seqs.key_seq } in
    if any (λ (r : ApiKey). r.user_id == k.user_id) d.keys || not (user_exists k.user_id d)
    then err constraint
    else ok (
      d.seqs.key_seq,
      record d { keys = d.keys ++ row ∷ []; seqs = record d.seqs { key_seq = suc d.seqs.key_seq } },
    )

unfoldable pub update_keys : (ApiKey → Bool) → (ApiKey → ApiKey) → Db → Db
update_keys p f d = record d { keys = update_if p f d.keys }

-- The notices of a deleted key go along.
unfoldable pub delete_keys : (ApiKey → Bool) → Db → Db
delete_keys p d = record d {
  keys = delete_if p d.keys;
  notices =
      delete_if (λ (n : ExpiryNotice). any (λ (k : ApiKey). k.id == n.api_key_id && p k) d.keys)
        d.notices;
}

unfoldable pub delete_notices_of : ℕ → Db → Db
delete_notices_of key_id d = record d {
  notices = delete_if (λ (n : ExpiryNotice). n.api_key_id == key_id) d.notices;
}

unfoldable pub insert_notice : ExpiryNotice → Db → Result (Unit {0} × Db)
insert_notice n d =
    let twin =
      any (λ (r : ExpiryNotice). r.api_key_id == n.api_key_id && r.days_before == n.days_before)
        d.notices in
    if twin || not (any (λ (k : ApiKey). k.id == n.api_key_id) d.keys)
    then err constraint
    else ok (
      tt,
      record d {
        notices = d.notices ++ record n { id = d.seqs.notice_seq } ∷ [];
        seqs = record d.seqs { notice_seq = suc d.seqs.notice_seq };
      },
    )

unfoldable pub insert_session : Session → Db → Result (Unit {0} × Db)
unfolding user_exists
insert_session s d =
    if any (λ (r : Session). str_eq r.token s.token) d.sessions || not (user_exists s.user_id d)
    then err constraint
    else ok (
      tt,
      record d {
        sessions = d.sessions ++ record s { id = d.seqs.session_seq } ∷ [];
        seqs = record d.seqs { session_seq = suc d.seqs.session_seq };
      },
    )

unfoldable pub delete_sessions : (Session → Bool) → Db → Db
delete_sessions p d = record d { sessions = delete_if p d.sessions }

unfoldable pub insert_event : AuditEvent → Db → Db
insert_event e d = record d {
  events = d.events ++ record e { id = d.seqs.event_seq } ∷ [];
  seqs = record d.seqs { event_seq = suc d.seqs.event_seq };
}
