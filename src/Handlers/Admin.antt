-- ===== src/Handlers/Admin.antt =====
-- internal/handlers/admin.go, admins.go: what an admin does to accounts and their keys. A request's cookie
-- is an argument, and so are the numbers and dates that its form was read into: `none` for one that
-- did not parse, and no number below zero. Metrics and logs are left out, and so is the kick of
-- the limit sync.
pub mod Form
pub mod Oneself
pub mod ProfileText
pub mod Profiles
use ai_self_service.Prelude.{
  ℕ, ◌+◌, String, concat, Bool, true, false, not, ◌&&◌, ◌||◌, Option, none, some, List, [], ◌∷◌,
  map, filter, ◌==◌, ltb, str_eq, if◌then◌else◌,
}
use ai_self_service.Keyprovider.{GatewayError}
use ai_self_service.Config.{Config, admin_from_groups}
use ai_self_service.Database.Models.{
  Profile, User, ApiKey, AuditEvent, AuditAction, Time, key_revoked, profile_set, profile_updated,
  admin_granted, admin_revoked,
}
use ai_self_service.Database.Errors.{Result, ok, err}
use ai_self_service.Database.Users.{get_user_by_id, set_user_admin, set_user_profile_until}
use ai_self_service.Database.Profiles.Reads.{get_profile}
use ai_self_service.Database.Keys.{get_api_key_by_user, delete_api_key}
use ai_self_service.Database.Sessions.{record_audit}
use ai_self_service.Session.{SessionUser, get}
use ai_self_service.Exec.{Exec, delete_key, pure, raise, call, attempt, ◌>>=◌, ◌>>◌}
use ai_self_service.Handlers.Keys.{Response, redirect, status}

unfoldable pub user_of : Result SessionUser → Option User
user_of (err e) = none
user_of (ok su) = some su.user

-- `Admin.actor`
unfoldable pub actor : String → Exec (Option User)
unfolding user_of
actor cookie = do su ← attempt (get cookie); pure (user_of su)

unfoldable pub email_of : Option User → String
email_of none = "unknown"
email_of (some u) = u.email

-- `Admin.audit`
unfoldable pub audit : String → AuditAction → String → Option ℕ → String → Exec (Unit {0})
unfolding actor email_of
audit cookie action subject id detail = do
  a ← actor cookie
  attempt (
      record_audit (record {
        id = 0;
        created_at = 0;
        action = action;
        actor_email = email_of a;
        subject_email = subject;
        subject_id = id;
        detail = detail;
      }))
  pure tt

-- Whether `Admin.Middleware` lets a request through: what it answers instead, if not.
unfoldable pub admitted : Result SessionUser → Option Response
admitted (err e) = some (redirect "/login")
admitted (ok su) = let u = su.user in if u.is_admin then none else some (status 403)

unfoldable pub middleware : String → Exec (Option Response)
unfolding admitted
middleware cookie =
    if str_eq cookie ""
    then pure (some (redirect "/login"))
    else (do su ← attempt (get cookie); pure (admitted su))

-- `RevokeUserKey`, after the key was deleted in the gateway, or not.
unfoldable pub after_revoke : String → User → ApiKey → Option GatewayError → Exec Response
unfolding audit
after_revoke cookie u k (some e) =
    pure (redirect "/admin?flash=Failed+to+revoke+key+upstream#users")
after_revoke cookie u k none = do
  attempt (delete_api_key k.id)
  audit cookie key_revoked u.email (some u.id) (concat ("key " ∷ k.key_prefix ∷ []))
  pure (redirect "/admin?flash=Key+revoked#users")

unfoldable pub revoke_key_of : String → User → Result (Option ApiKey) → Exec Response
unfolding after_revoke
revoke_key_of cookie u (err e) = pure (redirect "/admin?flash=Failed+to+load+key#users")
revoke_key_of cookie u (ok none) = pure (redirect "/admin?flash=User+has+no+key#users")
revoke_key_of cookie u (ok (some k)) = do
  answer ← call (delete_key k.key_ref)
  after_revoke cookie u k answer

unfoldable pub revoke_for : String → Result User → Exec Response
unfolding revoke_key_of
revoke_for cookie (err e) = pure (redirect "/admin?flash=User+not+found#users")
revoke_for cookie (ok u) = do k ← attempt (get_api_key_by_user u.id); revoke_key_of cookie u k

-- `RevokeUserKey`
unfoldable pub revoke_user_key : String → Option ℕ → Exec Response
unfolding revoke_for
revoke_user_key cookie none = pure (status 400)
revoke_user_key cookie (some id) = do u ← attempt (get_user_by_id id); revoke_for cookie u

-- `accountFromForm`: the account, or the answer.
pub data Account : Type 0 where
  account : User → Account
  answer : Response → Account

unfoldable pub found_account : Result User → Account
found_account (ok u) = account u
found_account (err e) = answer (redirect "/admin?flash=That+account+is+not+known+to+Keyosk#admins")

unfoldable pub account_from_form : Bool → Option ℕ → Exec Account
unfolding found_account
account_from_form parsed none = pure (answer (status 400))
account_from_form parsed (some id) =
    if not parsed || ltb id 1
    then pure (answer (status 400))
    else (do u ← attempt (get_user_by_id id); pure (found_account u))

-- The end of `GrantAdmin` and of `RevokeAdmin`.
unfoldable pub after_flag :
    String → User → AuditAction → String → Response → Response → Result (Unit {0}) → Exec Response
unfolding audit
after_flag cookie u action detail failed done (err e) = pure failed
after_flag cookie u action detail failed done (ok x) = do
  audit cookie action u.email (some u.id) detail
  pure done

unfoldable pub grant_to : String → Account → Exec Response
unfolding after_flag
grant_to cookie (answer r) = pure r
grant_to cookie (account u) = do
  r ← attempt (set_user_admin u.id true)
  after_flag cookie u admin_granted "admin granted"
      (redirect "/admin?flash=Failed+to+grant+admin#admins")
      (redirect "/admin?flash=Admin+granted#admins") r

-- `refuseWhenGroupManaged`, before what the request does.
unfoldable pub unless_group_managed : Config → Exec Response → Exec Response
unless_group_managed c body =
    if admin_from_groups c
    then pure (redirect "/admin?flash=Admins+are+managed+in+the+login+system#admins")
    else body

-- `GrantAdmin`
unfoldable pub grant_admin : Config → String → Bool → Option ℕ → Exec Response
unfolding unless_group_managed account_from_form grant_to
grant_admin c cookie parsed id =
    unless_group_managed c do a ← account_from_form parsed id; grant_to cookie a

unfoldable pub is_self : Option User → User → Bool
is_self none u = false
is_self (some a) u = a.id == u.id

unfoldable pub revoke_of : String → User → Option User → Exec Response
unfolding is_self after_flag
revoke_of cookie u a =
    if is_self a u
    then pure (redirect "/admin?flash=You+cannot+remove+your+own+admin+rights#admins")
    else (do
      r ← attempt (set_user_admin u.id false)
      after_flag cookie u admin_revoked "admin revoked"
          (redirect "/admin?flash=Failed+to+revoke+admin#admins")
          (redirect "/admin?flash=Admin+revoked#admins") r)

unfoldable pub revoke_from : String → Account → Exec Response
unfolding revoke_of
revoke_from cookie (answer r) = pure r
revoke_from cookie (account u) = do a ← actor cookie; revoke_of cookie u a

-- `RevokeAdmin`
unfoldable pub revoke_admin : Config → String → Bool → Option ℕ → Exec Response
unfolding unless_group_managed account_from_form revoke_from
revoke_admin c cookie parsed id =
    unless_group_managed c do a ← account_from_form parsed id; revoke_from cookie a

-- `auditDemoted`
unfoldable pub audit_demoted : String → List String → Exec (Unit {0})
unfolding audit
audit_demoted cookie [] = pure tt
audit_demoted cookie (name ∷ names) = do
  audit cookie profile_updated name none "no longer default"
  audit_demoted cookie names

pub record AdminRow : Type 0 where
  pub user : User
  pub is_self : Bool
  pub removable : Bool

-- `adminRows`
unfoldable pub admin_rows : List User → ℕ → List AdminRow
admin_rows admins actor_id =
    map
      (λ (u : User).
        let self = u.id == actor_id in record { user = u; is_self = self; removable = not self })
      admins

-- `adminCandidates`
unfoldable pub admin_candidates : List User → List User
admin_candidates users = filter (λ (u : User). not u.is_admin) users

-- What the field of the date was read into.
pub data Deadline : Type 0 where
  no_date : Deadline
  bad_date : Deadline
  until_day : Time → Deadline

-- The last second of the day.
abbrev pub end_of_day : Time → Time
end_of_day t = t + 86_399_000_000_000

unfoldable pub named : Result Profile → String
named (err e) = "cleared"
named (ok p) = p.name

unfoldable pub profile_detail : Option ℕ → Exec String
unfolding named
profile_detail none = pure "cleared"
profile_detail (some id) = do p ← attempt (get_profile id); pure (named p)

unfoldable pub with_deadline : String → Option Time → Exec String
with_deadline detail none = pure detail
with_deadline detail (some t) =
    λ w. let env = w.env in (ok (concat (detail ∷ " until " ∷ env.format_date t ∷ [])), w)

unfoldable pub subject_of : Result User → String
subject_of (err e) = ""
subject_of (ok u) = u.email

-- `SetUserProfile`, after the assignment was stored, or not.
unfoldable pub after_assign :
    String → ℕ → Option ℕ → Option Time → Result (Unit {0}) → Exec Response
unfolding profile_detail with_deadline subject_of audit
after_assign cookie id ref expires (err e) =
    pure (redirect "/admin?flash=Failed+to+update+user+profile")
after_assign cookie id ref expires (ok x) = do
  name ← profile_detail ref
  detail ← with_deadline name expires
  u ← attempt (get_user_by_id id)
  audit cookie profile_set (subject_of u) (some id) detail
  pure (redirect "/admin?flash=User+profile+updated#users")

unfoldable pub assign : String → ℕ → Option ℕ → Option Time → Option ℕ → Bool → Exec Response
unfolding after_assign
assign cookie id ref expires after revoke = do
  r ← attempt (set_user_profile_until id ref expires after revoke)
  after_assign cookie id ref expires r

unfoldable pub assign_until : String → ℕ → Option ℕ → Deadline → Option ℕ → Bool → Exec Response
unfolding assign
assign_until cookie id ref no_date after revoke = assign cookie id ref none after revoke
assign_until cookie id ref bad_date after revoke =
    pure (redirect "/admin?flash=Enter+the+date+as+YYYY-MM-DD#users")
assign_until cookie id ref (until_day t) after revoke =
    assign cookie id ref (some (end_of_day t)) after revoke

-- `SetUserProfile`: a profile that does not parse, or is 0, is none.
unfoldable pub set_user_profile :
    String → Bool → Option ℕ → Option ℕ → Deadline → Option ℕ → Bool → Exec Response
unfolding assign_until
set_user_profile cookie parsed none ref deadline after revoke = pure (status 400)
set_user_profile cookie parsed (some id) ref deadline after revoke =
    if parsed then assign_until cookie id ref deadline after revoke else pure (status 400)
