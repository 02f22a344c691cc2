-- ===== src/Session.antt =====
-- internal/session/session.go: the session manager. A cookie's value, or the empty text without one, is
-- an argument.
pub mod Valid
pub mod Created
pub mod Csrf
use ai_self_service.Prelude.{
  ℕ, ◌+◌, String, Option, none, some, Bool, ltb, str_eq, concat, ◌∷◌, [], if◌then◌else◌,
}
use ai_self_service.Database.Models.{Time, User, Session}
use ai_self_service.Database.Errors.{Result, ok, err, session_expired, no_cookie, no_random}
use ai_self_service.Database.Users.{get_user_by_id}
use ai_self_service.Database.Sessions.{
  create_session, get_session_by_token, delete_session, delete_sessions_by_sub,
}
use ai_self_service.Exec.{Exec, pure, raise, now, token, attempt, ◌>>=◌, ◌>>◌}

pub record SessionUser : Type 0 where
  pub session_id : ℕ
  pub id_token : String
  pub user : User

unfoldable pub store_session : Time → ℕ → String → Option String → Exec String
store_session duration user_id id_token none = raise no_random
store_session duration user_id id_token (some t) = do
  at ← now
  create_session user_id t id_token (at + duration)
  pure t

-- `Manager.Create`
unfoldable pub create : Time → ℕ → String → Exec String
unfolding store_session
create duration user_id id_token = do t ← token; store_session duration user_id id_token t

-- An expired session is deleted, and a failure to is not reported.
unfoldable pub refuse_expired : ℕ → Exec SessionUser
refuse_expired id = do attempt (delete_session id); raise session_expired

unfoldable pub load_user : Session → Exec SessionUser
load_user s = do
  u ← get_user_by_id s.user_id
  pure (record { session_id = s.id; id_token = s.id_token; user = u })

-- `Manager.Get`
unfoldable pub get : String → Exec SessionUser
unfolding refuse_expired load_user
get t = do
  s ← get_session_by_token t
  at ← now
  if ltb s.expires_at at then refuse_expired s.id else load_user s

-- `UI.requireSession`, for the value of the session cookie.
unfoldable pub require_session : String → Exec SessionUser
unfolding get
require_session t = if str_eq t "" then raise no_cookie else get t

-- `CookieName`
unfoldable pub cookie_name : String → Bool → String
cookie_name name secure = if secure then concat ("__Host-" ∷ name ∷ []) else name

-- `Manager.Delete`, `Manager.DeleteByOIDCSub`
unfoldable pub delete : ℕ → Exec (Unit {0})
delete id = delete_session id

unfoldable pub delete_by_oidc_sub : String → Exec (Unit {0})
delete_by_oidc_sub sub = delete_sessions_by_sub sub
