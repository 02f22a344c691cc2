-- ===== src/Handlers/Login.antt =====
-- internal/handlers/ui.go: the ends of a login and of a logout. The end-session address of the identity
-- provider, which net/url builds from an ID token, is a parameter; setting and clearing the session cookie
-- is the second part of an answer.
pub mod Ended
use ai_self_service.Prelude.{
  ℕ, String, Bool, true, false, not, Option, none, some, List, str_eq, if◌then◌else◌,
}
use ai_self_service.Config.{Config}
use ai_self_service.Database.Models.{User, Time}
use ai_self_service.Database.Errors.{Result, ok, err}
use ai_self_service.Session.{SessionUser, require_session, create, delete, delete_by_oidc_sub}
use ai_self_service.Oidc.{
  UserInfo, IdToken, LogoutToken, handle_callback, login, validate_logout_token,
}
use ai_self_service.Exec.{Exec, pure, attempt, ◌>>=◌, ◌>>◌}
use ai_self_service.Handlers.Keys.{Response, redirect, status}

-- What an answer does to the session cookie.
pub data CookieChange : Type 0 where
  kept cleared : CookieChange
  set_to : String → CookieChange

abbrev pub Answer : Type 0
Answer = Response × CookieChange

unfoldable pub greet : Result String → Answer
greet (err e) = (status 500, kept)
greet (ok t) = (redirect "/", set_to t)

unfoldable pub start_session : Time → String → Result User → Exec Answer
unfolding greet
start_session duration raw (err e) = pure (status 500, kept)
start_session duration raw (ok u) = do t ← attempt (create duration u.id raw); pure (greet t)

unfoldable pub admit : Config → Time → Option (UserInfo × String) → Exec Answer
unfolding start_session
admit c duration none = pure (status 400, kept)
admit c duration (some (info, raw)) = do u ← attempt (login c info); start_session duration raw u

-- `UI.Callback`
unfoldable pub callback :
    Config → Time → List String → String → Option String → Option IdToken → Exec Answer
unfolding admit
callback c duration path state cookie token =
    admit c duration (handle_callback c path state cookie token)

unfoldable pub end_session : (String → String) → Result SessionUser → Exec Answer
end_session address (err e) = pure (redirect "/", cleared)
end_session address (ok su) = do
  attempt (delete su.session_id)
  pure (redirect (if str_eq (address su.id_token) "" then "/" else address su.id_token), cleared)

-- `UI.Logout`
unfoldable pub logout : (String → String) → String → Exec Answer
unfolding end_session
logout address cookie = do su ← attempt (require_session cookie); end_session address su

unfoldable pub end_all : Option String → Exec Response
end_all none = pure (status 400)
end_all (some sub) = do attempt (delete_by_oidc_sub sub); pure (status 200)

-- `UI.BackchannelLogout`, with whether the form parsed, and the token if it was verified.
unfoldable pub backchannel_logout : Bool → Option LogoutToken → Exec Response
unfolding end_all
backchannel_logout parsed token =
    if parsed then end_all (validate_logout_token token) else pure (status 400)

unfoldable pub session_of : Result SessionUser → Response
session_of (err e) = status 401
session_of (ok su) = status 200

-- `UI.SessionStatus`
unfoldable pub session_status : String → Exec Response
unfolding session_of
session_status cookie = do su ← attempt (require_session cookie); pure (session_of su)
