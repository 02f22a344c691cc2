-- ===== src/Tests/Requests.antt =====
-- The theorems about requests and logins, at a portal with one user and their session.
use ai_self_service.Prelude.{
  String, any, suc, ℕ, true, false, Option, some, none, List, [], ◌∷◌, ◌≡◌, ◌⊎◌, refl,
}
use ai_self_service.Config.{Config}
use ai_self_service.Database.Models.{User, Session}
use ai_self_service.Database.Errors.{Error, ok}
use ai_self_service.Database.Keys.{noticed}
use ai_self_service.Database.Tables.{Db}
use ai_self_service.Exec.{World}
use ai_self_service.Exec.KeepsKeys.{IsConfirmed}
use ai_self_service.Handlers.Keys.{generate, extend, delete}
use ai_self_service.Handlers.Keys.Extended.{expiries, IsMoved, extend-IsMoved}
use ai_self_service.Handlers.Login.{backchannel_logout}
use ai_self_service.Handlers.Login.Ended.{Ends, backchannel_logout-Ended}
use ai_self_service.Session.Created.{get-create}
use ai_self_service.Oidc.{LogoutToken, validate_logout_token}
use ai_self_service.Handlers.Keys.Generated.{IsGenerated, generate-IsGenerated}
use ai_self_service.Handlers.Keys.Deleted.{OnlyDeletes, delete-IsConfirmed}
use ai_self_service.Handlers.Admin.{revoke_admin}
use ai_self_service.Handlers.Admin.Oneself.{rows_of, LoggedIn, revoke_admin-KeepsSelf}
use ai_self_service.Oidc.{UserInfo, login}
use ai_self_service.Oidc.Login.{Follows, login-Follows}
use ai_self_service.Reminder.{Notifier, run, default_thresholds}
use ai_self_service.Reminder.Recorded.{Taken, run-Recorded}
use ai_self_service.Session.{SessionUser, get, create}
use ai_self_service.Session.Valid.{IsValid, get-IsValid}
use ai_self_service.Tests.Worlds.{ada, portal, calm, calm_world, world_of}

abbrev plain_config : Config
plain_config = record {
  key_duration_days = 90;
  litellm_user_id_prefix = "keyosk";
  litellm_user_email = true;
  admin_group = "";
  admin_group_claim = "groups";
  successor_url = "";
}

generate-IsGenerated_example :
    IsGenerated plain_config ada calm_world (generate plain_config ada [] calm_world).1
generate-IsGenerated_example = generate-IsGenerated plain_config ada [] calm_world

delete-IsConfirmed_example :
    OnlyDeletes ada calm_world (delete ada calm_world).1
    × (((delete ada calm_world).1.db.keys ≡ portal.keys)
        ⊎ IsConfirmed ada calm_world (delete ada calm_world).1)
delete-IsConfirmed_example = delete-IsConfirmed ada calm_world

abbrev chief : User
chief = record ada { is_admin = true }

abbrev chiefs_session : Session
chiefs_session = record {
  id = 1;
  user_id = 1;
  token = "cookie";
  id_token = "";
  expires_at = 100_000;
  created_at = 1;
}

abbrev staffed : Db
staffed = record portal { users = chief ∷ []; sessions = chiefs_session ∷ [] }

abbrev office : World
office = world_of (record calm { clock = λ t. 600 }) staffed

chief-LoggedIn : LoggedIn "cookie" chief office.env office.db
unfolding ai_self_service.Prelude.find? ai_self_service.Prelude.str_eq
chief-LoggedIn = record {
  session = chiefs_session;
  answers = λ t. refl;
  found = refl;
  valid = λ t. refl;
  person = refl;
}

revoke_admin-KeepsSelf_example :
    rows_of 1 (revoke_admin plain_config "cookie" true (some 1) office).1.db ≡ rows_of 1 staffed
revoke_admin-KeepsSelf_example =
    revoke_admin-KeepsSelf plain_config "cookie" true (some 1) chief office chief-LoggedIn

abbrev signed_in : SessionUser
signed_in = record { session_id = 1; id_token = ""; user = chief }

get_cookie : (get "cookie" office).0 ≡ ok signed_in
unfolding get ai_self_service.Exec.◌>>=◌ ai_self_service.Database.Sessions.get_session_by_token
    ai_self_service.Exec.query ai_self_service.Prelude.find? ai_self_service.Prelude.str_eq
    ai_self_service.Exec.now ai_self_service.Database.Users.get_user_by_id
get_cookie = refl

get-IsValid_example : IsValid "cookie" office signed_in
get-IsValid_example = get-IsValid "cookie" office signed_in get_cookie

-- A token that no longer lists the group.
abbrev demoted : UserInfo
demoted = record {
  subject = "ada";
  email = "ada@example.org";
  name = "Ada";
  is_admin = some false;
  admin_claim_absent = false;
}

abbrev former_chief : User
former_chief = record chief { is_admin = false; updated_at = 600 }

login-demoted : (login plain_config demoted office).0 ≡ ok former_chief
unfolding login ai_self_service.Exec.◌>>=◌ ai_self_service.Database.Users.get_or_create_user
    ai_self_service.Exec.attempt ai_self_service.Exec.query ai_self_service.Prelude.find?
    ai_self_service.Prelude.str_eq ai_self_service.Exec.now
    ai_self_service.Database.Users.set_user_admin ai_self_service.Exec.statement
    ai_self_service.Exec.change ai_self_service.Prelude.any ai_self_service.Prelude.update_if
login-demoted = refl

login-Follows_example :
    Follows "ada" (some false) former_chief (login plain_config demoted office).1.db
login-Follows_example = login-Follows plain_config demoted office former_chief login-demoted

-- A server that takes every mail.
abbrev takes_all : Notifier
takes_all t k days = true

run-Recorded_example :
    ((e : Option Error) × ((run takes_all default_thresholds office).0 ≡ ok e))
    × ((k n : ℕ)
        → noticed k n (run takes_all default_thresholds office).1.db ≡ true
        → (noticed k n office.db ≡ true) ⊎ Taken takes_all k n)
run-Recorded_example = run-Recorded takes_all default_thresholds office

extend-IsMoved_example :
    (expiries (extend plain_config ada calm_world).1.db ≡ expiries portal)
    ⊎ IsMoved ada calm_world (extend plain_config ada calm_world).1
extend-IsMoved_example = extend-IsMoved plain_config ada calm_world

abbrev goodbye : LogoutToken
goodbye = record {
  nonce = "";
  events = "http://schemas.openid.net/event/backchannel-logout" ∷ [];
  sub = "ada";
}

goodbye_valid : validate_logout_token (some goodbye) ≡ some goodbye.sub
unfolding validate_logout_token ai_self_service.Prelude.str_eq any
goodbye_valid = refl

backchannel_logout-Ended_example :
    Ends "ada" staffed (backchannel_logout true (some goodbye) office).1.db
backchannel_logout-Ended_example =
    backchannel_logout-Ended (some goodbye) "ada" office goodbye_valid refl

abbrev an_hour : ℕ
an_hour = 3_600_000_000_000

abbrev fresh_cookie : String
fresh_cookie = "token"

created_cookie : (create an_hour 1 "raw" office).0 ≡ ok fresh_cookie
unfolding create ai_self_service.Exec.◌>>=◌ ai_self_service.Exec.token ai_self_service.Exec.now
    ai_self_service.Database.Sessions.create_session ai_self_service.Exec.statement
    ai_self_service.Database.Tables.insert_session any ai_self_service.Prelude.str_eq
created_cookie = refl

get-create_example :
    (su : SessionUser) × ((get fresh_cookie (create an_hour 1 "raw" office).1).0 ≡ ok su)
    × (su.user.id ≡ 1)
    × (su.id_token ≡ "raw")
unfolding create ai_self_service.Exec.◌>>=◌ ai_self_service.Exec.token ai_self_service.Exec.now
    ai_self_service.Database.Sessions.create_session ai_self_service.Exec.statement
    ai_self_service.Database.Tables.insert_session any ai_self_service.Prelude.str_eq
get-create_example =
    get-create an_hour 1 "raw" fresh_cookie office (create an_hour 1 "raw" office).1 created_cookie
      refl refl refl refl
