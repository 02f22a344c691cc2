-- ===== src/Handlers/Login/Ended.antt =====
-- internal/handlers/ui.go: what a back-channel logout ends.
use ai_self_service.Prelude.{
  String, Bool, true, false, ◌&&◌, ◌==◌, Option, some, List, ◌≡◌, ◌↔◌, refl, sym, subst, arith,
  str_eq, str_eq_iff, Member, Some, any-Some, Some-any, Left,
}
use ai_self_service.Database.Models.{Session, User}
use ai_self_service.Database.Tables.{Db, delete_sessions}
use ai_self_service.Database.Sessions.{owned_by_sub, delete_sessions_by_sub}
use ai_self_service.Exec.{World, step, with_db, change, statement, attempt, ◌>>=◌}
use ai_self_service.Session.{delete_by_oidc_sub}
use ai_self_service.Oidc.{LogoutToken, validate_logout_token}
use ai_self_service.Handlers.Login.{backchannel_logout, end_all}

-- The session is of an account of the subject.
abbrev pub IsOf : String → List User → Session → Type 0
IsOf sub users s = Some (λ (u : User). (u.id ≡ s.user_id) × (u.oidc_sub ≡ sub)) users

-- Of the sessions exactly those are left that are of no account of the subject, and the accounts are as
-- they were.
abbrev pub Ends : String → Db → Db → Type 0
Ends sub d d' =
    ((s : Session) → Member s d'.sessions ↔ (Member s d.sessions × ¬ IsOf sub d.users s))
    × (d'.users ≡ d.users)

owned_by_sub_iff :
    (sub : String) (d : Db) (s : Session) → (owned_by_sub sub d s ≡ true) ↔ IsOf sub d.users s
unfolding owned_by_sub
owned_by_sub_iff sub d s =
    let owner : User → Bool = λ u. u.id == s.user_id && str_eq u.oidc_sub sub in
    (
      λ h.
          let (u, m, q) = any-Some owner d.users h in
          (u, m, (ground (arith, q), (str_eq_iff u.oidc_sub sub).0 (ground (arith, q)))),
      λ (u, m, (e, k)).
          Some-any owner d.users u m (ground (arith, e, (str_eq_iff u.oidc_sub sub).1 k)),
    )

-- The world after the statement, where the database answers.
changed :
    (f : Db → Db) (w : World)
    → w.env.db_fails w.tick ≡ false
    → (change f w).1 ≡ with_db (f w.db) (step w)
unfolding change statement
changed f w h = ground (arith, h)

ended :
    (sub : String) (w : World)
    → w.env.db_fails w.tick ≡ false
    → Ends sub w.db (delete_by_oidc_sub sub w).1.db
unfolding delete_by_oidc_sub delete_sessions_by_sub delete_sessions
ended sub w h =
    subst (λ (v : World). Ends sub w.db v.db)
      (sym (changed (λ d. delete_sessions (owned_by_sub sub d) d) w h))
      (
        Left (owned_by_sub sub w.db) (IsOf sub w.db.users) w.db.sessions
            (owned_by_sub_iff sub w.db),
        refl,
      )

all_lem :
    (sub : String) (w : World)
    → w.env.db_fails w.tick ≡ false
    → Ends sub w.db (end_all (some sub) w).1.db
unfolding end_all attempt ◌>>=◌
all_lem sub w h = ended sub w h

-- After a back-channel logout with a valid token, where the database answers, exactly those sessions
-- are left that belong to no account with the token's subject, and the accounts are as they were.
pub backchannel_logout-Ended :
    (token : Option LogoutToken) (sub : String) (w : World)
    → validate_logout_token token ≡ some sub
    → w.env.db_fails w.tick ≡ false
    → Ends sub w.db (backchannel_logout true token w).1.db
unfolding backchannel_logout
backchannel_logout-Ended token sub w e h =
    subst (λ o. Ends sub w.db (end_all o w).1.db) (sym e) (all_lem sub w h)
