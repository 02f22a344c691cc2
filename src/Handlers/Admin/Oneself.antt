-- ===== src/Handlers/Admin/Oneself.antt =====
-- internal/handlers/admin.go: who can lose the admin panel by `RevokeAdmin`.
use ai_self_service.Prelude.{
  ℕ, suc, String, Bool, true, false, not, Option, none, some, List, [], ◌∷◌, ◌≡◌, ◌⊎◌, inl, inr,
  refl, sym, ap, ◌∙◌, subst, arith, ◌==◌, ltb, str_eq, find?, filter, update_if, if◌then◌else◌,
  Bool-cases, ◌||◌,
}
use ai_self_service.Config.{Config, admin_from_groups}
use ai_self_service.Database.Models.{User, Session, AuditAction, admin_revoked}
use ai_self_service.Database.Errors.{Result, ok, err}
use ai_self_service.Database.Tables.{Db, update_user_row, insert_event, delete_sessions}
use ai_self_service.Database.Users.{set_user_admin, admin_row, get_user_by_id, user_by_id}
use ai_self_service.Database.Sessions.{record_audit, get_session_by_token, delete_session}
use ai_self_service.Exec.{
  Exec, Env, World, step, continue, pure, now, query, change, attempt, ◌>>=◌,
}
use ai_self_service.Exec.Keeps.{
  Keeps, Keeps-pure, Keeps-raise, Keeps-now, Keeps-query, Keeps-attempt, Keeps-if, Keeps-when,
  Keeps-always, Keeps-bind,
}
use ai_self_service.Exec.Quiet.{
  Same, same, Quiet, Quiet-pure, Quiet-query, Quiet-attempt, Quiet-if, Quiet-bind, Quiet-then,
}
use ai_self_service.Session.{get, load_user, refuse_expired}
use ai_self_service.Handlers.Keys.{Response, redirect}
use ai_self_service.Handlers.Admin.{
  Account, account, answer, actor, audit, after_flag, is_self, revoke_of, revoke_from,
  account_from_form, revoke_admin, unless_group_managed, user_of,
}

-- The rows of a user.
abbrev pub rows_of : ℕ → Db → List User
rows_of id d = filter (λ (u : User). u.id == id) d.users

update_other :
    (id other : ℕ) (f : User → User) (us : List User)
    → ((u : User) → (f u).id ≡ u.id)
    → (id == other) ≡ false
    → filter (λ (u : User). u.id == id) (update_if (λ (u : User). u.id == other) f us)
      ≡ filter (λ (u : User). u.id == id) us
unfolding filter update_if
update_other id other f [] k h = refl
update_other id other f (u ∷ us) k h = ground (arith, update_other id other f us k h, k u)

module _ (id : ℕ) where
  set_user_admin-Keeps :
      (other : ℕ) (b : Bool) → (id == other) ≡ false → Keeps (rows_of id) (set_user_admin other b)
  unfolding set_user_admin admin_row update_user_row
  set_user_admin-Keeps other b h = Keeps-bind Keeps-now (λ at.
      Keeps-bind (Keeps-always _ (λ d. update_other id other _ d.users (λ u. refl) h))
        (λ met. Keeps-if met (Keeps-pure tt) (Keeps-raise _)))

  get-Keeps : (cookie : String) → Keeps (rows_of id) (get cookie)
  unfolding get get_session_by_token refuse_expired load_user get_user_by_id delete_session change
      delete_sessions
  get-Keeps cookie = Keeps-bind (Keeps-query _) (λ s. Keeps-bind Keeps-now (λ at.
      Keeps-if (ltb s.expires_at at)
        (Keeps-bind (Keeps-attempt (Keeps-always _ (λ d. refl))) (λ r. Keeps-raise _))
        (Keeps-bind (Keeps-query _) (λ u. Keeps-pure _))))

  actor-Keeps : (cookie : String) → Keeps (rows_of id) (actor cookie)
  unfolding actor
  actor-Keeps cookie = Keeps-bind (Keeps-attempt (get-Keeps cookie)) (λ su. Keeps-pure _)

  audit-Keeps :
      (cookie : String) (action : AuditAction) (subject : String) (to : Option ℕ) (detail : String)
      → Keeps (rows_of id) (audit cookie action subject to detail)
  unfolding audit record_audit change insert_event
  audit-Keeps cookie action subject to detail = Keeps-bind (actor-Keeps cookie) (λ a.
      Keeps-bind (Keeps-attempt (Keeps-bind Keeps-now (λ at. Keeps-always _ (λ d. refl))))
        (λ r. Keeps-pure tt))

  after_flag-Keeps :
      (cookie : String) (u : User) (action : AuditAction) (detail : String) (failed done : Response)
      (r : Result (Unit {0}))
      → Keeps (rows_of id) (after_flag cookie u action detail failed done r)
  unfolding after_flag
  after_flag-Keeps cookie u action detail failed done (err e) = Keeps-pure _
  after_flag-Keeps cookie u action detail failed done (ok x) =
      Keeps-bind (audit-Keeps cookie action u.email (some u.id) detail) (λ y. Keeps-pure _)

-- Nobody removes their own rights, if the handler knows who asks.
revoke_of-Keeps :
    (cookie : String) (u a : User) → Keeps (rows_of a.id) (revoke_of cookie u (some a))
unfolding revoke_of is_self
revoke_of-Keeps cookie u a =
    Keeps-when (a.id == u.id) (λ h. Keeps-pure _)
      (λ h.
        Keeps-bind (Keeps-attempt (set_user_admin-Keeps a.id u.id false h))
          (λ r. after_flag-Keeps a.id cookie u admin_revoked "admin revoked" _ _ r))

-- The cookie is of a session of the user that has not expired at any time of the request, and the
-- database answers.
pub record LoggedIn (cookie : String) (a : User) (env : Env) (d : Db) : Type 0 where
  pub session : Session
  pub answers : (t : ℕ) → env.db_fails t ≡ false
  pub found : find? (λ (s : Session). str_eq s.token cookie) d.sessions ≡ some session
  pub valid : (t : ℕ) → ltb session.expires_at (env.clock t) ≡ false
  pub person : find? (λ (u : User). u.id == session.user_id) d.users ≡ some a

actor_lem :
    (cookie : String) (a : User) (v : World)
    → LoggedIn cookie a v.env v.db
    → actor cookie v ≡ (ok (some a), step (step (step v)))
unfolding actor get get_session_by_token load_user get_user_by_id user_by_id query now ◌>>=◌ attempt
    user_of
actor_lem cookie a v l =
    ground (
      arith,
      l.answers v.tick,
      l.found,
      l.valid (suc v.tick),
      l.answers (suc (suc v.tick)),
      l.person,
    )

account_from_form-Quiet : (parsed : Bool) (id : Option ℕ) → Quiet (account_from_form parsed id)
unfolding account_from_form get_user_by_id
account_from_form-Quiet parsed none = Quiet-pure _
account_from_form-Quiet parsed (some id) =
    Quiet-if (not parsed || ltb id 1) (Quiet-pure _)
      (Quiet-bind (Quiet-attempt (Quiet-query _)) (λ u. Quiet-pure _))

module _ (cookie : String) (a : User) (w : World) (l : LoggedIn cookie a w.env w.db) where
  from_lem :
      (x : Account) (v : World)
      → Same w v
      → rows_of a.id (revoke_from cookie x v).1.db ≡ rows_of a.id w.db
  unfolding revoke_from ◌>>=◌
  from_lem (answer r) v s = ap (rows_of a.id) s.db
  from_lem (account u) v s =
      let l' =
        subst (λ e. LoggedIn cookie a e v.db) (sym s.env)
          (subst (λ d. LoggedIn cookie a w.env d) (sym s.db) l) in
      let goal : Result (Option User) × World → Type 0 =
        λ z. rows_of a.id (continue z.0 (revoke_of cookie u) z.1).1.db ≡ rows_of a.id w.db in
      subst goal (sym (actor_lem cookie a v l'))
        ((revoke_of-Keeps cookie u a).at (step (step (step v))) ∙ ap (rows_of a.id) s.db)

  either_lem :
      (c : Config) (parsed : Bool) (id : Option ℕ)
      → (admin_from_groups c ≡ true) ⊎ (admin_from_groups c ≡ false)
      → rows_of a.id (revoke_admin c cookie parsed id w).1.db ≡ rows_of a.id w.db
  unfolding revoke_admin unless_group_managed
  either_lem c parsed id (inl h) = ground arith
  either_lem c parsed id (inr h) =
      let refused = redirect "/admin?flash=Admins+are+managed+in+the+login+system#admins" in
      let body : Exec Response = account_from_form parsed id >>= λ x. revoke_from cookie x in
      let goal : Bool → Type 0 =
        λ b. rows_of a.id ((if b then pure refused else body) w).1.db ≡ rows_of a.id w.db in
      subst goal (sym h) (
        Quiet-then (λ v. rows_of a.id v.db ≡ rows_of a.id w.db) _ w w same
          (account_from_form-Quiet parsed id) (λ v s. ap (rows_of a.id) s.db) from_lem)

-- An admin cannot remove their own rights: where the request's cookie is of a session of the admin that has
-- not expired, and the database answers, a request to remove somebody's rights leaves the
-- admin's own account as it was.
pub revoke_admin-KeepsSelf :
    (c : Config) (cookie : String) (parsed : Bool) (id : Option ℕ) (a : User) (w : World)
    → LoggedIn cookie a w.env w.db
    → rows_of a.id (revoke_admin c cookie parsed id w).1.db ≡ rows_of a.id w.db
revoke_admin-KeepsSelf c cookie parsed id a w l =
    either_lem cookie a w l c parsed id (Bool-cases (admin_from_groups c))
