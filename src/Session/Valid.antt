-- ===== src/Session/Valid.antt =====
-- internal/session/session.go: whom a session's cookie stands for.
use ai_self_service.Prelude.{
  ℕ, suc, String, Option, none, some, Bool, true, false, ◌≡◌, refl, sym, ap, ◌∙◌, arith, find?, ltb,
  str_eq, ◌==◌, if◌then◌else◌,
}
use ai_self_service.Database.Models.{User, Session}
use ai_self_service.Database.Errors.{Result, ok}
use ai_self_service.Database.Tables.{Db}
use ai_self_service.Database.Profiles.Reads.{or_no_rows}
use ai_self_service.Database.Users.{get_user_by_id, user_by_id}
use ai_self_service.Database.Sessions.{get_session_by_token}
use ai_self_service.Exec.{World, step, now, query, attempt, ◌>>=◌}
use ai_self_service.Exec.Ensures.{query_ok, bind_ok, ok_is}
use ai_self_service.Session.{SessionUser, get, load_user, refuse_expired}

-- The cookie is of a stored session, which had not expired when the clock was read, and the user is
-- the account that the session is of.
pub record IsValid (t : String) (w : World) (su : SessionUser) : Type 0 where
  pub session : Session
  pub tick : ℕ
  pub found : find? (λ (s : Session). str_eq s.token t) w.db.sessions ≡ some session
  pub unexpired : ltb session.expires_at (w.env.clock tick) ≡ false
  pub same : su.session_id ≡ session.id
  pub owner : find? (λ (u : User). u.id == session.user_id) w.db.users ≡ some su.user

found_lem : {A : Type 0} (o : Option A) (a : A) → or_no_rows o ≡ ok a → o ≡ some a
found_lem none a e = cc
found_lem (some x) a e = ground arith

query_world : {A : Type 0} (f : Db → Result A) (w : World) → (query f w).1 ≡ step w
unfolding query
query_world f w = ground arith

load_lem :
    (s : Session) (v : World) (su : SessionUser)
    → (load_user s v).0 ≡ ok su
    → (su.session_id ≡ s.id) × (find? (λ (u : User). u.id == s.user_id) v.db.users ≡ some su.user)
unfolding load_user get_user_by_id user_by_id
load_lem s v su e =
    let b = bind_ok (get_user_by_id s.user_id) _ v su e in
    let q = query_ok (user_by_id s.user_id) v b.0 b.1 in
    let x = ok_is (record { session_id = s.id; id_token = s.id_token; user = b.0 }) su b.2 in
    (
      ap (λ (y : SessionUser). y.session_id) (sym x),
      found_lem _ b.0 q.0 ∙ ap (λ (y : SessionUser). some y.user) x,
    )

refused : (id : ℕ) (v : World) (su : SessionUser) (P : Type 0) → (refuse_expired id v).0 ≡ ok su → P
unfolding refuse_expired ◌>>=◌ attempt
refused id v su P e = cc

either :
    (b : Bool) (s : Session) (v : World) (su : SessionUser)
    → ((if b then refuse_expired s.id else load_user s) v).0 ≡ ok su
    → (b ≡ false) × ((load_user s v).0 ≡ ok su)
either true s v su e = refused s.id v su _ e
either false s v su e = (refl, e)

-- After the session was found.
rest_lem :
    (t : String) (s : Session) (w v : World) (su : SessionUser)
    → find? (λ (s : Session). str_eq s.token t) w.db.sessions ≡ some s
    → v ≡ step w
    → ((now >>= λ at. if ltb s.expires_at at then refuse_expired s.id else load_user s) v).0 ≡ ok su
    → IsValid t w su
unfolding ◌>>=◌ now
rest_lem t s w v su f q e =
    let r = λ (v : World).
      (now >>= λ at. if ltb s.expires_at at then refuse_expired s.id else load_user s) v in
    let c =
      either (ltb s.expires_at (w.env.clock (suc w.tick))) s (step (step w)) su
        (ap (λ v. (r v).0) (sym q) ∙ e) in
    let l = load_lem s (step (step w)) su c.1 in
    record { session = s; tick = suc w.tick; found = f; unexpired = c.0; same = l.0; owner = l.1 }

-- A request gets past the session check only with the cookie of a stored session that had not expired
-- when the clock was read, and what it gets is the account that this session is of.
pub get-IsValid : (t : String) (w : World) (su : SessionUser) → (get t w).0 ≡ ok su → IsValid t w su
unfolding get get_session_by_token
get-IsValid t w su e =
    let b = bind_ok (get_session_by_token t) _ w su e in
    let q = query_ok _ w b.0 b.1 in
    rest_lem t b.0 w _ su (found_lem _ b.0 q.0) (query_world _ w) b.2
