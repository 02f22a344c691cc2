-- ===== src/Session/Created.antt =====
-- internal/session/session.go: a session that was created, when its cookie comes back.
use ai_self_service.Prelude.{
  ℕ, suc, ◌+◌, String, Option, none, some, Bool, true, false, not, ◌||◌, [], ◌∷◌, ◌++◌, ◌≡◌, refl,
  sym, ◌∙◌, subst, arith, find?, find?-append_none, any, any-find?, ltb, str_eq, str_eq_refl, ◌==◌,
  ==_iff, if◌then◌else◌,
}
use ai_self_service.Database.Models.{Time, User, Session}
use ai_self_service.Database.Errors.{Result, ok, err, constraint}
use ai_self_service.Database.Tables.{Db, insert_session, user_exists}
use ai_self_service.Database.Users.{get_user_by_id, user_by_id}
use ai_self_service.Database.Sessions.{create_session, get_session_by_token}
use ai_self_service.Exec.{World, step, now, token, query, ◌>>=◌}
use ai_self_service.Exec.Ensures.{
  Ensures, Ensures-bind, Ensures-now, Ensures-statement, bind_ok, ok_is,
}
use ai_self_service.Session.{SessionUser, create, store_session, get, load_user}

-- A stored session under a token, of a user that there is.
record HasSession (t : String) (user : ℕ) (id_token : String) (expires : Time) (d : Db)
    : Type 0 where
  session : Session
  found : find? (λ (s : Session). str_eq s.token t) d.sessions ≡ some session
  owner : session.user_id ≡ user
  kept : session.id_token ≡ id_token
  until : session.expires_at ≡ expires
  exists : user_exists user d ≡ true

inserted :
    (b c : Bool) (D d' : Db) (r : Unit {0})
    → (let x : Result (Unit {0} × Db) = if b || not c then err constraint else ok (tt, D) in x)
      ≡ ok (r, d')
    → (b ≡ false) × (c ≡ true) × (d' ≡ D)
inserted b c D d' r e = ground arith

insert_session-HasSession :
    (s : Session) (d : Db) (r : Unit {0}) (d' : Db)
    → insert_session s d ≡ ok (r, d')
    → HasSession s.token s.user_id s.id_token s.expires_at d'
unfolding insert_session user_exists
insert_session-HasSession s d r d' e =
    let row : Session = record s { id = d.seqs.session_seq } in
    let D : Db = record d {
      sessions = d.sessions ++ row ∷ [];
      seqs = record d.seqs { session_seq = suc d.seqs.session_seq };
    } in
    let h =
      inserted (any (λ (r : Session). str_eq r.token s.token) d.sessions)
        (any (λ (u : User). u.id == s.user_id) d.users) D d' r e in
    subst (HasSession s.token s.user_id s.id_token s.expires_at) (sym h.2) (record {
      session = row;
      found =
          find?-append_none (λ (r : Session). str_eq r.token s.token) d.sessions row h.0
            (str_eq_refl s.token);
      owner = refl;
      kept = refl;
      until = refl;
      exists = h.1;
    })

create_session-HasSession :
    (user : ℕ) (t id_token : String) (expires : Time)
    → Ensures
        (λ d. Unit {0})
        (create_session user t id_token expires)
        (λ _. HasSession t user id_token expires)
unfolding create_session
create_session-HasSession user t id_token expires =
    Ensures-bind (λ at d. Unit {0}) (Ensures-now (λ d at p. tt))
      (λ at. Ensures-statement _ (λ d r d' p e. insert_session-HasSession _ d r d' e))

now_is : (w : World) (at : Time) → (now w).0 ≡ ok at → w.env.clock w.tick ≡ at
unfolding now
now_is w at e = ok_is (w.env.clock w.tick) at e

store_lem :
    (duration : Time) (user : ℕ) (id_token : String) (o : Option String) (w : World) (t : String)
    → (store_session duration user id_token o w).0 ≡ ok t
    → HasSession t user id_token
        (w.env.clock w.tick + duration)
        (store_session duration user id_token o w).1.db
unfolding store_session
store_lem duration user id_token none w t e = cc
store_lem duration user id_token (some x) w t e =
    let b = bind_ok now _ w t e in
    let c = bind_ok (create_session user x id_token (b.0 + duration)) _ (now w).1 t b.2 in
    let h = (create_session-HasSession user x id_token (b.0 + duration)).at (now w).1 tt c.0 c.1 in
    let stored = (create_session user x id_token (b.0 + duration) (now w).1).1.db in
    subst (λ (v : World). HasSession t user id_token (w.env.clock w.tick + duration) v.db)
      (sym (b.3 ∙ c.3))
      (subst (λ y. HasSession y user id_token (w.env.clock w.tick + duration) stored)
        (ok_is x t c.2)
        (subst (λ y. HasSession x user id_token (y + duration) stored) (sym (now_is w b.0 b.1)) h))

create_lem :
    (duration : Time) (user : ℕ) (id_token t : String) (w : World)
    → (create duration user id_token w).0 ≡ ok t
    → HasSession t user id_token
        (w.env.clock (suc w.tick) + duration)
        (create duration user id_token w).1.db
unfolding create ◌>>=◌ token
create_lem duration user id_token t w e =
    store_lem duration user id_token (w.env.random_token w.tick) (step w) t e

get_lem :
    (t : String) (s : Session) (u : User) (x : World)
    → find? (λ (s : Session). str_eq s.token t) x.db.sessions ≡ some s
    → find? (λ (u : User). u.id == s.user_id) x.db.users ≡ some u
    → x.env.db_fails x.tick ≡ false
    → ltb s.expires_at (x.env.clock (suc x.tick)) ≡ false
    → x.env.db_fails (suc (suc x.tick)) ≡ false
    → (get t x).0 ≡ ok (record { session_id = s.id; id_token = s.id_token; user = u })
unfolding get get_session_by_token load_user get_user_by_id user_by_id query now ◌>>=◌
get_lem t s u x found person a b c = ground (arith, found, person, a, b, c)

-- The cookie of a session that was created brings back its user and its ID token, as long as the session
-- and the account stand in the tables as they were stored, the two reads of the database succeed, and
-- the clock has not passed the session's duration.
pub get-create :
    (duration : Time) (user : ℕ) (id_token t : String) (w x : World)
    → (create duration user id_token w).0 ≡ ok t
    → x.db ≡ (create duration user id_token w).1.db
    → x.env.db_fails x.tick ≡ false
    → ltb (w.env.clock (suc w.tick) + duration) (x.env.clock (suc x.tick)) ≡ false
    → x.env.db_fails (suc (suc x.tick)) ≡ false
    → (su : SessionUser) × ((get t x).0 ≡ ok su) × (su.user.id ≡ user) × (su.id_token ≡ id_token)
unfolding user_exists
get-create duration user id_token t w x e d a b c =
    let h =
      subst (HasSession t user id_token (w.env.clock (suc w.tick) + duration)) (sym d)
        (create_lem duration user id_token t w e) in
    let u = any-find? (λ (u : User). u.id == user) x.db.users h.exists in
    (
      record { session_id = h.session.id; id_token = h.session.id_token; user = u.0 },
      get_lem t h.session u.0 x h.found
          (subst (λ i. find? (λ (u : User). u.id == i) x.db.users ≡ some u.0) (sym h.owner) u.1) a
          (subst (λ i. ltb i (x.env.clock (suc x.tick)) ≡ false) (sym h.until) b) c,
      (==_iff u.0.id user).0 u.2,
      h.kept,
    )
