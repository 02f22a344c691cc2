-- ===== src/Database/Defaults/Others.antt =====
-- The operations on users, keys, sessions and the audit log leave the profiles alone; with the
-- operations on profiles, every method of the Store keeps the default profile.
use ai_self_service.Prelude.{ℕ, ◌≡◌, refl, sym, subst, Bool, Option, none, some, String, arith}
use ai_self_service.Database.Models.{User, ApiKey, Session, ExpiryNotice, Time}
use ai_self_service.Database.Errors.{Result, ok, err}
use ai_self_service.Database.Tables.{
  Db, insert_user, update_user_row, insert_key, update_keys, delete_keys, delete_notices_of,
  insert_notice, insert_session, delete_sessions, insert_event,
}
use ai_self_service.Database.Users.{
  new_user, create_user, refresh_user, known_or_new, get_or_create_user, assign_row,
  set_user_profile, set_user_profile_until, apply_profile_expiry, admin_row, set_user_admin,
}
use ai_self_service.Database.Keys.{
  replace_api_key, create_api_key, update_api_key_expiry, delete_api_key, mark_expiry_notice_sent,
}
use ai_self_service.Database.Sessions.{
  create_session, delete_session, delete_sessions_by_sub, delete_expired_sessions, record_audit,
}
use ai_self_service.Database.SyncQueries.{
  mark_limits_synced, mark_limit_sync_failed, mark_all_limits_pending,
}
use ai_self_service.Database.Writes.{Write, write}
use ai_self_service.Database.Atomicity.{write-Atomic}
use ai_self_service.Database.Defaults.Rows.{HasDefault}
use ai_self_service.Database.Defaults.Saves.{
  Good, Keeps, create_profile-Keeps, update_profile-Keeps, delete_profile-Keeps,
}
use ai_self_service.Database.Defaults.Seed.{seed_default_profile-Keeps}
use ai_self_service.Exec.{Exec, World, pure, now, query, statement, change, attempt, ◌>>=◌}
use ai_self_service.Exec.Ensures.{
  Ensures-pure, Ensures-raise, Ensures-statement, Ensures-change, Ensures-now, Ensures-run_in_tx,
  Ensures-if, Ensures-bind, Atomic-keeps,
}

-- A statement that leaves the profiles alone.
abbrev Apart : {A : Type 0} → (Db → Result (A × Db)) → Type 0
Apart {A} f = (d d' : Db) (a : A) → f d ≡ ok (a, d') → d'.profiles ≡ d.profiles

Keeps-statement : {A : Type 0} (f : Db → Result (A × Db)) → Apart f → Keeps (statement f)
Keeps-statement f h = Ensures-statement f (λ d a d' g e. subst HasDefault (sym (h d d' a e)) g)

Keeps-change : (f : Db → Db) → ((d : Db) → (f d).profiles ≡ d.profiles) → Keeps (change f)
Keeps-change f h = Ensures-change f (λ d g. subst HasDefault (sym (h d)) g)

Keeps-bind :
    {A B : Type 0} {m : Exec A} {f : A → Exec B}
    → Keeps m
    → ((a : A) → Keeps (f a))
    → Keeps (m >>= f)
Keeps-bind h k = Ensures-bind (λ _. Good) h k

Keeps-now : Keeps now
Keeps-now = Ensures-now (λ d t g. g)

Keeps-pure : {A : Type 0} (a : A) → Keeps (pure a)
Keeps-pure a = Ensures-pure a (λ d g. g)

at_now :
    {A : Type 0} (f : Time → Db → Result (A × Db))
    → ((t : Time) → Apart (f t))
    → Keeps (now >>= λ t. statement (f t))
at_now f h = Keeps-bind Keeps-now (λ t. Keeps-statement (f t) (h t))

Apart-insert_user : (u : User) → Apart (insert_user u)
unfolding insert_user
Apart-insert_user u d d' a e = ground arith

Apart-assign_row : (id : ℕ) (ref : Option ℕ) (f : User → User) → Apart (assign_row id ref f)
unfolding assign_row
Apart-assign_row id ref f d d' a e = ground arith

Apart-admin_row : (id : ℕ) (admin : Bool) (t : Time) → Apart (admin_row id admin t)
unfolding admin_row
Apart-admin_row id admin t d d' a e = ground arith

Apart-insert_key : (k : ApiKey) → Apart (insert_key k)
unfolding insert_key
Apart-insert_key k d d' a e = ground arith

Apart-insert_notice : (n : ExpiryNotice) → Apart (insert_notice n)
unfolding insert_notice
Apart-insert_notice n d d' a e = ground arith

Apart-insert_session : (s : Session) → Apart (insert_session s)
unfolding insert_session
Apart-insert_session s d d' a e = ground arith

refresh_user-Keeps : (email name : String) (u : User) → Keeps (refresh_user email name u)
unfolding refresh_user change statement attempt update_user_row ◌>>=◌ now
refresh_user-Keeps email name u = record { at = λ w g a e. ground arith }

known_or_new-Keeps :
    (sub email name : String) (r : Result User) → Keeps (known_or_new sub email name r)
unfolding known_or_new create_user
known_or_new-Keeps sub email name (ok u) = refresh_user-Keeps email name u
known_or_new-Keeps sub email name (err e) = Keeps-bind Keeps-now λ at.
    Keeps-bind (Keeps-statement _ (Apart-insert_user (new_user sub email name at)))
      λ id. Keeps-pure _

attempt-query-Keeps : {A : Type 0} (f : Db → Result A) → Keeps (attempt (query f))
unfolding attempt query
attempt-query-Keeps f = record { at = λ w g a e. ground arith }

get_or_create_user-Keeps : (sub email name : String) → Keeps (get_or_create_user sub email name)
unfolding get_or_create_user
get_or_create_user-Keeps sub email name =
    Keeps-bind (attempt-query-Keeps _) (known_or_new-Keeps sub email name)

set_user_profile_until-Keeps :
    (id : ℕ) (ref : Option ℕ) (at : Option Time) (after : Option ℕ) (revoke : Bool)
    → Keeps (set_user_profile_until id ref at after revoke)
unfolding set_user_profile_until
set_user_profile_until-Keeps id ref none after revoke = at_now _ (λ t. Apart-assign_row id ref _)
set_user_profile_until-Keeps id ref (some x) after revoke =
    at_now _ (λ t. Apart-assign_row id ref _)

key_ops-Keeps : (id : ℕ) (t : Time) → Keeps (update_api_key_expiry id t) × Keeps (delete_api_key id)
unfolding update_api_key_expiry delete_api_key update_keys delete_keys delete_notices_of
key_ops-Keeps id t = (
  Ensures-run_in_tx (Keeps-bind (Keeps-change _ (λ d. refl)) λ _. Keeps-change _ (λ d. refl)),
  Keeps-change _ (λ d. refl),
)

insert_keys-Keeps : (k : ApiKey) → Keeps (replace_api_key k) × Keeps (create_api_key k)
unfolding replace_api_key create_api_key delete_keys
insert_keys-Keeps k = (
  Keeps-bind Keeps-now λ at. Ensures-run_in_tx (
      Keeps-bind (Keeps-change _ (λ d. refl))
        λ _. Keeps-statement _ (Apart-insert_key (record k { created_at = at }))),
  at_now _ (λ at. Apart-insert_key (record k { created_at = at })),
)

set_user_admin-Keeps : (id : ℕ) (admin : Bool) → Keeps (set_user_admin id admin)
unfolding set_user_admin
set_user_admin-Keeps id admin = Keeps-bind Keeps-now λ at.
    Keeps-bind (Keeps-statement _ (Apart-admin_row id admin at))
      λ met. Ensures-if met (λ _. Keeps-pure tt) (λ _. Ensures-raise _)

ignored : {A : Type 0} {m : Exec A} → Keeps m → Keeps (m >>= λ _. pure tt)
ignored h = Keeps-bind h (λ _. Keeps-pure tt)

write-Keeps : (c : Write) → Keeps (write c)
unfolding write set_user_profile apply_profile_expiry mark_expiry_notice_sent create_session
    delete_session delete_sessions_by_sub delete_expired_sessions record_audit mark_limits_synced
    mark_limit_sync_failed mark_all_limits_pending update_keys delete_sessions insert_event
write-Keeps Write.seeds = ignored seed_default_profile-Keeps
write-Keeps (Write.creates_profile p qs) = ignored (create_profile-Keeps p qs)
write-Keeps (Write.updates_profile p qs) = ignored (update_profile-Keeps p qs)
write-Keeps (Write.deletes_profile id) = ignored (delete_profile-Keeps id)
write-Keeps (Write.signs_in sub email name) = ignored (get_or_create_user-Keeps sub email name)
write-Keeps (Write.assigns id ref) = ignored (at_now _ (λ t. Apart-assign_row id ref _))
write-Keeps (Write.assigns_until id ref at after revoke) =
    ignored (set_user_profile_until-Keeps id ref at after revoke)
write-Keeps (Write.expires id ref) = ignored (at_now _ (λ t. Apart-assign_row id ref _))
write-Keeps (Write.sets_admin id admin) = ignored (set_user_admin-Keeps id admin)
write-Keeps (Write.replaces_key k) = ignored (insert_keys-Keeps k).0
write-Keeps (Write.creates_key k) = ignored (insert_keys-Keeps k).1
write-Keeps (Write.moves_expiry id at) = ignored (key_ops-Keeps id at).0
write-Keeps (Write.deletes_key id) = ignored (key_ops-Keeps id 0).1
write-Keeps (Write.notices id days) = ignored (at_now _ (λ t. Apart-insert_notice _))
write-Keeps (Write.opens_session id token id_token at) =
    ignored (at_now _ (λ t. Apart-insert_session _))
write-Keeps (Write.closes_session id) = ignored (Keeps-change _ (λ d. refl))
write-Keeps (Write.closes_sessions_of sub) = ignored (Keeps-change _ (λ d. refl))
write-Keeps Write.sweeps_sessions = ignored (Keeps-bind Keeps-now (λ t. Keeps-change _ (λ d. refl)))
write-Keeps (Write.audits e) = ignored (Keeps-bind Keeps-now (λ t. Keeps-change _ (λ d. refl)))
write-Keeps (Write.marks_synced id profile rev name email) = ignored (Keeps-change _ (λ d. refl))
write-Keeps (Write.marks_failed id reason at) = ignored (Keeps-change _ (λ d. refl))
write-Keeps Write.marks_all_pending = ignored (Keeps-statement _ (λ d d' a e. ground arith))

-- Where exactly one profile is the default and ids are unique, that is still so after any call of a
-- method that changes rows, other than the three for keys missing from the gateway, whether it
-- returns or fails and whatever the engine refuses.
pub write-HasDefault :
    (c : Write) (w : World) → HasDefault w.db.profiles → HasDefault (write c w).1.db.profiles
write-HasDefault c w g = Atomic-keeps w (write-Atomic c) (write-Keeps c) g
