-- ===== src/Database/Atomicity.antt =====
-- A method of the Store that fails has changed no row, at whatever statement it failed.
use ai_self_service.Prelude.{
  ℕ, String, ◌≡◌, refl, ap, Bool, false, Option, none, some, List, [], ◌∷◌, ◌==◌, arith,
  if◌then◌else◌, any, update_if,
}
use ai_self_service.Database.Models.{User, Time}
use ai_self_service.Database.Errors.{Error, Result, ok, err, no_rows}
use ai_self_service.Database.Tables.{Db, user_exists, update_user_row}
use ai_self_service.Database.Profiles.{
  seed_default_profile, create_profile, update_profile, delete_profile,
}
use ai_self_service.Database.Users.{
  create_user, refresh_user, known_or_new, get_or_create_user, set_user_profile,
  set_user_profile_until, apply_profile_expiry, admin_row, set_user_admin,
}
use ai_self_service.Database.Keys.{
  replace_api_key, create_api_key, update_api_key_expiry, delete_api_key, mark_expiry_notice_sent,
}
use ai_self_service.Database.Sessions.{
  create_session, delete_session, delete_sessions_by_sub, delete_expired_sessions, record_audit,
}
use ai_self_service.Database.SyncQueries.{
  mark_limits_synced, mark_limit_sync_failed, mark_all_limits_pending,
}
use ai_self_service.Database.Writes.{Write, write}
use ai_self_service.Exec.{World, Exec, pure, raise, now, statement, ◌>>=◌}
use ai_self_service.Exec.Atomic.{
  Atomic, Total, Atomic-run_in_tx, Atomic-statement, Atomic-change, Atomic-bind_read,
  Atomic-bind-Total, Total-Atomic, ReadOnly-now, ReadOnly-query, ReadOnly-attempt, Total-pure,
  Total-now, Total-attempt, Total-bind,
}

ruleset atomic_rules = (Atomic-run_in_tx, Atomic-statement, Atomic-change, ReadOnly-now)

-- A statement at the current time, as most of the methods are.
at_now-Atomic : {A : Type 0} (f : Time → Exec A) → ((t : Time) → Atomic (f t)) → Atomic (now >>= f)
at_now-Atomic f h = Atomic-bind_read ReadOnly-now h

refresh_user-Total : (email name : String) (u : User) → Total (refresh_user email name u)
unfolding refresh_user
refresh_user-Total email name u =
    Total-bind Total-now (λ t. Total-bind (Total-attempt _) (λ _. Total-pure _))

create_user-Atomic : (sub email name : String) → Atomic (create_user sub email name)
unfolding create_user
create_user-Atomic sub email name =
    at_now-Atomic _ (λ t. Atomic-bind-Total (Atomic-statement _) (λ id. Total-pure _))

known_or_new-Atomic :
    (sub email name : String) (r : Result User) → Atomic (known_or_new sub email name r)
unfolding known_or_new
known_or_new-Atomic sub email name (ok u) = Total-Atomic (refresh_user-Total email name u)
known_or_new-Atomic sub email name (err e) = create_user-Atomic sub email name

get_or_create_user-Atomic : (sub email name : String) → Atomic (get_or_create_user sub email name)
unfolding get_or_create_user
get_or_create_user-Atomic sub email name =
    Atomic-bind_read (ReadOnly-attempt (ReadOnly-query _)) (known_or_new-Atomic sub email name)

set_user_profile_until-Atomic :
    (id : ℕ) (ref : Option ℕ) (at : Option Time) (after : Option ℕ) (revoke : Bool)
    → Atomic (set_user_profile_until id ref at after revoke)
unfolding set_user_profile_until
set_user_profile_until-Atomic id ref none after revoke = at_now-Atomic _ (λ t. Atomic-statement _)
set_user_profile_until-Atomic id ref (some x) after revoke =
    at_now-Atomic _ (λ t. Atomic-statement _)

update_if_none :
    {A : Type 0} (p : A → Bool) (f : A → A) (xs : List A) → any p xs ≡ false → update_if p f xs ≡ xs
unfolding any update_if
update_if_none p f [] h = refl
update_if_none p f (x ∷ xs) h = ground (arith, update_if_none p f xs)

update_user_row_none :
    (id : ℕ) (f : User → User) (d : Db) → user_exists id d ≡ false → update_user_row id f d ≡ d
unfolding user_exists update_user_row
update_user_row_none id f d h =
    ap (λ us. record d { users = us }) (update_if_none (λ (u : User). u.id == id) f d.users h)

admin_row-Atomic :
    (id : ℕ) (admin : Bool) (t : Time)
    → Atomic (statement (admin_row id admin t) >>= λ met. if met then pure tt else raise no_rows)
unfolding statement ◌>>=◌ admin_row
admin_row-Atomic id admin t = record {
  at = λ w e h.
      ground
        (arith, update_user_row_none id (λ u. record u { is_admin = admin; updated_at = t }) w.db);
}

write-Atomic_of : {A : Type 0} {m : Exec A} → Atomic m → Atomic (m >>= λ _. pure tt)
write-Atomic_of h = Atomic-bind-Total h (λ _. Total-pure tt)

update_api_key_expiry-Atomic : (id : ℕ) (t : Time) → Atomic (update_api_key_expiry id t)
unfolding update_api_key_expiry
update_api_key_expiry-Atomic id t = Atomic-run_in_tx _

-- Each method, by how it is built.
pub write-Atomic : (c : Write) → Atomic (write c)
unfolding write seed_default_profile create_profile update_profile delete_profile set_user_profile
    apply_profile_expiry set_user_admin replace_api_key create_api_key delete_api_key
    mark_expiry_notice_sent create_session delete_session delete_sessions_by_sub
    delete_expired_sessions record_audit mark_limits_synced mark_limit_sync_failed
    mark_all_limits_pending
write-Atomic Write.seeds = write-Atomic_of (Atomic-run_in_tx _)
write-Atomic (Write.creates_profile p qs) = write-Atomic_of (Atomic-run_in_tx _)
write-Atomic (Write.updates_profile p qs) = write-Atomic_of (Atomic-run_in_tx _)
write-Atomic (Write.deletes_profile id) = write-Atomic_of (Atomic-run_in_tx _)
write-Atomic (Write.signs_in sub email name) =
    write-Atomic_of (get_or_create_user-Atomic sub email name)
write-Atomic (Write.assigns id ref) = write-Atomic_of (at_now-Atomic _ (λ t. Atomic-statement _))
write-Atomic (Write.assigns_until id ref at after revoke) =
    write-Atomic_of (set_user_profile_until-Atomic id ref at after revoke)
write-Atomic (Write.expires id ref) = write-Atomic_of (at_now-Atomic _ (λ t. Atomic-statement _))
write-Atomic (Write.sets_admin id admin) =
    write-Atomic_of (at_now-Atomic _ (admin_row-Atomic id admin))
write-Atomic (Write.replaces_key k) = write-Atomic_of (at_now-Atomic _ (λ t. Atomic-run_in_tx _))
write-Atomic (Write.creates_key k) = write-Atomic_of (at_now-Atomic _ (λ t. Atomic-statement _))
write-Atomic (Write.moves_expiry id at) = write-Atomic_of (update_api_key_expiry-Atomic id at)
write-Atomic (Write.deletes_key id) = write-Atomic_of (Atomic-change _)
write-Atomic (Write.notices id days) = write-Atomic_of (at_now-Atomic _ (λ t. Atomic-statement _))
write-Atomic (Write.opens_session id token id_token at) =
    write-Atomic_of (at_now-Atomic _ (λ t. Atomic-statement _))
write-Atomic (Write.closes_session id) = write-Atomic_of (Atomic-change _)
write-Atomic (Write.closes_sessions_of sub) = write-Atomic_of (Atomic-change _)
write-Atomic Write.sweeps_sessions = write-Atomic_of (at_now-Atomic _ (λ t. Atomic-change _))
write-Atomic (Write.audits e) = write-Atomic_of (at_now-Atomic _ (λ t. Atomic-change _))
write-Atomic (Write.marks_synced id profile rev name email) = write-Atomic_of (Atomic-change _)
write-Atomic (Write.marks_failed id reason at) = write-Atomic_of (Atomic-change _)
write-Atomic Write.marks_all_pending = write-Atomic_of (Atomic-statement _)

-- A method that changes rows, other than the three for keys missing from the gateway, and returns an
-- error leaves every table as it was, whichever of its statements, BEGIN or COMMIT the engine
-- refuses, or whatever constraint or check of the code stops it.
pub write_rolled_back :
    (c : Write) (w : World) (e : Error) → (write c w).0 ≡ err e → (write c w).1.db ≡ w.db
write_rolled_back c w e h = (write-Atomic c).at w e h
