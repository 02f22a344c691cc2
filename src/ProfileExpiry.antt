-- ===== src/ProfileExpiry.antt =====
-- internal/profileexpiry/expiry.go: the job that ends assignments whose deadline has passed.
pub mod Confirmed
use ai_self_service.Prelude.{
  ℕ, String, concat, Bool, true, false, ◌||◌, Option, none, some, List, [], ◌∷◌, if◌then◌else◌,
}
use ai_self_service.Keyprovider.{GatewayError}
use ai_self_service.Database.Models.{Profile, User, ApiKey, AuditEvent, profile_expired}
use ai_self_service.Database.Errors.{Error, Result, ok, err, upstream}
use ai_self_service.Database.Profiles.Reads.{get_profile}
use ai_self_service.Database.Users.{users_with_passed_deadline, apply_profile_expiry}
use ai_self_service.Database.Keys.{get_api_key_by_user, delete_api_key}
use ai_self_service.Database.Sessions.{record_audit}
use ai_self_service.Exec.{Exec, delete_key, pure, raise, call, now, attempt, ◌>>=◌, ◌>>◌}

abbrev pub expiry_event : User → String → AuditEvent
expiry_event u detail = record {
  id = 0;
  created_at = 0;
  action = profile_expired;
  actor_email = "system";
  subject_email = u.email;
  subject_id = some u.id;
  detail = detail;
}

-- `audit`: a failure is logged and nothing else.
unfoldable pub audit : User → String → Exec (Unit {0})
audit u detail = do attempt (record_audit (expiry_event u detail)); pure tt

abbrev pub number_name : ℕ → Exec String
number_name id w = let env = w.env in (ok (concat ("profile #" ∷ env.format_number id ∷ [])), w)

unfoldable pub found_name : ℕ → Result Profile → Exec String
found_name id (ok p) = pure p.name
found_name id (err e) = number_name id

-- `destName`
unfoldable pub dest_name : Option ℕ → Exec String
unfolding found_name
dest_name none = pure "default"
dest_name (some id) = do p ← attempt (get_profile id); found_name id p

-- `switchProfile`
unfoldable pub switch_profile : User → Exec (Unit {0})
unfolding audit dest_name
switch_profile u = do
  apply_profile_expiry u.id u.profile_after_expiry
  detail ← dest_name u.profile_after_expiry
  audit u detail

unfoldable pub or_upstream : Option GatewayError → Exec (Unit {0})
or_upstream none = pure tt
or_upstream (some e) = raise (upstream e)

-- The key is deleted upstream first, and the row only after that.
unfoldable pub delete_both : Option ApiKey → Exec (Unit {0})
unfolding or_upstream
delete_both none = pure tt
delete_both (some k) = do
  answer ← call (delete_key k.key_ref)
  or_upstream answer
  delete_api_key k.id

-- `revoke`
unfoldable pub revoke : User → Exec (Unit {0})
unfolding delete_both audit
revoke u = do
  k ← get_api_key_by_user u.id
  delete_both k
  apply_profile_expiry u.id u.profile_after_expiry
  audit u "key deleted"

unfoldable pub succeeded : Result (Unit {0}) → Bool
succeeded (ok u) = true
succeeded (err e) = false

-- One user of the loop: whether their profile was switched.
unfoldable pub revert : User → Exec Bool
unfolding revoke switch_profile succeeded
revert u =
    if u.revoke_key_at_expiry
    then (do attempt (revoke u); pure false)
    else (do r ← attempt (switch_profile u); pure (succeeded r))

-- The loop: one user's failure does not stop the others.
unfoldable pub revert_all : List User → Exec Bool
unfolding revert
revert_all [] = pure false
revert_all (u ∷ us) = do switched ← revert u; more ← revert_all us; pure (switched || more)

-- `Run`: whether a run of the limit sync is asked for.
unfoldable pub run : Exec Bool
unfolding revert_all
run = do at ← now; users ← users_with_passed_deadline at; revert_all users
