-- ===== src/Handlers/Keys.antt =====
-- internal/handlers/ui.go: a user's requests to generate, extend and delete their key. A request that
-- waits for the lock of its user in vain is one of which the context has ended. An error that is
-- answered with a status is raised, and the handler's first lines turn it into that status; metrics and
-- logs are left out, and so is the kick of the limit sync.
pub mod Deleted
pub mod Extended
pub mod NewRow
pub mod Generated
use Prim.Native.String.{len, slice}
use ai_self_service.Prelude.{
  ℕ, zero, suc, String, concat, Bool, true, false, not, Option, none, some, List, [], ◌∷◌, ◌==◌,
  ltb, str_eq, if◌then◌else◌, is_some,
}
use ai_self_service.Keyprovider.{GatewayUser, GatewayError, is_not_found, other_error}
use ai_self_service.Config.{Config, litellm_user}
use ai_self_service.Database.Models.{
  Profile, User, ApiKey, AuditEvent, AuditAction, Time, limits, key_generated, key_extended,
  key_deleted,
}
use ai_self_service.Database.Errors.{Error, Result, ok, err, upstream}
use ai_self_service.Database.Profiles.Reads.{get_profile, get_default_profile}
use ai_self_service.Database.Keys.{
  get_api_key_by_user, replace_api_key, update_api_key_expiry, delete_api_key, mark_key_missing,
  days_after,
}
use ai_self_service.Database.Sessions.{record_audit}
use ai_self_service.Alias.{new_alias}
use ai_self_service.LimitSync.{gone_detail}
use ai_self_service.Session.{SessionUser, require_session}
use ai_self_service.Exec.{
  Exec, World, Created, created, refused, create_key, delete_key, update_expiry, pure, raise, call,
  create, token, now, ctx_done, attempt, ◌>>=◌, ◌>>◌,
}
use ai_self_service.Handlers.Flash.{KeyFlash, put}

pub data Response : Type 0 where
  redirect : String → Response
  status : ℕ → Response

-- `audit`: a failure is logged and nothing else.
unfoldable pub audit : AuditAction → User → String → Exec (Unit {0})
audit action u detail = do
  attempt (
      record_audit (record {
        id = 0;
        created_at = 0;
        action = action;
        actor_email = u.email;
        subject_email = u.email;
        subject_id = some u.id;
        detail = detail;
      }))
  pure tt

-- `resolveProfile`
unfoldable pub resolve_profile : Option ℕ → Exec Profile
resolve_profile none = get_default_profile
resolve_profile (some id) = get_profile id

-- `keyDuration`, for a profile that is there.
unfoldable pub key_duration : Config → Profile → ℕ
key_duration c p = if ltb 0 p.key_duration_days then p.key_duration_days else c.key_duration_days

-- The first twelve bytes of a secret.
unfoldable pub prefix_of : String → String
prefix_of secret = if ltb 12 (len secret) then slice secret 0 12 else secret

-- `refuseIfRetired` and `lockKeys`, before what the request does.
unfoldable pub locked : {A : Type 0} → (Response → A) → Exec A → Exec A
locked answer body = do ended ← ctx_done; if ended then pure (answer (status 503)) else body

unfoldable pub answered : {A : Type 0} → A → Result A → A
answered failed (ok a) = a
answered failed (err e) = failed

unfoldable pub alias_or_raise : Option (List ℕ) → Exec (List ℕ)
alias_or_raise none = raise (upstream (other_error "generate key alias"))
alias_or_raise (some a) = pure a

abbrev pub new_row : User → Profile → Time → String → String → ApiKey
new_row u p expires secret ref = record {
  id = 0;
  user_id = u.id;
  key_ref = ref;
  key_prefix = prefix_of secret;
  expires_at = expires;
  created_at = 0;
  synced_profile_id = some p.id;
  synced_rev = some p.limits_rev;
  synced_owner_name = some u.name;
  synced_owner_email = some u.email;
  sync_error = "";
  sync_failed_at = none;
  missing_since = none;
}

-- The old key is unreferenced now; a failure to delete it is logged.
unfoldable pub revoke_old : Option ApiKey → Exec (Unit {0})
revoke_old none = pure tt
revoke_old (some k) = do call (delete_key k.key_ref); pure tt

unfoldable pub stash : ℕ → String → KeyFlash → Option String → Exec (Response × KeyFlash)
stash user secret flash none = pure (redirect "/", flash)
stash user secret flash (some t) = do
  at_gc ← now
  at ← now
  pure (redirect (concat ("/?k=" ∷ t ∷ [])), (put user secret (some t) at_gc at flash).1)

unfoldable pub finish_new : User → KeyFlash → Option ApiKey → String → Exec (Response × KeyFlash)
unfolding revoke_old audit stash
finish_new u flash existing secret = do
  revoke_old existing
  audit key_generated u (concat ("key " ∷ prefix_of secret ∷ []))
  t ← token
  stash u.id secret flash t

-- A key that could not be recorded is deleted again.
unfoldable pub after_store :
    User → KeyFlash → Option ApiKey → String → String → Result ℕ → Exec (Response × KeyFlash)
unfolding finish_new
after_store u flash existing secret ref (err e) = do call (delete_key ref); raise e
after_store u flash existing secret ref (ok id) = finish_new u flash existing secret

unfoldable pub after_create :
    User → KeyFlash → Option ApiKey → Profile → Time → Created → Exec (Response × KeyFlash)
unfolding after_store
after_create u flash existing p expires (refused e) = raise (upstream e)
after_create u flash existing p expires (created secret ref) = do
  stored ← attempt (replace_api_key (new_row u p expires secret ref))
  after_store u flash existing secret ref stored

unfoldable pub new_key :
    Config → User → KeyFlash → Option ApiKey → Profile → Exec (Response × KeyFlash)
unfolding alias_or_raise key_duration after_create
new_key c u flash existing p = do
  hex ← new_alias u.oidc_sub u.name
  alias ← alias_or_raise hex
  at ← now
  expires ← days_after at (key_duration c p)
  made ←
      create (create_key alias (litellm_user c u.oidc_sub u.name u.email) expires (limits (some p)))
  after_create u flash existing p expires made

-- What `GenerateKey` does under the lock, with an error for each answer 500.
unfoldable pub generate : Config → User → KeyFlash → Exec (Response × KeyFlash)
unfolding resolve_profile new_key
generate c u flash = do
  existing ← get_api_key_by_user u.id
  p ← resolve_profile u.profile_id
  new_key c u flash existing p

unfoldable pub generate_for : Config → KeyFlash → Result SessionUser → Exec (Response × KeyFlash)
unfolding locked generate answered
generate_for c flash (err e) = pure (redirect "/login", flash)
generate_for c flash (ok su) =
    if not (str_eq c.successor_url "")
    then pure (status 403, flash)
    else locked (λ r. (r, flash))
        (do r ← attempt (generate c su.user flash); pure (answered (status 500, flash) r))

-- `GenerateKey`
unfoldable pub generate_key : Config → String → KeyFlash → Exec (Response × KeyFlash)
unfolding generate_for
generate_key c cookie flash = do su ← attempt (require_session cookie); generate_for c flash su

-- `markMissingKey`
unfoldable pub mark_missing_key : User → ApiKey → String → Exec (Unit {0})
mark_missing_key u k source = do
  mark_key_missing k.id u.id u.email (gone_detail k.key_prefix source)
  pure tt

unfoldable pub after_extend : User → ApiKey → Time → Option GatewayError → Exec Response
unfolding mark_missing_key audit
after_extend u k expires (some e) =
    if is_not_found e
    then (do mark_missing_key u k "extend"; pure (redirect "/"))
    else raise (upstream e)
after_extend u k expires none = do
  attempt (update_api_key_expiry k.id expires)
  until ← (λ w. let env = w.env in (ok (concat ("until " ∷ env.format_date expires ∷ [])), w))
  audit key_extended u until
  pure (redirect "/")

unfoldable pub push_expiry : Config → User → ApiKey → Exec Response
unfolding resolve_profile key_duration after_extend
push_expiry c u k = do
  p ← resolve_profile u.profile_id
  at ← now
  expires ← days_after at (key_duration c p)
  answer ← call (update_expiry k.key_ref expires)
  after_extend u k expires answer

unfoldable pub extend_existing : Config → User → Option ApiKey → Exec Response
unfolding push_expiry
extend_existing c u none = pure (status 400)
extend_existing c u (some k) =
    if is_some k.missing_since then pure (redirect "/") else push_expiry c u k

unfoldable pub extend : Config → User → Exec Response
unfolding extend_existing
extend c u = do k ← get_api_key_by_user u.id; extend_existing c u k

unfoldable pub extend_for : Config → Result SessionUser → Exec Response
unfolding locked extend answered
extend_for c (err e) = pure (redirect "/login")
extend_for c (ok su) =
    if not (str_eq c.successor_url "")
    then pure (status 403)
    else locked (λ r. r) (do r ← attempt (extend c su.user); pure (answered (status 500) r))

-- `ExtendKey`
unfoldable pub extend_key : Config → String → Exec Response
unfolding extend_for
extend_key c cookie = do su ← attempt (require_session cookie); extend_for c su

unfoldable pub after_delete : User → ApiKey → Option GatewayError → Exec Response
unfolding audit
after_delete u k (some e) = raise (upstream e)
after_delete u k none = do
  audit key_deleted u (concat ("key " ∷ k.key_prefix ∷ []))
  delete_api_key k.id
  pure (redirect "/")

unfoldable pub delete_existing : User → Result (Option ApiKey) → Exec Response
unfolding after_delete
delete_existing u (err e) = pure (redirect "/")
delete_existing u (ok none) = pure (redirect "/")
delete_existing u (ok (some k)) = do answer ← call (delete_key k.key_ref); after_delete u k answer

-- What `DeleteKey` does under the lock.
unfoldable pub delete : User → Exec Response
unfolding delete_existing
delete u = do k ← attempt (get_api_key_by_user u.id); delete_existing u k

unfoldable pub delete_for : Result SessionUser → Exec Response
unfolding locked delete answered
delete_for (err e) = pure (redirect "/login")
delete_for (ok su) =
    locked (λ r. r) (do r ← attempt (delete su.user); pure (answered (status 500) r))

-- `DeleteKey`
unfoldable pub delete_own_key : String → Exec Response
unfolding delete_for
delete_own_key cookie = do su ← attempt (require_session cookie); delete_for su
