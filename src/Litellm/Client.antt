-- ===== src/Litellm/Client.antt =====
-- internal/litellm/client.go, usage.go, user.go: the calls about keys, people and models.
pub mod Enforced
pub mod Missing
use ai_self_service.Prelude.{
  ℕ, zero, suc, ◌+◌, String, Bool, true, false, not, ◌&&◌, ◌||◌, Option, none, some, List, [], ◌∷◌,
  ◌==◌, str_eq, any, length, sort_by, text_before, map, filter, if◌then◌else◌,
}
use ai_self_service.Keyprovider.{Float64, QuotaWindow, Limits, GatewayUser, is_finite}
use ai_self_service.Database.Models.{Time}
use ai_self_service.Litellm.{effective_windows}
use ai_self_service.Litellm.KeyParams.{KeyParams, KeyInfo, BudgetWindow, listed_windows}
use ai_self_service.Litellm.Http.{
  Field, omitted, null, given, nullable, KeyUpdate, UserBody, Request, key_generate, key_update,
  key_delete, get_key_info, user_new, user_update, get_user_info, get_model_info, UserInfoBody,
  ModelEntry, HttpAnswer, ClientError, answered_with, gone, undecodable, empty_key,
  unsupported_value, conflicting, is_gone, Client, return, fail_with, send, Reply, done, refused,
  ◌>>=◌,
}

-- `isLiteLLMNotFound`, of the decoded body.
unfoldable pub is_litellm_not_found : HttpAnswer → Bool
is_litellm_not_found a = elim a.error_code [ none ↦ false | some code ↦ str_eq code "404" ]

-- `keyCallError`
unfoldable pub key_call_error : String → HttpAnswer → ClientError
unfolding is_litellm_not_found
key_call_error route a =
    if a.status == 404 && is_litellm_not_found a
    then gone route
    else answered_with route a.status a.body

-- The end of a call about one key.
unfoldable pub key_answer : String → HttpAnswer → Client (Unit {0})
unfolding key_call_error
key_answer route a = if a.status == 200 then return tt else fail_with (key_call_error route a)

unfoldable pub decoded : {A : Type 0} → String → Option A → Client A
decoded route none = fail_with (undecodable route)
decoded route (some a) = return a

abbrev pub with_ref : (String → String) → String → String → String × String
with_ref hash secret ref = (secret, (if str_eq ref "" then hash secret else ref))

-- The secret and the ref: the gateway's token, or the hash of the secret.
unfoldable pub issued : String × String → Client (String × String)
issued (secret, ref) =
    if str_eq secret "" then fail_with empty_key else λ w. (done (with_ref w.sha256 secret ref), w)

unfoldable pub generated_key : HttpAnswer → Client (String × String)
unfolding issued decoded
generated_key a =
    if a.status == 200
    then (do r ← decoded "/key/generate" a.generated; issued r)
    else fail_with (answered_with "/key/generate" a.status a.body)

abbrev pub days_text : Time → Client String
days_text at w = (done (w.days_until at), w)

-- Whether a payload's amounts are numbers of JSON.
abbrev pub finite_amount : Field Float64 → Bool
finite_amount omitted = true
finite_amount null = true
finite_amount (given b) = is_finite b

abbrev pub all_finite : List QuotaWindow → Bool
all_finite ws = not (any (λ (q : QuotaWindow). not (is_finite q.budget)) ws)

abbrev pub finite_windows : Field (List QuotaWindow) → Bool
finite_windows omitted = true
finite_windows null = true
finite_windows (given ws) = all_finite ws

-- What follows `json.Marshal`, if that has a text for the payload.
unfoldable pub when_marshalled : Bool → Client HttpAnswer → Client HttpAnswer
when_marshalled b m = if b then m else fail_with unsupported_value

-- `Client.CreateKey`
unfoldable pub create_key : String → KeyParams → Time → Client (String × String)
unfolding when_marshalled generated_key
create_key alias params expires_at = do
  duration ← days_text expires_at
  a ←
      when_marshalled
        (finite_amount (nullable params.max_budget) && all_finite params.budget_limits)
        (send (key_generate params alias duration))
  generated_key a

-- A delete that finds no key has what it asks for.
unfoldable pub deleted_key : HttpAnswer → Client (Unit {0})
unfolding key_call_error is_gone
deleted_key a =
    let e = key_call_error "/key/delete" a in
    if a.status == 200 then return tt else if is_gone e then return tt else fail_with e

-- `Client.DeleteKey`
unfoldable pub delete_key : String → Client (Unit {0})
unfolding deleted_key
delete_key ref = do a ← send (key_delete ref); deleted_key a

abbrev pub only_key : String → KeyUpdate
only_key ref = record {
  key = ref;
  key_alias = omitted;
  duration = omitted;
  user_id = omitted;
  models = omitted;
  tpm_limit = omitted;
  rpm_limit = omitted;
  max_budget = omitted;
  budget_duration = omitted;
  budget_limits = omitted;
}

unfoldable pub update_key : KeyUpdate → Client (Unit {0})
unfolding when_marshalled key_answer
update_key body = do
  a ←
      when_marshalled (finite_amount body.max_budget && finite_windows body.budget_limits)
        (send (key_update body))
  key_answer "/key/update" a

-- `Client.UpdateKeyExpiry`
unfoldable pub update_key_expiry : String → Time → Client (Unit {0})
unfolding update_key
update_key_expiry ref expires_at = do
  duration ← days_text expires_at
  update_key (record (only_key ref) { duration = given duration })

-- `Client.UpdateKeyAlias`
unfoldable pub update_key_alias : String → String → Client (Unit {0})
unfolding update_key
update_key_alias ref alias = update_key (record (only_key ref) { key_alias = given alias })

-- The two shapes of the windows in an update, one of them null.
unfoldable pub with_budget : List QuotaWindow → KeyUpdate → KeyUpdate
with_budget [] body = record body {
  max_budget = null;
  budget_duration = null;
  budget_limits = null;
}
with_budget (w ∷ []) body = record body {
  max_budget = given w.budget;
  budget_duration = given w.period;
  budget_limits = null;
}
with_budget (w ∷ v ∷ ws) body = record body {
  budget_limits = given (w ∷ v ∷ ws);
  max_budget = null;
  budget_duration = null;
}

-- The payload of `UpdateKeyLimits`.
unfoldable pub limits_update : String → String → Limits → KeyUpdate
unfolding with_budget nullable
limits_update ref owner_id l = with_budget (effective_windows l) (record (only_key ref) {
  tpm_limit = nullable l.tokens_per_minute;
  rpm_limit = nullable l.requests_per_minute;
  user_id = if str_eq owner_id "" then omitted else given owner_id;
  models = given l.models;
})

-- `Client.UpdateKeyLimits`
unfoldable pub update_key_limits : String → String → Limits → Client (Unit {0})
unfolding update_key limits_update
update_key_limits ref owner_id l = update_key (limits_update ref owner_id l)

-- A text that is left out where it is empty.
unfoldable pub unless_empty : String → Field String
unless_empty s = if str_eq s "" then omitted else given s

unfoldable pub with_allowance : Option QuotaWindow → UserBody → UserBody
with_allowance none body = record body { max_budget = null; budget_duration = null }
with_allowance (some w) body = record body {
  max_budget = given w.budget;
  budget_duration = given w.period;
}

-- The payload of `UpsertUser`.
unfoldable pub user_body : GatewayUser → Option QuotaWindow → UserBody
unfolding unless_empty with_allowance
user_body u budget = with_allowance budget (record {
  user_id = u.id;
  user_alias = unless_empty u.name;
  user_email = unless_empty u.email;
  max_budget = omitted;
  budget_duration = omitted;
  auto_create_key = omitted;
})

unfoldable pub updated_user : String → HttpAnswer → Client (Unit {0})
updated_user conflict a =
    if a.status == 200 then return tt else fail_with (conflicting a.status a.body conflict)

-- 409 is the answer where the user is there already.
unfoldable pub created_user : UserBody → HttpAnswer → Client (Unit {0})
unfolding updated_user
created_user body a =
    if a.status == 200
    then return tt
    else if a.status == 409
    then (do b ← send (user_update body); updated_user a.body b)
    else fail_with (answered_with "/user/new" a.status a.body)

-- `Client.UpsertUser`
unfoldable pub upsert_user : GatewayUser → Option QuotaWindow → Client (Unit {0})
unfolding user_body when_marshalled created_user
upsert_user u budget = do
  let body = user_body u budget
  a ←
      when_marshalled (finite_amount body.max_budget)
        (send (user_new (record body { auto_create_key = given false })))
  created_user body a

unfoldable pub live_key : KeyInfo → Client KeyInfo
live_key info = if str_eq info.status "deleted" then fail_with (gone "/key/info") else return info

unfoldable pub read_key_info : HttpAnswer → Client KeyInfo
unfolding live_key decoded key_call_error
read_key_info a =
    if a.status == 200
    then (do info ← decoded "/key/info" a.key_info; live_key info)
    else fail_with (key_call_error "/key/info" a)

-- `Client.keyInfo`
unfoldable pub key_info : String → Client KeyInfo
unfolding read_key_info
key_info ref = do a ← send (get_key_info ref); read_key_info a

-- `keyprovider.Quota`
pub record Quota : Type 0 where
  pub used : Float64
  pub limit : Float64
  pub resets_at : Time

abbrev pub no_quota : Quota
no_quota = record { used = 0; limit = 0; resets_at = 0 }

abbrev pub or_zero : Option ℕ → ℕ
or_zero none = 0
or_zero (some n) = n

abbrev pub parsed_time : (String → Option Time) → Option String → Time
parsed_time parse none = 0
parsed_time parse (some s) = or_zero (parse s)

unfoldable pub quota_of : Float64 → Option Float64 → Option String → Client Quota
quota_of spend max_budget reset_at w = (
  done (record {
    used = spend;
    limit = or_zero max_budget;
    resets_at = parsed_time w.parse_time reset_at;
  }),
  w,
)

-- `Client.KeyQuota`
unfoldable pub key_quota : String → Client Quota
unfolding key_info quota_of
key_quota ref = do info ← key_info ref; quota_of info.spend info.max_budget info.budget_reset_at

-- `Client.keyWindows`
unfoldable pub key_windows_of : String → Client (List BudgetWindow)
unfolding key_info listed_windows
key_windows_of ref = do info ← key_info ref; return (listed_windows info info.budget_limits)

-- /user/info: no user where the answer is 404.
unfoldable pub read_user_info : HttpAnswer → Client (Option UserInfoBody)
unfolding decoded
read_user_info a =
    if a.status == 404
    then return none
    else if a.status == 200
    then (do info ← decoded "/user/info" a.user_info; return (some info))
    else fail_with (answered_with "/user/info" a.status a.body)

unfoldable pub fetch_user : String → Client (Option UserInfoBody)
unfolding read_user_info
fetch_user id = do a ← send (get_user_info id); read_user_info a

unfoldable pub allowance_window :
    UserInfoBody → Option Float64 → Option String → Option BudgetWindow
allowance_window info none duration = none
allowance_window info (some budget) none = none
allowance_window info (some budget) (some duration) = some (record {
  budget_duration = duration;
  max_budget = budget;
  reset_at = info.budget_reset_at;
  spend = info.spend;
  has_spend = true;
})

unfoldable pub window_of_user : Option UserInfoBody → Option BudgetWindow
unfolding allowance_window
window_of_user none = none
window_of_user (some info) = allowance_window info info.max_budget info.budget_duration

-- `Client.userWindow`
unfoldable pub user_window : String → Client (Option BudgetWindow)
unfolding fetch_user window_of_user
user_window id = do info ← fetch_user id; return (window_of_user info)

unfoldable pub quota_of_user : Option UserInfoBody → Client Quota
unfolding quota_of
quota_of_user none = return no_quota
quota_of_user (some info) = quota_of info.spend info.max_budget info.budget_reset_at

-- `Client.UserQuota`
unfoldable pub user_quota : String → Client Quota
unfolding fetch_user quota_of_user
user_quota id = do info ← fetch_user id; quota_of_user info

-- The names of the models, each once, in the order of the answer.
unfoldable pub distinct_names : List ModelEntry → List String → List String
distinct_names [] seen = []
distinct_names (m ∷ ms) seen =
    let skipped = distinct_names ms seen in
    let kept = distinct_names ms (m.model_name ∷ seen) in
    if str_eq m.model_name "" || any (λ (s : String). str_eq s m.model_name) seen
    then skipped
    else m.model_name ∷ kept

unfoldable pub read_models : HttpAnswer → Client (List ModelEntry)
unfolding decoded
read_models a =
    if a.status == 200
    then decoded "/model/info" a.model_info
    else fail_with (answered_with "/model/info" a.status a.body)

-- `Client.ListModels`
unfoldable pub list_models : Client (List String)
unfolding read_models distinct_names
list_models = do
  a ← send get_model_info
  ms ← read_models a
  return (sort_by text_before (distinct_names ms []))

unfoldable pub embeds : String → ModelEntry → Bool
embeds name m =
    not (str_eq m.model_name "") && str_eq m.mode "embedding" && str_eq m.model_name name

-- `Client.EmbeddingModels`: whether a model is in the set.
unfoldable pub embedding_models : Client (String → Bool)
unfolding read_models embeds
embedding_models = do
  a ← send get_model_info
  ms ← read_models a
  return (λ name. any (embeds name) ms)
