-- ===== src/Handlers/Admin/Profiles.antt =====
-- internal/handlers/admin.go: what an admin does to profiles. The form's values are arguments, and so are
-- Go's string functions and how it prints numbers; metrics, logs and the kick of the limit sync are left
-- out, as in the other handlers.
use ai_self_service.Prelude.{
  ℕ, String, concat, Bool, not, ◌||◌, Option, none, some, List, [], ◌∷◌, ltb, leb, str_eq,
  if◌then◌else◌,
}
use ai_self_service.Database.Models.{
  Profile, ProfileQuota, profile_created, profile_updated, profile_deleted,
}
use ai_self_service.Database.Errors.{Result, ok, err, default_profile, profile_in_use}
use ai_self_service.Database.Profiles.{create_profile, update_profile, delete_profile}
use ai_self_service.Database.Profiles.Reads.{get_profile}
use ai_self_service.Exec.{Exec, pure, attempt, ◌>>=◌, ◌>>◌}
use ai_self_service.Handlers.Keys.{Response, redirect, status}
use ai_self_service.Handlers.Admin.{audit, audit_demoted}
use ai_self_service.Handlers.Admin.Form.{GoText, Parsed, accepted, rejected, parse_quota_windows}
use ai_self_service.Handlers.Admin.ProfileText.{Printer, describe_profile, diff_profile}

-- The values of the form. `strconv.ParseInt(s, 10, 64)`, whose number is its 64-bit pattern here, and
-- `strings.Split(s, ",")` are functions of it.
pub record ProfileForm : Type 0 where
  pub text : GoText
  pub parse_int : String → Option ℕ
  pub split_commas : String → List String
  pub name : String
  pub description : String
  pub model : List String
  pub models : String
  pub is_default : String
  pub tpm_limit : String
  pub rpm_limit : String
  pub key_duration_days : String
  pub quota_budget : List String
  pub quota_period : List String

abbrev pub is_below_zero : ℕ → Bool
is_below_zero v = leb 0x8000000000000000 v

-- The texts without the spaces around them, and without the empty ones.
unfoldable pub trimmed : GoText → List String → List String
trimmed t [] = []
trimmed t (s ∷ ss) =
    let rest = trimmed t ss in if str_eq (t.trim_space s) "" then rest else t.trim_space s ∷ rest

-- `selectedModels`, with `parseModelsField`
unfoldable pub selected_models : ProfileForm → List String → List String
unfolding trimmed
selected_models f [] = trimmed f.text (f.split_commas f.models)
selected_models f (m ∷ ms) = trimmed f.text (m ∷ ms)

-- `parseOptionalInt64`
unfoldable pub parse_optional_int64 : ProfileForm → String → Option ℕ
parse_optional_int64 f s =
    let t = f.text in if str_eq (t.trim_space s) "" then none else f.parse_int (t.trim_space s)

unfoldable pub non_negative : Option ℕ → ℕ
non_negative none = 0
non_negative (some v) = if is_below_zero v then 0 else v

-- `parseNonNegativeInt`
unfoldable pub parse_non_negative_int : ProfileForm → String → ℕ
unfolding non_negative
parse_non_negative_int f s =
    let t = f.text in
    if str_eq (t.trim_space s) "" then 0 else non_negative (f.parse_int (t.trim_space s))

-- `profileFromForm`: the profile, and the windows or why they are refused.
unfoldable pub profile_from_form : ProfileForm → Profile × Parsed (List ProfileQuota)
unfolding selected_models parse_optional_int64 parse_non_negative_int
profile_from_form f =
    let t = f.text in
    (
      record {
        id = 0;
        name = t.trim_space f.name;
        description = t.trim_space f.description;
        models = selected_models f f.model;
        tpm_limit = parse_optional_int64 f f.tpm_limit;
        rpm_limit = parse_optional_int64 f f.rpm_limit;
        max_budget = none;
        budget_duration = none;
        key_duration_days = parse_non_negative_int f f.key_duration_days;
        quotas = [];
        is_default = str_eq f.is_default "on";
        limits_rev = 0;
        created_at = 0;
        updated_at = 0;
      },
      parse_quota_windows t f.quota_budget f.quota_period,
    )

-- What both saving handlers ask of the form before they store anything.
unfoldable pub with_form :
    Profile × Parsed (List ProfileQuota)
    → (Profile → List ProfileQuota → Exec Response)
    → Exec Response
with_form (p, windows) save =
    if str_eq p.name "" then pure (redirect "/admin?flash=Name+is+required") else elim windows [
      | rejected e ↦ pure (redirect "/admin?flash=Invalid+quota+window")
      | accepted qs ↦ save p qs
    ]

-- `CreateProfile`, after the profile was stored, or not.
unfoldable pub after_creation :
    Printer → String → Profile → List ProfileQuota → Result (ℕ × List String) → Exec Response
unfolding describe_profile
after_creation printer cookie p quotas (err e) =
    pure (redirect "/admin?flash=Failed+to+create+profile")
after_creation printer cookie p quotas (ok (id, demoted)) = do
  audit cookie profile_created p.name none (describe_profile printer p quotas)
  audit_demoted cookie demoted
  pure (redirect "/admin?flash=Profile+created")

unfoldable pub save_new : Printer → String → Profile → List ProfileQuota → Exec Response
unfolding after_creation
save_new printer cookie p quotas = do
  r ← attempt (create_profile p quotas)
  after_creation printer cookie p quotas r

-- `CreateProfile`
unfoldable pub create_profile_for : Printer → String → Bool → ProfileForm → Exec Response
unfolding with_form profile_from_form save_new
create_profile_for printer cookie parsed f =
    if parsed then with_form (profile_from_form f) (save_new printer cookie) else pure (status 400)

-- A save that changed nothing has no row in the audit log.
unfoldable pub audit_change : String → String → String → Exec (Unit {0})
audit_change cookie name detail =
    if str_eq detail "" then pure tt else audit cookie profile_updated name none detail

abbrev pub must_stay_default : Response
must_stay_default =
    redirect
      "/admin?flash=The+default+profile+must+stay+the+default.+Mark+another+profile+as+default+instead."

-- `UpdateProfile`, after the profile was stored, or not.
unfoldable pub after_update :
    Printer → String → Profile → List ProfileQuota → Result (Profile × List String) → Exec Response
unfolding audit_change diff_profile
after_update printer cookie p quotas (err default_profile) = pure must_stay_default
after_update printer cookie p quotas (err e) =
    pure (redirect "/admin?flash=Failed+to+update+profile")
after_update printer cookie p quotas (ok (prev, demoted)) = do
  audit_change cookie p.name (diff_profile printer prev p quotas)
  audit_demoted cookie demoted
  pure (redirect "/admin?flash=Profile+updated")

unfoldable pub save_over : Printer → String → ℕ → Profile → List ProfileQuota → Exec Response
unfolding after_update
save_over printer cookie id p quotas = do
  r ← attempt (update_profile (record p { id = id }) quotas)
  after_update printer cookie (record p { id = id }) quotas r

-- `UpdateProfile`: `none` for an id that does not parse.
unfoldable pub update_profile_for : Printer → String → Option ℕ → Bool → ProfileForm → Exec Response
unfolding with_form profile_from_form save_over
update_profile_for printer cookie none parsed f = pure (status 400)
update_profile_for printer cookie (some id) parsed f =
    if ltb id 1 || not parsed
    then pure (status 400)
    else with_form (profile_from_form f) (save_over printer cookie id)

-- The page's message for a profile in use, before it is escaped.
unfoldable pub in_use_message : Printer → ℕ → String
in_use_message printer users = concat (
    "Profile is assigned to "
    ∷ printer.number users
    ∷ " user(s). Move them to another profile first."
    ∷ [])

unfoldable pub audit_deleted : Printer → String → Result Profile → Exec (Unit {0})
unfolding describe_profile
audit_deleted printer cookie (err e) = pure tt
audit_deleted printer cookie (ok prev) =
    audit cookie profile_deleted prev.name none (describe_profile printer prev prev.quotas)

-- `DeleteProfile`, after the delete; `url.QueryEscape` is a parameter.
unfoldable pub after_deletion :
    (String → String) → Printer → String → Result Profile → Result (Unit {0}) → Exec Response
unfolding audit_deleted in_use_message
after_deletion escape printer cookie prev (err default_profile) = pure (
    redirect
      "/admin?flash=The+default+profile+cannot+be+deleted.+Mark+another+profile+as+default+first.")
after_deletion escape printer cookie prev (err (profile_in_use n)) =
    pure (redirect (concat ("/admin?flash=" ∷ escape (in_use_message printer n) ∷ [])))
after_deletion escape printer cookie prev (err e) =
    pure (redirect "/admin?flash=Failed+to+delete+profile")
after_deletion escape printer cookie prev (ok u) = do
  audit_deleted printer cookie prev
  pure (redirect "/admin?flash=Profile+deleted")

-- `DeleteProfile`
unfoldable pub delete_profile_for : (String → String) → Printer → String → Option ℕ → Exec Response
unfolding after_deletion
delete_profile_for escape printer cookie none = pure (status 400)
delete_profile_for escape printer cookie (some id) = do
  prev ← attempt (get_profile id)
  r ← attempt (delete_profile id)
  after_deletion escape printer cookie prev r
