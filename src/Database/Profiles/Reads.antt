-- ===== src/Database/Profiles/Reads.antt =====
-- internal/database/db.go: reading profiles. A query loads the windows that it asks for.
use ai_self_service.Prelude.{
  ℕ, ◌&&◌, ◌||◌, not, Bool, Option, none, some, List, map, ◌==◌, if◌then◌else◌, find?, sort_by,
  text_before,
}
use ai_self_service.Database.Models.{Profile}
use ai_self_service.Database.Errors.{Result, ok, err, no_rows}
use ai_self_service.Database.Tables.{Db, quotas_of}
use ai_self_service.Exec.{Exec, query}

-- `Relation("Quotas")`
unfoldable pub with_quotas : Db → Profile → Profile
with_quotas d p = record p { quotas = quotas_of p.id d }

abbrev pub or_no_rows {ℓ} : {A : Type ℓ} → Option A → Result A
or_no_rows none = err no_rows
or_no_rows (some a) = ok a

abbrev pub with_quotas? : Db → Option Profile → Option Profile
with_quotas? d none = none
with_quotas? d (some p) = some (with_quotas d p)

unfoldable pub profile_by_id : ℕ → Db → Result Profile
profile_by_id id d = or_no_rows (with_quotas? d (find? (λ (p : Profile). p.id == id) d.profiles))

-- `GetProfile`
unfoldable pub get_profile : ℕ → Exec Profile
unfolding profile_by_id
get_profile id = query (profile_by_id id)

unfoldable pub default_row : Db → Result Profile
default_row d = or_no_rows (with_quotas? d (find? (λ (p : Profile). p.is_default) d.profiles))

-- `GetDefaultProfile`
unfoldable pub get_default_profile : Exec Profile
unfolding default_row
get_default_profile = query default_row

-- ORDER BY is_default DESC, name ASC.
unfoldable pub listed_before : Profile → Profile → Bool
listed_before p r =
    if p.is_default
    then not r.is_default || text_before p.name r.name
    else not r.is_default && text_before p.name r.name

-- `ListProfiles`
unfoldable pub list_profiles : Exec (List Profile)
unfolding listed_before
list_profiles = query (λ d. ok (sort_by listed_before (map (with_quotas d) d.profiles)))
