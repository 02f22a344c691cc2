-- ===== src/Handlers/Admin/ProfileText.antt =====
-- internal/handlers/profileaudit.go: what the audit log says of a profile. How Go prints a number, and a
-- budget with `%g`, are parameters.
use ai_self_service.Prelude.{
  ℕ, String, concat, not, ◌&&◌, Option, none, some, List, [], ◌∷◌, ◌++◌, map, ◌==◌, ltb, leb,
  str_eq, any, sort_by, if◌then◌else◌,
}
use ai_self_service.Keyprovider.{Float64}
use ai_self_service.Database.Models.{Profile, ProfileQuota}
use ai_self_service.Handlers.Admin.Form.{period_hours}
pub mod Silent

pub record Printer : Type 0 where
  pub number : ℕ → String
  pub budget : Float64 → String

-- `strings.Join`
unfoldable pub join : String → List String → String
join sep [] = ""
join sep (s ∷ []) = s
join sep (s ∷ t ∷ ts) = concat (s ∷ sep ∷ join sep (t ∷ ts) ∷ [])

-- `fmtModels`
unfoldable pub fmt_models : List String → String
unfolding join
fmt_models [] = "all"
fmt_models (m ∷ ms) = join ", " (m ∷ ms)

-- `fmtLimit`
unfoldable pub fmt_limit : Printer → Option ℕ → String
fmt_limit p none = "unlimited"
fmt_limit p (some v) = p.number v

-- `fmtKeyDays`
unfoldable pub fmt_key_days : Printer → ℕ → String
fmt_key_days p days = if days == 0 then "server default" else concat (p.number days ∷ "d" ∷ [])

-- `quotasByPeriod`: the last window of a period counts.
unfoldable pub budget_for : List ProfileQuota → String → Option Float64
budget_for [] period = none
budget_for (q ∷ qs) period = elim (budget_for qs period) [
  | some b ↦ some b
  | none ↦ if str_eq q.period period then some q.budget else none
]

-- `fmtBudget`
unfoldable pub fmt_budget : Printer → Option Float64 → String
fmt_budget p none = "none"
fmt_budget p (some b) = p.budget b

unfoldable pub periods_of : List ProfileQuota → List String → List String
periods_of [] seen = []
periods_of (q ∷ qs) seen =
    let skipped = periods_of qs seen in
    let kept = periods_of qs (q.period ∷ seen) in
    if any (λ (s : String). str_eq s q.period) seen then skipped else q.period ∷ kept

-- `quotaPeriods`, of the windows of all maps: each period once, shortest first.
unfoldable pub quota_periods : List ProfileQuota → List String
unfolding periods_of period_hours
quota_periods qs =
    sort_by (λ (a b : String). leb (period_hours a) (period_hours b)) (periods_of qs [])

-- `fmtQuotas`
unfoldable pub fmt_quotas : Printer → List ProfileQuota → String
unfolding quota_periods budget_for fmt_budget join
fmt_quotas p [] = "unlimited"
fmt_quotas p (q ∷ qs) = join ", " (
    map
      (λ (period : String). concat (period ∷ " " ∷ fmt_budget p (budget_for (q ∷ qs) period) ∷ []))
      (quota_periods (q ∷ qs)))

abbrev pub labelled : String → String → List String
labelled label text = concat (label ∷ text ∷ []) ∷ []

abbrev pub limit_part : Printer → String → Option ℕ → List String
limit_part p label none = []
limit_part p label (some v) = labelled label (fmt_limit p (some v))

-- `describeProfile`
unfoldable pub describe_profile : Printer → Profile → List ProfileQuota → String
unfolding join fmt_models fmt_limit fmt_quotas fmt_key_days
describe_profile p profile quotas = join "; " (
    labelled "models " (fmt_models profile.models)
    ++ limit_part p "tpm " profile.tpm_limit
    ++ limit_part p "rpm " profile.rpm_limit
    ++ labelled "quotas " (fmt_quotas p quotas)
    ++ (if ltb 0 profile.key_duration_days
        then labelled "valid " (fmt_key_days p profile.key_duration_days)
        else [])
    ++ (if profile.is_default then "default" ∷ [] else []))

-- The closure `change`.
unfoldable pub change_part : String → String → String → List String
change_part field from to =
    if str_eq from to then [] else concat (field ∷ ": " ∷ from ∷ " → " ∷ to ∷ []) ∷ []

unfoldable pub quota_changes :
    Printer → List ProfileQuota → List ProfileQuota → List String → List String
unfolding change_part fmt_budget budget_for
quota_changes p before after [] = []
quota_changes p before after (period ∷ periods) =
    change_part (concat ("quota " ∷ period ∷ [])) (fmt_budget p (budget_for before period))
      (fmt_budget p (budget_for after period))
    ++ quota_changes p before after periods

-- The parts of `diffProfile`.
unfoldable pub profile_changes : Printer → Profile → Profile → List ProfileQuota → List String
unfolding change_part fmt_models fmt_limit fmt_key_days quota_changes quota_periods
profile_changes p prev next quotas =
    change_part "name" prev.name next.name
    ++ (if str_eq prev.description next.description then [] else "description changed" ∷ [])
    ++ change_part "models" (fmt_models prev.models) (fmt_models next.models)
    ++ change_part "tpm" (fmt_limit p prev.tpm_limit) (fmt_limit p next.tpm_limit)
    ++ change_part "rpm" (fmt_limit p prev.rpm_limit) (fmt_limit p next.rpm_limit)
    ++ change_part "valid" (fmt_key_days p prev.key_duration_days)
        (fmt_key_days p next.key_duration_days)
    ++ quota_changes p prev.quotas quotas (quota_periods (prev.quotas ++ quotas))
    ++ (if not prev.is_default && next.is_default then "now default" ∷ [] else [])

-- `diffProfile`
unfoldable pub diff_profile : Printer → Profile → Profile → List ProfileQuota → String
unfolding join profile_changes
diff_profile p prev next quotas = join "; " (profile_changes p prev next quotas)
