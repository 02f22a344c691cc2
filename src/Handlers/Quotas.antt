-- ===== src/Handlers/Quotas.antt =====
-- internal/handlers/ui.go: the allowance windows of the dashboard. Float division is a parameter, as is the
-- label of a period in the user's language.
pub mod Largest
use ai_self_service.Prelude.{
  ℕ, ℤ, pos, ltb_ℤ, String, Bool, true, false, Option, none, some, List, [], ◌∷◌, if◌then◌else◌,
}
use ai_self_service.Keyprovider.{Float64, GatewayError, le_zero}
use ai_self_service.Database.Models.{Time}

-- `keyprovider.WindowUsage`
pub record UsageWindow : Type 0 where
  pub period : String
  pub limit : Float64
  pub used : Float64
  pub used_known : Bool
  pub resets_at : Time

pub record QuotaView : Type 0 where
  pub period : String
  pub label : String
  pub used : Float64
  pub limit : Float64
  pub pct : ℤ
  pub resets_at : Time

-- `int(used / limit * 100)`
abbrev pub Ratio : Type 0
Ratio = Float64 → Float64 → ℤ

unfoldable pub clamp : ℤ → ℤ
clamp pct = if ltb_ℤ (pos 100) pct then pos 100 else if ltb_ℤ pct (pos 0) then pos 0 else pct

-- `quotaPct`
unfoldable pub quota_pct : Ratio → Float64 → Float64 → ℤ
unfolding clamp
quota_pct ratio used limit = if le_zero limit then pos 0 else clamp (ratio used limit)

unfoldable pub view_of : Ratio → (String → String) → UsageWindow → QuotaView
unfolding quota_pct
view_of ratio label w = record {
  period = w.period;
  label = label w.period;
  used = w.used;
  limit = w.limit;
  pct = quota_pct ratio w.used w.limit;
  resets_at = w.resets_at;
}

abbrev pub prepend : QuotaView → Option (List QuotaView) → Option (List QuotaView)
prepend v none = none
prepend v (some vs) = some (v ∷ vs)

-- The loop, which is `none` where it returns early.
unfoldable pub views : Ratio → (String → String) → List UsageWindow → Option (List QuotaView)
unfolding view_of
views ratio label [] = some []
views ratio label (w ∷ ws) =
    let rest = views ratio label ws in
    if le_zero w.limit
    then rest
    else if w.used_known
    then prepend (view_of ratio label w) rest
    else none

abbrev pub or_nothing : Option (List QuotaView) → List QuotaView
or_nothing none = []
or_nothing (some vs) = vs

-- `UI.quotaWindows`, of the windows that the gateway reports.
unfoldable pub quota_windows : Ratio → (String → String) → List UsageWindow → List QuotaView
unfolding views
quota_windows ratio label ws = or_nothing (views ratio label ws)

unfoldable pub fuller : Option QuotaView → QuotaView → Option QuotaView
fuller none v = some v
fuller (some b) v = if ltb_ℤ b.pct v.pct then some v else some b

unfoldable pub bind_from : Option QuotaView → List QuotaView → Option QuotaView
unfolding fuller
bind_from b [] = b
bind_from b (v ∷ vs) = bind_from (fuller b v) vs

-- `bindingWindow`
unfoldable pub binding_window : List QuotaView → Option QuotaView
unfolding bind_from
binding_window vs = bind_from none vs
