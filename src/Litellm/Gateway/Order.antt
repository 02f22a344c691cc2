-- ===== src/Litellm/Gateway/Order.antt =====
-- internal/litellm/windows.go: the windows that the dashboard gets.
use ai_self_service.Prelude.{
  ◌≤◌, not, String, Bool, false, ◌&&◌, Option, List, [], ◌∷◌, ◌≡◌, str_eq, count_if, All,
}
use ai_self_service.Keyprovider.{le_zero}
use ai_self_service.Database.Models.{Time}
use ai_self_service.Litellm.Client.{parsed_time}
use ai_self_service.Handlers.Admin.Form.{period_hours}
use ai_self_service.Litellm.KeyParams.{BudgetWindow}
use ai_self_service.Handlers.Quotas.{UsageWindow}

-- A window that limits something.
abbrev pub IsLimit : UsageWindow → Type 0
IsLimit u = (le_zero u.limit ≡ false) × (str_eq u.period "" ≡ false)

-- What the gateway says of a window, for the dashboard.
abbrev pub shown : (String → Option Time) → BudgetWindow → UsageWindow
shown parse w = record {
  period = w.budget_duration;
  limit = w.max_budget;
  used = w.spend;
  used_known = w.has_spend;
  resets_at = parsed_time parse w.reset_at;
}

-- A window with a positive amount and a period.
abbrev pub is_limit : BudgetWindow → Bool
is_limit w = not (le_zero w.max_budget) && not (str_eq w.budget_duration "")

-- No window stands before one with a shorter period; an unknown period counts as no time.
unfoldable pub ShortestFirst : List UsageWindow → Type 0
ShortestFirst [] = Unit
ShortestFirst (u ∷ us) =
    All (λ (v : UsageWindow). period_hours u.period ≤ period_hours v.period) us × ShortestFirst us

-- The dashboard's list of the windows of a key and its owner.
abbrev pub IsDashboard : (String → Option Time) → List BudgetWindow → List UsageWindow → Type 0
IsDashboard parse ws us =
    ShortestFirst us
    × All IsLimit us
    × ((p : UsageWindow → Bool)
        → count_if p us ≡ count_if (λ w. is_limit w && p (shown parse w)) ws)
