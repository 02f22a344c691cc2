-- ===== src/Litellm.antt =====
-- internal/litellm/quota.go, provider.go, usage.go: the split of a profile's allowance windows.
-- The calls of the HTTP client are not part of it.
pub mod Widest
pub mod KeyParams
pub mod Split
pub mod Http
pub mod Client
pub mod Usage
pub mod Gateway
use ai_self_service.Prelude.{
  ℕ, zero, suc, ◌+◌, String, Bool, true, false, not, ◌&&◌, ◌||◌, Option, none, some, List, [], ◌∷◌,
  ◌==◌, str_eq, ltb, any, filter, length, map, if◌then◌else◌,
}
use ai_self_service.Keyprovider.{Float64, QuotaWindow, Limits, GatewayUser, le_zero, is_nan}

abbrev pub valid_quota_periods : List String
valid_quota_periods = "1h" ∷ "24h" ∷ "7d" ∷ "30d" ∷ []

-- `IsValidQuotaPeriod`
unfoldable pub is_valid_quota_period : String → Bool
is_valid_quota_period p =
    if str_eq p "" then true else any (λ (v : String). str_eq v p) valid_quota_periods

-- `periodRank`
unfoldable pub period_rank : String → ℕ
period_rank p =
    if str_eq p "1h"
    then 1
    else if str_eq p "24h"
    then 2
    else if str_eq p "7d"
    then 3
    else if str_eq p "30d"
    then 4
    else 0

-- The zero value of a window.
abbrev pub zero_window : QuotaWindow
zero_window = record { budget = 0; period = "" }

-- `windows[i]`, for an index in range.
unfoldable pub window_at : List QuotaWindow → ℕ → QuotaWindow
window_at [] i = zero_window
window_at (w ∷ ws) zero = w
window_at (w ∷ ws) (suc i) = window_at ws i

-- The loop over `windows[1:]`: `i` is the index of the next window in the whole list.
unfoldable pub widest_index : List QuotaWindow → List QuotaWindow → ℕ → ℕ → ℕ
unfolding window_at period_rank
widest_index windows [] i widest = widest
widest_index windows (w ∷ ws) i widest = widest_index windows ws (suc i) (
    if ltb (period_rank (window_at windows widest).period) (period_rank w.period)
    then i
    else widest)

-- The second loop: every window but the one at the index.
unfoldable pub without : ℕ → ℕ → List QuotaWindow → List QuotaWindow
without widest i [] = []
without widest i (w ∷ ws) =
    let rest = without widest (suc i) ws in if i == widest then rest else w ∷ rest

-- `WidestWindow`
unfoldable pub widest_window : List QuotaWindow → QuotaWindow × List QuotaWindow
unfolding widest_index without window_at
widest_window [] = (zero_window, [])
widest_window (w ∷ ws) =
    let widest = widest_index (w ∷ ws) ws 1 0 in
    (window_at (w ∷ ws) widest, without widest 0 (w ∷ ws))

-- `q.Budget > 0`
unfoldable pub above_zero : Float64 → Bool
above_zero b = not (le_zero b) && not (is_nan b)

-- `effectiveWindows`
unfoldable pub effective_windows : Limits → List QuotaWindow
unfolding above_zero
effective_windows l =
    filter (λ (q : QuotaWindow). above_zero q.budget && not (str_eq q.period "")) l.quotas

-- `userBudget`
unfoldable pub user_budget : QuotaWindow → Option QuotaWindow
user_budget w = if le_zero w.budget || str_eq w.period "" then none else some w

-- What `UpdateLimits` and `CreateKey` hand to the client: the user's allowance, if there is a
-- person to hold it, and the limits that stay on the key.
unfoldable pub split_limits : GatewayUser → Limits → Option (Option QuotaWindow) × Limits
unfolding widest_window effective_windows user_budget
split_limits user l =
    let (widest, rest) = widest_window (effective_windows l) in
    if str_eq user.id "" then (none, l) else (some (user_budget widest), record l { quotas = rest })
