-- ===== src/Litellm/Gateway.antt =====
-- internal/litellm/provider.go, windows.go: the adapter that makes the client a key provider.
pub mod Order
use ai_self_service.Prelude.{
  ℕ, String, Bool, true, false, not, ◌&&◌, ◌||◌, Option, none, some, List, [], ◌∷◌, ◌++◌, str_eq,
  leb, filter, map, sort_by, if◌then◌else◌,
}
use ai_self_service.Keyprovider.{QuotaWindow, Limits, GatewayUser, le_zero}
use ai_self_service.Database.Models.{Time}
use ai_self_service.Litellm.{split_limits, period_rank, above_zero}
use ai_self_service.Litellm.KeyParams.{KeyParams, KeyInfo, BudgetWindow, to_key_params}
use ai_self_service.Litellm.Http.{Client, return, Reply, done, refused, Wire, ◌>>=◌, ◌>>◌}
use ai_self_service.Litellm.Client.{
  upsert_user, update_key_limits, Quota, key_info, user_quota, key_quota, key_windows_of,
  user_window, create_key, parsed_time,
}
use ai_self_service.Handlers.Quotas.{UsageWindow}

-- The person's allowance, if there is a person to hold it.
unfoldable pub hold_allowance : GatewayUser → Option (Option QuotaWindow) → Client (Unit {0})
unfolding upsert_user
hold_allowance user none = return tt
hold_allowance user (some budget) = upsert_user user budget

-- `Provider.UpdateLimits`
unfoldable pub update_limits : String → GatewayUser → Limits → Client (Unit {0})
unfolding hold_allowance split_limits update_key_limits
update_limits ref user l = do
  let (allowance, on_key) = split_limits user l
  hold_allowance user allowance
  update_key_limits ref user.id on_key

-- `Provider.CreateKey`: the secret and the ref.
unfoldable pub issue_key : String → GatewayUser → Limits → Time → Client (String × String)
unfolding hold_allowance split_limits to_key_params create_key
issue_key alias user l expires_at = do
  let (allowance, on_key) = split_limits user l
  hold_allowance user allowance
  create_key alias (to_key_params user on_key) expires_at

-- `Provider.Quota`: the person's allowance is the one reported where there is one.
unfoldable pub quota_or_key : String → Quota → Client Quota
unfolding key_quota
quota_or_key ref q = if above_zero q.limit then return q else key_quota ref

unfoldable pub quota : String → String → Client Quota
unfolding quota_or_key user_quota key_quota
quota ref owner_id =
    if str_eq owner_id "" then key_quota ref else (do q ← user_quota owner_id; quota_or_key ref q)

abbrev pub with_owner : List BudgetWindow → Option BudgetWindow → List BudgetWindow
with_owner ws none = ws
with_owner ws (some w) = ws ++ w ∷ []

unfoldable pub gather : List BudgetWindow → String → Client (List BudgetWindow)
unfolding user_window
gather ws owner_id =
    if str_eq owner_id ""
    then return ws
    else (do owner ← user_window owner_id; return (with_owner ws owner))

unfoldable pub usage_of : (String → Option Time) → BudgetWindow → UsageWindow
usage_of parse w = record {
  period = w.budget_duration;
  limit = w.max_budget;
  used = w.spend;
  used_known = w.has_spend;
  resets_at = parsed_time parse w.reset_at;
}

abbrev pub counts : BudgetWindow → Bool
counts w = not (le_zero w.max_budget || str_eq w.budget_duration "")

-- A stable sort by the rank of the period.
abbrev pub tighter : UsageWindow → UsageWindow → Bool
tighter a b = leb (period_rank a.period) (period_rank b.period)

unfoldable pub usage_windows : (String → Option Time) → List BudgetWindow → List UsageWindow
unfolding usage_of period_rank
usage_windows parse ws = sort_by tighter (map (usage_of parse) (filter counts ws))

abbrev pub listed_usage : List BudgetWindow → Client (List UsageWindow)
listed_usage ws w = (done (usage_windows w.parse_time ws), w)

-- `Provider.Windows`
unfoldable pub windows : String → String → Client (List UsageWindow)
unfolding key_windows_of gather usage_windows
windows ref owner_id = do ws ← key_windows_of ref; all ← gather ws owner_id; listed_usage all

-- `Provider.CheckKey`
unfoldable pub check_key : String → Client (Unit {0})
unfolding key_info
check_key ref = do info ← key_info ref; return tt
