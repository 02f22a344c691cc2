-- ===== src/Litellm/KeyParams.antt =====
-- internal/litellm/provider.go, client.go, windows.go: the limits of a key on the wire, and how the
-- windows of a key are read back.
use ai_self_service.Prelude.{
  ℕ, Bool, true, Option, none, some, String, List, [], ◌∷◌, map, str_eq, if◌then◌else◌,
}
use ai_self_service.Keyprovider.{Float64, QuotaWindow, Limits, GatewayUser}
use ai_self_service.Litellm.{effective_windows, split_limits}

-- `KeyParams`, without the alias and the duration that the client adds. No models means all.
pub record KeyParams : Type 0 where
  pub models : Option (List String)
  pub tpm_limit : Option ℕ
  pub rpm_limit : Option ℕ
  pub user_id : String
  pub max_budget : Option Float64
  pub budget_duration : Option String
  pub budget_limits : List QuotaWindow

unfoldable pub named_models : List String → Option (List String)
named_models [] = none
named_models (m ∷ ms) = some (m ∷ ms)

-- One window goes as the flat pair, several as `budget_limits`.
unfoldable pub with_windows : List QuotaWindow → KeyParams → KeyParams
with_windows [] params = params
with_windows (w ∷ []) params = record params {
  max_budget = some w.budget;
  budget_duration = some w.period;
}
with_windows (w ∷ v ∷ ws) params = record params { budget_limits = w ∷ v ∷ ws }

-- `toKeyParams`
unfoldable pub to_key_params : GatewayUser → Limits → KeyParams
unfolding named_models with_windows
to_key_params user l = with_windows (effective_windows l) (record {
  models = named_models l.models;
  tpm_limit = l.tokens_per_minute;
  rpm_limit = l.requests_per_minute;
  user_id = user.id;
  max_budget = none;
  budget_duration = none;
  budget_limits = [];
})

-- What `CreateKey` sends: the person's allowance, if there is a person, and the key's parameters.
unfoldable pub create_request : GatewayUser → Limits → Option (Option QuotaWindow) × KeyParams
unfolding to_key_params
create_request user l =
    let (allowance, on_key) = split_limits user l in (allowance, to_key_params user on_key)

-- `budgetWindow`
pub record BudgetWindow : Type 0 where
  pub budget_duration : String
  pub max_budget : Float64
  pub reset_at : Option String
  pub spend : Float64
  pub has_spend : Bool

-- The part of /key/info that is read, the window's spend by its period.
pub record KeyInfo : Type 0 where
  pub status : String
  pub spend : Float64
  pub budget_limits : List BudgetWindow
  pub budget_limits_usage : String → Option Float64
  pub max_budget : Option Float64
  pub budget_duration : Option String
  pub budget_reset_at : Option String

unfoldable pub with_spend : (String → Option Float64) → BudgetWindow → BudgetWindow
with_spend usage w = elim (usage w.budget_duration) [
  | none ↦ w
  | some s ↦ record w { spend = s; has_spend = true }
]

unfoldable pub flat_window : KeyInfo → Option Float64 → Option String → List BudgetWindow
flat_window info none duration = []
flat_window info (some budget) none = []
flat_window info (some budget) (some duration) =
    record {
      budget_duration = duration;
      max_budget = budget;
      reset_at = info.budget_reset_at;
      spend = info.spend;
      has_spend = true;
    }
    ∷ []

unfoldable pub listed_windows : KeyInfo → List BudgetWindow → List BudgetWindow
unfolding with_spend flat_window
listed_windows info [] = flat_window info info.max_budget info.budget_duration
listed_windows info (w ∷ ws) = map (with_spend info.budget_limits_usage) (w ∷ ws)

-- `keyWindows`, from the decoded answer: `none` where LiteLLM reports the key deleted.
unfoldable pub key_windows : KeyInfo → Option (List BudgetWindow)
unfolding listed_windows
key_windows info =
    if str_eq info.status "deleted" then none else some (listed_windows info info.budget_limits)
