-- ===== src/Tests/KeyParams.antt =====
-- The windows of a new key, at three of them.
use ai_self_service.Prelude.{none, some, List, [], ◌∷◌, map, ◌≡◌, refl, false, filter, str_eq}
use ai_self_service.Keyprovider.{QuotaWindow, Limits, GatewayUser, le_zero, is_nan}
use ai_self_service.Litellm.{effective_windows, split_limits}
use ai_self_service.Litellm.Widest.{IsSplit}
use ai_self_service.Litellm.KeyParams.{BudgetWindow, KeyInfo, create_request, key_windows}
use ai_self_service.Litellm.Split.{Echoes, window_of, create_request-IsSplit}
use ai_self_service.Tests.Worlds.{ten, two_and_a_half}

abbrev hour : QuotaWindow
hour = record { budget = two_and_a_half; period = "1h" }

abbrev month : QuotaWindow
month = record { budget = ten; period = "30d" }

abbrev day : QuotaWindow
day = record { budget = two_and_a_half; period = "24h" }

-- A row of the form that was left blank.
abbrev blank : QuotaWindow
blank = record { budget = 0; period = "7d" }

abbrev grace_hopper : GatewayUser
grace_hopper = record { id = "grace"; name = "Grace"; email = "grace@example.org" }

abbrev three_windows : Limits
three_windows = record {
  models = [];
  tokens_per_minute = none;
  requests_per_minute = some 60;
  quotas = hour ∷ month ∷ blank ∷ day ∷ [];
}

abbrev unspent : QuotaWindow → BudgetWindow
unspent w = record {
  budget_duration = w.period;
  max_budget = w.budget;
  reset_at = none;
  spend = 0;
  has_spend = false;
}

abbrev reported : KeyInfo
reported = record {
  status = "active";
  spend = 0;
  budget_limits = unspent hour ∷ unspent day ∷ [];
  budget_limits_usage = λ period. some ten;
  max_budget = none;
  budget_duration = none;
  budget_reset_at = none;
}

reported-Echoes : Echoes (create_request grace_hopper three_windows).1 reported
unfolding create_request str_eq effective_windows filter split_limits le_zero is_nan
reported-Echoes = record { alive = refl; budget = refl; duration = refl; limits = refl }

three_effective : effective_windows three_windows ≡ hour ∷ month ∷ day ∷ []
unfolding effective_windows filter le_zero is_nan str_eq
three_effective = refl

grace_is_named : str_eq grace_hopper.id "" ≡ false
unfolding str_eq
grace_is_named = refl

create_request-IsSplit_example :
    (v : QuotaWindow) × (read : List BudgetWindow) × ((create_request grace_hopper three_windows).0
      ≡ some (some v))
    × (key_windows reported ≡ some read)
    × IsSplit (hour ∷ month ∷ day ∷ []) v (map window_of read)
create_request-IsSplit_example =
    create_request-IsSplit grace_hopper three_windows hour (month ∷ day ∷ []) reported
      grace_is_named three_effective reported-Echoes
