-- ===== src/Tests/Gateway.antt =====
-- The theorems about the calls of LiteLLM, at answers of a small gateway.
use ai_self_service.Prelude.{
  ℕ, String, Bool, true, false, Option, none, some, List, [], ◌∷◌, ◌++◌, ◌≡◌, ◌≤◌, ◌⊎◌, ◌↔◌, refl,
  ◌&&◌, length, count_if, All, IsOrdered, str_eq, ◌==◌, if◌then◌else◌,
}
use ai_self_service.Keyprovider.{Limits}
use ai_self_service.Litellm.KeyParams.{BudgetWindow}
use ai_self_service.Litellm.Http.{
  ActivityMetrics, DayResult, DailyActivityPage, KeyUpdate, Request, get_daily_activity,
  get_key_info, key_delete, key_update, HttpAnswer, Wire, done,
}
use ai_self_service.Litellm.Client.{update_key_limits, delete_key}
use ai_self_service.Litellm.Client.Enforced.{Pushes, Unsendable, update_key_limits-Enforces}
use ai_self_service.Litellm.Client.Missing.{
  OwnNotFound, SoftDeleted, Answers, says_gone, check_key-delete_key_iff,
}
use ai_self_service.Litellm.Gateway.{check_key}
use ai_self_service.Litellm.Usage.{History, history, activity_max_pages}
use ai_self_service.Litellm.Usage.Sums.{Fetched, Charts, history-Charts}
use ai_self_service.Tests.Worlds.{ten, two_and_a_half}

abbrev tokens : ℕ → ActivityMetrics
tokens n = record { prompt_tokens = 0; completion_tokens = n; total_tokens = n; api_requests = 1 }

abbrev day_of : String → ℕ → DayResult
day_of date n = record { date = date; metrics = tokens n; model_groups = ("m1", tokens n) ∷ [] }

abbrev plain_answer : HttpAnswer
plain_answer = record {
  status = 200;
  body = "";
  error_code = none;
  generated = none;
  key_info = none;
  user_info = none;
  activity = none;
  model_info = none;
}

-- The second day is split over two pages.
abbrev page_answer : ℕ → Option HttpAnswer
page_answer n = some (record plain_answer {
  activity = some (
      if n == 1
      then record { results = day_of "2026-01-01" 5 ∷ day_of "2026-01-02" 7 ∷ []; has_more = true }
      else record {
        results = day_of "2026-01-02" 3 ∷ day_of "2026-01-03" 0 ∷ [];
        has_more = false;
      });
})

-- A gateway that has usage, and knows no key any more.
abbrev answer_to : Request → Option HttpAnswer
answer_to (get_daily_activity id first last page) = page_answer page
answer_to _ = some (record plain_answer { status = 404; error_code = some "404" })

abbrev gateway : Wire
gateway = record {
  answers = λ n q. answer_to q;
  requests = [];
  sha256 = λ s. s;
  parse_time = λ s. none;
  days_until = λ t. "90d";
  days_ago = λ n. if n == 0 then "2026-01-31" else "2026-01-01";
}

abbrev one_window : Limits
one_window = record {
  models = "m1" ∷ [];
  tokens_per_minute = some 1000;
  requests_per_minute = none;
  quotas = record { budget = ten; period = "30d" } ∷ record { budget = 0; period = "1h" } ∷ [];
}

update_key_limits-Enforces_example :
    Pushes "ref7" "ada" one_window gateway (update_key_limits "ref7" "ada" one_window gateway).1
    ⊎ (((update_key_limits "ref7" "ada" one_window gateway).1.requests ≡ [])
        × Unsendable one_window)
update_key_limits-Enforces_example = update_key_limits-Enforces "ref7" "ada" one_window gateway

check_key-delete_key_iff_example :
    ((says_gone (check_key "ref7" gateway).0 ≡ true) ↔ (
      (a : HttpAnswer) × Answers gateway (get_key_info "ref7") a × (OwnNotFound a ⊎ SoftDeleted a)))
    × (((delete_key "ref7" gateway).0 ≡ done tt) ↔ (
        (a : HttpAnswer) × Answers gateway (key_delete "ref7") a
        × ((a.status ≡ 200) ⊎ OwnNotFound a)))
check_key-delete_key_iff_example = check_key-delete_key_iff "ref7" gateway

abbrev window : String → ℕ → BudgetWindow
window period budget = record {
  budget_duration = period;
  max_budget = budget;
  reset_at = none;
  spend = two_and_a_half;
  has_spend = true;
}

abbrev three : List BudgetWindow
three = window "30d" ten ∷ window "1h" two_and_a_half ∷ window "7d" 0 ∷ []

abbrev charted : History
charted = record {
  days =
      record { day = "2026-01-01"; tokens = 5 } ∷ record { day = "2026-01-02"; tokens = 10 } ∷ [];
  models =
      record {
        model = "m1";
        requests = 4;
        prompt_tokens = 0;
        completion_tokens = 15;
        total_tokens = 15;
      }
      ∷ [];
}

charted-returned : (history "ada" 30 gateway).0 ≡ done charted
unfolding history str_eq ai_self_service.Litellm.Http.◌>>=◌ ai_self_service.Litellm.Http.send
    ai_self_service.Prelude.sort_by ai_self_service.Prelude.filter
    ai_self_service.Prelude.text_before
charted-returned = refl

person : str_eq "ada" "" ≡ false
unfolding str_eq
person = refl

history-Charts_example :
    (ps : List DailyActivityPage) × Fetched "ada" "2026-01-01" "2026-01-31" ps 1 gateway
    × (length ps ≤ activity_max_pages)
    × Charts ps charted
history-Charts_example = history-Charts "ada" 30 gateway charted person charted-returned
