-- ===== src/Litellm/Usage/Totals.antt =====
-- internal/litellm/usage.go: what adding the pages of the gateway does to the two maps.
use Prim.Native.Nat.{◌%◌}
use ai_self_service.Prelude.{
  ℕ, ◌+◌, ◌≤◌, String, Bool, true, false, List, [], ◌∷◌, ◌≡◌, refl, ◌∙◌, arith, str_eq,
  if◌then◌else◌,
}
use ai_self_service.Keyprovider.{add_64}
use ai_self_service.Litellm.Http.{ActivityMetrics, DayResult, DailyActivityPage}
use ai_self_service.Litellm.Usage.{
  History, DailyUsage, ModelUsage, no_tokens, plus_tokens, add_tokens, unused, add_metrics,
  add_usage, add_groups, add_results, no_history,
}
use ai_self_service.Litellm.Usage.Amounts.{OneEach, amount, upsert-OneEach, amount-upsert}

-- The four totals of a model.
pub data Count : Type 0 where
  of_requests : Count
  of_prompts : Count
  of_completions : Count
  of_all : Count

abbrev pub counted : Count → ModelUsage → ℕ
counted of_requests m = m.requests
counted of_prompts m = m.prompt_tokens
counted of_completions m = m.completion_tokens
counted of_all m = m.total_tokens

abbrev pub measured : Count → ActivityMetrics → ℕ
measured of_requests g = g.api_requests
measured of_prompts g = g.prompt_tokens
measured of_completions g = g.completion_tokens
measured of_all g = g.total_tokens

-- What rows and pages report for a day: the sum, which does not wrap around.
unfoldable pub reported : String → List DayResult → ℕ
reported day [] = 0
reported day (r ∷ rs) =
    let rest = reported day rs in if str_eq r.date day then r.metrics.total_tokens + rest else rest

unfoldable pub reported_in : String → List DailyActivityPage → ℕ
unfolding reported
reported_in day [] = 0
reported_in day (p ∷ ps) = reported day p.results + reported_in day ps

-- And for a model.
unfoldable pub grouped : Count → String → List (String × ActivityMetrics) → ℕ
grouped c model [] = 0
grouped c model ((name, g) ∷ gs) =
    let rest = grouped c model gs in if str_eq name model then measured c g + rest else rest

unfoldable pub grouped_rows : Count → String → List DayResult → ℕ
unfolding grouped
grouped_rows c model [] = 0
grouped_rows c model (r ∷ rs) = grouped c model r.model_groups + grouped_rows c model rs

unfoldable pub grouped_in : Count → String → List DailyActivityPage → ℕ
unfolding grouped_rows
grouped_in c model [] = 0
grouped_in c model (p ∷ ps) = grouped_rows c model p.results + grouped_in c model ps

abbrev pub OneADay : List DailyUsage → Type 0
OneADay ds = OneEach (λ (d : DailyUsage). d.day) ds

abbrev pub OneAModel : List ModelUsage → Type 0
OneAModel ms = OneEach (λ (m : ModelUsage). m.model) ms

abbrev pub tokens_of : String → List DailyUsage → ℕ
tokens_of day ds = amount (λ (d : DailyUsage). d.day) (λ d. d.tokens) day ds

abbrev pub model_total : Count → String → List ModelUsage → ℕ
model_total c model ms = amount (λ (m : ModelUsage). m.model) (counted c) model ms

abbrev pub wrapped : ℕ → ℕ
wrapped n = n % 0x10000000000000000

module _ (day : String) (at : String) (n : ℕ) (ds : List DailyUsage) (h : OneADay ds) where
  tokens_of-add_tokens :
      tokens_of day (add_tokens at n ds)
      ≡ (if str_eq at day then add_64 (tokens_of day ds) n else tokens_of day ds)
  unfolding add_tokens
  tokens_of-add_tokens =
      amount-upsert (λ (d : DailyUsage). d.day) (no_tokens at) (plus_tokens n) at refl (λ d. refl)
        (λ d. d.tokens) n refl (λ d. refl) day ds (h day)

add_tokens-OneADay :
    (at : String) (n : ℕ) (ds : List DailyUsage) → OneADay ds → OneADay (add_tokens at n ds)
unfolding add_tokens
add_tokens-OneADay at n ds h =
    upsert-OneEach (λ (d : DailyUsage). d.day) (no_tokens at) (plus_tokens n) at refl (λ d. refl) ds
      h

unused_lem : (c : Count) (model : String) → counted c (unused model) ≡ 0
unused_lem of_requests model = refl
unused_lem of_prompts model = refl
unused_lem of_completions model = refl
unused_lem of_all model = refl

added_lem :
    (c : Count) (g : ActivityMetrics) (m : ModelUsage)
    → counted c (add_metrics g m) ≡ add_64 (counted c m) (measured c g)
added_lem of_requests g m = refl
added_lem of_prompts g m = refl
added_lem of_completions g m = refl
added_lem of_all g m = refl

model_total-add_usage :
    (c : Count) (model name : String) (g : ActivityMetrics) (ms : List ModelUsage)
    → OneAModel ms
    → model_total c model (add_usage name g ms) ≡ (
        if str_eq name model
        then add_64 (model_total c model ms) (measured c g)
        else model_total c model ms)
unfolding add_usage
model_total-add_usage c model name g ms h =
    amount-upsert (λ (m : ModelUsage). m.model) (unused name) (add_metrics g) name refl (λ m. refl)
      (counted c) (measured c g) (unused_lem c name) (added_lem c g) model ms (h model)

add_usage-OneAModel :
    (name : String) (g : ActivityMetrics) (ms : List ModelUsage)
    → OneAModel ms
    → OneAModel (add_usage name g ms)
unfolding add_usage
add_usage-OneAModel name g ms h =
    upsert-OneEach (λ (m : ModelUsage). m.model) (unused name) (add_metrics g) name refl (λ m. refl)
      ms h

add_groups-OneAModel :
    (gs : List (String × ActivityMetrics)) (ms : List ModelUsage)
    → OneAModel ms
    → OneAModel (add_groups gs ms)
unfolding add_groups
add_groups-OneAModel [] ms h = h
add_groups-OneAModel ((name, g) ∷ gs) ms h =
    add_groups-OneAModel gs (add_usage name g ms) (add_usage-OneAModel name g ms h)

model_total-add_groups :
    (c : Count) (model : String) (gs : List (String × ActivityMetrics)) (ms : List ModelUsage)
    (s : ℕ)
    → OneAModel ms
    → model_total c model ms ≡ wrapped s
    → model_total c model (add_groups gs ms) ≡ wrapped (s + grouped c model gs)
unfolding add_groups grouped
model_total-add_groups c model [] ms s h e = omega (arith, e)
model_total-add_groups c model ((name, g) ∷ gs) ms s h e =
    model_total-add_groups c model gs (add_usage name g ms)
      (if str_eq name model then s + measured c g else s) (add_usage-OneAModel name g ms h)
      (ground (arith, e, model_total-add_usage c model name g ms h))
    ∙ ground arith

-- Both maps hold the sums so far.
pub record Holds (days : String → ℕ) (models : Count → String → ℕ) (h : History) : Type 0 where
  pub one_a_day : OneADay h.days
  pub one_a_model : OneAModel h.models
  pub tokens : (day : String) → tokens_of day h.days ≡ wrapped (days day)
  pub usage : (c : Count) (model : String) → model_total c model h.models ≡ wrapped (models c model)

row_added : DayResult → History → History
row_added r h = record {
  days = add_tokens r.date r.metrics.total_tokens h.days;
  models = add_groups r.model_groups h.models;
}

module _ (days : String → ℕ) (models : Count → String → ℕ) where
  row-Holds :
      (r : DayResult) (h : History)
      → Holds days models h
      → Holds
          (λ day. days day + reported day (r ∷ []))
          (λ c model. models c model + grouped_rows c model (r ∷ []))
          (row_added r h)
  unfolding row_added reported grouped_rows
  row-Holds r h k = record {
    one_a_day = add_tokens-OneADay r.date r.metrics.total_tokens h.days k.one_a_day;
    one_a_model = add_groups-OneAModel r.model_groups h.models k.one_a_model;
    tokens = λ day. ground (
      arith,
      k.tokens day,
      tokens_of-add_tokens day r.date r.metrics.total_tokens h.days k.one_a_day,
    );
    usage = λ c model.
        model_total-add_groups c model r.model_groups h.models (models c model) k.one_a_model
          (k.usage c model)
        ∙ omega arith;
  }

-- The same sums, written otherwise.
Holds-same :
    (days days' : String → ℕ) (models models' : Count → String → ℕ) (h : History)
    → ((day : String) → days day ≡ days' day)
    → ((c : Count) (model : String) → models c model ≡ models' c model)
    → Holds days models h
    → Holds days' models' h
Holds-same days days' models models' h d m k = record {
  one_a_day = k.one_a_day;
  one_a_model = k.one_a_model;
  tokens = λ day. omega (arith, k.tokens day, d day);
  usage = λ c model. omega (arith, k.usage c model, m c model);
}

add_results-Holds :
    (rs : List DayResult) (days : String → ℕ) (models : Count → String → ℕ) (h : History)
    → Holds days models h
    → Holds
        (λ day. days day + reported day rs)
        (λ c model. models c model + grouped_rows c model rs)
        (add_results rs h)
unfolding add_results reported grouped_rows row_added
add_results-Holds [] days models h k =
    Holds-same _ _ _ _ h (λ day. omega arith) (λ c model. omega arith) k
add_results-Holds (r ∷ rs) days models h k =
    Holds-same _ _ _ _ _ (λ day. ground arith) (λ c model. omega arith)
      (add_results-Holds rs _ _ (row_added r h) (row-Holds days models r h k))

unfoldable pub add_pages : List DailyActivityPage → History → History
add_pages [] h = h
add_pages (p ∷ ps) h = add_pages ps (add_results p.results h)

add_pages-Holds :
    (ps : List DailyActivityPage) (days : String → ℕ) (models : Count → String → ℕ) (h : History)
    → Holds days models h
    → Holds
        (λ day. days day + reported_in day ps)
        (λ c model. models c model + grouped_in c model ps)
        (add_pages ps h)
unfolding add_pages reported_in grouped_in
add_pages-Holds [] days models h k =
    Holds-same _ _ _ _ h (λ day. omega arith) (λ c model. omega arith) k
add_pages-Holds (p ∷ ps) days models h k =
    Holds-same _ _ _ _ _ (λ day. omega arith) (λ c model. omega arith)
      (add_pages-Holds ps _ _ (add_results p.results h)
        (add_results-Holds p.results days models h k))

-- All pages, added to empty maps.
pub pages-Holds :
    (ps : List DailyActivityPage)
    → Holds (λ day. reported_in day ps) (λ c model. grouped_in c model ps) (add_pages ps no_history)
unfolding ai_self_service.Litellm.Usage.Amounts.amount ai_self_service.Prelude.count_if
pages-Holds ps =
    Holds-same _ _ _ _ _ (λ day. omega arith) (λ c model. omega arith)
      (add_pages-Holds ps (λ day. 0) (λ c model. 0) no_history
        (record {
          one_a_day = λ day. omega arith;
          one_a_model = λ model. omega arith;
          tokens = λ day. refl;
          usage = λ c model. refl;
        }))
