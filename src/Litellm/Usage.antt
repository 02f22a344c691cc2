-- ===== src/Litellm/Usage.antt =====
-- internal/litellm/usage.go: what a person has consumed, over the pages of the gateway's daily totals.
pub mod Amounts
pub mod Totals
pub mod Sums
use ai_self_service.Prelude.{
  ℕ, zero, suc, ◌+◌, String, Bool, true, false, not, ◌&&◌, ◌||◌, Option, none, some, List, [], ◌∷◌,
  ◌==◌, str_eq, ltb, map, filter, sort_by, text_before, if◌then◌else◌,
}
use ai_self_service.Keyprovider.{Int64, add_64, is_positive_64, less_64}
use ai_self_service.Litellm.Http.{
  ActivityMetrics, DayResult, DailyActivityPage, get_daily_activity, HttpAnswer, answered_with,
  undecodable, too_many_pages, Client, return, fail_with, send, Reply, done, refused, Wire, ◌>>=◌,
}
use ai_self_service.Litellm.Client.{decoded}

abbrev pub activity_max_pages : ℕ
activity_max_pages = 20

-- `keyprovider.DailyUsage`
pub record DailyUsage : Type 0 where
  pub day : String
  pub tokens : Int64

-- `keyprovider.ModelUsage`
pub record ModelUsage : Type 0 where
  pub model : String
  pub requests : Int64
  pub prompt_tokens : Int64
  pub completion_tokens : Int64
  pub total_tokens : Int64

pub record History : Type 0 where
  pub days : List DailyUsage
  pub models : List ModelUsage

-- A map with texts for keys: the entry is changed, and is `fresh` before if there is none.
unfoldable pub upsert : {A : Type 0} → (A → String) → A → (A → A) → String → List A → List A
upsert name fresh change at [] = change fresh ∷ []
upsert name fresh change at (x ∷ xs) =
    let rest = upsert name fresh change at xs in
    if str_eq (name x) at then change x ∷ xs else x ∷ rest

abbrev pub no_tokens : String → DailyUsage
no_tokens day = record { day = day; tokens = 0 }

abbrev pub plus_tokens : Int64 → DailyUsage → DailyUsage
plus_tokens n d = record d { tokens = add_64 d.tokens n }

-- The map `tokensByDay`.
unfoldable pub add_tokens : String → Int64 → List DailyUsage → List DailyUsage
unfolding upsert
add_tokens day n ds = upsert (λ d. d.day) (no_tokens day) (plus_tokens n) day ds

abbrev pub add_metrics : ActivityMetrics → ModelUsage → ModelUsage
add_metrics g m = record m {
  requests = add_64 m.requests g.api_requests;
  prompt_tokens = add_64 m.prompt_tokens g.prompt_tokens;
  completion_tokens = add_64 m.completion_tokens g.completion_tokens;
  total_tokens = add_64 m.total_tokens g.total_tokens;
}

abbrev pub unused : String → ModelUsage
unused model = record {
  model = model;
  requests = 0;
  prompt_tokens = 0;
  completion_tokens = 0;
  total_tokens = 0;
}

-- The map `byModel`.
unfoldable pub add_usage : String → ActivityMetrics → List ModelUsage → List ModelUsage
unfolding upsert
add_usage model g ms = upsert (λ m. m.model) (unused model) (add_metrics g) model ms

unfoldable pub add_groups : List (String × ActivityMetrics) → List ModelUsage → List ModelUsage
unfolding add_usage
add_groups [] ms = ms
add_groups ((name, g) ∷ gs) ms = add_groups gs (add_usage name g ms)

-- A page's rows, added to both maps.
unfoldable pub add_results : List DayResult → History → History
unfolding add_tokens add_groups
add_results [] h = h
add_results (r ∷ rs) h = add_results rs (record {
  days = add_tokens r.date r.metrics.total_tokens h.days;
  models = add_groups r.model_groups h.models;
})

-- `dailyActivity`, from the answer.
unfoldable pub read_activity : HttpAnswer → Client DailyActivityPage
unfolding decoded
read_activity a =
    if a.status == 200
    then decoded "daily activity" a.activity
    else fail_with (answered_with "/user/daily/activity" a.status a.body)

-- The rest of the pages after one, or none.
unfoldable pub after_page :
    (ℕ → History → Client History) → ℕ → History → DailyActivityPage → Client History
unfolding add_results
after_page again page h body =
    let h' = add_results body.results h in if body.has_more then again (suc page) h' else return h'

-- The loop over the pages: `left` is how many may still be asked for.
unfoldable pub read_pages : ℕ → String → String → String → ℕ → History → Client History
unfolding read_activity after_page
read_pages zero id first last page h = fail_with too_many_pages
read_pages (suc left) id first last page h = do
  a ← send (get_daily_activity id first last page)
  body ← read_activity a
  after_page (read_pages left id first last) page h body

-- h.Models[i].TotalTokens > h.Models[j].TotalTokens, then the name
unfoldable pub larger : ModelUsage → ModelUsage → Bool
larger a b =
    if a.total_tokens == b.total_tokens
    then text_before a.model b.model
    else less_64 b.total_tokens a.total_tokens

-- Both maps as the lists that the dashboard draws.
unfoldable pub listed : History → History
unfolding larger
listed h = record {
  days =
      sort_by (λ (a b : DailyUsage). text_before a.day b.day)
        (filter (λ (d : DailyUsage). is_positive_64 d.tokens) h.days);
  models = sort_by larger h.models;
}

abbrev pub no_history : History
no_history = record { days = []; models = [] }

abbrev pub date_before : ℕ → Client String
date_before days w = (done (w.days_ago days), w)

-- `Client.History`
unfoldable pub history : String → ℕ → Client History
unfolding read_pages listed
history owner_id days = if str_eq owner_id "" then return no_history else (do
  first ← date_before days
  last ← date_before 0
  h ← read_pages activity_max_pages owner_id first last 1 no_history
  return (listed h))
