-- ===== src/Litellm/Usage/Sums.antt =====
-- internal/litellm/usage.go: the chart of a person shows the sums over all pages.
use ai_self_service.Prelude.{
  ℕ, zero, suc, ◌≤◌, String, Bool, true, false, Option, none, some, List, [], ◌∷◌, ◌++◌, ◌≡◌, refl,
  sym, ap, ◌∙◌, subst, arith, ◌==◌, str_eq, filter, length, text_before, All, All-sort_by,
  All-passes, if◌then◌else◌,
}
use ai_self_service.Keyprovider.{is_positive_64}
use ai_self_service.Litellm.Http.{
  DailyActivityPage, Request, get_daily_activity, HttpAnswer, Client, return, fail_with, send,
  reached, proceed, Reply, done, refused, Wire, ClientError, ◌>>=◌,
}
use ai_self_service.Litellm.Client.{decoded}
use ai_self_service.Litellm.Usage.{
  History, DailyUsage, ModelUsage, add_results, read_activity, after_page, read_pages, larger,
  listed, no_history, history, activity_max_pages,
}
use ai_self_service.Litellm.Usage.Amounts.{
  amount-sort_by, amount-filter, sort_by-OneEach, times-filter,
}
use ai_self_service.Litellm.Usage.Totals.{
  Count, counted, reported_in, grouped_in, OneADay, OneAModel, tokens_of, model_total, wrapped,
  add_pages, pages-Holds,
}

abbrev asked : Request → Wire → Wire
asked q w = record w { requests = w.requests ++ q ∷ [] }

-- The pages that the gateway answered with, one after the other; the last has no more after it.
pub data Fetched (id first last : String) : List DailyActivityPage → ℕ → Wire → Type 0 where
  last_page :
      (p : DailyActivityPage) (page : ℕ) (w : Wire) (a : HttpAnswer)
      → w.answers (length w.requests) (get_daily_activity id first last page) ≡ some a
      → a.activity ≡ some p
      → p.has_more ≡ false
      → Fetched id first last (p ∷ []) page w
  more_pages :
      (p : DailyActivityPage) (ps : List DailyActivityPage) (page : ℕ) (w : Wire) (a : HttpAnswer)
      → w.answers (length w.requests) (get_daily_activity id first last page) ≡ some a
      → a.activity ≡ some p
      → p.has_more ≡ true
      → Fetched id first last ps (suc page) (asked (get_daily_activity id first last page) w)
      → Fetched id first last (p ∷ ps) page w

proceed_done :
    {A B : Type 0} (r : Reply A) (f : A → Client B) (v : Wire) (b : B)
    → (proceed r f v).0 ≡ done b
    → (a : A) × (r ≡ done a) × ((f a v).0 ≡ done b)
proceed_done (done a) f v b e = (a, refl, e)
proceed_done (refused x) f v b e = cc

reached_done : (o : Option HttpAnswer) (a : HttpAnswer) → reached o ≡ done a → o ≡ some a
reached_done none a e = cc
reached_done (some b) a e = ground arith

decoded_done :
    {A : Type 0} (route : String) (o : Option A) (v : Wire) (a : A)
    → (decoded route o v).0 ≡ done a
    → o ≡ some a
unfolding decoded
decoded_done route none v a e = cc
decoded_done route (some b) v a e = ground arith

answer_lem :
    (b : Bool) (o : Option DailyActivityPage) (x : ClientError) (v : Wire) (p : DailyActivityPage)
    → ((if b then decoded "daily activity" o else fail_with x) v).0 ≡ done p
    → (o ≡ some p) × (((if b then decoded "daily activity" o else fail_with x) v).1 ≡ v)
unfolding decoded
answer_lem true none x v p e = cc
answer_lem true (some q) x v p e = (ground arith, refl)
answer_lem false o x v p e = cc

read_done :
    (a : HttpAnswer) (v : Wire) (p : DailyActivityPage)
    → (read_activity a v).0 ≡ done p
    → (a.activity ≡ some p) × ((read_activity a v).1 ≡ v)
unfolding read_activity
read_done a v p e = answer_lem (a.status == 200) a.activity _ v p e

bind_done :
    {A B : Type 0} (m : Client A) (f : A → Client B) (w : Wire) (b : B)
    → ((m >>= f) w).0 ≡ done b
    → (a : A) × ((m w).0 ≡ done a) × ((f a (m w).1).0 ≡ done b)
unfolding ◌>>=◌
bind_done m f w b e = proceed_done (m w).0 f (m w).1 b e

module _ (id first last : String) where
  -- What reading pages returns is the sum of those that were answered.
  abbrev Reads : ℕ → ℕ → History → Wire → History → Type 0
  Reads left page h w h' =
      (ps : List DailyActivityPage) × Fetched id first last ps page w
      × (length ps ≤ left)
      × (h' ≡ add_pages ps h)

  module _ (page : ℕ) (h h' : History) (w : Wire) (a : HttpAnswer) (p : DailyActivityPage)
      (answered_with : w.answers (length w.requests) (get_daily_activity id first last page)
        ≡ some a)
      (is_page : a.activity ≡ some p) where
    after_page-Reads :
        (left : ℕ) (b : Bool)
        → p.has_more ≡ b
        → ((h1 : History)
            → (read_pages left id first last
                (suc page)
                h1
                (asked (get_daily_activity id first last page) w)).0
              ≡ done h'
            → Reads left (suc page) h1 (asked (get_daily_activity id first last page) w) h')
        → ((if b
              then read_pages left id first last (suc page) (add_results p.results h)
              else return (add_results p.results h))
            (asked (get_daily_activity id first last page) w)).0
          ≡ done h'
        → Reads (suc left) page h w h'
    unfolding add_pages
    after_page-Reads left true e rest q =
        let (ps, f, l, s) = rest _ q in
        (p ∷ ps, more_pages p ps page w a answered_with is_page e f, omega (arith, l), s)
    after_page-Reads left false e rest q =
        (p ∷ [], last_page p page w a answered_with is_page e, omega arith, ground arith)

  read_pages-Reads :
      (left page : ℕ) (h h' : History) (w : Wire)
      → (read_pages left id first last page h w).0 ≡ done h'
      → Reads left page h w h'
  unfolding read_pages send after_page
  read_pages-Reads zero page h h' w e = cc
  read_pages-Reads (suc left) page h h' w e =
      let q = get_daily_activity id first last page in
      let (a, ea, e1) = bind_done (send q) _ w h' e in
      let (p, ep, e2) = bind_done (read_activity a) _ (asked q w) h' e1 in
      let (is_page, stay) = read_done a (asked q w) p ep in
      after_page-Reads page h h' w a p (reached_done _ a ea) is_page left p.has_more refl
        (λ h1 k. read_pages-Reads left (suc page) h1 h' (asked q w) k)
        (ap (λ v. (after_page (read_pages left id first last) page h p v).0) (sym stay) ∙ e2)

-- What is charted of a day: the days whose sum, as an int64, is not positive are left out.
abbrev pub drawn : ℕ → ℕ
drawn n = if is_positive_64 (wrapped n) then wrapped n else 0

-- The chart agrees with the pages. A day has the sum of what they report for it, is listed once at most,
-- and not without tokens; a model has the sums of what they report for it, and is listed once at
-- most. The sums are those of int64, which wrap around.
pub record Charts (ps : List DailyActivityPage) (h : History) : Type 0 where
  pub tokens : (day : String) → tokens_of day h.days ≡ drawn (reported_in day ps)
  pub one_a_day : OneADay h.days
  pub used : All (λ (d : DailyUsage). is_positive_64 d.tokens ≡ true) h.days
  pub usage :
      (c : Count) (model : String) → model_total c model h.models ≡ wrapped (grouped_in c model ps)
  pub one_a_model : OneAModel h.models

listed-Charts : (ps : List DailyActivityPage) → Charts ps (listed (add_pages ps no_history))
unfolding listed
listed-Charts ps =
    let raw = add_pages ps no_history in
    let k = pages-Holds ps in
    let by_day : DailyUsage → String = λ d. d.day in
    let by_model : ModelUsage → String = λ m. m.model in
    let positive : DailyUsage → Bool = λ d. is_positive_64 d.tokens in
    let earlier = λ (a b : DailyUsage). text_before a.day b.day in
    let kept = filter positive raw.days in
    record {
      tokens = λ day.
          amount-sort_by by_day (λ d. d.tokens) day earlier kept
          ∙ amount-filter by_day (λ d. d.tokens) day is_positive_64 raw.days (k.one_a_day day) refl
          ∙ ap (λ n. if is_positive_64 n then n else 0) (k.tokens day);
      one_a_day =
          sort_by-OneEach by_day earlier kept
            (λ day. omega (arith, times-filter by_day positive day raw.days, k.one_a_day day));
      used = All-sort_by _ earlier kept (All-passes positive raw.days);
      usage =
          λ c model. amount-sort_by by_model (counted c) model larger raw.models ∙ k.usage c model;
      one_a_model = sort_by-OneEach by_model larger raw.models k.one_a_model;
    }

if_false : {A : Type 0} (b : Bool) (x y : A) → b ≡ false → (if b then x else y) ≡ y
if_false true x y h = cc
if_false false x y h = refl

done_same : {A : Type 0} {a b : A} → (let r : Reply A = done a in r) ≡ done b → a ≡ b
done_same e = ground arith

-- The usage of a person, where it is returned: the gateway answered twenty pages at most, asked for one
-- after the other until one had no more after it; the chart has for each day, and for each model and
-- each of its four counts, the int64 sum of what all of them report, lists no day and no model twice,
-- and no day whose sum is not positive.
pub history-Charts :
    (id : String) (days : ℕ) (w : Wire) (h : History)
    → str_eq id "" ≡ false
    → (history id days w).0 ≡ done h
    → (ps : List DailyActivityPage) × Fetched id (w.days_ago days) (w.days_ago 0) ps 1 w
      × (length ps ≤ activity_max_pages)
      × Charts ps h
unfolding history ◌>>=◌
history-Charts id days w h person e =
    let first = w.days_ago days in
    let last = w.days_ago 0 in
    let (raw, er, el) =
      bind_done (read_pages activity_max_pages id first last 1 no_history) (λ r. return (listed r))
        w h (ap (λ (m : Client History). (m w).0) (sym (if_false (str_eq id "") _ _ person)) ∙ e) in
    let (ps, f, l, s) = read_pages-Reads id first last activity_max_pages 1 no_history raw w er in
    (ps, f, l, subst (Charts ps) (ap listed (sym s) ∙ done_same el) (listed-Charts ps))
