-- ===== src/Litellm/Split.antt =====
-- internal/litellm/provider.go, windows.go: what a new key and its owner enforce together.
use ai_self_service.Prelude.{
  Bool, true, false, not, ◌&&◌, Option, none, some, String, List, [], ◌∷◌, ◌++◌, map, All, ◌≡◌,
  refl, sym, ap, ◌∙◌, subst, arith, filter, str_eq, if◌then◌else◌,
}
use ai_self_service.Keyprovider.{Float64, QuotaWindow, Limits, GatewayUser}
use ai_self_service.Litellm.{
  above_zero, effective_windows, widest_window, user_budget, split_limits,
}
use ai_self_service.Litellm.Widest.{IsSplit, widest_window-IsSplit}
use ai_self_service.Litellm.KeyParams.{
  KeyParams, named_models, with_windows, to_key_params, create_request, BudgetWindow, KeyInfo,
  with_spend, flat_window, listed_windows, key_windows,
}

-- The window that an entry of the gateway's answer is about.
abbrev pub window_of : BudgetWindow → QuotaWindow
window_of b = record { budget = b.max_budget; period = b.budget_duration }

-- The gateway reports a key with the windows that it was given.
pub record Echoes (params : KeyParams) (info : KeyInfo) : Type 0 where
  pub alive : str_eq info.status "deleted" ≡ false
  pub budget : info.max_budget ≡ params.max_budget
  pub duration : info.budget_duration ≡ params.budget_duration
  pub limits : map window_of info.budget_limits ≡ params.budget_limits

abbrev is_effective : QuotaWindow → Bool
is_effective q = above_zero q.budget && not (str_eq q.period "")

abbrev Effective : QuotaWindow → Type 0
Effective q = is_effective q ≡ true

filter-All : (qs : List QuotaWindow) → All Effective (filter is_effective qs)
unfolding filter
filter-All [] = tt
filter-All (q ∷ qs) = go q qs (is_effective q) refl (filter-All qs)
  where
    go :
        (q : QuotaWindow) (qs : List QuotaWindow) (b : Bool)
        → is_effective q ≡ b
        → All Effective (filter is_effective qs)
        → All Effective (if b then q ∷ filter is_effective qs else filter is_effective qs)
    go q qs true e h = (e, h)
    go q qs false e h = h

filter_same : (qs : List QuotaWindow) → All Effective qs → filter is_effective qs ≡ qs
unfolding filter
filter_same [] h = refl
filter_same (q ∷ qs) (e, h) = ground (arith, filter_same qs h, e)

-- One element of a list, and the others.
All-around :
    (front : List QuotaWindow) (v : QuotaWindow) (back : List QuotaWindow)
    → All Effective (front ++ v ∷ back)
    → Effective v × All Effective (front ++ back)
All-around [] v back h = h
All-around (q ∷ front) v back (e, h) = let r = All-around front v back h in (r.0, (e, r.1))

Effective-allowance : (v : QuotaWindow) → Effective v → user_budget v ≡ some v
unfolding user_budget above_zero
Effective-allowance v e = ground arith

one_window :
    (usage : String → Option Float64) (w : BudgetWindow)
    → window_of (with_spend usage w) ≡ window_of w
unfolding with_spend
one_window usage w = ground arith

window_of-with_spend :
    (usage : String → Option Float64) (ws : List BudgetWindow)
    → map window_of (map (with_spend usage) ws) ≡ map window_of ws
unfolding with_spend
window_of-with_spend usage [] = refl
window_of-with_spend usage (w ∷ ws) =
    ap (λ (r : List QuotaWindow). window_of (with_spend usage w) ∷ r)
      (window_of-with_spend usage ws)
    ∙ ap (λ (q : QuotaWindow). q ∷ map window_of ws) (one_window usage w)

listed_some :
    (info : KeyInfo) (bl : List BudgetWindow) (q : QuotaWindow) (qs : List QuotaWindow)
    → map window_of bl ≡ q ∷ qs
    → map window_of (listed_windows info bl) ≡ q ∷ qs
unfolding listed_windows
listed_some info [] q qs h = cc
listed_some info (w ∷ ws) q qs h = window_of-with_spend info.budget_limits_usage (w ∷ ws) ∙ h

listed_none :
    (info : KeyInfo) (bl : List BudgetWindow)
    → map window_of bl ≡ []
    → listed_windows info bl ≡ flat_window info info.max_budget info.budget_duration
unfolding listed_windows
listed_none info [] h = refl
listed_none info (w ∷ ws) h = cc

flat_none :
    (info : KeyInfo) (budget : Option Float64) (duration : Option String)
    → budget ≡ none
    → flat_window info budget duration ≡ []
unfolding flat_window
flat_none info none duration h = refl
flat_none info (some b) duration h = cc

-- What is read back of a key is what it was given.
read_back :
    (ws : List QuotaWindow) (params : KeyParams) (info : KeyInfo)
    → params.max_budget ≡ none
    → params.budget_limits ≡ []
    → Echoes (with_windows ws params) info
    → map window_of (listed_windows info info.budget_limits) ≡ ws
unfolding with_windows
read_back [] params info no_budget no_limits h = ap (map window_of) (
    listed_none info info.budget_limits (h.limits ∙ no_limits)
    ∙ flat_none info info.max_budget info.budget_duration (h.budget ∙ no_budget))
read_back (w ∷ []) params info no_budget no_limits h =
    ap (map window_of) (
      listed_none info info.budget_limits (h.limits ∙ no_limits)
      ∙ ap (λ (b : Option Float64). flat_window info b info.budget_duration) h.budget
      ∙ ap (flat_window info (some w.budget)) h.duration)
    ∙ (unfold flat_window in refl)
read_back (w ∷ v ∷ ws) params info no_budget no_limits h =
    listed_some info info.budget_limits w (v ∷ ws) h.limits

Effective-IsSplit :
    (w v : QuotaWindow) (ws rest : List QuotaWindow)
    → All Effective (w ∷ ws)
    → IsSplit (w ∷ ws) v rest
    → Effective v × All Effective rest
Effective-IsSplit w v ws rest h s =
    let r = All-around s.front v s.back (subst (All Effective) s.whole h) in
    (r.0, subst (All Effective) (sym s.left) r.1)

-- The parameters of a key without windows.
abbrev bare : GatewayUser → Limits → KeyParams
bare user l = record {
  models = named_models l.models;
  tpm_limit = l.tokens_per_minute;
  rpm_limit = l.requests_per_minute;
  user_id = user.id;
  max_budget = none;
  budget_duration = none;
  budget_limits = [];
}

if_false : {A : Type 0} (b : Bool) (x y : A) → b ≡ false → (if b then x else y) ≡ y
if_false true x y h = cc
if_false false x y h = refl

split_lem :
    (user : GatewayUser) (l : Limits) (windows : List QuotaWindow)
    → str_eq user.id "" ≡ false
    → effective_windows l ≡ windows
    → split_limits user l ≡ (
      some (user_budget (widest_window windows).0),
      record l { quotas = (widest_window windows).1 },
    )
unfolding split_limits
split_lem user l windows person e =
    if_false (str_eq user.id "") _ _ person
    ∙ ap
        (λ (qs : List QuotaWindow).
          (some (user_budget (widest_window qs).0), record l { quotas = (widest_window qs).1 }))
        e

request_lem :
    (user : GatewayUser) (l : Limits) (windows : List QuotaWindow)
    → str_eq user.id "" ≡ false
    → effective_windows l ≡ windows
    → ((create_request user l).0 ≡ some (user_budget (widest_window windows).0))
      × ((create_request user l).1
          ≡ with_windows (filter is_effective (widest_window windows).1) (bare user l))
unfolding create_request split_limits to_key_params effective_windows
request_lem user l windows person e =
    let q = split_lem user l windows person e in
    (
      ap (λ (x : Option (Option QuotaWindow) × Limits). x.0) q,
      ap (λ (x : Option (Option QuotaWindow) × Limits). to_key_params user x.1) q,
    )

read_alive :
    (info : KeyInfo)
    → str_eq info.status "deleted" ≡ false
    → key_windows info ≡ some (listed_windows info info.budget_limits)
unfolding key_windows
read_alive info h = ground arith

-- For a person and a profile with at least one window that limits anything, creating a key gives the
-- person one of these windows as their allowance, one of the longest period, and the key all others:
-- what is read back from a gateway that reports a key as it was created is those, in their order.
pub create_request-IsSplit :
    (user : GatewayUser) (l : Limits) (w : QuotaWindow) (ws : List QuotaWindow) (info : KeyInfo)
    → str_eq user.id "" ≡ false
    → effective_windows l ≡ w ∷ ws
    → Echoes (create_request user l).1 info
    → (v : QuotaWindow) × (read : List BudgetWindow) × ((create_request user l).0 ≡ some (some v))
      × (key_windows info ≡ some read)
      × IsSplit (w ∷ ws) v (map window_of read)
create_request-IsSplit user l w ws info person windows echoes =
    let v = (widest_window (w ∷ ws)).0 in
    let rest = (widest_window (w ∷ ws)).1 in
    let s = widest_window-IsSplit w ws in
    let e =
      Effective-IsSplit w v ws rest
        (subst (All Effective) windows (unfold effective_windows in filter-All l.quotas)) s in
    let r = request_lem user l (w ∷ ws) person windows in
    let same = read_back rest (bare user l) info refl refl (
      subst (λ (x : KeyParams). Echoes x info)
        (r.1 ∙ ap (λ q. with_windows q (bare user l)) (filter_same rest e.1)) echoes) in
    (
      v,
      listed_windows info info.budget_limits,
      r.0 ∙ ap some (Effective-allowance v e.0),
      read_alive info echoes.alive,
      subst (IsSplit (w ∷ ws) v) (sym same) s,
    )
