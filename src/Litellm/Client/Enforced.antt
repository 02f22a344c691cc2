-- ===== src/Litellm/Client/Enforced.antt =====
-- internal/litellm/usage.go: what a key enforces after its limits were pushed.
use ai_self_service.Prelude.{
  ℕ, String, true, false, not, ◌&&◌, ◌⊎◌, inl, inr, ap, ◌∙◌, any, Bool-cases, Some, any-Some,
  Option, none, some, List, [], ◌∷◌, ◌++◌, length, ◌≡◌, refl, arith, str_eq, if◌then◌else◌,
}
use ai_self_service.Keyprovider.{Float64, QuotaWindow, Limits, is_finite}
use ai_self_service.Litellm.{effective_windows}
use ai_self_service.Litellm.Http.{
  Field, omitted, null, given, nullable, KeyUpdate, key_update, HttpAnswer, Reply, done, refused,
  Wire, send, reached, proceed, ◌>>=◌,
}
use ai_self_service.Litellm.Client.{
  limits_update, with_budget, only_key, finite_amount, finite_windows, all_finite, when_marshalled,
  update_key_limits, update_key, key_answer,
}

-- The limits of a key in the gateway.
pub record KeyState : Type 0 where
  pub user_id : Option String
  pub models : Option (List String)
  pub tpm_limit : Option ℕ
  pub rpm_limit : Option ℕ
  pub max_budget : Option Float64
  pub budget_duration : Option String
  pub budget_limits : Option (List QuotaWindow)

-- A field that is left out stays, null clears it, and a value replaces it.
unfoldable pub merged : {A : Type 0} → Field A → Option A → Option A
merged omitted old = old
merged null old = none
merged (given a) old = some a

unfoldable pub patched : KeyUpdate → KeyState → KeyState
unfolding merged
patched body k = record {
  user_id = merged body.user_id k.user_id;
  models = merged body.models k.models;
  tpm_limit = merged body.tpm_limit k.tpm_limit;
  rpm_limit = merged body.rpm_limit k.rpm_limit;
  max_budget = merged body.max_budget k.max_budget;
  budget_duration = merged body.budget_duration k.budget_duration;
  budget_limits = merged body.budget_limits k.budget_limits;
}

abbrev pub flat_pair : Option Float64 → Option String → List QuotaWindow
flat_pair (some budget) (some period) = record { budget = budget; period = period } ∷ []
flat_pair _ _ = []

-- The windows that a key enforces: those of `budget_limits`, or the flat pair.
abbrev pub windows_of :
    Option (List QuotaWindow) → Option Float64 → Option String → List QuotaWindow
windows_of none budget duration = flat_pair budget duration
windows_of (some ws) budget duration = ws

-- The key enforces the limits, and only them, and is its owner's if there is one.
pub record Enforces (owner : String) (l : Limits) (k : KeyState) : Type 0 where
  pub windows : windows_of k.budget_limits k.max_budget k.budget_duration ≡ effective_windows l
  pub models : k.models ≡ some l.models
  pub tokens : k.tpm_limit ≡ l.tokens_per_minute
  pub requests : k.rpm_limit ≡ l.requests_per_minute
  pub bound : str_eq owner "" ≡ false → k.user_id ≡ some owner

nullable-merged : {A : Type 0} (o old : Option A) → merged (nullable o) old ≡ o
unfolding merged nullable
nullable-merged none old = refl
nullable-merged (some a) old = refl

module _ (ref owner : String) (l : Limits) where
  abbrev base : KeyUpdate
  base = record (only_key ref) {
    tpm_limit = nullable l.tokens_per_minute;
    rpm_limit = nullable l.requests_per_minute;
    user_id = if str_eq owner "" then omitted else given owner;
    models = given l.models;
  }

  with_budget-Enforces :
      (k : KeyState) (ws : List QuotaWindow)
      → ws ≡ effective_windows l
      → Enforces owner l (patched (with_budget ws base) k)
  unfolding with_budget patched merged
  with_budget-Enforces k [] e = record {
    windows = e;
    models = refl;
    tokens = nullable-merged l.tokens_per_minute k.tpm_limit;
    requests = nullable-merged l.requests_per_minute k.rpm_limit;
    bound = λ h. ground (arith, h);
  }
  with_budget-Enforces k (w ∷ []) e = record {
    windows = e;
    models = refl;
    tokens = nullable-merged l.tokens_per_minute k.tpm_limit;
    requests = nullable-merged l.requests_per_minute k.rpm_limit;
    bound = λ h. ground (arith, h);
  }
  with_budget-Enforces k (w ∷ v ∷ ws) e = record {
    windows = e;
    models = refl;
    tokens = nullable-merged l.tokens_per_minute k.tpm_limit;
    requests = nullable-merged l.requests_per_minute k.rpm_limit;
    bound = λ h. ground (arith, h);
  }

key_answer-requests :
    (r : Reply HttpAnswer) (route : String) (v : Wire)
    → (proceed r (key_answer route) v).1.requests ≡ v.requests
unfolding key_answer
key_answer-requests (done a) route v = ground arith
key_answer-requests (refused e) route v = refl

update_key-requests :
    (body : KeyUpdate) (w : Wire)
    → finite_amount body.max_budget && finite_windows body.budget_limits ≡ true
    → (update_key body w).1.requests ≡ w.requests ++ key_update body ∷ []
unfolding update_key when_marshalled send ◌>>=◌
update_key-requests body w h =
    let answer = reached (w.answers (length w.requests) (key_update body)) in
    let rest =
      key_answer-requests answer "/key/update"
        (record w { requests = w.requests ++ key_update body ∷ [] }) in
    ground (arith, h, rest)

update_key_unsent :
    (body : KeyUpdate) (w : Wire)
    → finite_amount body.max_budget && finite_windows body.budget_limits ≡ false
    → (update_key body w).1.requests ≡ w.requests
unfolding update_key when_marshalled ◌>>=◌
update_key_unsent body w h = ground (arith, h)

finite_lem :
    (ref owner : String) (l : Limits) (ws : List QuotaWindow)
    → let body = with_budget ws (base ref owner l) in
      finite_amount body.max_budget && finite_windows body.budget_limits ≡ all_finite ws
unfolding with_budget any
finite_lem ref owner l [] = refl
finite_lem ref owner l (w ∷ []) = ground arith
finite_lem ref owner l (w ∷ v ∷ ws) = refl

names_key :
    (ref owner : String) (l : Limits) (ws : List QuotaWindow)
    → (with_budget ws (base ref owner l)).key ≡ ref
unfolding with_budget
names_key ref owner l [] = refl
names_key ref owner l (w ∷ []) = refl
names_key ref owner l (w ∷ v ∷ ws) = refl

-- An amount that JSON has no number for: an infinity, as the others limit nothing.
abbrev pub Unsendable : Limits → Type 0
Unsendable l = Some (λ (q : QuotaWindow). is_finite q.budget ≡ false) (effective_windows l)

-- What the request of a push does.
abbrev pub Pushes : String → String → Limits → Wire → Wire → Type 0
Pushes ref owner l w w' =
    (body : KeyUpdate) × (w'.requests ≡ w.requests ++ key_update body ∷ [])
    × (body.key ≡ ref)
    × ((k : KeyState) → Enforces owner l (patched body k))

-- Pushing limits makes one request, which makes a key enforce these limits and only them, whatever it
-- enforced before: of the windows those that limit anything, in their order, and the models and the rates as
-- given, where a field that a request leaves out stays as it was and null clears it. Only where the
-- amount of such a window is not finite it makes no request.
pub update_key_limits-Enforces :
    (ref owner : String) (l : Limits) (w : Wire)
    → Pushes ref owner l w (update_key_limits ref owner l w).1
      ⊎ (((update_key_limits ref owner l w).1.requests ≡ w.requests) × Unsendable l)
unfolding update_key_limits limits_update
update_key_limits-Enforces ref owner l w =
    let body = limits_update ref owner l in
    let same = finite_lem ref owner l (effective_windows l) in
    elim (Bool-cases (any (λ (q : QuotaWindow). not (is_finite q.budget)) (effective_windows l))) [
      | inl t ↦
          let (q, m, e) =
            any-Some (λ (q : QuotaWindow). not (is_finite q.budget)) (effective_windows l) t in
          inr (update_key_unsent body w (same ∙ ap not t), (q, m, ground (arith, e)))
      | inr f ↦ inl (
        body,
        update_key-requests body w (same ∙ ap not f),
        names_key ref owner l (effective_windows l),
        λ k. with_budget-Enforces ref owner l k (effective_windows l) refl,
      )
    ]
