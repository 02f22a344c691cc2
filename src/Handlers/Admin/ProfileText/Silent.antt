-- ===== src/Handlers/Admin/ProfileText/Silent.antt =====
-- internal/handlers/profileaudit.go: when a save is said to have changed nothing.
use ai_self_service.Prelude.{
  String, Bool, true, false, not, ◌&&◌, none, List, [], ◌∷◌, ◌++◌, ◌≡◌, ◌↔◌, ◌⊎◌, inl, inr, refl,
  sym, ap, ◌∙◌, subst, arith, str_eq, str_eq_iff, any, All, insert_by, sort_by, if◌then◌else◌,
  Bool-cases,
}
use ai_self_service.Database.Models.{Profile, ProfileQuota}
use ai_self_service.Handlers.Admin.ProfileText.{
  Printer, fmt_models, fmt_limit, fmt_key_days, fmt_budget, budget_for, periods_of, quota_periods,
  change_part, quota_changes, profile_changes,
}

-- The log has the same to say of both: the windows by their periods, and a default profile may
-- only become one.
pub record IsSilent (p : Printer) (prev next : Profile) (quotas : List ProfileQuota) : Type 0 where
  pub name : prev.name ≡ next.name
  pub description : prev.description ≡ next.description
  pub models : fmt_models prev.models ≡ fmt_models next.models
  pub tpm : fmt_limit p prev.tpm_limit ≡ fmt_limit p next.tpm_limit
  pub rpm : fmt_limit p prev.rpm_limit ≡ fmt_limit p next.rpm_limit
  pub days : fmt_key_days p prev.key_duration_days ≡ fmt_key_days p next.key_duration_days
  pub budgets :
      (period : String)
      → fmt_budget p (budget_for prev.quotas period) ≡ fmt_budget p (budget_for quotas period)
  pub default : next.is_default ≡ true → prev.is_default ≡ true

append_nil : {A : Type 0} (xs ys : List A) → xs ++ ys ≡ [] → (xs ≡ []) × (ys ≡ [])
append_nil [] ys e = (refl, e)
append_nil (x ∷ xs) ys e = cc

nil_append : {A : Type 0} (xs ys : List A) → xs ≡ [] → ys ≡ [] → xs ++ ys ≡ []
nil_append [] ys e f = f
nil_append (x ∷ xs) ys e f = cc

change_part_iff : (field a b : String) → (change_part field a b ≡ []) ↔ (a ≡ b)
unfolding change_part
change_part_iff field a b = ground (arith, str_eq_iff a b)

-- Text that stands in the log under a condition.
abbrev remark : Bool → String → List String
remark b text = if b then text ∷ [] else []

described_iff : (a b text : String) → ((if str_eq a b then [] else remark true text) ≡ []) ↔ (a ≡ b)
described_iff a b text = ground (arith, str_eq_iff a b)

default_iff : (a b : Bool) (text : String) → (remark (not a && b) text ≡ []) ↔ (b ≡ true → a ≡ true)
default_iff true b text = (λ e h. refl, λ h. refl)
default_iff false true text = (λ e h. cc, λ h. let k : false ≡ true = h refl in cc)
default_iff false false text = (λ e h. cc, λ h. refl)

module _ (P : String → Type 0) where
  uninsert_if :
      (b : Bool) (x y : String) (ys rest : List String)
      → All P (if b then x ∷ y ∷ ys else y ∷ rest)
      → (All P rest → P x × All P ys)
      → P x × All P (y ∷ ys)
  uninsert_if true x y ys rest h k = h
  uninsert_if false x y ys rest (q, h) k = let (p, t) = k h in (p, (q, t))

  uninsert :
      (before : String → String → Bool) (x : String) (xs : List String)
      → All P (insert_by before x xs)
      → P x × All P xs
  unfolding insert_by
  uninsert before x [] h = h
  uninsert before x (y ∷ ys) h =
      uninsert_if (before x y) x y ys (insert_by before x ys) h (uninsert before x ys)

  unsort :
      (before : String → String → Bool) (xs : List String) → All P (sort_by before xs) → All P xs
  unfolding sort_by
  unsort before [] h = tt
  unsort before (x ∷ xs) h =
      let (q, rest) = uninsert before x (sort_by before xs) h in (q, unsort before xs rest)

  look_up :
      (c : String) (seen : List String)
      → any (λ (s : String). str_eq s c) seen ≡ true
      → All P seen
      → P c
  unfolding any
  look_up c [] e h = let k : false ≡ true = e in absurd (ground arith)
  look_up c (s ∷ seen) e (q, h) = elim (Bool-cases (str_eq s c)) [
    | inl t ↦ subst P ((str_eq_iff s c).0 t) q
    | inr n ↦ look_up c seen (ground (arith, e, n)) h
  ]

  unlisted :
      (b : Bool) (c : String) (xs ys : List String)
      → b ≡ true
      → All P (if b then xs else c ∷ ys)
      → All P xs
  unlisted true c xs ys e h = h
  unlisted false c xs ys e h = absurd (ground arith)

  listed_lem :
      (b : Bool) (c : String) (xs ys : List String)
      → b ≡ false
      → All P (if b then xs else c ∷ ys)
      → P c × All P ys
  listed_lem true c xs ys e h = absurd (ground arith)
  listed_lem false c xs ys e h = h

  -- What holds of the listed periods holds of the period of each window.
  cover :
      (qs : List ProfileQuota) (seen : List String)
      → All P seen
      → All P (periods_of qs seen)
      → All (λ (q : ProfileQuota). P q.period) qs
  unfolding periods_of
  cover [] seen k h = tt
  cover (q ∷ qs) seen k h =
      let listed = any (λ (s : String). str_eq s q.period) seen in
      elim (Bool-cases listed) [
        | inl t ↦ (look_up q.period seen t k, cover qs seen k (unlisted listed q.period _ _ t h))
        | inr n ↦
            let (p, r) = listed_lem listed q.period _ _ n h in
            (p, cover qs (q.period ∷ seen) (p, k) r)
      ]

  absent :
      (qs : List ProfileQuota) (c : String)
      → All (λ (q : ProfileQuota). P q.period) qs
      → P c ⊎ (budget_for qs c ≡ none)
  unfolding budget_for
  absent [] c h = inr refl
  absent (q ∷ qs) c (p, h) = elim (Bool-cases (str_eq q.period c)) [
    | inl t ↦ inl (subst P ((str_eq_iff q.period c).0 t) p)
    | inr n ↦ elim (absent qs c h) [ inl r ↦ inl r | inr e ↦ inr (ground (arith, e, n)) ]
  ]

  unappend :
      {A : Type 0} (f : A → String) (xs ys : List A)
      → All (λ x. P (f x)) (xs ++ ys)
      → All (λ x. P (f x)) xs × All (λ x. P (f x)) ys
  unappend f [] ys h = (tt, h)
  unappend f (x ∷ xs) ys (p, h) = let (a, b) = unappend f xs ys h in ((p, a), b)

module _ (p : Printer) (before after : List ProfileQuota) where
  abbrev Alike : String → Type 0
  Alike c = fmt_budget p (budget_for before c) ≡ fmt_budget p (budget_for after c)

  quota_changes_none :
      (cs : List String) → ((c : String) → Alike c) → quota_changes p before after cs ≡ []
  unfolding quota_changes
  quota_changes_none [] h = refl
  quota_changes_none (c ∷ cs) h =
      nil_append _ _ ((change_part_iff _ _ _).1 (h c)) (quota_changes_none cs h)

  quota_changes-Alike : (cs : List String) → quota_changes p before after cs ≡ [] → All Alike cs
  unfolding quota_changes
  quota_changes-Alike [] e = tt
  quota_changes-Alike (c ∷ cs) e =
      let (a, b) = append_nil _ _ e in ((change_part_iff _ _ _).0 a, quota_changes-Alike cs b)

  every_period :
      quota_changes p before after (quota_periods (before ++ after)) ≡ [] → (c : String) → Alike c
  unfolding quota_periods
  every_period e c =
      let listed = unsort Alike _ (periods_of (before ++ after) []) (quota_changes-Alike _ e) in
      let (a, b) =
        unappend Alike (λ (q : ProfileQuota). q.period) before after
          (cover Alike (before ++ after) [] tt listed) in
      elim (absent Alike before c a) [
        | inl r ↦ r
        | inr m ↦ elim (absent Alike after c b) [
          | inl r ↦ r
          | inr n ↦ ap (fmt_budget p) (m ∙ sym n)
        ]
      ]

-- The log of a save lists no change exactly when it would have the same to say of the profile
-- before and after it, and the save does not make it the default one: no field and no period is
-- left out, and the order of the windows does not matter.
pub profile_changes-IsSilent_iff :
    (p : Printer) (prev next : Profile) (quotas : List ProfileQuota)
    → (profile_changes p prev next quotas ≡ []) ↔ IsSilent p prev next quotas
unfolding profile_changes change_part quota_changes quota_periods
profile_changes-IsSilent_iff p prev next quotas =
    let name_lem = change_part_iff "name" prev.name next.name in
    let description_lem = described_iff prev.description next.description "description changed" in
    let models_lem = change_part_iff "models" (fmt_models prev.models) (fmt_models next.models) in
    let tpm_lem = change_part_iff "tpm" (fmt_limit p prev.tpm_limit) (fmt_limit p next.tpm_limit) in
    let rpm_lem = change_part_iff "rpm" (fmt_limit p prev.rpm_limit) (fmt_limit p next.rpm_limit) in
    let days_lem =
      change_part_iff "valid" (fmt_key_days p prev.key_duration_days)
        (fmt_key_days p next.key_duration_days) in
    let default_lem = default_iff prev.is_default next.is_default "now default" in
    (
      λ e.
          let (e6, default) = append_nil _ _ e in
          let (e5, budgets) = append_nil _ _ e6 in
          let (e4, days) = append_nil _ _ e5 in
          let (e3, rpm) = append_nil _ _ e4 in
          let (e2, tpm) = append_nil _ _ e3 in
          let (e1, models) = append_nil _ _ e2 in
          let (name, description) = append_nil _ _ e1 in
          record {
            name = name_lem.0 name;
            description = description_lem.0 description;
            models = models_lem.0 models;
            tpm = tpm_lem.0 tpm;
            rpm = rpm_lem.0 rpm;
            days = days_lem.0 days;
            budgets = every_period p prev.quotas quotas budgets;
            default = default_lem.0 default;
          },
      λ s.
          let e1 = nil_append _ _ (name_lem.1 s.name) (description_lem.1 s.description) in
          let e2 = nil_append _ _ e1 (models_lem.1 s.models) in
          let e3 = nil_append _ _ e2 (tpm_lem.1 s.tpm) in
          let e4 = nil_append _ _ e3 (rpm_lem.1 s.rpm) in
          let e5 = nil_append _ _ e4 (days_lem.1 s.days) in
          let e6 = nil_append _ _ e5 (quota_changes_none p prev.quotas quotas _ s.budgets) in
          nil_append _ _ e6 (default_lem.1 s.default),
    )
