-- ===== src/Database/Revisions/Exact.antt =====
-- LimitsRev: which saves of a profile raise it.
use ai_self_service.Prelude.{
  ℕ, ◌+◌, ◌≡◌, ◌↔◌, ◌⊎◌, inl, inr, refl, sym, ◌∙◌, Bool, true, false, not, ◌&&◌, ◌==◌, List, [],
  ◌∷◌, String, arith, count_if, filter, str_eq, same_nat_iff, same_texts_iff, Bool-cases,
}
use ai_self_service.Keyprovider.{le_zero, printed}
use ai_self_service.Database.Models.{Profile, ProfileQuota}
use ai_self_service.Database.Errors.{ok}
use ai_self_service.Database.Tables.{Db}
use ai_self_service.Database.Quotas.{same_quota_windows, enforced, key, same_key}
use ai_self_service.Database.Quotas.Same.{occurrences, same_quota_windows_iff}
use ai_self_service.Database.Profiles.{limits_differ, update_profile}
use ai_self_service.Database.Profiles.Reads.{profile_by_id}
use ai_self_service.Database.Revisions.{
  HasRev, limits_step, windows_step, update_profile-limits_rev,
}
use ai_self_service.Exec.{World}

-- The limits of a key beside its allowance windows.
pub record SameLimits (old new : Profile) : Type 0 where
  pub models : old.models ≡ new.models
  pub tpm : old.tpm_limit ≡ new.tpm_limit
  pub rpm : old.rpm_limit ≡ new.rpm_limit

-- A window with a positive amount and a period.
abbrev pub enforces : ProfileQuota → Bool
enforces q = not (le_zero q.budget) && not (str_eq q.period "")

abbrev pub is_for : String → ℕ → ProfileQuota → Bool
is_for period budget q = str_eq q.period period && printed q.budget == budget

-- Each period and printed budget stands as often among the stored windows as among the given ones
-- that enforce anything.
abbrev pub SameWindows : List ProfileQuota → List ProfileQuota → Type 0
SameWindows old given =
    (period : String) (budget : ℕ)
    → count_if (is_for period budget) old
      ≡ count_if (λ q. enforces q && is_for period budget q) given

-- One for a change, and nothing otherwise.
abbrev pub Steps : Type 0 → ℕ → Type 0
Steps Same n = ((n ≡ 1) × ¬ Same) ⊎ ((n ≡ 0) × Same)

-- The profile was the stored one, and its revision was raised by one for other limits and by one for
-- other windows.
abbrev pub Raises : Profile → Profile → List ProfileQuota → Db → Db → Type 0
Raises prev p quotas d d' =
    (profile_by_id p.id d ≡ ok prev)
    × (limits windows : ℕ) × HasRev p.id (prev.limits_rev + limits + windows) d'
    × Steps (SameLimits prev p) limits
    × Steps (SameWindows prev.quotas quotas) windows

limits_differ_lem : (old new : Profile) → (limits_differ old new ≡ false) ↔ SameLimits old new
unfolding limits_differ
limits_differ_lem old new =
    let m = same_texts_iff old.models new.models in
    let t = same_nat_iff old.tpm_limit new.tpm_limit in
    let r = same_nat_iff old.rpm_limit new.rpm_limit in
    (
      λ h. record {
        models = m.0 (ground (arith, h));
        tpm = t.0 (ground (arith, h));
        rpm = r.0 (ground (arith, h));
      },
      λ s. ground (arith, m.1 s.models, t.1 s.tpm, r.1 s.rpm),
    )

limits_step-Steps : (old new : Profile) → Steps (SameLimits old new) (limits_step old new)
limits_step-Steps old new = elim (Bool-cases (limits_differ old new)) [
  | inl t ↦ inl (
    ground (arith, t),
    λ s. let k : true ≡ false = sym t ∙ (limits_differ_lem old new).1 s in absurd (ground arith),
  )
  | inr f ↦ inr (ground (arith, f), (limits_differ_lem old new).0 f)
]

enforced_lem :
    (id : ℕ) (period : String) (budget : ℕ) (qs : List ProfileQuota)
    → occurrences (period, budget) (enforced id qs)
      ≡ count_if (λ q. enforces q && is_for period budget q) qs
unfolding enforced filter count_if same_key key
enforced_lem id period budget [] = refl
enforced_lem id period budget (q ∷ qs) = ground (arith, enforced_lem id period budget qs)

stored_lem :
    (period : String) (budget : ℕ) (qs : List ProfileQuota)
    → occurrences (period, budget) qs ≡ count_if (is_for period budget) qs
unfolding same_key key
stored_lem period budget qs = refl

windows_lem :
    (id : ℕ) (old given : List ProfileQuota)
    → (same_quota_windows old (enforced id given) ≡ true) ↔ SameWindows old given
windows_lem id old given =
    let both = same_quota_windows_iff old (enforced id given) in
    (
      λ h period budget.
          sym (stored_lem period budget old)
          ∙ both.0 h (period, budget)
          ∙ enforced_lem id period budget given,
      λ h. both.1 (λ (period, budget).
          stored_lem period budget old
          ∙ h period budget
          ∙ sym (enforced_lem id period budget given)),
    )

windows_step-Steps :
    (id : ℕ) (old given : List ProfileQuota)
    → Steps (SameWindows old given) (windows_step old (enforced id given))
windows_step-Steps id old given = elim (Bool-cases (same_quota_windows old (enforced id given))) [
  | inl t ↦ inr (ground (arith, t), (windows_lem id old given).0 t)
  | inr f ↦ inl (
    ground (arith, f),
    λ s. let k : true ≡ false = sym ((windows_lem id old given).1 s) ∙ f in absurd (ground arith),
  )
]

-- A save that succeeds returns the profile as it was stored, with its windows, and raises its
-- revision by one if the models, the TPM or the RPM limit changed, and by one if the windows that
-- enforce anything are others by period and printed budget; without such a change the revision stays.
pub update_profile-Raises :
    (p : Profile) (quotas : List ProfileQuota) (w : World) (prev : Profile) (demoted : List String)
    → (update_profile p quotas w).0 ≡ ok (prev, demoted)
    → Raises prev p quotas w.db (update_profile p quotas w).1.db
update_profile-Raises p quotas w prev demoted e =
    let (stored, rev) = update_profile-limits_rev p quotas w prev demoted e in
    (
      stored,
      limits_step prev p,
      windows_step prev.quotas (enforced p.id quotas),
      rev,
      limits_step-Steps prev p,
      windows_step-Steps p.id prev.quotas quotas,
    )
