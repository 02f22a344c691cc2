-- ===== src/Handlers/Admin/Form/Enforced.antt =====
-- internal/handlers/admin.go with internal/litellm/provider.go: the windows of an accepted form, where they
-- are enforced.
use ai_self_service.Prelude.{
  ℕ, ◌+◌, ◌≤◌, String, Bool, true, false, not, ◌&&◌, some, List, [], ◌∷◌, ◌≡◌, refl, sym, subst,
  arith, str_eq, str_eq_iff, any, All, length, map, filter, count_if, count_if_none,
}
use ai_self_service.Keyprovider.{QuotaWindow}
use ai_self_service.Database.Models.{Profile, ProfileQuota, to_window, limits}
use ai_self_service.Litellm.{is_valid_quota_period, effective_windows, above_zero}
use ai_self_service.Handlers.Admin.Form.{GoText, accepted, parse_quota_windows}
use ai_self_service.Handlers.Admin.Form.Windows.{
  IsAccepted, is_window, has_period, Distinct, parse_quota_windows-IsAccepted,
}

kept_lem :
    (qs : List ProfileQuota)
    → All (λ q. is_window q ≡ true) qs
    → let kept : QuotaWindow → Bool = λ q. above_zero q.budget && not (str_eq q.period "") in
      filter kept (map to_window qs) ≡ map to_window qs
unfolding filter is_window to_window
kept_lem [] h = refl
kept_lem (q ∷ qs) (h, hs) = ground (arith, kept_lem qs hs)

-- The provider drops none of the windows of a profile that has the form's windows.
parse-effective_windows :
    (t : GoText) (amounts periods : List String) (qs : List ProfileQuota) (p : Profile)
    → parse_quota_windows t amounts periods ≡ accepted qs
    → p.quotas ≡ qs
    → effective_windows (limits (some p)) ≡ map to_window qs
unfolding effective_windows limits
parse-effective_windows t amounts periods qs p e h =
    let a = parse_quota_windows-IsAccepted t amounts periods qs e in
    subst (λ l. effective_windows (limits (some p)) ≡ map to_window l) h
      (kept_lem p.quotas (subst (All (λ q. is_window q ≡ true)) (sym h) a.each))

abbrev of_period : String → List ProfileQuota → ℕ
of_period p qs = count_if (has_period p) qs

no_twin :
    (p : String) (q : ProfileQuota) (qs : List ProfileQuota)
    → str_eq p q.period ≡ true
    → any (has_period q.period) qs ≡ false
    → of_period p qs ≡ 0
no_twin p q qs h n =
    count_if_none (has_period p) qs
      (subst (λ x. any (has_period x) qs ≡ false) (sym ((str_eq_iff p q.period).0 h)) n)

once : (p : String) (qs : List ProfileQuota) → Distinct qs → of_period p qs ≤ 1
unfolding count_if
once p [] d = omega arith
once p (q ∷ qs) (n, d) = ground (arith, once p qs d, no_twin p q qs)

counted :
    (qs : List ProfileQuota)
    → All (λ q. is_window q ≡ true) qs
    → length qs ≤ of_period "1h" qs + of_period "24h" qs + of_period "7d" qs + of_period "30d" qs
unfolding count_if is_window is_valid_quota_period any
counted [] h = omega arith
counted (q ∷ qs) (h, hs) = ground (arith, counted qs hs)

-- An accepted form has four windows at most.
parse-length_le :
    (t : GoText) (amounts periods : List String) (qs : List ProfileQuota)
    → parse_quota_windows t amounts periods ≡ accepted qs
    → length qs ≤ 4
parse-length_le t amounts periods qs e =
    let a = parse_quota_windows-IsAccepted t amounts periods qs e in
    omega (
      arith,
      counted qs a.each,
      once "1h" qs a.distinct,
      once "24h" qs a.distinct,
      once "7d" qs a.distinct,
      once "30d" qs a.distinct,
    )

-- The windows that the profile form is accepted with have positive finite amounts and known and
-- distinct periods, and no shorter one allows more than a longer one. They are four at most, and
-- the provider drops none of the windows of a profile that has them.
pub parse-IsEnforced :
    (t : GoText) (amounts periods : List String) (qs : List ProfileQuota) (p : Profile)
    → parse_quota_windows t amounts periods ≡ accepted qs
    → p.quotas ≡ qs
    → IsAccepted qs × (length qs ≤ 4) × (effective_windows (limits (some p)) ≡ map to_window qs)
parse-IsEnforced t amounts periods qs p e h = (
  parse_quota_windows-IsAccepted t amounts periods qs e,
  parse-length_le t amounts periods qs e,
  parse-effective_windows t amounts periods qs p e h,
)
