-- ===== src/Database/Quotas/Same.antt =====
-- `sameQuotaWindows` against the multiset of the windows' keys.
use ai_self_service.Prelude.{
  ℕ, suc, ◌+◌, ◌-◌, ◌≤◌, ◌≡◌, refl, ◌↔◌, true, List, [], ◌∷◌, str_eq_iff, if◌then◌else◌, arith,
  length, count_if,
}
use ai_self_service.Database.Models.{ProfileQuota}
use ai_self_service.Database.Quotas.{
  WindowKey, key, same_key, Counts, no_counts, increment, decrement, tally, drain,
  same_quota_windows,
}

-- How often a period and printed budget stand among the windows.
abbrev pub occurrences : WindowKey → List ProfileQuota → ℕ
occurrences k qs = count_if (λ q. same_key (key q) k) qs

pub same_key_iff : (j k : WindowKey) → (same_key j k ≡ true) ↔ (j ≡ k)
unfolding same_key
same_key_iff (p, b) (r, c) = ground (arith, str_eq_iff p r)

tally_lem :
    (qs : List ProfileQuota) (c : Counts) (k : WindowKey) → tally qs c k ≡ c k + occurrences k qs
unfolding tally increment count_if
tally_lem [] c k = omega arith
tally_lem (q ∷ qs) c k = ground (arith, tally_lem qs (increment (key q) c) k)

drain_sound :
    (qs : List ProfileQuota) (c : Counts) (k : WindowKey)
    → drain qs c ≡ true
    → occurrences k qs ≤ c k
unfolding drain decrement count_if
drain_sound [] c k h = omega arith
drain_sound (q ∷ qs) c k h =
    ground (arith, drain_sound qs (decrement (key q) c) k, same_key_iff (key q) k)

drain_complete :
    (qs : List ProfileQuota) (c : Counts)
    → ((k : WindowKey) → occurrences k qs ≤ c k)
    → drain qs c ≡ true
unfolding drain decrement count_if
drain_complete [] c h = refl
drain_complete (q ∷ qs) c h = ground (
  arith,
  drain_complete qs (decrement (key q) c) (λ k. ground (arith, h k)),
  h (key q),
  same_key_iff (key q) (key q),
)

-- The windows without the first that has a key.
without : WindowKey → List ProfileQuota → List ProfileQuota
without k [] = []
without k (q ∷ qs) = if same_key (key q) k then qs else q ∷ without k qs

occurrences-without :
    (k j : WindowKey) (qs : List ProfileQuota)
    → occurrences j (without k qs) ≡ occurrences j qs - (if same_key k j then 1 else 0)
unfolding without count_if
occurrences-without k j [] = ground arith
occurrences-without k j (q ∷ qs) = ground (
  arith,
  occurrences-without k j qs,
  same_key_iff (key q) k,
  same_key_iff k j,
  same_key_iff (key q) j,
)

length-without :
    (k : WindowKey) (qs : List ProfileQuota)
    → 1 ≤ occurrences k qs
    → length qs ≡ suc (length (without k qs))
unfolding without count_if
length-without k [] h = absurd (omega arith)
length-without k (q ∷ qs) h = ground (arith, length-without k qs)

self_occurs : (q : ProfileQuota) (qs : List ProfileQuota) → 1 ≤ occurrences (key q) (q ∷ qs)
unfolding count_if
self_occurs q qs = ground (arith, same_key_iff (key q) (key q))

-- Inclusion of multisets, one element of the smaller at a time.
rest_included :
    (q : ProfileQuota) (bs as' : List ProfileQuota)
    → ((k : WindowKey) → occurrences k (q ∷ bs) ≤ occurrences k as')
    → (k : WindowKey) → occurrences k bs ≤ occurrences k (without (key q) as')
unfolding count_if
rest_included q bs as' h k = ground (arith, h k, occurrences-without (key q) k as')

included_equal :
    (bs as' : List ProfileQuota)
    → length as' ≡ length bs
    → ((k : WindowKey) → occurrences k bs ≤ occurrences k as')
    → (k : WindowKey) → occurrences k as' ≡ occurrences k bs
unfolding count_if
included_equal [] [] e h k = refl
included_equal [] (a ∷ as') e h k = absurd (omega arith)
included_equal (q ∷ bs) as' e h k =
    let here : 1 ≤ occurrences (key q) as' = omega (arith, h (key q), self_occurs q bs) in
    let ih =
      included_equal bs (without (key q) as') (omega (arith, length-without (key q) as' here))
        (rest_included q bs as' h) k in
    ground (arith, ih, occurrences-without (key q) k as', same_key_iff (key q) k, here)

equal_length :
    (bs as' : List ProfileQuota)
    → ((k : WindowKey) → occurrences k as' ≡ occurrences k bs)
    → length as' ≡ length bs
unfolding count_if
equal_length [] [] h = refl
equal_length [] (a ∷ as') h = absurd (omega (arith, h (key a), self_occurs a as'))
equal_length (q ∷ bs) as' h =
    let here : 1 ≤ occurrences (key q) as' = omega (arith, h (key q), self_occurs q bs) in
    let ih =
      equal_length bs (without (key q) as')
        (λ k. ground (arith, h k, occurrences-without (key q) k as')) in
    omega (arith, ih, length-without (key q) as' here)

-- Two sets of windows count as the same exactly when every period and printed budget stands as often
-- in one as in the other.
pub same_quota_windows_iff :
    (a b : List ProfileQuota)
    → (same_quota_windows a b ≡ true) ↔ ((k : WindowKey) → occurrences k a ≡ occurrences k b)
unfolding same_quota_windows no_counts
same_quota_windows_iff a b = (
  λ h. included_equal b a (ground arith) (λ k.
      omega (arith, drain_sound b (tally a no_counts) k (ground arith), tally_lem a no_counts k)),
  λ h. ground (
    arith,
    equal_length b a h,
    drain_complete b (tally a no_counts) (λ k. omega (arith, h k, tally_lem a no_counts k)),
  ),
)
