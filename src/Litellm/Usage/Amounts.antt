-- ===== src/Litellm/Usage/Amounts.antt =====
-- internal/litellm/usage.go: the amounts in a map that is listed, each name once at most.
use ai_self_service.Prelude.{
  ℕ, ◌+◌, ◌≤◌, String, Bool, true, false, List, [], ◌∷◌, ◌≡◌, refl, ap, arith, str_eq, str_eq_iff,
  filter, sort_by, insert_by, count_if, count_if-sort_by, if◌then◌else◌,
}
use ai_self_service.Keyprovider.{add_64}
use ai_self_service.Litellm.Usage.{upsert}

same_as : (a b c : String) → str_eq a b ≡ true → str_eq a c ≡ str_eq b c
same_as a b c h = ap (λ x. str_eq x c) ((str_eq_iff a b).0 h)

sym_eq : (a b : String) → str_eq a b ≡ str_eq b a
sym_eq a b = ground (arith, str_eq_iff a b, str_eq_iff b a)

module _ {A : Type 0} (name : A → String) where
  -- How often a name stands in the list.
  abbrev pub times : String → List A → ℕ
  times k xs = count_if (λ x. str_eq (name x) k) xs

  -- Each name once at most.
  abbrev pub OneEach : List A → Type 0
  OneEach xs = (k : String) → times k xs ≤ 1

  -- What the list has for a name.
  unfoldable pub amount : (A → ℕ) → String → List A → ℕ
  amount value k [] = 0
  amount value k (x ∷ xs) =
      let rest = amount value k xs in if str_eq (name x) k then value x + rest else rest

  no_amount : (value : A → ℕ) (k : String) (xs : List A) → times k xs ≡ 0 → amount value k xs ≡ 0
  unfolding amount count_if
  no_amount value k [] h = refl
  no_amount value k (x ∷ xs) h = ground (arith, h, no_amount value k xs)

  module _ (fresh : A) (change : A → A) (at : String) (named : name fresh ≡ at)
      (kept : (x : A) → name (change x) ≡ name x) where
    pub times-other :
        (k : String) (xs : List A)
        → str_eq at k ≡ false
        → times k (upsert name fresh change at xs) ≡ times k xs
    unfolding upsert count_if
    times-other k [] h = ground (arith, h, named, kept fresh)
    times-other k (x ∷ xs) h = ground (arith, h, kept x, times-other k xs h, same_as (name x) at k)

    times-upsert :
        (k : String) (xs : List A) → times k xs ≤ 1 → times k (upsert name fresh change at xs) ≤ 1
    unfolding upsert count_if
    times-upsert k [] h = ground (arith, named, kept fresh)
    times-upsert k (x ∷ xs) h = ground (
      arith,
      h,
      kept x,
      times-upsert k xs,
      times-other k xs,
      same_as at k (name x),
      sym_eq (name x) at,
      sym_eq (name x) k,
    )

    pub upsert-OneEach : (xs : List A) → OneEach xs → OneEach (upsert name fresh change at xs)
    upsert-OneEach xs h k = times-upsert k xs (h k)

    module _ (value : A → ℕ) (n : ℕ) (zero_value : value fresh ≡ 0)
        (added : (x : A) → value (change x) ≡ add_64 (value x) n) where
      -- An entry that is changed has the sum, and every other one is as it was.
      pub amount-upsert :
          (k : String) (xs : List A)
          → times k xs ≤ 1
          → amount value k (upsert name fresh change at xs)
            ≡ (if str_eq at k then add_64 (amount value k xs) n else amount value k xs)
      unfolding upsert amount count_if
      amount-upsert k [] h = ground (arith, named, kept fresh, zero_value, added fresh)
      amount-upsert k (x ∷ xs) h = ground (
        arith,
        h,
        kept x,
        added x,
        no_amount value k xs,
        amount-upsert k xs,
        same_as (name x) at k,
        same_as at k (name x),
        sym_eq (name x) k,
        sym_eq (name x) at,
      )

  module _ (value : A → ℕ) (k : String) where
    amount-insert_by :
        (before : A → A → Bool) (x : A) (xs : List A)
        → amount value k (insert_by before x xs) ≡ amount value k (x ∷ xs)
    unfolding amount insert_by
    amount-insert_by before x [] = refl
    amount-insert_by before x (y ∷ xs) = ground (arith, amount-insert_by before x xs)

    pub amount-sort_by :
        (before : A → A → Bool) (xs : List A)
        → amount value k (sort_by before xs) ≡ amount value k xs
    unfolding amount sort_by
    amount-sort_by before [] = refl
    amount-sort_by before (x ∷ xs) =
        ground (arith, amount-insert_by before x (sort_by before xs), amount-sort_by before xs)

    -- Where each name stands once, a test of the value keeps the amount or takes it away.
    pub amount-filter :
        (p : ℕ → Bool) (xs : List A)
        → times k xs ≤ 1
        → p 0 ≡ false
        → amount value k (filter (λ x. p (value x)) xs)
          ≡ (if p (amount value k xs) then amount value k xs else 0)
    unfolding amount filter count_if
    amount-filter p [] h z = ground (arith, z)
    amount-filter p (x ∷ xs) h z =
        ground (arith, h, z, no_amount value k xs, amount-filter p xs, ap p)

  pub times-filter : (p : A → Bool) (k : String) (xs : List A) → times k (filter p xs) ≤ times k xs
  unfolding count_if filter
  times-filter p k [] = omega arith
  times-filter p k (x ∷ xs) = ground (arith, times-filter p k xs)

  pub sort_by-OneEach :
      (before : A → A → Bool) (xs : List A) → OneEach xs → OneEach (sort_by before xs)
  sort_by-OneEach before xs h k =
      let same = count_if-sort_by before (λ x. str_eq (name x) k) xs in omega (arith, same, h k)
