-- ===== src/Prelude/Counts.antt =====
-- Counting the rows that pass a test, across the changes of a table.
use Prim.Native.Nat.{◌+◌, ◌≤◌}
use mathlib.Core.Path.{ap, ◌≡◌, refl}
use mathlib.Core.Bool.{◌||◌, Bool, true, false, not, ◌&&◌}
use mathlib.Core.List.{List, [], ◌∷◌, ◌++◌}
use mathlib.Core.Option.{some}
use native.Mathlib.Omega.{arith}
use ai_self_service.Prelude.Tests.{if◌then◌else◌}
use ai_self_service.Prelude.Lists.{length, filter, find?, any, count_if, update_if, delete_if}

module _ {ℓ} {A : Type ℓ} where
  pub count_if-append :
      (p : A → Bool) (xs ys : List A) → count_if p (xs ++ ys) ≡ count_if p xs + count_if p ys
  unfolding count_if
  count_if-append p [] ys = omega arith
  count_if-append p (x ∷ xs) ys = ground (arith, count_if-append p xs ys)

  -- After an UPDATE a test counts what it would count of each changed row.
  pub count_if-update_if :
      (q p r : A → Bool) (f : A → A) (xs : List A)
      → ((x : A) → q (if p x then f x else x) ≡ r x)
      → count_if q (update_if p f xs) ≡ count_if r xs
  unfolding count_if update_if
  count_if-update_if q p r f [] h = refl
  count_if-update_if q p r f (x ∷ xs) h = ground (arith, h x, count_if-update_if q p r f xs h)

  pub count_if-delete_if :
      (q p : A → Bool) (xs : List A)
      → count_if q (delete_if p xs) ≡ count_if (λ x. q x && not (p x)) xs
  unfolding count_if delete_if filter
  count_if-delete_if q p [] = refl
  count_if-delete_if q p (x ∷ xs) = ground (arith, count_if-delete_if q p xs)

  pub count_if_mono :
      (q r : A → Bool) (xs : List A)
      → ((x : A) → q x ≡ true → r x ≡ true)
      → count_if q xs ≤ count_if r xs
  unfolding count_if
  count_if_mono q r [] h = omega arith
  count_if_mono q r (x ∷ xs) h = ground (arith, h x, count_if_mono q r xs h)

  pub count_if_split :
      (q r : A → Bool) (xs : List A)
      → count_if q xs ≡ count_if (λ x. q x && r x) xs + count_if (λ x. q x && not (r x)) xs
  unfolding count_if
  count_if_split q r [] = omega arith
  count_if_split q r (x ∷ xs) = ground (arith, count_if_split q r xs)

  pub count_if_none : (p : A → Bool) (xs : List A) → any p xs ≡ false → count_if p xs ≡ 0
  unfolding count_if any
  count_if_none p [] h = refl
  count_if_none p (x ∷ xs) h = ground (arith, count_if_none p xs)

  pub any_none : (p : A → Bool) (xs : List A) → count_if p xs ≡ 0 → any p xs ≡ false
  unfolding count_if any
  any_none p [] h = refl
  any_none p (x ∷ xs) h = ground (arith, any_none p xs)

  pub count_if_found :
      (p : A → Bool) (xs : List A) (a : A) → find? p xs ≡ some a → 1 ≤ count_if p xs
  unfolding count_if find?
  count_if_found p [] a h = cc
  count_if_found p (x ∷ xs) a h = ground (arith, count_if_found p xs a)

  pub find?_passes : (p : A → Bool) (xs : List A) (a : A) → find? p xs ≡ some a → p a ≡ true
  unfolding find?
  find?_passes p [] a h = cc
  find?_passes p (x ∷ xs) a h = ground (arith, find?_passes p xs a)

  -- Where one row at most passes `q`, what the first such row fails none passes.
  pub count_if_unique :
      (q r : A → Bool) (xs : List A) (a : A)
      → find? q xs ≡ some a
      → count_if q xs ≤ 1
      → r a ≡ false
      → count_if (λ x. r x && q x) xs ≡ 0
  unfolding count_if find?
  count_if_unique q r [] a h u n = refl
  count_if_unique q r (x ∷ xs) a h u n =
      ground
        (arith, count_if_unique q r xs a, count_if_mono (λ x. r x && q x) q xs (λ x. ground arith))

  pub count_if_ext :
      (q r : A → Bool) (xs : List A) → ((x : A) → q x ≡ r x) → count_if q xs ≡ count_if r xs
  unfolding count_if
  count_if_ext q r [] h = refl
  count_if_ext q r (x ∷ xs) h = ground (arith, h x, count_if_ext q r xs h)

  pub count_if-false : (xs : List A) → count_if (λ x. false) xs ≡ 0
  unfolding count_if
  count_if-false [] = refl
  count_if-false (x ∷ xs) = count_if-false xs

  pub count_if-any : (p : A → Bool) (xs : List A) → any p xs ≡ true → 1 ≤ count_if p xs
  unfolding count_if any
  count_if-any p [] h = cc
  count_if-any p (x ∷ xs) h = ground (arith, count_if-any p xs)

  -- The first row that passes a test which an UPDATE leaves as it was.
  pub find?-update_if :
      (q p : A → Bool) (f : A → A) (xs : List A) (a : A)
      → ((x : A) → q (if p x then f x else x) ≡ q x)
      → find? q xs ≡ some a
      → find? q (update_if p f xs) ≡ some (if p a then f a else a)
  unfolding find? update_if
  find?-update_if q p f [] a h e = cc
  find?-update_if q p f (x ∷ xs) a h e = ground (arith, h x, find?-update_if q p f xs a h)

module _ {A : Type 0} where
  pub append_nil : (xs : List A) → xs ++ [] ≡ xs
  append_nil [] = refl
  append_nil (x ∷ xs) = ap (λ l. x ∷ l) (append_nil xs)

  pub append_assoc : (xs ys zs : List A) → (xs ++ ys) ++ zs ≡ xs ++ (ys ++ zs)
  append_assoc [] ys zs = refl
  append_assoc (x ∷ xs) ys zs = ap (λ l. x ∷ l) (append_assoc xs ys zs)

  pub length-append : (xs ys : List A) → length (xs ++ ys) ≡ length xs + length ys
  length-append [] ys = omega arith
  length-append (x ∷ xs) ys = ground (arith, length-append xs ys)

  pub any-append : (p : A → Bool) (xs ys : List A) → any p (xs ++ ys) ≡ any p xs || any p ys
  unfolding any
  any-append p [] ys = refl
  any-append p (x ∷ xs) ys = ground (arith, any-append p xs ys)

  pub find?-append_none :
      (p : A → Bool) (xs : List A) (x : A)
      → any p xs ≡ false
      → p x ≡ true
      → find? p (xs ++ x ∷ []) ≡ some x
  unfolding find? any
  find?-append_none p [] x n h = ground arith
  find?-append_none p (y ∷ xs) x n h = ground (arith, find?-append_none p xs x)

  head_or :
      (p : A → Bool) (x : A) (xs : List A) (b : Bool)
      → p x ≡ b
      → (b || any p xs) ≡ true
      → ((any p xs ≡ true) → (y : A) × (find? p xs ≡ some y) × (p y ≡ true))
      → (y : A) × ((if b then some x else find? p xs) ≡ some y) × (p y ≡ true)
  head_or p x xs true q h rest = (x, refl, q)
  head_or p x xs false q h rest = rest h

  pub any-find? :
      (p : A → Bool) (xs : List A)
      → any p xs ≡ true
      → (x : A) × (find? p xs ≡ some x) × (p x ≡ true)
  unfolding find? any
  any-find? p [] h = cc
  any-find? p (x ∷ xs) h = head_or p x xs (p x) refl h (any-find? p xs)
