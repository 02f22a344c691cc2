-- ===== src/Prelude/Alls.antt =====
-- A property of every row, across the operations on lists.
use Prim.Native.Nat.{ℕ, ◌≤◌, zero, suc}
use mathlib.Core.Path.{◌≡◌, refl}
use mathlib.Core.Bool.{Bool, true, false}
use mathlib.Core.List.{List, [], ◌∷◌, ◌++◌, map}
use native.Mathlib.Omega.{arith}
use ai_self_service.Prelude.Tests.{if◌then◌else◌}
use ai_self_service.Prelude.Lists.{take, filter, count_if, All, flat_map}
use ai_self_service.Prelude.Sort.{insert_by, sort_by}

pub All_map :
    {A : Type 0} (P Q : A → Type 0) (xs : List A) → ((a : A) → P a → Q a) → All P xs → All Q xs
All_map P Q [] h k = tt
All_map P Q (x ∷ xs) h (p, k) = (h x p, All_map P Q xs h k)

pub All_both :
    {A : Type 0} (P Q : A → Type 0) (xs : List A) → All P xs → All Q xs → All (λ a. P a × Q a) xs
All_both P Q [] h k = tt
All_both P Q (x ∷ xs) (p, h) (q, k) = ((p, q), All_both P Q xs h k)

module _ {A : Type 0} (P : A → Type 0) where
  keep_lem : (b : Bool) (x : A) (xs : List A) → P x → All P xs → All P (if b then x ∷ xs else xs)
  keep_lem true x xs p h = (p, h)
  keep_lem false x xs p h = h

  pub All-filter : (p : A → Bool) (xs : List A) → All P xs → All P (filter p xs)
  unfolding filter
  All-filter p [] h = tt
  All-filter p (x ∷ xs) (q, h) = keep_lem (p x) x (filter p xs) q (All-filter p xs h)

  pub All-take : (n : ℕ) (xs : List A) → All P xs → All P (take n xs)
  All-take zero xs h = tt
  All-take (suc n) [] h = tt
  All-take (suc n) (x ∷ xs) (q, h) = (q, All-take n xs h)

  pub All-append : (xs ys : List A) → All P xs → All P ys → All P (xs ++ ys)
  All-append [] ys h k = k
  All-append (x ∷ xs) ys (q, h) k = (q, All-append xs ys h k)

  if_lem : (b : Bool) (xs ys : List A) → All P xs → All P ys → All P (if b then xs else ys)
  if_lem true xs ys h k = h
  if_lem false xs ys h k = k

  pub All-insert_by :
      (before : A → A → Bool) (x : A) (xs : List A) → P x → All P xs → All P (insert_by before x xs)
  unfolding insert_by
  All-insert_by before x [] p h = (p, tt)
  All-insert_by before x (y ∷ ys) p (q, h) =
      if_lem (before x y) (x ∷ y ∷ ys) (y ∷ insert_by before x ys) (p, (q, h))
        (q, All-insert_by before x ys p h)

  pub All-sort_by : (before : A → A → Bool) (xs : List A) → All P xs → All P (sort_by before xs)
  unfolding sort_by
  All-sort_by before [] h = tt
  All-sort_by before (x ∷ xs) (q, h) = All-insert_by before x _ q (All-sort_by before xs h)

passes_lem :
    {A : Type 0} (p : A → Bool) (x : A) (xs : List A) (b : Bool)
    → p x ≡ b
    → All (λ y. p y ≡ true) xs
    → All (λ y. p y ≡ true) (if b then x ∷ xs else xs)
passes_lem p x xs true h k = (h, k)
passes_lem p x xs false h k = k

-- What a test lets through passes it.
pub All-passes : {A : Type 0} (p : A → Bool) (xs : List A) → All (λ x. p x ≡ true) (filter p xs)
unfolding filter
All-passes p [] = tt
All-passes p (x ∷ xs) = passes_lem p x (filter p xs) (p x) refl (All-passes p xs)

module _ {A B : Type 0} (P : B → Type 0) where
  pub All-flat_map :
      (f : A → List B) (xs : List A) → All (λ a. All P (f a)) xs → All P (flat_map f xs)
  unfolding flat_map
  All-flat_map f [] h = tt
  All-flat_map f (x ∷ xs) (q, h) = All-append P (f x) (flat_map f xs) q (All-flat_map f xs h)

  pub All-map : (f : A → B) (xs : List A) → All (λ a. P (f a)) xs → All P (map f xs)
  All-map f [] h = tt
  All-map f (x ∷ xs) (q, h) = (q, All-map f xs h)

  pub All_unmap : (f : A → B) (xs : List A) → All P (map f xs) → All (λ a. P (f a)) xs
  All_unmap f [] h = tt
  All_unmap f (x ∷ xs) (q, h) = (q, All_unmap f xs h)

-- A row that passes a test of its own is counted by that test.
pub All-counted :
    {A : Type 0} (r : A → A → Bool) (xs : List A)
    → All (λ x. r x x ≡ true → 1 ≤ count_if (r x) xs) xs
unfolding count_if
All-counted r [] = tt
All-counted r (x ∷ xs) =
    (λ h. ground (arith, h), All_map _ _ xs (λ y h p. ground (arith, h p)) (All-counted r xs))
