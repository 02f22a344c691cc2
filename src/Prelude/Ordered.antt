-- ===== src/Prelude/Ordered.antt =====
-- What sorting does: the rows are in order, and are those that were given.
use mathlib.Core.Path.{◌≡◌, refl}
use mathlib.Core.Bool.{Bool, true, false}
use mathlib.Core.List.{List, [], ◌∷◌}
use native.Mathlib.Omega.{arith}
use ai_self_service.Prelude.Tests.{if◌then◌else◌}
use ai_self_service.Prelude.Lists.{count_if, All}
use ai_self_service.Prelude.Alls.{All_map, All-insert_by}
use ai_self_service.Prelude.Sort.{insert_by, sort_by}

-- An order that compares any two rows.
pub record IsOrder {A : Type 0} (before : A → A → Bool) : Type 0 where
  pub total : (a b : A) → before a b ≡ false → before b a ≡ true
  pub trans : (a b c : A) → before a b ≡ true → before b c ≡ true → before a c ≡ true

-- Each row is before every later one.
unfoldable pub IsOrdered : {A : Type 0} → (A → A → Bool) → List A → Type 0
IsOrdered before [] = Unit
IsOrdered before (x ∷ xs) = All (λ y. before x y ≡ true) xs × IsOrdered before xs

module _ {A : Type 0} (before : A → A → Bool) (h : IsOrder before) where
  insert_lem :
      (b : Bool) (x y : A) (ys : List A)
      → before x y ≡ b
      → IsOrdered before (y ∷ ys)
      → IsOrdered before (insert_by before x ys)
      → IsOrdered before (if b then x ∷ y ∷ ys else y ∷ insert_by before x ys)
  unfolding IsOrdered
  insert_lem true x y ys e (first, rest) k =
      ((e, All_map _ _ ys (λ z q. h.trans x y z e q) first), (first, rest))
  insert_lem false x y ys e (first, rest) k =
      (All-insert_by (λ z. before y z ≡ true) before x ys (h.total x y e) first, k)

  insert_by-IsOrdered :
      (x : A) (ys : List A) → IsOrdered before ys → IsOrdered before (insert_by before x ys)
  unfolding insert_by IsOrdered
  insert_by-IsOrdered x [] k = (tt, tt)
  insert_by-IsOrdered x (y ∷ ys) (first, rest) =
      insert_lem (before x y) x y ys refl (first, rest) (insert_by-IsOrdered x ys rest)

  pub sort_by-IsOrdered : (xs : List A) → IsOrdered before (sort_by before xs)
  unfolding sort_by IsOrdered
  sort_by-IsOrdered [] = tt
  sort_by-IsOrdered (x ∷ xs) = insert_by-IsOrdered x (sort_by before xs) (sort_by-IsOrdered xs)

module _ {A : Type 0} (before : A → A → Bool) (p : A → Bool) where
  count_if-insert_by :
      (x : A) (ys : List A) → count_if p (insert_by before x ys) ≡ count_if p (x ∷ ys)
  unfolding count_if insert_by
  count_if-insert_by x [] = refl
  count_if-insert_by x (y ∷ ys) = ground (arith, count_if-insert_by x ys)

  -- Sorting keeps how many rows pass any test.
  pub count_if-sort_by : (xs : List A) → count_if p (sort_by before xs) ≡ count_if p xs
  unfolding count_if sort_by
  count_if-sort_by [] = refl
  count_if-sort_by (x ∷ xs) =
      ground (arith, count_if-insert_by x (sort_by before xs), count_if-sort_by xs)
