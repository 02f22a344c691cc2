-- ===== src/Prelude/Members.antt =====
-- Which rows a list holds, and what the Boolean tests say of them.
use Prim.Native.Nat.{◌≤◌}
use mathlib.Core.Path.{◌≡◌, refl, sym, ap, ◌∙◌, subst}
use mathlib.Core.Logic.{◌↔◌, ◌⊎◌, inl, inr}
use mathlib.Core.Bool.{Bool, true, false, not}
use mathlib.Core.List.{List, [], ◌∷◌}
use native.Mathlib.Omega.{arith}
use ai_self_service.Prelude.Tests.{if◌then◌else◌, Bool-cases}
use ai_self_service.Prelude.Lists.{filter, any, count_if, delete_if}

-- A place of a row in a list.
pub data Member {A : Type 0} (a : A) : List A → Type 0 where
  head : {x : A} {xs : List A} → a ≡ x → Member a (x ∷ xs)
  tail : {x : A} {xs : List A} → Member a xs → Member a (x ∷ xs)

not_nil : {A : Type 0} {a : A} → Member a [] → ⊥
not_nil m = elim m [ ]

cases_cons : {A : Type 0} {a b : A} {l : List A} → Member a (b ∷ l) → (a ≡ b) ⊎ Member a l
cases_cons (head e) = inl e
cases_cons (tail m) = inr m

-- A row that passes a test.
abbrev pub Some : {A : Type 0} → (A → Type 0) → List A → Type 0
Some {A} P xs = (x : A) × Member x xs × P x

module _ {A : Type 0} (p : A → Bool) where
  pub any-Some : (xs : List A) → any p xs ≡ true → Some (λ x. p x ≡ true) xs
  unfolding any
  any-Some [] h = let k : false ≡ true = h in absurd (ground arith)
  any-Some (x ∷ xs) h = elim (Bool-cases (p x)) [
    | inl t ↦ (x, head refl, t)
    | inr n ↦ let (y, m, q) = any-Some xs (ground (arith, h, n)) in (y, tail m, q)
  ]

  pub Some-any : (xs : List A) (x : A) → Member x xs → p x ≡ true → any p xs ≡ true
  unfolding any
  Some-any [] x m h = absurd (not_nil m)
  Some-any (y ∷ ys) x m h = elim (cases_cons m) [
    | inl e ↦ let k : p y ≡ true = subst (λ z. p z ≡ true) e h in ground (arith, k)
    | inr r ↦ ground (arith, Some-any ys x r h)
  ]

  pub count_if-Some : (xs : List A) → 1 ≤ count_if p xs → Some (λ x. p x ≡ true) xs
  unfolding count_if
  count_if-Some [] h = absurd (omega (arith, h))
  count_if-Some (x ∷ xs) h = elim (Bool-cases (p x)) [
    | inl t ↦ (x, head refl, t)
    | inr n ↦ let (y, m, q) = count_if-Some xs (ground (arith, h, n)) in (y, tail m, q)
  ]

  pub Some-count_if : (xs : List A) (x : A) → Member x xs → p x ≡ true → 1 ≤ count_if p xs
  unfolding count_if
  Some-count_if [] x m h = absurd (not_nil m)
  Some-count_if (y ∷ ys) x m h = elim (cases_cons m) [
    | inl e ↦ let k : p y ≡ true = subst (λ z. p z ≡ true) e h in ground (arith, k)
    | inr r ↦ ground (arith, Some-count_if ys x r h)
  ]

  kept_lem :
      (b : Bool) (x y : A) (ys rest : List A)
      → p y ≡ b
      → (Member x rest → Member x ys × (p x ≡ false))
      → Member x (if not b then y ∷ rest else rest)
      → Member x (y ∷ ys) × (p x ≡ false)
  kept_lem true x y ys rest e h m = let (r, q) = h m in (tail r, q)
  kept_lem false x y ys rest e h m = elim (cases_cons m) [
    | inl same ↦ (head same, subst (λ z. p z ≡ false) (sym same) e)
    | inr r ↦ let (s, q) = h r in (tail s, q)
  ]

  pub left_by-delete_if :
      (xs : List A) (x : A) → Member x (delete_if p xs) → Member x xs × (p x ≡ false)
  unfolding delete_if filter
  left_by-delete_if [] x m = absurd (not_nil m)
  left_by-delete_if (y ∷ ys) x m =
      kept_lem (p y) x y ys (delete_if p ys) refl (left_by-delete_if ys x) m

  stays_lem :
      (b : Bool) (x y : A) (rest : List A)
      → p y ≡ b
      → p x ≡ false
      → ((x ≡ y) ⊎ Member x rest)
      → Member x (if not b then y ∷ rest else rest)
  stays_lem true x y rest e h (inl same) =
      let k : true ≡ false = sym e ∙ ap p (sym same) ∙ h in absurd (ground arith)
  stays_lem true x y rest e h (inr r) = r
  stays_lem false x y rest e h (inl same) = head same
  stays_lem false x y rest e h (inr r) = tail r

  stays_in-delete_if : (xs : List A) (x : A) → Member x xs → p x ≡ false → Member x (delete_if p xs)
  unfolding delete_if filter
  stays_in-delete_if [] x m h = absurd (not_nil m)
  stays_in-delete_if (y ∷ ys) x m h =
      stays_lem (p y) x y (delete_if p ys) refl h
        (elim (cases_cons m) [ inl e ↦ inl e | inr r ↦ inr (stays_in-delete_if ys x r h) ])

  -- DELETE … WHERE leaves the rows that do not meet a condition which the test decides.
  pub Left :
      (P : A → Type 0) (xs : List A)
      → ((x : A) → (p x ≡ true) ↔ P x)
      → (x : A) → Member x (delete_if p xs) ↔ (Member x xs × (P x → ⊥))
  Left P xs h x = (
    λ m.
        let (r, q) = left_by-delete_if xs x m in
        (r, λ k. let e : true ≡ false = sym ((h x).1 k) ∙ q in absurd (ground arith)),
    λ (m, n). elim (Bool-cases (p x)) [
      | inl t ↦ absurd (n ((h x).0 t))
      | inr f ↦ stays_in-delete_if xs x m f
    ],
  )
