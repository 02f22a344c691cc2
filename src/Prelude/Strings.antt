-- ===== src/Prelude/Strings.antt =====
-- Comparison of texts, and SQL's null-safe comparison of optional columns.
use Prim.Native.Nat.{ℕ, Ordering}
use Prim.Native.String.{String, ◌++◌, compare}
use mathlib.Core.Path.{◌≡◌, refl}
use mathlib.Core.Logic.{◌↔◌}
use mathlib.Core.Bool.{Bool, true, false, ◌&&◌}
use mathlib.Core.Option.{Option, none, some}
use mathlib.Core.List.{List, [], ◌∷◌}
use native.Mathlib.Omega.{arith}
use text.Mathlib.Text.{◌==◌ as text_eq}
use text.Mathlib.TextEquality.{eq_iff}
use ai_self_service.Prelude.Tests.{◌==◌}

unfoldable pub str_eq : String → String → Bool
str_eq a b = text_eq a b

pub str_eq_iff : (a b : String) → (str_eq a b ≡ true) ↔ (a ≡ b)
unfolding str_eq
str_eq_iff a b = eq_iff a b

pub str_eq_refl : (a : String) → str_eq a a ≡ true
str_eq_refl a = (str_eq_iff a a).1 refl

-- `IS`, the comparison under which NULL equals NULL; `sameLimit` in Go.
unfoldable pub same_nat : Option ℕ → Option ℕ → Bool
same_nat none none = true
same_nat none (some b) = false
same_nat (some a) none = false
same_nat (some a) (some b) = a == b

unfoldable pub same_text : Option String → Option String → Bool
same_text none none = true
same_text none (some b) = false
same_text (some a) none = false
same_text (some a) (some b) = str_eq a b

-- `slices.Equal` on texts.
unfoldable pub same_texts : List String → List String → Bool
same_texts [] [] = true
same_texts [] (b ∷ bs) = false
same_texts (a ∷ as') [] = false
same_texts (a ∷ as') (b ∷ bs) = str_eq a b && same_texts as' bs

pub same_nat_iff : (a b : Option ℕ) → (same_nat a b ≡ true) ↔ (a ≡ b)
unfolding same_nat
same_nat_iff none none = ground arith
same_nat_iff none (some b) = ground arith
same_nat_iff (some a) none = ground arith
same_nat_iff (some a) (some b) = ground arith

pub same_text_iff : (a b : Option String) → (same_text a b ≡ true) ↔ (a ≡ b)
unfolding same_text
same_text_iff none none = ground arith
same_text_iff none (some b) = ground arith
same_text_iff (some a) none = ground arith
same_text_iff (some a) (some b) = ground (arith, str_eq_iff a b)

pub same_texts_iff : (xs ys : List String) → (same_texts xs ys ≡ true) ↔ (xs ≡ ys)
unfolding same_texts
same_texts_iff [] [] = ground arith
same_texts_iff [] (y ∷ ys) = ground arith
same_texts_iff (x ∷ xs) [] = ground arith
same_texts_iff (x ∷ xs) (y ∷ ys) = ground (arith, str_eq_iff x y, same_texts_iff xs ys)

-- Texts joined, as by a chain of `+`.
unfoldable pub concat : List String → String
concat [] = ""
concat (s ∷ ss) = s ++ concat ss

-- The order of the bytes, which is SQLite's BINARY collation.
unfoldable pub text_before : String → String → Bool
text_before a b = elim (compare a b) [ Ordering.gt ↦ false | _ ↦ true ]
