-- ===== src/Alias/Plain.antt =====
-- internal/keyprovider/alias.go: what `sanitiseAlias` leaves of a name.
use ai_self_service.Prelude.{ℕ, Bool, true, false, List, [], ◌∷◌, ◌≡◌, ◌==◌}
use ai_self_service.Alias.{dash, is_plain}

abbrev IsPlain : ℕ → Type 0
IsPlain r = is_plain r ≡ true

abbrev pub starts_with_dash : List ℕ → Bool
starts_with_dash [] = false
starts_with_dash (r ∷ rs) = r == dash
