-- ===== src/Tests/Names.antt =====
-- The alias of a name with capitals, a space and a final dot.
use ai_self_service.Prelude.{ℕ, List, ◌≡◌, refl}
use ai_self_service.Alias.{codes, sanitise_alias}

abbrev ada_l : List ℕ
ada_l = codes "Ada L."

ada_l_alias : sanitise_alias ada_l ≡ codes "ada-l"
unfolding sanitise_alias
ada_l_alias = refl
