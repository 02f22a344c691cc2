-- ===== src/Alias.antt =====
-- internal/keyprovider/alias.go: the label that a key carries in the gateway's UI. A text that the
-- code walks is the list of its code points.
pub mod Plain
use Prim.Native.Char.{code}
use ai_self_service.Prelude.{
  ℕ, ◌+◌, String, Bool, ◌&&◌, ◌||◌, Option, none, some, List, [], ◌∷◌, ◌++◌, ◌==◌, leb,
  if◌then◌else◌, reverse,
}
use ai_self_service.Exec.{Exec, pure, random, ◌>>=◌}

abbrev pub codes : String → List ℕ
codes String.[] = []
codes (String.◌∷◌ c s) = code c ∷ codes s

abbrev pub dash : ℕ
dash = b'-'

unfoldable pub is_plain : ℕ → Bool
is_plain r = leb b'a' r && leb r b'z' || leb b'0' r && leb r b'9' || r == b'-' || r == b'_'

unfoldable pub is_upper : ℕ → Bool
is_upper r = leb b'A' r && leb r b'Z'

unfoldable pub is_separator : ℕ → Bool
is_separator r = r == b' ' || r == b'.' || r == b'@'

-- What one character adds to the alias.
unfoldable pub kept : ℕ → List ℕ
unfolding is_plain is_upper is_separator
kept r =
    if is_plain r
    then r ∷ []
    else if is_upper r
    then (r + 32) ∷ []
    else if is_separator r
    then dash ∷ []
    else []

unfoldable pub keep_all : List ℕ → List ℕ
unfolding kept
keep_all [] = []
keep_all (r ∷ rs) = kept r ++ keep_all rs

unfoldable pub trim_left : List ℕ → List ℕ
trim_left [] = []
trim_left (r ∷ rs) = let rest = trim_left rs in if r == dash then rest else r ∷ rs

-- `strings.Trim(s, "-")`
unfoldable pub trim : List ℕ → List ℕ
unfolding trim_left
trim s = reverse (trim_left (reverse (trim_left s)))

-- `sanitiseAlias`
unfoldable pub sanitise_alias : List ℕ → List ℕ
unfolding keep_all trim
sanitise_alias name = trim (keep_all name)

unfoldable pub label : List ℕ → List ℕ → List ℕ
label sub [] = sub
label sub (r ∷ rs) = sub ++ dash ∷ r ∷ rs

unfoldable pub finish_alias : List ℕ → List ℕ → Option (List ℕ) → Option (List ℕ)
unfolding sanitise_alias label
finish_alias sub username none = none
finish_alias sub username (some hex) = some (label sub (sanitise_alias username) ++ dash ∷ hex)

-- `NewAlias`; `none` where the random bytes could not be read.
unfoldable pub new_alias : String → String → Exec (Option (List ℕ))
unfolding finish_alias
new_alias sub username = do hex ← random; pure (finish_alias (codes sub) (codes username) hex)
