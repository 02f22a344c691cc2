-- ===== src/Handlers/Flash.antt =====
-- internal/handlers/flash.go: a new key between the request that makes it and the page that shows it
-- once. The map is a list of tokens with their entries; each reading of the clock is an argument.
pub mod Once
use ai_self_service.Prelude.{
  ℕ, ◌+◌, String, Bool, true, false, not, ◌&&◌, ◌||◌, Option, none, some, List, [], ◌∷◌, ◌==◌, ltb,
  str_eq, if◌then◌else◌, filter, find?,
}
use ai_self_service.Database.Models.{Time}

-- two minutes
abbrev pub flash_ttl : Time
flash_ttl = 120_000_000_000

pub record FlashEntry : Type 0 where
  pub token : String
  pub user_id : ℕ
  pub key : String
  pub expires_at : Time

abbrev pub KeyFlash : Type 0
KeyFlash = List FlashEntry

abbrev pub is_current : Time → FlashEntry → Bool
is_current at e = not (ltb e.expires_at at)

-- `gcLocked`
unfoldable pub gc : Time → KeyFlash → KeyFlash
gc at f = filter (is_current at) f

abbrev pub has_token : String → FlashEntry → Bool
has_token t e = str_eq e.token t

-- `delete(f.entries, token)`
unfoldable pub without : String → KeyFlash → KeyFlash
without t f = filter (λ e. not (has_token t e)) f

-- `Put`, with the token that the random bytes make, if they could be read.
unfoldable pub put : ℕ → String → Option String → Time → Time → KeyFlash → Option String × KeyFlash
unfolding gc without
put user key none at_gc at f = (none, f)
put user key (some t) at_gc at f = (
  some t,
  record { token = t; user_id = user; key = key; expires_at = at + flash_ttl }
      ∷ without t (gc at_gc f),
)

unfoldable pub redeem : ℕ → String → Time → KeyFlash → Option FlashEntry → String × KeyFlash
unfolding without
redeem user t at f none = ("", f)
redeem user t at f (some e) =
    if not (e.user_id == user) || ltb e.expires_at at then ("", f) else (e.key, without t f)

-- `Take`
unfoldable pub take : ℕ → String → Time → Time → KeyFlash → String × KeyFlash
unfolding gc redeem
take user t at_gc at f =
    if str_eq t ""
    then ("", f)
    else redeem user t at (gc at_gc f) (find? (has_token t) (gc at_gc f))
