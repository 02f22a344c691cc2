-- ===== src/Session/Csrf.antt =====
-- internal/session/csrf.go: the signed double-submit cookie. `sign` is the HMAC under the server's secret,
-- and is a parameter; so is the answer of `http.CrossOriginProtection.Check`.
pub mod Signed
use ai_self_service.Prelude.{
  ℕ, String, Bool, true, false, Option, none, some, List, [], ◌∷◌, any, str_eq, if◌then◌else◌,
}

-- What `ParseForm` makes of the body: too much of it, or the value of the token's field.
pub data Body : Type 0 where
  too_big : Body
  field : String → Body

pub record Request : Type 0 where
  pub method : String
  pub cross_origin : Bool
  pub cookie : Option String
  pub header : String
  pub body : Body

abbrev pub safe_methods : List String
safe_methods = "GET" ∷ "HEAD" ∷ "OPTIONS" ∷ "TRACE" ∷ []

unfoldable pub is_safe : String → Bool
is_safe m = any (λ (s : String). str_eq m s) safe_methods

-- What a request gets: the next handler, or a status.
pub data Verdict : Type 0 where
  passed : Verdict
  blocked : ℕ → Verdict

unfoldable pub compare_token : (String → String) → String → String → Verdict
compare_token sign value presented = if str_eq presented (sign value) then passed else blocked 403

unfoldable pub check_body : (String → String) → String → Body → Verdict
unfolding compare_token
check_body sign value too_big = blocked 413
check_body sign value (field presented) = compare_token sign value presented

unfoldable pub check_cookie : (String → String) → Request → Option String → Verdict
unfolding compare_token check_body
check_cookie sign r none = blocked 403
check_cookie sign r (some value) =
    if str_eq value ""
    then blocked 403
    else if str_eq r.header ""
    then check_body sign value r.body
    else compare_token sign value r.header

-- `CSRF.Protect`
unfoldable pub protect : (String → String) → Request → Verdict
unfolding check_cookie is_safe
protect sign r =
    if is_safe r.method
    then passed
    else if r.cross_origin
    then blocked 403
    else check_cookie sign r r.cookie

-- A page's token, and the value of the cookie to set, if there is one to.
abbrev pub Page : Type 0
Page = String × Option String

unfoldable pub fresh_token : (String → String) → Option String → Page
fresh_token sign none = ("", none)
fresh_token sign (some value) = (sign value, some value)

-- `CSRF.Token`, with the random value, if the reading of one does not fail.
unfoldable pub token : (String → String) → Option String → Option String → Page
unfolding fresh_token
token sign random none = fresh_token sign random
token sign random (some value) =
    if str_eq value "" then fresh_token sign random else (sign value, none)

-- The cookie of the browser after the page's answer.
unfoldable pub cookie_after : Option String → Page → Option String
cookie_after before (t, none) = before
cookie_after before (t, some value) = some value
