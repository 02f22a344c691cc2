-- ===== src/Session/Csrf/Signed.antt =====
-- internal/session/csrf.go: which requests pass.
use ai_self_service.Prelude.{
  ℕ, String, Bool, true, false, Option, none, some, ◌≡◌, refl, sym, ap, ◌∙◌, arith, str_eq,
  str_eq_iff, str_eq_refl, if◌then◌else◌,
}
use ai_self_service.Session.Csrf.{
  Body, Request, Verdict, Page, too_big, field, passed, blocked, is_safe, compare_token, check_body,
  check_cookie, protect, fresh_token, token, cookie_after,
}

-- The token that a request presents: its header, or else the form's field.
unfoldable pub Presents : Request → String → Type 0
Presents r t = if str_eq r.header "" then r.body ≡ field t else r.header ≡ t

-- The request comes from the site itself, and presents the signature of its own cookie.
pub record IsSigned (sign : String → String) (r : Request) : Type 0 where
  pub value : String
  pub cookie : r.cookie ≡ some value
  pub filled : str_eq value "" ≡ false
  pub own : r.cross_origin ≡ false
  pub token : Presents r (sign value)

only_if : (b : Bool) (n : ℕ) → (if b then passed else blocked n) ≡ passed → b ≡ true
only_if true n e = refl
only_if false n e = cc

past :
    (b : Bool) (n : ℕ) (v : Verdict)
    → (if b then blocked n else v) ≡ passed
    → (b ≡ false) × (v ≡ passed)
past true n v e = cc
past false n v e = (refl, e)

unless : (b : Bool) (v : Verdict) → b ≡ false → (if b then passed else v) ≡ v
unless true v e = cc
unless false v e = refl

compare_lem :
    (sign : String → String) (value t : String)
    → compare_token sign value t ≡ passed
    → t ≡ sign value
unfolding compare_token
compare_lem sign value t e = (str_eq_iff t (sign value)).0 (only_if (str_eq t (sign value)) 403 e)

body_lem :
    (sign : String → String) (value : String) (b : Body)
    → check_body sign value b ≡ passed
    → b ≡ field (sign value)
unfolding check_body
body_lem sign value too_big e = cc
body_lem sign value (field t) e = ap field (compare_lem sign value t e)

presented_lem :
    (sign : String → String) (r : Request) (value : String)
    → (b : Bool)
    → (if b then check_body sign value r.body else compare_token sign value r.header) ≡ passed
    → if b then r.body ≡ field (sign value) else r.header ≡ sign value
presented_lem sign r value true e = body_lem sign value r.body e
presented_lem sign r value false e = compare_lem sign value r.header e

cookie_lem :
    (sign : String → String) (r : Request) (c : Option String)
    → r.cookie ≡ c
    → r.cross_origin ≡ false
    → check_cookie sign r c ≡ passed
    → IsSigned sign r
unfolding check_cookie Presents
cookie_lem sign r none h o e = cc
cookie_lem sign r (some value) h o e =
    let p = past (str_eq value "") 403 _ e in
    record {
      value = value;
      cookie = h;
      filled = p.0;
      own = o;
      token = presented_lem sign r value (str_eq r.header "") p.1;
    }

-- A request that may change something passes only if it comes from the site itself, and presents the
-- signature of the cookie that it carries, which is not empty.
pub protect-IsSigned :
    (sign : String → String) (r : Request)
    → is_safe r.method ≡ false
    → protect sign r ≡ passed
    → IsSigned sign r
unfolding protect
protect-IsSigned sign r unsafe e =
    let rest = if r.cross_origin then blocked 403 else check_cookie sign r r.cookie in
    let p =
      past r.cross_origin 403 (check_cookie sign r r.cookie)
        (sym (unless (is_safe r.method) rest unsafe) ∙ e) in
    cookie_lem sign r r.cookie refl p.0 p.1

matches_lem :
    (sign : String → String) (value : String) (r : Request)
    → str_eq value "" ≡ false
    → r.cross_origin ≡ false
    → r.header ≡ ""
    → r.body ≡ field (sign value)
    → r.cookie ≡ some value
    → protect sign r ≡ passed
unfolding protect check_cookie check_body compare_token
matches_lem sign value r filled own header body cookie =
    ground (arith, str_eq_refl (sign value), str_eq_refl "")

chosen :
    (sign : String → String) (fresh value : String)
    → str_eq fresh "" ≡ false
    → (b : Bool) → str_eq value "" ≡ b
    → let page : Page = if b then (sign fresh, some fresh) else (sign value, none) in
      (x : String) × (str_eq x "" ≡ false)
      × (page.0 ≡ sign x)
      × (cookie_after (some value) page ≡ some x)
unfolding cookie_after
chosen sign fresh value filled true h = (fresh, filled, refl, refl)
chosen sign fresh value filled false h = (value, h, refl, refl)

page_lem :
    (sign : String → String) (fresh : String) (before : Option String)
    → str_eq fresh "" ≡ false
    → (value : String) × (str_eq value "" ≡ false)
      × ((token sign (some fresh) before).0 ≡ sign value)
      × (cookie_after before (token sign (some fresh) before) ≡ some value)
unfolding token fresh_token cookie_after
page_lem sign fresh none filled = (fresh, filled, refl, refl)
page_lem sign fresh (some value) filled = chosen sign fresh value filled (str_eq value "") refl

-- A form that is posted from a page passes, with the cookie that the browser has after the page: whether
-- the page set the cookie or found one.
pub token-protect :
    (sign : String → String) (fresh : String) (before : Option String) (r : Request)
    → str_eq fresh "" ≡ false
    → r.cross_origin ≡ false
    → r.header ≡ ""
    → r.body ≡ field (token sign (some fresh) before).0
    → r.cookie ≡ cookie_after before (token sign (some fresh) before)
    → protect sign r ≡ passed
token-protect sign fresh before r filled own header body cookie =
    let p = page_lem sign fresh before filled in
    matches_lem sign p.0 r p.1 own header (body ∙ ap field p.2) (cookie ∙ p.3)
