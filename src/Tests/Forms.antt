-- ===== src/Tests/Forms.antt =====
-- The theorems about what a browser sends: the profile form, the CSRF token and the page of a new key.
use ai_self_service.Prelude.{
  All, ℕ, pos, ◌+◌, ◌≤◌, String, Bool, false, true, Option, none, some, List, [], ◌∷◌, ◌≡◌, ◌≢◌,
  refl, sym, ap, ◌∙◌, arith, ◌==◌, ◌↔◌, str_eq, if◌then◌else◌, length, map, find?,
}
use ai_self_service.Database.Models.{ProfileQuota, to_window, limits}
use ai_self_service.Litellm.{effective_windows}
use ai_self_service.Handlers.Admin.Form.{GoText, accepted, parse_quota_windows}
use ai_self_service.Handlers.Admin.Form.Windows.{IsAccepted}
use ai_self_service.Handlers.Admin.Form.Enforced.{parse-IsEnforced}
use ai_self_service.Handlers.Admin.ProfileText.{Printer, profile_changes}
use ai_self_service.Handlers.Admin.ProfileText.Silent.{IsSilent, profile_changes-IsSilent_iff}
use ai_self_service.Handlers.Flash.{FlashEntry, KeyFlash, has_token, gc, put, take}
use ai_self_service.Handlers.Flash.Once.{take-Once, take-put}
use ai_self_service.Handlers.Quotas.{UsageWindow, QuotaView, Ratio, quota_windows, binding_window}
use ai_self_service.Handlers.Quotas.Largest.{
  IsBar, IsFullest, quota_windows-Bounded, binding_window-IsFullest,
}
use ai_self_service.Session.Csrf.{Request, field, passed, is_safe, protect, token, cookie_after}
use ai_self_service.Session.Csrf.Signed.{IsSigned, protect-IsSigned, token-protect}
use ai_self_service.Tests.Worlds.{ten, two_and_a_half, standard}

-- Text without spaces, of two numbers.
abbrev plain_text : GoText
plain_text = record {
  trim_space = λ s. s;
  commas_to_dots = λ s. if str_eq s "2,5" then "2.5" else s;
  parse_float =
      λ s. if str_eq s "2.5" then some two_and_a_half else if str_eq s "10" then some ten else none;
}

abbrev posted : List ProfileQuota
posted =
    record { id = 0; profile_id = 0; budget = two_and_a_half; period = "1h" }
    ∷ record { id = 0; profile_id = 0; budget = ten; period = "30d" }
    ∷ []

posted-accepted :
    parse_quota_windows plain_text ("2,5" ∷ "" ∷ "10" ∷ []) ("1h" ∷ "7d" ∷ "30d" ∷ [])
    ≡ accepted posted
unfolding parse_quota_windows str_eq ai_self_service.Keyprovider.is_nan
    ai_self_service.Keyprovider.le_zero ai_self_service.Litellm.is_valid_quota_period
    ai_self_service.Prelude.any
posted-accepted = refl

parse-IsEnforced_example :
    IsAccepted posted
    × (length posted ≤ 4)
    × (effective_windows (limits (some (record standard { quotas = posted })))
        ≡ map to_window posted)
parse-IsEnforced_example =
    parse-IsEnforced plain_text ("2,5" ∷ "" ∷ "10" ∷ []) ("1h" ∷ "7d" ∷ "30d" ∷ []) posted
      (record standard { quotas = posted }) posted-accepted refl

-- What is printed of the numbers and budgets below.
abbrev digits : Printer
digits = record {
  number = λ n. if n == 0 then "0" else "1";
  budget = λ b. if b == ten then "10" else "2.5";
}

abbrev reordered : List ProfileQuota
reordered =
    record { id = 0; profile_id = 0; budget = ten; period = "30d" }
    ∷ record { id = 0; profile_id = 0; budget = two_and_a_half; period = "1h" }
    ∷ []

profile_changes-IsSilent_iff_example :
    (profile_changes digits (record standard { quotas = posted }) standard reordered ≡ [])
    ↔ (IsSilent digits (record standard { quotas = posted }) standard reordered)
profile_changes-IsSilent_iff_example =
    profile_changes-IsSilent_iff digits (record standard { quotas = posted }) standard reordered

unchanged : profile_changes digits (record standard { quotas = posted }) standard reordered ≡ []
unfolding profile_changes str_eq ai_self_service.Prelude.concat ai_self_service.Prelude.sort_by
    ai_self_service.Prelude.any
unchanged = refl

changed :
    profile_changes digits (record standard { quotas = posted }) standard []
    ≡ "quota 1h: 2.5 → none" ∷ "quota 30d: 10 → none" ∷ []
unfolding profile_changes str_eq ai_self_service.Prelude.concat ai_self_service.Prelude.sort_by
    ai_self_service.Prelude.any
changed = refl

-- A signature that is not secret.
abbrev stamp : String → String
stamp s = if str_eq s "abc" then "signed abc" else "signed"

abbrev form_post : Request
form_post = record {
  method = "POST";
  cross_origin = false;
  cookie = some "abc";
  header = "";
  body = field "signed abc";
}

form_post-passed : protect stamp form_post ≡ passed
unfolding protect ai_self_service.Prelude.any str_eq
form_post-passed = refl

form_post_unsafe : is_safe form_post.method ≡ false
unfolding is_safe ai_self_service.Prelude.any str_eq
form_post_unsafe = refl

protect-IsSigned_example : IsSigned stamp form_post
protect-IsSigned_example = protect-IsSigned stamp form_post form_post_unsafe form_post-passed

abbrev first_page : String × Option String
first_page = token stamp (some "abc") none

first_page_lem : first_page ≡ ("signed abc", some "abc")
unfolding token str_eq
first_page_lem = refl

token-protect_example : protect stamp form_post ≡ passed
unfolding token cookie_after str_eq
token-protect_example = token-protect stamp "abc" none form_post refl refl refl refl refl

abbrev stashed : KeyFlash
stashed = record { token = "t"; user_id = 1; key = "sk-1"; expires_at = 900 } ∷ []

shown : (take 1 "t" 800 801 stashed).0 ≡ "sk-1"
unfolding take str_eq find? ai_self_service.Prelude.filter
shown = refl

shown_something : (take 1 "t" 800 801 stashed).0 ≢ ""
unfolding str_eq
shown_something e = let q : false ≡ true = ap (λ s. str_eq s "") (sym shown ∙ e) in cc

abbrev mark : String
mark = "u"

named_u : mark ≢ ""
unfolding str_eq
named_u e = let q : false ≡ true = ap (λ s. str_eq s "") e in cc

take-Once_example :
    (e : FlashEntry) × (find? (has_token "t") (gc 800 stashed) ≡ some e)
    × (e.user_id ≡ 1)
    × (800 ≤ e.expires_at)
    × (801 ≤ e.expires_at)
    × ((take 1 "t" 800 801 stashed).0 ≡ e.key)
    × ((user' : ℕ) (at_gc' at' : ℕ)
        → (take user' "t" at_gc' at' (take 1 "t" 800 801 stashed).1).0 ≡ "")
take-Once_example = take-Once 1 "t" 800 801 stashed shown_something

take-put_example : (take 1 mark 5 6 (put 1 "sk-2" (some mark) 3 4 stashed).1).0 ≡ "sk-2"
take-put_example = take-put 1 "sk-2" mark 3 4 5 6 stashed named_u (omega arith) (omega arith)

abbrev busy_hour : UsageWindow
busy_hour = record {
  period = "1h";
  limit = ten;
  used = two_and_a_half;
  used_known = true;
  resets_at = 0;
}

abbrev a_quarter : Ratio
a_quarter used limit = pos 25

quota_windows-Bounded_example : All IsBar (quota_windows a_quarter (λ p. p) (busy_hour ∷ []))
quota_windows-Bounded_example = quota_windows-Bounded a_quarter (λ p. p) (busy_hour ∷ [])

abbrev half_full : QuotaView
half_full = record {
  period = "1h";
  label = "hour";
  used = ten;
  limit = ten;
  pct = pos 50;
  resets_at = 0;
}

abbrev nearly_full : QuotaView
nearly_full = record half_full { period = "7d"; pct = pos 90 }

binding_window-IsFullest_example :
    (r : QuotaView) × (binding_window (half_full ∷ nearly_full ∷ []) ≡ some r)
    × IsFullest (half_full ∷ nearly_full ∷ []) r
binding_window-IsFullest_example = binding_window-IsFullest half_full (nearly_full ∷ [])
