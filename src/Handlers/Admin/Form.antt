-- ===== src/Handlers/Admin/Form.antt =====
-- internal/handlers/admin.go: the allowance windows of the profile form. Go's string functions are
-- parameters.
pub mod Windows
pub mod Enforced
use ai_self_service.Prelude.{
  ℕ, zero, suc, String, Bool, true, false, not, ◌&&◌, ◌||◌, Option, none, some, List, [], ◌∷◌, ◌==◌,
  ltb, str_eq, any, if◌then◌else◌,
}
use ai_self_service.Keyprovider.{Float64, is_nan, le_zero, sign_bit, plus_inf, minus_inf}
use ai_self_service.Database.Models.{ProfileQuota}
use ai_self_service.Litellm.{is_valid_quota_period}

-- `strings.TrimSpace`, `strings.ReplaceAll(raw, ",", ".")`, and `strconv.ParseFloat`, which is `none` for
-- an error.
pub record GoText : Type 0 where
  pub trim_space : String → String
  pub commas_to_dots : String → String
  pub parse_float : String → Option Float64

pub data FormError : Type 0 where
  invalid_amount : String → FormError
  invalid_period : String → FormError
  duplicate_period : String → FormError
  unreachable_window : ProfileQuota → ProfileQuota → FormError

pub data Parsed (A : Type 0) : Type 0 where
  accepted : A → Parsed A
  rejected : FormError → Parsed A

-- `math.IsInf(b, 0)`
unfoldable pub is_inf : Float64 → Bool
is_inf b = b == plus_inf || b == minus_inf

unfoldable pub is_negative : Float64 → Bool
is_negative b = not (ltb b sign_bit)

-- `a > b`, on the bit patterns.
unfoldable pub above : Float64 → Float64 → Bool
unfolding is_negative
above a b =
    not (is_nan a || is_nan b)
    && (if is_negative a
        then is_negative b && ltb a b
        else (if is_negative b then not (a == 0 && b == sign_bit) else ltb b a))

-- `periodHours`
unfoldable pub period_hours : String → ℕ
period_hours p =
    if str_eq p "1h"
    then 1
    else if str_eq p "24h"
    then 24
    else if str_eq p "7d"
    then 168
    else if str_eq p "30d"
    then 720
    else 0

-- The periods from a row on, of which `periods[i]` is the first.
unfoldable pub period_of : GoText → List String → String
period_of t [] = ""
period_of t (p ∷ ps) = t.trim_space p

abbrev pub next : List String → List String
next [] = []
next (p ∷ ps) = ps

abbrev pub prepend : ProfileQuota → Parsed (List ProfileQuota) → Parsed (List ProfileQuota)
prepend q (accepted qs) = accepted (q ∷ qs)
prepend q (rejected e) = rejected e

-- A row with an amount above zero, and what the rows after it read as once its period was seen.
unfoldable pub add_row :
    Float64 → String → List String → Parsed (List ProfileQuota) → Parsed (List ProfileQuota)
add_row amount period seen rest =
    if not (is_valid_quota_period period) || str_eq period ""
    then rejected (invalid_period period)
    else if any (λ (s : String). str_eq s period) seen
    then rejected (duplicate_period period)
    else prepend (record { id = 0; profile_id = 0; budget = amount; period = period }) rest

unfoldable pub read_amount :
    String
    → Option Float64
    → String
    → List String
    → Parsed (List ProfileQuota)
    → Parsed (List ProfileQuota)
    → Parsed (List ProfileQuota)
unfolding is_inf add_row
read_amount raw none period seen skipped rest = rejected (invalid_amount raw)
read_amount raw (some amount) period seen skipped rest =
    if is_nan amount || is_inf amount
    then rejected (invalid_amount raw)
    else if le_zero amount
    then skipped
    else add_row amount period seen rest

-- The loop over the amounts, with the periods seen so far.
unfoldable pub read_rows :
    GoText → List String → List String → List String → Parsed (List ProfileQuota)
unfolding read_amount period_of
read_rows t [] periods seen = accepted []
read_rows t (amount ∷ amounts) periods seen =
    let raw = t.trim_space amount in
    let number = t.commas_to_dots raw in
    let period = period_of t periods in
    let skipped = read_rows t amounts (next periods) seen in
    let rest = read_rows t amounts (next periods) (period ∷ seen) in
    if str_eq raw ""
    then skipped
    else read_amount number (t.parse_float number) period seen skipped rest

-- The inner loop of `checkWindowsBind`: the first window that the shorter `a` exceeds.
unfoldable pub exceeded : ℕ → ProfileQuota → ℕ → List ProfileQuota → Option ProfileQuota
unfolding period_hours above
exceeded i a j [] = none
exceeded i a j (b ∷ bs) =
    let rest = exceeded i a (suc j) bs in
    if i == j
    then rest
    else if ltb (period_hours a.period) (period_hours b.period) && above a.budget b.budget
    then some b
    else rest

unfoldable pub unreachable_pair :
    List ProfileQuota → ℕ → List ProfileQuota → Option (ProfileQuota × ProfileQuota)
unfolding exceeded
unreachable_pair qs i [] = none
unreachable_pair qs i (a ∷ rest) =
    let later = unreachable_pair qs (suc i) rest in
    elim (exceeded i a 0 qs) [ none ↦ later | some b ↦ some (a, b) ]

-- `checkWindowsBind`, of the windows that parsed.
unfoldable pub bound :
    List ProfileQuota → Option (ProfileQuota × ProfileQuota) → Parsed (List ProfileQuota)
bound qs none = accepted qs
bound qs (some (a, b)) = rejected (unreachable_window a b)

unfoldable pub check_windows : Parsed (List ProfileQuota) → Parsed (List ProfileQuota)
unfolding unreachable_pair bound
check_windows (rejected e) = rejected e
check_windows (accepted qs) = bound qs (unreachable_pair qs 0 qs)

-- `parseQuotaWindows`, of the values of `quota_budget` and of `quota_period`.
unfoldable pub parse_quota_windows : GoText → List String → List String → Parsed (List ProfileQuota)
unfolding read_rows check_windows
parse_quota_windows t amounts periods = check_windows (read_rows t amounts periods [])
