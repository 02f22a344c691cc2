-- ===== src/Keyprovider.antt =====
-- internal/keyprovider/keyprovider.go: the application's own words for keys, limits and people.
-- A float64 is its IEEE 754 bit pattern, since the code only compares a budget with zero, prints
-- it and passes it on; an int64 is a number.
use Prim.Native.Nat.{◌%◌}
use ai_self_service.Prelude.{
  ℕ, ◌+◌, String, List, Option, Bool, true, false, not, ◌&&◌, ◌||◌, leb, ltb, ◌==◌, if◌then◌else◌,
}

abbrev pub Float64 : Type 0
Float64 = ℕ

abbrev pub sign_bit : ℕ
sign_bit = 0x8000000000000000

abbrev pub plus_inf : ℕ
plus_inf = 0x7ff0000000000000

abbrev pub minus_inf : ℕ
minus_inf = 0xfff0000000000000

unfoldable pub is_nan : Float64 → Bool
is_nan b = ltb plus_inf b && ltb b sign_bit || ltb minus_inf b

-- `b <= 0`: both zeros and every negative number; NaN compares false.
unfoldable pub le_zero : Float64 → Bool
le_zero b = b == 0 || leb sign_bit b && leb b minus_inf

-- JSON has no other numbers: `json.Marshal` fails with an infinity and with NaN.
unfoldable pub is_finite : Float64 → Bool
is_finite b = not (is_nan b || b == plus_inf || b == minus_inf)

-- What `%g` prints, up to the text: the shortest decimal is read back as the same bits, and every
-- NaN prints alike.
unfoldable pub printed : Float64 → ℕ
printed b = if is_nan b then plus_inf + 1 else b

-- An int64 that may be negative or overflow is its two's complement pattern: a number below 2 ^ 64,
-- negative from 2 ^ 63 on.
abbrev pub Int64 : Type 0
Int64 = ℕ

abbrev pub add_64 : Int64 → Int64 → Int64
add_64 a b = (a + b) % 0x10000000000000000

abbrev pub is_positive_64 : Int64 → Bool
is_positive_64 a = ltb 0 a && ltb a 0x8000000000000000

abbrev pub less_64 : Int64 → Int64 → Bool
less_64 a b =
    ltb ((a + 0x8000000000000000) % 0x10000000000000000)
      ((b + 0x8000000000000000) % 0x10000000000000000)

-- One allowance and the period it resets on.
pub record QuotaWindow : Type 0 where
  pub budget : Float64
  pub period : String

-- An empty `models` and an absent number mean no restriction.
pub record Limits : Type 0 where
  pub models : List String
  pub tokens_per_minute : Option ℕ
  pub requests_per_minute : Option ℕ
  pub quotas : List QuotaWindow

-- The person a key belongs to, as the provider should know them.
pub record GatewayUser : Type 0 where
  pub id : String
  pub name : String
  pub email : String

-- What a provider's call answers instead of success: an error that wraps `ErrKeyNotFound`, or any
-- other, by its text.
pub data GatewayError : Type 0 where
  key_not_found : String → GatewayError
  other_error : String → GatewayError

unfoldable pub is_not_found : GatewayError → Bool
is_not_found (key_not_found m) = true
is_not_found (other_error m) = false

unfoldable pub error_text : GatewayError → String
error_text (key_not_found m) = m
error_text (other_error m) = m
