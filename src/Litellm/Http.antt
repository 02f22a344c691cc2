-- ===== src/Litellm/Http.antt =====
-- internal/litellm/client.go: what the client and LiteLLM say to each other. LiteLLM, the transport and
-- Go's decoders are what `Wire` answers: for a request an answer, if one came, with its body as each
-- decoder reads it. The client keeps no state; a method returns its reply and the requests made so far.
use ai_self_service.Prelude.{
  ℕ, String, Bool, true, false, Option, none, some, List, [], ◌∷◌, ◌++◌, length,
}
use ai_self_service.Keyprovider.{Float64, Int64, QuotaWindow}
use ai_self_service.Database.Models.{Time}
use ai_self_service.Litellm.KeyParams.{KeyParams, KeyInfo}

-- A field of a JSON object: left out, null, or with a value.
pub data Field (A : Type 0) : Type 0 where
  omitted : Field A
  null : Field A
  given : A → Field A

-- A pointer in a payload: nil is null.
unfoldable pub nullable : {A : Type 0} → Option A → Field A
nullable none = null
nullable (some a) = given a

-- The body of /key/update.
pub record KeyUpdate : Type 0 where
  pub key : String
  pub key_alias : Field String
  pub duration : Field String
  pub user_id : Field String
  pub models : Field (List String)
  pub tpm_limit : Field ℕ
  pub rpm_limit : Field ℕ
  pub max_budget : Field Float64
  pub budget_duration : Field String
  pub budget_limits : Field (List QuotaWindow)

-- The body of /user/new and of /user/update.
pub record UserBody : Type 0 where
  pub user_id : String
  pub user_alias : Field String
  pub user_email : Field String
  pub max_budget : Field Float64
  pub budget_duration : Field String
  pub auto_create_key : Field Bool

pub data Request : Type 0 where
  -- the parameters, and the alias and the duration that the client adds
  key_generate : KeyParams → String → String → Request
  key_update : KeyUpdate → Request
  key_delete : String → Request
  get_key_info : String → Request
  user_new : UserBody → Request
  user_update : UserBody → Request
  get_user_info : String → Request
  -- the user, the first and the last day, and the page
  get_daily_activity : String → String → String → ℕ → Request
  get_model_info : Request

-- `activityMetrics`
pub record ActivityMetrics : Type 0 where
  pub prompt_tokens : Int64
  pub completion_tokens : Int64
  pub total_tokens : Int64
  pub api_requests : Int64

pub record DayResult : Type 0 where
  pub date : String
  pub metrics : ActivityMetrics
  -- the map of model groups, in the order that the loop meets it
  pub model_groups : List (String × ActivityMetrics)

-- `dailyActivityPage`
pub record DailyActivityPage : Type 0 where
  pub results : List DayResult
  pub has_more : Bool

-- `userInfoResponse`
pub record UserInfoBody : Type 0 where
  pub spend : Float64
  pub max_budget : Option Float64
  pub budget_duration : Option String
  pub budget_reset_at : Option String

-- A model's name and mode.
pub record ModelEntry : Type 0 where
  pub model_name : String
  pub mode : String

-- An answer: the status, the body as text, and what the decoder of each route makes of the body,
-- `none` if it fails. `error_code` is the code in LiteLLM's error envelope without its quotes.
pub record HttpAnswer : Type 0 where
  pub status : ℕ
  pub body : String
  pub error_code : Option String
  pub generated : Option (String × String)
  pub key_info : Option KeyInfo
  pub user_info : Option UserInfoBody
  pub activity : Option DailyActivityPage
  pub model_info : Option (List ModelEntry)

-- What the client's methods fail with. `gone` wraps `keyprovider.ErrKeyNotFound`.
pub data ClientError : Type 0 where
  unreachable : ClientError
  answered_with : String → ℕ → String → ClientError
  gone : String → ClientError
  undecodable : String → ClientError
  empty_key : ClientError
  -- a number that `json.Marshal` has no text for
  unsupported_value : ClientError
  too_many_pages : ClientError
  -- /user/update's answer, and the one of /user/new before it
  conflicting : ℕ → String → String → ClientError

-- `errors.Is(err, keyprovider.ErrKeyNotFound)`
unfoldable pub is_gone : ClientError → Bool
is_gone (gone route) = true
is_gone _ = false

pub data Reply (A : Type 0) : Type 0 where
  done : A → Reply A
  refused : ClientError → Reply A

pub record Wire : Type 0 where
  pub answers : ℕ → Request → Option HttpAnswer
  pub requests : List Request
  -- SHA-256 in hexadecimal, and `time.Parse(time.RFC3339, s)`
  pub sha256 : String → String
  pub parse_time : String → Option Time
  -- the days until a time, as a duration
  pub days_until : Time → String
  -- `time.Now().UTC().AddDate(0, 0, -days)` as a date
  pub days_ago : ℕ → String

abbrev pub Client : Type 0 → Type 0
Client A = Wire → Reply A × Wire

abbrev pub return : {A : Type 0} → A → Client A
return a w = (done a, w)

abbrev pub fail_with : {A : Type 0} → ClientError → Client A
fail_with e w = (refused e, w)

abbrev pub proceed : {A B : Type 0} → Reply A → (A → Client B) → Client B
proceed (done a) f w = f a w
proceed (refused e) f w = (refused e, w)

infixl 5 ◌>>=◌ ◌>>◌
unfoldable pub ◌>>=◌ : {A B : Type 0} → Client A → (A → Client B) → Client B
◌>>=◌ m f w = let (r, v) = m w in proceed r f v

abbrev pub ◌>>◌ : {A B : Type 0} → Client A → Client B → Client B
m >> n = m >>= λ _. n

abbrev pub reached : Option HttpAnswer → Reply HttpAnswer
reached none = refused unreachable
reached (some a) = done a

-- `Client.do`
unfoldable pub send : Request → Client HttpAnswer
send q w = (reached (w.answers (length w.requests) q), record w { requests = w.requests ++ q ∷ [] })
