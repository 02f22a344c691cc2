-- ===== src/Exec.antt =====
-- What the Go code runs in: a database, a clock, a context, a gateway and a source of randomness.
-- Everything outside the program is an answer of `Env`, asked at a step number that grows with every
-- question, so a theorem for every world holds whatever fails, whenever it fails. A method returns
-- its result and the world after it.
pub mod Atomic
pub mod Ensures
pub mod Sends
pub mod KeepsKeys
pub mod Quiet
pub mod Keeps
pub mod Does
pub mod Onward
use ai_self_service.Prelude.{
  ℕ, zero, suc, String, Bool, true, false, Option, none, some, List, [], ◌∷◌, ◌++◌, if◌then◌else◌,
}
use ai_self_service.Keyprovider.{GatewayUser, Limits, GatewayError}
use ai_self_service.Database.Errors.{Error, Result, ok, err, io}
use ai_self_service.Database.Models.{Time}
use ai_self_service.Database.Tables.{Db}

-- An alias is the list of its code points.
-- The calls of a `keyprovider.Provider` that change or check a key. The answer is an error or none,
-- but for `create_key`, which is asked by `create`.
pub data GatewayCall : Type 0 where
  update_limits : String → GatewayUser → Limits → GatewayCall
  update_alias : String → List ℕ → GatewayCall
  check_key : String → GatewayCall
  delete_key : String → GatewayCall
  update_expiry : String → Time → GatewayCall
  -- `CreateKey`, with the request's alias, user, expiry and limits
  create_key : List ℕ → GatewayUser → Time → Limits → GatewayCall

-- `KeyResult`, or an error.
pub data Created : Type 0 where
  created : String → String → Created
  refused : GatewayError → Created

pub record Env : Type 0 where
  -- `time.Now()`
  pub clock : ℕ → Time
  -- whether the engine fails: a statement, BEGIN or COMMIT
  pub db_fails : ℕ → Bool
  -- whether `ctx.Err()` is set
  pub cancelled : ℕ → Bool
  -- what the gateway answers
  pub gateway : ℕ → GatewayCall → Option GatewayError
  -- four random bytes in hexadecimal, or a failure of `rand.Read`
  pub random_hex : ℕ → Option (List ℕ)
  -- what `CreateKey` answers: the secret and the ref of a new key
  pub creates : ℕ → GatewayCall → Created
  -- 32 random bytes as a text
  pub random_token : ℕ → Option String
  -- `t.AddDate(0, 0, days)`, which is the calendar's, and the texts of a time and of a duration
  pub add_days : Time → ℕ → Time
  pub format_time : Time → String
  pub format_date : Time → String
  pub format_duration : ℕ → String
  -- `%d` of a number and `%v` of an error
  pub format_number : ℕ → String
  pub format_error : Error → String

pub record World : Type 0 where
  pub env : Env
  pub db : Db
  pub tick : ℕ
  -- the gateway calls made so far, oldest first
  pub sent : List GatewayCall

abbrev pub Exec : Type 0 → Type 0
Exec A = World → Result A × World

abbrev pub step : World → World
step w = record w { tick = suc w.tick }

abbrev pub with_db : Db → World → World
with_db d w = record w { db = d }

abbrev pub pure : {A : Type 0} → A → Exec A
pure a w = (ok a, w)

abbrev pub raise : {A : Type 0} → Error → Exec A
raise e w = (err e, w)

abbrev pub continue : {A B : Type 0} → Result A → (A → Exec B) → Exec B
continue (ok a) f w = f a w
continue (err e) f w = (err e, w)

infixl 5 ◌>>=◌ ◌>>◌
unfoldable pub ◌>>=◌ : {A B : Type 0} → Exec A → (A → Exec B) → Exec B
◌>>=◌ m f w = let (r, w') = m w in continue r f w'

abbrev pub ◌>>◌ : {A B : Type 0} → Exec A → Exec B → Exec B
m >> n = m >>= λ _. n

-- `time.Now()`.
unfoldable pub now : Exec Time
now w = (ok (w.env.clock w.tick), step w)

-- `ctx.Err() != nil`.
unfoldable pub ctx_done : Exec Bool
ctx_done w = (ok (w.env.cancelled w.tick), step w)

-- A SELECT.
unfoldable pub query : {A : Type 0} → (Db → Result A) → Exec A
query f w = if w.env.db_fails w.tick then (err io, step w) else (f w.db, step w)

abbrev pub settle : {A : Type 0} → Result (A × Db) → Exec A
settle (ok (a, d)) w = (ok a, with_db d w)
settle (err e) w = (err e, w)

-- An INSERT, UPDATE or DELETE.
unfoldable pub statement : {A : Type 0} → (Db → Result (A × Db)) → Exec A
statement f w = if w.env.db_fails w.tick then (err io, step w) else settle (f w.db) (step w)

-- A statement that no constraint can refuse.
unfoldable pub change : (Db → Db) → Exec (Unit {0})
unfolding statement
change f = statement (λ d. ok (tt, f d))

abbrev pub finish : {A : Type 0} → Db → Result A × World → Result A × World
finish d (ok a, w) = if w.env.db_fails w.tick then (err io, with_db d (step w)) else (ok a, step w)
finish d (err e, w) = (err e, with_db d w)

-- `RunInTx`: BEGIN, the function, and COMMIT, or a rollback if any of them fails.
unfoldable pub run_in_tx : {A : Type 0} → Exec A → Exec A
run_in_tx m w = if w.env.db_fails w.tick then (err io, step w) else finish w.db (m (step w))

-- A call of the gateway.
unfoldable pub call : GatewayCall → Exec (Option GatewayError)
call c w = (ok (w.env.gateway w.tick c), record (step w) { sent = w.sent ++ c ∷ [] })

-- A call of `CreateKey`.
unfoldable pub create : GatewayCall → Exec Created
create c w = (ok (w.env.creates w.tick c), record (step w) { sent = w.sent ++ c ∷ [] })

unfoldable pub token : Exec (Option String)
token w = (ok (w.env.random_token w.tick), step w)

unfoldable pub random : Exec (Option (List ℕ))
random w = (ok (w.env.random_hex w.tick), step w)

abbrev pub commit_flag : Db → Bool → Exec (Bool × Option Error)
commit_flag d flag w =
    if w.env.db_fails w.tick
    then (ok (flag, some io), with_db d (step w))
    else (ok (flag, none), step w)

abbrev pub after_record : Db → Result (Unit {0}) × World → Result (Bool × Option Error) × World
after_record d (ok u, w) = commit_flag d true w
after_record d (err e, w) = (ok (true, some e), with_db d w)

abbrev pub after_change :
    Db → Exec (Unit {0}) → Result ℕ × World → Result (Bool × Option Error) × World
after_change d record_it (err e, w) = (ok (false, some e), with_db d w)
after_change d record_it (ok zero, w) = commit_flag d false w
after_change d record_it (ok (suc n), w) = after_record d (record_it w)

-- A transaction that sets a flag of its caller: it changes rows, and where that met any, it sets the
-- flag and writes a record. The flag stays set when the transaction fails after that.
unfoldable pub flagged_tx : Exec ℕ → Exec (Unit {0}) → Exec (Bool × Option Error)
flagged_tx change_rows record_it w =
    if w.env.db_fails w.tick
    then (ok (false, some io), step w)
    else after_change w.db record_it (change_rows (step w))

-- Go's `x, err := m`: an error is a value that the code goes on with.
unfoldable pub attempt : {A : Type 0} → Exec A → Exec (Result A)
attempt m w = let (r, w') = m w in (ok r, w')
