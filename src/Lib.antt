-- ===== src/Lib.antt =====
-- Keyosk (ai-self-service): a portal where the members of a university get an API key for an AI
-- gateway. Each user has one key; a profile, assigned or by default, says what the key may use; the
-- database is SQLite, the gateway is LiteLLM behind the interface keyprovider.Provider.
--
-- The program and the files that model it:
--   Keyprovider    internal/keyprovider/keyprovider.go: limits, windows, people, errors of the gateway.
--   Alias          internal/keyprovider/alias.go: NewAlias, sanitiseAlias.
--   Litellm        internal/litellm: quota.go, how the allowance windows of a profile are split
--                  between the person and the key (WidestWindow, effectiveWindows); KeyParams, what
--                  a new key is created with and how its windows are read back; Http and Client,
--                  the requests of client.go, usage.go and user.go and what is made of each answer;
--                  Usage, the pages of History; Gateway, the Provider of provider.go and windows.go.
--   Database       internal/database: Models (models.go), Tables (the schema that the migrations end
--                  in), Profiles, Quotas, Users, Keys, Sessions (db.go, admins.go), SyncQueries
--                  (limitsync.go). A Go method GetProfile is the definition get_profile, and so on.
--                  Writes lists the methods that change rows as values of a data type, so that a
--                  theorem can speak of all of them; MarkKeyMissing, ClearKeyMissing and
--                  RemoveMissingKey, which return a flag beside their error, stand in Missing.
--   LimitSync      internal/limitsync/limitsync.go: the push of one key (syncOne), the check of the
--                  keys marked as missing (checkOne), and a run (Run).
--   ProfileExpiry  internal/profileexpiry/expiry.go: the job that ends assignments.
--   Config         internal/config/config.go: the settings that the others read, and whom the gateway
--                  knows a person as; Load, what is read from the environment and what is refused.
--   Session        internal/session: session.go (Manager), and Csrf: csrf.go (Token, Protect).
--   Oidc           internal/oidc/oidc.go: what a verified ID token says, and the account behind a login.
--   Reminder       internal/notify/reminder.go: which expiry notices a run sends and records.
--   Handlers       internal/handlers: Keys (GenerateKey, ExtendKey and DeleteKey of ui.go), Login
--                  (Callback, Logout, BackchannelLogout, SessionStatus of ui.go), Quotas
--                  (quotaPct, quotaWindows, bindingWindow of ui.go), KeyLock
--                  (keylock.go, whose requests are threads of a step relation: each step is what one
--                  request does between two points where another may run), Flash (flash.go), Admin
--                  (admin.go, admins.go), Admin/Form (the windows of the profile form), Admin/Profiles
--                  (CreateProfile, UpdateProfile, DeleteProfile, profileFromForm) and
--                  Admin/ProfileText (profileaudit.go).
--   Exec           what all of these run in.
--   Prelude        shared names and lemmas on lists, texts and counts.
--   Tests          the theorems at concrete data.
-- Below Exec and the components stand modules named for what they prove: Exec/Atomic, Ensures, Keeps,
-- KeepsKeys, Quiet, Sends, Does and Onward have one rule for each way to build an action;
-- Database/Defaults, Atomicity, Revisions/Exact, Pending, Missing/Exact and Quotas/Same, LimitSync/Calls and Harmless,
-- Litellm/Widest, Split, Client/Enforced, Client/Missing, Usage/Sums and Gateway/Order, Config/Load/Safe,
-- Alias/Plain, ProfileExpiry/Confirmed, Handlers/Keys/Generated, Extended and Deleted,
-- Handlers/Admin/Oneself and Admin/ProfileText/Silent, Handlers/Login/Ended, Oidc/Login and
-- Reminder/Recorded apply them. Handlers/KeyLock/Sound has the invariant of the lock, and Exclusion what
-- follows from it. Database/KeyMap is the map from users to keys that the Store's
-- methods for keys stand for, and KeyMap/Refines that they carry it out. LimitSync/Open counts the keys that a
-- run still has to push, Settled and Rounds show that each round leaves fewer, Shrinks that the check of
-- the missing keys adds none, and Ends that a run comes to its end.
--
-- How the code is modelled. A method is a function from a world to a result and the world after it. The
-- world has the tables, the list of the gateway calls made so far, and an environment that answers
-- every question put to it: the clock, whether a statement, BEGIN or COMMIT fails, whether the context
-- has ended, what the gateway answers, random bytes, and the texts of times, numbers and errors. Each
-- question has its own number, so the answers may differ from one question to the next in every way,
-- and a theorem for all worlds holds for every pattern of failures. A transaction (RunInTx) puts the
-- tables back when its body or its COMMIT fails; SQLite runs one at a time.
-- The SQL of each query is a function on lists of rows, in the order of their ids. UNIQUE columns and
-- indexes, foreign keys (database.Open turns them on) and ON DELETE CASCADE are checks and effects of
-- the row functions in Tables.
-- LimitSync.Run has fuel for the rounds of its loop, and returns none where it runs out. One more round
-- than there are keys is enough: the first key of a round is recorded, marked or remembered as
-- failed, so no round starts with it again. What is stated of a run's calls holds for each number of
-- rounds. History asks for twenty pages at most, as the code does. All other recursion is structural.
-- The client of LiteLLM has a world of its own: the requests made so far, and the answer to each, with what
-- Go's decoders make of its body. To the other parts the gateway is the answers of their environment.
--
-- Conventions. An int or int64 is a natural number: ids, revisions, limits and durations are never
-- negative and stay below 2^63. The counts that the gateway reports may be anything, so each is the
-- two's complement pattern of an int64 and their sums wrap around; a percentage is an integer. A time
-- is a number of nanoseconds since Go's zero time. A float64 is its IEEE 754 bit pattern, as the code
-- only compares, prints and sends it. A text that an error is wrapped in is left out where no code
-- reads it.
--
-- A request is what its handler reads of it: the value of its cookie and the parsed fields of its form; its
-- answer is a redirect or a status. A number in a path or a form is none where it does not parse, and no
-- such number is below zero. The HMAC of a CSRF token, Go's string functions and the mail server are
-- parameters.
--
-- The HTTP transport, the JSON decoders, SHA-256 and net/netip are parameters as well, and how
-- Go prints a number.
--
-- Not modelled: the pages, the fake provider, pricing, the caches of usage and models, the exchange and
-- verification of OpenID tokens (a library), the attributes of cookies, logs, metrics, the sending
-- of mail, the migrations' own steps, and the goroutines around the jobs: the workers of the limit
-- sync run one after the other. What a handler does under the lock of its user is one action; that
-- no other request of the user runs meanwhile is the theorem about the lock. What other users'
-- requests and the jobs do between two steps of an action is left out.
pub mod Prelude
pub mod Keyprovider
pub mod Exec
pub mod Alias
pub mod Litellm
pub mod Database
pub mod LimitSync
pub mod ProfileExpiry
pub mod Config
pub mod Session
pub mod Oidc
pub mod Reminder
pub mod Handlers
pub mod Tests
