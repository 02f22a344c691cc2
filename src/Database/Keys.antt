-- ===== src/Database/Keys.antt =====
-- internal/database/db.go: the operations on API keys, and on the notices sent for them.
use ai_self_service.Prelude.{
  ℕ, ◌&&◌, ◌||◌, not, Bool, false, Option, none, some, String, List, [], ◌∷◌, ◌==◌, leb, ltb,
  is_some, filter, find?, any, count_if, sort_by, length, flat_map,
}
use ai_self_service.Database.Models.{
  ApiKey, User, Time, AuditAction, ExpiringKey, ExpiryNotice, key_missing, key_found, key_gone,
}
use ai_self_service.Database.Errors.{Error, Result, ok}
use ai_self_service.Database.Tables.{
  Db, insert_key, update_keys, delete_keys, delete_notices_of, insert_event, insert_notice,
}
use ai_self_service.Exec.{
  Exec, pure, query, statement, change, now, run_in_tx, flagged_tx, ◌>>=◌, ◌>>◌,
}

abbrev pub has_id : ℕ → ApiKey → Bool
has_id id k = k.id == id

-- `GetAPIKeyByUser`: a user without a key is no error.
unfoldable pub get_api_key_by_user : ℕ → Exec (Option ApiKey)
get_api_key_by_user user_id = query (λ d. ok (find? (λ (k : ApiKey). k.user_id == user_id) d.keys))

-- `ReplaceAPIKey`, with the id of the new row.
unfoldable pub replace_api_key : ApiKey → Exec ℕ
replace_api_key k = do
  at ← now
  run_in_tx do
    change (delete_keys (λ r. r.user_id == k.user_id))
    statement (insert_key (record k { created_at = at }))

-- `CreateAPIKey`
unfoldable pub create_api_key : ApiKey → Exec ℕ
create_api_key k = do at ← now; statement (insert_key (record k { created_at = at }))

-- `UpdateAPIKeyExpiry`
unfoldable pub update_api_key_expiry : ℕ → Time → Exec (Unit {0})
update_api_key_expiry key_id expires_at = run_in_tx do
  change (update_keys (has_id key_id) (λ k. record k { expires_at = expires_at }))
  change (delete_notices_of key_id)

-- `DeleteAPIKey`
unfoldable pub delete_api_key : ℕ → Exec (Unit {0})
delete_api_key key_id = change (delete_keys (has_id key_id))

-- `recordKeyAudit`
unfoldable pub record_key_audit : AuditAction → ℕ → String → String → Exec (Unit {0})
record_key_audit action owner_id owner_email detail = do
  at ← now
  change (
      insert_event (record {
        id = 0;
        created_at = at;
        action = action;
        actor_email = "system";
        subject_email = owner_email;
        subject_id = some owner_id;
        detail = detail;
      }))

-- An UPDATE with the number of rows that it met.
unfoldable pub update_counted : (ApiKey → Bool) → (ApiKey → ApiKey) → Db → Result (ℕ × Db)
update_counted p f d = ok (count_if p d.keys, update_keys p f d)

unfoldable pub delete_counted : (ApiKey → Bool) → Db → Result (ℕ × Db)
delete_counted p d = ok (count_if p d.keys, delete_keys p d)

abbrev pub unmarked : ℕ → ApiKey → Bool
unmarked id k = k.id == id && not (is_some k.missing_since)

abbrev pub is_marked : ℕ → ApiKey → Bool
is_marked id k = k.id == id && is_some k.missing_since

-- `MarkKeyMissing`: whether this call set its flag, and the error.
unfoldable pub mark_key_missing : ℕ → ℕ → String → String → Exec (Bool × Option Error)
unfolding update_counted record_key_audit
mark_key_missing key_id owner_id owner_email detail =
    flagged_tx
      (do
        at ← now
        statement (update_counted (unmarked key_id) (λ k. record k { missing_since = some at })))
      (record_key_audit key_missing owner_id owner_email detail)

-- `ClearKeyMissing`: the key is made out of date too.
unfoldable pub clear_key_missing : ℕ → ℕ → String → String → Exec (Bool × Option Error)
unfolding update_counted record_key_audit
clear_key_missing key_id owner_id owner_email detail =
    flagged_tx
      (statement (
        update_counted (is_marked key_id)
          (λ k. record k { missing_since = none; synced_rev = none })))
      (record_key_audit key_found owner_id owner_email detail)

unfoldable pub missing_before : ℕ → Time → ApiKey → Bool
missing_before id before k =
    k.id == id && elim k.missing_since [ none ↦ false | some t ↦ leb t before ]

-- `RemoveMissingKey`
unfoldable pub remove_missing_key : ℕ → ℕ → String → String → Time → Exec (Bool × Option Error)
unfolding delete_counted missing_before record_key_audit
remove_missing_key key_id owner_id owner_email detail before =
    flagged_tx (statement (delete_counted (missing_before key_id before)))
      (record_key_audit key_gone owner_id owner_email detail)

pub record MissingKey : Type 0 where
  pub key_id : ℕ
  pub key_ref : String
  pub key_prefix : String
  pub missing_since : Time
  pub user_id : ℕ
  pub email : String

-- The join of a marked key with its owner: at most one row.
unfoldable pub missing_row : ApiKey → Option Time → Option User → List MissingKey
missing_row k none owner = []
missing_row k (some t) none = []
missing_row k (some t) (some u) =
    record {
      key_id = k.id;
      key_ref = k.key_ref;
      key_prefix = k.key_prefix;
      missing_since = t;
      user_id = u.id;
      email = u.email;
    }
    ∷ []

unfoldable pub owner_of : ApiKey → Db → Option User
owner_of k d = find? (λ (u : User). u.id == k.user_id) d.users

unfoldable pub older_mark : MissingKey → MissingKey → Bool
older_mark a b =
    ltb a.missing_since b.missing_since
    || (a.missing_since == b.missing_since && leb a.key_id b.key_id)

unfoldable pub missing_rows : Db → List MissingKey
unfolding missing_row owner_of
missing_rows d = flat_map (λ (k : ApiKey). missing_row k k.missing_since (owner_of k d)) d.keys

-- `ListMissingKeys`, oldest first.
unfoldable pub list_missing_keys : Exec (List MissingKey)
unfolding missing_rows older_mark
list_missing_keys = query (λ d. ok (sort_by older_mark (missing_rows d)))

-- `CountMissingKeys`
unfoldable pub count_missing_keys : Exec ℕ
count_missing_keys = query (λ d. ok (count_if (λ (k : ApiKey). is_some k.missing_since) d.keys))

-- `ListAPIKeys`
unfoldable pub list_api_keys : Exec (List ApiKey)
list_api_keys = query (λ d. ok d.keys)

-- `t.AddDate(0, 0, days)`
unfoldable pub days_after : Time → ℕ → Exec Time
days_after t days w = (ok (w.env.add_days t days), w)

-- `CountAPIKeys`: all keys, and those that expire within the days.
unfoldable pub count_api_keys : ℕ → Exec (ℕ × ℕ)
unfolding days_after
count_api_keys within_days = do
  at ← now
  all ← query (λ d. ok (length d.keys))
  cutoff ← days_after at within_days
  soon ←
      query
        (λ d. ok (count_if (λ (k : ApiKey). ltb at k.expires_at && leb k.expires_at cutoff) d.keys))
  pure (all, soon)

unfoldable pub noticed : ℕ → ℕ → Db → Bool
noticed key_id days_before d =
    any (λ (n : ExpiryNotice). n.api_key_id == key_id && n.days_before == days_before) d.notices

unfoldable pub is_due : Time → Time → ℕ → Db → ApiKey → Bool
unfolding noticed
is_due cutoff at days_before d k =
    leb k.expires_at cutoff
    && ltb at k.expires_at
    && not (is_some k.missing_since)
    && not (noticed k.id days_before d)

unfoldable pub expiring_row : ApiKey → Option User → List ExpiringKey
expiring_row k none = []
expiring_row k (some u) = record { key = k; email = u.email; name = u.name } ∷ []

-- `KeysExpiringWithin`
unfoldable pub keys_expiring_within : ℕ → Exec (List ExpiringKey)
unfolding days_after is_due expiring_row owner_of
keys_expiring_within days_before = do
  at ← now
  cutoff ← days_after at days_before
  at' ← now
  query (λ d. ok (
      flat_map (λ (k : ApiKey). expiring_row k (owner_of k d))
        (filter (is_due cutoff at' days_before d) d.keys)))

-- `MarkExpiryNoticeSent`
unfoldable pub mark_expiry_notice_sent : ℕ → ℕ → Exec (Unit {0})
mark_expiry_notice_sent key_id days_before = do
  at ← now
  statement (
      insert_notice
        (record { id = 0; api_key_id = key_id; days_before = days_before; sent_at = at }))
