-- ===== src/Database/Missing.antt =====
-- The marks of keys that the gateway no longer has: what marking, unmarking and removing one does.
pub mod Exact
use ai_self_service.Prelude.{
  ℕ, zero, suc, ◌≤◌, ◌≡◌, refl, Bool, true, false, Option, none, some, String, if◌then◌else◌, arith,
  count_if,
}
use ai_self_service.Database.Models.{
  Time, AuditEvent, AuditAction, key_missing, key_found, key_gone,
}
use ai_self_service.Database.Errors.{Error, Result, ok, err, io}
use ai_self_service.Database.Tables.{Db, update_keys, delete_keys, insert_event}
use ai_self_service.Database.Keys.{
  update_counted, delete_counted, unmarked, is_marked, missing_before, record_key_audit,
  mark_key_missing, clear_key_missing, remove_missing_key,
}
use ai_self_service.Exec.{
  Exec, World, step, with_db, now, statement, change, flagged_tx, after_change, after_record, ◌>>=◌,
}

-- The audit entry of something that happened to a key without anybody in the portal doing it.
abbrev pub key_event : AuditAction → ℕ → String → String → Time → AuditEvent
key_event action owner_id owner_email detail at = record {
  id = 0;
  created_at = at;
  action = action;
  actor_email = "system";
  subject_email = owner_email;
  subject_id = some owner_id;
  detail = detail;
}

-- What a transaction with a flag returns and leaves. With an error nothing has changed. Without one,
-- the rows that it is about were changed, there was one exactly when the flag is set, and then the
-- audit entry stands beside the change.
abbrev pub Settles :
    (Db → ℕ)
    → (Db → Db → Type 0)
    → (Time → AuditEvent)
    → Db
    → Result (Bool × Option Error) × World
    → Type 0
Settles met Changes event d (ok (flag, some e), w) = w.db ≡ d
Settles met Changes event d (ok (true, none), w) =
    (1 ≤ met d) × (d' : Db) × Changes d d' × (at : Time) × (w.db ≡ insert_event (event at) d')
Settles met Changes event d (ok (false, none), w) = (met d ≡ 0) × Changes d w.db
Settles met Changes event d (err e, w) = ⊥

-- What the two parts of the transaction do when they succeed.
abbrev CountsRows : (Db → ℕ) → (Db → Db → Type 0) → Exec ℕ → Type 0
CountsRows met Changes rows =
    (w : World) (n : ℕ) → (rows w).0 ≡ ok n → (met w.db ≡ n) × Changes w.db (rows w).1.db

abbrev Records : (Time → AuditEvent) → Exec (Unit {0}) → Type 0
Records event rec =
    (w : World) (u : Unit {0})
    → (rec w).0 ≡ ok u
    → (at : Time) × ((rec w).1.db ≡ insert_event (event at) w.db)

module _ (met : Db → ℕ) (Changes : Db → Db → Type 0) (event : Time → AuditEvent) where
  commit_false :
      (d : Db) (w : World) (b : Bool)
      → met d ≡ 0
      → Changes d w.db
      → Settles met Changes event d
          (if b then (ok (false, some io), with_db d (step w)) else (ok (false, none), step w))
  commit_false d w true none_met c = refl
  commit_false d w false none_met c = (none_met, c)

  commit_true :
      (d d' : Db) (w : World) (b : Bool) (at : Time)
      → 1 ≤ met d
      → Changes d d'
      → w.db ≡ insert_event (event at) d'
      → Settles met Changes event d
          (if b then (ok (true, some io), with_db d (step w)) else (ok (true, none), step w))
  commit_true d d' w true at some_met c e = refl
  commit_true d d' w false at some_met c e = (some_met, d', c, at, e)

  record_lem :
      (d d' : Db) (r : Result (Unit {0}) × World)
      → 1 ≤ met d
      → Changes d d'
      → ((u : Unit {0}) → r.0 ≡ ok u → (at : Time) × (r.1.db ≡ insert_event (event at) d'))
      → Settles met Changes event d (after_record d r)
  record_lem d d' (ok u, w) some_met c h =
      let (at, e) = h u refl in commit_true d d' w (w.env.db_fails w.tick) at some_met c e
  record_lem d d' (err e, w) some_met c h = refl

  change_lem :
      (d : Db) (rec : Exec (Unit {0})) (r : Result ℕ × World)
      → Records event rec
      → ((n : ℕ) → r.0 ≡ ok n → (met d ≡ n) × Changes d r.1.db)
      → Settles met Changes event d (after_change d rec r)
  change_lem d rec (ok zero, w) hr h =
      let (m, c) = h zero refl in commit_false d w (w.env.db_fails w.tick) m c
  change_lem d rec (ok (suc n), w) hr h =
      let (m, c) = h (suc n) refl in record_lem d w.db (rec w) (omega (arith, m)) c (hr w)
  change_lem d rec (err e, w) hr h = refl

  begin_lem :
      (d : Db) (w : World) (r : Result (Bool × Option Error) × World) (b : Bool)
      → w.db ≡ d
      → Settles met Changes event d r
      → Settles met Changes event d (if b then (ok (false, some io), w) else r)
  begin_lem d w r true same h = same
  begin_lem d w r false same h = h

  flagged_tx-Settles :
      (rows : Exec ℕ) (rec : Exec (Unit {0})) (w : World)
      → CountsRows met Changes rows
      → Records event rec
      → Settles met Changes event w.db (flagged_tx rows rec w)
  unfolding flagged_tx
  flagged_tx-Settles rows rec w hc hr =
      begin_lem w.db (step w) _ (w.env.db_fails w.tick) refl
        (change_lem w.db rec (rows (step w)) hr (hc (step w)))

record_key_audit-Records :
    (action : AuditAction) (owner_id : ℕ) (owner_email detail : String) (w : World) (u : Unit {0})
    → (record_key_audit action owner_id owner_email detail w).0 ≡ ok u
    → (at : Time) × ((record_key_audit action owner_id owner_email detail w).1.db
        ≡ insert_event (key_event action owner_id owner_email detail at) w.db)
unfolding record_key_audit now change statement ◌>>=◌
record_key_audit-Records action owner_id owner_email detail w u h =
    (w.env.clock w.tick, ground arith)

-- Marking: of the keys with the id, those without a mark get the time.
abbrev pub Marks : ℕ → Db → Db → Type 0
Marks key_id d d' =
    (at : Time) × (d' ≡ update_keys (unmarked key_id) (λ k. record k { missing_since = some at }) d)

Marks-CountsRows :
    (key_id : ℕ)
    → CountsRows
        (λ d. count_if (unmarked key_id) d.keys)
        (Marks key_id)
        (now >>= λ at.
          statement (update_counted (unmarked key_id) (λ k. record k { missing_since = some at })))
unfolding now statement update_counted ◌>>=◌
Marks-CountsRows key_id v n h = (ground arith, (v.env.clock v.tick, ground arith))

-- Marking a key as missing marks it, and writes the audit entry, exactly if it had no mark; a key
-- that has one keeps its first time. With an error nothing has changed.
pub mark_key_missing-Settles :
    (key_id owner_id : ℕ) (owner_email detail : String) (w : World)
    → Settles
        (λ d. count_if (unmarked key_id) d.keys)
        (Marks key_id)
        (key_event key_missing owner_id owner_email detail)
        w.db
        (mark_key_missing key_id owner_id owner_email detail w)
unfolding mark_key_missing
mark_key_missing-Settles key_id owner_id owner_email detail w =
    flagged_tx-Settles (λ d. count_if (unmarked key_id) d.keys) (Marks key_id)
      (key_event key_missing owner_id owner_email detail) _ _ w (Marks-CountsRows key_id)
      (record_key_audit-Records key_missing owner_id owner_email detail)

abbrev pub Unmarks : ℕ → Db → Db → Type 0
Unmarks key_id d d' =
    d'
    ≡ update_keys (is_marked key_id) (λ k. record k { missing_since = none; synced_rev = none }) d

Unmarks-CountsRows :
    (key_id : ℕ)
    → CountsRows
        (λ d. count_if (is_marked key_id) d.keys)
        (Unmarks key_id)
        (statement (
          update_counted
            (is_marked key_id)
            (λ k. record k { missing_since = none; synced_rev = none })))
unfolding statement update_counted
Unmarks-CountsRows key_id v n h = (ground arith, ground arith)

-- Unmarking takes the mark off, makes the key out of date and writes the audit entry, exactly if it
-- had a mark. With an error nothing has changed.
pub clear_key_missing-Settles :
    (key_id owner_id : ℕ) (owner_email detail : String) (w : World)
    → Settles
        (λ d. count_if (is_marked key_id) d.keys)
        (Unmarks key_id)
        (key_event key_found owner_id owner_email detail)
        w.db
        (clear_key_missing key_id owner_id owner_email detail w)
unfolding clear_key_missing
clear_key_missing-Settles key_id owner_id owner_email detail w =
    flagged_tx-Settles (λ d. count_if (is_marked key_id) d.keys) (Unmarks key_id)
      (key_event key_found owner_id owner_email detail) _ _ w (Unmarks-CountsRows key_id)
      (record_key_audit-Records key_found owner_id owner_email detail)

abbrev pub Removes : ℕ → Time → Db → Db → Type 0
Removes key_id before d d' = d' ≡ delete_keys (missing_before key_id before) d

Removes-CountsRows :
    (key_id : ℕ) (before : Time)
    → CountsRows
        (λ d. count_if (missing_before key_id before) d.keys)
        (Removes key_id before)
        (statement (delete_counted (missing_before key_id before)))
unfolding statement delete_counted
Removes-CountsRows key_id before v n h = (ground arith, ground arith)

-- Removal deletes the row with its notices, and writes the audit entry, exactly if the key was marked
-- at or before the given time. With an error nothing has changed.
pub remove_missing_key-Settles :
    (key_id owner_id : ℕ) (owner_email detail : String) (before : Time) (w : World)
    → Settles
        (λ d. count_if (missing_before key_id before) d.keys)
        (Removes key_id before)
        (key_event key_gone owner_id owner_email detail)
        w.db
        (remove_missing_key key_id owner_id owner_email detail before w)
unfolding remove_missing_key
remove_missing_key-Settles key_id owner_id owner_email detail before w =
    flagged_tx-Settles (λ d. count_if (missing_before key_id before) d.keys) (Removes key_id before)
      (key_event key_gone owner_id owner_email detail) _ _ w (Removes-CountsRows key_id before)
      (record_key_audit-Records key_gone owner_id owner_email detail)
