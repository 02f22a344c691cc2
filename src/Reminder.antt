-- ===== src/Reminder.antt =====
-- internal/notify/reminder.go: the warnings before a key expires. What the mail server answers is an argument,
-- and the text of the mails is left out.
pub mod Recorded
use ai_self_service.Prelude.{
  ℕ, zero, suc, Bool, true, false, Option, none, some, List, [], ◌∷◌, ◌++◌, ◌==◌, if◌then◌else◌,
}
use ai_self_service.Database.Models.{ApiKey, ExpiringKey}
use ai_self_service.Database.Errors.{Error, Result, ok, err}
use ai_self_service.Database.Keys.{keys_expiring_within, mark_expiry_notice_sent}
use ai_self_service.Exec.{Exec, World, step, pure, attempt, ◌>>=◌, ◌>>◌}

-- `DefaultThresholds`
abbrev pub default_thresholds : List ℕ
default_thresholds = 14 ∷ 3 ∷ 1 ∷ []

-- The thresholds of `NewReminder`.
unfoldable pub thresholds_or_default : List ℕ → List ℕ
thresholds_or_default [] = default_thresholds
thresholds_or_default (d ∷ ds) = d ∷ ds

-- Whether the notifier takes the mail for a key, at a time.
abbrev pub Notifier : Type 0
Notifier = ℕ → ApiKey → ℕ → Bool

unfoldable pub notify : Notifier → ApiKey → ℕ → Exec Bool
notify n k days w = (ok (n w.tick k days), step w)

-- A mail that failed leaves no notice, so that the next run retries; a notice that cannot be recorded
-- is logged.
unfoldable pub after_mail : ApiKey → ℕ → Bool → Exec (Unit {0})
after_mail k days false = pure tt
after_mail k days true = do attempt (mark_expiry_notice_sent k.id days); pure tt

-- The inner loop.
unfoldable pub warn_all : Notifier → ℕ → List ExpiringKey → Exec (Unit {0})
unfolding notify after_mail
warn_all n days [] = pure tt
warn_all n days (x ∷ xs) = do
  taken ← notify n x.key days
  after_mail x.key days taken
  warn_all n days xs

unfoldable pub warn_found : Notifier → ℕ → Result (List ExpiringKey) → Exec (Option Error)
unfolding warn_all
warn_found n days (err e) = pure (some e)
warn_found n days (ok keys) = do warn_all n days keys; pure none

-- `Run` ends with the first failed query.
unfoldable pub and_then : Exec (Option Error) → Option Error → Exec (Option Error)
and_then later (some e) = pure (some e)
and_then later none = later

-- `Reminder.Run`, with the error that it returns.
unfoldable pub run : Notifier → List ℕ → Exec (Option Error)
unfolding warn_found and_then
run n [] = pure none
run n (days ∷ thresholds) = do
  keys ← attempt (keys_expiring_within days)
  found ← warn_found n days keys
  and_then (run n thresholds) found
