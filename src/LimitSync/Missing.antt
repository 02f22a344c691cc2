-- ===== src/LimitSync/Missing.antt =====
-- internal/limitsync/limitsync.go: the check of the keys that are marked as missing.
use ai_self_service.Prelude.{
  ℕ, ◌-◌, String, concat, Bool, true, false, Option, none, some, List, [], ◌∷◌, if◌then◌else◌,
  count_if,
}
use ai_self_service.Keyprovider.{GatewayError, is_not_found}
use ai_self_service.Database.Models.{Time}
use ai_self_service.Database.Errors.{Error, Result, ok, err}
use ai_self_service.Database.Keys.{
  MissingKey, clear_key_missing, remove_missing_key, list_missing_keys,
}
use ai_self_service.Exec.{Exec, check_key, pure, call, now, ctx_done, attempt, ◌>>=◌}
use ai_self_service.LimitSync.Workers.{for_each}

-- `checkResult`
pub data CheckResult : Type 0 where
  check_kept check_found check_removed : CheckResult

abbrev pub Checked : Type 0
Checked = CheckResult × Option Error

-- The end of `checkOne`'s two branches that write: an error counts unless the context has ended.
unfoldable pub after_write : CheckResult → Bool × Option Error → Exec Checked
after_write result (changed, some e) = do
  done ← ctx_done
  pure (check_kept, (if done then none else some e))
after_write result (true, none) = pure (result, none)
after_write result (false, none) = pure (check_kept, none)

abbrev pub stayed_detail : Time → MissingKey → Exec String
stayed_detail grace m w =
    let env = w.env in
    (
      ok (
          concat (
            "key "
            ∷ m.key_prefix
            ∷ " stayed missing from the gateway since "
            ∷ env.format_time m.missing_since
            ∷ ", past the grace period of "
            ∷ env.format_duration grace
            ∷ [])),
      w,
    )

unfoldable pub check_back : MissingKey → Exec Checked
unfolding after_write
check_back m = do
  r ←
      clear_key_missing m.key_id m.user_id m.email
        (concat ("key " ∷ m.key_prefix ∷ " is in the gateway again" ∷ []))
  after_write check_found r

-- `time.Now().Add(-s.grace)`: no grace period reaches back to year 1.
unfoldable pub check_gone : Time → MissingKey → Exec Checked
unfolding after_write
check_gone grace m = do
  detail ← stayed_detail grace m
  at ← now
  r ← remove_missing_key m.key_id m.user_id m.email detail (at - grace)
  after_write check_removed r

unfoldable pub settle_check : Time → MissingKey → Option GatewayError → Exec Checked
unfolding check_back check_gone
settle_check grace m none = check_back m
settle_check grace m (some e) =
    if is_not_found e then check_gone grace m else pure (check_kept, none)

-- `checkOne`
unfoldable pub check_one : Time → MissingKey → Exec Checked
unfolding settle_check
check_one grace m = do
  answer ← call (check_key m.key_ref)
  done ← ctx_done
  if done then pure (check_kept, none) else settle_check grace m answer

abbrev pub is_found : CheckResult → Bool
is_found check_found = true
is_found _ = false

abbrev pub is_removed : CheckResult → Bool
is_removed check_removed = true
is_removed _ = false

unfoldable pub check_all : Time → Result (List MissingKey) → Exec (ℕ × ℕ × Option Error)
unfolding check_one for_each
check_all grace (err e) = pure (0, 0, some e)
check_all grace (ok ms) = do
  r ← for_each (check_one grace) ms
  pure (count_if is_found r.0, count_if is_removed r.0, r.1)

-- `checkMissing`: how many keys it unmarked, how many it removed, and an error.
unfoldable pub check_missing : Time → Exec (ℕ × ℕ × Option Error)
unfolding check_all
check_missing grace = do listed ← attempt list_missing_keys; check_all grace listed
