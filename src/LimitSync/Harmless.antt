-- ===== src/LimitSync/Harmless.antt =====
-- internal/limitsync/limitsync.go: what a whole run sends to the gateway.
use ai_self_service.Prelude.{
  ℕ, zero, suc, Bool, true, false, Option, none, some, List, [], ◌∷◌, All, ◌≡◌, refl, filter,
}
use ai_self_service.Keyprovider.{GatewayError, is_not_found}
use ai_self_service.Database.Models.{Time}
use ai_self_service.Database.Errors.{Error, Result, ok, err}
use ai_self_service.Database.Keys.{
  MissingKey, clear_key_missing, remove_missing_key, record_key_audit, list_missing_keys,
}
use ai_self_service.Database.Sessions.{record_audit}
use ai_self_service.Database.SyncQueries.{LimitSyncTarget, pending_limit_syncs}
use ai_self_service.Exec.{
  Exec, World, GatewayCall, update_limits, update_alias, check_key, delete_key, update_expiry,
  create_key,
}
use ai_self_service.Exec.Sends.{
  Silent, Sends, Silent-pure, Silent-query, Silent-statement, Silent-attempt, Silent-change,
  Silent-now, Silent-ctx_done, Silent-flagged_tx, Silent-bind, Silent-if, Sends-Silent, Sends-call,
  Sends-if, Sends-bind,
}
use ai_self_service.LimitSync.{Syncer, RunResult, sync_one}
use ai_self_service.LimitSync.Calls.{IsPush, sync_one-Sends}
use ai_self_service.LimitSync.Workers.{for_each}
use ai_self_service.LimitSync.Missing.{
  CheckResult, after_write, check_back, check_gone, settle_check, check_one, check_all,
  check_missing,
}
use ai_self_service.LimitSync.Run.{
  LoopState, Entry, Returned, sync_entry, sync_batch, leave, absorb, after_batch, push_fresh,
  untried, after_select, one_round, run_loop, after_check, run,
}

-- The calls after which the gateway has the keys that it had, and each expires when it did.
unfoldable pub keeps_keys : GatewayCall → Bool
keeps_keys (update_limits ref user l) = true
keeps_keys (update_alias ref alias) = true
keeps_keys (check_key ref) = true
keeps_keys (delete_key ref) = false
keeps_keys (update_expiry ref at) = false
keeps_keys (create_key alias user at l) = false

abbrev pub IsHarmless : GatewayCall → Type 0
IsHarmless c = keeps_keys c ≡ true

All-map :
    {A : Type 0} (P Q : A → Type 0) (xs : List A) → ((a : A) → P a → Q a) → All P xs → All Q xs
All-map P Q [] h k = tt
All-map P Q (x ∷ xs) h (p, k) = (h x p, All-map P Q xs h k)

push-IsHarmless :
    (s : Syncer) (t : LimitSyncTarget) (w : World) (c : GatewayCall)
    → IsPush s t w.db c
    → IsHarmless c
unfolding keeps_keys
push-IsHarmless s t w c (IsPush.pushed_limits id p e h) = refl
push-IsHarmless s t w c (IsPush.pushed_alias alias h) = refl

sync_one-IsHarmless :
    (s : Syncer) (t : LimitSyncTarget) (w : World) → Sends IsHarmless w (sync_one s t)
sync_one-IsHarmless s t w =
    let h = sync_one-Sends s t w in
    record {
      calls = h.calls;
      trace = h.trace;
      each = All-map _ _ h.calls (push-IsHarmless s t w) h.each;
    }

for_each-IsHarmless :
    {A B : Type 0} (act : A → Exec (B × Option Error)) (xs : List A) (w : World)
    → ((a : A) (v : World) → Sends IsHarmless v (act a))
    → Sends IsHarmless w (for_each act xs)
unfolding for_each
for_each-IsHarmless act [] w h = Sends-Silent w (Silent-pure _)
for_each-IsHarmless act (x ∷ xs) w h = Sends-bind w (Sends-Silent w Silent-ctx_done) (λ done q.
    Sends-if _ done (λ d. Sends-Silent _ (Silent-pure _))
      (λ d. Sends-bind _ (h x _) (λ r e.
        Sends-bind _ (for_each-IsHarmless act xs _ h) (λ rest f. Sends-Silent _ (Silent-pure _)))))

after_write-Silent : (r : CheckResult) (p : Bool × Option Error) → Silent (after_write r p)
unfolding after_write
after_write-Silent r (changed, some e) = Silent-bind Silent-ctx_done (λ done. Silent-pure _)
after_write-Silent r (true, none) = Silent-pure _
after_write-Silent r (false, none) = Silent-pure _

check_back-Silent : (m : MissingKey) → Silent (check_back m)
unfolding check_back clear_key_missing record_key_audit record_audit
check_back-Silent m =
    Silent-bind
      (Silent-flagged_tx (Silent-statement _) (Silent-bind Silent-now (λ t. Silent-change _)))
      (λ r. after_write-Silent _ r)

check_gone-Silent : (grace : Time) (m : MissingKey) → Silent (check_gone grace m)
unfolding check_gone remove_missing_key record_key_audit record_audit
check_gone-Silent grace m =
    Silent-bind (record { at = λ w. refl })
      (λ detail. Silent-bind Silent-now (λ at.
        Silent-bind
          (Silent-flagged_tx (Silent-statement _) (Silent-bind Silent-now (λ t. Silent-change _)))
          (λ r. after_write-Silent _ r)))

settle_check-Silent :
    (grace : Time) (m : MissingKey) (e : Option GatewayError) → Silent (settle_check grace m e)
unfolding settle_check
settle_check-Silent grace m none = check_back-Silent m
settle_check-Silent grace m (some e) =
    Silent-if (is_not_found e) (check_gone-Silent grace m) (Silent-pure _)

check_one-IsHarmless :
    (grace : Time) (m : MissingKey) (w : World) → Sends IsHarmless w (check_one grace m)
unfolding check_one keeps_keys
check_one-IsHarmless grace m w = Sends-bind w (Sends-call w _ refl) (λ answer q. Sends-Silent _ (
    Silent-bind Silent-ctx_done
      (λ done. Silent-if done (Silent-pure _) (settle_check-Silent grace m answer))))

check_all-IsHarmless :
    (grace : Time) (r : Result (List MissingKey)) (w : World)
    → Sends IsHarmless w (check_all grace r)
unfolding check_all
check_all-IsHarmless grace (err e) w = Sends-Silent w (Silent-pure _)
check_all-IsHarmless grace (ok ms) w =
    Sends-bind w
      (for_each-IsHarmless (check_one grace) ms w (λ m v. check_one-IsHarmless grace m v))
      (λ r q. Sends-Silent _ (Silent-pure _))

check_missing-IsHarmless : (grace : Time) (w : World) → Sends IsHarmless w (check_missing grace)
unfolding check_missing list_missing_keys
check_missing-IsHarmless grace w =
    Sends-bind w (Sends-Silent w (Silent-attempt (Silent-query _)))
      (λ listed q. check_all-IsHarmless grace listed _)

sync_batch-IsHarmless :
    (s : Syncer) (ts : List LimitSyncTarget) (w : World) → Sends IsHarmless w (sync_batch s ts)
unfolding sync_batch sync_entry
sync_batch-IsHarmless s ts w =
    for_each-IsHarmless _ ts w
      (λ t v. Sends-bind v (sync_one-IsHarmless s t v) (λ r q. Sends-Silent _ (Silent-pure _)))

leave-Silent : (res : RunResult) → Silent (leave res)
unfolding leave
leave-Silent res = Silent-bind Silent-ctx_done (λ done. Silent-pure _)

module _ (s : Syncer) (again : LoopState → Exec Returned)
    (h : (st : LoopState) (v : World) → Sends IsHarmless v (again st)) where
  after_batch-IsHarmless :
      (st : LoopState) (r : List Entry × Option Error) (w : World)
      → Sends IsHarmless w (after_batch again st r)
  unfolding after_batch
  after_batch-IsHarmless st (es, some e) w = Sends-Silent w (Silent-pure _)
  after_batch-IsHarmless st (es, none) w = h (absorb es st) w

  push_fresh-IsHarmless :
      (st : LoopState) (ts : List LimitSyncTarget) (w : World)
      → Sends IsHarmless w (push_fresh again s st ts)
  unfolding push_fresh
  push_fresh-IsHarmless st [] w = Sends-Silent w (leave-Silent st.counts)
  push_fresh-IsHarmless st (t ∷ ts) w =
      Sends-bind w (sync_batch-IsHarmless s (t ∷ ts) w) (λ r q. after_batch-IsHarmless st r _)

  after_select-IsHarmless :
      (st : LoopState) (r : Result (List LimitSyncTarget)) (w : World)
      → Sends IsHarmless w (after_select again s st r)
  unfolding after_select
  after_select-IsHarmless st (err e) w = Sends-Silent w (Silent-pure _)
  after_select-IsHarmless st (ok ts) w =
      push_fresh-IsHarmless st (filter (untried st.failed_ids) ts) w

  one_round-IsHarmless :
      (start : Time) (st : LoopState) (w : World) → Sends IsHarmless w (one_round again s start st)
  unfolding one_round pending_limit_syncs
  one_round-IsHarmless start st w = Sends-bind w (Sends-Silent w Silent-ctx_done) (λ done q.
      Sends-if _ done (λ d. Sends-Silent _ (leave-Silent st.counts))
        (λ d.
          Sends-bind _
            (Sends-Silent _ (Silent-attempt (Silent-bind Silent-now (λ t. Silent-query _))))
            (λ r e. after_select-IsHarmless st r _)))

run_loop-IsHarmless :
    (fuel : ℕ) (s : Syncer) (start : Time) (st : LoopState) (w : World)
    → Sends IsHarmless w (run_loop fuel s start st)
unfolding run_loop
run_loop-IsHarmless zero s start st w = Sends-Silent w (Silent-pure _)
run_loop-IsHarmless (suc fuel) s start st w =
    one_round-IsHarmless s (run_loop fuel s start) (λ st' v. run_loop-IsHarmless fuel s start st' v)
      start st w

after_check-IsHarmless :
    (fuel : ℕ) (s : Syncer) (r : ℕ × ℕ × Option Error) (w : World)
    → Sends IsHarmless w (after_check fuel s r)
unfolding after_check
after_check-IsHarmless fuel s (found, removed, some e) w = Sends-Silent w (Silent-pure _)
after_check-IsHarmless fuel s (found, removed, none) w =
    Sends-bind w (Sends-Silent w Silent-now) (λ start q. run_loop-IsHarmless fuel s start _ _)

-- However many rounds a run of the sync makes and whatever fails in it, every call that it makes
-- puts limits or an alias on a key or asks for a key: none creates or deletes a key or moves its expiry.
pub run-Sends : (fuel : ℕ) (s : Syncer) (w : World) → Sends IsHarmless w (run fuel s)
unfolding run
run-Sends fuel s w =
    Sends-bind w (check_missing-IsHarmless s.grace w) (λ r q. after_check-IsHarmless fuel s r _)
