-- ===== src/LimitSync/Run.antt =====
-- internal/limitsync/limitsync.go: a run of the sync.
use ai_self_service.Prelude.{
  ℕ, zero, suc, ◌*◌, max, Bool, true, false, not, Option, none, some, List, [], ◌∷◌, ◌==◌,
  if◌then◌else◌, any, filter,
}
use ai_self_service.Database.Models.{Time}
use ai_self_service.Database.Errors.{Error, Result, ok, err, context_done}
use ai_self_service.Database.SyncQueries.{LimitSyncTarget, pending_limit_syncs}
use ai_self_service.Exec.{Exec, pure, now, ctx_done, attempt, ◌>>=◌}
use ai_self_service.LimitSync.{Syncer, RunResult, Outcome, synced, failed, marked, sync_one}
use ai_self_service.LimitSync.Workers.{for_each}
use ai_self_service.LimitSync.Missing.{check_missing}

-- One key's entry of the `outcomes` map, if the push was attempted.
abbrev pub Entry : Type 0
Entry = Option (ℕ × Outcome)

unfoldable pub entry_for : LimitSyncTarget → Outcome × Bool × Option Error → Entry × Option Error
entry_for t (o, true, e) = (some (t.key_id, o), e)
entry_for t (o, false, e) = (none, e)

unfoldable pub sync_entry : Syncer → LimitSyncTarget → Exec (Entry × Option Error)
unfolding entry_for
sync_entry s t = do r ← sync_one s t; pure (entry_for t r)

-- `syncBatch`
unfoldable pub sync_batch : Syncer → List LimitSyncTarget → Exec (List Entry × Option Error)
unfolding sync_entry
sync_batch s batch = for_each (sync_entry s) batch

unfoldable pub count_entry : Entry → RunResult → RunResult
count_entry none res = res
count_entry (some (id, synced)) res = record res { synced = suc res.synced }
count_entry (some (id, marked)) res = record res { marked = suc res.marked }
count_entry (some (id, failed)) res = record res { failed = suc res.failed }

unfoldable pub count_entries : List Entry → RunResult → RunResult
unfolding count_entry
count_entries [] res = res
count_entries (e ∷ es) res = count_entries es (count_entry e res)

unfoldable pub add_failed : Entry → List ℕ → List ℕ
add_failed (some (id, failed)) ids = id ∷ ids
add_failed _ ids = ids

-- The set `failedThisRun` after a batch.
unfoldable pub add_all_failed : List Entry → List ℕ → List ℕ
unfolding add_failed
add_all_failed [] ids = ids
add_all_failed (e ∷ es) ids = add_all_failed es (add_failed e ids)

unfoldable pub untried : List ℕ → LimitSyncTarget → Bool
untried ids t = not (any (λ (id : ℕ). id == t.key_id) ids)

-- What `Run` returns: `none` where the model's fuel ran out.
abbrev pub Returned : Type 0
Returned = Option (RunResult × Option Error)

unfoldable pub leave : RunResult → Exec Returned
leave res = do done ← ctx_done; pure (some (res, (if done then some context_done else none)))

unfoldable pub batch_size : Syncer → ℕ
batch_size s = max 50 (s.workers * 10)

-- The variables of the loop of `Run`: the ids that failed in this run, and the counts so far.
pub record LoopState : Type 0 where
  pub failed_ids : List ℕ
  pub counts : RunResult

unfoldable pub absorb : List Entry → LoopState → LoopState
unfolding count_entries add_all_failed
absorb entries st = record {
  failed_ids = add_all_failed entries st.failed_ids;
  counts = count_entries entries st.counts;
}

-- After a batch: an error that could not be recorded ends the run.
unfoldable pub after_batch :
    (LoopState → Exec Returned) → LoopState → List Entry × Option Error → Exec Returned
unfolding absorb
after_batch again st (entries, some e) = pure (some ((absorb entries st).counts, some e))
after_batch again st (entries, none) = again (absorb entries st)

unfoldable pub push_fresh :
    (LoopState → Exec Returned) → Syncer → LoopState → List LimitSyncTarget → Exec Returned
unfolding leave after_batch
push_fresh again s st [] = leave st.counts
push_fresh again s st (t ∷ ts) = do r ← sync_batch s (t ∷ ts); after_batch again st r

unfoldable pub after_select :
    (LoopState → Exec Returned) → Syncer → LoopState → Result (List LimitSyncTarget) → Exec Returned
unfolding untried push_fresh
after_select again s st (err e) = pure (some (st.counts, some e))
after_select again s st (ok batch) = push_fresh again s st (filter (untried st.failed_ids) batch)

-- The body of the loop, over what goes on with the next round.
unfoldable pub one_round : (LoopState → Exec Returned) → Syncer → Time → LoopState → Exec Returned
unfolding leave after_select batch_size
one_round again s start st = do
  done ← ctx_done
  if done then leave st.counts else do
    selected ← attempt (pending_limit_syncs start (batch_size s))
    after_select again s st selected

unfoldable pub run_loop : ℕ → Syncer → Time → LoopState → Exec Returned
unfolding one_round
run_loop zero s start st = pure none
run_loop (suc fuel) s start st = one_round (run_loop fuel s start) s start st

abbrev pub counted : ℕ → ℕ → RunResult
counted found removed = record {
  synced = 0;
  failed = 0;
  marked = 0;
  found = found;
  removed = removed;
}

unfoldable pub after_check : ℕ → Syncer → ℕ × ℕ × Option Error → Exec Returned
unfolding run_loop
after_check fuel s (found, removed, some e) = pure (some (counted found removed, some e))
after_check fuel s (found, removed, none) = do
  start ← now
  run_loop fuel s start (record { failed_ids = []; counts = counted found removed })

-- `Run`, with fuel for the rounds of its loop.
unfoldable pub run : ℕ → Syncer → Exec Returned
unfolding after_check check_missing
run fuel s = do r ← check_missing s.grace; after_check fuel s r
