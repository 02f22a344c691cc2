-- ===== src/LimitSync/Ends.antt =====
-- internal/limitsync/limitsync.go: a run of the sync comes to its end.
use ai_self_service.Prelude.{
  ℕ, zero, suc, ◌==◌, ◌≤◌, ◌<◌, ◌≡◌, refl, sym, ap, ◌∙◌, subst, arith, Bool, true, Option, none,
  some, List, [], ◌∷◌, filter, take, sort_by, length, count_if, All, All_map, All_both, All-filter,
  All-take, All-sort_by, All-passes, ◌⊎◌, inl, inr,
}
use ai_self_service.Database.Models.{Time}
use ai_self_service.Database.Errors.{Error, Result, ok, err}
use ai_self_service.Database.Tables.{Db}
use ai_self_service.Database.SyncQueries.{
  LimitSyncTarget, pending_rows, not_failed_since, sooner, pending_limit_syncs,
}
use ai_self_service.Exec.{Exec, World, step, now, attempt, ◌>>=◌}
use ai_self_service.Exec.Does.{
  From, Does, Stays, IsDone, From-trans, Stays-From, Does-pure, Does-if, Does-bind, Does-ctx_done,
  Does-now, Does-query,
}
use ai_self_service.LimitSync.{Syncer, RunResult}
use ai_self_service.LimitSync.Run.{
  Entry, LoopState, Returned, leave, absorb, after_batch, push_fresh, untried, after_select,
  one_round, run_loop, after_check, run, batch_size, counted,
}
use ai_self_service.LimitSync.Open.{Calms, Calms-trans, Fits, owners, open_keys, open_in}
use ai_self_service.LimitSync.Settled.{stepped}
use ai_self_service.LimitSync.Shrinks.{check_missing-Does}
use ai_self_service.LimitSync.Rounds.{
  Moved, batch-Does, IsKeyed, IsReady, pending_rows-IsReady, not_in, progress, some_open,
}

ok_lem : {A : Type 0} {a b : A} → (let r : Result A = ok a in r) ≡ ok b → a ≡ b
ok_lem e = ground arith

abbrev IsOut : Returned → World → Type 0
IsOut r v = (x : RunResult × Option Error) × (r ≡ some x)

leave-Does : (counts : RunResult) (w : World) → Does (leave counts) w IsOut
unfolding leave
leave-Does counts w =
    Does-bind {P = λ b v. Unit {0}} (Does-ctx_done w (λ b q. tt)) (λ b v p. Does-pure _ v (_, refl))

abbrev open_in_run : LoopState → World → ℕ
open_in_run st w = open_keys (not_in st.failed_ids) w.db

-- What the rest of the run is given: the context has ended, or there is less to do than before.
abbrev Goes : (LoopState → Exec Returned) → LoopState → World → Type 0
Goes again st w =
    (st' : LoopState) (v : World)
    → From Calms w v
    → 1 ≤ open_in_run st w
    → IsDone v ⊎ (open_in_run st' v < open_in_run st w)
    → Does (again st') v IsOut

module _ (s : Syncer) (start : Time) (again : LoopState → Exec Returned) (st : LoopState)
    (w : World) (stays : Stays w.env) (goes : Goes again st w) where
  after_batch-Does :
      (t : LimitSyncTarget) (r : List Entry × Option Error) (v : World)
      → From Calms w v
      → untried st.failed_ids t ≡ true
      → 1 ≤ open_keys (λ i. i == t.key_id) w.db
      → Moved t v r
      → Does (after_batch again st r) v IsOut
  unfolding after_batch absorb untried
  after_batch-Does t (es, some e) v f fresh here m = Does-pure _ v (_, refl)
  after_batch-Does t (es, none) v f fresh here m =
      goes _ v f (some_open st.failed_ids t.key_id w fresh here)
        (progress t st.failed_ids es w v f fresh here m)

  push_fresh-Does :
      (ts : List LimitSyncTarget) (v : World)
      → From Calms w v
      → All (λ t. (untried st.failed_ids t ≡ true) × IsReady w.db t) ts
      → v.db ≡ w.db
      → Does (push_fresh again s st ts) v IsOut
  unfolding push_fresh
  push_fresh-Does [] v f h same = leave-Does st.counts v
  push_fresh-Does (t ∷ ts) v f ((fresh, (fit, here)), rest) same =
      Does-bind
        (batch-Does s t ts v (Stays-From f stays) (subst (Fits t) (sym same) fit)
          (All_map _ _ ts (λ x (_, (k, _)). subst (Fits x) (sym same) k) rest))
        (λ r u (g, m). after_batch-Does t r u (From-trans Calms-trans f g) fresh here m)

  selected_IsReady :
      IsKeyed (owners w.db)
      → (at : Time) (limit : ℕ) (d : Db) → d ≡ w.db
      → All
          (IsReady w.db)
          (take limit (sort_by sooner (filter (not_failed_since start) (pending_rows at d))))
  selected_IsReady keyed at limit d same = All-take (IsReady w.db) limit _ (
      All-sort_by (IsReady w.db) sooner _ (
        All-filter (IsReady w.db) (not_failed_since start) (pending_rows at d) (
          subst (λ x. All (IsReady w.db) (pending_rows at x)) (sym same)
            (pending_rows-IsReady at w.db keyed))))

  abbrev Selected : Result (List LimitSyncTarget) → World → Type 0
  Selected r u =
      From Calms w u
      × (u.db ≡ w.db)
      × ((ts : List LimitSyncTarget) → r ≡ ok ts → All (IsReady w.db) ts)

  Selected-Does :
      IsKeyed (owners w.db)
      → (v : World) → From Calms w v
      → v.db ≡ w.db
      → Does (attempt (pending_limit_syncs start (batch_size s))) v Selected
  unfolding pending_limit_syncs attempt now ◌>>=◌
  Selected-Does keyed v f same =
      let at = v.env.clock v.tick in
      let g = From-trans Calms-trans f (From-trans Calms-trans (stepped v) (stepped (step v))) in
      let h =
        Does-query {Q = Selected}
          (λ d. ok (
            take (batch_size s)
              (sort_by sooner (filter (not_failed_since start) (pending_rows at d)))))
          (step v) (g, same, λ ts q. cc)
          (
            g,
            same,
            λ ts q.
                subst (λ x. All (IsReady w.db) x) (ok_lem q)
                  (selected_IsReady keyed at (batch_size s) v.db same),
          ) in
      record { value = h.value; returns = h.returns; post = h.post }

  after_select-Does :
      (r : Result (List LimitSyncTarget)) (v : World)
      → Selected r v
      → Does (after_select again s st r) v IsOut
  unfolding after_select
  after_select-Does (err e) v h = Does-pure _ v (_, refl)
  after_select-Does (ok ts) v (f, same, ready) =
      push_fresh-Does (filter (untried st.failed_ids) ts) v f
        (All_both _ _ (filter (untried st.failed_ids) ts) (All-passes (untried st.failed_ids) ts)
          (All-filter (IsReady w.db) (untried st.failed_ids) ts (ready ts refl)))
        same

  one_round-Does : IsKeyed (owners w.db) → Does (one_round again s start st) w IsOut
  unfolding one_round
  one_round-Does keyed =
      Does-bind {P = λ b v. From Calms w v × (v.db ≡ w.db)}
        (Does-ctx_done w (λ b q. (stepped w, refl)))
        (λ b v (f, same).
          Does-if b (λ q. leave-Does st.counts v)
            (λ q. Does-bind (Selected-Does keyed v f same) (λ r u h. after_select-Does r u h)))

-- A round that finds the context ended is the last.
last_round :
    (s : Syncer) (start : Time) (again : LoopState → Exec Returned) (st : LoopState) (w : World)
    → IsDone w
    → Does (one_round again s start st) w IsOut
unfolding one_round
last_round s start again st w done =
    Does-bind {P = λ b v. b ≡ true} (Does-ctx_done w (λ b q. sym q ∙ done))
      (λ b v e. Does-if b (λ q. leave-Does st.counts v) (λ q. absurd (ground (arith, e, q))))

still_enough :
    (fuel : ℕ) (s : Syncer) (st st' : LoopState) (w v : World)
    → IsDone v ⊎ (open_in_run st' v < open_in_run st w)
    → open_in_run st w < suc fuel
    → IsDone v ⊎ (open_in_run st' v < fuel)
still_enough fuel s st st' w v (inl done) enough = inl done
still_enough fuel s st st' w v (inr less) enough = inr (omega (arith, less, enough))

run_loop-Does :
    (fuel : ℕ) (s : Syncer) (start : Time) (st : LoopState) (w : World)
    → Stays w.env
    → IsKeyed (owners w.db)
    → 1 ≤ fuel
    → IsDone w ⊎ (open_in_run st w < fuel)
    → Does (run_loop fuel s start st) w IsOut
unfolding run_loop
run_loop-Does zero s start st w stays keyed some_fuel enough = absurd (omega (arith, some_fuel))
run_loop-Does (suc fuel) s start st w stays keyed some_fuel (inl done) =
    last_round s start (run_loop fuel s start) st w done
run_loop-Does (suc fuel) s start st w stays keyed some_fuel (inr enough) =
    one_round-Does s start (run_loop fuel s start) st w stays
      (λ st' v f some_work less.
        run_loop-Does fuel s start st' v (Stays-From f stays)
          (subst IsKeyed (sym f.tables.owned) keyed) (omega (arith, some_work, enough))
          (still_enough fuel s st st' w v less enough))
      keyed

count_if-length : {A : Type 0} (p : A → Bool) (xs : List A) → count_if p xs ≤ length xs
unfolding count_if
count_if-length p [] = omega arith
count_if-length p (x ∷ xs) = ground (arith, count_if-length p xs)

open_keys-length : (q : ℕ → Bool) (d : Db) → open_keys q d ≤ length d.keys
unfolding open_in
open_keys-length q d = count_if-length _ d.keys

after_check-Does :
    (fuel : ℕ) (s : Syncer) (r : ℕ × ℕ × Option Error) (w : World)
    → Stays w.env
    → IsKeyed (owners w.db)
    → length w.db.keys < fuel
    → Does (after_check fuel s r) w IsOut
unfolding after_check
after_check-Does fuel s (found, removed, some e) w stays keyed enough = Does-pure _ w (_, refl)
after_check-Does fuel s (found, removed, none) w stays keyed enough =
    let st : LoopState = record { failed_ids = []; counts = counted found removed } in
    let few = open_keys-length (not_in []) w.db in
    Does-bind {P = λ t v. v ≡ step w} (Does-now w (λ t. refl)) (λ start v e.
      subst (λ x. Does (run_loop fuel s start st) x IsOut) (sym e)
        (run_loop-Does fuel s start st (step w) stays keyed (omega (arith, enough))
          (inr (omega (arith, few, enough)))))

-- A run of the sync returns: where a context that has ended stays ended and no two rows of one id
-- have different owners, more rounds than there are keys are enough for it, whatever the database and
-- the gateway answer.
pub run-Returns :
    (fuel : ℕ) (s : Syncer) (w : World)
    → Stays w.env
    → IsKeyed (owners w.db)
    → length w.db.keys < fuel
    → (res : RunResult) × (e : Option Error) × ((run fuel s w).0 ≡ ok (some (res, e)))
unfolding run
run-Returns fuel s w stays keyed enough =
    let h = Does-bind (check_missing-Does s.grace w) (λ r v f.
      after_check-Does fuel s r v (Stays-From f stays) (f.tables.keyed keyed)
        (omega (arith, f.tables.fewer, enough))) in
    let (x, e) = h.post in (x.0, x.1, h.returns ∙ ap (λ (r : Returned). ok r) e)
