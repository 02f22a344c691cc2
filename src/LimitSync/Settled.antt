-- ===== src/LimitSync/Settled.antt =====
-- internal/limitsync/limitsync.go: what the push of one key comes to.
use ai_self_service.Prelude.{
  ℕ, count_if, ◌≡◌, refl, sym, ap, ◌∙◌, subst, arith, Bool, true, false, Option, none, some, List,
  String, ◌==◌, same_text, find?, find?_passes, ==_iff, if◌then◌else◌,
}
use ai_self_service.Keyprovider.{GatewayError, is_not_found, error_text}
use ai_self_service.Database.Models.{Profile, Time, AuditEvent, key_missing}
use ai_self_service.Database.Sessions.{record_audit}
use ai_self_service.Database.Errors.{Error, Result, ok, err}
use ai_self_service.Database.Tables.{Db}
use ai_self_service.Database.Keys.{unmarked, mark_key_missing, record_key_audit}
use ai_self_service.Database.Missing.{Settles, Marks, key_event, mark_key_missing-Settles}
use ai_self_service.Database.Profiles.Reads.{
  get_profile, profile_by_id, with_quotas, with_quotas?, or_no_rows,
}
use ai_self_service.Database.SyncQueries.{
  LimitSyncTarget, mark_limits_synced, mark_limit_sync_failed,
}
use ai_self_service.Alias.{new_alias}
use ai_self_service.Exec.{Exec, World, GatewayCall, step, call, ctx_done, random, ◌>>=◌}
use ai_self_service.Exec.Does.{
  From, Does, Stays, IsDone, From-trans, Stays-From, IsDone-From, Does-pure, Does-if, Does-weaken,
  Does-bind, Does-ctx_done, Does-now, Does-query, Does-change,
}
use ai_self_service.Exec.Onward.{
  Later, Onward-now, Onward-statement, Onward-change, Onward-bind, Onward-flagged_tx,
}
use ai_self_service.LimitSync.{
  Syncer, failed, Settled, fail, recorded, unless_done, failed_with, after_mark, mark_missing,
  push_failed, after_synced, record_synced, push_alias, settle_push, relabel, after_limits, push,
  with_profile, sync_for, sync_one, no_profile, shorten,
}
use ai_self_service.LimitSync.Open.{
  Calms, Calms-refl, Calms-trans, IsShut, IsShut-Calms, Fits, Fits-Calms, IsLoaded, settings,
  insert_event-Calms, failure-Calms, mark-Calms, mark-IsShut, synced-Calms, synced-IsShut,
}

-- How far a push is settled: the context has ended, or the key counts as failed, or it has not to be
-- pushed any more.
pub data IsSettled (t : LimitSyncTarget) (v : World) : Settled → Type 0 where
  stopped : (r : Settled) → IsDone v → IsSettled t v r
  given_up : (e : Option Error) → IsSettled t v (failed, true, e)
  shut : (r : Settled) → IsShut t.key_id v.db → IsSettled t v r

-- The push of a target, from a world on.
abbrev pub Settling : LimitSyncTarget → World → Settled → World → Type 0
Settling t w r v = From Calms w v × IsSettled t v r

pub From_refl : (w : World) → From Calms w w
From_refl w = record { env = refl; later = omega arith; tables = Calms-refl w.db }

-- A step that leaves the tables alone.
pub stepped : (w : World) → From Calms w (step w)
stepped w = record { env = refl; later = omega arith; tables = Calms-refl w.db }

pub after :
    {A : Type 0} {P : A → World → Type 0} {m : Exec A} (w v : World)
    → From Calms w v
    → Does m v (λ a u. From Calms v u × P a u)
    → Does m v (λ a u. From Calms w u × P a u)
after w v f h = Does-weaken h (λ a u (g, p). (From-trans Calms-trans f g, p))

loaded_lem :
    (t : LimitSyncTarget) (id : ℕ) (p : Profile) (d : Db) (o : Option Profile)
    → t.profile_id ≡ some id
    → find? (λ (r : Profile). r.id == id) d.profiles ≡ o
    → or_no_rows (with_quotas? d o) ≡ ok p
    → IsLoaded t p.id p.limits_rev (settings d)
unfolding with_quotas
loaded_lem t id p d none e found h = cc
loaded_lem t id p d (some r) e found h =
    let same : with_quotas d r ≡ p = ground (arith, h) in
    let is_id : p.id ≡ id =
      ap (λ (x : Profile). x.id) (sym same)
      ∙ (==_iff r.id id).0 (find?_passes (λ (x : Profile). x.id == id) d.profiles r found) in
    (
      e ∙ ap (λ n. some n) (sym is_id),
      (
        r,
        ap (λ n. find? (λ (x : Profile). x.id == n) d.profiles) is_id ∙ found,
        ap (λ (x : Profile). x.limits_rev) same,
      ),
    )

module _ (t : LimitSyncTarget) where
  recorded-Does :
      (r : Result (Unit {0})) (w : World) → Does (recorded r) w (λ e v. From Calms w v × Unit {0})
  unfolding recorded unless_done
  recorded-Does (ok u) w = Does-pure none w (From_refl w, tt)
  recorded-Does (err e) w =
      Does-bind (Does-ctx_done w (λ done q. stepped w)) (λ done v f. Does-pure _ v (f, tt))

  failed_with-Does : (reason : String) (w : World) → Does (failed_with t reason) w (Settling t w)
  unfolding failed_with fail mark_limit_sync_failed
  failed_with-Does reason w =
      Does-bind {P = λ e v. From Calms w v × Unit {0}}
        (Does-bind {P = λ at v. From Calms w v} (Does-now w (λ at. stepped w)) (λ at v f.
          Does-bind {P = λ r u. From Calms w u}
            (Does-change _ v (From-trans Calms-trans f (stepped v)) (
              From-trans Calms-trans f (record {
                env = refl;
                later = omega arith;
                tables = failure-Calms t.key_id (shorten reason) at v.db;
              })))
            (λ r u g. after w u g (recorded-Does r u))))
        (λ e v (f, _). Does-pure _ v (f, given_up e))

  -- What `MarkKeyMissing` comes to.
  abbrev Marking : World → Bool × Option Error → World → Type 0
  Marking w r v = From Calms w v × (r.1 ≡ none → IsShut t.key_id v.db)

  abbrev count_unmarked : Db → ℕ
  count_unmarked d = count_if (unmarked t.key_id) d.keys

  abbrev mark_event : String → Time → AuditEvent
  mark_event detail = key_event key_missing t.user_id t.email detail

  marking_lem :
      (w : World) (detail : String) (r : Result (Bool × Option Error) × World)
      → Later w r.1
      → Settles count_unmarked (Marks t.key_id) (mark_event detail) w.db r
      → (x : Bool × Option Error) × (r.0 ≡ ok x) × Marking w x r.1
  marking_lem w detail (err e, v) l h = absurd h
  marking_lem w detail (ok (flag, some e), v) l h = (
    (flag, some e),
    refl,
    (
      record {
        env = l.env;
        later = l.later;
        tables = subst (λ d. Calms w.db d) (sym h) (Calms-refl w.db);
      },
      λ q. cc,
    ),
  )
  marking_lem w detail (ok (false, none), v) l (met, (at, e)) = (
    (false, none),
    refl,
    (
      record {
        env = l.env;
        later = l.later;
        tables = subst (λ d. Calms w.db d) (sym e) (mark-Calms t.key_id at w.db);
      },
      λ q. subst (λ d. IsShut t.key_id d) (sym e) (mark-IsShut t.key_id at w.db),
    ),
  )
  marking_lem w detail (ok (true, none), v) l (met, d, (at, e), at', e') =
      let c = subst (λ x. Calms w.db x) (sym e) (mark-Calms t.key_id at w.db) in
      let k = subst (λ x. IsShut t.key_id x) (sym e) (mark-IsShut t.key_id at w.db) in
      let f = subst (λ x. Calms d x) (sym e') (insert_event-Calms _ d) in
      (
        (true, none),
        refl,
        (
          record { env = l.env; later = l.later; tables = Calms-trans _ _ _ c f },
          λ q. IsShut-Calms t.key_id d v.db f k,
        ),
      )

  mark_key_missing-Later :
      (detail : String) (w : World)
      → Later w (mark_key_missing t.key_id t.user_id t.email detail w).1
  unfolding mark_key_missing record_key_audit record_audit
  mark_key_missing-Later detail w =
      let h =
        Onward-flagged_tx (Onward-bind Onward-now (λ at. Onward-statement _))
          (Onward-bind Onward-now (λ at. Onward-change _)) in
      h.at w

  mark_key_missing-Does :
      (detail : String) (w : World)
      → Does (mark_key_missing t.key_id t.user_id t.email detail) w (Marking w)
  mark_key_missing-Does detail w =
      let (x, e, h) =
        marking_lem w detail _ (mark_key_missing-Later detail w)
          (mark_key_missing-Settles t.key_id t.user_id t.email detail w) in
      record { value = x; returns = e; post = h }

  settled_if :
      (b : Bool) (v : World) (x y : Settled)
      → (b ≡ true → IsSettled t v x)
      → (b ≡ false → IsSettled t v y)
      → IsSettled t v (if b then x else y)
  settled_if true v x y h k = h refl
  settled_if false v x y h k = k refl

  module _ (w : World) (stays : Stays w.env) where
    -- Asking whether the context has ended.
    check :
        {f : Bool → Exec Settled} (v : World)
        → From Calms w v
        → ((b : Bool) (u : World)
            → From Calms w u
            → (b ≡ true → IsDone u)
            → Does (f b) u (Settling t w))
        → Does (ctx_done >>= f) v (Settling t w)
    check v f h =
        Does-bind {P = λ b u. From Calms w u × (b ≡ true → IsDone u)}
          (Does-ctx_done v (λ b q. (
            From-trans Calms-trans f (stepped v),
            λ d. IsDone-From (stepped v) (Stays-From f stays) (q ∙ d),
          )))
          (λ b u (g, d). h b u g d)

    after_mark-Does :
        (r : Bool × Option Error) (v : World) → Marking w r v → Does (after_mark r) v (Settling t w)
    unfolding after_mark
    after_mark-Does (newly, none) v (f, h) = Does-pure _ v (f, shut _ (h refl))
    after_mark-Does (newly, some e) v (f, h) = check v f (λ b u g d.
        Does-pure _ u (g, settled_if b u _ _ (λ q. stopped _ (d q)) (λ q. given_up (some e))))

    mark_missing-Does : Does (mark_missing t) w (Settling t w)
    unfolding mark_missing
    mark_missing-Does = Does-bind (mark_key_missing-Does _ w) (λ r v h. after_mark-Does r v h)

    after_synced-Does :
        (r : Result (Unit {0})) (v : World)
        → From Calms w v
        → (r ≡ ok tt → IsShut t.key_id v.db)
        → Does (after_synced r) v (Settling t w)
    unfolding after_synced
    after_synced-Does (ok u) v f h = Does-pure _ v (f, shut _ (h refl))
    after_synced-Does (err e) v f h = check v f (λ b u g d.
        Does-pure _ u (g, settled_if b u _ _ (λ q. stopped _ (d q)) (λ q. given_up (some e))))

  failed_after :
      (w v : World) (reason : String)
      → From Calms w v
      → Does (failed_with t reason) v (Settling t w)
  failed_after w v reason f = after w v f (failed_with-Does reason v)

  push_failed-Does :
      (w v : World) (e : GatewayError)
      → Stays w.env
      → From Calms w v
      → Does (push_failed t e) v (Settling t w)
  unfolding push_failed
  push_failed-Does w v e stays f = check w stays v f (λ b u g d.
      Does-if b (λ q. Does-pure _ u (g, stopped _ (d q)))
        (λ q.
          Does-if (is_not_found e) (λ _. after w u g (mark_missing-Does u (Stays-From g stays)))
            (λ _. failed_after w u (error_text e) g)))

  module _ (p : Profile) (w : World) (stays : Stays w.env) (fits : Fits t w.db)
      (loaded : IsLoaded t p.id p.limits_rev (settings w.db)) where
    record_synced-Does : (v : World) → From Calms w v → Does (record_synced t p) v (Settling t w)
    unfolding record_synced mark_limits_synced
    record_synced-Does v f =
        let fits' = Fits-Calms t w.db v.db f.tables fits in
        let loaded' = subst (λ s. IsLoaded t p.id p.limits_rev s) (sym f.tables.kept) loaded in
        Does-bind {P = λ r u. From Calms w u × (r ≡ ok tt → IsShut t.key_id u.db)}
          (Does-change _ v (From-trans Calms-trans f (stepped v), λ q. cc)
            (
              From-trans Calms-trans f (record {
                env = refl;
                later = omega arith;
                tables = synced-Calms t p.id p.limits_rev v.db loaded' fits';
              }),
              λ q. synced-IsShut t p.id p.limits_rev v.db loaded' fits',
            ))
          (λ r u (g, h). after_synced-Does w stays r u g h)

    settle_push-Does :
        (e : Option GatewayError) (v : World)
        → From Calms w v
        → Does (settle_push t p e) v (Settling t w)
    unfolding settle_push
    settle_push-Does none v f = record_synced-Does v f
    settle_push-Does (some e) v f = push_failed-Does w v e stays f

    called :
        (c : GatewayCall) (v : World) → From Calms w v → Does (call c) v (λ e u. From Calms w u)
    unfolding call
    called c v f = record {
      value = _;
      returns = refl;
      post =
          From-trans Calms-trans f
            (record { env = refl; later = omega arith; tables = Calms-refl v.db });
    }

    push_alias-Does :
        (alias : Option (List ℕ)) (v : World)
        → From Calms w v
        → Does (push_alias t alias) v (λ e u. From Calms w u)
    unfolding push_alias
    push_alias-Does none v f = Does-pure _ v f
    push_alias-Does (some alias) v f = called _ v f

    relabel-Does : (v : World) → From Calms w v → Does (relabel t p) v (Settling t w)
    unfolding relabel new_alias random
    relabel-Does v f =
        Does-if (same_text t.synced_owner_name (some t.name)) (λ _. record_synced-Does v f)
          (λ _.
            Does-bind {P = λ a u. From Calms w u}
              (Does-bind {P = λ a u. From Calms w u}
                (record { value = _; returns = refl; post = From-trans Calms-trans f (stepped v) })
                (λ hex u g. Does-pure _ u g))
              (λ alias u g.
                Does-bind (push_alias-Does alias u g) (λ answer x k. settle_push-Does answer x k)))

    after_limits-Does :
        (e : Option GatewayError) (v : World)
        → From Calms w v
        → Does (after_limits t p e) v (Settling t w)
    unfolding after_limits
    after_limits-Does none v f = relabel-Does v f
    after_limits-Does (some e) v f = push_failed-Does w v e stays f

    push-Does : (s : Syncer) (v : World) → From Calms w v → Does (push s t p) v (Settling t w)
    unfolding push
    push-Does s v f = Does-bind (called _ v f) (λ e u g. after_limits-Does e u g)

  module _ (s : Syncer) (w : World) (stays : Stays w.env) (fits : Fits t w.db) where
    with_profile-Does :
        (id : ℕ) (r : Result Profile)
        → t.profile_id ≡ some id
        → (v : World) → From Calms w v
        → ((p : Profile) → r ≡ ok p → profile_by_id id w.db ≡ ok p)
        → Does (with_profile s t id r) v (Settling t w)
    unfolding with_profile profile_by_id
    with_profile-Does id (ok p) e v f h =
        push-Does p w stays fits (loaded_lem t id p w.db _ e refl (h p refl)) s v f
    with_profile-Does id (err x) e v f h = check w stays v f (λ b u g d.
        Does-if b (λ q. Does-pure _ u (g, stopped _ (d q)))
          (λ q.
            Does-bind {P = λ a x. From Calms w x} (record { value = _; returns = refl; post = g })
              (λ reason x k. failed_after w x reason k)))

    sync_for-Does : (o : Option ℕ) → t.profile_id ≡ o → Does (sync_for s t o) w (Settling t w)
    unfolding sync_for get_profile
    sync_for-Does none e = failed_with-Does no_profile w
    sync_for-Does (some id) e =
        Does-bind
          {P = λ r v. From Calms w v × ((p : Profile) → r ≡ ok p → profile_by_id id w.db ≡ ok p)}
          (Does-query (profile_by_id id) w (stepped w, λ p q. cc) (stepped w, λ p q. q))
          (λ r v (f, h). with_profile-Does id r e v f h)

    -- The push of one key returns, and settles the key or finds the context ended.
    pub sync_one-Does : Does (sync_one s t) w (Settling t w)
    unfolding sync_one
    sync_one-Does = sync_for-Does t.profile_id refl
