-- ===== src/LimitSync/Shrinks.antt =====
-- internal/limitsync/limitsync.go: the check of the missing keys returns, and adds no key.
use ai_self_service.Prelude.{
  ℕ, suc, String, ◌≤◌, ◌≡◌, refl, sym, ap, subst, arith, Bool, true, false, Option, none, some,
  List, [], ◌∷◌, map, not, filter, length, count_if, update_if, delete_if, All, All_map, All-filter,
  All-map, All_unmap,
}
use ai_self_service.Keyprovider.{GatewayError, is_not_found}
use ai_self_service.Database.Models.{ApiKey, Time, AuditEvent, key_found, key_gone}
use ai_self_service.Database.Errors.{Error, Result, ok, err}
use ai_self_service.Database.Tables.{Db, update_keys, delete_keys, insert_event}
use ai_self_service.Database.Keys.{
  MissingKey, is_marked, missing_before, clear_key_missing, remove_missing_key, list_missing_keys,
  record_key_audit,
}
use ai_self_service.Database.Sessions.{record_audit}
use ai_self_service.Database.Missing.{
  Settles, Unmarks, Removes, key_event, clear_key_missing-Settles, remove_missing_key-Settles,
}
use ai_self_service.Exec.{World, step, call}
use ai_self_service.Exec.Does.{
  From, Does, From-trans, Does-pure, Does-if, Does-bind, Does-ctx_done, Does-now, Does-query,
}
use ai_self_service.Exec.Onward.{
  Later, Onward-now, Onward-statement, Onward-change, Onward-bind, Onward-flagged_tx,
}
use ai_self_service.LimitSync.Workers.{for_each}
use ai_self_service.LimitSync.Missing.{
  CheckResult, after_write, check_back, check_gone, settle_check, check_one, check_all,
  check_missing,
}
use ai_self_service.LimitSync.Open.{owners, id_and_owner, owners-update_if}
use ai_self_service.LimitSync.Rounds.{IsKeyed}

-- What the check of the missing keys does to the rows: there are no more of them, and no two get one
-- id.
pub record Shrinks (d d' : Db) : Type 0 where
  pub fewer : length d'.keys ≤ length d.keys
  pub keyed : IsKeyed (owners d) → IsKeyed (owners d')

Shrinks-refl : (d : Db) → Shrinks d d
Shrinks-refl d = record { fewer = omega arith; keyed = λ h. h }

Shrinks-trans : (a b c : Db) → Shrinks a b → Shrinks b c → Shrinks a c
Shrinks-trans a b c f g = record {
  fewer = omega (arith, f.fewer, g.fewer);
  keyed = λ h. g.keyed (f.keyed h);
}

All-deleted :
    (P : ℕ × ℕ → Type 0) (p : ApiKey → Bool) (keys : List ApiKey)
    → All P (map id_and_owner keys)
    → All P (map id_and_owner (delete_if p keys))
unfolding delete_if
All-deleted P p keys h =
    All-map P id_and_owner (delete_if p keys)
      (All-filter (λ k. P (id_and_owner k)) (λ k. not (p k)) keys (All_unmap P id_and_owner keys h))

length-delete_if : {A : Type 0} (p : A → Bool) (xs : List A) → length (delete_if p xs) ≤ length xs
unfolding delete_if filter
length-delete_if p [] = omega arith
length-delete_if p (x ∷ xs) = ground (arith, length-delete_if p xs)

length-update_if :
    {A : Type 0} (p : A → Bool) (f : A → A) (xs : List A) → length (update_if p f xs) ≡ length xs
unfolding update_if
length-update_if p f [] = refl
length-update_if p f (x ∷ xs) = ap (λ n. suc n) (length-update_if p f xs)

delete-Shrinks : (p : ApiKey → Bool) (d : Db) → Shrinks d (delete_keys p d)
unfolding delete_keys
delete-Shrinks p d = record {
  fewer = length-delete_if p d.keys;
  keyed = λ h.
      All_map _ _ (map id_and_owner (delete_if p d.keys)) (λ a k. All-deleted _ p d.keys k)
        (All-deleted _ p d.keys h);
}

unmark-Shrinks :
    (id : ℕ) (d : Db)
    → Shrinks d
        (update_keys (is_marked id) (λ k. record k { missing_since = none; synced_rev = none }) d)
unfolding update_keys
unmark-Shrinks id d = record {
  fewer = omega (
    arith,
    length-update_if (is_marked id) (λ k. record k { missing_since = none; synced_rev = none })
        d.keys,
  );
  keyed = λ h. subst IsKeyed (sym (owners-update_if (is_marked id) _ d.keys (λ k. ground arith))) h;
}

event-Shrinks : (e : AuditEvent) (d : Db) → Shrinks d (insert_event e d)
unfolding insert_event
event-Shrinks e d = record { fewer = omega arith; keyed = λ h. h }

-- What a transaction with a flag returns, where the change of rows shrinks the tables.
settles_lem :
    (met : Db → ℕ) (Changes : Db → Db → Type 0) (event : Time → AuditEvent) (w : World)
    (r : Result (Bool × Option Error) × World)
    → ((d : Db) → Changes w.db d → Shrinks w.db d)
    → Later w r.1
    → Settles met Changes event w.db r
    → (x : Bool × Option Error) × (r.0 ≡ ok x) × From Shrinks w r.1
settles_lem met Changes event w (err e, v) h l c = absurd c
settles_lem met Changes event w (ok (flag, some e), v) h l c = (
  (flag, some e),
  refl,
  record {
    env = l.env;
    later = l.later;
    tables = subst (λ d. Shrinks w.db d) (sym c) (Shrinks-refl w.db);
  },
)
settles_lem met Changes event w (ok (false, none), v) h l (m, c) =
    ((false, none), refl, record { env = l.env; later = l.later; tables = h v.db c })
settles_lem met Changes event w (ok (true, none), v) h l (m, d, c, at, e) = (
  (true, none),
  refl,
  record {
    env = l.env;
    later = l.later;
    tables =
        Shrinks-trans _ _ _ (h d c) (subst (λ x. Shrinks d x) (sym e) (event-Shrinks (event at) d));
  },
)

unmark-Does :
    (id owner : ℕ) (email detail : String) (w : World)
    → Does (clear_key_missing id owner email detail) w (λ r v. From Shrinks w v)
unfolding clear_key_missing record_key_audit record_audit
unmark-Does id owner email detail w =
    let (x, e, f) =
      settles_lem (λ d. count_if (is_marked id) d.keys) (Unmarks id)
        (key_event key_found owner email detail) w _
        (λ d c. subst (λ y. Shrinks w.db y) (sym c) (unmark-Shrinks id w.db))
        (let o =
            Onward-flagged_tx (Onward-statement _)
              (Onward-bind Onward-now (λ at. Onward-change _)) in
          o.at w)
        (clear_key_missing-Settles id owner email detail w) in
    record { value = x; returns = e; post = f }

remove-Does :
    (id owner : ℕ) (email detail : String) (before : Time) (w : World)
    → Does (remove_missing_key id owner email detail before) w (λ r v. From Shrinks w v)
unfolding remove_missing_key record_key_audit record_audit
remove-Does id owner email detail before w =
    let (x, e, f) =
      settles_lem (λ d. count_if (missing_before id before) d.keys) (Removes id before)
        (key_event key_gone owner email detail) w _
        (λ d c.
          subst (λ y. Shrinks w.db y) (sym c) (delete-Shrinks (missing_before id before) w.db))
        (let o =
            Onward-flagged_tx (Onward-statement _)
              (Onward-bind Onward-now (λ at. Onward-change _)) in
          o.at w)
        (remove_missing_key-Settles id owner email detail before w) in
    record { value = x; returns = e; post = f }

tick_on : (w : World) → From Shrinks w (step w)
tick_on w = record { env = refl; later = omega arith; tables = Shrinks-refl w.db }

From_same : (w : World) → From Shrinks w w
From_same w = record { env = refl; later = omega arith; tables = Shrinks-refl w.db }

module _ (w : World) where
  after_write-Does :
      (c : CheckResult) (r : Bool × Option Error) (v : World)
      → From Shrinks w v
      → Does (after_write c r) v (λ x u. From Shrinks w u)
  unfolding after_write
  after_write-Does c (true, none) v f = Does-pure _ v f
  after_write-Does c (false, none) v f = Does-pure _ v f
  after_write-Does c (changed, some e) v f =
      Does-bind (Does-ctx_done v (λ b q. From-trans Shrinks-trans f (tick_on v)))
        (λ b u g. Does-pure _ u g)

  settle_check-Does :
      (grace : Time) (m : MissingKey) (e : Option GatewayError) (v : World)
      → From Shrinks w v
      → Does (settle_check grace m e) v (λ x u. From Shrinks w u)
  unfolding settle_check check_back check_gone
  settle_check-Does grace m none v f =
      Does-bind (unmark-Does m.key_id m.user_id m.email _ v)
        (λ r u g. after_write-Does _ r u (From-trans Shrinks-trans f g))
  settle_check-Does grace m (some e) v f =
      Does-if (is_not_found e)
        (λ q.
          Does-bind {P = λ a x. From Shrinks w x} (record { value = _; returns = refl; post = f })
            (λ detail x k.
              Does-bind {P = λ a y. From Shrinks w y}
                (Does-now x (λ at. From-trans Shrinks-trans k (tick_on x)))
                (λ at y g.
                  Does-bind (remove-Does m.key_id m.user_id m.email detail _ y)
                    (λ r u g'. after_write-Does _ r u (From-trans Shrinks-trans g g')))))
        (λ q. Does-pure _ v f)

check_one-Does :
    (grace : Time) (m : MissingKey) (w : World)
    → Does (check_one grace m) w (λ x u. From Shrinks w u)
unfolding check_one call
check_one-Does grace m w =
    Does-bind {P = λ a v. From Shrinks w v}
      (record {
        value = _;
        returns = refl;
        post = record { env = refl; later = omega arith; tables = Shrinks-refl w.db };
      })
      (λ answer v f.
        Does-bind {P = λ b u. From Shrinks w u}
          (Does-ctx_done v (λ b q. From-trans Shrinks-trans f (tick_on v)))
          (λ b u g. Does-if b (λ q. Does-pure _ u g) (λ q. settle_check-Does w grace m answer u g)))

checks-Does :
    (grace : Time) (ms : List MissingKey) (w : World)
    → Does (for_each (check_one grace) ms) w (λ x u. From Shrinks w u)
unfolding for_each
checks-Does grace [] w = Does-pure _ w (From_same w)
checks-Does grace (m ∷ ms) w =
    Does-bind {P = λ b v. From Shrinks w v} (Does-ctx_done w (λ b q. tick_on w)) (λ b v f.
      Does-if b (λ q. Does-pure _ v f)
        (λ q. Does-bind (check_one-Does grace m v) (λ r u g.
          Does-bind (checks-Does grace ms u) (λ rest x h.
            Does-pure _ x (From-trans Shrinks-trans f (From-trans Shrinks-trans g h))))))

check_all-Does :
    (grace : Time) (r : Result (List MissingKey)) (w v : World)
    → From Shrinks w v
    → Does (check_all grace r) v (λ x u. From Shrinks w u)
unfolding check_all
check_all-Does grace (err e) w v f = Does-pure _ v f
check_all-Does grace (ok ms) w v f =
    Does-bind (checks-Does grace ms v) (λ r u g. Does-pure _ u (From-trans Shrinks-trans f g))

pub check_missing-Does :
    (grace : Time) (w : World) → Does (check_missing grace) w (λ x u. From Shrinks w u)
unfolding check_missing list_missing_keys
check_missing-Does grace w =
    Does-bind {P = λ r v. From Shrinks w v} (Does-query _ w (tick_on w) (tick_on w))
      (λ r v f. check_all-Does grace r w v f)
