-- ===== src/LimitSync/Rounds.antt =====
-- internal/limitsync/limitsync.go: a round of the sync leaves fewer keys to push than it found.
use ai_self_service.Prelude.{
  ℕ, ◌≤◌, ◌<◌, ◌≡◌, refl, sym, ap, ◌∙◌, subst, arith, Bool, true, false, not, ◌&&◌, Option, none,
  some, List, [], ◌∷◌, ◌==◌, any, count_if, find?, All, All_map, All_both, All-flat_map, All_unmap,
  All-counted, if◌then◌else◌, count_if_mono, count_if_split, ==_iff, ==_refl, Bool-cases, inl, inr,
  ◌⊎◌,
}
use ai_self_service.Database.Models.{ApiKey, User, Time}
use ai_self_service.Database.Errors.{Error}
use ai_self_service.Database.Tables.{Db}
use ai_self_service.Database.Keys.{owner_of}
use ai_self_service.Database.SyncQueries.{
  LimitSyncTarget, pending_rows, pending_row, effective_id, default_id, find_profile, out_of_date,
  is_live, target,
}
use ai_self_service.Exec.{World}
use ai_self_service.Exec.Does.{
  From, Does, Stays, IsDone, From-trans, Stays-From, IsDone-From, Does-pure, Does-if, Does-bind,
  Does-ctx_done, Does-weaken,
}
use ai_self_service.LimitSync.{Syncer, synced, failed, marked, Settled}
use ai_self_service.LimitSync.Workers.{for_each, first_error}
use ai_self_service.LimitSync.Run.{
  Entry, entry_for, sync_entry, sync_batch, add_failed, add_all_failed,
}
use ai_self_service.LimitSync.Open.{
  Calms, Calms-trans, IsShut, IsShut-Calms, Fits, Fits-Calms, settings, owners, id_and_owner,
  is_open, is_open_for, open_in, open_keys,
}
use ai_self_service.LimitSync.Settled.{
  IsSettled, stopped, given_up, shut, Settling, sync_one-Does, From_refl, stepped,
}

-- The ids that have not failed in this run.
abbrev pub not_in : List ℕ → ℕ → Bool
not_in ids i = not (any (λ (id : ℕ). id == i) ids)

has : List ℕ → ℕ → Bool
has ids i = any (λ (id : ℕ). id == i) ids

-- Adding failures takes no id away.
add_failed-has :
    (e : Entry) (ids : List ℕ) (i : ℕ)
    → any (λ (id : ℕ). id == i) ids ≡ true
    → any (λ (id : ℕ). id == i) (add_failed e ids) ≡ true
unfolding add_failed any
add_failed-has none ids i h = h
add_failed-has (some (id, synced)) ids i h = h
add_failed-has (some (id, marked)) ids i h = h
add_failed-has (some (id, failed)) ids i h = ground (arith, h)

add_all_failed-has :
    (es : List Entry) (ids : List ℕ) (i : ℕ)
    → any (λ (id : ℕ). id == i) ids ≡ true
    → any (λ (id : ℕ). id == i) (add_all_failed es ids) ≡ true
unfolding add_all_failed
add_all_failed-has [] ids i h = h
add_all_failed-has (e ∷ es) ids i h =
    add_all_failed-has es (add_failed e ids) i (add_failed-has e ids i h)

-- What a batch whose first key is `t` comes to: an error, the end of the context, or one key less.
pub data Moved (t : LimitSyncTarget) (v : World) : List Entry × Option Error → Type 0 where
  broken : (es : List Entry) (e : Error) → Moved t v (es, some e)
  ended : (r : List Entry × Option Error) → IsDone v → Moved t v r
  noted :
      (r : List Entry × Option Error)
      → ((ids : List ℕ) → any (λ (id : ℕ). id == t.key_id) (add_all_failed r.0 ids) ≡ true)
      → Moved t v r
  closed : (r : List Entry × Option Error) → IsShut t.key_id v.db → Moved t v r

module _ (s : Syncer) where
  entry-Does :
      (t : LimitSyncTarget) (w : World)
      → Stays w.env
      → Fits t w.db
      → Does (sync_entry s t) w (λ r v. (x : Settled) × (r ≡ entry_for t x) × Settling t w x v)
  unfolding sync_entry
  entry-Does t w stays fits =
      Does-bind (sync_one-Does t s w stays fits) (λ r v h. Does-pure _ v (r, refl, h))

  -- Pushing any keys calms the tables.
  rest-Does :
      (ts : List LimitSyncTarget) (w : World)
      → Stays w.env
      → All (λ t. Fits t w.db) ts
      → Does (for_each (sync_entry s) ts) w (λ r v. From Calms w v)
  unfolding for_each
  rest-Does [] w stays fits = Does-pure _ w (From_refl w)
  rest-Does (t ∷ ts) w stays (fit, fits) =
      Does-bind {P = λ b v. From Calms w v} (Does-ctx_done w (λ b q. stepped w)) (λ b v f.
        Does-if b (λ q. Does-pure _ v f)
          (λ q.
            Does-bind {P = λ r u. From Calms w u}
              (Does-weaken
                (entry-Does t v (Stays-From f stays) (Fits-Calms t w.db v.db f.tables fit))
                (λ r u (x, e, (g, k)). From-trans Calms-trans f g))
              (λ r u g.
                Does-bind
                  (Does-weaken
                    (rest-Does ts u (Stays-From g stays)
                      (All_map _ _ ts (λ x. Fits-Calms x w.db u.db g.tables) fits))
                    (λ r' x k. From-trans Calms-trans g k))
                  (λ rest x k. Does-pure _ x k))))

moved_lem :
    (t : LimitSyncTarget) (u v : World) (x : Settled) (r : Entry × Option Error)
    (rest : List Entry × Option Error)
    → Stays u.env
    → From Calms u v
    → entry_for t x ≡ r
    → IsSettled t u x
    → Moved t v (r.0 ∷ rest.0, first_error r.1 rest.1)
unfolding entry_for add_all_failed add_failed any
moved_lem t u v x r rest stays f e (stopped _ d) = ended _ (IsDone-From f stays d)
moved_lem t u v x r rest stays f e (shut _ h) =
    closed _ (IsShut-Calms t.key_id u.db v.db f.tables h)
moved_lem t u v x r rest stays f e (given_up problem) =
    subst (λ (q : Entry × Option Error). Moved t v (q.0 ∷ rest.0, first_error q.1 rest.1)) e
      (noted _ (λ ids.
        add_all_failed-has rest.0 (t.key_id ∷ ids) t.key_id (ground (arith, ==_refl t.key_id))))

module _ (s : Syncer) where
  pub batch-Does :
      (t : LimitSyncTarget) (ts : List LimitSyncTarget) (w : World)
      → Stays w.env
      → Fits t w.db
      → All (λ x. Fits x w.db) ts
      → Does (sync_batch s (t ∷ ts)) w (λ r v. From Calms w v × Moved t v r)
  unfolding sync_batch for_each
  batch-Does t ts w stays fit fits =
      Does-bind {P = λ b v. From Calms w v × (b ≡ true → IsDone v)}
        (Does-ctx_done w (λ b q. (stepped w, λ d. IsDone-From (stepped w) stays (q ∙ d))))
        (λ b v (f, d).
          Does-if b (λ q. Does-pure _ v (f, ended _ (d q)))
            (λ q.
              Does-bind
                (entry-Does s t v (Stays-From f stays) (Fits-Calms t w.db v.db f.tables fit))
                (λ r u (x, e, (g, k)).
                  let g' = From-trans Calms-trans f g in
                  Does-bind
                    (rest-Does s ts u (Stays-From g' stays)
                      (All_map _ _ ts (λ y. Fits-Calms y w.db u.db g'.tables) fits))
                    (λ rest y h. Does-pure _ y (
                      From-trans Calms-trans g' h,
                      moved_lem t u y x r rest (Stays-From g' stays) h (sym e) k,
                    )))))

-- Two rows with one id have one owner, as a primary key has it.
abbrev pub IsKeyed : List (ℕ × ℕ) → Type 0
IsKeyed os = All (λ (a : ℕ × ℕ). All (λ (b : ℕ × ℕ). a.0 ≡ b.0 → a.1 ≡ b.1) os) os

abbrev pub IsReady : Db → LimitSyncTarget → Type 0
IsReady d t = Fits t d × (1 ≤ open_keys (λ i. i == t.key_id) d)

module _ (at : Time) (d : Db) where
  -- Whether a row of the list is the key's own, and has to be pushed.
  abbrev own_open : ApiKey → ApiKey → Bool
  own_open k j = (j.id == k.id) && is_open (settings d) j

  effective_settings : (u : User) → effective_id u (settings d) ≡ effective_id u d
  unfolding effective_id default_id
  effective_settings u = refl

  opened :
      (k : ApiKey) (u : User)
      → owner_of k d ≡ some u
      → is_live at k && out_of_date k u (effective_id u d) (find_profile (effective_id u d) d)
        ≡ true
      → is_open (settings d) k ≡ true
  unfolding is_open is_open_for owner_of is_live effective_id default_id
  opened k u e q = ap (is_open_for k (settings d)) e ∙ ground (arith, q)

  row_lem :
      (b : Bool) (t : LimitSyncTarget)
      → (b ≡ true → IsReady d t)
      → All (IsReady d) (if b then t ∷ [] else [])
  row_lem true t h = (h refl, tt)
  row_lem false t h = tt

  pending_row-IsReady :
      (k : ApiKey) (o : Option User)
      → owner_of k d ≡ o
      → All (λ (b : ℕ × ℕ). k.id ≡ b.0 → k.user_id ≡ b.1) (owners d)
      → (own_open k k ≡ true → 1 ≤ count_if (own_open k) d.keys)
      → All (IsReady d) (pending_row at d k o)
  unfolding pending_row owner_of target open_in
  pending_row-IsReady k none e keyed counted = tt
  pending_row-IsReady k (some u) e keyed counted =
      row_lem _ (target k u (effective_id u d))
        (λ (q : is_live at k
              && out_of_date k u (effective_id u d) (find_profile (effective_id u d) d)
            ≡ true).
          (
            All_map _ _ (owners d)
                (λ b h same. (
                  u,
                  ap (λ i. find? (λ (r : User). r.id == i) d.users) (sym (h (sym same))) ∙ e,
                  effective_settings u,
                  refl,
                  refl,
                ))
                keyed,
            counted (ground (arith, ==_refl k.id, opened k u e q)),
          ))

  pub pending_rows-IsReady : IsKeyed (owners d) → All (IsReady d) (pending_rows at d)
  unfolding pending_rows
  pending_rows-IsReady keyed =
      All-flat_map (IsReady d) (λ k. pending_row at d k (owner_of k d)) d.keys
        (All_map _ _ d.keys
          (λ k (own, counted). pending_row-IsReady k (owner_of k d) refl own counted)
          (All_both _ _ d.keys (All_unmap _ id_and_owner d.keys keyed)
            (All-counted own_open d.keys)))

-- Progress: with the first key settled and its failure noted, fewer keys are open and untried.
module _ (ids more : List ℕ) (w v : World) (id : ℕ) where
  abbrev others : ℕ → Bool
  others i = not_in ids i && not (i == id)

  fewer_others :
      not_in ids id ≡ true
      → 1 ≤ open_keys (λ i. i == id) w.db
      → open_keys others w.db < open_keys (not_in ids) w.db
  unfolding open_in
  fewer_others fresh here =
      let s = settings w.db in
      let split =
        count_if_split (λ (k : ApiKey). not_in ids k.id && is_open s k) (λ (k : ApiKey). k.id == id)
          w.db.keys in
      let own =
        count_if_mono (λ (k : ApiKey). k.id == id && is_open s k)
          (λ (k : ApiKey). (not_in ids k.id && is_open s k) && k.id == id) w.db.keys
          (λ k h.
            let same : k.id ≡ id = (==_iff k.id id).0 (ground (arith, h)) in
            ground (arith, h, ap (not_in ids) same, fresh)) in
      let rest =
        count_if_mono (λ (k : ApiKey). others k.id && is_open s k)
          (λ (k : ApiKey). (not_in ids k.id && is_open s k) && not (k.id == id)) w.db.keys
          (λ k h. ground (arith, h)) in
      omega (arith, split, own, rest, here)

  only_others :
      ((i : ℕ) → not_in more i ≡ true → not_in ids i ≡ true)
      → (not_in more id ≡ false) ⊎ IsShut id v.db
      → open_keys (not_in more) v.db ≤ open_keys others v.db
  unfolding open_in
  only_others sub (inl gone) =
      count_if_mono (λ (k : ApiKey). not_in more k.id && is_open (settings v.db) k)
        (λ (k : ApiKey). others k.id && is_open (settings v.db) k) v.db.keys
        (λ k h. elim (Bool-cases (k.id == id)) [
          | inl e ↦
              let same : k.id ≡ id = (==_iff k.id id).0 e in
              absurd (ground (arith, h, ap (not_in more) same, gone))
          | inr e ↦ ground (arith, h, e, sub k.id)
        ])
  only_others sub (inr none_open) =
      let s = settings v.db in
      let split =
        count_if_split (λ (k : ApiKey). not_in more k.id && is_open s k)
          (λ (k : ApiKey). k.id == id) v.db.keys in
      let own =
        count_if_mono (λ (k : ApiKey). (not_in more k.id && is_open s k) && k.id == id)
          (λ (k : ApiKey). k.id == id && is_open s k) v.db.keys (λ k h. ground (arith, h)) in
      let rest =
        count_if_mono (λ (k : ApiKey). (not_in more k.id && is_open s k) && not (k.id == id))
          (λ (k : ApiKey). others k.id && is_open s k) v.db.keys
          (λ k h. ground (arith, h, sub k.id)) in
      omega (arith, split, own, rest, none_open)

pub some_open :
    (ids : List ℕ) (id : ℕ) (w : World)
    → not_in ids id ≡ true
    → 1 ≤ open_keys (λ i. i == id) w.db
    → 1 ≤ open_keys (not_in ids) w.db
some_open ids id w fresh here = omega (arith, fewer_others ids ids w w id fresh here)

fewer_lem :
    (id : ℕ) (ids more : List ℕ) (w v : World)
    → From Calms w v
    → not_in ids id ≡ true
    → 1 ≤ open_keys (λ i. i == id) w.db
    → ((i : ℕ) → any (λ (x : ℕ). x == i) ids ≡ true → any (λ (x : ℕ). x == i) more ≡ true)
    → (not_in more id ≡ false) ⊎ IsShut id v.db
    → open_keys (not_in more) v.db < open_keys (not_in ids) w.db
fewer_lem id ids more w v f fresh here sub gone =
    let a = fewer_others ids more w v id fresh here in
    let b = only_others ids more w v id (λ i h. ground (arith, h, sub i)) gone in
    let c = f.tables.fewer (others ids more w v id) in omega (arith, a, b, c)

pub progress :
    (t : LimitSyncTarget) (ids : List ℕ) (es : List Entry) (w v : World)
    → From Calms w v
    → not_in ids t.key_id ≡ true
    → 1 ≤ open_keys (λ i. i == t.key_id) w.db
    → Moved t v (es, none)
    → IsDone v ⊎ (open_keys (not_in (add_all_failed es ids)) v.db < open_keys (not_in ids) w.db)
progress t ids es w v f fresh here (ended _ d) = inl d
progress t ids es w v f fresh here (noted _ h) = inr (
    fewer_lem t.key_id ids (add_all_failed es ids) w v f fresh here (add_all_failed-has es ids)
      (inl (ground (arith, h ids))))
progress t ids es w v f fresh here (closed _ h) = inr (
    fewer_lem t.key_id ids (add_all_failed es ids) w v f fresh here (add_all_failed-has es ids)
      (inr h))
