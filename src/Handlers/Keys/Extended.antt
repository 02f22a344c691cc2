-- ===== src/Handlers/Keys/Extended.antt =====
-- internal/handlers/ui.go: what `ExtendKey` may do to the dates of the keys.
use ai_self_service.Prelude.{
  ℕ, String, concat, Option, none, some, Bool, true, false, List, [], ◌∷◌, ◌++◌, map, ◌≡◌, ◌⊎◌, inl,
  inr, refl, sym, ap, ◌∙◌, subst, arith, find?, update_if, count_if, ◌==◌, is_some, if◌then◌else◌,
}
use ai_self_service.Keyprovider.{GatewayError, is_not_found}
use ai_self_service.Config.{Config}
use ai_self_service.Database.Models.{User, ApiKey, Time, key_extended}
use ai_self_service.Database.Errors.{Result, ok, err}
use ai_self_service.Database.Tables.{Db, update_keys, delete_notices_of, insert_event}
use ai_self_service.Database.Keys.{
  get_api_key_by_user, update_api_key_expiry, mark_key_missing, record_key_audit, update_counted,
  unmarked, has_id,
}
use ai_self_service.Database.Profiles.Reads.{get_profile, get_default_profile}
use ai_self_service.Exec.{
  Env, World, GatewayCall, update_expiry, step, pure, continue, call, change, statement, attempt,
  ◌>>=◌,
}
use ai_self_service.Exec.Atomic.{Atomic-run_in_tx}
use ai_self_service.Exec.Ensures.{Ensures, Ensures-bind, Ensures-change, Ensures-run_in_tx}
use ai_self_service.Exec.Sends.{Silent, Silent-change, Silent-bind, Silent-run_in_tx}
use ai_self_service.Exec.Keeps.{
  Keeps, Keeps-pure, Keeps-raise, Keeps-now, Keeps-always, Keeps-if, Keeps-bind, Keeps-flagged_tx,
}
use ai_self_service.Exec.KeepsKeys.{query_cases}
use ai_self_service.Exec.Quiet.{Same, Quiet, Quiet-query, Quiet-now, Quiet-days_after, Quiet-then}
use ai_self_service.Handlers.Keys.{
  redirect, audit, resolve_profile, mark_missing_key, after_extend, push_expiry, extend_existing,
  extend,
}
use ai_self_service.Handlers.Keys.Deleted.{audit_keys, audit-Silent}

abbrev pub date_of : ApiKey → ℕ × Time
date_of k = (k.id, k.expires_at)

-- The date of each key.
abbrev pub expiries : Db → List (ℕ × Time)
expiries d = map date_of d.keys

abbrev pub moved_to : Time → ApiKey → ApiKey
moved_to t k = record k { expires_at = t }

-- The world after the gateway was asked to move the date of the user's key, agreed, and the row got the
-- same date.
pub record IsMoved (u : User) (w w' : World) : Type 0 where
  pub key : ApiKey
  pub expires : Time
  pub tick : ℕ
  pub owned : find? (λ (k : ApiKey). k.user_id == u.id) w.db.keys ≡ some key
  pub agreed : w.env.gateway tick (update_expiry key.key_ref expires) ≡ none
  pub asked : w'.sent ≡ w.sent ++ update_expiry key.key_ref expires ∷ []
  pub moved : w'.db.keys ≡ update_if (has_id key.id) (moved_to expires) w.db.keys

map-update_if :
    (p : ApiKey → Bool) (f : ApiKey → ApiKey) (ks : List ApiKey)
    → ((k : ApiKey) → (f k).id ≡ k.id)
    → ((k : ApiKey) → (f k).expires_at ≡ k.expires_at)
    → map date_of (update_if p f ks) ≡ map date_of ks
unfolding update_if
map-update_if p f [] h j = refl
map-update_if p f (k ∷ ks) h j = ground (arith, map-update_if p f ks h j, h k, j k)

counted-Keeps :
    (p : ApiKey → Bool) (f : ApiKey → ApiKey)
    → ((k : ApiKey) → (f k).id ≡ k.id)
    → ((k : ApiKey) → (f k).expires_at ≡ k.expires_at)
    → Keeps expiries (statement (update_counted p f))
unfolding update_counted update_keys
counted-Keeps p f h j =
    Keeps-always (λ d. (count_if p d.keys, update_keys p f d)) (λ d. map-update_if p f d.keys h j)

mark_missing_key-Keeps :
    (u : User) (k : ApiKey) (source : String) → Keeps expiries (mark_missing_key u k source)
unfolding mark_missing_key mark_key_missing record_key_audit change insert_event
mark_missing_key-Keeps u k source =
    Keeps-bind
      (Keeps-flagged_tx
        (Keeps-bind Keeps-now (λ at.
          counted-Keeps (unmarked k.id) (λ k. record k { missing_since = some at }) (λ k. refl)
            (λ k. refl)))
        (Keeps-bind Keeps-now (λ at. Keeps-always _ (λ d. refl))))
      (λ r. Keeps-pure tt)

refused-Keeps :
    (u : User) (k : ApiKey) (expires : Time) (e : GatewayError)
    → Keeps expiries (after_extend u k expires (some e))
unfolding after_extend
refused-Keeps u k expires e =
    Keeps-if (is_not_found e) (Keeps-bind (mark_missing_key-Keeps u k "extend") (λ x. Keeps-pure _))
      (Keeps-raise _)

update_expiry-Ensures :
    (id : ℕ) (t : Time) (ks : List ApiKey)
    → Ensures
        (λ d. d.keys ≡ ks)
        (update_api_key_expiry id t)
        (λ _ d. d.keys ≡ update_if (has_id id) (moved_to t) ks)
unfolding update_api_key_expiry update_keys delete_notices_of
update_expiry-Ensures id t ks = Ensures-run_in_tx (
    Ensures-bind (λ _ d. d.keys ≡ update_if (has_id id) (moved_to t) ks)
      (Ensures-change _ (λ d h. ap (λ l. update_if (has_id id) (moved_to t) l) h))
      (λ x. Ensures-change _ (λ d h. h)))

-- The date in the tables moved, or the keys are as they were.
stored_lem :
    (id : ℕ) (t : Time) (v : World) (r : Result (Unit {0}))
    → (update_api_key_expiry id t v).0 ≡ r
    → let v' = (update_api_key_expiry id t v).1 in
      (v'.db.keys ≡ v.db.keys) ⊎ (v'.db.keys ≡ update_if (has_id id) (moved_to t) v.db.keys)
unfolding update_api_key_expiry
stored_lem id t v (ok x) e = inr ((update_expiry-Ensures id t v.db.keys).at v refl x e)
stored_lem id t v (err x) e = inl (ap (λ (d : Db). d.keys) ((Atomic-run_in_tx _).at v x e))

update_expiry-Silent : (id : ℕ) (t : Time) → Silent (update_api_key_expiry id t)
unfolding update_api_key_expiry
update_expiry-Silent id t = Silent-run_in_tx (Silent-bind (Silent-change _) (λ x. Silent-change _))

agreed_lem :
    (u : User) (k : ApiKey) (t : Time) (v : World)
    → let v' = (after_extend u k t none v).1 in
      ((v'.db.keys ≡ v.db.keys) ⊎ (v'.db.keys ≡ update_if (has_id k.id) (moved_to t) v.db.keys))
      × (v'.sent ≡ v.sent)
unfolding after_extend audit attempt ◌>>=◌
agreed_lem u k t v =
    let x = (update_api_key_expiry k.id t v).1 in
    let detail = concat ("until " ∷ x.env.format_date t ∷ []) in
    let q = (audit_keys key_extended u detail).at x in
    (
      elim (stored_lem k.id t v _ refl) [ inl e ↦ inl (q ∙ e) | inr e ↦ inr (q ∙ e) ],
      (audit-Silent key_extended u detail).at x ∙ (update_expiry-Silent k.id t).at v,
    )

abbrev Ends : User → World → World → Type 0
Ends u w w' = (expiries w'.db ≡ expiries w.db) ⊎ IsMoved u w w'

-- From the gateway's answer on.
answer_lem :
    (u : User) (k : ApiKey) (t : Time) (w v x : World) (answer : Option GatewayError)
    → Same w x
    → v.db ≡ x.db
    → v.sent ≡ x.sent ++ update_expiry k.key_ref t ∷ []
    → find? (λ (k : ApiKey). k.user_id == u.id) w.db.keys ≡ some k
    → w.env.gateway x.tick (update_expiry k.key_ref t) ≡ answer
    → Ends u w (after_extend u k t answer v).1
answer_lem u k t w v x (some e) s d c h g =
    inl ((refused-Keeps u k t e).at v ∙ ap expiries (d ∙ s.db))
answer_lem u k t w v x none s d c h g =
    let l = agreed_lem u k t v in
    elim l.0 [
      | inl e ↦ inl (ap (λ (ks : List ApiKey). map date_of ks) e ∙ ap expiries (d ∙ s.db))
      | inr e ↦ inr (record {
        key = k;
        expires = t;
        tick = x.tick;
        owned = h;
        agreed = g;
        asked =
            l.1 ∙ (c ∙ ap (λ (l : List GatewayCall). l ++ update_expiry k.key_ref t ∷ []) s.sent);
        moved = e ∙ ap (λ (d : Db). update_if (has_id k.id) (moved_to t) d.keys) (d ∙ s.db);
      })
    ]

resolve_profile-Quiet : (id : Option ℕ) → Quiet (resolve_profile id)
unfolding resolve_profile get_profile get_default_profile
resolve_profile-Quiet none = Quiet-query _
resolve_profile-Quiet (some id) = Quiet-query _

module _ (c : Config) (u : User) (w : World) where
  stop_lem : (v : World) → Same w v → Ends u w v
  stop_lem v s = inl (ap expiries s.db)

  ask_lem :
      (k : ApiKey) (t : Time) (v : World)
      → Same w v
      → find? (λ (k : ApiKey). k.user_id == u.id) w.db.keys ≡ some k
      → Ends u w ((call (update_expiry k.key_ref t) >>= after_extend u k t) v).1
  unfolding call ◌>>=◌
  ask_lem k t v s h =
      let x : World = record (step v) { sent = v.sent ++ update_expiry k.key_ref t ∷ [] } in
      answer_lem u k t w x v (v.env.gateway v.tick (update_expiry k.key_ref t)) s refl refl h
        (ap (λ (env : Env). env.gateway v.tick (update_expiry k.key_ref t)) (sym s.env))

  push_lem :
      (k : ApiKey) (v : World)
      → Same w v
      → find? (λ (k : ApiKey). k.user_id == u.id) w.db.keys ≡ some k
      → Ends u w (push_expiry c u k v).1
  unfolding push_expiry
  push_lem k v s h =
      Quiet-then (Ends u w) _ w v s (resolve_profile-Quiet u.profile_id) stop_lem (λ p v s.
        Quiet-then (Ends u w) _ w v s Quiet-now stop_lem (λ at v s.
          Quiet-then (Ends u w) _ w v s (Quiet-days_after at _) stop_lem
            (λ t v s. ask_lem k t v s h)))

  marked_lem :
      (b : Bool) (k : ApiKey) (v : World)
      → Same w v
      → find? (λ (k : ApiKey). k.user_id == u.id) w.db.keys ≡ some k
      → Ends u w ((if b then pure (redirect "/") else push_expiry c u k) v).1
  marked_lem true k v s h = stop_lem v s
  marked_lem false k v s h = push_lem k v s h

  existing_lem :
      (k : Option ApiKey) (v : World)
      → Same w v
      → find? (λ (k : ApiKey). k.user_id == u.id) w.db.keys ≡ k
      → Ends u w (extend_existing c u k v).1
  unfolding extend_existing
  existing_lem none v s h = stop_lem v s
  existing_lem (some k) v s h = marked_lem (is_some k.missing_since) k v s h

-- A request to extend a key leaves the dates of all keys in the database as they were, or the one call that
-- it made was to move the date of the user's own key in the gateway, the gateway agreed, and the row of that
-- key, and no other, has the same date.
pub extend-IsMoved :
    (c : Config) (u : User) (w : World)
    → (expiries (extend c u w).1.db ≡ expiries w.db) ⊎ IsMoved u w (extend c u w).1
unfolding extend get_api_key_by_user ◌>>=◌
extend-IsMoved c u w =
    let owned : Db → Option ApiKey = λ d. find? (λ (k : ApiKey). k.user_id == u.id) d.keys in
    let goal : Result (Option ApiKey) × World → Type 0 =
      λ z. Ends u w (continue z.0 (λ k. extend_existing c u k) z.1).1 in
    let s : Same w (step w) = record { db = refl; sent = refl; env = refl } in
    elim (query_cases (λ d. ok (owned d)) w) [
      | inl q ↦ subst goal (sym q) (stop_lem c u w (step w) s)
      | inr q ↦ subst goal (sym q) (existing_lem c u w (owned w.db) (step w) s refl)
    ]
