-- ===== src/ProfileExpiry/Confirmed.antt =====
-- internal/profileexpiry/expiry.go: what `revoke` may do to the keys of the database.
use ai_self_service.Prelude.{
  ℕ, Option, none, some, List, [], ◌∷◌, ◌++◌, ◌≡◌, ◌⊎◌, inl, inr, refl, sym, ap, ◌∙◌, subst, arith,
  find?, delete_if, ◌==◌,
}
use ai_self_service.Keyprovider.{GatewayError}
use ai_self_service.Database.Models.{User, ApiKey}
use ai_self_service.Database.Errors.{Result, ok}
use ai_self_service.Database.Tables.{Db, delete_keys, insert_event}
use ai_self_service.Database.Keys.{get_api_key_by_user, delete_api_key, has_id}
use ai_self_service.Database.Users.{assign_row, apply_profile_expiry}
use ai_self_service.Database.Sessions.{record_audit}
use ai_self_service.Exec.{
  Exec, Env, World, GatewayCall, delete_key, step, continue, call, ◌>>=◌, ◌>>◌,
}
use ai_self_service.Exec.Sends.{
  Silent, Silent-pure, Silent-statement, Silent-attempt, Silent-change, Silent-now, Silent-bind,
}
use ai_self_service.Exec.KeepsKeys.{
  KeepsKeys, KeepsKeys-statement, KeepsKeys-bind, KeepsKeys-now, KeepsKeys-pure, KeepsKeys-attempt,
  KeepsKeys-change, change_cases, query_cases, IsConfirmed,
}
use ai_self_service.ProfileExpiry.{audit, or_upstream, delete_both, revoke}

assign_row_keys :
    (id : ℕ) (ref : Option ℕ) (f : User → User) (d : Db) (a : Unit {0}) (d' : Db)
    → assign_row id ref f d ≡ ok (a, d')
    → d'.keys ≡ d.keys
unfolding assign_row
assign_row_keys id ref f d a d' e = ground arith

-- The end of `revoke`, after the key.
switched_keys :
    (u : User)
    → KeepsKeys (apply_profile_expiry u.id u.profile_after_expiry >> audit u "key deleted")
unfolding apply_profile_expiry audit record_audit insert_event
switched_keys u =
    KeepsKeys-bind
      (KeepsKeys-bind KeepsKeys-now (λ t. KeepsKeys-statement _ (assign_row_keys _ _ _)))
      (λ x.
        KeepsKeys-bind
          (KeepsKeys-attempt (KeepsKeys-bind KeepsKeys-now (λ t. KeepsKeys-change _ (λ d. refl))))
          (λ r. KeepsKeys-pure _))

switched-Silent :
    (u : User) → Silent (apply_profile_expiry u.id u.profile_after_expiry >> audit u "key deleted")
unfolding apply_profile_expiry audit record_audit
switched-Silent u = Silent-bind (Silent-bind Silent-now (λ t. Silent-statement _)) (λ x.
    Silent-bind (Silent-attempt (Silent-bind Silent-now (λ t. Silent-change _)))
      (λ r. Silent-pure _))

abbrev tail : User → Exec (Unit {0})
tail u = apply_profile_expiry u.id u.profile_after_expiry >> audit u "key deleted"

-- What the keys and the calls are after a world, where the row of a key may have gone.
abbrev RowAfter : ApiKey → World → World → Type 0
RowAfter k v v' =
    ((v'.db.keys ≡ v.db.keys) ⊎ (v'.db.keys ≡ delete_if (has_id k.id) v.db.keys))
    × (v'.sent ≡ v.sent)

module _ (u : User) (k : ApiKey) where
  -- From the removal of the row on.
  removal_lem : (v : World) → RowAfter k v ((delete_api_key k.id >>= λ _. tail u) v).1
  unfolding delete_api_key ◌>>=◌ delete_keys
  removal_lem v =
      let after : Result (Unit {0}) × World → World = λ z. (continue z.0 (λ _. tail u) z.1).1 in
      elim (change_cases (delete_keys (has_id k.id)) v) [
        | inl q ↦ (inl (ap (λ z. (after z).db.keys) q), ap (λ z. (after z).sent) q)
        | inr q ↦ (
          inr (ap (λ z. (after z).db.keys) q ∙ (switched_keys u).at _),
          ap (λ z. (after z).sent) q ∙ (switched-Silent u).at _,
        )
      ]

  answer_lem :
      (v : World) (answer : Option GatewayError)
      → let v' = ((or_upstream answer >> delete_api_key k.id) >>= λ _. tail u) v in
        ((v'.1.db.keys ≡ v.db.keys)
          ⊎ ((answer ≡ none) × (v'.1.db.keys ≡ delete_if (has_id k.id) v.db.keys)))
        × (v'.1.sent ≡ v.sent)
  unfolding or_upstream ◌>>=◌
  answer_lem v (some e) = (inl refl, refl)
  answer_lem v none =
      let r = removal_lem v in (elim r.0 [ inl q ↦ inl q | inr q ↦ inr (refl, q) ], r.1)

-- After the keys of the user were read.
revoke_lem :
    (u : User) (v w : World) (k : Option ApiKey)
    → v.db ≡ w.db
    → v.env ≡ w.env
    → v.sent ≡ w.sent
    → find? (λ (k : ApiKey). k.user_id == u.id) w.db.keys ≡ k
    → let v' = (delete_both k >>= λ _. tail u) v in
      (v'.1.db.keys ≡ w.db.keys) ⊎ IsConfirmed u w v'.1
unfolding delete_both ◌>>=◌ call
revoke_lem u v w none d e s h = inl ((switched_keys u).at v ∙ ap (λ (x : Db). x.keys) d)
revoke_lem u v w (some k) d e s h =
    let v1 : World = record (step v) { sent = v.sent ++ delete_key k.key_ref ∷ [] } in
    let answer = v.env.gateway v.tick (delete_key k.key_ref) in
    let l = answer_lem u k v1 answer in
    elim l.0 [
      | inl q ↦ inl (q ∙ ap (λ (x : Db). x.keys) d)
      | inr q ↦ inr (record {
        key = k;
        tick = v.tick;
        owned = h;
        agreed = ap (λ (x : Env). x.gateway v.tick (delete_key k.key_ref)) (sym e) ∙ q.0;
        asked = l.1 ∙ ap (λ (x : List GatewayCall). x ++ delete_key k.key_ref ∷ []) s;
        removed = q.1 ∙ ap (λ (x : Db). delete_if (has_id k.id) x.keys) d;
      })
    ]

-- Ending an assignment by revoking the key leaves the keys of the database as they were, or it
-- removes the row of the user's key, and then the one call that it made was to delete that key in
-- the gateway, and the gateway agreed.
pub revoke-IsConfirmed :
    (u : User) (w : World) → ((revoke u w).1.db.keys ≡ w.db.keys) ⊎ IsConfirmed u w (revoke u w).1
unfolding revoke get_api_key_by_user ◌>>=◌
revoke-IsConfirmed u w =
    let owned = find? (λ (k : ApiKey). k.user_id == u.id) w.db.keys in
    let ends : Result (Option ApiKey) × World → World =
      λ z. (continue z.0 (λ k. delete_both k >>= λ _. tail u) z.1).1 in
    let goal : Result (Option ApiKey) × World → Type 0 =
      λ z. ((ends z).db.keys ≡ w.db.keys) ⊎ IsConfirmed u w (ends z) in
    elim (query_cases (λ d. ok (find? (λ (k : ApiKey). k.user_id == u.id) d.keys)) w) [
      | inl q ↦ subst goal (sym q) (inl refl)
      | inr q ↦ subst goal (sym q) (revoke_lem u (step w) w owned refl refl refl refl)
    ]
