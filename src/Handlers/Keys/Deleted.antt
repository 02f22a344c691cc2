-- ===== src/Handlers/Keys/Deleted.antt =====
-- internal/handlers/ui.go: what `DeleteKey` may do to the keys of the database.
use ai_self_service.Prelude.{
  String, concat, Option, none, some, List, [], ◌∷◌, ◌++◌, ◌≡◌, ◌⊎◌, inl, inr, refl, sym, ap, ◌∙◌,
  subst, find?, delete_if, ◌==◌,
}
use ai_self_service.Keyprovider.{GatewayError}
use ai_self_service.Database.Models.{User, ApiKey, AuditAction, key_deleted}
use ai_self_service.Database.Errors.{Result, ok}
use ai_self_service.Database.Tables.{Db, delete_keys}
use ai_self_service.Database.Keys.{get_api_key_by_user, delete_api_key, has_id}
use ai_self_service.Database.Sessions.{record_audit}
use ai_self_service.Exec.{World, delete_key, step, pure, continue, call, attempt, ◌>>=◌, ◌>>◌}
use ai_self_service.Exec.Sends.{
  Silent, Silent-pure, Silent-attempt, Silent-change, Silent-now, Silent-bind,
}
use ai_self_service.Exec.KeepsKeys.{
  KeepsKeys, KeepsKeys-pure, KeepsKeys-bind, KeepsKeys-attempt, KeepsKeys-record_audit,
  change_cases, query_cases, IsConfirmed,
}
use ai_self_service.Handlers.Keys.{redirect, audit, after_delete, delete_existing, delete}

pub audit_keys : (a : AuditAction) (u : User) (s : String) → KeepsKeys (audit a u s)
unfolding audit
audit_keys a u s =
    KeepsKeys-bind (KeepsKeys-attempt (KeepsKeys-record_audit _)) (λ r. KeepsKeys-pure _)

pub audit-Silent : (a : AuditAction) (u : User) (s : String) → Silent (audit a u s)
unfolding audit record_audit
audit-Silent a u s =
    Silent-bind (Silent-attempt (Silent-bind Silent-now (λ t. Silent-change _)))
      (λ r. Silent-pure _)

module _ (u : User) (k : ApiKey) where
  -- The removal of the row.
  removal_lem :
      (v : World)
      → let v' = ((delete_api_key k.id >> pure (redirect "/")) v).1 in
        ((v'.db.keys ≡ v.db.keys) ⊎ (v'.db.keys ≡ delete_if (has_id k.id) v.db.keys))
        × (v'.sent ≡ v.sent)
  unfolding delete_api_key ◌>>=◌ delete_keys
  removal_lem v =
      let after : Result (Unit {0}) × World → World =
        λ z. (continue z.0 (λ _. pure (redirect "/")) z.1).1 in
      elim (change_cases (delete_keys (has_id k.id)) v) [
        | inl q ↦ (inl (ap (λ z. (after z).db.keys) q), ap (λ z. (after z).sent) q)
        | inr q ↦ (inr (ap (λ z. (after z).db.keys) q), ap (λ z. (after z).sent) q)
      ]

  answer_lem :
      (v : World) (answer : Option GatewayError)
      → let v' = (after_delete u k answer v).1 in
        ((v'.db.keys ≡ v.db.keys)
          ⊎ ((answer ≡ none) × (v'.db.keys ≡ delete_if (has_id k.id) v.db.keys)))
        × (v'.sent ≡ v.sent)
  unfolding after_delete audit attempt ◌>>=◌
  answer_lem v (some e) = (inl refl, refl)
  answer_lem v none =
      let detail = concat ("key " ∷ k.key_prefix ∷ []) in
      let r = removal_lem (audit key_deleted u detail v).1 in
      let q = (audit_keys key_deleted u detail).at v in
      (
        elim r.0 [
          | inl e ↦ inl (e ∙ q)
          | inr e ↦ inr (refl, e ∙ ap (λ (l : List ApiKey). delete_if (has_id k.id) l) q)
        ],
        r.1 ∙ (audit-Silent key_deleted u detail).at v,
      )

-- The calls of a request: none, or the one that deletes the user's key in the gateway.
abbrev pub OnlyDeletes : User → World → World → Type 0
OnlyDeletes u w v =
    (v.sent ≡ w.sent)
    ⊎ ((k : ApiKey) × (find? (λ (k : ApiKey). k.user_id == u.id) w.db.keys ≡ some k)
        × (v.sent ≡ w.sent ++ delete_key k.key_ref ∷ []))

-- After the key of the user was read.
delete_existing_lem :
    (u : User) (w : World) (k : Option ApiKey)
    → find? (λ (k : ApiKey). k.user_id == u.id) w.db.keys ≡ k
    → let v' = (delete_existing u (ok k) (step w)).1 in
      OnlyDeletes u w v' × ((v'.db.keys ≡ w.db.keys) ⊎ IsConfirmed u w v')
unfolding delete_existing ◌>>=◌ call
delete_existing_lem u w none h = (inl refl, inl refl)
delete_existing_lem u w (some k) h =
    let v : World = record (step (step w)) { sent = w.sent ++ delete_key k.key_ref ∷ [] } in
    let l = answer_lem u k v (w.env.gateway (step w).tick (delete_key k.key_ref)) in
    (
      inr (k, h, l.1),
      elim l.0 [
        | inl q ↦ inl q
        | inr q ↦ inr (record {
          key = k;
          tick = (step w).tick;
          owned = h;
          agreed = q.0;
          asked = l.1;
          removed = q.1;
        })
      ],
    )

-- A request of a user to delete their key makes no call but one that deletes the user's own key in the
-- gateway. It leaves the keys of the database as they were, or it removes the row of that key, and
-- then it made this call and the gateway agreed.
pub delete-IsConfirmed :
    (u : User) (w : World)
    → OnlyDeletes u w (delete u w).1
      × (((delete u w).1.db.keys ≡ w.db.keys) ⊎ IsConfirmed u w (delete u w).1)
unfolding delete get_api_key_by_user ◌>>=◌ attempt delete_existing
delete-IsConfirmed u w =
    let owned : Db → Option ApiKey = λ d. find? (λ (k : ApiKey). k.user_id == u.id) d.keys in
    let ends : Result (Option ApiKey) × World → World = λ z. (delete_existing u z.0 z.1).1 in
    let goal : Result (Option ApiKey) × World → Type 0 =
      λ z. OnlyDeletes u w (ends z) × (((ends z).db.keys ≡ w.db.keys) ⊎ IsConfirmed u w (ends z)) in
    elim (query_cases (λ d. ok (owned d)) w) [
      | inl q ↦ subst goal (sym q) (inl refl, inl refl)
      | inr q ↦ subst goal (sym q) (delete_existing_lem u w (owned w.db) refl)
    ]
