-- ===== src/Exec/KeepsKeys.antt =====
-- What an action does to the keys of the database: the ones that leave them alone, and the removal of
-- one that the gateway agreed to.
use ai_self_service.Prelude.{
  ℕ, Bool, true, false, none, some, [], ◌∷◌, ◌++◌, ◌≡◌, ◌⊎◌, refl, ap, ◌∙◌, arith, if◌then◌else◌,
  find?, delete_if, ◌==◌,
}
use ai_self_service.Database.Models.{User, ApiKey, AuditEvent}
use ai_self_service.Database.Errors.{Error, Result, ok, err, io}
use ai_self_service.Database.Tables.{Db, insert_event}
use ai_self_service.Database.Keys.{has_id}
use ai_self_service.Database.Sessions.{record_audit}
use ai_self_service.Exec.{
  Exec, World, GatewayCall, delete_key, step, with_db, pure, raise, continue, call, token, now,
  ctx_done, random, query, statement, change, settle, attempt, ◌>>=◌,
}

-- An action that leaves the keys as they are.
pub record KeepsKeys {A : Type 0} (m : Exec A) : Type 0 where
  pub at : (w : World) → (m w).1.db.keys ≡ w.db.keys

settle_keys :
    {A : Type 0} (r : Result (A × Db)) (w : World)
    → ((a : A) (d : Db) → r ≡ ok (a, d) → d.keys ≡ w.db.keys)
    → (settle r w).1.db.keys ≡ w.db.keys
settle_keys (ok (a, d)) w h = h a d refl
settle_keys (err e) w h = refl

pub KeepsKeys-statement :
    {A : Type 0} (f : Db → Result (A × Db))
    → ((d : Db) (a : A) (d' : Db) → f d ≡ ok (a, d') → d'.keys ≡ d.keys)
    → KeepsKeys (statement f)
unfolding statement
KeepsKeys-statement f h = record {
  at = λ w. ground (arith, settle_keys (f w.db) (step w) (h w.db));
}

continue_keys :
    {A B : Type 0} (r : Result A) (f : A → Exec B) (w : World)
    → ((a : A) → KeepsKeys (f a))
    → (continue r f w).1.db.keys ≡ w.db.keys
continue_keys (ok a) f w h = (h a).at w
continue_keys (err e) f w h = refl

pub KeepsKeys-bind :
    {A B : Type 0} {m : Exec A} {f : A → Exec B}
    → KeepsKeys m
    → ((a : A) → KeepsKeys (f a))
    → KeepsKeys (m >>= f)
unfolding ◌>>=◌
KeepsKeys-bind {m} {f} hm hf = record { at = λ w. continue_keys (m w).0 f (m w).1 hf ∙ hm.at w }

pub KeepsKeys-now : KeepsKeys now
unfolding now
KeepsKeys-now = record { at = λ w. refl }

pub KeepsKeys-pure : {A : Type 0} (a : A) → KeepsKeys (pure a)
KeepsKeys-pure a = record { at = λ w. refl }

pub KeepsKeys-attempt : {A : Type 0} {m : Exec A} → KeepsKeys m → KeepsKeys (attempt m)
unfolding attempt
KeepsKeys-attempt h = record { at = h.at }

stored : (p r : Unit {0} × Db) → (let x : Result (Unit {0} × Db) = ok p in x) ≡ ok r → r.1 ≡ p.1
stored p r e = ground arith

pub KeepsKeys-change : (f : Db → Db) → ((d : Db) → (f d).keys ≡ d.keys) → KeepsKeys (change f)
unfolding change
KeepsKeys-change f h =
    KeepsKeys-statement (λ d. ok (tt, f d))
      (λ d a d' e. ap (λ (x : Db). x.keys) (stored (tt, f d) (a, d') e) ∙ h d)

pub change_cases :
    (f : Db → Db) (v : World)
    → (change f v ≡ (err io, step v)) ⊎ (change f v ≡ (ok tt, with_db (f v.db) (step v)))
unfolding change statement
change_cases f v = ground arith

pub query_cases :
    {A : Type 0} (f : Db → Result A) (w : World)
    → (query f w ≡ (err io, step w)) ⊎ (query f w ≡ (f w.db, step w))
unfolding query
query_cases f w = ground arith

pub KeepsKeys-raise : {A : Type 0} (e : Error) → KeepsKeys (raise {A = A} e)
KeepsKeys-raise e = record { at = λ w. refl }

pub KeepsKeys-query : {A : Type 0} (f : Db → Result A) → KeepsKeys (query f)
unfolding query
KeepsKeys-query f = record { at = λ w. ground arith }

pub KeepsKeys-ctx_done : KeepsKeys ctx_done
unfolding ctx_done
KeepsKeys-ctx_done = record { at = λ w. refl }

pub KeepsKeys-token : KeepsKeys token
unfolding token
KeepsKeys-token = record { at = λ w. refl }

pub KeepsKeys-random : KeepsKeys random
unfolding random
KeepsKeys-random = record { at = λ w. refl }

pub KeepsKeys-call : (c : GatewayCall) → KeepsKeys (call c)
unfolding call
KeepsKeys-call c = record { at = λ w. refl }

pub KeepsKeys-if :
    {A : Type 0} {m n : Exec A} (b : Bool)
    → KeepsKeys m
    → KeepsKeys n
    → KeepsKeys (if b then m else n)
KeepsKeys-if true hm hn = hm
KeepsKeys-if false hm hn = hn

pub KeepsKeys-record_audit : (e : AuditEvent) → KeepsKeys (record_audit e)
unfolding record_audit insert_event
KeepsKeys-record_audit e = KeepsKeys-bind KeepsKeys-now (λ t. KeepsKeys-change _ (λ d. refl))

-- The world after the gateway was asked to delete a key, agreed, and its row was removed.
pub record IsConfirmed (u : User) (w w' : World) : Type 0 where
  pub key : ApiKey
  pub tick : ℕ
  pub owned : find? (λ (k : ApiKey). k.user_id == u.id) w.db.keys ≡ some key
  pub agreed : w.env.gateway tick (delete_key key.key_ref) ≡ none
  pub asked : w'.sent ≡ w.sent ++ delete_key key.key_ref ∷ []
  pub removed : w'.db.keys ≡ delete_if (has_id key.id) w.db.keys
