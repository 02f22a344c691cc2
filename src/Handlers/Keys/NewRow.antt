-- ===== src/Handlers/Keys/NewRow.antt =====
-- internal/handlers/ui.go and internal/database/keys.go: the row of a new key, and what follows it.
use ai_self_service.Prelude.{
  find?-append_none, append_nil, ℕ, String, Bool, true, false, concat, Option, none, some, List, [],
  ◌∷◌, ◌++◌, ◌≡◌, refl, sym, ◌∙◌, ◌||◌, subst, arith, if◌then◌else◌, ◌==◌, find?, any, count_if,
  count_if-append, count_if_none,
}
use ai_self_service.Database.Models.{User, ApiKey, key_generated}
use ai_self_service.Database.Errors.{Result, ok, err, constraint}
use ai_self_service.Database.Tables.{Db, insert_key}
use ai_self_service.Database.Keys.{replace_api_key}
use ai_self_service.Exec.{World, GatewayCall, delete_key, call, token, ◌>>=◌, ◌>>◌}
use ai_self_service.Exec.Atomic.{Atomic, Atomic-run_in_tx, Atomic-bind_read, ReadOnly-now}
use ai_self_service.Exec.Ensures.{
  Ensures, Ensures-bind, Ensures-now, Ensures-run_in_tx, Ensures-change, Ensures-statement,
}
use ai_self_service.Exec.Sends.{
  Silent, Silent-pure, Silent-now, Silent-change, Silent-statement, Silent-run_in_tx, Silent-bind,
  Silent-token,
}
use ai_self_service.Exec.KeepsKeys.{
  KeepsKeys, KeepsKeys-pure, KeepsKeys-bind, KeepsKeys-now, KeepsKeys-token, KeepsKeys-call,
}
use ai_self_service.Handlers.Flash.{KeyFlash}
use ai_self_service.Handlers.Keys.{audit, revoke_old, stash, prefix_of, finish_new}
use ai_self_service.Handlers.Keys.Deleted.{audit_keys, audit-Silent}

abbrev pub of_user : User → ApiKey → Bool
of_user u k = k.user_id == u.id

-- The call that deletes the key that was replaced.
abbrev pub old_calls : Option ApiKey → List GatewayCall
old_calls none = []
old_calls (some k) = delete_key k.key_ref ∷ []

pub replace_api_key-Atomic : (k : ApiKey) → Atomic (replace_api_key k)
unfolding replace_api_key
replace_api_key-Atomic k = Atomic-bind_read ReadOnly-now (λ t. Atomic-run_in_tx _)

pub replace_api_key-Silent : (k : ApiKey) → Silent (replace_api_key k)
unfolding replace_api_key
replace_api_key-Silent k =
    Silent-bind Silent-now
      (λ t. Silent-run_in_tx (Silent-bind (Silent-change _) (λ x. Silent-statement _)))

-- The one key of a user is the new one.
abbrev pub Replaced : ℕ → String → List ApiKey → Type 0
Replaced user ref keys =
    (k : ApiKey) × (find? (λ (r : ApiKey). r.user_id == user) keys ≡ some k)
    × (k.key_ref ≡ ref)
    × (count_if (λ (r : ApiKey). r.user_id == user) keys ≡ 1)

count_if-append_none :
    (p : ApiKey → Bool) (xs : List ApiKey) (k : ApiKey)
    → any p xs ≡ false
    → p k ≡ true
    → count_if p (xs ++ k ∷ []) ≡ 1
unfolding count_if
count_if-append_none p xs k n h = ground (arith, count_if-append p xs (k ∷ []), count_if_none p xs)

insert_ok :
    (b c : Bool) (id id' : ℕ) (d d' : Db)
    → (let r : Result (ℕ × Db) = if b || c then err constraint else ok (id, d) in r) ≡ ok (id', d')
    → (b ≡ false) × (d' ≡ d)
insert_ok b c id id' d d' e = ground arith

insert_key-Replaced :
    (k : ApiKey) (d : Db) (id : ℕ) (d' : Db)
    → insert_key k d ≡ ok (id, d')
    → Replaced k.user_id k.key_ref d'.keys
unfolding insert_key
insert_key-Replaced k d id d' e =
    let row : ApiKey = record k { id = d.seqs.key_seq } in
    let p : ApiKey → Bool = λ r. r.user_id == k.user_id in
    let h = insert_ok _ _ _ _ _ _ e in
    subst (λ (d : Db). Replaced k.user_id k.key_ref d.keys) (sym h.1)
      (
        row,
        find?-append_none p d.keys row h.0 (ground arith),
        refl,
        count_if-append_none p d.keys row h.0 (ground arith),
      )

-- The three ways to store the new row: refused before the transaction, rolled back, or done.
pub replace-Replaced :
    (k : ApiKey)
    → Ensures (λ d. Unit {0}) (replace_api_key k) (λ id d. Replaced k.user_id k.key_ref d.keys)
unfolding replace_api_key
replace-Replaced k =
    Ensures-bind (λ t d. Unit {0}) (Ensures-now (λ d t p. tt))
      (λ t. Ensures-run_in_tx (
        Ensures-bind (λ x d. Unit {0}) (Ensures-change _ (λ d p. tt))
          (λ x.
            Ensures-statement _
              (λ d id d' p e. insert_key-Replaced (record k { created_at = t }) d id d' e))))

revoke_old_keys : (k : Option ApiKey) → KeepsKeys (revoke_old k)
unfolding revoke_old
revoke_old_keys none = KeepsKeys-pure tt
revoke_old_keys (some k) = KeepsKeys-bind (KeepsKeys-call _) (λ r. KeepsKeys-pure tt)

stash_keys :
    (user : ℕ) (s : String) (f : KeyFlash) (t : Option String) → KeepsKeys (stash user s f t)
unfolding stash
stash_keys user s f none = KeepsKeys-pure _
stash_keys user s f (some t) =
    KeepsKeys-bind KeepsKeys-now (λ a. KeepsKeys-bind KeepsKeys-now (λ b. KeepsKeys-pure _))

stash-Silent :
    (user : ℕ) (s : String) (f : KeyFlash) (t : Option String) → Silent (stash user s f t)
unfolding stash
stash-Silent user s f none = Silent-pure _
stash-Silent user s f (some t) =
    Silent-bind Silent-now (λ a. Silent-bind Silent-now (λ b. Silent-pure _))

pub finish_new_keys :
    (u : User) (f : KeyFlash) (k : Option ApiKey) (s : String) → KeepsKeys (finish_new u f k s)
unfolding finish_new
finish_new_keys u f k s = KeepsKeys-bind (revoke_old_keys k) (λ x.
    KeepsKeys-bind (audit_keys _ u _)
      (λ y. KeepsKeys-bind KeepsKeys-token (λ t. stash_keys u.id s f t)))

-- What follows the deletion of the old key.
finish_rest-Silent :
    (u : User) (f : KeyFlash) (s : String)
    → Silent
        (audit key_generated u (concat ("key " ∷ prefix_of s ∷ [])) >> (token >>= stash u.id s f))
finish_rest-Silent u f s =
    Silent-bind (audit-Silent _ u _) (λ y. Silent-bind Silent-token (λ t. stash-Silent u.id s f t))

pub finish_new_sent :
    (u : User) (f : KeyFlash) (k : Option ApiKey) (s : String) (v : World)
    → (finish_new u f k s v).1.sent ≡ v.sent ++ old_calls k
unfolding finish_new revoke_old ◌>>=◌ call
finish_new_sent u f none s v = (finish_rest-Silent u f s).at v ∙ sym (append_nil v.sent)
finish_new_sent u f (some k) s v = (finish_rest-Silent u f s).at _
