-- ===== src/Handlers/Keys/Generated.antt =====
-- internal/handlers/ui.go: what becomes of the keys when a user generates one.
use ai_self_service.Prelude.{
  append_assoc, ℕ, String, Option, none, some, List, [], ◌∷◌, ◌++◌, ◌≡◌, ◌⊎◌, inl, inr, refl, sym,
  ap, ◌∙◌, subst, find?,
}
use ai_self_service.Keyprovider.{GatewayError}
use ai_self_service.Config.{Config, litellm_user}
use ai_self_service.Database.Models.{Profile, User, ApiKey, Time, limits}
use ai_self_service.Database.Errors.{Error, Result, ok, err, io}
use ai_self_service.Database.Tables.{Db}
use ai_self_service.Database.Profiles.Reads.{
  get_profile, get_default_profile, default_row, profile_by_id,
}
use ai_self_service.Database.Keys.{get_api_key_by_user, replace_api_key}
use ai_self_service.Alias.{new_alias}
use ai_self_service.Exec.{
  Env, World, GatewayCall, Created, created, refused, create_key, delete_key, create, call, step,
  continue, attempt, ◌>>=◌,
}
use ai_self_service.Exec.KeepsKeys.{query_cases}
use ai_self_service.Exec.Quiet.{
  Same, Quiet, Quiet-pure, Quiet-raise, Quiet-now, Quiet-random, Quiet-days_after, Quiet-bind,
  Quiet-then,
}
use ai_self_service.Handlers.Flash.{KeyFlash}
use ai_self_service.Handlers.Keys.{
  resolve_profile, alias_or_raise, new_row, after_store, after_create, new_key, generate,
}
use ai_self_service.Handlers.Keys.NewRow.{
  of_user, old_calls, Replaced, replace_api_key-Atomic, replace_api_key-Silent, replace-Replaced,
  finish_new_keys, finish_new_sent,
}

-- The profile that applies to a user, in the tables.
unfoldable pub effective : Option ℕ → Db → Result Profile
effective none d = default_row d
effective (some id) d = profile_by_id id d

-- The call that a request of the user makes: it is in the name of the user, and with the limits of the
-- profile that applies to them.
pub record Asks (cfg : Config) (u : User) (w : World) (c : GatewayCall) : Type 0 where
  pub alias : List ℕ
  pub expires : Time
  pub profile : Profile
  pub applies : effective u.profile_id w.db ≡ ok profile
  pub is :
      c
      ≡ create_key alias
          (litellm_user cfg u.oidc_sub u.name u.email)
          expires
          (limits (some profile))

-- How a request to generate a key may end. `nothing_asked`: no call was made. `not_made`: the gateway
-- refused. `taken_back`: it made a key, the row could not be stored, and it was asked to delete that key.
-- `replaced`: it made a key, the one key of the user in the database is that key, and only then it
-- was asked to delete the old one.
pub data IsGenerated (cfg : Config) (u : User) (w w' : World) : Type 0 where
  nothing_asked : w'.db ≡ w.db → w'.sent ≡ w.sent → IsGenerated cfg u w w'
  not_made :
      (tick : ℕ) (c : GatewayCall) (e : GatewayError)
      → Asks cfg u w c
      → w.env.creates tick c ≡ refused e
      → w'.db ≡ w.db
      → w'.sent ≡ w.sent ++ c ∷ []
      → IsGenerated cfg u w w'
  taken_back :
      (tick : ℕ) (c : GatewayCall) (secret ref : String)
      → Asks cfg u w c
      → w.env.creates tick c ≡ created secret ref
      → w'.db ≡ w.db
      → w'.sent ≡ w.sent ++ c ∷ delete_key ref ∷ []
      → IsGenerated cfg u w w'
  replaced :
      (tick : ℕ) (c : GatewayCall) (secret ref : String)
      → Asks cfg u w c
      → w.env.creates tick c ≡ created secret ref
      → Replaced u.id ref w'.db.keys
      → w'.sent ≡ w.sent ++ c ∷ old_calls (find? (of_user u) w.db.keys)
      → IsGenerated cfg u w w'

new_alias-Quiet : (sub name : String) → Quiet (new_alias sub name)
unfolding new_alias
new_alias-Quiet sub name = Quiet-bind Quiet-random (λ hex. Quiet-pure _)

alias_or_raise-Quiet : (a : Option (List ℕ)) → Quiet (alias_or_raise a)
unfolding alias_or_raise
alias_or_raise-Quiet none = Quiet-raise _
alias_or_raise-Quiet (some a) = Quiet-pure a

module _ (cfg : Config) (u : User) (f : KeyFlash) (w : World) where
  -- After the row was stored, or not.
  after_store_lem :
      (tick : ℕ) (c : GatewayCall) (secret ref : String) (r : Result ℕ) (x : World)
      → Asks cfg u w c
      → w.env.creates tick c ≡ created secret ref
      → ((e : Error) → r ≡ err e → x.db ≡ w.db)
      → ((id : ℕ) → r ≡ ok id → Replaced u.id ref x.db.keys)
      → x.sent ≡ w.sent ++ c ∷ []
      → let existing = find? (of_user u) w.db.keys in
        IsGenerated cfg u w (after_store u f existing secret ref r x).1
  unfolding after_store ◌>>=◌ call
  after_store_lem tick c secret ref (err e) x asks made back done s =
      taken_back tick c secret ref asks made (back e refl) (
        ap (λ (l : List GatewayCall). l ++ delete_key ref ∷ []) s
        ∙ append_assoc w.sent (c ∷ []) (delete_key ref ∷ []))
  after_store_lem tick c secret ref (ok id) x asks made back done s =
      let old = find? (of_user u) w.db.keys in
      replaced tick c secret ref asks made
        (subst (Replaced u.id ref) (sym ((finish_new_keys u f old secret).at x)) (done id refl))
        (finish_new_sent u f old secret x
          ∙ (ap (λ (l : List GatewayCall). l ++ old_calls old) s
              ∙ append_assoc w.sent (c ∷ []) (old_calls old)))

  -- After the gateway answered.
  after_create_lem :
      (v x : World) (c : GatewayCall) (p : Profile) (expires : Time) (made : Created)
      → Same w x
      → v.db ≡ x.db
      → v.sent ≡ x.sent ++ c ∷ []
      → Asks cfg u w c
      → w.env.creates x.tick c ≡ made
      → IsGenerated cfg u w (after_create u f (find? (of_user u) w.db.keys) p expires made v).1
  unfolding after_create ◌>>=◌ attempt
  after_create_lem v x c p expires (refused e) s d t asks h =
      not_made x.tick c e asks h (d ∙ s.db) (t ∙ ap (λ (l : List GatewayCall). l ++ c ∷ []) s.sent)
  after_create_lem v x c p expires (created secret ref) s d t asks h =
      let row = new_row u p expires secret ref in
      let z = replace_api_key row v in
      after_store_lem x.tick c secret ref z.0 z.1 asks h
        (λ e q. (replace_api_key-Atomic row).at v e q ∙ (d ∙ s.db))
        (λ id q. (replace-Replaced row).at v tt id q)
        ((replace_api_key-Silent row).at v
          ∙ (t ∙ ap (λ (l : List GatewayCall). l ++ c ∷ []) s.sent))

  stop_lem : (v : World) → Same w v → IsGenerated cfg u w v
  stop_lem v s = nothing_asked s.db s.sent

  ask_lem :
      (v : World) (c : GatewayCall) (p : Profile) (expires : Time)
      → Same w v
      → Asks cfg u w c
      → let existing = find? (of_user u) w.db.keys in
        IsGenerated cfg u w ((create c >>= after_create u f existing p expires) v).1
  unfolding create ◌>>=◌
  ask_lem v c p expires s asks =
      let x : World = record (step v) { sent = v.sent ++ c ∷ [] } in
      after_create_lem x v c p expires (v.env.creates v.tick c) s refl refl asks
        (ap (λ (env : Env). env.creates v.tick c) (sym s.env))

  new_key_lem :
      (p : Profile) (v : World)
      → effective u.profile_id w.db ≡ ok p
      → Same w v
      → IsGenerated cfg u w (new_key cfg u f (find? (of_user u) w.db.keys) p v).1
  unfolding new_key
  new_key_lem p v a s =
      let G = IsGenerated cfg u w in
      Quiet-then G _ w v s (new_alias-Quiet u.oidc_sub u.name) stop_lem (λ hex v s.
        Quiet-then G _ w v s (alias_or_raise-Quiet hex) stop_lem (λ alias v s.
          Quiet-then G _ w v s Quiet-now stop_lem (λ at v s.
            Quiet-then G _ w v s (Quiet-days_after at _) stop_lem (λ expires v s.
              ask_lem v _ p expires s (record {
                alias = alias;
                expires = expires;
                profile = p;
                applies = a;
                is = refl;
              })))))

  profile_lem :
      (r : Result Profile) (v : World)
      → effective u.profile_id w.db ≡ r
      → Same w v
      → let existing = find? (of_user u) w.db.keys in
        IsGenerated cfg u w (continue r (new_key cfg u f existing) v).1
  profile_lem (err e) v h s = stop_lem v s
  profile_lem (ok p) v h s = new_key_lem p v h s

resolve_cases :
    (id : Option ℕ) (v : World)
    → (resolve_profile id v ≡ (err io, step v))
      ⊎ (resolve_profile id v ≡ (effective id v.db, step v))
unfolding resolve_profile effective get_profile get_default_profile
resolve_cases none v = query_cases default_row v
resolve_cases (some id) v = query_cases (profile_by_id id) v

-- After the user's key was read.
existing_lem :
    (cfg : Config) (u : User) (f : KeyFlash) (w : World)
    → let existing = find? (of_user u) w.db.keys in
      IsGenerated cfg u w
        ((resolve_profile u.profile_id >>= λ p. new_key cfg u f existing p) (step w)).1
unfolding ◌>>=◌
existing_lem cfg u f w =
    let existing = find? (of_user u) w.db.keys in
    let goal : Result Profile × World → Type 0 =
      λ z. IsGenerated cfg u w (continue z.0 (λ p. new_key cfg u f existing p) z.1).1 in
    let s : Same w (step (step w)) = record { db = refl; sent = refl; env = refl } in
    elim (resolve_cases u.profile_id (step w)) [
      | inl q ↦ subst goal (sym q) (stop_lem cfg u f w _ s)
      | inr q ↦ subst goal (sym q) (profile_lem cfg u f w _ _ refl s)
    ]

-- Whatever fails, a request to generate a key ends in one of four ways: the gateway was asked nothing
-- and the database is as it was; or it was asked to make one key, in the name of the user and with
-- the limits of their profile, and refused, and the database is as it was; or it made the key, which was
-- not recorded, the database is as it was, and it was asked to delete that key again; or it made the key,
-- the database has that key as the one key of the user, and after that it was asked to delete the key that the
-- user had before.
pub generate-IsGenerated :
    (cfg : Config) (u : User) (f : KeyFlash) (w : World)
    → IsGenerated cfg u w (generate cfg u f w).1
unfolding generate get_api_key_by_user ◌>>=◌
generate-IsGenerated cfg u f w =
    let owned : Db → Result (Option ApiKey) = λ d. ok (find? (of_user u) d.keys) in
    let goal : Result (Option ApiKey) × World → Type 0 = λ z.
      IsGenerated cfg u w
        (continue z.0 (λ k. resolve_profile u.profile_id >>= λ p. new_key cfg u f k p) z.1).1 in
    elim (query_cases owned w) [
      | inl q ↦
          subst goal (sym q)
            (stop_lem cfg u f w (step w) (record { db = refl; sent = refl; env = refl }))
      | inr q ↦ subst goal (sym q) (existing_lem cfg u f w)
    ]
