-- ===== src/LimitSync/Open.antt =====
-- The keys that a run of the sync still has to push, counted by their ids, and what a write of the
-- sync does to that count.
use ai_self_service.Prelude.{
  ℕ, ◌≤◌, ◌≡◌, refl, sym, ap, ◌∙◌, subst, arith, Bool, true, false, not, ◌&&◌, Option, none, some,
  List, [], ◌∷◌, map, String, ◌==◌, is_some, find?, count_if, update_if, All, All_map, All_unmap,
  if◌then◌else◌, Bool-cases, inl, inr,
}
use ai_self_service.Database.Models.{ApiKey, User, Profile, Time, AuditEvent}
use ai_self_service.Database.Tables.{Db, Sequences, update_keys, insert_event}
use ai_self_service.Database.Keys.{has_id, unmarked}
use ai_self_service.Database.Pending.{out_of_date_iff}
use ai_self_service.Database.SyncQueries.{
  LimitSyncTarget, effective_id, find_profile, out_of_date, synced_with,
}

abbrev no_numbers : Sequences
no_numbers = record {
  profile_seq = 0;
  quota_seq = 0;
  user_seq = 0;
  key_seq = 0;
  session_seq = 0;
  event_seq = 0;
  notice_seq = 0;
}

-- What decides the limits of a key: the accounts and the profiles.
abbrev pub settings : Db → Db
settings d = record {
  profiles = d.profiles;
  quotas = [];
  users = d.users;
  keys = [];
  sessions = [];
  events = [];
  notices = [];
  seqs = no_numbers;
}

-- Whose key each one is.
abbrev pub id_and_owner : ApiKey → ℕ × ℕ
id_and_owner k = (k.id, k.user_id)

abbrev pub owners : Db → List (ℕ × ℕ)
owners d = map id_and_owner d.keys

unfoldable pub is_open_for : ApiKey → Db → Option User → Bool
is_open_for k d none = false
is_open_for k d (some u) =
    not (is_some k.missing_since)
    && out_of_date k u (effective_id u d) (find_profile (effective_id u d) d)

-- The key is not marked and is out of date, expired or not.
unfoldable pub is_open : Db → ApiKey → Bool
unfolding is_open_for
is_open d k = is_open_for k d (find? (λ (u : User). u.id == k.user_id) d.users)

unfoldable pub open_in : (ℕ → Bool) → Db → List ApiKey → ℕ
unfolding is_open
open_in q s keys = count_if (λ (k : ApiKey). q k.id && is_open s k) keys

abbrev pub open_keys : (ℕ → Bool) → Db → ℕ
open_keys q d = open_in q (settings d) d.keys

-- What a write of the sync keeps: the accounts, the profiles and the owners of the keys; and no key
-- has to be pushed that did not have to be before.
pub record Calms (d d' : Db) : Type 0 where
  pub kept : settings d' ≡ settings d
  pub owned : owners d' ≡ owners d
  pub fewer : (q : ℕ → Bool) → open_keys q d' ≤ open_keys q d

pub Calms-refl : (d : Db) → Calms d d
Calms-refl d = record { kept = refl; owned = refl; fewer = λ q. omega arith }

pub Calms-trans : (a b c : Db) → Calms a b → Calms b c → Calms a c
Calms-trans a b c f g = record {
  kept = g.kept ∙ f.kept;
  owned = g.owned ∙ f.owned;
  fewer = λ q. omega (arith, f.fewer q, g.fewer q);
}

pub owners-update_if :
    (p : ApiKey → Bool) (f : ApiKey → ApiKey) (keys : List ApiKey)
    → ((k : ApiKey) → id_and_owner (if p k then f k else k) ≡ id_and_owner k)
    → map id_and_owner (update_if p f keys) ≡ map id_and_owner keys
unfolding update_if
owners-update_if p f [] h = refl
owners-update_if p f (k ∷ keys) h = ground (arith, h k, owners-update_if p f keys h)

-- A write that opens no key.
module _ (s : Db) (p : ApiKey → Bool) (f : ApiKey → ApiKey) where
  open_in-update_if :
      (q : ℕ → Bool) (keys : List ApiKey)
      → ((k : ApiKey) → id_and_owner (if p k then f k else k) ≡ id_and_owner k)
      → All (λ k. p k ≡ true → is_open s (f k) ≡ true → is_open s k ≡ true) keys
      → open_in q s (update_if p f keys) ≤ open_in q s keys
  unfolding open_in update_if count_if
  open_in-update_if q [] same h = omega arith
  open_in-update_if q (k ∷ keys) same (x, h) =
      ground (arith, ap (λ (o : ℕ × ℕ). o.0) (same k), x, open_in-update_if q keys same h)

  -- A write that leaves no key with the id open.
  none_open-update_if :
      (id : ℕ) (keys : List ApiKey)
      → ((k : ApiKey) → id_and_owner (if p k then f k else k) ≡ id_and_owner k)
      → All (λ k. k.id ≡ id → is_open s (if p k then f k else k) ≡ false) keys
      → open_in (λ i. i == id) s (update_if p f keys) ≡ 0
  unfolding open_in update_if count_if
  none_open-update_if id [] same h = refl
  none_open-update_if id (k ∷ keys) same (x, h) =
      ground (arith, ap (λ (o : ℕ × ℕ). o.0) (same k), x, none_open-update_if id keys same h)

  pub update-Calms :
      (d : Db)
      → settings d ≡ s
      → ((k : ApiKey) → id_and_owner (if p k then f k else k) ≡ id_and_owner k)
      → All (λ k. p k ≡ true → is_open s (f k) ≡ true → is_open s k ≡ true) d.keys
      → Calms d (update_keys p f d)
  unfolding update_keys
  update-Calms d e same h = record {
    kept = refl;
    owned = owners-update_if p f d.keys same;
    fewer = λ q.
        subst (λ (x : Db). open_in q x (update_if p f d.keys) ≤ open_in q x d.keys) (sym e)
          (open_in-update_if q d.keys same h);
  }

-- No key with the id has to be pushed.
abbrev pub IsShut : ℕ → Db → Type 0
IsShut id d = open_keys (λ i. i == id) d ≡ 0

pub IsShut-Calms : (id : ℕ) (d d' : Db) → Calms d d' → IsShut id d → IsShut id d'
IsShut-Calms id d d' c h = omega (arith, c.fewer (λ i. i == id), h)

pub insert_event-Calms : (e : AuditEvent) (d : Db) → Calms d (insert_event e d)
unfolding insert_event
insert_event-Calms e d = record { kept = refl; owned = refl; fewer = λ q. omega arith }

All_always : {P : ApiKey → Type 0} (keys : List ApiKey) → ((k : ApiKey) → P k) → All P keys
All_always [] h = tt
All_always (k ∷ keys) h = (h k, All_always keys h)

-- `MarkLimitSyncFailed`'s write.
pub failure-Calms :
    (id : ℕ) (reason : String) (at : Time) (d : Db)
    → Calms d (
        update_keys (has_id id) (λ k. record k { sync_error = reason; sync_failed_at = some at }) d)
unfolding is_open out_of_date
failure-Calms id reason at d =
    update-Calms (settings d) (has_id id) _ d refl (λ k. ground arith)
      (All_always d.keys (λ k. ground arith))

is_open_for-missing :
    (s : Db) (k : ApiKey) (o : Option User)
    → is_some k.missing_since ≡ true
    → is_open_for k s o ≡ false
unfolding is_open_for
is_open_for-missing s k none h = refl
is_open_for-missing s k (some u) h = ground arith

marked-not_open :
    (s : Db) (id : ℕ) (at : Time) (k : ApiKey)
    → k.id ≡ id
    → is_open s (if unmarked id k then record k { missing_since = some at } else k) ≡ false
unfolding is_open
marked-not_open s id at k e = elim (Bool-cases (unmarked id k)) [
  | inl h ↦ ground (
    arith,
    h,
    is_open_for-missing s (record k { missing_since = some at })
        (find? (λ (u : User). u.id == k.user_id) s.users) refl,
  )
  | inr h ↦
      ground
        (arith, h, e, is_open_for-missing s k (find? (λ (u : User). u.id == k.user_id) s.users))
]

-- `MarkKeyMissing`'s write.
module _ (id : ℕ) (at : Time) (d : Db) where
  abbrev marked : Db
  marked = update_keys (unmarked id) (λ k. record k { missing_since = some at }) d

  pub mark-Calms : Calms d marked
  unfolding is_open
  mark-Calms =
      update-Calms (settings d) (unmarked id) _ d refl (λ k. ground arith)
        (All_always d.keys (λ k e h. ground (
          arith,
          h,
          is_open_for-missing (settings d) (record k { missing_since = some at })
              (find? (λ (u : User). u.id == k.user_id) d.users) refl,
        )))

  pub mark-IsShut : IsShut id marked
  unfolding update_keys
  mark-IsShut =
      none_open-update_if (settings d) (unmarked id) _ id d.keys (λ k. ground arith)
        (All_always d.keys (λ k e. marked-not_open (settings d) id at k e))

-- The row of a target is still the one that a key's owner and profile give.
abbrev pub Owned : LimitSyncTarget → Db → ℕ → Type 0
Owned t s user_id =
    (u : User) × (find? (λ (r : User). r.id == user_id) s.users ≡ some u)
    × (effective_id u s ≡ t.profile_id)
    × (u.name ≡ t.name)
    × (u.email ≡ t.email)

abbrev pub FitsIn : LimitSyncTarget → Db → List (ℕ × ℕ) → Type 0
FitsIn t s os = All (λ (o : ℕ × ℕ). o.0 ≡ t.key_id → Owned t s o.1) os

abbrev pub Fits : LimitSyncTarget → Db → Type 0
Fits t d = FitsIn t (settings d) (owners d)

pub Fits-Calms : (t : LimitSyncTarget) (d d' : Db) → Calms d d' → Fits t d → Fits t d'
Fits-Calms t d d' c h =
    subst (λ (os : List (ℕ × ℕ)). FitsIn t (settings d') os) (sym c.owned)
      (subst (λ (s : Db). FitsIn t s (owners d)) (sym c.kept) h)

-- The profile that the code loaded for a target.
abbrev pub IsLoaded : LimitSyncTarget → ℕ → ℕ → Db → Type 0
IsLoaded t id rev s =
    (t.profile_id ≡ some id)
    × ((p : Profile) × (find_profile (some id) s ≡ some p) × (p.limits_rev ≡ rev))

synced-not_open :
    (t : LimitSyncTarget) (id rev : ℕ) (s : Db) (k : ApiKey)
    → IsLoaded t id rev s
    → Owned t s k.user_id
    → is_open s (synced_with id rev t.name t.email k) ≡ false
unfolding is_open is_open_for
synced-not_open t id rev s k (et, (p, ep, er)) (u, found, profile, name, email) =
    let k' : ApiKey = synced_with id rev t.name t.email k in
    let fresh = (out_of_date_iff k' u (effective_id u s) (find_profile (effective_id u s) s)).1 (
      p,
      ap (λ (o : Option ℕ). find_profile o s) (profile ∙ et) ∙ ep,
      sym (profile ∙ et),
      ap (λ n. some n) (sym er),
      ap (λ n. some n) (sym name),
      ap (λ n. some n) (sym email),
    ) in
    ap (is_open_for k' s) found ∙ ground (arith, fresh)

-- `MarkLimitsSynced`'s write.
module _ (t : LimitSyncTarget) (id rev : ℕ) (d : Db) (loaded : IsLoaded t id rev (settings d))
    (fits : Fits t d) where
  abbrev recorded_push : Db
  recorded_push = update_keys (has_id t.key_id) (synced_with id rev t.name t.email) d

  shut : All (λ k. k.id ≡ t.key_id → Owned t (settings d) k.user_id) d.keys
  shut = All_unmap _ id_and_owner d.keys fits

  pub synced-Calms : Calms d recorded_push
  synced-Calms =
      update-Calms (settings d) (has_id t.key_id) _ d refl (λ k. ground arith)
        (All_map _ _ d.keys
          (λ k o e h.
            ground
              (arith, h, synced-not_open t id rev (settings d) k loaded (o (ground (arith, e)))))
          shut)

  pub synced-IsShut : IsShut t.key_id recorded_push
  unfolding update_keys
  synced-IsShut =
      none_open-update_if (settings d) (has_id t.key_id) _ t.key_id d.keys (λ k. ground arith)
        (All_map _ _ d.keys
          (λ k o e. ground (arith, e, synced-not_open t id rev (settings d) k loaded (o e))) shut)
