-- ===== src/Database/KeyMap.antt =====
-- What the Store's methods for API keys promise: at most one key for each user, as a map from users.
pub mod Refines
use ai_self_service.Prelude.{
  ℕ, suc, ◌+◌, ◌≤◌, ◌≡◌, refl, sym, ap, ◌∙◌, arith, Bool, true, false, not, ◌&&◌, ◌||◌, Option,
  none, some, String, List, [], ◌∷◌, ◌++◌, ◌==◌, ==_iff, find?, any, count_if, update_if, delete_if,
  filter, if◌then◌else◌, count_if-append, count_if-update_if, count_if-delete_if, count_if_mono,
  count_if_none, find?-append_none, Bool-cases, inl, inr,
}
use ai_self_service.Database.Models.{ApiKey, Time}
use ai_self_service.Database.Tables.{Db}
use ai_self_service.Database.Keys.{has_id}

-- What the portal shows of a key and finds it by.
pub record Held : Type 0 where
  pub id : ℕ
  pub key_ref : String
  pub key_prefix : String
  pub expires_at : Time

-- The key of each user, and the number that the next key gets.
pub record KeyMap : Type 0 where
  pub held : ℕ → Option Held
  pub next : ℕ

abbrev pub held_row : ApiKey → Held
held_row k = record {
  id = k.id;
  key_ref = k.key_ref;
  key_prefix = k.key_prefix;
  expires_at = k.expires_at;
}

abbrev pub held? : Option ApiKey → Option Held
held? none = none
held? (some k) = some (held_row k)

abbrev pub owned_by : ℕ → ApiKey → Bool
owned_by user k = k.user_id == user

-- The map that the tables hold.
unfoldable pub key_map : Db → KeyMap
key_map d = record { held = λ user. held? (find? (owned_by user) d.keys); next = d.seqs.key_seq }

-- The methods that write keys, with what they are given.
pub data KeyWrite : Type 0 where
  creates replaces : ApiKey → KeyWrite
  moves : ℕ → Time → KeyWrite
  deletes : ℕ → KeyWrite

unfoldable pub give : ApiKey → KeyMap → KeyMap
give k m = record {
  held =
      λ user. if k.user_id == user then some (record (held_row k) { id = m.next }) else m.held user;
  next = suc m.next;
}

abbrev pub moved : ℕ → Time → Option Held → Option Held
moved id at none = none
moved id at (some h) = some (if h.id == id then record h { expires_at = at } else h)

abbrev pub without : ℕ → Option Held → Option Held
without id none = none
without id (some h) = if h.id == id then none else some h

abbrev pub create_on : ApiKey → Option Held → KeyMap → KeyMap
create_on k none m = give k m
create_on k (some h) m = m

-- What a method that succeeds does to the map. A user who has a key gets no second one.
unfoldable pub apply : KeyWrite → KeyMap → KeyMap
unfolding give
apply (creates k) m = create_on k (m.held k.user_id) m
apply (replaces k) m = give k m
apply (moves id at) m = record m { held = λ user. moved id at (m.held user) }
apply (deletes id) m = record m { held = λ user. without id (m.held user) }

-- The UNIQUE index on the owner.
abbrev pub OneEach : List ApiKey → Type 0
OneEach keys = (user : ℕ) → count_if (owned_by user) keys ≤ 1

-- The tables hold a map, and at most one key for each user.
pub record Holds (m : KeyMap) (d : Db) : Type 0 where
  pub one_each : OneEach d.keys
  pub next : d.seqs.key_seq ≡ m.next
  pub held : (user : ℕ) → held? (find? (owned_by user) d.keys) ≡ m.held user

module _ (user : ℕ) where
  pub find?-append :
      (xs : List ApiKey) (k : ApiKey)
      → (owned_by user k ≡ true → any (owned_by user) xs ≡ false)
      → find? (owned_by user) (xs ++ k ∷ [])
        ≡ (if owned_by user k then some k else find? (owned_by user) xs)
  unfolding find? any
  find?-append [] k h = ground arith
  find?-append (x ∷ xs) k h = ground (arith, h, find?-append xs k)

  pub find?-delete_own :
      (v : ℕ) (xs : List ApiKey)
      → find? (owned_by user) (delete_if (λ r. r.user_id == v) xs)
        ≡ (if v == user then none else find? (owned_by user) xs)
  unfolding find? delete_if filter
  find?-delete_own v [] = ground arith
  find?-delete_own v (x ∷ xs) = ground (arith, find?-delete_own v xs)

  none_lem : (xs : List ApiKey) → count_if (owned_by user) xs ≡ 0 → find? (owned_by user) xs ≡ none
  unfolding find? count_if
  none_lem [] h = refl
  none_lem (x ∷ xs) h = ground (arith, h, none_lem xs)

  pub held?-delete_id :
      (id : ℕ) (xs : List ApiKey)
      → count_if (owned_by user) xs ≤ 1
      → held? (find? (owned_by user) (delete_if (has_id id) xs))
        ≡ without id (held? (find? (owned_by user) xs))
  unfolding find? delete_if filter count_if
  held?-delete_id id [] h = refl
  held?-delete_id id (x ∷ xs) h = ground (arith, none_lem xs, held?-delete_id id xs, h)

  pub held?-move :
      (id : ℕ) (at : Time) (xs : List ApiKey)
      → held? (find? (owned_by user) (update_if (has_id id) (λ k. record k { expires_at = at }) xs))
        ≡ moved id at (held? (find? (owned_by user) xs))
  unfolding find? update_if
  held?-move id at [] = refl
  held?-move id at (x ∷ xs) = ground (arith, held?-move id at xs)
