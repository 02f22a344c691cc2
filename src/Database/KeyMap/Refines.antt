-- ===== src/Database/KeyMap/Refines.antt =====
-- The Store's methods for API keys carry out what the map of keys promises, whatever fails.
use ai_self_service.Prelude.{
  ℕ, ◌≡◌, refl, sym, ap, ◌∙◌, subst, arith, Bool, true, false, not, ◌&&◌, ◌||◌, none, List, [], ◌∷◌,
  ◌==◌, find?, any, count_if, if◌then◌else◌, count_if-append, count_if-update_if,
  count_if-delete_if, count_if_mono, count_if_none,
}
use ai_self_service.Database.Models.{ApiKey, Time}
use ai_self_service.Database.Errors.{Result, ok, err, constraint}
use ai_self_service.Database.Tables.{Db, insert_key, update_keys, delete_keys, delete_notices_of}
use ai_self_service.Database.Keys.{
  has_id, create_api_key, replace_api_key, update_api_key_expiry, delete_api_key,
}
use ai_self_service.Database.Writes.{Write, write, ignore}
use ai_self_service.Database.Atomicity.{write-Atomic}
use ai_self_service.Database.KeyMap.{
  KeyMap, held?, owned_by, key_map, KeyWrite, creates, replaces, moves, deletes, give, create_on,
  apply, OneEach, Holds, find?-append, find?-delete_own, held?-delete_id, held?-move, moved,
  without,
}
use ai_self_service.Exec.{Exec, World}
use ai_self_service.Exec.Ensures.{
  Ensures, Ensures-pure, Ensures-statement, Ensures-change, Ensures-now, Ensures-run_in_tx,
  Ensures-bind,
}

unfoldable pub key_write : KeyWrite → Write
key_write (creates k) = Write.creates_key k
key_write (replaces k) = Write.replaces_key k
key_write (moves id at) = Write.moves_expiry id at
key_write (deletes id) = Write.deletes_key id

abbrev is_ok : {A : Type 0} → Result A → Bool
is_ok (ok a) = true
is_ok (err e) = false

-- The methods one after the other, with which of them succeeded.
unfoldable pub perform : List KeyWrite → World → List Bool × World
unfolding key_write
perform [] w = ([], w)
perform (o ∷ os) w =
    let (r, w') = write (key_write o) w in let (rest, v) = perform os w' in (is_ok r ∷ rest, v)

-- The same methods on the map, those that succeeded.
unfoldable pub replay : List KeyWrite → List Bool → KeyMap → KeyMap
replay [] bs m = m
replay (o ∷ os) [] m = m
replay (o ∷ os) (true ∷ bs) m = replay os bs (apply o m)
replay (o ∷ os) (false ∷ bs) m = replay os bs m

insert_ok :
    (b c : Bool) (id id' : ℕ) (d d' : Db)
    → (let r : Result (ℕ × Db) = if b || c then err constraint else ok (id, d) in r) ≡ ok (id', d')
    → (b ≡ false) × (d' ≡ d)
insert_ok b c id id' d d' e = ground arith

-- What an insert of a key needs: the map but for the key's owner.
record Fits (k : ApiKey) (m : KeyMap) (d : Db) : Type 0 where
  one_each : OneEach d.keys
  next : d.seqs.key_seq ≡ m.next
  others :
      (user : ℕ) → (k.user_id == user) ≡ false → held? (find? (owned_by user) d.keys) ≡ m.held user

Holds-Fits : (k : ApiKey) (m : KeyMap) (d : Db) → Holds m d → Fits k m d
Holds-Fits k m d h = record { one_each = h.one_each; next = h.next; others = λ user n. h.held user }

any_lem :
    (user v : ℕ) (keys : List ApiKey)
    → (v == user) ≡ true
    → any (λ (r : ApiKey). r.user_id == v) keys ≡ false
    → any (owned_by user) keys ≡ false
unfolding any
any_lem user v [] e h = refl
any_lem user v (k ∷ keys) e h = ground (arith, any_lem user v keys)

insert_key-Holds :
    (k : ApiKey) (at : Time) (m : KeyMap) (d : Db) (id : ℕ) (d' : Db)
    → Fits k m d
    → insert_key (record k { created_at = at }) d ≡ ok (id, d')
    → Holds (give k m) d' × (any (λ (r : ApiKey). r.user_id == k.user_id) d.keys ≡ false)
unfolding insert_key give count_if
insert_key-Holds k at m d id d' f e =
    let row : ApiKey = record k { id = d.seqs.key_seq; created_at = at } in
    let h = insert_ok _ _ _ _ _ _ e in
    (
      subst (λ (x : Db). Holds (give k m) x) (sym h.1)
          (record {
            one_each = λ user. ground (
              arith,
              f.one_each user,
              count_if-append (owned_by user) d.keys (row ∷ []),
              count_if_none (owned_by user) d.keys,
              any_lem user k.user_id d.keys,
              h.0,
            );
            next = ground (arith, f.next);
            held = λ user.
                ap held? (find?-append user d.keys row (λ q. any_lem user k.user_id d.keys q h.0))
                ∙ ground (arith, f.next, f.others user);
          }),
      h.0,
    )

-- What each method does to the map when it succeeds.
abbrev Performs : KeyWrite → Type 0
Performs o = (m : KeyMap) → Ensures (Holds m) (write (key_write o)) (λ _ d. Holds (apply o m) d)

ignore-Ensures :
    {A : Type 0} {P Q : Db → Type 0} {m : Exec A}
    → Ensures P m (λ _. Q)
    → Ensures P (ignore m) (λ _. Q)
ignore-Ensures {Q} h = Ensures-bind (λ _. Q) h (λ a. Ensures-pure tt (λ d q. q))

find?-none : (p : ApiKey → Bool) (xs : List ApiKey) → any p xs ≡ false → find? p xs ≡ none
unfolding any find?
find?-none p [] h = refl
find?-none p (x ∷ xs) h = ground (arith, h, find?-none p xs)

no_key :
    (user : ℕ) (m : KeyMap) (d : Db)
    → Holds m d
    → any (owned_by user) d.keys ≡ false
    → m.held user ≡ none
no_key user m d h n = sym (h.held user) ∙ ap held? (find?-none (owned_by user) d.keys n)

creates-Performs : (k : ApiKey) → Performs (creates k)
unfolding write key_write create_api_key apply
creates-Performs k m = ignore-Ensures (
    Ensures-bind (λ t. Holds m) (Ensures-now (λ d t h. h))
      (λ at. Ensures-statement _ (λ d id d' h e.
        let (holds, n) = insert_key-Holds k at m d id d' (Holds-Fits k m d h) e in
        subst (λ o. Holds (create_on k o m) d') (sym (no_key k.user_id m d h n)) holds)))

delete_own-Fits :
    (k : ApiKey) (m : KeyMap) (d : Db)
    → Holds m d
    → Fits k m (delete_keys (λ r. r.user_id == k.user_id) d)
unfolding delete_keys
delete_own-Fits k m d h = record {
  one_each = λ user. ground (
    arith,
    h.one_each user,
    count_if-delete_if (owned_by user) (λ r. r.user_id == k.user_id) d.keys,
    count_if_mono (λ r. owned_by user r && not (r.user_id == k.user_id)) (owned_by user) d.keys
        (λ x. ground arith),
  );
  next = h.next;
  others =
      λ user n. ap held? (find?-delete_own user k.user_id d.keys) ∙ ground (arith, n, h.held user);
}

replaces-Performs : (k : ApiKey) → Performs (replaces k)
unfolding write key_write replace_api_key apply
replaces-Performs k m = ignore-Ensures (
    Ensures-bind (λ t. Holds m) (Ensures-now (λ d t h. h))
      (λ at. Ensures-run_in_tx (
        Ensures-bind (λ _. Fits k m) (Ensures-change _ (λ d h. delete_own-Fits k m d h))
          (λ _. Ensures-statement _ (λ d id d' f e. (insert_key-Holds k at m d id d' f e).0)))))

move-Holds :
    (id : ℕ) (at : Time) (m : KeyMap) (d : Db)
    → Holds m d
    → Holds (apply (moves id at) m) (update_keys (has_id id) (λ k. record k { expires_at = at }) d)
unfolding update_keys apply
move-Holds id at m d h = record {
  one_each = λ user. ground (
    arith,
    h.one_each user,
    count_if-update_if (owned_by user) (has_id id) (owned_by user)
        (λ k. record k { expires_at = at }) d.keys (λ x. ground arith),
  );
  next = h.next;
  held = λ user. held?-move user id at d.keys ∙ ap (moved id at) (h.held user);
}

notices_aside : (id : ℕ) (m : KeyMap) (d : Db) → Holds m d → Holds m (delete_notices_of id d)
unfolding delete_notices_of
notices_aside id m d h = record { one_each = h.one_each; next = h.next; held = h.held }

moves-Performs : (id : ℕ) (at : Time) → Performs (moves id at)
unfolding write key_write update_api_key_expiry
moves-Performs id at m = ignore-Ensures (
    Ensures-run_in_tx (
      Ensures-bind (λ _. Holds (apply (moves id at) m))
        (Ensures-change _ (λ d h. move-Holds id at m d h))
        (λ _. Ensures-change _ (λ d h. notices_aside id _ d h))))

delete-Holds :
    (id : ℕ) (m : KeyMap) (d : Db)
    → Holds m d
    → Holds (apply (deletes id) m) (delete_keys (has_id id) d)
unfolding delete_keys apply
delete-Holds id m d h = record {
  one_each = λ user. ground (
    arith,
    h.one_each user,
    count_if-delete_if (owned_by user) (has_id id) d.keys,
    count_if_mono (λ r. owned_by user r && not (has_id id r)) (owned_by user) d.keys
        (λ x. ground arith),
  );
  next = h.next;
  held = λ user. held?-delete_id user id d.keys (h.one_each user) ∙ ap (without id) (h.held user);
}

deletes-Performs : (id : ℕ) → Performs (deletes id)
unfolding write key_write delete_api_key
deletes-Performs id m = ignore-Ensures (Ensures-change _ (λ d h. delete-Holds id m d h))

performs : (o : KeyWrite) → Performs o
performs (creates k) = creates-Performs k
performs (replaces k) = replaces-Performs k
performs (moves id at) = moves-Performs id at
performs (deletes id) = deletes-Performs id

after_one :
    (o : KeyWrite) (os : List KeyWrite) (bs : List Bool) (m : KeyMap) (w : World)
    (r : Result (Unit {0}))
    → (write (key_write o) w).0 ≡ r
    → Holds m w.db
    → (m' : KeyMap) × Holds m' (write (key_write o) w).1.db
      × (replay (o ∷ os) (is_ok r ∷ bs) m ≡ replay os bs m')
unfolding replay
after_one o os bs m w (ok u) e h = (apply o m, (performs o m).at w h u e, refl)
after_one o os bs m w (err x) e h =
    (m, subst (Holds m) (sym ((write-Atomic (key_write o)).at w x e)) h, refl)

perform-Holds :
    (os : List KeyWrite) (w : World) (m : KeyMap)
    → Holds m w.db
    → Holds (replay os (perform os w).0 m) (perform os w).1.db
unfolding perform replay
perform-Holds [] w m h = h
perform-Holds (o ∷ os) w m h =
    let w' = (write (key_write o) w).1 in
    let (m', h', e) = after_one o os (perform os w').0 m w (write (key_write o) w).0 refl h in
    subst (λ x. Holds x (perform os w').1.db) (sym e) (perform-Holds os w' m' h')

-- Whatever fails, a sequence of calls that create, replace, extend and delete keys leaves the tables
-- with the map of keys that the calls that succeeded make of the first one, and with at most one key
-- for each user, if the tables had that at first.
pub perform-Refines :
    (os : List KeyWrite) (w : World)
    → OneEach w.db.keys
    → Holds (replay os (perform os w).0 (key_map w.db)) (perform os w).1.db
unfolding key_map
perform-Refines os w h =
    perform-Holds os w (key_map w.db) (record { one_each = h; next = refl; held = λ user. refl })
