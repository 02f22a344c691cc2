-- ===== src/Handlers/KeyLock.antt =====
-- internal/handlers/keylock.go: the lock of each user's key. A request is in one of three places: it
-- waits for the token, it holds it, or it has given it back and not yet dropped its reference.
pub mod Sound
pub mod Exclusion
use ai_self_service.Prelude.{
  ℕ, suc, ◌+◌, ◌-◌, Bool, true, false, Option, none, some, List, [], ◌∷◌, ◌++◌, ◌≡◌, ◌==◌,
  if◌then◌else◌,
}

pub data Phase : Type 0 where
  waiting holding leaving : Phase

-- A call of `Lock`, with the entry that it got.
pub record Thread : Type 0 where
  pub user : ℕ
  pub entry : ℕ
  pub phase : Phase

-- `keyedLock`: the map, the fields of the entries by their address, and the next free address. `full`
-- says that the channel holds its one token.
pub record Locks : Type 0 where
  pub entries : ℕ → Option ℕ
  pub refs : ℕ → ℕ
  pub full : ℕ → Bool
  pub next : ℕ
  pub threads : List Thread

abbrev pub put {ℓ} : {A : Type ℓ} → (ℕ → A) → ℕ → A → ℕ → A
put f p v q = if q == p then v else f q

-- The entry of the user, made where there is none.
unfoldable pub find_entry : ℕ → Option ℕ → Locks → ℕ × Locks
find_entry user (some e) s = (e, s)
find_entry user none s = (
  s.next,
  record s {
    entries = put s.entries user (some s.next);
    refs = put s.refs s.next 0;
    full = put s.full s.next false;
    next = suc s.next;
  },
)

unfoldable pub wait_for : ℕ → ℕ × Locks → Locks
wait_for user (e, s) = record s {
  refs = put s.refs e (s.refs e + 1);
  threads = record { user = user; entry = e; phase = waiting } ∷ s.threads;
}

-- `Lock` up to its `select`, under the mutex.
unfoldable pub arrive : ℕ → Locks → Locks
unfolding find_entry wait_for
arrive user s = wait_for user (find_entry user (s.entries user) s)

-- `release`
unfoldable pub release : ℕ → ℕ → Locks → Locks
release user e s =
    let left = s.refs e - 1 in
    record s {
      refs = put s.refs e left;
      entries = if left == 0 then put s.entries user none else s.entries;
    }

-- What the requests may do, one at a time, in any order.
pub data Step (s : Locks) : Locks → Type 0 where
  arrives : (user : ℕ) → Step s (arrive user s)
  takes :
      (front back : List Thread) (t : Thread)
      → s.threads ≡ front ++ t ∷ back
      → t.phase ≡ waiting
      → s.full t.entry ≡ false
      → Step s (record s {
        full = put s.full t.entry true;
        threads = front ++ record t { phase = holding } ∷ back;
      })
  -- the context ends first
  gives_up :
      (front back : List Thread) (t : Thread)
      → s.threads ≡ front ++ t ∷ back
      → t.phase ≡ waiting
      → Step s (record (release t.user t.entry s) { threads = front ++ back })
  unlocks :
      (front back : List Thread) (t : Thread)
      → s.threads ≡ front ++ t ∷ back
      → t.phase ≡ holding
      → Step s (record s {
        full = put s.full t.entry false;
        threads = front ++ record t { phase = leaving } ∷ back;
      })
  leaves :
      (front back : List Thread) (t : Thread)
      → s.threads ≡ front ++ t ∷ back
      → t.phase ≡ leaving
      → Step s (record (release t.user t.entry s) { threads = front ++ back })

-- The zero value.
abbrev pub unlocked : Locks
unlocked = record { entries = λ u. none; refs = λ e. 0; full = λ e. false; next = 0; threads = [] }

pub data Reach : Locks → Type 0 where
  start : Reach unlocked
  then_ : {s t : Locks} → Reach s → Step s t → Reach t
