-- ===== src/Tests/Locks.antt =====
-- The theorems about the lock of a user's key, at three requests.
use ai_self_service.Prelude.{true, ◌≤◌, none, [], ◌++◌, ◌∷◌, ◌≡◌, ◌↔◌, refl, count_if}
use ai_self_service.Handlers.KeyLock.{
  Thread, Locks, holding, waiting, put, arrive, Step, takes, arrives, unlocked, Reach, start, then_,
}
use ai_self_service.Handlers.KeyLock.Sound.{with_phase}
use ai_self_service.Handlers.KeyLock.Exclusion.{
  of_user, user_holds, Reach-Exclusive, Reach-entries_iff, Reach-Step_waiting,
}

-- Two requests of user 1 have arrived and one of user 2.
abbrev queued : Locks
queued = arrive 2 (arrive 1 (arrive 1 unlocked))

queued-Reach : Reach queued
queued-Reach = then_ (then_ (then_ start (arrives 1)) (arrives 1)) (arrives 2)

abbrev of_one : Thread
of_one = record { user = 1; entry = 0; phase = waiting }

abbrev of_two : Thread
of_two = record { user = 2; entry = 1; phase = waiting }

-- The first of user 1 has the lock.
abbrev taken : Locks
taken = record queued {
  full = put queued.full 0 true;
  threads = (of_two ∷ of_one ∷ []) ++ with_phase of_one holding ∷ [];
}

taken-Reach : Reach taken
unfolding arrive
taken-Reach = then_ queued-Reach (takes (of_two ∷ of_one ∷ []) [] of_one refl refl refl)

Reach-Exclusive_example : count_if (user_holds 1) taken.threads ≤ 1
Reach-Exclusive_example = Reach-Exclusive 1 taken-Reach

Reach-entries_iff_example : (taken.entries 3 ≡ none) ↔ (count_if (of_user 3) taken.threads ≡ 0)
Reach-entries_iff_example = Reach-entries_iff 3 taken-Reach

Reach-Step_waiting_example : Step taken (record taken {
  full = put taken.full 1 true;
  threads = [] ++ with_phase of_two holding ∷ of_one ∷ with_phase of_one holding ∷ [];
})
unfolding count_if
Reach-Step_waiting_example =
    Reach-Step_waiting [] (of_one ∷ with_phase of_one holding ∷ []) of_two taken-Reach refl refl
      refl
