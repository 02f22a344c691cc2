-- ===== src/Handlers/KeyLock/Exclusion.antt =====
-- internal/handlers/keylock.go: what holds of the lock however the requests take turns.
use ai_self_service.Prelude.{
  ℕ, ◌≤◌, Bool, true, false, ◌&&◌, Option, none, some, List, [], ◌∷◌, ◌++◌, All, ◌≡◌, ◌↔◌, ◌⊎◌, inl,
  inr, refl, subst, arith, ◌==◌, count_if,
}
use ai_self_service.Handlers.KeyLock.{waiting, holding, Thread, Locks, put, Step, takes, Reach}
use ai_self_service.Handlers.KeyLock.Sound.{
  Named, is_holding, on, holds, with_phase, IsSound, All-middle, Reach-IsSound,
}

abbrev pub of_user : ℕ → Thread → Bool
of_user u t = t.user == u

abbrev pub user_holds : ℕ → Thread → Bool
user_holds u t = t.user == u && is_holding t.phase

-- Requests of one user are on one entry.
user_holds-le :
    (s : Locks) (u e : ℕ) (ts : List Thread)
    → s.entries u ≡ some e
    → All (Named s) ts
    → count_if (user_holds u) ts ≤ count_if (holds e) ts
unfolding count_if
user_holds-le s u e [] found h = omega arith
user_holds-le s u e (t ∷ ts) found (named, h) = ground (arith, user_holds-le s u e ts found h)

nobody :
    (s : Locks) (u : ℕ) (p : Thread → Bool) (ts : List Thread)
    → ((t : Thread) → p t ≡ true → t.user ≡ u)
    → s.entries u ≡ none
    → All (Named s) ts
    → count_if p ts ≡ 0
unfolding count_if
nobody s u p [] same absent h = refl
nobody s u p (t ∷ ts) same absent (named, h) = ground (arith, same t, nobody s u p ts same absent h)

-- Requests on one entry are of one user.
on-le :
    (s : Locks) (u e : ℕ) (p q : Thread → Bool) (ts : List Thread)
    → ((t : Thread) → t.user ≡ u → p t ≡ true → q t ≡ true)
    → ((t : Thread) → p t ≡ true → t.entry ≡ e)
    → ((v : ℕ) → s.entries v ≡ some e → v ≡ u)
    → All (Named s) ts
    → count_if p ts ≤ count_if q ts
unfolding count_if
on-le s u e p q [] same entry apart h = omega arith
on-le s u e p q (t ∷ ts) same entry apart (named, h) =
    ground (arith, same t, entry t, apart t.user, on-le s u e p q ts same entry apart h)

exclusive_of :
    (s : Locks) (u : ℕ) (o : Option ℕ)
    → s.entries u ≡ o
    → IsSound s
    → count_if (user_holds u) s.threads ≤ 1
exclusive_of s u none e h =
    omega (arith, nobody s u (user_holds u) s.threads (λ t k. ground arith) e h.named)
exclusive_of s u (some f) e h =
    ground (arith, user_holds-le s u f s.threads e h.named, h.token f (h.old u f e))

-- However requests arrive, wait, give up, unlock and leave, never do two of one user hold the lock.
pub Reach-Exclusive : {s : Locks} (u : ℕ) → Reach s → count_if (user_holds u) s.threads ≤ 1
Reach-Exclusive {s} u r = exclusive_of s u (s.entries u) refl (Reach-IsSound r)

in_use :
    (s : Locks) (u e : ℕ) → IsSound s → s.entries u ≡ some e → 1 ≤ count_if (of_user u) s.threads
in_use s u e h found = omega (
  arith,
  h.used u e found,
  on-le s u e (on e) (of_user u) s.threads (λ t k l. ground arith) (λ t k. ground arith)
      (λ v k. h.apart v u e k found) h.named,
)

entry_cases :
    (s : Locks) (u : ℕ) (o : Option ℕ)
    → s.entries u ≡ o
    → IsSound s
    → count_if (of_user u) s.threads ≡ 0
    → s.entries u ≡ none
entry_cases s u none e h n = e
entry_cases s u (some f) e h n = absurd (omega (arith, in_use s u f h e))

-- The map has an entry for exactly those users of whom a request waits, holds the lock or has not yet
-- dropped its reference.
pub Reach-entries_iff :
    {s : Locks} (u : ℕ) → Reach s → (s.entries u ≡ none) ↔ (count_if (of_user u) s.threads ≡ 0)
Reach-entries_iff {s} u r =
    let h = Reach-IsSound r in
    (
      λ e. nobody s u (of_user u) s.threads (λ t k. ground arith) e h.named,
      entry_cases s u (s.entries u) refl h,
    )

token_cases :
    (s : Locks) (t : Thread) (b : Bool)
    → s.full t.entry ≡ b
    → IsSound s
    → Named s t
    → (b ≡ false) ⊎ (1 ≤ count_if (user_holds t.user) s.threads)
token_cases s t false e h named = inl refl
token_cases s t true e h named = inr (
    ground (
      arith,
      h.token t.entry (h.old t.user t.entry named),
      on-le s t.user t.entry (holds t.entry) (user_holds t.user) s.threads (λ x k l. ground arith)
          (λ x k. ground arith) (λ v k. h.apart v t.user t.entry k named) h.named,
    ))

-- A request that waits can take the lock at once, unless another request of its user holds it.
pub Reach-Step_waiting :
    {s : Locks} (front back : List Thread) (t : Thread)
    → Reach s
    → s.threads ≡ front ++ t ∷ back
    → t.phase ≡ waiting
    → count_if (user_holds t.user) s.threads ≡ 0
    → Step s (record s {
      full = put s.full t.entry true;
      threads = front ++ with_phase t holding ∷ back;
    })
Reach-Step_waiting {s} front back t r e w nobody_holds =
    let h = Reach-IsSound r in
    let parts = All-middle (Named s) front back t (subst (All (Named s)) e h.named) in
    let free : s.full t.entry ≡ false = elim (token_cases s t (s.full t.entry) refl h parts.1) [
      | inl f ↦ f
      | inr some_holds ↦ absurd (omega arith)
    ] in
    takes front back t e w free
