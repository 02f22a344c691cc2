-- ===== src/Handlers/KeyLock/Sound.antt =====
-- internal/handlers/keylock.go: what stays true of the map and its entries at each step.
use ai_self_service.Prelude.{
  ℕ, ◌+◌, ◌-◌, ◌≤◌, ◌<◌, Bool, true, false, ◌&&◌, Option, none, some, List, [], ◌∷◌, ◌++◌, All, ◌≡◌,
  ◌≢◌, refl, ap, ◌∙◌, subst, arith, ◌==◌, if◌then◌else◌, count_if, count_if-append,
}
use ai_self_service.Handlers.KeyLock.{
  Phase, waiting, holding, leaving, Thread, Locks, put, find_entry, wait_for, arrive, release, Step,
  arrives, takes, gives_up, unlocks, leaves, unlocked, Reach, start, then_,
}

abbrev pub is_holding : Phase → Bool
is_holding holding = true
is_holding waiting = false
is_holding leaving = false

abbrev pub on : ℕ → Thread → Bool
on e t = t.entry == e

abbrev pub holds : ℕ → Thread → Bool
holds e t = t.entry == e && is_holding t.phase

abbrev pub count_of : Bool → ℕ
count_of true = 1
count_of false = 0

-- A request found its entry in the map, and the map's entries are older than the next address.
abbrev pub Named : Locks → Thread → Type 0
Named s t = s.entries t.user ≡ some t.entry

pub record IsSound (s : Locks) : Type 0 where
  pub named : All (Named s) s.threads
  pub old : (u e : ℕ) → s.entries u ≡ some e → e < s.next
  pub apart : (u v e : ℕ) → s.entries u ≡ some e → s.entries v ≡ some e → u ≡ v
  pub counted : (e : ℕ) → e < s.next → s.refs e ≡ count_if (on e) s.threads
  pub used : (u e : ℕ) → s.entries u ≡ some e → 1 ≤ count_if (on e) s.threads
  pub token : (e : ℕ) → e < s.next → count_if (holds e) s.threads ≡ count_of (s.full e)

module _ (P : Thread → Type 0) where
  pub All-middle :
      (front back : List Thread) (t : Thread)
      → All P (front ++ t ∷ back)
      → All P front × P t × All P back
  All-middle [] back t (p, h) = (tt, p, h)
  All-middle (x ∷ front) back t (q, h) = let r = All-middle front back t h in ((q, r.0), r.1, r.2)

  All-insert :
      (front back : List Thread) (t : Thread)
      → All P front
      → P t
      → All P back
      → All P (front ++ t ∷ back)
  All-insert [] back t h p k = (p, k)
  All-insert (x ∷ front) back t (q, h) p k = (q, All-insert front back t h p k)

  All-join : (front back : List Thread) → All P front → All P back → All P (front ++ back)
  All-join [] back h k = k
  All-join (x ∷ front) back (q, h) k = (q, All-join front back h k)

count_middle :
    (p : Thread → Bool) (front back : List Thread) (t : Thread)
    → count_if p (front ++ t ∷ back) ≡ count_if p (front ++ back) + count_of (p t)
unfolding count_if
count_middle p front back t =
    ground (arith, count_if-append p front (t ∷ back), count_if-append p front back)

-- All requests have an entry of the map, so none has the next address.
none_fresh :
    (s : Locks) (ts : List Thread) (p : Thread → Bool)
    → ((t : Thread) → p t ≡ true → t.entry ≡ s.next)
    → ((u e : ℕ) → s.entries u ≡ some e → e < s.next)
    → All (Named s) ts
    → count_if p ts ≡ 0
unfolding count_if
none_fresh s [] p fresh old h = refl
none_fresh s (t ∷ ts) p fresh old (named, h) =
    ground (arith, fresh t, old t.user t.entry named, none_fresh s ts p fresh old h)

unlocked-IsSound : IsSound unlocked
unfolding count_if
unlocked-IsSound = record {
  named = tt;
  old = λ u e h. cc;
  apart = λ u v e h k. cc;
  counted = λ e l. absurd (omega arith);
  used = λ u e h. cc;
  token = λ e l. absurd (omega arith);
}

-- A request that finds its entry.
joins-IsSound :
    (s : Locks) (user e : ℕ) → IsSound s → s.entries user ≡ some e → IsSound (wait_for user (e, s))
unfolding wait_for count_if
joins-IsSound s user e h found = record {
  named = (found, h.named);
  old = h.old;
  apart = h.apart;
  counted = λ f l. ground (arith, h.counted f l, h.old user e found);
  used = λ u f k. ground (arith, h.used u f k);
  token = λ f l. ground (arith, h.token f l);
}

All-keep :
    (P Q : Thread → Type 0) (ts : List Thread) → ((t : Thread) → P t → Q t) → All P ts → All Q ts
All-keep P Q [] f h = tt
All-keep P Q (t ∷ ts) f (p, h) = (f t p, All-keep P Q ts f h)

-- A request that makes its entry.
makes-IsSound :
    (s : Locks) (user : ℕ)
    → IsSound s
    → s.entries user ≡ none
    → IsSound (wait_for user (find_entry user none s))
unfolding wait_for find_entry count_if
makes-IsSound s user h absent =
    let on_next = none_fresh s s.threads (on s.next) (λ t e. ground arith) h.old h.named in
    let holds_next = none_fresh s s.threads (holds s.next) (λ t e. ground arith) h.old h.named in
    record {
      named = (ground arith, All-keep (Named s) _ s.threads (λ t e. ground arith) h.named);
      old = λ u e k. ground (arith, h.old u e);
      apart = λ u v e k l. ground (arith, h.apart u v e, h.old u e, h.old v e);
      counted = λ f l. ground (arith, h.counted f, on_next);
      used = λ u f k. ground (arith, h.used u f, on_next);
      token = λ f l. ground (arith, h.token f, holds_next);
    }

abbrev pub with_phase : Thread → Phase → Thread
with_phase t phase = record t { phase = phase }

-- A request changes its phase, and the token of its entry with it.
turns-IsSound :
    (s : Locks) (front back : List Thread) (t : Thread) (phase : Phase) (b : Bool)
    → IsSound s
    → s.threads ≡ front ++ t ∷ back
    → count_of b + count_of (is_holding t.phase)
      ≡ count_of (s.full t.entry) + count_of (is_holding phase)
    → IsSound
        (record s { full = put s.full t.entry b; threads = front ++ with_phase t phase ∷ back })
turns-IsSound s front back t phase b h e balance =
    let parts = All-middle (Named s) front back t (subst (All (Named s)) e h.named) in
    let before = λ (p : Thread → Bool). ap (count_if p) e ∙ count_middle p front back t in
    record {
      named = All-insert (Named s) front back (with_phase t phase) parts.0 parts.1 parts.2;
      old = h.old;
      apart = h.apart;
      counted = λ f l. omega (
        arith,
        h.counted f l,
        before (on f),
        count_middle (on f) front back (with_phase t phase),
      );
      used = λ u f k.
          omega (
            arith,
            h.used u f k,
            before (on f),
            count_middle (on f) front back (with_phase t phase),
          );
      token = λ f l. ground (
        arith,
        balance,
        h.token f l,
        before (holds f),
        count_middle (holds f) front back (with_phase t phase),
      );
    }

others_lem :
    (s : Locks) (e : ℕ) (ts : List Thread)
    → count_if (on e) ts ≡ 0
    → All (Named s) ts
    → All (λ x. Named s x × (x.entry ≢ e)) ts
unfolding count_if
others_lem s e [] n h = tt
others_lem s e (x ∷ ts) n (named, h) =
    ((named, λ same. ground arith), others_lem s e ts (ground arith) h)

named_after :
    (s : Locks) (t : Thread) (ts : List Thread) (b : Bool)
    → Named s t
    → All (Named s) ts
    → (b ≡ true → count_if (on t.entry) ts ≡ 0)
    → All
        (λ (x : Thread). (if b then put s.entries t.user none else s.entries) x.user ≡ some x.entry)
        ts
named_after s t ts false named h none_left = h
named_after s t ts true named h none_left =
    All-keep (λ x. Named s x × (x.entry ≢ t.entry)) _ ts (λ x (n, other). ground (arith, other))
      (others_lem s t.entry ts (none_left refl) h)

-- A request without the token drops its reference.
drops-IsSound :
    (s : Locks) (front back : List Thread) (t : Thread)
    → IsSound s
    → s.threads ≡ front ++ t ∷ back
    → is_holding t.phase ≡ false
    → IsSound (record (release t.user t.entry s) { threads = front ++ back })
unfolding release
drops-IsSound s front back t h e idle =
    let parts = All-middle (Named s) front back t (subst (All (Named s)) e h.named) in
    let before = λ (p : Thread → Bool). ap (count_if p) e ∙ count_middle p front back t in
    record {
      named =
          named_after s t (front ++ back) (s.refs t.entry - 1 == 0) parts.1
            (All-join (Named s) front back parts.0 parts.2)
            (λ z.
              ground
                (arith, before (on t.entry), h.counted t.entry (h.old t.user t.entry parts.1)));
      old = λ u f k. ground (arith, h.old u f);
      apart = λ u v f k l. ground (arith, h.apart u v f);
      counted = λ f l. ground (arith, h.counted f, before (on f));
      used = λ u f k. ground (
        arith,
        h.used u f,
        h.apart u t.user f,
        h.old t.user t.entry parts.1,
        h.counted t.entry,
        before (on f),
        parts.1,
      );
      token = λ f l. ground (arith, h.token f, before (holds f));
    }

arrive_cases :
    (s : Locks) (user : ℕ) (o : Option ℕ)
    → s.entries user ≡ o
    → IsSound s
    → IsSound (wait_for user (find_entry user o s))
unfolding find_entry
arrive_cases s user none e h = makes-IsSound s user h e
arrive_cases s user (some f) e h = joins-IsSound s user f h e

-- The token of a holder is taken.
full_lem :
    (s : Locks) (front back : List Thread) (t : Thread)
    → IsSound s
    → s.threads ≡ front ++ t ∷ back
    → t.phase ≡ holding
    → 0 + count_of (is_holding t.phase) ≡ count_of (s.full t.entry) + 0
full_lem s front back t h e w =
    let parts = All-middle (Named s) front back t (subst (All (Named s)) e h.named) in
    ground (
      arith,
      w,
      h.token t.entry (h.old t.user t.entry parts.1),
      ap (count_if (holds t.entry)) e ∙ count_middle (holds t.entry) front back t,
    )

Step-IsSound : {s s' : Locks} → Step s s' → IsSound s → IsSound s'
unfolding arrive
Step-IsSound {s} (arrives user) h = arrive_cases s user (s.entries user) refl h
Step-IsSound {s} (takes front back t e w free) h =
    turns-IsSound s front back t holding true h e (ground arith)
Step-IsSound {s} (gives_up front back t e w) h = drops-IsSound s front back t h e (ground arith)
Step-IsSound {s} (unlocks front back t e w) h =
    turns-IsSound s front back t leaving false h e (full_lem s front back t h e w)
Step-IsSound {s} (leaves front back t e w) h = drops-IsSound s front back t h e (ground arith)

pub Reach-IsSound : {s : Locks} → Reach s → IsSound s
Reach-IsSound start = unlocked-IsSound
Reach-IsSound (then_ r st) = Step-IsSound st (Reach-IsSound r)
