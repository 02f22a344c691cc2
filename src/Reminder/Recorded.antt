-- ===== src/Reminder/Recorded.antt =====
-- internal/notify/reminder.go: a notice is recorded for a mail that the server took.
use ai_self_service.Prelude.{
  ℕ, suc, Bool, true, false, Option, none, some, List, [], ◌∷◌, ◌++◌, ◌≡◌, ◌⊎◌, inl, inr, refl, sym,
  ap, ◌∙◌, arith, ◌==◌, ◌||◌, ◌&&◌, not, any, Bool-cases, subst, if◌then◌else◌,
}
use ai_self_service.Database.Models.{ApiKey, ExpiringKey, ExpiryNotice}
use ai_self_service.Database.Errors.{Error, Result, ok, err, constraint}
use ai_self_service.Database.Tables.{Db, insert_notice}
use ai_self_service.Database.Keys.{
  keys_expiring_within, mark_expiry_notice_sent, noticed, days_after,
}
use ai_self_service.Exec.{Exec, World}
use ai_self_service.Exec.Atomic.{
  Atomic, ReadOnly, Total, Atomic-statement, Atomic-bind_read, ReadOnly-now, ReadOnly-query,
  ReadOnly-bind, ReadOnly-attempt, Total-attempt, Total-bind, Total-pure,
}
use ai_self_service.Exec.Ensures.{
  Ensures, Ensures-bind, Ensures-now, Ensures-pure, Ensures-statement, Ensures-attempt,
  Ensures-ReadOnly,
}
use ai_self_service.Reminder.{Notifier, notify, after_mail, warn_all, warn_found, and_then, run}

-- The mail server took a mail for the key, that many days before.
abbrev pub Taken : Notifier → ℕ → ℕ → Type 0
Taken f k n = (t : ℕ) × (key : ApiKey) × (key.id ≡ k) × (f t key n ≡ true)

inserted :
    (b c : Bool) (D d' : Db) (r : Unit {0})
    → (let x : Result (Unit {0} × Db) = if b || c then err constraint else ok (tt, D) in x)
      ≡ ok (r, d')
    → d' ≡ D
inserted b c D d' r e = ground arith

inserted_notices :
    (x : ExpiryNotice) (d : Db) (r : Unit {0}) (d' : Db)
    → insert_notice x d ≡ ok (r, d')
    → d'.notices ≡ d.notices ++ record x { id = d.seqs.notice_seq } ∷ []
unfolding insert_notice
inserted_notices x d r d' e =
    ap (λ (y : Db). y.notices)
      (inserted
        (any (λ (r : ExpiryNotice). r.api_key_id == x.api_key_id && r.days_before == x.days_before)
          d.notices)
        (not (any (λ (k : ApiKey). k.id == x.api_key_id) d.keys))
        (record d {
          notices = d.notices ++ record x { id = d.seqs.notice_seq } ∷ [];
          seqs = record d.seqs { notice_seq = suc d.seqs.notice_seq };
        })
        d' r e)

added_lem :
    (xs : List ExpiryNotice) (row : ExpiryNotice) (k n : ℕ)
    → any (λ (m : ExpiryNotice). m.api_key_id == k && m.days_before == n) (xs ++ row ∷ []) ≡ true
    → (any (λ (m : ExpiryNotice). m.api_key_id == k && m.days_before == n) xs ≡ true)
      ⊎ ((row.api_key_id ≡ k) × (row.days_before ≡ n))
unfolding any
added_lem [] row k n h = inr (ground (arith, h), ground (arith, h))
added_lem (x ∷ xs) row k n h = elim (Bool-cases (x.api_key_id == k && x.days_before == n)) [
  | inl t ↦ inl (ground (arith, t))
  | inr f ↦ elim (added_lem xs row k n (ground (arith, h, f))) [
    | inl r ↦ inl (ground (arith, r))
    | inr same ↦ inr same
  ]
]

mark-Atomic : (id days : ℕ) → Atomic (mark_expiry_notice_sent id days)
unfolding mark_expiry_notice_sent
mark-Atomic id days = Atomic-bind_read ReadOnly-now (λ at. Atomic-statement _)

notify-ReadOnly : (f : Notifier) (key : ApiKey) (days : ℕ) → ReadOnly (notify f key days)
unfolding notify
notify-ReadOnly f key days = record { at = λ w. refl }

module _ (f : Notifier) (k n : ℕ) (old : Bool) where
  -- A notice is in the tables only if it was there before, or the server took the mail.
  abbrev Only : Db → Type 0
  Only d = noticed k n d ≡ true → (old ≡ true) ⊎ Taken f k n

  insert_notice-Only :
      (x : ExpiryNotice) (d : Db) (r : Unit {0}) (d' : Db)
      → insert_notice x d ≡ ok (r, d')
      → (x.api_key_id ≡ k → x.days_before ≡ n → Taken f k n)
      → Only d
      → Only d'
  unfolding noticed
  insert_notice-Only x d r d' e taken h t =
      let p : ExpiryNotice → Bool = λ m. m.api_key_id == k && m.days_before == n in
      let q = inserted_notices x d r d' e in
      elim (added_lem d.notices (record x { id = d.seqs.notice_seq }) k n
        (ap (λ (l : List ExpiryNotice). any p l) (sym q) ∙ t)) [
          | inl before ↦ h before
          | inr (i, j) ↦ inr (taken i j)
        ]

  mark-Only :
      (key : ApiKey) (days : ℕ)
      → ((t : ℕ) × (f t key days ≡ true))
      → Ensures Only (mark_expiry_notice_sent key.id days) (λ _. Only)
  unfolding mark_expiry_notice_sent
  mark-Only key days (t, took) =
      Ensures-bind (λ t. Only) (Ensures-now (λ d t h. h))
        (λ at. Ensures-statement _ (λ d r d' h e.
          insert_notice-Only
            (record { id = 0; api_key_id = key.id; days_before = days; sent_at = at }) d r d' e
            (λ i j. (t, key, i, subst (λ m. f t key m ≡ true) j took)) h))

  after_mail-Only :
      (key : ApiKey) (days : ℕ) (taken : Bool)
      → (taken ≡ true → (t : ℕ) × (f t key days ≡ true))
      → Ensures Only (after_mail key days taken) (λ _. Only)
  unfolding after_mail
  after_mail-Only key days false h = Ensures-pure tt (λ d q. q)
  after_mail-Only key days true h =
      Ensures-bind (λ r. Only)
        (Ensures-attempt (mark-Atomic key.id days) (λ d q. q) (mark-Only key days (h refl)))
        (λ r. Ensures-pure tt (λ d q. q))

  -- What the notifier answers is what the server said.
  notify-Only :
      (key : ApiKey) (days : ℕ)
      → Ensures Only
          (notify f key days)
          (λ taken d. Only d × (taken ≡ true → (t : ℕ) × (f t key days ≡ true)))
  unfolding notify
  notify-Only key days = record { at = λ w h a e. (h, λ took. (w.tick, ground (arith, e, took))) }

  warn_all-Only : (days : ℕ) (xs : List ExpiringKey) → Ensures Only (warn_all f days xs) (λ _. Only)
  unfolding warn_all
  warn_all-Only days [] = Ensures-pure tt (λ d h. h)
  warn_all-Only days (x ∷ xs) =
      Ensures-bind (λ taken d. Only d × (taken ≡ true → (t : ℕ) × (f t x.key days ≡ true)))
        (notify-Only x.key days)
        (λ taken.
          Ensures-bind (λ _. Only)
            (record { at = λ w (h, q) a e. (after_mail-Only x.key days taken q).at w h a e })
            (λ _. warn_all-Only days xs))

  warn_found-Only :
      (days : ℕ) (r : Result (List ExpiringKey)) → Ensures Only (warn_found f days r) (λ _. Only)
  unfolding warn_found
  warn_found-Only days (err e) = Ensures-pure _ (λ d h. h)
  warn_found-Only days (ok keys) =
      Ensures-bind (λ _. Only) (warn_all-Only days keys) (λ _. Ensures-pure _ (λ d h. h))

  and_then-Only :
      (later : Exec (Option Error)) (r : Option Error)
      → Ensures Only later (λ _. Only)
      → Ensures Only (and_then later r) (λ _. Only)
  unfolding and_then
  and_then-Only later (some e) h = Ensures-pure _ (λ d q. q)
  and_then-Only later none h = h

  run-Only : (days : List ℕ) → Ensures Only (run f days) (λ _. Only)
  unfolding run keys_expiring_within days_after
  run-Only [] = Ensures-pure _ (λ d h. h)
  run-Only (d ∷ days) =
      Ensures-bind (λ r. Only)
        (Ensures-ReadOnly (
          ReadOnly-attempt (
            ReadOnly-bind ReadOnly-now (λ at.
              ReadOnly-bind (record { at = λ w. refl })
                (λ cutoff. ReadOnly-bind ReadOnly-now (λ at'. ReadOnly-query _))))))
        (λ r.
          Ensures-bind (λ _. Only) (warn_found-Only d r)
            (λ q. and_then-Only (run f days) q (run-Only days)))

notify-Total : (f : Notifier) (key : ApiKey) (days : ℕ) → Total (notify f key days)
unfolding notify
notify-Total f key days = record { at = λ w e h. cc }

after_mail-Total : (key : ApiKey) (days : ℕ) (taken : Bool) → Total (after_mail key days taken)
unfolding after_mail
after_mail-Total key days false = Total-pure _
after_mail-Total key days true = Total-bind (Total-attempt _) (λ r. Total-pure _)

warn_all-Total : (f : Notifier) (days : ℕ) (xs : List ExpiringKey) → Total (warn_all f days xs)
unfolding warn_all
warn_all-Total f days [] = Total-pure _
warn_all-Total f days (x ∷ xs) =
    Total-bind (notify-Total f x.key days)
      (λ t. Total-bind (after_mail-Total x.key days t) (λ _. warn_all-Total f days xs))

warn_found-Total :
    (f : Notifier) (days : ℕ) (r : Result (List ExpiringKey)) → Total (warn_found f days r)
unfolding warn_found
warn_found-Total f days (err e) = Total-pure _
warn_found-Total f days (ok keys) = Total-bind (warn_all-Total f days keys) (λ ms. Total-pure _)

and_then-Total :
    (later : Exec (Option Error)) (r : Option Error) → Total later → Total (and_then later r)
unfolding and_then
and_then-Total later (some e) h = Total-pure _
and_then-Total later none h = h

run-Total : (f : Notifier) (days : List ℕ) → Total (run f days)
unfolding run
run-Total f [] = Total-pure _
run-Total f (d ∷ days) = Total-bind (Total-attempt _) (λ r.
    Total-bind (warn_found-Total f d r) (λ q. and_then-Total (run f days) q (run-Total f days)))

returned : {A : Type 0} (r : Result A) → ((e : Error) → r ≡ err e → ⊥) → (a : A) × (r ≡ ok a)
returned (ok a) h = (a, refl)
returned (err e) h = absurd (h e refl)

-- A run of the reminder comes to an end, whatever fails; and a notice that is in the database after the
-- run was there before, or the mail server took a mail for this key and this number of days. So a mail
-- that failed leaves no notice, and is tried again.
pub run-Recorded :
    (f : Notifier) (days : List ℕ) (w : World)
    → ((e : Option Error) × ((run f days w).0 ≡ ok e))
      × ((k n : ℕ)
          → noticed k n (run f days w).1.db ≡ true
          → (noticed k n w.db ≡ true) ⊎ Taken f k n)
run-Recorded f days w =
    let (e, r) = returned (run f days w).0 ((run-Total f days).at w) in
    ((e, r), λ k n. (run-Only f k n (noticed k n w.db) days).at w inl e r)
