-- ===== src/Database/Missing/Exact.antt =====
-- The marks of keys that the gateway no longer has: which keys are marked, unmarked and removed.
use ai_self_service.Prelude.{
  ℕ, ◌≤◌, ◌≡◌, ◌↔◌, refl, sym, ap, ◌∙◌, subst, Bool, true, false, not, ◌&&◌, ◌==◌, Option, none,
  some, String, List, [], ◌∷◌, map, arith, if◌then◌else◌, count_if, update_if, any, is_some, leb,
  Member, Some, any-Some, Some-any, count_if-Some, Some-count_if, Left,
}
use ai_self_service.Database.Models.{
  Time, ApiKey, ExpiryNotice, AuditEvent, key_missing, key_found, key_gone,
}
use ai_self_service.Database.Errors.{Error, Result, ok, err}
use ai_self_service.Database.Tables.{Db, update_keys, delete_keys, insert_event}
use ai_self_service.Database.Keys.{
  unmarked, is_marked, missing_before, mark_key_missing, clear_key_missing, remove_missing_key,
}
use ai_self_service.Database.Missing.{
  key_event, Settles, Marks, Unmarks, Removes, mark_key_missing-Settles, clear_key_missing-Settles,
  remove_missing_key-Settles,
}
use ai_self_service.Exec.{World}

-- What a write returns and leaves. With an error nothing has changed. Without one, the keys that it
-- is about were changed, there was one exactly when the flag is set, and then the audit entry
-- stands beside the change.
abbrev pub Settled :
    (ApiKey → Type 0)
    → (Db → Db → Type 0)
    → (Time → AuditEvent)
    → Db
    → Result (Bool × Option Error) × World
    → Type 0
Settled Due Changed event d (ok (flag, some e), w) = w.db ≡ d
Settled Due Changed event d (ok (true, none), w) =
    Some Due d.keys × (d' : Db) × Changed d d' × (at : Time) × (w.db ≡ insert_event (event at) d')
Settled Due Changed event d (ok (false, none), w) = (¬ Some Due d.keys) × Changed d w.db
Settled Due Changed event d (err e, w) = ⊥

settled_lem :
    (p : ApiKey → Bool) (Changes : Db → Db → Type 0) (Due : ApiKey → Type 0)
    (Changed : Db → Db → Type 0) (event : Time → AuditEvent) (d : Db)
    (r : Result (Bool × Option Error) × World)
    → ((k : ApiKey) → (p k ≡ true) ↔ Due k)
    → ((d' : Db) → Changes d d' → Changed d d')
    → Settles (λ d. count_if p d.keys) Changes event d r
    → Settled Due Changed event d r
settled_lem p Changes Due Changed event d (ok (flag, some e), w) h c s = s
settled_lem p Changes Due Changed event d (ok (true, none), w) h c (one, d', q, at, e) =
    let (k, m, t) = count_if-Some p d.keys one in ((k, m, (h k).0 t), d', c d' q, at, e)
settled_lem p Changes Due Changed event d (ok (false, none), w) h c (zero, q) =
    (λ (k, m, t). absurd (omega (arith, Some-count_if p d.keys k m ((h k).1 t), zero)), c w.db q)
settled_lem p Changes Due Changed event d (err e, w) h c s = s

-- A key with the id that has no mark, and one that has a mark.
abbrev pub HasNone : ℕ → ApiKey → Type 0
HasNone id k = (k.id ≡ id) × (k.missing_since ≡ none)

abbrev pub HasMark : ℕ → ApiKey → Type 0
HasMark id k = (k.id ≡ id) × ((t : Time) × (k.missing_since ≡ some t))

-- Whose mark is from the time or before.
abbrev pub IsDue : ℕ → Time → ApiKey → Type 0
IsDue id before k = (k.id ≡ id) × ((t : Time) × (k.missing_since ≡ some t) × (t ≤ before))

mark_lem :
    (id : ℕ) (i : ℕ) (o : Option Time)
    → (i == id && not (is_some o) ≡ true) ↔ ((i ≡ id) × (o ≡ none))
mark_lem id i none = (λ h. (ground (arith, h), refl), λ (e, f). ground (arith, e))
mark_lem id i (some t) =
    (λ h. let k : false ≡ true = ground (arith, h) in absurd (ground arith), λ (e, f). cc)

none_iff : (id : ℕ) (k : ApiKey) → (unmarked id k ≡ true) ↔ HasNone id k
none_iff id k = mark_lem id k.id k.missing_since

has_mark_lem :
    (id : ℕ) (i : ℕ) (o : Option Time)
    → (i == id && is_some o ≡ true) ↔ ((i ≡ id) × ((t : Time) × (o ≡ some t)))
has_mark_lem id i none =
    (λ h. let k : false ≡ true = ground (arith, h) in absurd (ground arith), λ (e, (t, f)). cc)
has_mark_lem id i (some t) = (λ h. (ground (arith, h), (t, refl)), λ (e, f). ground (arith, e))

mark_iff : (id : ℕ) (k : ApiKey) → (is_marked id k ≡ true) ↔ HasMark id k
mark_iff id k = has_mark_lem id k.id k.missing_since

due_lem :
    (id before i : ℕ) (o : Option Time)
    → (i == id && elim o [ none ↦ false | some t ↦ leb t before ] ≡ true)
      ↔ ((i ≡ id) × ((t : Time) × (o ≡ some t) × (t ≤ before)))
due_lem id before i none =
    (λ h. let k : false ≡ true = ground (arith, h) in absurd (ground arith), λ (e, (t, f, l)). cc)
due_lem id before i (some t) = (
  λ h. (ground (arith, h), (t, refl, ground (arith, h))),
  λ (e, (s, f, l)). let same : t ≡ s = ground (arith, f) in ground (arith, e, l, same),
)

IsDue-iff : (id before : ℕ) (k : ApiKey) → (missing_before id before k ≡ true) ↔ IsDue id before k
unfolding missing_before
IsDue-iff id before k = due_lem id before k.id k.missing_since

-- A key's row, after it was marked, and after its mark was taken off.
unfoldable pub marked_row : ℕ → Time → ApiKey → ApiKey
marked_row id at k = elim k.missing_since [
  | some t ↦ k
  | none ↦ if k.id == id then record k { missing_since = some at } else k
]

unfoldable pub unmarked_row : ℕ → ApiKey → ApiKey
unmarked_row id k = elim k.missing_since [
  | none ↦ k
  | some t ↦ if k.id == id then record k { missing_since = none; synced_rev = none } else k
]

update_if-map :
    (p : ApiKey → Bool) (f g : ApiKey → ApiKey) (ks : List ApiKey)
    → ((k : ApiKey) → (if p k then f k else k) ≡ g k)
    → update_if p f ks ≡ map g ks
unfolding update_if
update_if-map p f g [] h = refl
update_if-map p f g (k ∷ ks) h = ground (arith, h k, update_if-map p f g ks h)

-- The changes of the tables.
abbrev pub MarksKey : ℕ → Db → Db → Type 0
MarksKey id d d' = (at : Time) × (d' ≡ record d { keys = map (marked_row id at) d.keys })

abbrev pub UnmarksKey : ℕ → Db → Db → Type 0
UnmarksKey id d d' = d' ≡ record d { keys = map (unmarked_row id) d.keys }

-- The due keys go, with their notices, and nothing else.
pub record RemovesKey (id : ℕ) (before : Time) (d d' : Db) : Type 0 where
  pub keys : (k : ApiKey) → Member k d'.keys ↔ (Member k d.keys × ¬ IsDue id before k)
  pub notices :
      (n : ExpiryNotice)
      → Member n d'.notices ↔ (
          Member n d.notices
          × ¬ Some (λ (k : ApiKey). (k.id ≡ n.api_key_id) × IsDue id before k) d.keys)
  pub rest : d' ≡ record d { keys = d'.keys; notices = d'.notices }

marks_lem : (id : ℕ) (d d' : Db) → Marks id d d' → MarksKey id d d'
unfolding update_keys marked_row
marks_lem id d d' (at, e) = (
  at,
  e
      ∙ ap (λ ks. record d { keys = ks })
          (update_if-map (unmarked id) _ (marked_row id at) d.keys (λ k. ground arith)),
)

unmarks_lem : (id : ℕ) (d d' : Db) → Unmarks id d d' → UnmarksKey id d d'
unfolding update_keys unmarked_row
unmarks_lem id d d' e =
    e
    ∙ ap (λ ks. record d { keys = ks })
        (update_if-map (is_marked id) _ (unmarked_row id) d.keys (λ k. ground arith))

notice_iff :
    (id before : ℕ) (d : Db) (n : ExpiryNotice)
    → (any (λ (k : ApiKey). k.id == n.api_key_id && missing_before id before k) d.keys ≡ true)
      ↔ Some (λ (k : ApiKey). (k.id ≡ n.api_key_id) × IsDue id before k) d.keys
notice_iff id before d n =
    let gone : ApiKey → Bool = λ k. k.id == n.api_key_id && missing_before id before k in
    (
      λ h.
          let (k, m, q) = any-Some gone d.keys h in
          (k, m, (ground (arith, q), (IsDue-iff id before k).0 (ground (arith, q)))),
      λ (k, m, (e, due)).
          Some-any gone d.keys k m (ground (arith, e, (IsDue-iff id before k).1 due)),
    )

deleted_lem :
    (id before : ℕ) (d : Db) → RemovesKey id before d (delete_keys (missing_before id before) d)
unfolding delete_keys
deleted_lem id before d = record {
  keys = Left (missing_before id before) (IsDue id before) d.keys (IsDue-iff id before);
  notices = Left _ _ d.notices (notice_iff id before d);
  rest = refl;
}

-- The marks of missing keys. Marking marks the key with the id and audits it exactly if it has no
-- mark, unmarking takes the mark off, makes the key out of date and audits it exactly if it has
-- one, and removal deletes the row with its notices and audits it exactly if the mark is from the
-- given time or before; no other key is changed, and with an error none of them has changed anything.
pub missing_writes-Settle :
    (key_id owner_id : ℕ) (owner_email detail : String) (before : Time) (w : World)
    → Settled
        (HasNone key_id)
        (MarksKey key_id)
        (key_event key_missing owner_id owner_email detail)
        w.db
        (mark_key_missing key_id owner_id owner_email detail w)
      × Settled
          (HasMark key_id)
          (UnmarksKey key_id)
          (key_event key_found owner_id owner_email detail)
          w.db
          (clear_key_missing key_id owner_id owner_email detail w)
      × Settled
          (IsDue key_id before)
          (RemovesKey key_id before)
          (key_event key_gone owner_id owner_email detail)
          w.db
          (remove_missing_key key_id owner_id owner_email detail before w)
missing_writes-Settle id owner_id owner_email detail before w = (
  settled_lem (unmarked id) (Marks id) (HasNone id) (MarksKey id) _ w.db _ (none_iff id)
      (marks_lem id w.db) (mark_key_missing-Settles id owner_id owner_email detail w),
  settled_lem (is_marked id) (Unmarks id) (HasMark id) (UnmarksKey id) _ w.db _ (mark_iff id)
      (unmarks_lem id w.db) (clear_key_missing-Settles id owner_id owner_email detail w),
  settled_lem (missing_before id before) (Removes id before) (IsDue id before)
      (RemovesKey id before) _ w.db _ (IsDue-iff id before)
      (λ d' e. subst (RemovesKey id before w.db) (sym e) (deleted_lem id before w.db))
      (remove_missing_key-Settles id owner_id owner_email detail before w),
)
