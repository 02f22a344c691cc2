-- ===== src/Database/Defaults/Saves.antt =====
-- The operations on profiles keep the default profile.
use ai_self_service.Prelude.{
  ℕ, zero, suc, ◌≤◌, ◌≡◌, sym, ◌∙◌, subst, true, false, not, ◌&&◌, some, List, [], ◌∷◌, ◌==◌,
  if◌then◌else◌, arith, any, find?, count_if, count_if_found, count_if_unique, Bool-cases, inl, inr,
}
use ai_self_service.Database.Models.{Profile, ProfileQuota}
use ai_self_service.Database.Errors.{ok}
use ai_self_service.Database.Tables.{Db, update_profile_row, clear_default_rows, delete_quota_rows}
use ai_self_service.Database.Quotas.{
  same_quota_windows, enforced, insert_rows, replace_quotas_tx, set_profile_quotas_tx,
}
use ai_self_service.Database.Profiles.{
  demoted_defaults, clear_default_profile, create_profile_tx, create_profile, update_profile_tx,
  update_profile, delete_unused_tx, delete_profile,
}
use ai_self_service.Database.Profiles.Reads.{with_quotas, profile_by_id}
use ai_self_service.Database.Defaults.Rows.{
  HasDefault, is_default, with_id, other_default, bump_rev_row-HasDefault, profiles-insert_quotas,
  ids_of_clear, clear_default_rows-zero, clear_default_rows-others, insert_profile-counts,
  update_profile_row-counts, saved_default, saved_other, profile_by_id-found,
  delete_profile_row-counts,
}
use ai_self_service.Exec.{Exec}
use ai_self_service.Exec.Ensures.{
  Ensures, Ensures-pure, Ensures-raise, Ensures-query, Ensures-statement, Ensures-change,
  Ensures-now, Ensures-run_in_tx, Ensures-if, Ensures-bind,
}

abbrev pub Good : Db → Type 0
Good d = HasDefault d.profiles

abbrev pub Keeps : {A : Type 0} → Exec A → Type 0
Keeps m = Ensures Good m (λ _. Good)

insert_rows-Keeps : (rows : List ProfileQuota) → Keeps (insert_rows rows)
unfolding insert_rows
insert_rows-Keeps [] = Ensures-pure tt (λ d g. g)
insert_rows-Keeps (q ∷ qs) =
    Ensures-statement _
      (λ d u d' g e. subst HasDefault (sym (profiles-insert_quotas (q ∷ qs) d d' u e)) g)

replace_quotas_tx-Keeps : (id : ℕ) (rows : List ProfileQuota) → Keeps (replace_quotas_tx id rows)
unfolding replace_quotas_tx
replace_quotas_tx-Keeps id rows =
    Ensures-bind (λ _. Good) (Ensures-change _ (λ d g. unfold delete_quota_rows in g))
      λ _.
        Ensures-bind (λ _. Good) (insert_rows-Keeps rows)
          λ _. Ensures-change _ (bump_rev_row-HasDefault id)

pub set_profile_quotas_tx-Keeps :
    (id : ℕ) (quotas : List ProfileQuota) → Keeps (set_profile_quotas_tx id quotas)
unfolding set_profile_quotas_tx
set_profile_quotas_tx-Keeps id quotas =
    Ensures-bind (λ _. Good) (Ensures-query _ (λ d a g e. g))
      λ current.
        Ensures-if (same_quota_windows current (enforced id quotas))
          (λ _. Ensures-pure tt (λ d g. g)) (λ _. replace_quotas_tx-Keeps id (enforced id quotas))

demoted_defaults-Keeps : (p : Profile) → Keeps (demoted_defaults p)
unfolding demoted_defaults
demoted_defaults-Keeps p =
    Ensures-if p.is_default (λ _. Ensures-query _ (λ d a g e. g)) (λ _. Ensures-pure [] (λ d g. g))

-- The tables before the INSERT of `p`.
abbrev Ready : Profile → Db → Type 0
Ready p d =
    (count_if is_default d.profiles ≡ (if p.is_default then 0 else 1))
    × ((i : ℕ) → count_if (with_id i) d.profiles ≤ 1)

create_profile_tx-Keeps : (p : Profile) → Keeps (create_profile_tx p)
unfolding create_profile_tx clear_default_profile
create_profile_tx-Keeps p =
    Ensures-bind (λ _. Good) (Ensures-now (λ d t g. g))
      λ at.
        Ensures-bind (λ _. Ready p)
          (Ensures-if p.is_default
            (λ def. Ensures-change _ λ d g. (
              rw def (clear_default_rows-zero d),
              λ i. subst (λ n. n ≤ 1) (sym (ids_of_clear 0 i d)) (g.ids i),
            ))
            (λ other. Ensures-pure tt (λ d g. (rw other g.one, g.ids))))
          λ _. Ensures-statement _ λ d id d' r e.
            let c = insert_profile-counts _ d d' id e in
            record { one = ground (arith, c.0, r.0); ids = c.1 r.1 }

pub create_profile-Keeps :
    (p : Profile) (quotas : List ProfileQuota) → Keeps (create_profile p quotas)
unfolding create_profile
create_profile-Keeps p quotas = Ensures-run_in_tx (
    Ensures-bind (λ _. Good) (demoted_defaults-Keeps p)
      λ demoted.
        Ensures-bind (λ _. Good) (create_profile_tx-Keeps p)
          λ id.
            Ensures-bind (λ _. Good) (set_profile_quotas_tx-Keeps id quotas)
              λ _. Ensures-pure _ (λ d g. g))

-- What `update_profile_tx` knows of the stored row once the guard has passed.
abbrev Found : Profile → Profile → Db → Type 0
Found p current d =
    HasDefault d.profiles
    × (r : Profile) × (find? (with_id p.id) d.profiles ≡ some r)
    × (r.is_default ≡ current.is_default)

-- The tables before the UPDATE of `p`.
abbrev Staged : Profile → Db → Type 0
Staged p d =
    (count_if (if p.is_default then other_default p.id else is_default) d.profiles
      ≡ (if p.is_default then 0 else 1))
    × (count_if (with_id p.id) d.profiles ≡ 1)
    × (p.is_default ≡ false → count_if (λ r. r.is_default && with_id p.id r) d.profiles ≡ 0)
    × ((i : ℕ) → count_if (with_id i) d.profiles ≤ 1)

here_once :
    (p : Profile) (ps : List Profile) (r : Profile)
    → HasDefault ps
    → find? (with_id p.id) ps ≡ some r
    → count_if (with_id p.id) ps ≡ 1
here_once p ps r g e = omega (arith, g.ids p.id, count_if_found (with_id p.id) ps r e)

saved :
    (p : Profile) (d d' : Db) (u : Unit {0})
    → Staged p d
    → update_profile_row p d ≡ ok (u, d')
    → HasDefault d'.profiles
saved p d d' u s e =
    let c = update_profile_row-counts p d d' u e in
    record {
      one = elim (Bool-cases p.is_default) [
        | inl def ↦ c.0 ∙ saved_default p d.profiles def (ground (arith, s.0)) s.1
        | inr other ↦ c.0 ∙ saved_other p d.profiles other (s.2 other) ∙ ground (arith, s.0)
      ];
      ids = λ i. subst (λ n. n ≤ 1) (sym (c.1 i)) (s.3 i);
    }

Found-row :
    (p current : Profile) (d : Db)
    → HasDefault d.profiles
    → profile_by_id p.id d ≡ ok current
    → Found p current d
unfolding with_quotas
Found-row p current d g e =
    let f = profile_by_id-found p.id d current e in (g, f.0, f.1, ground (arith, f.2))

Staged-default :
    (p current : Profile) (d : Db)
    → p.is_default ≡ true
    → Found p current d
    → Staged p (clear_default_rows p.id d)
Staged-default p current d def (g, r, e, same) = (
  rw def (clear_default_rows-others p.id d),
  ids_of_clear p.id p.id d ∙ here_once p d.profiles r g e,
  λ other. cc,
  λ i. subst (λ n. n ≤ 1) (sym (ids_of_clear p.id i d)) (g.ids i),
)

Staged-other :
    (p current : Profile) (d : Db)
    → p.is_default ≡ false
    → (current.is_default && not p.is_default) ≡ false
    → Found p current d
    → Staged p d
Staged-other p current d other guard (g, r, e, same) =
    let plain : r.is_default ≡ false = ground arith in
    (
      rw other g.one,
      here_once p d.profiles r g e,
      λ _. count_if_unique (with_id p.id) is_default d.profiles r e (g.ids p.id) plain,
      g.ids,
    )

update_profile_tx-Keeps : (p : Profile) → Keeps (update_profile_tx p)
unfolding update_profile_tx clear_default_profile
update_profile_tx-Keeps p =
    Ensures-bind (λ _. Good) (Ensures-now (λ d t g. g))
      λ at.
        Ensures-bind (Found p) (Ensures-query _ (λ d current g e. Found-row p current d g e))
          λ current.
            Ensures-if (current.is_default && not p.is_default) (λ _. Ensures-raise _)
              λ guard.
                Ensures-bind (λ _. Staged p)
                  (Ensures-if p.is_default
                    (λ def. Ensures-change _ (λ d f. Staged-default p current d def f))
                    (λ other. Ensures-pure tt (λ d f. Staged-other p current d other guard f)))
                  λ _.
                    Ensures-bind (λ _. Good)
                      (Ensures-statement _ (λ d u d' s e. saved _ d d' u s e))
                      λ _. Ensures-pure current (λ d g. g)

pub update_profile-Keeps :
    (p : Profile) (quotas : List ProfileQuota) → Keeps (update_profile p quotas)
unfolding update_profile
update_profile-Keeps p quotas = Ensures-run_in_tx (
    Ensures-bind (λ _. Good) (demoted_defaults-Keeps p)
      λ demoted.
        Ensures-bind (λ _. Good) (update_profile_tx-Keeps p)
          λ prev.
            Ensures-bind (λ _. Good) (set_profile_quotas_tx-Keeps p.id quotas)
              λ _. Ensures-pure _ (λ d g. g))

-- Tables whose default is another profile.
abbrev Elsewhere : ℕ → Db → Type 0
Elsewhere id d =
    HasDefault d.profiles × (any (λ (p : Profile). p.id == id && p.is_default) d.profiles ≡ false)

delete_unused_tx-Keeps : (id n : ℕ) → Ensures (Elsewhere id) (delete_unused_tx id n) (λ _. Good)
unfolding delete_unused_tx
delete_unused_tx-Keeps id (suc n) = Ensures-raise _
delete_unused_tx-Keeps id zero =
    Ensures-bind (λ _. Elsewhere id) (Ensures-change _ (λ d g. unfold delete_quota_rows in g))
      λ _.
        Ensures-bind (λ _. Elsewhere id) (Ensures-change _ (λ d g. g))
          λ _. Ensures-statement _ λ d u d' (g, away) e.
            let c = delete_profile_row-counts id d d' u e away in
            record { one = c.0 ∙ g.one; ids = λ i. omega (arith, c.1 i, g.ids i) }

pub delete_profile-Keeps : (id : ℕ) → Keeps (delete_profile id)
unfolding delete_profile
delete_profile-Keeps id = Ensures-run_in_tx (
    Ensures-bind
      (λ b d.
        HasDefault d.profiles × (any (λ (p : Profile). p.id == id && p.is_default) d.profiles ≡ b))
      (Ensures-query _ (λ d b g e. (g, ground arith)))
      λ b.
        Ensures-if b (λ _. Ensures-raise _)
          λ no_default.
            Ensures-bind (λ _. Elsewhere id) (Ensures-query _ (λ d n g e. (g.0, g.1 ∙ no_default)))
              λ n. delete_unused_tx-Keeps id n)
