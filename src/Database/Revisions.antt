-- ===== src/Database/Revisions.antt =====
-- LimitsRev: the revision of a profile, across the statements of a save.
pub mod Exact
use ai_self_service.Prelude.{
  ℕ, suc, ◌+◌, ◌≡◌, refl, sym, ap, ◌∙◌, subst, false, not, ◌&&◌, ◌||◌, some, String, List, [], ◌∷◌,
  ◌==◌, if◌then◌else◌, arith, find?, update_if, find?-update_if, find?_passes,
}
use ai_self_service.Database.Models.{Profile, ProfileQuota}
use ai_self_service.Database.Errors.{ok}
use ai_self_service.Database.Tables.{
  Db, quotas_of, update_profile_row, clear_default_rows, bump_rev_row, delete_quota_rows,
}
use ai_self_service.Database.Quotas.{
  same_quota_windows, enforced, insert_rows, replace_quotas_tx, set_profile_quotas_tx,
}
use ai_self_service.Database.Profiles.{
  demoted_defaults, clear_default_profile, limits_differ, update_profile_tx, update_profile,
}
use ai_self_service.Database.Profiles.Reads.{with_quotas, profile_by_id}
use ai_self_service.Database.Defaults.Rows.{with_id, profiles-insert_quotas, profile_by_id-found}
use ai_self_service.Exec.{World}
use ai_self_service.Exec.Ensures.{
  Ensures, Ensures-pure, Ensures-raise, Ensures-query, Ensures-statement, Ensures-change,
  Ensures-now, Ensures-run_in_tx, Ensures-if, Ensures-bind,
}

-- The revision of the stored profile with an id.
abbrev pub HasRev : ℕ → ℕ → Db → Type 0
HasRev id n d = (r : Profile) × (find? (with_id id) d.profiles ≡ some r) × (r.limits_rev ≡ n)

bump_rev_row-HasRev : (id n : ℕ) (d : Db) → HasRev id n d → HasRev id (suc n) (bump_rev_row id d)
unfolding bump_rev_row
bump_rev_row-HasRev id n d (r, e, same) = (
  record r { limits_rev = r.limits_rev + 1 },
  find?-update_if (with_id id) (with_id id) (λ x. record x { limits_rev = x.limits_rev + 1 })
        d.profiles r (λ x. ground arith) e
      ∙ ground (arith, find?_passes (with_id id) d.profiles r e),
  omega arith,
)

clear_default_rows-HasRev :
    (k id n : ℕ) (d : Db) → HasRev id n d → HasRev id n (clear_default_rows k d)
unfolding clear_default_rows
clear_default_rows-HasRev k id n d (r, e, same) =
    let demotes = λ (x : Profile). x.is_default && (k == 0 || not (x.id == k)) in
    (
      (if demotes r then record r { is_default = false } else r),
      find?-update_if (with_id id) demotes (λ x. record x { is_default = false }) d.profiles r
          (λ x. ground arith) e,
      ground arith,
    )

update_profile_row-HasRev :
    (p : Profile) (n : ℕ) (d d' : Db) (u : Unit {0})
    → HasRev p.id n d
    → update_profile_row p d ≡ ok (u, d')
    → HasRev p.id p.limits_rev d'
unfolding update_profile_row
update_profile_row-HasRev p n d d' u (r, e, same) h =
    let save = λ (x : Profile). record p { created_at = x.created_at; quotas = [] } in
    let saved : d'.profiles ≡ update_if (with_id p.id) save d.profiles = ground arith in
    (
      save r,
      ap (find? (with_id p.id)) saved
          ∙ find?-update_if (with_id p.id) (with_id p.id) save d.profiles r (λ x. ground arith) e
          ∙ ground (arith, find?_passes (with_id p.id) d.profiles r e),
      refl,
    )

-- What a changed set of windows adds to the revision.
abbrev pub windows_step : List ProfileQuota → List ProfileQuota → ℕ
windows_step old new = if same_quota_windows old new then 0 else 1

abbrev pub limits_step : Profile → Profile → ℕ
limits_step old new = if limits_differ old new then 1 else 0

insert_rows-HasRev :
    (id n : ℕ) (rows : List ProfileQuota)
    → Ensures (HasRev id n) (insert_rows rows) (λ _. HasRev id n)
unfolding insert_rows
insert_rows-HasRev id n [] = Ensures-pure tt (λ d h. h)
insert_rows-HasRev id n (q ∷ qs) = Ensures-statement _ λ d u d' h e.
    (h.0, ap (find? (with_id id)) (profiles-insert_quotas (q ∷ qs) d d' u e) ∙ h.1, h.2)

replace_quotas_tx-HasRev :
    (id n : ℕ) (rows : List ProfileQuota)
    → Ensures (HasRev id n) (replace_quotas_tx id rows) (λ _. HasRev id (suc n))
unfolding replace_quotas_tx delete_quota_rows
replace_quotas_tx-HasRev id n rows =
    Ensures-bind (λ _. HasRev id n) (Ensures-change _ (λ d h. h))
      λ _.
        Ensures-bind (λ _. HasRev id n) (insert_rows-HasRev id n rows)
          λ _. Ensures-change _ (λ d h. bump_rev_row-HasRev id n d h)

abbrev Holding : ℕ → ℕ → List ProfileQuota → Db → Type 0
Holding id n old d = HasRev id n d × (quotas_of id d ≡ old)

set_profile_quotas_tx-HasRev :
    (id n : ℕ) (old quotas : List ProfileQuota)
    → Ensures
        (Holding id n old)
        (set_profile_quotas_tx id quotas)
        (λ _. HasRev id (n + windows_step old (enforced id quotas)))
unfolding set_profile_quotas_tx
set_profile_quotas_tx-HasRev id n old quotas =
    let rows = enforced id quotas in
    Ensures-bind (λ current d. HasRev id n d × (current ≡ old))
      (Ensures-query _ (λ d current h e. (h.0, ground (arith, h.1))))
      λ current.
        Ensures-if (same_quota_windows current rows)
          (λ same.
            Ensures-pure tt
              λ d h. (h.0.0, h.0.1, ground (arith, h.0.2, ap (λ o. same_quota_windows o rows) h.1)))
          (λ differ. record {
            at = λ w h a e.
                let r = (replace_quotas_tx-HasRev id n rows).at w h.0 a e in
                (r.0, r.1, ground (arith, r.2, ap (λ o. same_quota_windows o rows) h.1));
          })

-- The tables at the start of the save, and what it read.
abbrev Read : Profile → Db → Profile → Db → Type 0
Read p d0 prev d =
    (profile_by_id p.id d0 ≡ ok prev)
    × HasRev p.id prev.limits_rev d
    × (quotas_of p.id d ≡ prev.quotas)

read_lem :
    (p prev : Profile) (d0 d : Db) → d ≡ d0 → profile_by_id p.id d ≡ ok prev → Read p d0 prev d
unfolding with_quotas
read_lem p prev d0 d same e =
    let (r, f, q) = profile_by_id-found p.id d prev e in
    (
      subst (λ x. profile_by_id p.id x ≡ ok prev) same e,
      (r, f, ground (arith, q)),
      ground (arith, q, find?_passes (with_id p.id) d.profiles r f),
    )

abbrev Saved : Profile → Db → Profile → Db → Type 0
Saved p d0 prev d =
    (profile_by_id p.id d0 ≡ ok prev)
    × Holding p.id (prev.limits_rev + limits_step prev p) prev.quotas d

saved_lem :
    (p q prev : Profile) (d0 d d' : Db) (u : Unit {0})
    → q.id ≡ p.id
    → q.limits_rev ≡ prev.limits_rev + limits_step prev p
    → Read p d0 prev d
    → update_profile_row q d ≡ ok (u, d')
    → Saved p d0 prev d'
saved_lem p q prev d0 d d' u ids rev (from, has, quotas) e =
    let h =
      update_profile_row-HasRev q prev.limits_rev d d' u
        (subst (λ i. HasRev i prev.limits_rev d) (sym ids) has) e in
    (
      from,
      (
        (h.0, ap (λ i. find? (with_id i) d'.profiles) (sym ids) ∙ h.1, h.2 ∙ rev),
        unfold update_profile_row quotas_of in ground (arith, quotas),
      ),
    )

update_profile_tx-Saved :
    (p : Profile) (d0 : Db) → Ensures (λ d. d ≡ d0) (update_profile_tx p) (Saved p d0)
unfolding update_profile_tx clear_default_profile
update_profile_tx-Saved p d0 =
    Ensures-bind (λ _ d. d ≡ d0) (Ensures-now (λ d t h. h))
      λ at.
        Ensures-bind (Read p d0) (Ensures-query _ (λ d prev same e. read_lem p prev d0 d same e))
          λ prev.
            Ensures-if (prev.is_default && not p.is_default) (λ _. Ensures-raise _)
              λ guard.
                Ensures-bind (λ _. Read p d0 prev)
                  (Ensures-if p.is_default
                    (λ def. Ensures-change _ λ d (from, has, quotas). (
                      from,
                      clear_default_rows-HasRev p.id p.id prev.limits_rev d has,
                      unfold clear_default_rows quotas_of in quotas,
                    ))
                    (λ other. Ensures-pure tt (λ d h. h)))
                  λ _.
                    Ensures-bind (λ _. Saved p d0 prev)
                      (Ensures-statement _
                        λ d u d' h e. saved_lem p _ prev d0 d d' u refl (ground arith) h e)
                      λ _. Ensures-pure prev (λ d h. h)

demoted_defaults-same :
    (p : Profile) (d0 : Db) → Ensures (λ d. d ≡ d0) (demoted_defaults p) (λ _ d. d ≡ d0)
unfolding demoted_defaults
demoted_defaults-same p d0 =
    Ensures-if p.is_default (λ _. Ensures-query _ (λ d a h e. h)) (λ _. Ensures-pure [] (λ d h. h))

abbrev Bumped : Profile → List ProfileQuota → Db → Profile × List String → Db → Type 0
Bumped p quotas d0 (prev, demoted) d =
    (profile_by_id p.id d0 ≡ ok prev)
    × HasRev p.id
        (prev.limits_rev + limits_step prev p + windows_step prev.quotas (enforced p.id quotas)) d

update_profile-Bumped :
    (p : Profile) (quotas : List ProfileQuota) (d0 : Db)
    → Ensures (λ d. d ≡ d0) (update_profile p quotas) (Bumped p quotas d0)
unfolding update_profile
update_profile-Bumped p quotas d0 = Ensures-run_in_tx (
    Ensures-bind (λ _ d. d ≡ d0) (demoted_defaults-same p d0)
      λ demoted. Ensures-bind (Saved p d0) (update_profile_tx-Saved p d0) λ prev.
        Ensures-bind (λ _. Bumped p quotas d0 (prev, demoted))
          (record {
            at = λ w (from, held) a e.
                (from, (set_profile_quotas_tx-HasRev p.id _ prev.quotas quotas).at w held a e);
          })
          λ _. Ensures-pure _ (λ d h. h))

update_profile-limits_rev :
    (p : Profile) (quotas : List ProfileQuota) (w : World) (prev : Profile) (demoted : List String)
    → (update_profile p quotas w).0 ≡ ok (prev, demoted)
    → (profile_by_id p.id w.db ≡ ok prev)
      × HasRev p.id
          (prev.limits_rev + limits_step prev p + windows_step prev.quotas (enforced p.id quotas))
          (update_profile p quotas w).1.db
update_profile-limits_rev p quotas w prev demoted e =
    (update_profile-Bumped p quotas w.db).at w refl (prev, demoted) e
