-- ===== src/Database/Defaults/Rows.antt =====
-- What each statement on the profiles table does to the number of defaults and of rows with an id.
use ai_self_service.Prelude.{
  ℕ, ◌+◌, ◌≤◌, ◌≡◌, refl, sym, ◌∙◌, subst, Bool, true, false, not, ◌&&◌, ◌||◌, Option, none, some,
  List, [], ◌∷◌, ◌==◌, if◌then◌else◌, arith, any, find?, count_if, update_if, delete_if,
  count_if-append, count_if-update_if, count_if-delete_if, count_if_mono, count_if_split,
  count_if_none, count_if_ext, count_if-false, Bool-cases, inl, inr,
}
use ai_self_service.Database.Models.{Profile, ProfileQuota}
use ai_self_service.Database.Errors.{ok}
use ai_self_service.Database.Tables.{
  Db, clash, fresh_id, insert_profile, update_profile_row, clear_default_rows, bump_rev_row,
  add_quota_row, insert_quotas, delete_profile_row,
}
use ai_self_service.Database.Profiles.Reads.{with_quotas, profile_by_id}

abbrev pub is_default : Profile → Bool
is_default p = p.is_default

abbrev pub with_id : ℕ → Profile → Bool
with_id i p = p.id == i

-- Exactly one row is the default, and no two rows share an id.
pub record HasDefault (ps : List Profile) : Type 0 where
  pub one : count_if is_default ps ≡ 1
  pub ids : (i : ℕ) → count_if (with_id i) ps ≤ 1

-- The rows before an INSERT or UPDATE that makes `p` the default: none is yet, apart from the row
-- that is `p` itself.
pub record Cleared (p : Profile) (ps : List Profile) : Type 0 where
  pub others : count_if (λ r. r.is_default && not (r.id == p.id)) ps ≡ 0
  pub ids : (i : ℕ) → count_if (with_id i) ps ≤ 1

count_id_same :
    (i : ℕ) (p : Profile → Bool) (f : Profile → Profile) (ps : List Profile)
    → ((r : Profile) → (f r).id ≡ r.id)
    → count_if (with_id i) (update_if p f ps) ≡ count_if (with_id i) ps
count_id_same i p f ps h =
    count_if-update_if (with_id i) p (with_id i) f ps (λ r. ground (arith, h r))

pub bump_rev_row-HasDefault :
    (id : ℕ) (d : Db) → HasDefault d.profiles → HasDefault (bump_rev_row id d).profiles
unfolding bump_rev_row
bump_rev_row-HasDefault id d h = record {
  one = count_if-update_if is_default _ is_default _ d.profiles (λ r. ground arith) ∙ h.one;
  ids = λ i. omega (
    arith,
    count_id_same i (with_id id) (λ r. record r { limits_rev = r.limits_rev + 1 }) d.profiles
        (λ r. refl),
    h.ids i,
  );
}

pub profiles-insert_quotas :
    (qs : List ProfileQuota) (d d' : Db) (u : Unit {0})
    → insert_quotas qs d ≡ ok (u, d')
    → d'.profiles ≡ d.profiles
unfolding insert_quotas add_quota_row
profiles-insert_quotas [] d d' u h = ground arith
profiles-insert_quotas (q ∷ qs) d d' u h =
    ground (arith, profiles-insert_quotas qs (add_quota_row q d) d' u)

pub ids_of_clear :
    (k i : ℕ) (d : Db)
    → count_if (with_id i) (clear_default_rows k d).profiles ≡ count_if (with_id i) d.profiles
unfolding clear_default_rows
ids_of_clear k i d = count_id_same i _ (λ r. record r { is_default = false }) d.profiles (λ r. refl)

pub clear_default_rows-zero : (d : Db) → count_if is_default (clear_default_rows 0 d).profiles ≡ 0
unfolding clear_default_rows
clear_default_rows-zero d =
    count_if-update_if is_default _ (λ r. false) _ d.profiles (λ r. ground arith)
    ∙ count_if-false d.profiles

abbrev pub other_default : ℕ → Profile → Bool
other_default k r = r.is_default && not (r.id == k)

pub clear_default_rows-others :
    (k : ℕ) (d : Db) → count_if (other_default k) (clear_default_rows k d).profiles ≡ 0
unfolding clear_default_rows
clear_default_rows-others k d =
    count_if-update_if (other_default k) _ (λ r. false) _ d.profiles (λ r. ground arith)
    ∙ count_if-false d.profiles

-- A new row adds one default if it is one, and takes an id that no row had.
pub insert_profile-counts :
    (p : Profile) (d d' : Db) (id : ℕ)
    → insert_profile p d ≡ ok (id, d')
    → (count_if is_default d'.profiles
        ≡ count_if is_default d.profiles + (if p.is_default then 1 else 0))
      × (((i : ℕ) → count_if (with_id i) d.profiles ≤ 1)
          → (i : ℕ) → count_if (with_id i) d'.profiles ≤ 1)
unfolding insert_profile count_if
insert_profile-counts p d d' id h =
    let new = fresh_id d.seqs.profile_seq p.id in
    let row = record p { id = new; quotas = [] } in
    let taken = λ (r : Profile). r.id == new || clash p r in
    elim (Bool-cases (any taken d.profiles)) [
      | inl bad ↦ absurd (ground arith)
      | inr free ↦ (
        ground (arith, count_if-append is_default d.profiles (row ∷ [])),
        λ ids i. ground (
          arith,
          count_if-append (with_id i) d.profiles (row ∷ []),
          count_if_none taken d.profiles free,
          count_if_mono (with_id new) taken d.profiles (λ r. ground arith),
          ids i,
        ),
      )
    ]

-- What a saved row leaves of a row.
abbrev pub default_after : Profile → Profile → Bool
default_after p r = if r.id == p.id then p.is_default else r.is_default

pub update_profile_row-counts :
    (p : Profile) (d d' : Db) (u : Unit {0})
    → update_profile_row p d ≡ ok (u, d')
    → (count_if is_default d'.profiles ≡ count_if (default_after p) d.profiles)
      × ((i : ℕ) → count_if (with_id i) d'.profiles ≡ count_if (with_id i) d.profiles)
unfolding update_profile_row
update_profile_row-counts p d d' u h =
    let save = λ (r : Profile). record p { created_at = r.created_at; quotas = [] } in
    let here = λ (r : Profile). r.id == p.id in
    let saved : d'.profiles ≡ update_if here save d.profiles = ground arith in
    (
      subst (λ ps. count_if is_default ps ≡ count_if (default_after p) d.profiles) (sym saved)
          (count_if-update_if is_default here (default_after p) save d.profiles
            (λ r. ground arith)),
      λ i.
          subst (λ ps. count_if (with_id i) ps ≡ count_if (with_id i) d.profiles) (sym saved)
            (count_if-update_if (with_id i) here (with_id i) save d.profiles (λ r. ground arith)),
    )

-- Saving the default: no other row is one any more, and the row is there.
pub saved_default :
    (p : Profile) (ps : List Profile)
    → p.is_default ≡ true
    → count_if (other_default p.id) ps ≡ 0
    → count_if (with_id p.id) ps ≡ 1
    → count_if (default_after p) ps ≡ 1
saved_default p ps def none_else here =
    let at =
      count_if_ext (λ r. default_after p r && with_id p.id r) (with_id p.id) ps
        (λ r. ground arith) in
    let off =
      count_if_ext (λ r. default_after p r && not (with_id p.id r)) (other_default p.id) ps
        (λ r. ground arith) in
    omega (arith, count_if_split (default_after p) (with_id p.id) ps, at, off)

-- Saving a profile that neither was nor is the default.
pub saved_other :
    (p : Profile) (ps : List Profile)
    → p.is_default ≡ false
    → count_if (λ r. r.is_default && r.id == p.id) ps ≡ 0
    → count_if (default_after p) ps ≡ count_if is_default ps
saved_other p ps def none_here =
    let same =
      count_if_ext (default_after p) (λ r. is_default r && not (with_id p.id r)) ps
        (λ r. ground arith) in
    omega (arith, count_if_split is_default (with_id p.id) ps, same)

-- The profile that a query by its id finds.
pub profile_by_id-found :
    (id : ℕ) (d : Db) (p : Profile)
    → profile_by_id id d ≡ ok p
    → (r : Profile) × (find? (with_id id) d.profiles ≡ some r) × (p ≡ with_quotas d r)
unfolding profile_by_id
profile_by_id-found id d p h = found (find? (with_id id) d.profiles) refl
  where
    found :
        (o : Option Profile)
        → find? (with_id id) d.profiles ≡ o
        → (r : Profile) × (find? (with_id id) d.profiles ≡ some r) × (p ≡ with_quotas d r)
    found none e = absurd (ground arith)
    found (some r) e = (r, e, ground arith)

pub delete_profile_row-counts :
    (id : ℕ) (d d' : Db) (u : Unit {0})
    → delete_profile_row id d ≡ ok (u, d')
    → any (λ (r : Profile). r.id == id && r.is_default) d.profiles ≡ false
    → (count_if is_default d'.profiles ≡ count_if is_default d.profiles)
      × ((i : ℕ) → count_if (with_id i) d'.profiles ≤ count_if (with_id i) d.profiles)
unfolding delete_profile_row
delete_profile_row-counts id d d' u h no_default =
    let gone : d'.profiles ≡ delete_if (with_id id) d.profiles = ground arith in
    let here =
      count_if_ext (λ r. is_default r && with_id id r) (λ r. r.id == id && r.is_default) d.profiles
        (λ r. ground arith) in
    (
      subst (λ ps. count_if is_default ps ≡ count_if is_default d.profiles) (sym gone)
          (omega (
            arith,
            count_if-delete_if is_default (with_id id) d.profiles,
            count_if_split is_default (with_id id) d.profiles,
            here,
            count_if_none (λ (r : Profile). r.id == id && r.is_default) d.profiles no_default,
          )),
      λ i.
          subst (λ ps. count_if (with_id i) ps ≤ count_if (with_id i) d.profiles) (sym gone)
            (omega (
              arith,
              count_if-delete_if (with_id i) (with_id id) d.profiles,
              count_if_mono (λ r. with_id i r && not (with_id id r)) (with_id i) d.profiles
                  (λ r. ground arith),
            )),
    )
