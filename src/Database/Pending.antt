-- ===== src/Database/Pending.antt =====
-- Which keys the limit sync finds out of date, and what a recorded push changes about that.
use ai_self_service.Prelude.{
  ℕ, ◌<◌, ◌≡◌, ◌≢◌, refl, sym, ap, subst, if◌then◌else◌, [], ◌∷◌, ◌&&◌, ◌∙◌, ◌↔◌, ◌⊎◌, inl, inr,
  true, false, Option, none, some, String, [], same_nat_iff, same_text_iff, arith, find?,
  find?-update_if, find?_passes, Bool-cases,
}
use ai_self_service.Database.Models.{Profile, ApiKey, User, Time}
use ai_self_service.Database.Errors.{ok}
use ai_self_service.Database.Tables.{Db, update_keys}
use ai_self_service.Database.Keys.{has_id}
use ai_self_service.Database.SyncQueries.{
  effective_id, default_id, find_profile, out_of_date, is_live, pending_row, synced_with,
  mark_limits_synced, target,
}
use ai_self_service.Exec.{World}
use ai_self_service.Exec.Ensures.{Ensures, Ensures-change}

abbrev pub id_of : Option Profile → Option ℕ
id_of none = none
id_of (some p) = some p.id

-- The profile assigned to an account, or else the first default one.
abbrev pub assigned_or_default : User → Db → Option ℕ
assigned_or_default u d = elim u.profile_id [
  | some id ↦ some id
  | none ↦ id_of (find? (λ (p : Profile). p.is_default) d.profiles)
]

same_effective : (u : User) (d : Db) → effective_id u d ≡ assigned_or_default u d
unfolding effective_id default_id
same_effective u d = refl

-- What a key was last pushed with is its owner's effective profile, at its present revision, and
-- the owner's present name and email.
abbrev pub UpToDate : ApiKey → User → Db → Type 0
UpToDate k u d =
    (p : Profile) × (find_profile (assigned_or_default u d) d ≡ some p)
    × (k.synced_profile_id ≡ assigned_or_default u d)
    × (k.synced_rev ≡ some p.limits_rev)
    × (k.synced_owner_name ≡ some u.name)
    × (k.synced_owner_email ≡ some u.email)

pub out_of_date_iff :
    (k : ApiKey) (u : User) (id : Option ℕ) (o : Option Profile)
    → (out_of_date k u id o ≡ false) ↔ (
        (p : Profile) × (o ≡ some p)
        × (k.synced_profile_id ≡ id)
        × (k.synced_rev ≡ some p.limits_rev)
        × (k.synced_owner_name ≡ some u.name)
        × (k.synced_owner_email ≡ some u.email))
unfolding out_of_date
out_of_date_iff k u id none = (λ h. absurd (ground arith), λ h. ground arith)
out_of_date_iff k u id (some p) =
    let profile = same_nat_iff k.synced_profile_id id in
    let rev = same_nat_iff k.synced_rev (some p.limits_rev) in
    let name = same_text_iff k.synced_owner_name (some u.name) in
    let email = same_text_iff k.synced_owner_email (some u.email) in
    (
      λ h. (
        p,
        refl,
        ground (arith, profile),
        ground (arith, rev),
        ground (arith, name),
        ground (arith, email),
      ),
      λ (q, e, a, b, c, f). ground (arith, profile, rev, name, email),
    )

live_iff :
    (at : Time) (k : ApiKey)
    → (is_live at k ≡ true) ↔ ((at < k.expires_at) × (k.missing_since ≡ none))
unfolding is_live
live_iff at k = ground arith

pending_row_split :
    (at : Time) (d : Db) (k : ApiKey) (u : User)
    → (pending_row at d k (some u) ≡ []) ↔ (
        (is_live at k ≡ false)
        ⊎ (out_of_date k u (assigned_or_default u d) (find_profile (assigned_or_default u d) d)
            ≡ false))
unfolding pending_row
pending_row_split at d k u =
    subst
      (λ id.
        ((if is_live at k && out_of_date k u id (find_profile id d) then target k u id ∷ [] else [])
          ≡ [])
        ↔ ((is_live at k ≡ false)
            ⊎ (out_of_date k u (assigned_or_default u d) (find_profile (assigned_or_default u d) d)
                ≡ false)))
      (sym (same_effective u d)) (ground arith)

-- A key with an owner yields a row of the `pending` query exactly when it has not expired, is not
-- marked as missing, and what was last pushed to it is not its owner's effective profile at its
-- present revision with the owner's present name and email.
pub pending_row_iff :
    (at : Time) (d : Db) (k : ApiKey) (u : User)
    → (pending_row at d k (some u) ≢ [])
      ↔ ((at < k.expires_at) × (k.missing_since ≡ none) × (¬ UpToDate k u d))
pending_row_iff at d k u =
    let split = pending_row_split at d k u in
    let id = assigned_or_default u d in
    let ood = out_of_date_iff k u id (find_profile id d) in
    let live = live_iff at k in
    (
      λ h.
          let l : (at < k.expires_at) × (k.missing_since ≡ none) =
            elim (Bool-cases (is_live at k)) [
              | inl l ↦ live.0 l
              | inr dead ↦ absurd (h (split.1 (inl dead)))
            ] in
          (l.0, l.1, λ fresh. h (split.1 (inr (ood.1 fresh)))),
      λ (alive, present, stale) nothing. elim (split.0 nothing) [
        | inl dead ↦ ground (arith, live)
        | inr fresh ↦ stale (ood.0 fresh)
      ],
    )

-- What the recorded values of a push must still be for the key to be up to date.
abbrev pub StillHolds : ℕ → ℕ → String → String → User → Db → Type 0
StillHolds profile_id rev name email u d =
    (p : Profile) × (find_profile (assigned_or_default u d) d ≡ some p)
    × (assigned_or_default u d ≡ some profile_id)
    × (p.limits_rev ≡ rev)
    × (u.name ≡ name)
    × (u.email ≡ email)

synced_with_iff :
    (profile_id rev : ℕ) (name email : String) (k : ApiKey) (u : User) (d : Db)
    → UpToDate (synced_with profile_id rev name email k) u d
      ↔ StillHolds profile_id rev name email u d
synced_with_iff profile_id rev name email k u d = (
  λ (p, e, a, b, c, f). (p, e, sym a, ground arith, ground arith, ground arith),
  λ (p, e, a, b, c, f). (p, e, sym a, ground arith, ground arith, ground arith),
)

recorded_lem :
    (key_id profile_id rev : ℕ) (name email : String) (d0 : Db)
    → Ensures
        (λ d. d ≡ d0)
        (mark_limits_synced key_id profile_id rev name email)
        (λ _ d. d ≡ update_keys (has_id key_id) (synced_with profile_id rev name email) d0)
unfolding mark_limits_synced
recorded_lem key_id profile_id rev name email d0 =
    Ensures-change _ (λ d same. ap (update_keys _ _) same)

-- After a push was recorded, a key that has not expired and is not marked as missing is out of date
-- exactly when its owner's effective profile, that profile's revision, or the owner's name or email is
-- no longer the one that the push recorded.
pub mark_limits_synced-pending :
    (key_id profile_id rev : ℕ) (name email : String) (w : World) (at : Time) (k : ApiKey)
    (u : User)
    → (mark_limits_synced key_id profile_id rev name email w).0 ≡ ok tt
    → find? (has_id key_id) w.db.keys ≡ some k
    → at < k.expires_at
    → k.missing_since ≡ none
    → let d' = (mark_limits_synced key_id profile_id rev name email w).1.db in
      let k' = synced_with profile_id rev name email k in
      (find? (has_id key_id) d'.keys ≡ some k')
      × ((pending_row at d' k' (some u) ≢ []) ↔ (¬ StillHolds profile_id rev name email u d'))
mark_limits_synced-pending key_id profile_id rev name email w at k u e found alive present =
    let d' = (mark_limits_synced key_id profile_id rev name email w).1.db in
    let k' = synced_with profile_id rev name email k in
    let same = (recorded_lem key_id profile_id rev name email w.db).at w refl tt e in
    let row = pending_row_iff at d' k' u in
    let fresh = synced_with_iff profile_id rev name email k u d' in
    (
      ap (λ (d : Db). find? (has_id key_id) d.keys) same
          ∙ unfold update_keys in
            find?-update_if (has_id key_id) (has_id key_id) (synced_with profile_id rev name email)
              w.db.keys k (λ x. ground arith) found
            ∙ ground (arith, find?_passes (has_id key_id) w.db.keys k found),
      (λ h s. (row.0 h).2 (fresh.1 s), λ h. row.1 (alive, present, λ s. h (fresh.0 s))),
    )
