-- ===== src/Database/Defaults/Seed.antt =====
-- Seeding the default profile at startup.
use ai_self_service.Prelude.{
  ℕ, zero, suc, ◌≤◌, ◌≡◌, sym, ◌∙◌, subst, Bool, true, false, not, ◌&&◌, ◌||◌, List, ◌==◌, str_eq,
  arith, any, count_if, update_if, count_if-update_if, count_if_ext, count_if_split, count_if_none,
  count_if-any, count_if_mono,
}
use ai_self_service.Database.Models.{Profile, Time}
use ai_self_service.Database.Errors.{ok}
use ai_self_service.Database.Tables.{Db}
use ai_self_service.Database.Profiles.{
  seed_profile, promote_rows, promote_default_tx, seed_into, seed_default_profile,
}
use ai_self_service.Database.Defaults.Rows.{HasDefault, is_default, with_id, insert_profile-counts}
use ai_self_service.Database.Defaults.Saves.{Good}
use ai_self_service.Exec.{World}
use ai_self_service.Exec.Ensures.{
  Ensures, Ensures-pure, Ensures-raise, Ensures-query, Ensures-statement, Ensures-now,
  Ensures-run_in_tx, Ensures-if, Ensures-bind,
}

abbrev pub named_default : Profile → Bool
named_default p = str_eq p.name "default"

-- What the database's own constraints give: at most one default, one row of a name, one of an id.
pub record Constrained (ps : List Profile) : Type 0 where
  pub defaults : count_if is_default ps ≤ 1
  pub names : count_if named_default ps ≤ 1
  pub ids : (i : ℕ) → count_if (with_id i) ps ≤ 1

abbrev Unset : Db → Type 0
Unset d = Constrained d.profiles × (any is_default d.profiles ≡ false)

-- After the promotion: the default, if the name was met.
abbrev Promoted : ℕ → Db → Type 0
Promoted n d =
    (count_if is_default d.profiles ≡ n) × (n ≤ 1) × ((i : ℕ) → count_if (with_id i) d.profiles ≤ 1)

promote_rows-Promoted :
    (at : Time) (d d' : Db) (n : ℕ) → Unset d → promote_rows at d ≡ ok (n, d') → Promoted n d'
unfolding promote_rows
promote_rows-Promoted at d d' n (c, unset) e =
    let f = λ (p : Profile). record p { is_default = true; updated_at = at } in
    let rows : d'.profiles ≡ update_if named_default f d.profiles = ground arith in
    let met : count_if named_default d.profiles ≡ n = ground arith in
    let both = λ (p : Profile). named_default p || p.is_default in
    let one = count_if-update_if is_default named_default both f d.profiles (λ p. ground arith) in
    let at_name =
      count_if_ext (λ p. both p && named_default p) named_default d.profiles (λ p. ground arith) in
    let off_name =
      count_if_mono (λ p. both p && not (named_default p)) is_default d.profiles
        (λ p. ground arith) in
    (
      subst (λ ps. count_if is_default ps ≡ n) (sym rows)
          (omega (
            arith,
            one,
            count_if_split both named_default d.profiles,
            at_name,
            off_name,
            met,
            count_if_none is_default d.profiles unset,
          )),
      omega (arith, met, c.names),
      λ i.
          subst (λ ps. count_if (with_id i) ps ≤ 1) (sym rows)
            (omega (
              arith,
              count_if-update_if (with_id i) named_default (with_id i) f d.profiles
                  (λ p. ground arith),
              c.ids i,
            )),
    )

seed_into-Good : (n : ℕ) → Ensures Unset (seed_into n) (λ _. Good)
unfolding seed_into promote_default_tx
seed_into-Good zero =
    Ensures-bind (λ _. Unset) (Ensures-now (λ d t u. u))
      λ at.
        Ensures-bind (λ _. Good)
          (Ensures-statement _ λ d id d' u e.
            let c = insert_profile-counts (seed_profile at) d d' id e in
            record {
              one = omega (arith, c.0, count_if_none is_default d.profiles u.1);
              ids = c.1 u.0.ids;
            })
          λ _. Ensures-pure tt (λ d g. g)
seed_into-Good (suc m) =
    Ensures-bind (λ _. Unset) (Ensures-now (λ d t u. u))
      λ at.
        Ensures-bind Promoted
          (Ensures-statement _ (λ d n d' u e. promote_rows-Promoted at d d' n u e))
          λ n.
            Ensures-if (n == 0) (λ _. Ensures-raise _)
              λ met. Ensures-pure tt (λ d p. record { one = ground (arith, p.0, p.1); ids = p.2 })

seeds_default :
    Ensures (λ d. Constrained d.profiles) seed_default_profile (λ _ d. HasDefault d.profiles)
unfolding seed_default_profile
seeds_default = Ensures-run_in_tx (
    Ensures-bind (λ b d. Constrained d.profiles × (any is_default d.profiles ≡ b))
      (Ensures-query _ (λ d b c e. (c, ground arith)))
      λ b.
        Ensures-if b
          (λ yes_default. Ensures-pure tt λ d c. record {
            one =
                omega (arith, c.0.defaults, count_if-any is_default d.profiles (c.1 ∙ yes_default));
            ids = c.0.ids;
          })
          λ no_default.
            Ensures-bind (λ _. Unset) (Ensures-query _ (λ d n c e. (c.0, c.1 ∙ no_default)))
              λ n. seed_into-Good n)

-- From tables with at most one default profile, at most one profile of the name that is seeded and
-- unique ids, a start that seeds the default profile without an error leaves exactly one default
-- profile, and unique ids.
pub seed_default_profile-HasDefault :
    (w : World)
    → Constrained w.db.profiles
    → (seed_default_profile w).0 ≡ ok tt
    → HasDefault (seed_default_profile w).1.db.profiles
seed_default_profile-HasDefault w c e = seeds_default.at w c tt e

pub seed_default_profile-Keeps : Ensures Good seed_default_profile (λ _. Good)
unfolding seed_default_profile
seed_default_profile-Keeps = Ensures-run_in_tx (
    Ensures-bind (λ b d. Good d × (any is_default d.profiles ≡ b))
      (Ensures-query _ (λ d b g e. (g, ground arith)))
      λ b.
        Ensures-if b (λ _. Ensures-pure tt (λ d g. g.0))
          λ no_default.
            Ensures-bind (λ _ d. ⊥)
              (Ensures-query _ λ d n g e.
                omega (arith, g.0.one, count_if_none is_default d.profiles (g.1 ∙ no_default)))
              λ n. record { at = λ w bad a e. absurd bad })
