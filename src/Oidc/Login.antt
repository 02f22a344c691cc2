-- ===== src/Oidc/Login.antt =====
-- internal/oidc/oidc.go, internal/database/db.go: the admin flag of the account behind a login.
use ai_self_service.Prelude.{
  find?-append_none, ℕ, String, Bool, true, false, ◌||◌, Option, none, some, List, [], ◌∷◌, ◌≡◌,
  inl, inr, refl, sym, ap, ◌∙◌, subst, arith, ◌==◌, ==_refl, str_eq, str_eq_refl, find?, update_if,
  if◌then◌else◌,
}
use ai_self_service.Config.{Config}
use ai_self_service.Database.Models.{User, AuditEvent}
use ai_self_service.Database.Errors.{Result, ok, err, constraint}
use ai_self_service.Database.Tables.{Db, insert_user, update_user_row, insert_event}
use ai_self_service.Database.Profiles.Reads.{or_no_rows}
use ai_self_service.Database.Users.{
  new_user, create_user, refresh_user, user_by_sub, known_or_new, get_or_create_user, admin_row,
  set_user_admin,
}
use ai_self_service.Database.Sessions.{record_audit}
use ai_self_service.Exec.{World, query, attempt}
use ai_self_service.Exec.KeepsKeys.{query_cases}
use ai_self_service.Exec.Atomic.{Atomic, Atomic-change, Atomic-bind_read, ReadOnly-now}
use ai_self_service.Exec.Ensures.{
  Ensures-attempt, ok_is, Ensures, Ensures-bind, Ensures-now, Ensures-pure, Ensures-raise,
  Ensures-statement, Ensures-change, Ensures-if,
}
use ai_self_service.Oidc.{UserInfo, set_flag, follow_token, login, same_flag}

abbrev by_sub : String → User → Bool
by_sub sub u = str_eq u.oidc_sub sub

-- The stored row of a subject, with an id and a flag.
pub record HasRow (sub : String) (id : ℕ) (admin : Bool) (d : Db) : Type 0 where
  pub row : User
  pub found : find? (λ (u : User). str_eq u.oidc_sub sub) d.users ≡ some row
  pub id_is : row.id ≡ id
  pub flag : row.is_admin ≡ admin

find?-update_if :
    (p q : User → Bool) (f : User → User) (us : List User) (r : User)
    → ((u : User) → p (f u) ≡ p u)
    → find? p us ≡ some r
    → find? p (update_if q f us) ≡ some (if q r then f r else r)
unfolding find? update_if
find?-update_if p q f [] r h e = cc
find?-update_if p q f (u ∷ us) r h e = ground (arith, find?-update_if p q f us r h, h u)

insert_ok :
    (b c : Bool) (id id' : ℕ) (d d' : Db)
    → (let r : Result (ℕ × Db) = if b || c then err constraint else ok (id, d) in r) ≡ ok (id', d')
    → (b ≡ false) × (id ≡ id') × (d' ≡ d)
insert_ok b c id id' d d' e = ground arith

insert_user-HasRow :
    (u : User) (d : Db) (id : ℕ) (d' : Db)
    → insert_user u d ≡ ok (id, d')
    → HasRow u.oidc_sub id u.is_admin d'
unfolding insert_user
insert_user-HasRow u d id d' e =
    let h = insert_ok _ _ _ _ _ _ e in
    let row : User = record u { id = d.seqs.user_seq } in
    subst (HasRow u.oidc_sub id u.is_admin) (sym h.2) (record {
      row = row;
      found = find?-append_none (by_sub u.oidc_sub) d.users row h.0 (str_eq_refl u.oidc_sub);
      id_is = h.1;
      flag = refl;
    })

met : (b : Bool) (x y : User) → b ≡ true → (if b then y else x) ≡ y
met true x y h = refl
met false x y h = cc

update-HasRow :
    (sub : String) (id other : ℕ) (b admin : Bool) (f : User → User) (d : Db)
    → ((u : User) → (f u).oidc_sub ≡ u.oidc_sub)
    → ((u : User) → (f u).id ≡ u.id)
    → ((u : User) → u.is_admin ≡ b → (f u).is_admin ≡ admin)
    → (id == other) ≡ true
    → HasRow sub id b d
    → HasRow sub id admin (update_user_row other f d)
unfolding update_user_row
update-HasRow sub id other b admin f d subs ids flags same h = record {
  row = f h.row;
  found =
      find?-update_if (by_sub sub) (λ u. u.id == other) f d.users h.row
        (λ u. ap (λ s. str_eq s sub) (subs u)) h.found
      ∙ ap some (met _ h.row (f h.row) (ap (λ i. i == other) h.id_is ∙ same));
  id_is = ids h.row ∙ h.id_is;
  flag = flags h.row h.flag;
}

abbrev Stored : String → User → Db → Type 0
Stored sub u d = HasRow sub u.id u.is_admin d

refresh-Stored :
    (sub email name : String) (u : User)
    → Ensures (Stored sub u) (refresh_user email name u) (Stored sub)
unfolding refresh_user
refresh-Stored sub email name u =
    Ensures-bind (λ t. Stored sub u) (Ensures-now (λ d t h. h))
      (λ at.
        Ensures-bind (λ r. Stored sub u)
          (Ensures-attempt (Atomic-change _) (λ d h. h)
            (Ensures-change _ (λ d h.
              update-HasRow sub u.id u.id u.is_admin u.is_admin _ d (λ x. refl) (λ x. refl)
                (λ x e. e) (==_refl u.id) h)))
          (λ r. Ensures-pure _ (λ d h. h)))

create-Stored :
    (sub email name : String) → Ensures (λ d. Unit {0}) (create_user sub email name) (Stored sub)
unfolding create_user
create-Stored sub email name =
    Ensures-bind (λ t d. Unit {0}) (Ensures-now (λ d t h. tt))
      (λ at.
        Ensures-bind (λ id. HasRow sub id false)
          (Ensures-statement _
            (λ d id d' h e. insert_user-HasRow (new_user sub email name at) d id d' e))
          (λ id. Ensures-pure _ (λ d h. h)))

-- What a lookup that is allowed to fail found.
abbrev Found : String → Result User → Db → Type 0
Found sub (err e) d = Unit
Found sub (ok u) d = Stored sub u d

in_option :
    (sub : String) (d : Db) (o : Option User)
    → find? (by_sub sub) d.users ≡ o
    → Found sub (or_no_rows o) d
in_option sub d none h = tt
in_option sub d (some u) h = record { row = u; found = h; id_is = refl; flag = refl }

found_lem : (sub : String) (d : Db) → Found sub (user_by_sub sub d) d
unfolding user_by_sub
found_lem sub d = in_option sub d (find? (by_sub sub) d.users) refl

lookup-Found :
    (sub : String) → Ensures (λ d. Unit {0}) (attempt (query (user_by_sub sub))) (Found sub)
unfolding attempt
lookup-Found sub = record {
  at = λ w p r e.
      let z = query (user_by_sub sub) w in
      let goal : Result User × World → Type 0 = λ z. Found sub z.0 z.1.db in
      subst (λ r. Found sub r z.1.db) (ok_is z.0 r e)
        (elim (query_cases (user_by_sub sub) w) [
          | inl q ↦ subst goal (sym q) tt
          | inr q ↦ subst goal (sym q) (found_lem sub w.db)
        ]);
}

known_or_new-Stored :
    (sub email name : String) (r : Result User)
    → Ensures (Found sub r) (known_or_new sub email name r) (Stored sub)
unfolding known_or_new
known_or_new-Stored sub email name (ok u) = refresh-Stored sub email name u
known_or_new-Stored sub email name (err e) = create-Stored sub email name

get_or_create_user-Stored :
    (sub email name : String)
    → Ensures (λ d. Unit {0}) (get_or_create_user sub email name) (Stored sub)
unfolding get_or_create_user
get_or_create_user-Stored sub email name =
    Ensures-bind (Found sub) (lookup-Found sub) (known_or_new-Stored sub email name)

-- The flag as the token has it, on the returned account and on the stored one.
abbrev pub Follows : String → Option Bool → User → Db → Type 0
Follows sub none u d = Stored sub u d
Follows sub (some admin) u d = (u.is_admin ≡ admin) × HasRow sub u.id admin d

same_flag_is : (a b : Bool) → same_flag a b ≡ true → a ≡ b
same_flag_is true b h = sym h
same_flag_is false b h = ground arith

record_audit-Atomic : (e : AuditEvent) → Atomic (record_audit e)
unfolding record_audit
record_audit-Atomic e = Atomic-bind_read ReadOnly-now (λ t. Atomic-change _)

record_audit-HasRow :
    (e : AuditEvent) (sub : String) (id : ℕ) (b : Bool)
    → Ensures (HasRow sub id b) (record_audit e) (λ _. HasRow sub id b)
unfolding record_audit insert_event
record_audit-HasRow e sub id b =
    Ensures-bind (λ t. HasRow sub id b) (Ensures-now (λ d t h. h))
      (λ t.
        Ensures-change _
          (λ d h. record { row = h.row; found = h.found; id_is = h.id_is; flag = h.flag }))

set_user_admin-HasRow :
    (sub : String) (id : ℕ) (b admin : Bool)
    → Ensures (HasRow sub id b) (set_user_admin id admin) (λ _. HasRow sub id admin)
unfolding set_user_admin admin_row
set_user_admin-HasRow sub id b admin =
    Ensures-bind (λ t. HasRow sub id b) (Ensures-now (λ d t h. h))
      (λ at.
        Ensures-bind (λ r. HasRow sub id admin)
          (Ensures-statement _ (λ d r d' h e.
            subst (HasRow sub id admin) (ap (λ (x : Bool × Db). x.1) (ok_is _ (r, d') e)) (
              update-HasRow sub id id b admin _ d (λ x. refl) (λ x. refl) (λ x q. refl) (==_refl id)
                h)))
          (λ r. Ensures-if r (λ q. Ensures-pure _ (λ d h. h)) (λ q. Ensures-raise _)))

set_flag-Follows :
    (c : Config) (info : UserInfo) (admin : Bool) (u : User)
    → Ensures (Stored info.subject u) (set_flag c info admin u) (Follows info.subject (some admin))
unfolding set_flag
set_flag-Follows c info admin u =
    let sub = info.subject in
    Ensures-bind (λ x. HasRow sub u.id admin) (set_user_admin-HasRow sub u.id u.is_admin admin)
      (λ x.
        Ensures-bind (λ r. HasRow sub u.id admin)
          (Ensures-attempt (record_audit-Atomic _) (λ d h. h)
            (record_audit-HasRow _ sub u.id admin))
          (λ r. Ensures-pure _ (λ d h. (refl, h))))

follow_token-Follows :
    (c : Config) (info : UserInfo) (flag : Option Bool) (u : User)
    → Ensures (Stored info.subject u) (follow_token c info flag u) (Follows info.subject flag)
unfolding follow_token
follow_token-Follows c info none u = Ensures-pure _ (λ d h. h)
follow_token-Follows c info (some admin) u =
    Ensures-if (same_flag u.is_admin admin)
      (λ q.
        let s = same_flag_is u.is_admin admin q in
        Ensures-pure _ (λ d h. (s, subst (λ b. HasRow info.subject u.id b d) s h)))
      (λ q. set_flag-Follows c info admin u)

-- After a login that succeeds, where the token says whether the person is an admin, the account that the
-- session is for has that flag, and so has the stored account of the token's subject, which has the same
-- id; where the token does not say it, the account has the flag of the stored one.
pub login-Follows :
    (c : Config) (info : UserInfo) (w : World) (u : User)
    → (login c info w).0 ≡ ok u
    → Follows info.subject info.is_admin u (login c info w).1.db
unfolding login
login-Follows c info w u e =
    (Ensures-bind (Stored info.subject)
        (get_or_create_user-Stored info.subject info.email info.name)
        (follow_token-Follows c info info.is_admin)).at
      w tt u e
