-- ===== src/Oidc.antt =====
-- internal/oidc/oidc.go: what a login's ID token says, and the account behind it. The exchange of the code,
-- the verification of the token and its decoding from JSON are not part of it: their results are
-- arguments.
pub mod Login
use ai_self_service.Prelude.{
  ℕ, String, concat, Bool, true, false, not, ◌&&◌, Option, none, some, List, [], ◌∷◌, str_eq, any,
  if◌then◌else◌,
}
use ai_self_service.Config.{Config, admin_from_groups}
use ai_self_service.Database.Models.{User, AuditEvent, AuditAction, admin_granted, admin_revoked}
use ai_self_service.Database.Errors.{Result, ok, err}
use ai_self_service.Database.Users.{get_or_create_user, set_user_admin}
use ai_self_service.Database.Sessions.{record_audit}
use ai_self_service.Exec.{Exec, pure, attempt, ◌>>=◌, ◌>>◌}

-- A decoded JSON value: a string, a list, an object, or anything else.
mutual
  pub data Claim : Type 0 where
    text : String → Claim
    items : Claims → Claim
    object : Fields → Claim
    other : Claim

  pub data Claims : Type 0 where
    no_item : Claims
    item : Claim → Claims → Claims

  pub data Fields : Type 0 where
    no_field : Fields
    field : String → Claim → Fields → Fields

-- A key of a decoded object.
unfoldable pub field_of : String → Fields → Option Claim
field_of k no_field = none
field_of k (field name v fs) = let rest = field_of k fs in if str_eq name k then some v else rest

unfoldable pub fields_of : String → Claim → Option Claim
unfolding field_of
fields_of k (text s) = none
fields_of k (items xs) = none
fields_of k (object fs) = field_of k fs
fields_of k other = none

-- The claim at a path.
unfoldable pub walk : List String → Claim → Option Claim
unfolding fields_of
walk [] v = some v
walk (k ∷ ks) v = elim (fields_of k v) [ none ↦ none | some x ↦ walk ks x ]

abbrev pub is_text : String → Claim → Bool
is_text group (text s) = str_eq s group
is_text group (items xs) = false
is_text group (object fs) = false
is_text group other = false

unfoldable pub lists : String → Claims → Bool
lists group no_item = false
lists group (item v vs) = let rest = lists group vs in if is_text group v then true else rest

-- Whether a claim lists the group, and whether it is a usable claim.
unfoldable pub usable : String → Option Claim → Bool × Bool
unfolding lists
usable group none = (false, false)
usable group (some (text s)) = (str_eq s group, true)
usable group (some (items xs)) = (lists group xs, true)
usable group (some (object fs)) = (false, false)
usable group (some other) = (false, false)

-- `GroupMembership`, with the path split at its dots.
unfoldable pub group_membership : Fields → List String → String → Bool × Bool
unfolding walk usable
group_membership claims path group = usable group (walk path (object claims))

-- `HasGroup`
unfoldable pub has_group : Fields → List String → String → Bool
unfolding group_membership
has_group claims path group = (group_membership claims path group).0

pub record UserInfo : Type 0 where
  pub subject : String
  pub email : String
  pub name : String
  pub is_admin : Option Bool
  pub admin_claim_absent : Bool

-- A verified ID token: its text, the claims that the callback names, and all of them.
pub record IdToken : Type 0 where
  pub raw : String
  pub email : String
  pub name : String
  pub preferred_username : String
  pub sub : String
  pub claims : Fields

unfoldable pub display_name : IdToken → String
display_name t =
    if not (str_eq t.preferred_username "")
    then t.preferred_username
    else if not (str_eq t.name "")
    then t.name
    else t.email

unfoldable pub user_info : Config → List String → IdToken → UserInfo
unfolding display_name group_membership
user_info c path t =
    let plain : UserInfo = record {
      subject = t.sub;
      email = t.email;
      name = display_name t;
      is_admin = none;
      admin_claim_absent = false;
    } in
    let (admin, present) = group_membership t.claims path c.admin_group in
    if admin_from_groups c
    then record plain { is_admin = some admin; admin_claim_absent = not present }
    else plain

-- `HandleCallback`: the state of the request, the value of the cookie that is named after it, and the token
-- that the code was exchanged for, if that did not fail.
unfoldable pub handle_callback :
    Config → List String → String → Option String → Option IdToken → Option (UserInfo × String)
unfolding user_info
handle_callback c path state none token = none
handle_callback c path state (some cookie) none = none
handle_callback c path state (some cookie) (some t) =
    if str_eq cookie state then some (user_info c path t, t.raw) else none

-- The action and the detail of the audit row for a changed flag.
unfoldable pub flag_change : Config → Bool → Bool → AuditAction × String
flag_change c true absent = (admin_granted, concat ("member of group " ∷ c.admin_group ∷ []))
flag_change c false absent = (
  admin_revoked,
  if absent
      then concat ("claim " ∷ c.admin_group_claim ∷ " absent from the ID token" ∷ [])
      else concat ("left group " ∷ c.admin_group ∷ []),
)

unfoldable pub set_flag : Config → UserInfo → Bool → User → Exec User
unfolding flag_change
set_flag c info admin u = do
  set_user_admin u.id admin
  attempt (
      record_audit (record {
        id = 0;
        created_at = 0;
        action = (flag_change c admin info.admin_claim_absent).0;
        actor_email = "login system";
        subject_email = u.email;
        subject_id = some u.id;
        detail = (flag_change c admin info.admin_claim_absent).1;
      }))
  pure (record u { is_admin = admin })

abbrev pub same_flag : Bool → Bool → Bool
same_flag true b = b
same_flag false b = not b

unfoldable pub follow_token : Config → UserInfo → Option Bool → User → Exec User
unfolding set_flag
follow_token c info none u = pure u
follow_token c info (some admin) u =
    if same_flag u.is_admin admin then pure u else set_flag c info admin u

-- `Provider.GetOrCreateUser`
unfoldable pub login : Config → UserInfo → Exec User
unfolding follow_token
login c info = do
  u ← get_or_create_user info.subject info.email info.name
  follow_token c info info.is_admin u

-- A verified logout token: the keys of its events, and two of its claims.
pub record LogoutToken : Type 0 where
  pub nonce : String
  pub events : List String
  pub sub : String

-- `ValidateLogoutToken`, of a token that was verified, or not.
unfoldable pub validate_logout_token : Option LogoutToken → Option String
validate_logout_token none = none
validate_logout_token (some t) =
    let backchannel =
      any (λ (e : String). str_eq e "http://schemas.openid.net/event/backchannel-logout")
        t.events in
    if not (str_eq t.nonce "")
    then none
    else if not backchannel
    then none
    else if str_eq t.sub ""
    then none
    else some t.sub
