-- ===== src/Permissions.antt =====
-- backend/app/services/admin_permissions_service.py: the permissions of an administrator's roles. The
-- text of a stored role list is parsed by `json.loads`, whose result is an input.
pub mod Granting
use conexus.Prelude.{
  Bool, true, false, ◌||◌, Option, none, some, List, [], ◌∷◌, ◌++◌, if◌then◌else◌,
}
use conexus.Text.{Text, codes, text_eq, strip, is_blank}
use conexus.Table.{find_where}
use conexus.Models.{AdminUser, Db}

pub data Permission : Type 0 where
  adaptation_view adaptation_approve adaptation_publish adaptation_operate adaptation_rollback :
      Permission

abbrev pub permission_eq : Permission → Permission → Bool
permission_eq adaptation_view adaptation_view = true
permission_eq adaptation_approve adaptation_approve = true
permission_eq adaptation_publish adaptation_publish = true
permission_eq adaptation_operate adaptation_operate = true
permission_eq adaptation_rollback adaptation_rollback = true
permission_eq _ _ = false

-- `p in perms`
unfoldable pub allows : List Permission → Permission → Bool
allows [] p = false
allows (q ∷ qs) p = permission_eq q p || allows qs p

abbrev pub all_adaptation_perms : List Permission
all_adaptation_perms =
    adaptation_view ∷ adaptation_approve ∷ adaptation_publish ∷ adaptation_operate
    ∷ adaptation_rollback ∷ []

abbrev pub role_permissions : List (Text × List Permission)
role_permissions =
    (codes "Admin", all_adaptation_perms)
    ∷ (codes "SuperAdmin", all_adaptation_perms)
    ∷ (codes "AdaptationReviewer", adaptation_view ∷ adaptation_approve ∷ adaptation_rollback ∷ [])
    ∷ (codes "AdaptationPublisher", adaptation_view ∷ adaptation_publish ∷ [])
    ∷ (codes "AdaptationOperator", adaptation_view ∷ adaptation_operate ∷ adaptation_rollback ∷ [])
    ∷ (codes "ReadOnly", adaptation_view ∷ [])
    ∷ []

-- `_ROLE_PERMISSIONS.get(role, set())`
unfoldable pub permissions_in : List (Text × List Permission) → Text → List Permission
permissions_in [] role = []
permissions_in ((name, perms) ∷ rest) role =
    let others = permissions_in rest role in if text_eq name role then perms else others

unfoldable pub resolve_permissions_from_roles : List Text → List Permission
unfolding permissions_in
resolve_permissions_from_roles [] = []
resolve_permissions_from_roles (role ∷ roles) =
    permissions_in role_permissions role ++ resolve_permissions_from_roles roles

-- What `json.loads` makes of the text: a list, whose items are strings or not, or anything else.
pub data RolesJson : Type 0 where
  role_list : List (Option Text) → RolesJson
  not_a_list : RolesJson

unfoldable pub clean_roles : List (Option Text) → List Text
unfolding strip
clean_roles [] = []
clean_roles (none ∷ items) = clean_roles items
clean_roles (some item ∷ items) =
    let rest = clean_roles items in if is_blank (strip item) then rest else strip item ∷ rest

-- `_parse_roles_json`
unfoldable pub parse_roles_json : (Text → Option RolesJson) → Text → List Text
unfolding clean_roles
parse_roles_json loads value = if is_blank value then [] else elim (loads value) [
  | none ↦ []
  | some not_a_list ↦ []
  | some (role_list items) ↦ clean_roles items
]

-- A session without a user of the table has every permission.
unfoldable pub get_admin_permissions :
    (Text → Option RolesJson) → Option Text → Db → List Permission
unfolding resolve_permissions_from_roles parse_roles_json
get_admin_permissions loads none db = all_adaptation_perms
get_admin_permissions loads (some admin_user_id) db =
    if is_blank admin_user_id
    then all_adaptation_perms
    else elim (find_where (λ u. text_eq u.id admin_user_id) db.admin_users) [
      | none ↦ []
      | some row ↦
          if row.is_active
          then resolve_permissions_from_roles (parse_roles_json loads row.roles_json)
          else []
    ]

-- `require_adaptation_permission`: whether the request goes through.
unfoldable pub require_adaptation_permission :
    (Text → Option RolesJson) → Permission → Option Text → Db → Bool
unfolding allows get_admin_permissions
require_adaptation_permission loads permission admin_user_id db =
    allows (get_admin_permissions loads admin_user_id db) permission

abbrev pub role_if : Bool → Text → List Text
role_if true role = role ∷ []
role_if false role = []

unfoldable pub deployment_roles_from_permissions : List Permission → List Text
unfolding allows
deployment_roles_from_permissions perms =
    role_if (allows perms adaptation_approve || allows perms adaptation_rollback)
      (codes "ComplianceReviewer")
    ++ role_if (allows perms adaptation_publish) (codes "AdaptationPublisher")
    ++ role_if (allows perms adaptation_operate) (codes "AdaptationOperator")
