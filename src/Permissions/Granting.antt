-- ===== src/Permissions/Granting.antt =====
-- Which roles grant a permission.
use conexus.Prelude.{
  ◌&&◌, ◌≡◌, refl, ◌∙◌, Bool, Bool-cases, false, ◌||◌, Option, some, List, [], ◌∷◌, ◌++◌, arith,
  inl, inr,
}
use conexus.Text.{Text, codes, text_eq, is_blank}
use conexus.Text.Laws.{text_eq→eq}
use conexus.Table.{find_where}
use conexus.Models.{AdminUser, Db}
use conexus.Permissions.{
  Permission, adaptation_publish, allows, role_permissions, permissions_in,
  resolve_permissions_from_roles, RolesJson, parse_roles_json, get_admin_permissions,
  require_adaptation_permission,
}

allows-append :
    (xs ys : List Permission) (p : Permission) → allows (xs ++ ys) p ≡ (allows xs p || allows ys p)
unfolding allows
allows-append [] ys p = refl
allows-append (x ∷ xs) ys p = ground (arith, allows-append xs ys p)

-- A role in the list meets the condition.
abbrev pub any_role : (Text → Bool) → List Text → Bool
any_role f [] = false
any_role f (r ∷ rs) = f r || any_role f rs

-- The roles that may publish.
abbrev pub is_publisher : Text → Bool
is_publisher role =
    text_eq (codes "Admin") role
    || text_eq (codes "SuperAdmin") role
    || text_eq (codes "AdaptationPublisher") role

publishing_role :
    (role : Text)
    → text_eq (codes "AdaptationReviewer") role ≡ false
    → allows (permissions_in role_permissions role) adaptation_publish ≡ is_publisher role
unfolding allows permissions_in
publishing_role role r = elim (Bool-cases (text_eq (codes "Admin") role)) [
  | inl a ↦ rw a refl
  | inr a ↦ elim (Bool-cases (text_eq (codes "SuperAdmin") role)) [
    | inl s ↦ rw (a, s) refl
    | inr s ↦ elim (Bool-cases (text_eq (codes "AdaptationPublisher") role)) [
      | inl p ↦ rw (a, s, r, p) refl
      | inr p ↦ elim (Bool-cases (text_eq (codes "AdaptationOperator") role)) [
        | inl o ↦ rw (a, s, r, p, o) refl
        | inr o ↦ elim (Bool-cases (text_eq (codes "ReadOnly") role)) [
          | inl e ↦ rw (a, s, r, p, o, e) refl
          | inr e ↦ rw (a, s, r, p, o, e) refl
        ]
      ]
    ]
  ]
]

-- A reviewer's role is no publisher's.
publishing_any :
    (role : Text)
    → allows (permissions_in role_permissions role) adaptation_publish ≡ is_publisher role
unfolding permissions_in allows text_eq
publishing_any role = elim (Bool-cases (text_eq (codes "AdaptationReviewer") role)) [
  | inl e ↦ rw (← (text_eq→eq (codes "AdaptationReviewer") role e)) refl
  | inr e ↦ publishing_role role e
]

publishing_roles :
    (roles : List Text)
    → allows (resolve_permissions_from_roles roles) adaptation_publish ≡ any_role is_publisher roles
unfolding resolve_permissions_from_roles allows
publishing_roles [] = refl
publishing_roles (r ∷ rs) =
    allows-append (permissions_in role_permissions r) (resolve_permissions_from_roles rs)
      adaptation_publish
    ∙ rw (publishing_any r, publishing_roles rs) refl

-- For a session of a user of the table, the endpoints that publish let a request through exactly if
-- the user is active and one of the stored roles is Admin, SuperAdmin or AdaptationPublisher.
pub publish_requires_role :
    (loads : Text → Option RolesJson) (id : Text) (db : Db) (user : AdminUser)
    → is_blank id ≡ false
    → find_where (λ u. text_eq u.id id) db.admin_users ≡ some user
    → require_adaptation_permission loads adaptation_publish (some id) db
      ≡ (user.is_active && any_role is_publisher (parse_roles_json loads user.roles_json))
unfolding require_adaptation_permission get_admin_permissions allows
publish_requires_role loads id db user named found = elim (Bool-cases user.is_active) [
  | inl e ↦ rw (named, found, e) (publishing_roles (parse_roles_json loads user.roles_json))
  | inr e ↦ rw (named, found, e) refl
]
