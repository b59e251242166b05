-- ===== src/Access.antt =====
-- apps/api/src/auth/authorization-policy.service.ts and authorization.types.ts.
use makeup_booking_system.Base.{
  ℕ, Bool, true, false, Option, List, [], ◌∷◌, ◌==◌, is_id, any, Result, guard,
}
use makeup_booking_system.Errors.{authorization_denied}

pub data RoleCode : Type 0 where
  host_role operator_role artist_role customer_service_role admin_role : RoleCode

-- `VerifiedAuthorizationContext`
pub record AuthorizationContext : Type 0 where
  pub role_assignment_id : ℕ
  pub role_code : RoleCode
  pub site_id : Option ℕ
  pub user_id : ℕ

abbrev role_number : RoleCode → ℕ
role_number host_role = 0
role_number operator_role = 1
role_number artist_role = 2
role_number customer_service_role = 3
role_number admin_role = 4

abbrev pub role_eq : RoleCode → RoleCode → Bool
role_eq r s = role_number r == role_number s

unfoldable pub assert_role : AuthorizationContext → List RoleCode → Result (Unit {0})
assert_role context allowed_roles =
    guard (any (λ r. role_eq r context.role_code) allowed_roles) authorization_denied

unfoldable pub assert_self_scope : AuthorizationContext → ℕ → Result (Unit {0})
assert_self_scope context target_user_id =
    guard (context.user_id == target_user_id) authorization_denied

unfoldable pub site_scope : RoleCode → Option ℕ → ℕ → Bool
site_scope admin_role site target_site_id = true
site_scope customer_service_role site target_site_id = is_id site target_site_id
site_scope host_role site target_site_id = false
site_scope operator_role site target_site_id = false
site_scope artist_role site target_site_id = false

unfoldable pub assert_site_scope : AuthorizationContext → ℕ → Result (Unit {0})
unfolding site_scope
assert_site_scope context target_site_id =
    guard (site_scope context.role_code context.site_id target_site_id) authorization_denied

-- The roles that may book, cancel and reschedule.
abbrev pub booking_roles : List RoleCode
booking_roles = host_role ∷ operator_role ∷ customer_service_role ∷ admin_role ∷ []

-- The roles of the back office.
abbrev pub backoffice_roles : List RoleCode
backoffice_roles = customer_service_role ∷ admin_role ∷ []

-- `['CUSTOMER_SERVICE', 'ADMIN'].includes(context.roleCode)`
abbrev pub is_backoffice : RoleCode → Bool
is_backoffice r = any (λ s. role_eq s r) backoffice_roles
