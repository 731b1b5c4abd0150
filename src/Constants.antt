-- ===== src/Constants.antt =====
-- src/common/constants/*.ts and packages/iam-sdk/src/constants/*.ts: the enumerations.
use generic_iam.Prelude.{Text, lit}

pub data IdentityType : Type 0 where
  user super_admin impersonation : IdentityType

-- `Topic` is the table KAFKA_TOPICS.
pub data Topic : Type 0 where
  iam_audit iam_permission_changed iam_user_changed iam_role_changed iam_acl_changed : Topic

abbrev pub topic_name : Topic → Text
topic_name iam_audit = lit "iam.audit"
topic_name iam_permission_changed = lit "iam.permission.changed"
topic_name iam_user_changed = lit "iam.user.changed"
topic_name iam_role_changed = lit "iam.role.changed"
topic_name iam_acl_changed = lit "iam.acl.changed"

-- The services also emit 'PERMISSION_CHANGED', which the enumeration of the source lacks.
pub data AuditEventType : Type 0 where
  auth_login_success auth_login_failed auth_logout auth_token_refreshed : AuditEventType
  auth_service_login authz_check_allowed authz_check_denied : AuditEventType
  user_created user_updated user_activated user_deactivated : AuditEventType
  role_created role_updated role_deleted role_assigned role_revoked : AuditEventType
  permission_added_to_role permission_removed_from_role : AuditEventType
  acl_created acl_deleted tenant_created tenant_updated tenant_deactivated : AuditEventType
  impersonation_started impersonation_ended : AuditEventType
  permission_override_added permission_override_removed permission_changed : AuditEventType

pub data SystemRole : Type 0 where
  super_admin_role tenant_admin tenant_user expense_manager expense_viewer : SystemRole
  expense_approver payroll_manager payroll_viewer invoice_manager invoice_viewer : SystemRole
  report_viewer report_manager workflow_manager hr_manager auditor member : SystemRole

abbrev pub role_name : SystemRole → Text
role_name super_admin_role = lit "Super Admin"
role_name tenant_admin = lit "Tenant Admin"
role_name tenant_user = lit "TENANT_USER"
role_name expense_manager = lit "EXPENSE_MANAGER"
role_name expense_viewer = lit "EXPENSE_VIEWER"
role_name expense_approver = lit "EXPENSE_APPROVER"
role_name payroll_manager = lit "PAYROLL_MANAGER"
role_name payroll_viewer = lit "PAYROLL_VIEWER"
role_name invoice_manager = lit "INVOICE_MANAGER"
role_name invoice_viewer = lit "INVOICE_VIEWER"
role_name report_viewer = lit "REPORT_VIEWER"
role_name report_manager = lit "REPORT_MANAGER"
role_name workflow_manager = lit "WORKFLOW_MANAGER"
role_name hr_manager = lit "HR_MANAGER"
role_name auditor = lit "Auditor"
role_name member = lit "Employee"

abbrev pub identity_name : IdentityType → Text
identity_name user = lit "USER"
identity_name super_admin = lit "SUPER_ADMIN"
identity_name impersonation = lit "IMPERSONATION"
