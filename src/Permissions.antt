-- ===== src/Permissions.antt =====
-- packages/iam-sdk/src/constants/system-permissions.constant.ts: SYSTEM_PERMISSIONS, an object whose
-- properties are codes and further objects, and the codes that the routes demand.
use generic_iam.Prelude.{Text, lit}

-- The properties of an object in their order, each a code or an object.
pub data Permissions : Type 0 where
  done : Permissions
  leaf : Text → Permissions → Permissions
  group : Permissions → Permissions → Permissions

abbrev audit_permissions : Permissions
audit_permissions = leaf (lit "audit.*") (leaf (lit "audit.read") done)

abbrev acl_permissions : Permissions
acl_permissions = leaf (lit "acl.*") done

abbrev tenant_permissions : Permissions
tenant_permissions =
    leaf (lit "tenant.*") (leaf (lit "tenant.read") (leaf (lit "tenant.write") done))

abbrev workflow_permissions : Permissions
workflow_permissions =
    leaf (lit "workflow.*") (
      leaf (lit "workflow.read") (leaf (lit "workflow.write") (leaf (lit "workflow.execute") done)))

abbrev report_permissions : Permissions
report_permissions =
    leaf (lit "report.*")
      (leaf (lit "report.read") (leaf (lit "report.write") (leaf (lit "report.export") done)))

abbrev invoice_permissions : Permissions
invoice_permissions = leaf (lit "invoice.*") (
    leaf (lit "invoice.read") (
      leaf (lit "invoice.write") (leaf (lit "invoice.delete") (leaf (lit "invoice.approve") done))))

abbrev role_permissions : Permissions
role_permissions =
    leaf (lit "role.*")
      (leaf (lit "role.read") (leaf (lit "role.write") (leaf (lit "role.assign") done)))

abbrev user_permissions : Permissions
user_permissions =
    leaf (lit "user.*")
      (leaf (lit "user.read") (leaf (lit "user.write") (leaf (lit "user.delete") done)))

abbrev payroll_permissions : Permissions
payroll_permissions =
    leaf (lit "payroll.*")
      (leaf (lit "payroll.read") (leaf (lit "payroll.write") (leaf (lit "payroll.approve") done)))

abbrev expense_approvals_claims_permissions : Permissions
expense_approvals_claims_permissions = leaf (lit "expense.approvals.claims.read") (
    leaf (lit "expense.approvals.claims.approve") (
      leaf (lit "expense.approvals.claims.partial-approve")
        (leaf (lit "expense.approvals.claims.reject") done)))

abbrev expense_approvals_history_permissions : Permissions
expense_approvals_history_permissions = leaf (lit "expense.approvals.history.list") done

abbrev expense_approvals_pending_permissions : Permissions
expense_approvals_pending_permissions = leaf (lit "expense.approvals.pending.list") done

abbrev expense_approvals_permissions : Permissions
expense_approvals_permissions =
    group expense_approvals_pending_permissions (
      group expense_approvals_history_permissions (group expense_approvals_claims_permissions done))

abbrev expense_claims_permissions : Permissions
expense_claims_permissions = leaf (lit "expense.claims.create") (
    leaf (lit "expense.claims.list") (
      leaf (lit "expense.claims.read") (
        leaf (lit "expense.claims.update")
          (leaf (lit "expense.claims.submit") (leaf (lit "expense.claims.withdraw") done)))))

abbrev expense_expenses_receipt_permissions : Permissions
expense_expenses_receipt_permissions = leaf (lit "expense.expenses.receipt.upload") (
    leaf (lit "expense.expenses.receipt.download")
      (leaf (lit "expense.expenses.receipt.delete") done))

abbrev expense_expenses_permissions : Permissions
expense_expenses_permissions = leaf (lit "expense.expenses.create") (
    leaf (lit "expense.expenses.list") (
      leaf (lit "expense.expenses.read") (
        leaf (lit "expense.expenses.update") (
          leaf (lit "expense.expenses.delete") (group expense_expenses_receipt_permissions done)))))

abbrev expense_settings_permissions : Permissions
expense_settings_permissions =
    leaf (lit "expense.settings.read") (leaf (lit "expense.settings.update") done)

abbrev expense_exchange_rates_permissions : Permissions
expense_exchange_rates_permissions =
    leaf (lit "expense.exchange-rates.create")
      (leaf (lit "expense.exchange-rates.list") (leaf (lit "expense.exchange-rates.delete") done))

abbrev expense_categories_permissions : Permissions
expense_categories_permissions =
    leaf (lit "expense.categories.create")
      (leaf (lit "expense.categories.list") (leaf (lit "expense.categories.update") done))

abbrev expense_departments_budget_permissions : Permissions
expense_departments_budget_permissions = leaf (lit "expense.departments.budget.update") done

abbrev expense_departments_permissions : Permissions
expense_departments_permissions = leaf (lit "expense.departments.create") (
    leaf (lit "expense.departments.list") (
      leaf (lit "expense.departments.read") (
        leaf (lit "expense.departments.update")
          (group expense_departments_budget_permissions done))))

abbrev expense_permissions : Permissions
expense_permissions = leaf (lit "expense.*") (
    group expense_departments_permissions (
      group expense_categories_permissions (
        group expense_exchange_rates_permissions (
          group expense_settings_permissions (
            group expense_expenses_permissions
              (group expense_claims_permissions (group expense_approvals_permissions done)))))))

abbrev pub system_permissions : Permissions
system_permissions = leaf (lit "*.*") (
    group expense_permissions (
      group payroll_permissions (
        group user_permissions (
          group role_permissions (
            group invoice_permissions (
              group report_permissions (
                group workflow_permissions (
                  group tenant_permissions
                    (group acl_permissions (group audit_permissions done))))))))))

abbrev pub user_read : Text
user_read = lit "user.read"

abbrev pub user_write : Text
user_write = lit "user.write"

abbrev pub role_read : Text
role_read = lit "role.read"

abbrev pub role_write : Text
role_write = lit "role.write"

abbrev pub role_assign : Text
role_assign = lit "role.assign"

abbrev pub tenant_read : Text
tenant_read = lit "tenant.read"

abbrev pub tenant_write : Text
tenant_write = lit "tenant.write"

abbrev pub acl_all : Text
acl_all = lit "acl.*"

abbrev pub audit_read : Text
audit_read = lit "audit.read"
