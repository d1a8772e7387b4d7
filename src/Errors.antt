-- ===== src/Errors.antt =====
-- The exceptions that a request can end in: the classes of app/core/exception.py and of the
-- services, the plain `AppException`s by their message, the database's IntegrityError by its
-- SQLSTATE, and Python's AttributeError, ValueError, TypeError and KeyError; and the HTTP status of the reply to each
-- (app/core/exception_handlers.py).
use Prim.Native.Nat.{ℕ}

-- Postgres SQLSTATE classes of a violated constraint.
pub data Violation : Type 0 where
  unique foreign_key not_null check exclusion : Violation

pub data Error : Type 0 where
  invalid_credentials inactive_account invalid_refresh_token : Error
  no_sso_connection invalid_sso_state missing_email_claim : Error
  email_already_in_use organization_id_required cross_organization_forbidden : Error
  user_not_found invalid_role_assignment organization_not_found domain_already_in_use : Error
  admin_credentials_incomplete designation_not_found caller_has_no_organization : Error
  field_not_editable cannot_delete_self cannot_delete_privileged_user : Error
  cannot_delete_last_admin insufficient_permission invalid_credentials_auth : Error
  sso_connection_already_exists sso_connection_not_found unsupported_sso_provider : Error
  not_project_member task_not_found project_not_found must_belong_to_organization : Error
  project_mutation_forbidden project_has_tasks project_member_not_found : Error
  project_member_already_exists project_member_mutation_forbidden : Error
  invalid_project_member_role feature_not_found feature_mutation_forbidden : Error
  project_membership_required feature_member_not_found feature_member_already_exists : Error
  feature_member_mutation_forbidden employee_on_leave leave_period_already_started : Error
  leave_log_not_found leave_log_mutation_forbidden overlapping_leave : Error
  sso_connection_not_configured : Error
  app_exception : ℕ → Error
  integrity_error : Violation → Error
  attribute_error value_error type_error key_error : Error

-- `integrity_error_handler`
unfoldable pub violation_status : Violation → ℕ
violation_status Violation.unique = 409
violation_status Violation.not_null = 422
violation_status Violation.check = 422
violation_status Violation.foreign_key = 409
violation_status Violation.exclusion = 409

-- The class attribute `status_code` of each exception, or the one that `AppException(...)` is
-- given; an exception that is no AppException ends in `generic_exception_handler`.
unfoldable pub status_code : Error → ℕ
unfolding violation_status
status_code Error.invalid_credentials = 401
status_code Error.inactive_account = 403
status_code Error.invalid_refresh_token = 401
status_code Error.no_sso_connection = 404
status_code Error.invalid_sso_state = 400
status_code Error.missing_email_claim = 400
status_code Error.email_already_in_use = 409
status_code Error.organization_id_required = 422
status_code Error.cross_organization_forbidden = 403
status_code Error.user_not_found = 404
status_code Error.invalid_role_assignment = 403
status_code Error.organization_not_found = 404
status_code Error.domain_already_in_use = 409
status_code Error.admin_credentials_incomplete = 422
status_code Error.designation_not_found = 404
status_code Error.caller_has_no_organization = 403
status_code Error.field_not_editable = 403
status_code Error.cannot_delete_self = 403
status_code Error.cannot_delete_privileged_user = 403
status_code Error.cannot_delete_last_admin = 409
status_code Error.insufficient_permission = 403
status_code Error.invalid_credentials_auth = 401
status_code Error.sso_connection_already_exists = 409
status_code Error.sso_connection_not_found = 404
status_code Error.unsupported_sso_provider = 400
status_code Error.not_project_member = 403
status_code Error.task_not_found = 404
status_code Error.project_not_found = 404
status_code Error.must_belong_to_organization = 403
status_code Error.project_mutation_forbidden = 403
status_code Error.project_has_tasks = 409
status_code Error.project_member_not_found = 404
status_code Error.project_member_already_exists = 409
status_code Error.project_member_mutation_forbidden = 403
status_code Error.invalid_project_member_role = 403
status_code Error.feature_not_found = 404
status_code Error.feature_mutation_forbidden = 403
status_code Error.project_membership_required = 403
status_code Error.feature_member_not_found = 404
status_code Error.feature_member_already_exists = 409
status_code Error.feature_member_mutation_forbidden = 403
status_code Error.employee_on_leave = 409
status_code Error.leave_period_already_started = 409
status_code Error.leave_log_not_found = 404
status_code Error.leave_log_mutation_forbidden = 403
status_code Error.overlapping_leave = 409
status_code Error.sso_connection_not_configured = 409
status_code (Error.app_exception code) = code
status_code (Error.integrity_error v) = violation_status v
status_code Error.attribute_error = 500
status_code Error.value_error = 500
status_code Error.type_error = 500
status_code Error.key_error = 500
