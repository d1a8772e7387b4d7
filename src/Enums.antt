-- ===== src/Enums.antt =====
-- The enumerations of app/models/enums.py that the modelled services branch on, with the tests
-- that the code makes on them.
use pro_lens_backend.Base.{Bool, true, false, Option, some}

pub data UserRole : Type 0 where
  super_admin admin manager employee : UserRole

pub data UserStatus : Type 0 where
  invited active suspended : UserStatus

pub data OrgStatus : Type 0 where
  active suspended : OrgStatus

pub data ProjectStatus : Type 0 where
  active on_hold completed : ProjectStatus

pub data EntityStatus : Type 0 where
  to_do in_progress in_review done : EntityStatus

pub data PriorityLevel : Type 0 where
  low medium high urgent : PriorityLevel

pub data LeaveType : Type 0 where
  sick casual vacation : LeaveType

pub data LeavePortion : Type 0 where
  full half : LeavePortion

pub data HalfSlot : Type 0 where
  first second : HalfSlot

pub data CalendarEventType : Type 0 where
  holiday milestone leave release team_event : CalendarEventType

pub data SsoProvider : Type 0 where
  azure_ad google : SsoProvider

pub data OutboxStatus : Type 0 where
  pending processing sent failed : OutboxStatus

-- `caller.role in (UserRole.admin, UserRole.super_admin)`
abbrev pub is_admin_role : UserRole → Bool
is_admin_role UserRole.admin = true
is_admin_role UserRole.super_admin = true
is_admin_role _ = false

-- `role == UserRole.super_admin`, and the other comparisons with one member
abbrev pub is_super_admin : UserRole → Bool
is_super_admin UserRole.super_admin = true
is_super_admin _ = false

abbrev pub is_admin : UserRole → Bool
is_admin UserRole.admin = true
is_admin _ = false

abbrev pub is_manager : UserRole → Bool
is_manager UserRole.manager = true
is_manager _ = false

abbrev pub is_employee : UserRole → Bool
is_employee UserRole.employee = true
is_employee _ = false

abbrev pub is_active : UserStatus → Bool
is_active UserStatus.active = true
is_active _ = false

abbrev pub is_leave_event : CalendarEventType → Bool
is_leave_event CalendarEventType.leave = true
is_leave_event _ = false

abbrev pub is_azure_ad : Option SsoProvider → Bool
is_azure_ad (some SsoProvider.azure_ad) = true
is_azure_ad _ = false

abbrev pub is_invited : UserStatus → Bool
is_invited UserStatus.invited = true
is_invited _ = false
