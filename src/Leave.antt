-- ===== src/Leave.antt =====
-- app/services/leave_log_service.py with the queries of app/repositories/leave_log_repository.py and
-- leave_log_day_repository.py. A leave is a row of leave_logs with one row of leave_log_days for each
-- of its days. The clock is the wall clock of APP_TIMEZONE, in which the service compares.
pub mod Agreement
pub mod Deletion
pub mod Requests
mod Tests
pub mod Updates
use pro_lens_backend.Base.{
  ℕ, ◌+◌, ◌*◌, Bool, true, false, Option, none, some, List, [], ◌∷◌, ◌++◌, ◌==◌, ◌&&◌, ◌||◌, not,
  is_none, ltb, leb, any, find, map, min, max, Result, ok, err, ◌>>=◌, ◌>>◌, raise_if, or_raise,
  if◌then◌else◌,
}
use pro_lens_backend.Config.{Text, seconds}
use pro_lens_backend.Errors.{Error}
use pro_lens_backend.Enums.{LeaveType, LeavePortion, HalfSlot}
use pro_lens_backend.Model.{Db, User, LeaveLog, LeaveLogDay, Slot}
use pro_lens_backend.Repositories.{live, by_id}

pub record LeaveLogDayCreate : Type 0 where
  pub leave_date : ℕ
  pub portion : LeavePortion
  pub half_slot : Option HalfSlot

pub record LeaveLogCreate : Type 0 where
  pub leave_type : LeaveType
  pub reason : Option Text
  pub days : List LeaveLogDayCreate

-- The body of `_build_slot`
abbrev pub slot_of : LeavePortion → Option HalfSlot → Slot
slot_of LeavePortion.full half_slot = record { lower = 0; upper = 2 }
slot_of LeavePortion.half (some HalfSlot.first) = record { lower = 0; upper = 1 }
slot_of LeavePortion.half (some HalfSlot.second) = record { lower = 1; upper = 2 }
slot_of LeavePortion.half none = record { lower = 1; upper = 2 }

abbrev pub build_slot : LeaveLogDayCreate → Slot
build_slot day = slot_of day.portion day.half_slot

-- `_get_period_start`
unfoldable pub period_start : ℕ → LeavePortion → Option HalfSlot → ℕ
period_start leave_date LeavePortion.full half_slot = leave_date * seconds 86400
period_start leave_date LeavePortion.half (some HalfSlot.first) = leave_date * seconds 86400
period_start leave_date LeavePortion.half (some HalfSlot.second) =
    leave_date * seconds 86400 + seconds 43200
period_start leave_date LeavePortion.half none = leave_date * seconds 86400 + seconds 43200

-- `min(days, key=lambda day: day.leave_date)`: the first of the days with the least date.
abbrev min_from {ℓ} : {A : Type ℓ} → (A → ℕ) → A → List A → A
min_from date best [] = best
min_from date best (d ∷ ds) = min_from date (if ltb (date d) (date best) then d else best) ds

-- A `ValueError` for no days.
abbrev pub min_by {ℓ} : {A : Type ℓ} → (A → ℕ) → List A → Option A
min_by date [] = none
min_by date (d ∷ ds) = some (min_from date d ds)

unfoldable pub first_period_start : List LeaveLogDayCreate → Result ℕ
unfolding period_start
first_period_start days = do
  d ← or_raise (min_by (λ (d : LeaveLogDayCreate). d.leave_date) days) Error.value_error
  ok (period_start d.leave_date d.portion d.half_slot)

unfoldable pub first_row_start : List LeaveLogDay → Result ℕ
unfolding period_start
first_row_start days = do
  d ← or_raise (min_by (λ (d : LeaveLogDay). d.leave_date) days) Error.value_error
  ok (period_start d.leave_date d.portion d.half_slot)

-- In halves of a day.
abbrev pub half_days : LeavePortion → ℕ
half_days LeavePortion.full = 2
half_days LeavePortion.half = 1

abbrev pub calculate_total_days : List LeaveLogDayCreate → ℕ
calculate_total_days [] = 0
calculate_total_days (d ∷ ds) = half_days d.portion + calculate_total_days ds

-- The `min` and the `max` of the dates of `_ensure_dates_are_valid`
abbrev pub first_date : ℕ → List LeaveLogDayCreate → ℕ
first_date best [] = best
first_date best (d ∷ ds) = first_date (min best d.leave_date) ds

abbrev pub last_date : ℕ → List LeaveLogDayCreate → ℕ
last_date best [] = best
last_date best (d ∷ ds) = last_date (max best d.leave_date) ds

abbrev pub date_range : List LeaveLogDayCreate → Option (ℕ × ℕ)
date_range [] = none
date_range (d ∷ ds) = some (first_date d.leave_date ds, last_date d.leave_date ds)

unfoldable pub ensure_leave_has_not_started : ℕ → List LeaveLogDayCreate → Result (Unit {0})
unfolding first_period_start
ensure_leave_has_not_started now days = do
  start_at ← first_period_start days
  raise_if (leb start_at now) Error.leave_period_already_started

-- `&&` on ranges `[lower, upper)`; an empty range overlaps nothing.
abbrev pub overlaps : Slot → Slot → Bool
overlaps s t =
    ltb s.lower s.upper && ltb t.lower t.upper && ltb s.lower t.upper && ltb t.lower s.upper

abbrev pub is_overlapping : ℕ → ℕ → Slot → LeaveLogDay → Bool
is_overlapping user_id leave_date slot d =
    (d.user_id == user_id)
    && (d.leave_date == leave_date)
    && is_none d.deleted_at
    && overlaps d.slot slot

-- The days of the log that is updated do not count.
abbrev pub not_excluded : Option ℕ → LeaveLogDay → Bool
not_excluded none d = true
not_excluded (some leave_log_id) d = not (d.leave_log_id == leave_log_id)

unfoldable pub has_overlapping_leave : ℕ → ℕ → Slot → Option ℕ → List LeaveLogDay → Bool
has_overlapping_leave user_id leave_date slot exclude =
    any (λ d. is_overlapping user_id leave_date slot d && not_excluded exclude d)

-- Some day of the request for which `_ensure_no_overlap` raises.
unfoldable pub any_overlap : ℕ → Option ℕ → List LeaveLogDayCreate → List LeaveLogDay → Bool
unfolding has_overlapping_leave
any_overlap user_id exclude days rows =
    any
      (λ (day : LeaveLogDayCreate).
        has_overlapping_leave user_id day.leave_date (build_slot day) exclude rows)
      days

-- The constraints of the table leave_log_days: the exclusion of overlapping active days, one row for
-- a log and a date, and a half slot for exactly the half days.
abbrev pub excludes : LeaveLogDay → LeaveLogDay → Bool
excludes d e =
    (d.user_id == e.user_id)
    && (d.leave_date == e.leave_date)
    && (is_none d.deleted_at && is_none e.deleted_at)
    && overlaps d.slot e.slot

abbrev pub same_day : LeaveLogDay → LeaveLogDay → Bool
same_day d e = (d.leave_log_id == e.leave_log_id) && (d.leave_date == e.leave_date)

abbrev pub portion_valid : LeavePortion → Option HalfSlot → Bool
portion_valid LeavePortion.full half_slot = is_none half_slot
portion_valid LeavePortion.half half_slot = not (is_none half_slot)

unfoldable pub violates : List LeaveLogDay → Bool
violates [] = false
violates (d ∷ ds) =
    not (portion_valid d.portion d.half_slot)
    || any (λ e. excludes d e || same_day d e) ds
    || violates ds

-- The id of a new day is that of the day of the request it is made from.
abbrev pub new_day : (ℕ → ℕ) → ℕ → ℕ → ℕ → LeaveLogDayCreate → LeaveLogDay
new_day day_id leave_log_id user_id organization_id day = record {
  id = day_id day.leave_date;
  leave_log_id = leave_log_id;
  user_id = user_id;
  organization_id = organization_id;
  leave_date = day.leave_date;
  portion = day.portion;
  half_slot = day.half_slot;
  slot = build_slot day;
  deleted_at = none;
  deleted_by = none;
}

abbrev pub new_leave_log : ℕ → ℕ → ℕ → User → LeaveLogCreate → ℕ × ℕ → LeaveLog
new_leave_log new_id now org caller payload range = record {
  id = new_id;
  organization_id = org;
  user_id = caller.id;
  start_date = range.0;
  end_date = range.1;
  leave_type = payload.leave_type;
  reason = payload.reason;
  total_half_days = calculate_total_days payload.days;
  created_at = now;
  deleted_at = none;
  deleted_by = none;
}

-- The rows after the insertion, which the database may refuse.
abbrev pub insert_leave : ℕ → (ℕ → ℕ) → ℕ → ℕ → User → LeaveLogCreate → ℕ × ℕ → Db → LeaveLog × Db
insert_leave new_id day_id now org caller payload range db = (
  new_leave_log new_id now org caller payload range,
  record db {
    leave_logs = db.leave_logs ++ new_leave_log new_id now org caller payload range ∷ [];
    leave_days = db.leave_days ++ map (new_day day_id new_id caller.id org) payload.days;
  },
)

unfoldable pub create_leave_log :
    ℕ → (ℕ → ℕ) → ℕ → User → LeaveLogCreate → Db → Result (LeaveLog × Db)
unfolding ensure_leave_has_not_started any_overlap violates
create_leave_log new_id day_id now caller payload db = do
  org ← or_raise caller.organization_id Error.must_belong_to_organization
  ensure_leave_has_not_started now payload.days
  raise_if (any_overlap caller.id none payload.days db.leave_days) Error.overlapping_leave
  range ← or_raise (date_range payload.days) Error.value_error
  let r = insert_leave new_id day_id now org caller payload range db
  raise_if (violates (r.1).leave_days) Error.overlapping_leave
  ok r

-- The validators of `LeaveLogCreate`, in their order, on fields that are well-formed. The first reads
-- `start_date`, which the schema does not have.
abbrev pub check_date_order : LeaveLogCreate → Result LeaveLogCreate
check_date_order payload = err Error.attribute_error

abbrev pub dates_repeat : List LeaveLogDayCreate → Bool
dates_repeat [] = false
dates_repeat (d ∷ ds) =
    any (λ (e : LeaveLogDayCreate). e.leave_date == d.leave_date) ds || dates_repeat ds

abbrev pub validate_days : LeaveLogCreate → Result LeaveLogCreate
validate_days payload = do raise_if (dates_repeat payload.days) Error.value_error; ok payload

-- `create_leave_log` of app/api/routes/leave_logs.py, whose body is read by the schema first
unfoldable pub create_leave_log_route :
    ℕ → (ℕ → ℕ) → ℕ → User → LeaveLogCreate → Db → Result (LeaveLog × Db)
unfolding create_leave_log
create_leave_log_route new_id day_id now caller body db = do
  ordered ← check_date_order body
  payload ← validate_days ordered
  create_leave_log new_id day_id now caller payload db

unfoldable pub active_leave_log : ℕ → Db → Option LeaveLog
active_leave_log k db =
    live (λ (l : LeaveLog). l.deleted_at) (by_id (λ (l : LeaveLog). l.id) k db.leave_logs)
