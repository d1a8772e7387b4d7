-- ===== src/Leave/Tests.antt =====
-- Leaves on small inputs, and the witnesses.
use pro_lens_backend.Base.{Ensures, ℕ, false, none, some, List, [], ◌∷◌, ◌≡◌, refl, ok, err, Result}
use pro_lens_backend.Config.{seconds}
use pro_lens_backend.Errors.{Error}
use pro_lens_backend.Enums.{UserRole, LeaveType, LeavePortion, HalfSlot}
use pro_lens_backend.Model.{Db, LeaveLog}
use pro_lens_backend.Model.Samples.{person, database}
use pro_lens_backend.Leave.{
  LeaveLogDayCreate, LeaveLogCreate, create_leave_log, insert_leave, violates, any_overlap,
}
use pro_lens_backend.Leave.Updates.{LeaveLogUpdate, delete_leave_log}
use pro_lens_backend.Leave.Deletion.{Deleted, delete_leave_log-Deleted}

abbrev full_day : ℕ → LeaveLogDayCreate
full_day date = record { leave_date = date; portion = LeavePortion.full; half_slot = none }

abbrev half_day : ℕ → HalfSlot → LeaveLogDayCreate
half_day date slot = record {
  leave_date = date;
  portion = LeavePortion.half;
  half_slot = some slot;
}

abbrev request : List LeaveLogDayCreate → LeaveLogCreate
request days = record { leave_type = LeaveType.sick; reason = none; days = days }

abbrev change : LeaveLogUpdate
change = record { leave_type = some LeaveType.sick; reason = none }

abbrev two_days : List LeaveLogDayCreate
two_days = half_day 11 HalfSlot.first ∷ full_day 10 ∷ []

abbrev empty : Db
empty = database [] []

abbrev after_creation : LeaveLog × Db
after_creation =
    insert_leave 7 (λ date. date) 5 1 (person 2 UserRole.employee) (request two_days) (10, 11) empty

created :
    create_leave_log 7 (λ date. date) 5 (person 2 UserRole.employee) (request two_days) empty
    ≡ ok after_creation
unfolding create_leave_log
created = refl

total_example : (after_creation.0).total_half_days ≡ 3
total_example = refl

-- The second half of a day is free where the first is taken, and a started day is refused.
second_half_free :
    any_overlap 2 none (half_day 11 HalfSlot.second ∷ []) (after_creation.1).leave_days ≡ false
unfolding any_overlap
second_half_free = refl

started :
    create_leave_log 7
      (λ date. date)
      (seconds 864000)
      (person 2 UserRole.employee)
      (request two_days)
      empty
    ≡ err Error.leave_period_already_started
unfolding create_leave_log
started = refl

abbrev or_else {ℓ} : {A : Type ℓ} → A → Result A → A
or_else d (err _) = d
or_else d (ok a) = a

abbrev after_deletion : Db
unfolding delete_leave_log
after_deletion =
    or_else empty (delete_leave_log 6 7 (person 2 UserRole.employee) (after_creation.1))

deleted : delete_leave_log 6 7 (person 2 UserRole.employee) (after_creation.1) ≡ ok after_deletion
unfolding delete_leave_log
deleted = refl

sound : violates (after_creation.1).leave_days ≡ false
unfolding violates
sound = refl

delete_leave_log-Deleted_example :
    Ensures
      (Deleted 6 7 (person 2 UserRole.employee) (after_creation.1))
      (delete_leave_log 6 7 (person 2 UserRole.employee) (after_creation.1))
delete_leave_log-Deleted_example =
    delete_leave_log-Deleted (after_creation.1) sound
      (λ active. record { total = refl; inside = refl }, tt) 6 7 (person 2 UserRole.employee)
