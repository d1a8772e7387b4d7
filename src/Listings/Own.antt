-- ===== src/Listings/Own.antt =====
-- What an employee sees of the time logs.
use pro_lens_backend.Base.{
  ℕ, true, take, some, List, ◌≡◌, refl, arith, is_none, drop, select, sort, All, All-take, All-drop,
  All-sort, All-select, Ensures, returns, Ensures-raise_unless, Ensures-bind, Ensures-ok, Option,
  same_id, ◌||◌, ok,
}
use pro_lens_backend.Errors.{Error}
use pro_lens_backend.Enums.{is_employee}
use pro_lens_backend.Model.{Db, User, TimeLog}
use pro_lens_backend.Activities.TimeLogs.{listed_user}
use pro_lens_backend.Listings.{Pagination, TimeLogFilter, is_listed_log, log_order, list_time_logs}

abbrev pub OwnLog : User → TimeLog → Type 0
OwnLog caller l = (l.user_id ≡ caller.id) × (is_none l.deleted_at ≡ true)

own_page :
    (caller : User) (p : Pagination) (f : TimeLogFilter) (rows : List TimeLog)
    → All (OwnLog caller) (
        take p.limit
          (drop p.offset (sort log_order (select (is_listed_log f (some caller.id)) rows))))
own_page caller p f rows =
    let P = OwnLog caller in
    let is_own = is_listed_log f (some caller.id) in
    All-take P p.limit _ (
      All-drop P p.offset _ (
        All-sort P log_order (select is_own rows)
          (All-select P is_own rows (λ l listed. (ground arith, ground arith)))))

own_user :
    (caller : User) (wanted : Option ℕ)
    → is_employee caller.role ≡ true
    → Ensures (λ user_id. user_id ≡ some caller.id) (listed_user caller wanted)
unfolding listed_user
own_user caller wanted employee = rw employee (
    Ensures-raise_unless _ (is_none wanted || same_id wanted (some caller.id))
      Error.insufficient_permission (ok (some caller.id)) (λ own. returns refl))

-- Whenever an employee lists time logs, whatever the filters, the rows are the employee's own, and none
-- of them is deleted.
list_time_logs-OwnLog :
    (caller : User) (p : Pagination) (f : TimeLogFilter) (db : Db)
    → is_employee caller.role ≡ true
    → Ensures (All (OwnLog caller)) (list_time_logs caller p f db)
unfolding list_time_logs
list_time_logs-OwnLog caller p f db employee =
    Ensures-bind (All (OwnLog caller)) (listed_user caller f.user_id) _ λ user_id found.
      rw (Ensures-ok _ _ (own_user caller f.user_id employee) found)
        (returns (own_page caller p f db.time_logs))
