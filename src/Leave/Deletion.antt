-- ===== src/Leave/Deletion.antt =====
-- Soft-deleting days: the constraints of their table, and the agreement of other logs.
use pro_lens_backend.Base.{
  none, some, true, ok, ltb, count, count-update_where, find-update_where, ℕ, Bool, false, List, [],
  ◌∷◌, ◌==◌, ◌||◌, any, any-update_where, update_where, ◌≡◌, refl, ◌∙◌, sym, arith, Bool-cases, inl,
  inr, All-update_where_of, Ensures, returns, Ensures-bind, Ensures-or_raise, Ensures-raise_if,
  Ensures-raise_unless,
}
use pro_lens_backend.Model.{Db, User, LeaveLog, LeaveLogDay}
use pro_lens_backend.Repositories.{live, by_id}
use pro_lens_backend.Repositories.Lookups.{live-by_id, live-some}
use pro_lens_backend.Leave.{violates, excludes, same_day, active_leave_log, first_row_start}
use pro_lens_backend.Leave.Updates.{
  is_active_day_of, delete_day, delete_log, delete_leave_log, list_active_days, can_delete,
  is_empty,
}
use pro_lens_backend.Leave.Agreement.{
  Agrees, AllAgree, IsConsistent, outside, sum_where-update_where,
}

any_violation-delete :
    (now by : ℕ) (p : LeaveLogDay → Bool) (x : LeaveLogDay) (xs : List LeaveLogDay)
    → any (λ e. excludes x e || same_day x e) xs ≡ false
    → (any (λ e. excludes x e || same_day x e) (update_where p (delete_day now by) xs) ≡ false)
      × (any
            (λ e. excludes (delete_day now by x) e || same_day (delete_day now by x) e)
            (update_where p (delete_day now by) xs)
          ≡ false)
any_violation-delete now by p x [] h = (refl, refl)
any_violation-delete now by p x (y ∷ ys) h = ground (arith, any_violation-delete now by p x ys)

pub violates-delete :
    (now by : ℕ) (p : LeaveLogDay → Bool) (xs : List LeaveLogDay)
    → violates xs ≡ false
    → violates (update_where p (delete_day now by) xs) ≡ false
unfolding violates
violates-delete now by p [] h = refl
violates-delete now by p (x ∷ xs) h = elim (Bool-cases (p x)) [
  | inl hit ↦
      rw hit (ground (arith, violates-delete now by p xs, any_violation-delete now by p x xs))
  | inr miss ↦
      rw miss (ground (arith, violates-delete now by p xs, any_violation-delete now by p x xs))
]

pub deleted_other :
    (now by k : ℕ) (l : LeaveLog) (xs : List LeaveLogDay)
    → (l.id == k) ≡ false
    → Agrees xs l
    → Agrees (update_where (is_active_day_of k) (delete_day now by) xs) l
deleted_other now by k l xs other before = record {
  total =
      before.total
      ∙ sym (
          sum_where-update_where (is_active_day_of l.id) (is_active_day_of k) (delete_day now by)
            (λ x hit. (ground arith, ground arith)) xs);
  inside =
      any-update_where (outside l) (is_active_day_of k) (delete_day now by) (λ x hit. ground arith)
        xs
      ∙ before.inside;
}

no_active_day :
    (now by k : ℕ) (xs : List LeaveLogDay)
    → any (is_active_day_of k) (update_where (is_active_day_of k) (delete_day now by) xs) ≡ false
no_active_day now by k [] = refl
no_active_day now by k (x ∷ xs) = elim (Bool-cases (is_active_day_of k x)) [
  | inl hit ↦ rw hit (ground (arith, no_active_day now by k xs))
  | inr miss ↦ rw (miss, miss) (no_active_day now by k xs)
]

log_gone :
    (now by id : ℕ) (log : LeaveLog) (rows : List LeaveLog)
    → live (λ (l : LeaveLog). l.deleted_at) (by_id (λ (l : LeaveLog). l.id) id rows) ≡ some log
    → live
        (λ (l : LeaveLog). l.deleted_at)
        (by_id
          (λ (l : LeaveLog). l.id)
          id
          (update_where (λ (l : LeaveLog). l.id == log.id) (delete_log now by) rows))
      ≡ none
log_gone now by id log rows found =
    let key =
      (live-by_id (λ (l : LeaveLog). l.id) (λ (l : LeaveLog). l.deleted_at) id rows found).0 in
    let row =
      (live-some (λ (l : LeaveLog). l.id) (λ (l : LeaveLog). l.deleted_at)
        (by_id (λ (l : LeaveLog). l.id) id rows) found).0 in
    let again =
      find-update_where (λ (l : LeaveLog). l.id == id) (delete_log now by) (λ l. refl) rows row in
    rw (key, again) refl

-- A leave that its owner deleted before it started
pub record Deleted (now id : ℕ) (caller : User) (db db' : Db) : Type 0 where
  pub log : LeaveLog
  pub start : ℕ
  pub found :
      live (λ (l : LeaveLog). l.deleted_at) (by_id (λ (l : LeaveLog). l.id) id db.leave_logs)
      ≡ some log
  pub owner : (caller.id == log.user_id) ≡ true
  pub first : first_row_start (list_active_days log.id db.leave_days) ≡ ok start
  pub not_started : ltb now start ≡ true
  pub gone :
      live (λ (l : LeaveLog). l.deleted_at) (by_id (λ (l : LeaveLog). l.id) id db'.leave_logs)
      ≡ none
  pub days_gone : any (is_active_day_of log.id) db'.leave_days ≡ false
  pub other_days :
      (q : LeaveLogDay → Bool)
      → ((d : LeaveLogDay) → (d.leave_log_id == log.id) ≡ true → q d ≡ false)
      → count q db'.leave_days ≡ count q db.leave_days
  pub consistent : IsConsistent db'

module _ (db : Db) (sound : violates db.leave_days ≡ false) (agreed : AllAgree db) where
  deleted-IsConsistent :
      (now by : ℕ) (log : LeaveLog)
      → IsConsistent (record db {
        leave_logs =
            update_where (λ (l : LeaveLog). l.id == log.id) (delete_log now by) db.leave_logs;
        leave_days = update_where (is_active_day_of log.id) (delete_day now by) db.leave_days;
      })
  deleted-IsConsistent now by log = (
    violates-delete now by (is_active_day_of log.id) db.leave_days sound,
    All-update_where_of _ _ (λ (l : LeaveLog). l.id == log.id) _ db.leave_logs
        (λ l hit before active. cc)
        (λ l miss before active. deleted_other now by log.id l db.leave_days miss (before active))
        agreed,
  )

  -- If the days of leaves keep the constraints of their table, so that no two active days of a user
  -- overlap, and the total of every active log is the sum of its active days, all within its range, then
  -- whenever a deletion of a leave returns: the log was active and the caller's own, and its first active
  -- period had not started; afterwards the log is not active and none of its days is, the days of other
  -- logs are as before, and the constraints and totals still hold.
  pub delete_leave_log-Deleted :
      (now id : ℕ) (caller : User)
      → Ensures (Deleted now id caller db) (delete_leave_log now id caller db)
  unfolding delete_leave_log active_leave_log
  delete_leave_log-Deleted now id caller =
      let P = Deleted now id caller db in
      Ensures-or_raise P (active_leave_log id db) _ _ λ log found.
        Ensures-raise_if P (is_empty (list_active_days log.id db.leave_days)) _ _ λ some_day.
          Ensures-bind P (first_row_start (list_active_days log.id db.leave_days)) _ λ start first.
            Ensures-raise_unless P (can_delete caller log start now) _ _ λ allowed.
              returns (record {
                log = log;
                start = start;
                found = found;
                owner = ground arith;
                first = first;
                not_started = ground arith;
                gone = log_gone now caller.id id log db.leave_logs found;
                days_gone = no_active_day now caller.id log.id db.leave_days;
                other_days = λ q elsewhere.
                    count-update_where q (is_active_day_of log.id) (delete_day now caller.id)
                      (λ d hit.
                        elsewhere (delete_day now caller.id d) (ground (arith, hit))
                        ∙ sym (elsewhere d (ground (arith, hit))))
                      db.leave_days;
                consistent = deleted-IsConsistent now caller.id log;
              })
