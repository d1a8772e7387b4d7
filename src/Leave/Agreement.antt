-- ===== src/Leave/Agreement.antt =====
-- A leave log and its days: the total of an active log is that of its active days, which lie in the
-- range of the log. Assigning tasks reads the range alone.
use pro_lens_backend.Base.{
  ℕ, ◌+◌, Bool, true, false, List, [], ◌∷◌, ◌&&◌, ◌||◌, is_none, ltb, any, update_where,
  if◌then◌else◌, ◌≡◌, refl, Bool-cases, inl, inr, All,
}
use pro_lens_backend.Model.{Db, LeaveLog, LeaveLogDay}
use pro_lens_backend.Leave.{half_days, violates}
use pro_lens_backend.Leave.Updates.{is_active_day_of}

-- The half days of the rows that a test selects
abbrev pub sum_where : (LeaveLogDay → Bool) → List LeaveLogDay → ℕ
sum_where q [] = 0
sum_where q (d ∷ ds) = if q d then half_days d.portion + sum_where q ds else sum_where q ds

pub sum_where-update_where :
    (q p : LeaveLogDay → Bool) (f : LeaveLogDay → LeaveLogDay)
    → ((x : LeaveLogDay) → p x ≡ true → (q x ≡ false) × (q (f x) ≡ false))
    → (xs : List LeaveLogDay) → sum_where q (update_where p f xs) ≡ sum_where q xs
sum_where-update_where q p f misses [] = refl
sum_where-update_where q p f misses (x ∷ xs) = elim (Bool-cases (p x)) [
  | inl hit ↦ rw (hit, (misses x hit).0, (misses x hit).1) (sum_where-update_where q p f misses xs)
  | inr miss ↦ rw (miss, sum_where-update_where q p f misses xs) refl
]

abbrev pub outside : LeaveLog → LeaveLogDay → Bool
outside l d =
    is_active_day_of l.id d && (ltb d.leave_date l.start_date || ltb l.end_date d.leave_date)

pub record Agrees (days : List LeaveLogDay) (l : LeaveLog) : Type 0 where
  pub total : l.total_half_days ≡ sum_where (is_active_day_of l.id) days
  pub inside : any (outside l) days ≡ false

abbrev pub AllAgree : Db → Type 0
AllAgree db = All (λ l. is_none l.deleted_at ≡ true → Agrees db.leave_days l) db.leave_logs

-- The constraints of the table hold, and every active log agrees with its days.
abbrev pub IsConsistent : Db → Type 0
IsConsistent db = (violates db.leave_days ≡ false) × AllAgree db
