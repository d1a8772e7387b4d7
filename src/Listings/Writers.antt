-- ===== src/Listings/Writers.antt =====
-- The rules on changing tasks (app/services/task_service.py) beside the listing of tasks
-- (app/repositories/task_repository.py).
use pro_lens_backend.Base.{
  ℕ, Bool, true, false, none, some, List, [], ◌∷◌, ◌≡◌, refl, arith, ◌==◌, ◌&&◌, is_none, same_id,
  any, find, Bool-cases, inl, inr, ap, ◌∙◌, ◌≤◌, zero, suc, count, count-sort, count-any, any-count,
  select, sort, take,
}
use pro_lens_backend.Model.{Db, User, Feature, Task}
use pro_lens_backend.Repositories.Lookups.{live-by_id, live-some}
use pro_lens_backend.Repositories.{active_task, by_id, feature_by_id, is_member}
use pro_lens_backend.Tasks.{can_write}
use pro_lens_backend.Tasks.Access.{
  MayWrite, as_admin, as_member, as_author, as_assignee, as_creator, can_write-MayWrite,
}
use pro_lens_backend.Listings.Visible.{
  list_tasks, task_order, TaskFilter, sees_task, is_listed_task,
}

found_in :
    (test : Feature → Bool) (k : ℕ) (f : Feature) (rows : List Feature)
    → find (λ (x : Feature). x.id == k) rows ≡ some f
    → test f ≡ true
    → any (λ (x : Feature). same_id (some x.id) (some k) && test x) rows ≡ true
found_in test k f [] found passes = cc
found_in test k f (x ∷ rows) found passes = elim (Bool-cases (x.id == k)) [
  | inl hit ↦
      let first : some x ≡ some f = rw hit at found in
      let same : x ≡ f = cc in
      let x_passes : test x ≡ true = ap test same ∙ passes in rw (hit, x_passes) refl
  | inr miss ↦
      let later : find (λ (y : Feature). y.id == k) rows ≡ some f = rw miss at found in
      rw miss (found_in test k f rows later passes)
]

writers-sees_task :
    (caller : User) (task : Task) (db : Db)
    → MayWrite caller task false db
    → sees_task caller db task ≡ true
unfolding sees_task feature_by_id
writers-sees_task caller task db (as_admin a) = ground (arith, a)
writers-sees_task caller task db (as_member k f m e found mem) =
    let here =
      found_in (λ (x : Feature). is_member x.project_id caller.id db) k f db.features found mem in
    rw (e, here) (ground arith)
writers-sees_task caller task db (as_author m e own) = rw e (ground arith)
writers-sees_task caller task db (as_assignee e a) = ground arith
writers-sees_task caller task db (as_creator e d own) = cc

-- The filter by one id
abbrev pub only_task : ℕ → TaskFilter
only_task k = record {
  id = some k;
  project_id = none;
  feature_id = none;
  status = none;
  priority = none;
}

can_write-is_listed_task :
    (caller : User) (k : ℕ) (task : Task) (db : Db)
    → task.id ≡ k
    → is_none task.deleted_at ≡ true
    → can_write caller task false db ≡ true
    → is_listed_task caller (only_task k) db task ≡ true
unfolding is_listed_task
can_write-is_listed_task caller k task db own active may =
    let seen = writers-sees_task caller task db ((can_write-MayWrite caller task false db).0 may) in
    rw (active, seen) (ground arith)

module _ {ℓ} {A : Type ℓ} where
  select-keeps_found :
      (p q : A → Bool) (a : A) (rows : List A)
      → find p rows ≡ some a
      → q a ≡ true
      → any p (select q rows) ≡ true
  select-keeps_found p q a [] found passes = cc
  select-keeps_found p q a (x ∷ rows) found passes = elim (Bool-cases (p x)) [
    | inl hit ↦
        let first : some x ≡ some a = rw hit at found in
        let same : x ≡ a = cc in
        let x_passes : q x ≡ true = ap q same ∙ passes in rw (x_passes, hit) refl
    | inr miss ↦
        let later : find p rows ≡ some a = rw miss at found in
        let rest = select-keeps_found p q a rows later passes in ground (arith, rest)
  ]

  count-select_below :
      (q : A → Bool) (rows : List A) → count (λ _. true) (select q rows) ≤ count (λ _. true) rows
  count-select_below q [] = omega arith
  count-select_below q (x ∷ rows) = ground (arith, count-select_below q rows)

  take-all : (n : ℕ) (rows : List A) → count (λ _. true) rows ≤ n → take n rows ≡ rows
  take-all zero [] h = refl
  take-all (suc n) [] h = refl
  take-all zero (x ∷ rows) h = absurd (omega arith)
  take-all (suc n) (x ∷ rows) h = ap (λ t. x ∷ t) (take-all n rows (omega arith))

  -- A listing that holds all rows holds the one that is looked for.
  whole_listing :
      (p q : A → Bool) (le : A → A → Bool) (limit : ℕ) (a : A) (rows : List A)
      → find p rows ≡ some a
      → q a ≡ true
      → count (λ _. true) rows ≤ limit
      → any p (take limit (sort le (select q rows))) ≡ true
  whole_listing p q le limit a rows found passes enough =
      let below = count-select_below q rows in
      let sorted = count-sort le (λ _. true) (select q rows) in
      let there = any-count p (select q rows) (select-keeps_found p q a rows found passes) in
      let kept = count-sort le p (select q rows) in
      rw (take-all limit (sort le (select q rows)) (omega (arith, below, sorted)))
        (elim (Bool-cases (any p (sort le (select q rows)))) [
          | inl shown ↦ shown
          | inr hidden ↦
              absurd (omega (arith, there, kept, count-any p (sort le (select q rows)) hidden))
        ])

-- Whoever may change an active task finds it in the listing with the filter of the task's id, if the
-- page is as long as the table.
pub can_write-list_tasks :
    (caller : User) (k limit : ℕ) (task : Task) (db : Db)
    → active_task k db ≡ some task
    → can_write caller task false db ≡ true
    → count (λ (t : Task). true) db.tasks ≤ limit
    → any
        (λ (t : Task). t.id == k)
        (list_tasks caller (record { limit = limit; offset = 0 }) (only_task k) db)
      ≡ true
unfolding list_tasks active_task
can_write-list_tasks caller k limit task db active may enough =
    let key = live-by_id (λ (t : Task). t.id) (λ (t : Task). t.deleted_at) k db.tasks active in
    let row =
      live-some (λ (t : Task). t.id) (λ (t : Task). t.deleted_at)
        (by_id (λ (t : Task). t.id) k db.tasks) active in
    let shown = can_write-is_listed_task caller k task db key.0 key.1 may in
    whole_listing (λ (t : Task). t.id == k) (is_listed_task caller (only_task k) db) task_order
      limit task db.tasks row.0 shown enough
