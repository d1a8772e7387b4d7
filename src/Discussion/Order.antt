-- ===== src/Discussion/Order.antt =====
-- The thread of a project as the sorted list of its messages, and what a cursor leaves of it.
use mathlib.Core.Path.{subst}
use pro_lens_backend.Base.{
  ℕ, zero, suc, Bool, true, false, Option, none, some, List, [], ◌∷◌, ◌==◌, ◌&&◌, any-false, select,
  take, drop, sort, sort-IsSorted, select-sort, IsSorted, UniqueKeys, UniqueKeys-selected,
  UniqueKeys-sort, ◌≡◌, refl, ◌∙◌, sym, ap, arith, All, All-intro, All-map_of, All-zip,
  All-select_of, All-select, All-take, Bool-cases, inl, inr,
}
use pro_lens_backend.Model.{Db, Comment}
use pro_lens_backend.Discussion.{key_lt, key, newest_first, is_before, in_thread, last, list_page}

newest_first_trans :
    (a b c : Comment) → newest_first a b ≡ true → newest_first b c ≡ true → newest_first a c ≡ true
newest_first_trans a b c h k = ground arith

newest_first_total : (a b : Comment) → newest_first a b ≡ false → newest_first b a ≡ true
newest_first_total a b h = ground arith

-- Every message is strictly newer than those that follow it.
abbrev pub Descends : List Comment → Type 0
Descends [] = Unit
Descends (c ∷ cs) = All (λ d. key_lt (key d) (key c) ≡ true) cs × Descends cs

IsSorted-Descends :
    (cs : List Comment)
    → IsSorted newest_first cs
    → UniqueKeys (λ (c : Comment). c.id) cs
    → Descends cs
IsSorted-Descends [] h u = tt
IsSorted-Descends (c ∷ cs) h u = (
  All-map_of _ _ cs (λ d both. ground (arith, both.0, both.1))
      (All-zip _ _ cs h.0 (any-false (λ (d : Comment). d.id == c.id) cs u.0)),
  IsSorted-Descends cs h.1 u.1,
)

Descends-select : (p : Comment → Bool) (cs : List Comment) → Descends cs → Descends (select p cs)
Descends-select p [] h = tt
Descends-select p (c ∷ cs) h = elim (Bool-cases (p c)) [
  | inl yes_c ↦ rw yes_c (All-select_of _ _ p cs (λ d _ older. older) h.0, Descends-select p cs h.1)
  | inr no_c ↦ rw no_c (Descends-select p cs h.1)
]

-- All messages of a thread, and those before a cursor.
abbrev pub thread : ℕ → Db → List Comment
thread project_id db = sort newest_first (select (in_thread project_id) db.comments)

abbrev pub thread_before : ℕ → Option (ℕ × ℕ) → Db → List Comment
thread_before project_id before db = select (is_before before) (thread project_id db)

pub Descends-thread :
    (project_id : ℕ) (db : Db)
    → UniqueKeys (λ (c : Comment). c.id) db.comments
    → Descends (thread project_id db)
Descends-thread project_id db u =
    IsSorted-Descends (thread project_id db)
      (sort-IsSorted newest_first newest_first_trans newest_first_total
        (select (in_thread project_id) db.comments))
      (UniqueKeys-sort _ newest_first _
        (UniqueKeys-selected _ (in_thread project_id) db.comments u))

select_twice {ℓ} :
    {A : Type ℓ} (p q : A → Bool) (xs : List A)
    → select (λ x. p x && q x) xs ≡ select q (select p xs)
select_twice p q [] = refl
select_twice p q (x ∷ xs) = elim (Bool-cases (p x)) [
  | inl yes_x ↦ elim (Bool-cases (q x)) [
    | inl yes_q ↦ rw (yes_x, yes_q) (ap (λ t. x ∷ t) (select_twice p q xs))
    | inr no_q ↦ rw (yes_x, no_q) (select_twice p q xs)
  ]
  | inr no_x ↦ rw no_x (select_twice p q xs)
]

select_congr {ℓ} :
    {A : Type ℓ} (p q : A → Bool) (xs : List A) → ((x : A) → p x ≡ q x) → select p xs ≡ select q xs
select_congr p q [] same = refl
select_congr p q (x ∷ xs) same = rw (same x, select_congr p q xs same) refl

pub list_page_lem :
    (project_id limit : ℕ) (before : Option (ℕ × ℕ)) (db : Db)
    → list_page project_id limit before db ≡ take limit (thread_before project_id before db)
unfolding list_page
list_page_lem project_id limit before db = ap (take limit) (
    ap (sort newest_first) (select_twice (in_thread project_id) (is_before before) db.comments)
    ∙ sym (
        select-sort newest_first newest_first_trans newest_first_total (is_before before)
          (select (in_thread project_id) db.comments)))

-- What holds of all rows holds of the last one.
All-last {ℓ κ} :
    {A : Type ℓ} (P : A → Type κ) (xs : List A) {a : A} → All P xs → last xs ≡ some a → P a
All-last P [] h e = cc
All-last P (x ∷ []) {a} h e = let same : x ≡ a = cc in subst P same h.0
All-last P (x ∷ y ∷ rest) h e = All-last P (y ∷ rest) h.1 e

select-All : (p : Comment → Bool) (cs : List Comment) → All (λ d. p d ≡ true) cs → select p cs ≡ cs
select-All p [] h = refl
select-All p (c ∷ cs) h = rw (h.0, select-All p cs h.1) refl

after_first :
    (c : Comment) (cs : List Comment)
    → Descends (c ∷ cs)
    → select (is_before (some (key c))) (c ∷ cs) ≡ cs
after_first c cs h =
    let own : key_lt (key c) (key c) ≡ false = ground arith in
    rw own (select-All (is_before (some (key c))) cs h.0)

older_still :
    (before : Option (ℕ × ℕ)) (x y : Comment)
    → is_before before x ≡ true
    → is_before (some (key x)) y ≡ (is_before before y && is_before (some (key x)) y)
older_still none x y h = refl
older_still (some k) x y h = ground arith

-- The messages before the last one of a page are those after the page.
after_last :
    (n : ℕ) (cs : List Comment) {x : Comment}
    → Descends cs
    → last (take n cs) ≡ some x
    → select (is_before (some (key x))) cs ≡ drop n cs
after_last zero cs h e = cc
after_last (suc n) [] h e = cc
after_last (suc zero) (c ∷ cs) {x} h e =
    let same : c ≡ x = cc in
    subst (λ (y : Comment). select (is_before (some (key y))) (c ∷ cs) ≡ cs) same
      (after_first c cs h)
after_last (suc (suc n)) (c ∷ []) {x} h e =
    let same : c ≡ x = cc in
    subst (λ (y : Comment). select (is_before (some (key y))) (c ∷ []) ≡ []) same
      (after_first c [] h)
after_last (suc (suc n)) (c ∷ d ∷ ds) {x} h e =
    let older =
      All-last (λ y. key_lt (key y) (key c) ≡ true) (take (suc n) (d ∷ ds))
        (All-take _ (suc n) (d ∷ ds) h.0) e in
    let newer : key_lt (key c) (key x) ≡ false = ground (arith, older) in
    rw newer (after_last (suc n) (d ∷ ds) h.1 e)

pub thread_before-none :
    (project_id : ℕ) (db : Db) → thread_before project_id none db ≡ thread project_id db
thread_before-none project_id db =
    select-All (is_before none) (thread project_id db) (All-intro _ (λ c. refl))

-- The last message of a page is itself before the cursor of the page, so that the next page starts
-- where this one ends.
pub next_rest :
    (project_id n : ℕ) (before : Option (ℕ × ℕ)) (db : Db) {x : Comment}
    → UniqueKeys (λ (c : Comment). c.id) db.comments
    → last (take n (thread_before project_id before db)) ≡ some x
    → thread_before project_id (some (key x)) db ≡ drop n (thread_before project_id before db)
next_rest project_id n before db {x} u e =
    let rest = thread_before project_id before db in
    let own : is_before before x ≡ true =
      All-last (λ y. is_before before y ≡ true) (take n rest)
        (All-take _ n rest
          (All-select _ (is_before before) (thread project_id db) (λ y yes_y. yes_y)))
        e in
    select_congr (is_before (some (key x))) (λ y. is_before before y && is_before (some (key x)) y)
      (thread project_id db) (λ y. older_still before x y own)
    ∙ select_twice (is_before before) (is_before (some (key x))) (thread project_id db)
    ∙ after_last n rest (Descends-select _ _ (Descends-thread project_id db u)) e
