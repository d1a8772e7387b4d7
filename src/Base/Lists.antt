-- ===== src/Base/Lists.antt =====
-- Lists by Boolean tests: what the queries of the repositories select, count and update.
use Prim.Native.Nat.{ℕ, zero, suc, ◌+◌, ◌≤◌}
use mathlib.Core.Path.{◌≡◌, refl, subst, ap}
use mathlib.Core.Bool.{Bool, true, false, ◌&&◌, ◌||◌, not}
use mathlib.Core.List.{List, [], ◌∷◌, ◌++◌, map}
use mathlib.Core.Option.{Option, none, some}
use mathlib.Core.Logic.{inl, inr}
use native.Mathlib.Omega.{arith}
use pro_lens_backend.Base.Tests.{if◌then◌else◌, is_none, Bool-cases}

abbrev pub All {ℓ κ} : {A : Type ℓ} → (A → Type κ) → List A → Type κ
All P [] = Unit
All P (x ∷ xs) = P x × All P xs

module _ {ℓ} {A : Type ℓ} where
  abbrev pub length : List A → ℕ
  length [] = 0
  length (x ∷ xs) = suc (length xs)

  abbrev pub take : ℕ → List A → List A
  take zero xs = []
  take (suc n) [] = []
  take (suc n) (x ∷ xs) = x ∷ take n xs

  abbrev pub drop : ℕ → List A → List A
  drop zero xs = xs
  drop (suc n) [] = []
  drop (suc n) (x ∷ xs) = drop n xs

  -- The first row that a query selects, if any.
  abbrev pub find : (A → Bool) → List A → Option A
  find p [] = none
  find p (x ∷ xs) = if p x then some x else find p xs

  abbrev pub any : (A → Bool) → List A → Bool
  any p [] = false
  any p (x ∷ xs) = p x || any p xs

  abbrev pub all : (A → Bool) → List A → Bool
  all p [] = true
  all p (x ∷ xs) = p x && all p xs

  abbrev pub count : (A → Bool) → List A → ℕ
  count p [] = 0
  count p (x ∷ xs) = if p x then suc (count p xs) else count p xs

  abbrev pub select : (A → Bool) → List A → List A
  select p [] = []
  select p (x ∷ xs) = if p x then x ∷ select p xs else select p xs

  -- `UPDATE … WHERE`: every row that passes the test is rewritten in place.
  abbrev pub update_where : (A → Bool) → (A → A) → List A → List A
  update_where p f [] = []
  update_where p f (x ∷ xs) = (if p x then f x else x) ∷ update_where p f xs

module _ {ℓ} {A : Type ℓ} where
  pub length-append : (xs ys : List A) → length (xs ++ ys) ≡ length xs + length ys
  length-append [] ys = omega arith
  length-append (x ∷ xs) ys = omega (arith, length-append xs ys)

  pub length-take : (n : ℕ) (xs : List A) → length (take n xs) ≤ n
  length-take zero xs = omega arith
  length-take (suc n) [] = omega arith
  length-take (suc n) (x ∷ xs) = omega (arith, length-take n xs)

  pub count-append : (p : A → Bool) (xs ys : List A) → count p (xs ++ ys) ≡ count p xs + count p ys
  count-append p [] ys = omega arith
  count-append p (x ∷ xs) ys = ground (arith, count-append p xs ys)

  pub count-take-drop :
      (p : A → Bool) (n : ℕ) (xs : List A) → count p (take n xs) + count p (drop n xs) ≡ count p xs
  count-take-drop p zero xs = omega arith
  count-take-drop p (suc n) [] = omega arith
  count-take-drop p (suc n) (x ∷ xs) = ground (arith, count-take-drop p n xs)

  pub any-append : (p : A → Bool) (xs ys : List A) → any p (xs ++ ys) ≡ (any p xs || any p ys)
  any-append p [] ys = refl
  any-append p (x ∷ xs) ys = ground (arith, any-append p xs ys)

  -- What a query returns has passed its test.
  pub find-passes : (p : A → Bool) (xs : List A) {a : A} → find p xs ≡ some a → p a ≡ true
  find-passes p [] h = cc
  find-passes p (x ∷ xs) {a} h = ground (arith, find-passes p xs {a = a})

  pub any-find : (p : A → Bool) (xs : List A) → any p xs ≡ not (is_none (find p xs))
  any-find p [] = refl
  any-find p (x ∷ xs) = ground (arith, any-find p xs)

  pub count-any : (p : A → Bool) (xs : List A) → any p xs ≡ false → count p xs ≡ 0
  count-any p [] h = refl
  count-any p (x ∷ xs) h = ground (arith, count-any p xs)

  pub any-count : (p : A → Bool) (xs : List A) → any p xs ≡ true → 1 ≤ count p xs
  any-count p [] h = cc
  any-count p (x ∷ xs) h = ground (arith, any-count p xs)

module _ {ℓ κ} {A : Type ℓ} (P : A → Type κ) where
  pub All-append : (xs ys : List A) → All P xs → All P ys → All P (xs ++ ys)
  All-append [] ys hx hy = hy
  All-append (x ∷ xs) ys hx hy = (hx.0, All-append xs ys hx.1 hy)

  pub All-take : (n : ℕ) (xs : List A) → All P xs → All P (take n xs)
  All-take zero xs h = tt
  All-take (suc n) [] h = tt
  All-take (suc n) (x ∷ xs) h = (h.0, All-take n xs h.1)

  pub All-drop : (n : ℕ) (xs : List A) → All P xs → All P (drop n xs)
  All-drop zero xs h = h
  All-drop (suc n) [] h = tt
  All-drop (suc n) (x ∷ xs) h = All-drop n xs h.1

  -- A row-wise invariant survives an update that keeps it on the rows that are rewritten.
  pub All-update_where :
      (p : A → Bool) (f : A → A) (xs : List A)
      → ((x : A) → p x ≡ true → P x → P (f x))
      → All P xs
      → All P (update_where p f xs)
  All-update_where p f [] keep h = tt
  All-update_where p f (x ∷ xs) keep h =
      (All-update_row (p x) x (keep x) h.0, All-update_where p f xs keep h.1)
    where
      All-update_row :
          (b : Bool) (y : A) → (b ≡ true → P y → P (f y)) → P y → P (if b then f y else y)
      All-update_row true y k hy = k refl hy
      All-update_row false y k hy = hy

  pub All-select : (p : A → Bool) (xs : List A) → ((x : A) → p x ≡ true → P x) → All P (select p xs)
  All-select p [] h = tt
  All-select p (x ∷ xs) h = elim (Bool-cases (p x)) [
    | inl yes_x ↦ rw yes_x (h x yes_x, All-select p xs h)
    | inr no_x ↦ rw no_x (All-select p xs h)
  ]

  pub All-find : (p : A → Bool) (xs : List A) {a : A} → find p xs ≡ some a → All P xs → P a
  All-find p [] h all_xs = cc
  All-find p (x ∷ xs) {a} h all_xs = elim (Bool-cases (p x)) [
    | inl yes_x ↦ let e : x ≡ a = ground arith in subst P e all_xs.0
    | inr no_x ↦ let e : find p xs ≡ some a = ground arith in All-find p xs e all_xs.1
  ]

-- The row that is found and rewritten is found again.
pub find-update_where {ℓ} :
    {A : Type ℓ} (p : A → Bool) (f : A → A)
    → ((x : A) → p (f x) ≡ p x)
    → (xs : List A) {a : A} → find p xs ≡ some a
    → find p (update_where p f xs) ≡ some (f a)
find-update_where p f same [] h = cc
find-update_where p f same (x ∷ xs) {a} h = elim (Bool-cases (p x)) [
  | inl hit ↦
      let first : some x ≡ some a = rw hit at h in
      let own : x ≡ a = cc in rw (hit, same x, hit) (ap (λ y. some (f y)) own)
  | inr miss ↦
      let later : find p xs ≡ some a = rw miss at h in
      rw (miss, miss) (find-update_where p f same xs later)
]

-- A query that finds nothing among the rewritten rows, and the number of rows it finds.
module _ {ℓ} {A : Type ℓ} (q p : A → Bool) (f : A → A) where
  pub any-update_where :
      ((x : A) → p x ≡ true → q (f x) ≡ q x)
      → (xs : List A) → any q (update_where p f xs) ≡ any q xs
  any-update_where same [] = refl
  any-update_where same (x ∷ xs) = ground (arith, same x, any-update_where same xs)

  pub count-update_where :
      ((x : A) → p x ≡ true → q (f x) ≡ q x)
      → (xs : List A) → count q (update_where p f xs) ≡ count q xs
  count-update_where same [] = refl
  count-update_where same (x ∷ xs) = ground (arith, same x, count-update_where same xs)

module _ {ℓ κ μ} {A : Type ℓ} (P : A → Type κ) (Q : A → Type μ) where
  pub All-map_of : (xs : List A) → ((x : A) → P x → Q x) → All P xs → All Q xs
  All-map_of [] f h = tt
  All-map_of (x ∷ xs) f h = (f x h.0, All-map_of xs f h.1)

  pub All-zip : (xs : List A) → All P xs → All Q xs → All (λ x. P x × Q x) xs
  All-zip [] h k = tt
  All-zip (x ∷ xs) h k = ((h.0, k.0), All-zip xs h.1 k.1)

  pub All-select_of :
      (p : A → Bool) (xs : List A)
      → ((x : A) → p x ≡ true → P x → Q x)
      → All P xs
      → All Q (select p xs)
  All-select_of p [] f h = tt
  All-select_of p (x ∷ xs) f h = elim (Bool-cases (p x)) [
    | inl yes_x ↦ rw yes_x (f x yes_x h.0, All-select_of p xs f h.1)
    | inr no_x ↦ rw no_x (All-select_of p xs f h.1)
  ]

  pub All-update_where_of :
      (p : A → Bool) (f : A → A) (xs : List A)
      → ((x : A) → p x ≡ true → P x → Q (f x))
      → ((x : A) → p x ≡ false → P x → Q x)
      → All P xs
      → All Q (update_where p f xs)
  All-update_where_of p f [] hit miss h = tt
  All-update_where_of p f (x ∷ xs) hit miss h = elim (Bool-cases (p x)) [
    | inl yes_x ↦ rw yes_x (hit x yes_x h.0, All-update_where_of p f xs hit miss h.1)
    | inr no_x ↦ rw no_x (miss x no_x h.0, All-update_where_of p f xs hit miss h.1)
  ]

pub All-intro {ℓ κ} : {A : Type ℓ} {P : A → Type κ} (xs : List A) → ((x : A) → P x) → All P xs
All-intro [] f = tt
All-intro (x ∷ xs) f = (f x, All-intro xs f)

module _ {ℓ κ} {A : Type ℓ} {B : Type κ} where
  pub any-map : (p : B → Bool) (f : A → B) (xs : List A) → any p (map f xs) ≡ any (λ x. p (f x)) xs
  any-map p f [] = refl
  any-map p f (x ∷ xs) = ground (arith, any-map p f xs)

  pub length-map : (f : A → B) (xs : List A) → length (map f xs) ≡ length xs
  length-map f [] = refl
  length-map f (x ∷ xs) = omega (arith, length-map f xs)

module _ {ℓ} {A : Type ℓ} (q p : A → Bool) (f : A → A) where
  -- The same where the rewritten rows are known to keep the query's answer.
  pub any-update_where_of :
      (xs : List A)
      → All (λ x. p x ≡ true → q (f x) ≡ q x) xs
      → any q (update_where p f xs) ≡ any q xs
  any-update_where_of [] same = refl
  any-update_where_of (x ∷ xs) same = ground (arith, same.0, any-update_where_of xs same.1)
