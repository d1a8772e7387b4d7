-- ===== src/Base/Sorting.antt =====
-- `ORDER BY`: insertion sort by a Boolean order.
use Prim.Native.Nat.{ℕ, zero, suc}
use mathlib.Core.Path.{◌≡◌, refl, sym, ap, ◌∙◌}
use mathlib.Core.Logic.{inl, inr}
use mathlib.Core.Bool.{Bool, true, false}
use mathlib.Core.List.{List, [], ◌∷◌}
use native.Mathlib.Omega.{arith}
use pro_lens_backend.Base.Tests.{if◌then◌else◌, Bool-cases}
use pro_lens_backend.Base.Lists.{All, All-drop, All-select_of, count, take, drop, select}

module _ {ℓ} {A : Type ℓ} (le : A → A → Bool) where
  abbrev pub insert_sorted : A → List A → List A
  insert_sorted x [] = x ∷ []
  insert_sorted x (y ∷ ys) = if le x y then x ∷ y ∷ ys else y ∷ insert_sorted x ys

  abbrev pub sort : List A → List A
  sort [] = []
  sort (x ∷ xs) = insert_sorted x (sort xs)

  pub count-insert_sorted :
      (p : A → Bool) (x : A) (xs : List A) → count p (insert_sorted x xs) ≡ count p (x ∷ xs)
  count-insert_sorted p x [] = refl
  count-insert_sorted p x (y ∷ ys) = ground (arith, count-insert_sorted p x ys)

  -- Sorting keeps every row, as often as it was there.
  pub count-sort : (p : A → Bool) (xs : List A) → count p (sort xs) ≡ count p xs
  count-sort p [] = refl
  count-sort p (x ∷ xs) = ground (arith, count-insert_sorted p x (sort xs), count-sort p xs)

module _ {ℓ κ} {A : Type ℓ} (P : A → Type κ) (le : A → A → Bool) where
  All-insert_sorted : (x : A) (xs : List A) → P x → All P xs → All P (insert_sorted le x xs)
  All-insert_sorted x [] hx h = (hx, tt)
  All-insert_sorted x (y ∷ ys) hx h = place (le x y) (All-insert_sorted x ys hx h.1)
    where
      place :
          (b : Bool)
          → All P (insert_sorted le x ys)
          → All P (if b then x ∷ y ∷ ys else y ∷ insert_sorted le x ys)
      place true r = (hx, (h.0, h.1))
      place false r = (h.0, r)

  pub All-sort : (xs : List A) → All P xs → All P (sort le xs)
  All-sort [] h = tt
  All-sort (x ∷ xs) h = All-insert_sorted x (sort le xs) h.0 (All-sort xs h.1)

module _ {ℓ} {A : Type ℓ} (le : A → A → Bool) where
  -- Every row comes before all that follow it.
  abbrev pub IsSorted : List A → Type 0
  IsSorted [] = Unit
  IsSorted (x ∷ xs) = All (λ y. le x y ≡ true) xs × IsSorted xs

  module _ (le_trans : (x y z : A) → le x y ≡ true → le y z ≡ true → le x z ≡ true)
      (le_total : (x y : A) → le x y ≡ false → le y x ≡ true) where
    All-le_trans :
        (x y : A) (xs : List A)
        → le x y ≡ true
        → All (λ z. le y z ≡ true) xs
        → All (λ z. le x z ≡ true) xs
    All-le_trans x y [] h r = tt
    All-le_trans x y (z ∷ xs) h r = (le_trans x y z h r.0, All-le_trans x y xs h r.1)

    insert_sorted-IsSorted : (x : A) (xs : List A) → IsSorted xs → IsSorted (insert_sorted le x xs)
    insert_sorted-IsSorted x [] h = (tt, tt)
    insert_sorted-IsSorted x (y ∷ ys) h = elim (Bool-cases (le x y)) [
      | inl before ↦ rw before ((before, All-le_trans x y ys before h.0), h)
      | inr after ↦ rw after (
        All-insert_sorted (λ z. le y z ≡ true) le x ys (le_total x y after) h.0,
        insert_sorted-IsSorted x ys h.1,
      )
    ]

    pub sort-IsSorted : (xs : List A) → IsSorted (sort le xs)
    sort-IsSorted [] = tt
    sort-IsSorted (x ∷ xs) = insert_sorted-IsSorted x (sort le xs) (sort-IsSorted xs)

    -- Selecting from the sorted rows is sorting the selected ones.
    insert_first :
        (x : A) (xs : List A) → All (λ y. le x y ≡ true) xs → insert_sorted le x xs ≡ x ∷ xs
    insert_first x [] h = refl
    insert_first x (y ∷ ys) h = rw (h.0) refl

    select-insert_sorted :
        (p : A → Bool) (x : A) (xs : List A)
        → IsSorted xs
        → select p (insert_sorted le x xs)
          ≡ (if p x then insert_sorted le x (select p xs) else select p xs)
    select-insert_sorted p x [] h = refl
    select-insert_sorted p x (y ∷ ys) h =
        let rest = select-insert_sorted p x ys h.1 in
        elim (Bool-cases (le x y)) [
          | inl before ↦
              let first = insert_first x (select p (y ∷ ys)) (
                All-select_of _ _ p (y ∷ ys) (λ z _ b. b)
                  (before, All-le_trans x y ys before h.0)) in
              elim (Bool-cases (p x)) [
                | inl yes_x ↦ rw (before, yes_x) (sym first)
                | inr no_x ↦ rw (before, no_x) refl
              ]
          | inr after ↦ elim (Bool-cases (p y)) [
            | inl yes_y ↦ elim (Bool-cases (p x)) [
              | inl yes_x ↦
                  let r = rw yes_x at rest in rw (after, yes_y, yes_x, after) (ap (λ t. y ∷ t) r)
              | inr no_x ↦ let r = rw no_x at rest in rw (after, yes_y, no_x) (ap (λ t. y ∷ t) r)
            ]
            | inr no_y ↦ rw (after, no_y) rest
          ]
        ]

    pub select-sort : (p : A → Bool) (xs : List A) → select p (sort le xs) ≡ sort le (select p xs)
    select-sort p [] = refl
    select-sort p (x ∷ xs) =
        select-insert_sorted p x (sort le xs) (sort-IsSorted xs) ∙ elim (Bool-cases (p x)) [
          | inl yes_x ↦ rw (yes_x, select-sort p xs) refl
          | inr no_x ↦ rw no_x (select-sort p xs)
        ]

  -- The first `n` rows of a sorted list come before the others.
  pub IsSorted-take :
      (n : ℕ) (xs : List A)
      → IsSorted xs
      → All (λ x. All (λ y. le x y ≡ true) (drop n xs)) (take n xs)
  IsSorted-take zero xs h = tt
  IsSorted-take (suc n) [] h = tt
  IsSorted-take (suc n) (x ∷ xs) h =
      (All-drop (λ y. le x y ≡ true) n xs h.0, IsSorted-take n xs h.1)
