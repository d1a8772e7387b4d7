-- ===== src/Base/Keys.antt =====
-- Tables with a primary key: no two rows share one.
use Prim.Native.Nat.{ℕ, zero, suc}
use mathlib.Core.Path.{◌≡◌, refl, ap, ◌∙◌}
use mathlib.Core.Logic.{inl, inr}
use mathlib.Core.Bool.{Bool, true, false, ◌&&◌, ◌||◌}
use mathlib.Core.List.{List, [], ◌∷◌, ◌++◌}
use native.Mathlib.Omega.{arith}
use pro_lens_backend.Base.Tests.{◌==◌, ==_refl, if◌then◌else◌, Bool-cases}
use pro_lens_backend.Base.Lists.{
  All, All-map_of, All-zip, any, any-append, any-update_where, select, take, update_where,
}
use pro_lens_backend.Base.Sorting.{sort, insert_sorted}

module _ {ℓ} {A : Type ℓ} where
  pub any-take : (p : A → Bool) (n : ℕ) (xs : List A) → any p (take n xs) ≡ true → any p xs ≡ true
  any-take p zero xs h = cc
  any-take p (suc n) [] h = h
  any-take p (suc n) (x ∷ xs) h = ground (arith, any-take p n xs)

  any-insert_sorted :
      (le : A → A → Bool) (p : A → Bool) (x : A) (xs : List A)
      → any p (insert_sorted le x xs) ≡ (p x || any p xs)
  any-insert_sorted le p x [] = refl
  any-insert_sorted le p x (y ∷ ys) = ground (arith, any-insert_sorted le p x ys)

  pub any-sort : (le : A → A → Bool) (p : A → Bool) (xs : List A) → any p (sort le xs) ≡ any p xs
  any-sort le p [] = refl
  any-sort le p (x ∷ xs) = ground (arith, any-insert_sorted le p x (sort le xs), any-sort le p xs)

  pub any-select : (p q : A → Bool) (xs : List A) → any p (select q xs) ≡ any (λ x. q x && p x) xs
  any-select p q [] = refl
  any-select p q (x ∷ xs) = ground (arith, any-select p q xs)

  pub any-false : (p : A → Bool) (xs : List A) → any p xs ≡ false → All (λ x. p x ≡ false) xs
  any-false p [] h = tt
  any-false p (x ∷ xs) h = (ground arith, any-false p xs (ground arith))

  any-and_false :
      (p q : A → Bool) (xs : List A) → any p xs ≡ false → any (λ x. q x && p x) xs ≡ false
  any-and_false p q [] h = refl
  any-and_false p q (x ∷ xs) h = ground (arith, any-and_false p q xs)

module _ {ℓ} {A : Type ℓ} (key : A → ℕ) where
  abbrev pub has_key : ℕ → List A → Bool
  has_key k = any (λ x. key x == k)

  abbrev pub UniqueKeys : List A → Type 0
  UniqueKeys [] = Unit
  UniqueKeys (x ∷ xs) = (has_key (key x) xs ≡ false) × UniqueKeys xs

  -- Among rows with unique keys, a row whose key a query returns has itself passed the query.
  pub UniqueKeys-select :
      (q : A → Bool) (xs : List A)
      → UniqueKeys xs
      → All (λ x. any (λ c. q c && (key c == key x)) xs ≡ true → q x ≡ true) xs
  UniqueKeys-select q [] u = tt
  UniqueKeys-select q (y ∷ ys) u = (
    (λ h.
        let rest = any-and_false (λ c. key c == key y) q ys u.0 in
        let own = ==_refl (key y) in ground arith),
    All-map_of
        (λ x.
          ((key x == key y) ≡ false) × (any (λ c. q c && (key c == key x)) ys ≡ true → q x ≡ true))
        (λ x. any (λ c. q c && (key c == key x)) (y ∷ ys) ≡ true → q x ≡ true) ys
        (λ x other h. other.1 (ground arith))
        (All-zip _ _ ys (any-false (λ x. key x == key y) ys u.0) (UniqueKeys-select q ys u.1)),
  )

  key_if : (b : Bool) (y x : A) → key y ≡ key x → key (if b then y else x) ≡ key x
  key_if true y x e = e
  key_if false y x e = refl

  pub has_key-update_where :
      (p : A → Bool) (f : A → A) (xs : List A)
      → ((x : A) → key (f x) ≡ key x)
      → (k : ℕ) → has_key k (update_where p f xs) ≡ has_key k xs
  has_key-update_where p f xs same k =
      any-update_where (λ x. key x == k) p f (λ x _. ap (λ (n : ℕ). n == k) (same x)) xs

  pub UniqueKeys-update_where :
      (p : A → Bool) (f : A → A) (xs : List A)
      → ((x : A) → key (f x) ≡ key x)
      → UniqueKeys xs
      → UniqueKeys (update_where p f xs)
  UniqueKeys-update_where p f [] same u = tt
  UniqueKeys-update_where p f (x ∷ xs) same u = (
    rw (has_key-update_where p f xs same _, key_if (p x) (f x) x (same x)) u.0,
    UniqueKeys-update_where p f xs same u.1,
  )

  pub UniqueKeys-append :
      (x : A) (xs : List A) → has_key (key x) xs ≡ false → UniqueKeys xs → UniqueKeys (xs ++ x ∷ [])
  UniqueKeys-append x [] new u = (refl, tt)
  UniqueKeys-append x (y ∷ ys) new u =
      (rw any-append (ground (arith, u.0)), UniqueKeys-append x ys (ground arith) u.1)

-- Queries keep the keys unique.
module _ {ℓ} {A : Type ℓ} (key : A → ℕ) where
  has_key-select :
      (q : A → Bool) (k : ℕ) (xs : List A)
      → has_key key k xs ≡ false
      → has_key key k (select q xs) ≡ false
  has_key-select q k [] h = refl
  has_key-select q k (x ∷ xs) h = ground (arith, has_key-select q k xs)

  pub UniqueKeys-selected :
      (q : A → Bool) (xs : List A) → UniqueKeys key xs → UniqueKeys key (select q xs)
  UniqueKeys-selected q [] u = tt
  UniqueKeys-selected q (x ∷ xs) u = elim (Bool-cases (q x)) [
    | inl yes_x ↦ rw yes_x (has_key-select q (key x) xs u.0, UniqueKeys-selected q xs u.1)
    | inr no_x ↦ rw no_x (UniqueKeys-selected q xs u.1)
  ]

  has_key-take :
      (n k : ℕ) (xs : List A) → has_key key k xs ≡ false → has_key key k (take n xs) ≡ false
  has_key-take zero k xs h = refl
  has_key-take (suc n) k [] h = refl
  has_key-take (suc n) k (x ∷ xs) h = ground (arith, has_key-take n k xs)

  UniqueKeys-take : (n : ℕ) (xs : List A) → UniqueKeys key xs → UniqueKeys key (take n xs)
  UniqueKeys-take zero xs u = tt
  UniqueKeys-take (suc n) [] u = tt
  UniqueKeys-take (suc n) (x ∷ xs) u = (has_key-take n (key x) xs u.0, UniqueKeys-take n xs u.1)

  UniqueKeys-insert_sorted :
      (le : A → A → Bool) (x : A) (xs : List A)
      → UniqueKeys key (x ∷ xs)
      → UniqueKeys key (insert_sorted le x xs)
  UniqueKeys-insert_sorted le x [] u = u
  UniqueKeys-insert_sorted le x (y ∷ ys) u = elim (Bool-cases (le x y)) [
    | inl before ↦ rw before u
    | inr after ↦ rw after (
      any-insert_sorted le (λ z. key z == key y) x ys ∙ ground (arith, u.0, u.1.0),
      UniqueKeys-insert_sorted le x ys (ground (arith, u.0), u.1.1),
    )
  ]

  pub UniqueKeys-sort :
      (le : A → A → Bool) (xs : List A) → UniqueKeys key xs → UniqueKeys key (sort le xs)
  UniqueKeys-sort le [] u = tt
  UniqueKeys-sort le (x ∷ xs) u =
      UniqueKeys-insert_sorted le x (sort le xs) (rw any-sort u.0, UniqueKeys-sort le xs u.1)

  -- The page that a query with WHERE, ORDER BY and LIMIT returns.
  pub UniqueKeys-page :
      (n : ℕ) (le : A → A → Bool) (q : A → Bool) (xs : List A)
      → UniqueKeys key xs
      → UniqueKeys key (take n (sort le (select q xs)))
  UniqueKeys-page n le q xs u =
      UniqueKeys-take n _ (UniqueKeys-sort le _ (UniqueKeys-selected q xs u))
