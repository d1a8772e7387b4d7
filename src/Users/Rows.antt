-- ===== src/Users/Rows.antt =====
-- What an update of the one row with a given id does to a count of rows.
use pro_lens_backend.Base.{
  ℕ, ◌+◌, Bool, false, some, List, [], ◌∷◌, ◌≡◌, refl, sym, arith, ◌&&◌, ◌==◌, ==_iff, not, find,
  count, update_where, if◌then◌else◌, UniqueKeys, has_key, Bool-cases, inl, inr,
}

abbrev pub one_if : Bool → ℕ
one_if b = if b then 1 else 0

module _ {ℓ} {A : Type ℓ} (key : A → ℕ) (q : A → Bool) (k : ℕ) where
  -- The rows with another id.
  abbrev pub rest : List A → ℕ
  rest = count (λ x. q x && not (key x == k))

  count-absent :
      (f : A → A) (xs : List A)
      → has_key key k xs ≡ false
      → (count q (update_where (λ x. key x == k) f xs) ≡ rest xs) × (count q xs ≡ rest xs)
  count-absent f [] h = (refl, refl)
  count-absent f (x ∷ xs) h =
      let r = count-absent f xs (ground arith) in (ground (arith, r.0), ground (arith, r.1))

  pub count-one_row :
      (f : A → A) (xs : List A) {a : A}
      → UniqueKeys key xs
      → find (λ x. key x == k) xs ≡ some a
      → (count q xs ≡ rest xs + one_if (q a))
        × (count q (update_where (λ x. key x == k) f xs) ≡ rest xs + one_if (q (f a)))
  count-one_row f [] u h = cc
  count-one_row f (x ∷ xs) {a} u h = elim (Bool-cases (key x == k)) [
    | inl here ↦
        let same : x ≡ a = ground arith in
        let gone : has_key key k xs ≡ false = rw ((==_iff (key x) k).0 here) at u.0 in
        let absent = count-absent f xs gone in
        rw (here, sym same) (ground (arith, absent.1), ground (arith, absent.0))
    | inr there ↦
        let found : find (λ x. key x == k) xs ≡ some a = ground arith in
        let later = count-one_row f xs u.1 found in
        rw there (ground (arith, later.0), ground (arith, later.1))
  ]
