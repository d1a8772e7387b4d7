-- ===== src/Repositories/Lookups.antt =====
-- What a look-up that finds an active row says of the table.
use mathlib.Core.Path.{subst}
use pro_lens_backend.Base.{
  ℕ, true, Option, none, some, List, [], ◌∷◌, ◌≡◌, ap, arith, ◌&&◌, ◌==◌, ==_iff, is_none, any,
  find-passes, All, All-find, Bool-cases, inl, inr,
}
use pro_lens_backend.Repositories.{live, by_id}

module _ {ℓ} {A : Type ℓ} (key : A → ℕ) (ended : A → Option ℕ) where
  -- An active row that is found is an active row of the table.
  pub live-any :
      (k : ℕ) (xs : List A) {a : A}
      → live ended (by_id key k xs) ≡ some a
      → any (λ x. (key x == k) && is_none (ended x)) xs ≡ true
  live-any k [] h = cc
  live-any k (x ∷ xs) {a} h = ground (arith, live-any k xs {a = a})

  pub live-some :
      (o : Option A) {a : A} → live ended o ≡ some a → (o ≡ some a) × (is_none (ended a) ≡ true)
  live-some none h = (cc, cc)
  live-some (some x) {a} h = elim (Bool-cases (is_none (ended x))) [
    | inl active ↦
        let same : x ≡ a = ground arith in
        (ap some same, subst (λ (y : A). is_none (ended y) ≡ true) same active)
    | inr gone ↦ let no_row : ⊥ = ground arith in absurd no_row
  ]

  pub live-by_id :
      (k : ℕ) (xs : List A) {a : A}
      → live ended (by_id key k xs) ≡ some a
      → (key a ≡ k) × (is_none (ended a) ≡ true)
  live-by_id k xs {a} h =
      let found = live-some (by_id key k xs) h in
      ((==_iff (key a) k).0 (find-passes (λ x. key x == k) xs found.0), found.1)

  -- What holds of every row holds of the one that is found.
  pub All-live {κ} :
      (P : A → Type κ) (k : ℕ) (xs : List A) {a : A}
      → live ended (by_id key k xs) ≡ some a
      → All P xs
      → P a
  All-live P k xs h all_xs = All-find P (λ x. key x == k) xs (live-some (by_id key k xs) h).0 all_xs
