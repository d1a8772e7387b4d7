-- ===== src/RateLimit/Window.antt =====
-- Lists of times in order: what leaves the window, and what the dict holds after each write.
use pro_lens_backend.Base.{
  ℕ, ◌+◌, ◌≤◌, ◌≡◌, refl, Bool, false, List, [], ◌∷◌, ◌++◌, arith, leb, ◌==◌, if◌then◌else◌, Dict,
  pop, put, get-pop, get-put, All, All-append, select, Bool-cases, inl, inr,
}
use pro_lens_backend.RateLimit.{hits_of, drop_expired, keep_nonempty}
use pro_lens_backend.RateLimit.Events.{in_window}

abbrev pub Sorted : List ℕ → Type 0
Sorted [] = Unit
Sorted (t ∷ ts) = All (λ u. t ≤ u) ts × Sorted ts

All-fresh :
    (w now t : ℕ) (ts : List ℕ)
    → leb (t + w) now ≡ false
    → All (λ u. t ≤ u) ts
    → select (in_window w now) ts ≡ ts
All-fresh w now t [] fresh h = refl
All-fresh w now t (u ∷ ts) fresh h = ground (arith, All-fresh w now t ts fresh h.1)

-- On times in order, dropping the expired ones from the front keeps exactly those in the window.
pub drop_expired-eq-select :
    (w now : ℕ) (ts : List ℕ) → Sorted ts → drop_expired w now ts ≡ select (in_window w now) ts
unfolding drop_expired
drop_expired-eq-select w now [] h = refl
drop_expired-eq-select w now (t ∷ ts) h = elim (Bool-cases (leb (t + w) now)) [
  | inl old ↦ ground (arith, drop_expired-eq-select w now ts h.1)
  | inr fresh ↦ ground (arith, All-fresh w now t ts fresh h.0)
]

pub select-select :
    (w now later : ℕ) (ts : List ℕ)
    → now ≤ later
    → select (in_window w later) (select (in_window w now) ts) ≡ select (in_window w later) ts
select-select w now later [] h = refl
select-select w now later (t ∷ ts) h = ground (arith, select-select w now later ts h)

pub select-append {ℓ} :
    {A : Type ℓ} (p : A → Bool) (xs ys : List A) → select p (xs ++ ys) ≡ select p xs ++ select p ys
select-append p [] ys = refl
select-append p (x ∷ xs) ys = ground (arith, select-append p xs ys)

pub drop_expired-Sorted :
    (w now c : ℕ) (ts : List ℕ)
    → Sorted ts
    → All (λ t. t ≤ c) ts
    → Sorted (drop_expired w now ts) × All (λ t. t ≤ c) (drop_expired w now ts)
unfolding drop_expired
drop_expired-Sorted w now c [] h b = (tt, tt)
drop_expired-Sorted w now c (t ∷ ts) h b = elim (Bool-cases (leb (t + w) now)) [
  | inl old ↦ rw old (drop_expired-Sorted w now c ts h.1 b.1)
  | inr fresh ↦ rw fresh (h, b)
]

pub append-Sorted :
    (now : ℕ) (ts : List ℕ) → Sorted ts → All (λ t. t ≤ now) ts → Sorted (ts ++ now ∷ [])
append-Sorted now [] h b = (tt, tt)
append-Sorted now (t ∷ ts) h b =
    (All-append (λ u. t ≤ u) ts (now ∷ []) h.0 (b.0, tt), append-Sorted now ts h.1 b.1)

pub hits_of-keep_nonempty :
    (d : Dict (List ℕ)) (key j : ℕ) (ts : List ℕ)
    → hits_of (keep_nonempty d key ts) j ≡ (if key == j then ts else hits_of d j)
hits_of-keep_nonempty d key j [] = ground (arith, get-pop d key j)
hits_of-keep_nonempty d key j (t ∷ ts) = ground (arith, get-put d key j (t ∷ ts))

pub hits_of-put :
    (d : Dict (List ℕ)) (key j : ℕ) (ts : List ℕ)
    → hits_of (put d key ts) j ≡ (if key == j then ts else hits_of d j)
hits_of-put d key j ts = ground (arith, get-put d key j ts)

pub hits_of-pop :
    (d : Dict (List ℕ)) (key j : ℕ) → hits_of (pop d key) j ≡ (if key == j then [] else hits_of d j)
hits_of-pop d key j = ground (arith, get-pop d key j)
