-- ===== src/RateLimit/Matches.antt =====
-- Every method of the limiter keeps it matched with the history.
use mathlib.Core.Path.{subst}
use native.Mathlib.Nat.{le_refl}
use pro_lens_backend.Base.{
  ℕ, ◌≤◌, ◌≡◌, refl, ◌∙◌, false, List, [], ◌∷◌, ◌++◌, arith, ◌==◌, if◌then◌else◌, Dict, pop, put,
  All, All-append, All-map_of, select, Bool-cases, inl, inr, ==_refl, ==_iff,
}
use pro_lens_backend.RateLimit.{hits_of, drop_expired, keep_nonempty}
use pro_lens_backend.RateLimit.Events.{Event, History, remember, in_window}
use pro_lens_backend.RateLimit.Window.{
  Sorted, drop_expired-eq-select, select-select, select-append, drop_expired-Sorted, append-Sorted,
  hits_of-keep_nonempty, hits_of-put, hits_of-pop,
}

-- The limiter at time `c` against the history: per key its times are in order and not after `c`,
-- and at any later time the same attempts are in the window.
pub record Matches (w c : ℕ) (d : Dict (List ℕ)) (h : History) : Type 0 where
  pub in_order : (key : ℕ) → Sorted (hits_of d key)
  pub past : (key : ℕ) → All (λ t. t ≤ c) (hits_of d key)
  pub same :
      (key now : ℕ)
      → c ≤ now
      → select (in_window w now) (hits_of d key) ≡ select (in_window w now) (h key)

at_key {ℓ} :
    (P : ℕ → List ℕ → Type ℓ) (key j : ℕ) (xs ys : List ℕ)
    → P key xs
    → (key == j ≡ false → P j ys)
    → P j (if key == j then xs else ys)
at_key P key j xs ys own other = elim (Bool-cases (key == j)) [
  | inl e ↦ rw e (subst (λ (i : ℕ). P i xs) ((==_iff key j).0 e) own)
  | inr e ↦ rw e (other e)
]

module _ (w c now : ℕ) (later : c ≤ now) (d : Dict (List ℕ)) (h : History)
    (m : Matches w c d h) where
  unfoldable pub pruned : ℕ → Dict (List ℕ)
  pruned key = keep_nonempty d key (drop_expired w now (hits_of d key))

  wait-past : (key : ℕ) → All (λ t. t ≤ now) (hits_of d key)
  wait-past key =
      All-map_of (λ t. t ≤ c) (λ t. t ≤ now) (hits_of d key) (λ t le. omega arith) (m.past key)

  left_over :
      (key : ℕ)
      → Sorted (drop_expired w now (hits_of d key))
        × All (λ t. t ≤ now) (drop_expired w now (hits_of d key))
  left_over key = drop_expired-Sorted w now now (hits_of d key) (m.in_order key) (wait-past key)

  -- Pruning one key keeps the match, and moves the clock on.
  pub prune-Matches : (key : ℕ) → Matches w now (pruned key) h
  unfolding pruned
  prune-Matches key = record {
    in_order = λ j.
        rw hits_of-keep_nonempty
          (at_key (λ i ts. Sorted ts) key j _ _ (left_over key).0 (λ _. m.in_order j));
    past = λ j.
        rw hits_of-keep_nonempty
          (at_key (λ i ts. All (λ t. t ≤ now) ts) key j _ _ (left_over key).1 (λ _. wait-past j));
    same = λ j t le. rw hits_of-keep_nonempty (
        at_key (λ i ts. select (in_window w t) ts ≡ select (in_window w t) (h i)) key j _ _
          (rw (drop_expired-eq-select w now (hits_of d key) (m.in_order key))
            (select-select w now t (hits_of d key) le ∙ m.same key t (omega arith)))
          (λ _. m.same j t (omega arith)));
  }

  -- Recording an attempt that the clock has just reached.
  pub push-Matches :
      (key : ℕ)
      → Matches w now d h
      → Matches w now (put d key (hits_of d key ++ now ∷ [])) (remember now (Event.recorded key) h)
  push-Matches key n = record {
    in_order = λ j. rw hits_of-put (
        at_key (λ i ts. Sorted ts) key j _ _
          (append-Sorted now (hits_of d key) (n.in_order key) (n.past key)) (λ _. n.in_order j));
    past = λ j. rw hits_of-put (
        at_key (λ i ts. All (λ t. t ≤ now) ts) key j _ _
          (All-append (λ t. t ≤ now) (hits_of d key) (now ∷ []) (n.past key) (le_refl now, tt))
          (λ _. n.past j));
    same = λ j t le. rw hits_of-put (
        at_key
          (λ i ts.
            select (in_window w t) ts
            ≡ select (in_window w t) (if key == i then h i ++ now ∷ [] else h i))
          key j _ _
          (rw (==_refl key) (
            rw
              (
                select-append (in_window w t) (hits_of d key) (now ∷ []),
                select-append (in_window w t) (h key) (now ∷ []),
                n.same key t le,
              )
              refl))
          (λ e. rw e (n.same j t le)));
  }

  pub reset-Matches : (key : ℕ) → Matches w now (pop d key) (remember now (Event.was_reset key) h)
  reset-Matches key = record {
    in_order = λ j. rw hits_of-pop (at_key (λ i ts. Sorted ts) key j _ _ tt (λ _. m.in_order j));
    past = λ j.
        rw hits_of-pop (at_key (λ i ts. All (λ t. t ≤ now) ts) key j _ _ tt (λ _. wait-past j));
    same = λ j t le. rw hits_of-pop (
        at_key
          (λ i ts.
            select (in_window w t) ts ≡ select (in_window w t) (if key == i then [] else h i))
          key j _ _ (rw (==_refl key) refl) (λ e. rw e (m.same j t (omega arith))));
  }
