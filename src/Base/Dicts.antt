-- ===== src/Base/Dicts.antt =====
-- Python dicts as association lists. Keys are only compared, so they are numbers here, whatever
-- strings or ids they are in the program.
use Prim.Native.Nat.{ℕ}
use mathlib.Core.Path.{◌≡◌, refl}
use mathlib.Core.Option.{Option, none, some}
use mathlib.Core.List.{List, [], ◌∷◌}
use native.Mathlib.Omega.{arith}
use pro_lens_backend.Base.Tests.{◌==◌, if◌then◌else◌}

abbrev pub Dict {ℓ} : Type ℓ → Type ℓ
Dict V = List (ℕ × V)

module _ {ℓ} {V : Type ℓ} where
  -- `d.get(k)`
  unfoldable pub get : Dict V → ℕ → Option V
  get [] k = none
  get ((j, v) ∷ d) k = if j == k then some v else get d k

  -- `d.pop(k, None)`; a dict never has a key twice, and every entry of the key goes
  unfoldable pub pop : Dict V → ℕ → Dict V
  pop [] k = []
  pop ((j, v) ∷ d) k = let rest = pop d k in if j == k then rest else (j, v) ∷ rest

  -- `d[k] = v`, in place if the key is there
  unfoldable pub put : Dict V → ℕ → V → Dict V
  put [] k v = (k, v) ∷ []
  put ((j, u) ∷ d) k v = if j == k then (k, v) ∷ d else (j, u) ∷ put d k v

  pub get-pop : (d : Dict V) (k j : ℕ) → get (pop d k) j ≡ (if k == j then none else get d j)
  unfolding get pop
  get-pop [] k j = ground arith
  get-pop ((i, v) ∷ d) k j = ground (arith, get-pop d k j)

  pub get-put :
      (d : Dict V) (k j : ℕ) (v : V) → get (put d k v) j ≡ (if k == j then some v else get d j)
  unfolding get put
  get-put [] k j v = refl
  get-put ((i, u) ∷ d) k j v = ground (arith, get-put d k j v)
