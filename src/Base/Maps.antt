-- ===== src/Base/Maps.antt =====
-- Maps over lists, and an update of rows as one.
use mathlib.Core.Path.{◌≡◌, refl}
use mathlib.Core.Bool.{Bool}
use mathlib.Core.List.{List, [], ◌∷◌, map}
use pro_lens_backend.Base.Tests.{if◌then◌else◌}
use pro_lens_backend.Base.Lists.{update_where}

module _ {ℓ} {A : Type ℓ} where
  pub map_congr : {f g : A → A} (xs : List A) → ((x : A) → f x ≡ g x) → map f xs ≡ map g xs
  map_congr [] same = refl
  map_congr {f} {g} (x ∷ xs) same = rw (same x, map_congr {f = f} {g = g} xs same) refl

  pub map-map : (f g : A → A) (xs : List A) → map f (map g xs) ≡ map (λ x. f (g x)) xs
  map-map f g [] = refl
  map-map f g (x ∷ xs) = rw (map-map f g xs) refl

  pub map_unchanged : (xs : List A) → map (λ x. x) xs ≡ xs
  map_unchanged [] = refl
  map_unchanged (x ∷ xs) = rw (map_unchanged xs) refl

  pub update_where-map :
      (p : A → Bool) (f : A → A) (xs : List A)
      → update_where p f xs ≡ map (λ x. if p x then f x else x) xs
  update_where-map p f [] = refl
  update_where-map p f (x ∷ xs) = rw (update_where-map p f xs) refl
