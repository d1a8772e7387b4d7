-- ===== src/Base/Texts.antt =====
-- Python's `str` methods that the services use, on texts as lists of code points. Case and white
-- space are those of ASCII, which is what an email address has outside its quoted parts.
use Prim.Native.Nat.{ℕ, ◌+◌, ◌-◌}
use mathlib.Core.Path.{◌≡◌, refl}
use mathlib.Core.Bool.{Bool, true, false, ◌&&◌, ◌||◌}
use mathlib.Core.Option.{Option, none, some}
use mathlib.Core.List.{List, [], ◌∷◌, map, reverse}
use native.Mathlib.Omega.{arith}
use pro_lens_backend.Base.Tests.{◌==◌, leb, if◌then◌else◌}

unfoldable pub text_eq : List ℕ → List ℕ → Bool
text_eq [] [] = true
text_eq [] (_ ∷ _) = false
text_eq (_ ∷ _) [] = false
text_eq (a ∷ s) (b ∷ t) = (a == b) && text_eq s t

is_space : ℕ → Bool
is_space c = c == 32 || (leb 9 c && leb c 13) || (leb 28 c && leb c 31)

lower_code : ℕ → ℕ
lower_code c = if leb b'A' c && leb c b'Z' then c + 32 else c

-- `s.lower()`
unfoldable pub lower : List ℕ → List ℕ
unfolding lower_code
lower = map lower_code

-- `s.upper()`
unfoldable pub upper : List ℕ → List ℕ
upper = map (λ c. if leb b'a' c && leb c b'z' then c - 32 else c)

-- `s.split()`: the words, of at least one code point each. `word` is what was read of the next one.
split_from : List ℕ → List ℕ → List (List ℕ)
unfolding is_space
split_from [] [] = []
split_from (w ∷ word) [] = reverse (w ∷ word) ∷ []
split_from [] (c ∷ s) = elim (is_space c) [ true ↦ split_from [] s | false ↦ split_from (c ∷ []) s ]
split_from (w ∷ word) (c ∷ s) = elim (is_space c) [
  | true ↦ reverse (w ∷ word) ∷ split_from [] s
  | false ↦ split_from (c ∷ w ∷ word) s
]

unfoldable pub split_words : List ℕ → List (List ℕ)
unfolding split_from
split_words = split_from []

-- `s.split(c, 1)`: what stands before the first `c`, and what follows it, if it is there.
unfoldable pub split_once : ℕ → List ℕ → List ℕ × Option (List ℕ)
split_once c [] = ([], none)
split_once c (x ∷ s) =
    let rest = split_once c s in if x == c then ([], some s) else (x ∷ rest.0, rest.1)

drop_spaces : List ℕ → List ℕ
drop_spaces [] = []
drop_spaces (c ∷ s) = if is_space c then drop_spaces s else c ∷ s

-- `s.strip()`
unfoldable pub strip : List ℕ → List ℕ
unfolding drop_spaces is_space
strip s = reverse (drop_spaces (reverse (drop_spaces s)))

pub text_eq_refl : (s : List ℕ) → text_eq s s ≡ true
unfolding text_eq
text_eq_refl [] = refl
text_eq_refl (c ∷ s) = ground (arith, text_eq_refl s)

pub text_eq_path : (s t : List ℕ) → text_eq s t ≡ true → s ≡ t
unfolding text_eq
text_eq_path [] [] h = refl
text_eq_path [] (b ∷ t) h = cc
text_eq_path (a ∷ s) [] h = cc
text_eq_path (a ∷ s) (b ∷ t) h =
    let same : a ≡ b = ground arith in let rest = text_eq_path s t (ground arith) in cc
