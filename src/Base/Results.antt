-- ===== src/Base/Results.antt =====
-- What a service call returns: a value, or the exception that it raises.
use mathlib.Core.Path.{◌≡◌, refl, subst}
use mathlib.Core.Bool.{Bool, true, false}
use mathlib.Core.Option.{Option, none, some}
use pro_lens_backend.Errors.{Error}

pub data Result {ℓ} (Value : Type ℓ) : Type ℓ where
  err : Error → Result Value
  ok : Value → Result Value

-- The rest of a method runs only if the call before it returned.
infixl 5 ◌>>=◌ ◌>>◌
abbrev pub ◌>>=◌ {κ ℓ} : {B : Type κ} {A : Type ℓ} → Result B → (B → Result A) → Result A
err raised >>= rest = err raised
ok value >>= rest = rest value

-- `if b: raise e`
abbrev pub raise_if : Bool → Error → Result (Unit {0})
raise_if true e = err e
raise_if false e = ok tt

-- `if b: return` before a final `raise e`
abbrev pub raise_unless : Bool → Error → Result (Unit {0})
raise_unless true e = ok tt
raise_unless false e = err e

-- A statement whose value is not used.
abbrev pub ◌>>◌ {κ} : {C : Type κ} → Result (Unit {0}) → Result C → Result C
statement >> rest = statement >>= λ _. rest

-- `if x is None: raise e`
abbrev pub or_raise {ℓ} : {A : Type ℓ} → Option A → Error → Result A
or_raise none e = err e
or_raise (some a) e = ok a

abbrev pub IsOk {ℓ} : {A : Type ℓ} → Result A → Type 0
IsOk (ok _) = Unit
IsOk (err _) = ⊥

pub raise_if-eq-ok : (b : Bool) (e : Error) {u : Unit {0}} → raise_if b e ≡ ok u → b ≡ false
raise_if-eq-ok true e h = cc
raise_if-eq-ok false e h = refl

pub or_raise-eq-ok {ℓ} :
    {A : Type ℓ} (o : Option A) (e : Error) {a : A} → or_raise o e ≡ ok a → o ≡ some a
or_raise-eq-ok none e h = cc
or_raise-eq-ok (some a) e h = cc

-- If the call returns, its value meets `P`.
pub data Ensures {ℓ κ} {A : Type ℓ} (P : A → Type κ) : Result A → Type (ℓ ⊔ κ) where
  returns : {a : A} → P a → Ensures P (ok a)
  raises : {e : Error} → Ensures P (err e)

module _ {ℓ κ μ} {A : Type ℓ} {B : Type κ} (P : B → Type μ) where
  -- The rest of a `do` block may use that the step before it returned.
  pub Ensures-bind :
      (m : Result A) (f : A → Result B)
      → ((a : A) → m ≡ ok a → Ensures P (f a))
      → Ensures P (m >>= f)
  Ensures-bind (ok a) f rest = rest a refl
  Ensures-bind (err e) f rest = raises

pub Ensures-ok {ℓ κ} :
    {A : Type ℓ} (P : A → Type κ) (r : Result A) {a : A} → Ensures P r → r ≡ ok a → P a
Ensures-ok P (ok b) {a} (returns h) e = subst P (let same : b ≡ a = cc in same) h
Ensures-ok P (err x) raises e = cc

pub raise_unless-eq-ok : (b : Bool) (e : Error) {u : Unit {0}} → raise_unless b e ≡ ok u → b ≡ true
raise_unless-eq-ok true e h = refl
raise_unless-eq-ok false e h = cc

-- The three ways in which a service stops early.
module _ {ℓ κ} {B : Type ℓ} (P : B → Type κ) where
  pub Ensures-or_raise {μ} :
      {A : Type μ} (o : Option A) (e : Error) (f : A → Result B)
      → ((a : A) → o ≡ some a → Ensures P (f a))
      → Ensures P (or_raise o e >>= f)
  Ensures-or_raise none e f rest = raises
  Ensures-or_raise (some a) e f rest = rest a refl

  pub Ensures-raise_if :
      (b : Bool) (e : Error) (r : Result B)
      → (b ≡ false → Ensures P r)
      → Ensures P (raise_if b e >> r)
  Ensures-raise_if true e r rest = raises
  Ensures-raise_if false e r rest = rest refl

  pub Ensures-raise_unless :
      (b : Bool) (e : Error) (r : Result B)
      → (b ≡ true → Ensures P r)
      → Ensures P (raise_unless b e >> r)
  Ensures-raise_unless true e r rest = rest refl
  Ensures-raise_unless false e r rest = raises

pub Ensures-all {ℓ κ} : {A : Type ℓ} (P : A → Type κ) (r : Result A) → ((a : A) → P a) → Ensures P r
Ensures-all P (ok a) h = returns (h a)
Ensures-all P (err e) h = raises

-- A final check.
pub raise_unless-Ensures {ℓ} :
    (P : Type ℓ) (b : Bool) (e : Error) → (b ≡ true → P) → Ensures (λ _. P) (raise_unless b e)
raise_unless-Ensures P true e h = returns (h refl)
raise_unless-Ensures P false e h = raises

pub Ensures-map {ℓ κ μ} :
    {A : Type ℓ} (P : A → Type κ) (Q : A → Type μ) {r : Result A}
    → ((a : A) → P a → Q a)
    → Ensures P r
    → Ensures Q r
Ensures-map P Q f (returns {a} h) = returns (f a h)
Ensures-map P Q f raises = raises

-- Two calls agree if what follows their first step agrees whenever it returns.
pub bind_congr {κ ℓ} :
    {B : Type κ} {A : Type ℓ} (m : Result B) (f g : B → Result A)
    → ((b : B) → m ≡ ok b → f b ≡ g b)
    → (m >>= f) ≡ (m >>= g)
bind_congr (err e) f g same = refl
bind_congr (ok b) f g same = same b refl

-- A call that returns: its first step returned.
pub bind-eq-ok {κ ℓ} :
    {B : Type κ} {A : Type ℓ} (m : Result B) (f : B → Result A) {a : A}
    → (m >>= f) ≡ ok a
    → (b : B) × (m ≡ ok b) × (f b ≡ ok a)
bind-eq-ok (err e) f h = cc
bind-eq-ok (ok b) f h = (b, refl, h)
