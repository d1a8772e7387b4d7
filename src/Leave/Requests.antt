-- ===== src/Leave/Requests.antt =====
-- The requests that create and change a leave: the route with the schema of its body, and the service.
use pro_lens_backend.Base.{Result, Ensures}

-- Nothing is returned.
abbrev pub Fails {ℓ} : {A : Type ℓ} → Result A → Type ℓ
Fails r = Ensures (λ _. ⊥) r
