-- ===== src/Prelude/Results.antt =====
-- Rust's `Result`, with `?` as bind, and the inversion of a chain that succeeds.
use mathlib.Core.Path.{◌≡◌, refl}
use mathlib.Core.Logic.{◌⊎◌, inl, inr}
use mathlib.Core.Bool.{Bool, true, false}
use mathlib.Core.List.{List, [], ◌∷◌}

pub data Result {ℓ κ} (E : Type ℓ) (T : Type κ) : Type (ℓ ⊔ κ) where
  err : E → Result E T
  ok : T → Result E T

module _ {ℓ κ} {E : Type ℓ} {T : Type κ} where
  abbrev pub is_ok : Result E T → Bool
  is_ok (err _) = false
  is_ok (ok _) = true

  module _ {μ} {U : Type μ} where
    infixl 5 ◌>>=◌
    abbrev pub ◌>>=◌ : Result E T → (T → Result E U) → Result E U
    err reason >>= next = err reason
    ok value >>= next = next value

    pub >>=-eq-ok :
        (r : Result E T) (next : T → Result E U) {u : U}
        → (r >>= next) ≡ ok u
        → (value : T) × (r ≡ ok value) × (next value ≡ ok u)
    >>=-eq-ok (err reason) next e = cc
    >>=-eq-ok (ok value) next e = (value, refl, e)

  pub Result-cases : (r : Result E T) → ((e : E) × (r ≡ err e)) ⊎ ((value : T) × (r ≡ ok value))
  Result-cases (err e) = inl (e, refl)
  Result-cases (ok value) = inr (value, refl)

module _ {ℓ} {E : Type ℓ} where
  infixl 5 ◌>>◌
  abbrev pub ◌>>◌ {μ} : {U : Type μ} → Result E (Unit {0}) → Result E U → Result E U
  check >> rest = check >>= λ _. rest

  -- `if bad { return Err(reason); }`
  abbrev pub refuse_if : Bool → E → Result E (Unit {0})
  refuse_if false reason = ok tt
  refuse_if true reason = err reason

  -- `for x in xs { check(x)?; }`
  abbrev pub try_all {κ} : {T : Type κ} → (T → Result E (Unit {0})) → List T → Result E (Unit {0})
  try_all check [] = ok tt
  try_all check (x ∷ xs) = check x >> try_all check xs
