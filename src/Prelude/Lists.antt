-- ===== src/Prelude/Lists.antt =====
-- Lists measured by native numbers, Boolean quantifiers over lists, and predicates on all items.
use Prim.Native.Nat.{ℕ, zero, suc, ◌+◌}
use mathlib.Core.Path.{◌≡◌, refl}
use mathlib.Core.Logic.{◌⊎◌, inl, inr}
use mathlib.Core.Bool.{Bool, true, false, ◌&&◌, ◌||◌}
use mathlib.Core.List.{List, [], ◌∷◌, ◌++◌}
use native.Mathlib.Omega.{arith}
use nopager.Prelude.Tests.{Bool-cases}

module _ {ℓ} {A : Type ℓ} where
  abbrev pub length : List A → ℕ
  length [] = 0
  length (x ∷ xs) = suc (length xs)

  abbrev pub all : (A → Bool) → List A → Bool
  all p [] = true
  all p (x ∷ xs) = p x && all p xs

  abbrev pub any : (A → Bool) → List A → Bool
  any p [] = false
  any p (x ∷ xs) = p x || any p xs

  abbrev pub is_empty : List A → Bool
  is_empty [] = true
  is_empty (x ∷ xs) = false

  abbrev pub take : ℕ → List A → List A
  take zero xs = []
  take (suc n) [] = []
  take (suc n) (x ∷ xs) = x ∷ take n xs

  pub length-append : (xs ys : List A) → length (xs ++ ys) ≡ length xs + length ys
  length-append [] ys = omega arith
  length-append (x ∷ xs) ys = omega (arith, length-append xs ys)

module _ {ℓ κ} {A : Type ℓ} (P : A → Type κ) where
  abbrev pub All : List A → Type κ
  All [] = Unit
  All (x ∷ xs) = P x × All xs

module _ {ℓ} {A : Type ℓ} (P : A → Type 0) where
  abbrev pub Any : List A → Type 0
  Any [] = ⊥
  Any (x ∷ xs) = P x ⊎ Any xs

module _ {ℓ} {A : Type ℓ} (p : A → Bool) (P : A → Type 0) where
  pub any_sound : ((x : A) → p x ≡ true → P x) → (xs : List A) → any p xs ≡ true → Any P xs
  any_sound sound [] h = absurd (ground arith)
  any_sound sound (x ∷ xs) h = elim (Bool-cases (p x)) [
    | inl t ↦ inl (sound x t)
    | inr t ↦ inr (any_sound sound xs (ground arith))
  ]

  pub any_complete : ((x : A) → P x → p x ≡ true) → (xs : List A) → Any P xs → any p xs ≡ true
  any_complete complete [] h = absurd h
  any_complete complete (x ∷ xs) (inl h) = ground (arith, complete x h)
  any_complete complete (x ∷ xs) (inr h) = ground (arith, any_complete complete xs h)

  pub none_sound : ((x : A) → p x ≡ false → P x) → (xs : List A) → any p xs ≡ false → All P xs
  none_sound sound [] h = tt
  none_sound sound (x ∷ xs) h = (sound x (ground arith), none_sound sound xs (ground arith))

module _ {ℓ} {A : Type ℓ} (p : A → Bool) where
  pub all_sound : (xs : List A) → all p xs ≡ true → All (λ x. p x ≡ true) xs
  all_sound [] h = tt
  all_sound (x ∷ xs) h = (ground arith, all_sound xs (ground arith))

  pub all_complete : (xs : List A) → All (λ x. p x ≡ true) xs → all p xs ≡ true
  all_complete [] h = refl
  all_complete (x ∷ xs) h = ground (arith, all_complete xs h.1)
