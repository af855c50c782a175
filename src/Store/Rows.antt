-- ===== src/Store/Rows.antt =====
-- The statements of crates/nopager-db on the rows of a table: what a count, a search and an update say
-- of each other.
use nopager.Prelude.{
  ◌+◌, ◌≤◌, Bool, true, ◌≡◌, refl, arith, none, some, List, [], ◌∷◌, if◌then◌else◌, Bool-cases, inl,
  inr,
}
use nopager.Store.Schema.{find_row, update_rows, count_rows}

module _ {A : Type 0} where
  pub no_row : (p : A → Bool) (xs : List A) → find_row p xs ≡ none → count_rows p xs ≡ 0
  unfolding find_row count_rows
  no_row p [] h = refl
  no_row p (x ∷ xs) h = ground (arith, no_row p xs)

  module _ (test : A → Bool) (change : A → A) (count : A → Bool) where
    pub untouched :
        (xs : List A)
        → count_rows test xs ≡ 0
        → count_rows count (update_rows test change xs) ≡ count_rows count xs
    unfolding count_rows update_rows
    untouched [] h = refl
    untouched (x ∷ xs) h = ground (arith, untouched xs)

    -- An update of one row trades its contribution to a count.
    pub one_update :
        (xs : List A) {i : A}
        → find_row test xs ≡ some i
        → count_rows test xs ≤ 1
        → count_rows count (update_rows test change xs) + (if count i then 1 else 0)
          ≡ count_rows count xs + (if count (change i) then 1 else 0)
    unfolding find_row count_rows update_rows
    one_update [] {i} f h = ground arith
    one_update (x ∷ xs) {i} f h = elim (Bool-cases (test x)) [
      | inl t ↦ ground (arith, untouched xs)
      | inr t ↦ ground (arith, one_update xs {i = i})
    ]

  pub found_test : (p : A → Bool) (xs : List A) {i : A} → find_row p xs ≡ some i → p i ≡ true
  unfolding find_row
  found_test p [] {i} h = ground arith
  found_test p (x ∷ xs) {i} h = ground (arith, found_test p xs {i = i})

  pub fewer_rows :
      (p q : A → Bool)
      → ((x : A) → p x ≡ true → q x ≡ true)
      → (xs : List A) → count_rows p xs ≤ count_rows q xs
  unfolding count_rows
  fewer_rows p q h [] = omega arith
  fewer_rows p q h (x ∷ xs) = ground (arith, fewer_rows p q h xs, h x)
