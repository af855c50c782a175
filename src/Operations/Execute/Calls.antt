-- ===== src/Operations/Execute/Calls.antt =====
-- What one run of apps/worker/src/operations_runtime.rs does to the rows of an action and to the log
-- of the helper calls.
use nopager.Prelude.{
  ℕ, ◌≤◌, Bool, true, false, ◌&&◌, ◌≡◌, refl, arith, List, [], ◌∷◌, any, ◌==◌, ◌∙◌, is_some,
}
use nopager.Store.Schema.{
  Database, ActionRow, ActionStatus, planned, approval_required, running, update_rows, find_row,
  count_rows,
}
use nopager.Operations.Execute.{mark_operation_status}

abbrev pub is_open_status : ActionStatus → Bool
is_open_status planned = true
is_open_status approval_required = true
is_open_status _ = false

-- A row of the action that a run may still claim, now or after an approval.
abbrev pub is_open : ℕ → ActionRow → Bool
is_open k a = a.id == k && is_open_status a.status

abbrev pub has_id : ℕ → ActionRow → Bool
has_id k a = a.id == k

module _ (k : ℕ) where
  -- Nothing opens the action again, and its rows stay as many.
  pub record IsQuiet (before after : List ActionRow) : Type 0 where
    pub closed : any (is_open k) before ≡ false → any (is_open k) after ≡ false
    pub rows : count_rows (has_id k) after ≡ count_rows (has_id k) before

  pub IsQuiet-refl : {xs ys : List ActionRow} → ys ≡ xs → IsQuiet xs ys
  IsQuiet-refl e = record { closed = rw e (λ h. h); rows = rw e refl }

  pub IsQuiet-trans : {xs ys zs : List ActionRow} → IsQuiet xs ys → IsQuiet ys zs → IsQuiet xs zs
  IsQuiet-trans p q = record { closed = λ h. q.closed (p.closed h); rows = q.rows ∙ p.rows }

  module _ (test : ActionRow → Bool) (change : ActionRow → ActionRow)
      (keeps_id : (a : ActionRow) → (change a).id ≡ a.id)
      (opens_none : (a : ActionRow)
        → test a ≡ true
        → is_open k a ≡ false
        → is_open k (change a) ≡ false) where
    pub update_rows-IsQuiet : (xs : List ActionRow) → IsQuiet xs (update_rows test change xs)
    unfolding update_rows count_rows
    update_rows-IsQuiet [] = IsQuiet-refl refl
    update_rows-IsQuiet (x ∷ xs) = record {
      closed = λ h. ground (arith, (update_rows-IsQuiet xs).closed, opens_none x);
      rows = ground (arith, (update_rows-IsQuiet xs).rows, keeps_id x);
    }

  pub mark-IsQuiet :
      (id : ℕ) (s : ActionStatus) (db : Database)
      → is_open_status s ≡ false
      → IsQuiet db.actions (mark_operation_status id s db).actions
  unfolding mark_operation_status
  mark-IsQuiet id s db h =
      update_rows-IsQuiet (λ a. a.id == id) (λ a. record a { status = s }) (λ a. refl)
        (λ a _ _. ground arith) db.actions

  no_row-closed : (xs : List ActionRow) → count_rows (has_id k) xs ≡ 0 → any (is_open k) xs ≡ false
  unfolding count_rows
  no_row-closed [] h = refl
  no_row-closed (x ∷ xs) h = ground (arith, no_row-closed xs)

  module _ (mine : ActionRow → Bool)
      (own : (a : ActionRow) → mine a ≡ true → is_open k a ≡ true) where
    found_rows :
        (xs : List ActionRow) → is_some (find_row mine xs) ≡ true → 1 ≤ count_rows (has_id k) xs
    unfolding count_rows find_row
    found_rows [] h = ground arith
    found_rows (x ∷ xs) h = ground (arith, found_rows xs, own x)

    -- The claim of a planned row leaves none that is open, where the action has one row.
    pub claim_closes :
        (xs : List ActionRow)
        → count_rows (has_id k) xs ≤ 1
        → is_some (find_row mine xs) ≡ true
        → any (is_open k) (update_rows mine (λ a. record a { status = running }) xs) ≡ false
    unfolding update_rows count_rows find_row
    claim_closes [] one found = ground arith
    claim_closes (x ∷ xs) one found = ground (
      arith,
      own x,
      found_rows xs,
      claim_closes xs,
      no_row-closed xs,
      (update_rows-IsQuiet mine (λ a. record a { status = running }) (λ a. refl)
          (λ a _ _. ground arith) xs).closed,
    )

    -- There is an open row before the claim.
    pub claim_needs_open :
        (xs : List ActionRow) → is_some (find_row mine xs) ≡ true → any (is_open k) xs ≡ true
    unfolding find_row
    claim_needs_open [] h = ground arith
    claim_needs_open (x ∷ xs) h = ground (arith, own x, claim_needs_open xs)
