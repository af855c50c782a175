-- ===== src/Helper/Backend/Parse/Columns.antt =====
-- What `parse_inspect_output` (apps/runtime-helper/src/lib.rs) makes of the columns that Docker prints.
use nopager.Prelude.{
  Lacks, ℕ, suc, ◌≤◌, ◌<◌, ◌≡◌, refl, inl, inr, arith, List, [], ◌∷◌, ◌++◌, Text, trim, trim_start,
  trim_end, is_whitespace, length, ◌==◌, if◌then◌else◌, err, Bool-cases,
}
use nopager.Helper.Backend.{invalid_inspect_output}
use nopager.Helper.Backend.Parse.{first_line, split_tab, parse_fields, parse_inspect_output}

abbrev pub tabs : Text → ℕ
tabs [] = 0
tabs (c ∷ s) = let rest = tabs s in if c == 9 then suc rest else rest

pub first_line-append : (s r : Text) → Lacks 10 s → first_line (s ++ 10 ∷ r) ≡ s
unfolding first_line
first_line-append [] r h = refl
first_line-append (c ∷ s) r h = ground (arith, first_line-append s r h.1)

first_line-tab : (s : Text) → Lacks 10 s → first_line (s ++ 9 ∷ 10 ∷ []) ≡ s ++ 9 ∷ []
unfolding first_line
first_line-tab [] h = refl
first_line-tab (c ∷ s) h = ground (arith, first_line-tab s h.1)

pub split_tab-append : (s r : Text) → Lacks 9 s → split_tab (s ++ 9 ∷ r) ≡ s ∷ split_tab r
unfolding split_tab
split_tab-append [] r h = refl
split_tab-append (c ∷ s) r h = ground (arith, split_tab-append s r h.1)

pub split_tab-one : (s : Text) → Lacks 9 s → split_tab s ≡ s ∷ []
unfolding split_tab
split_tab-one [] h = refl
split_tab-one (c ∷ s) h = ground (arith, split_tab-one s h.1)

length-split_tab : (s : Text) → length (split_tab s) ≡ suc (tabs s)
unfolding split_tab
length-split_tab [] = refl
length-split_tab (c ∷ s) = ground (arith, length-split_tab s)

tabs-trim_start : (s : Text) → tabs (trim_start s) ≤ tabs s
unfolding trim_start
tabs-trim_start [] = omega arith
tabs-trim_start (c ∷ s) = ground (arith, tabs-trim_start s)

tabs-trim_end : (s : Text) → tabs (trim_end s) ≤ tabs s
unfolding trim_end
tabs-trim_end [] = omega arith
tabs-trim_end (c ∷ s) = ground (arith, tabs-trim_end s)

-- A tab at the end goes with the blanks.
trim_end-tab : (s : Text) → trim_end (s ++ 9 ∷ []) ≡ trim_end s
unfolding trim_end
trim_end-tab [] = refl
trim_end-tab (c ∷ s) = rw (trim_end-tab s)

tabs-trim_tab : (s : Text) → tabs (trim (s ++ 9 ∷ [])) ≤ tabs s
unfolding trim trim_start
tabs-trim_tab [] = omega arith
tabs-trim_tab (c ∷ s) = elim (Bool-cases (is_whitespace c)) [
  | inl blank ↦ rw blank (ground (arith, tabs-trim_tab s))
  | inr ink ↦ rw (ink, trim_end-tab (c ∷ s)) (tabs-trim_end (c ∷ s))
]

parse_fields_few : (ps : List Text) → length ps < 6 → parse_fields ps ≡ err invalid_inspect_output
unfolding parse_fields
parse_fields_few [] h = refl
parse_fields_few (_ ∷ []) h = refl
parse_fields_few (_ ∷ _ ∷ []) h = refl
parse_fields_few (_ ∷ _ ∷ _ ∷ []) h = refl
parse_fields_few (_ ∷ _ ∷ _ ∷ _ ∷ []) h = refl
parse_fields_few (_ ∷ _ ∷ _ ∷ _ ∷ _ ∷ []) h = refl
parse_fields_few (_ ∷ _ ∷ _ ∷ _ ∷ _ ∷ _ ∷ ps) h = absurd (omega arith)

-- A line of five columns and an empty sixth one is refused, whatever the five hold: the line is
-- trimmed before it is split, and the tab before the empty column goes with the blanks.
pub parse-empty_last_column :
    (s : Text)
    → Lacks 10 s
    → tabs s ≤ 4
    → parse_inspect_output (s ++ 9 ∷ 10 ∷ []) ≡ err invalid_inspect_output
unfolding parse_inspect_output
parse-empty_last_column s no_newline few =
    rw (first_line-tab s no_newline)
      (parse_fields_few _ (omega (arith, length-split_tab (trim (s ++ 9 ∷ [])), tabs-trim_tab s)))
