-- ===== src/Helper/Backend/Parse/RoundTrip.antt =====
-- Parsing what Docker prints for a container gives its state back: apps/runtime-helper/src/lib.rs.
use nopager.Prelude.{
  eq_ignore_ascii_case, Lacks, ℕ, true, false, ◌≡◌, refl, ◌≢◌, arith, [], ◌∷◌, ◌++◌, Text, text,
  trim, trim_start, trim_end, trim_end_cons, is_whitespace, is_empty, byte_len, ok, Bool-cases, inl,
  inr,
}
use nopager.Protocol.{ContainerState}
use nopager.Helper.Config.{valid_container_id, valid_container_name}
use nopager.Helper.Backend.Parse.{
  split_tab, trim_slashes, optional_template_value, parse_fields, parse_inspect_output,
}
use nopager.Helper.Backend.Parse.Columns.{first_line-append, split_tab-append, split_tab-one}

-- The six columns of `INSPECT_FORMAT`, and the line that Docker prints for them.
pub record Columns : Type 0 where
  pub id : Text
  pub name : Text
  pub status : Text
  pub project : Text
  pub service : Text
  pub label : Text

unfoldable pub inspect_line : Columns → Text
inspect_line c =
    c.id
    ++ (9
        ∷ (b'/'
            ∷ (c.name
                ++ (9 ∷ (c.status ++ (9 ∷ (c.project ++ (9 ∷ (c.service ++ (9 ∷ c.label))))))))))

-- A column: no tab, no line feed, no blank at its ends.
pub record IsColumn (s : Text) : Type 0 where
  pub no_tab : Lacks 9 s
  pub no_newline : Lacks 10 s
  pub trimmed_start : trim_start s ≡ s
  pub trimmed_end : trim_end s ≡ s

Lacks-append : (c : ℕ) (s t : Text) → Lacks c s → Lacks c t → Lacks c (s ++ t)
Lacks-append c [] t h k = k
Lacks-append c (d ∷ s) t h k = (h.0, Lacks-append c s t h.1 k)

is_empty-append : (s t : Text) → is_empty t ≡ false → is_empty (s ++ t) ≡ false
is_empty-append [] t h = h
is_empty-append (c ∷ s) t h = refl

trim_end_cons_lem : (c : ℕ) (s : Text) → is_empty s ≡ false → trim_end_cons c s ≡ c ∷ s
trim_end_cons_lem c [] h = cc
trim_end_cons_lem c (d ∷ s) h = refl

trim_end-append : (s t : Text) → trim_end t ≡ t → is_empty t ≡ false → trim_end (s ++ t) ≡ s ++ t
unfolding trim_end
trim_end-append [] t h k = h
trim_end-append (c ∷ s) t h k =
    rw (trim_end-append s t h k) (trim_end_cons_lem c (s ++ t) (is_empty-append s t k))

ink-trim_start : (s : Text) (c : ℕ) (r : Text) → trim_start s ≡ c ∷ r → is_whitespace c ≡ false
unfolding trim_start
ink-trim_start [] c r h = cc
ink-trim_start (d ∷ s) c r h = elim (Bool-cases (is_whitespace d)) [
  | inl blank ↦ ink-trim_start s c r (rw blank at h)
  | inr ink ↦ let e : d ∷ s ≡ c ∷ r = (rw ink at h) in ground arith
]

trim_start-append :
    (s t : Text) → trim_start s ≡ s → is_empty s ≡ false → trim_start (s ++ t) ≡ s ++ t
trim_start-append [] t h k = cc
trim_start-append (c ∷ s) t h k = unfold trim_start in rw (ink-trim_start (c ∷ s) c s h)

trim-IsColumn : (s : Text) → IsColumn s → trim s ≡ s
unfolding trim
trim-IsColumn s h = rw (h.trimmed_start) h.trimmed_end

-- What makes the columns a container's: a valid id and name, and no empty status or label.
pub record IsPrinted (c : Columns) : Type 0 where
  pub id : IsColumn c.id
  pub name : IsColumn c.name
  pub status : IsColumn c.status
  pub project : IsColumn c.project
  pub service : IsColumn c.service
  pub label : IsColumn c.label
  pub valid_id : valid_container_id c.id ≡ true
  pub valid_name : valid_container_name c.name ≡ true
  pub some_status : is_empty c.status ≡ false
  pub some_label : is_empty c.label ≡ false

-- The state that the columns describe.
unfoldable pub state_of : Columns → ContainerState
state_of c = record {
  id = c.id;
  name = c.name;
  status = c.status;
  compose_project = optional_template_value c.project;
  compose_service = optional_template_value c.service;
  nopager_control_plane = eq_ignore_ascii_case c.label (text "true");
}

trim_slashes_lem : (n : Text) → valid_container_name n ≡ true → trim_slashes n ≡ n
unfolding trim_slashes valid_container_name
trim_slashes_lem [] v = refl
trim_slashes_lem (c ∷ n) v = ground arith

slashed_name :
    (n : Text) → IsColumn n → valid_container_name n ≡ true → trim_slashes (trim (b'/' ∷ n)) ≡ n
unfolding trim trim_start trim_end trim_slashes
slashed_name [] h v = refl
slashed_name (c ∷ n) h v = rw (h.trimmed_end) (trim_slashes_lem (c ∷ n) v)

parse_fields-state_of :
    (c : Columns)
    → IsPrinted c
    → parse_fields (c.id ∷ (b'/' ∷ c.name) ∷ c.status ∷ c.project ∷ c.service ∷ c.label ∷ [])
      ≡ ok (state_of c)
unfolding parse_fields state_of
parse_fields-state_of c h = rw (
  trim-IsColumn c.id h.id,
  slashed_name c.name h.name h.valid_name,
  trim-IsColumn c.status h.status,
  trim-IsColumn c.label h.label,
  h.valid_id,
  h.valid_name,
  h.some_status,
)

split_tab-inspect_line :
    (c : Columns)
    → IsPrinted c
    → split_tab (inspect_line c)
      ≡ c.id ∷ (b'/' ∷ c.name) ∷ c.status ∷ c.project ∷ c.service ∷ c.label ∷ []
unfolding inspect_line
split_tab-inspect_line c h = rw (
  split_tab-append c.id _ h.id.no_tab,
  split_tab-append (b'/' ∷ c.name) _ (omega arith, h.name.no_tab),
  split_tab-append c.status _ h.status.no_tab,
  split_tab-append c.project _ h.project.no_tab,
  split_tab-append c.service _ h.service.no_tab,
  split_tab-one c.label h.label.no_tab,
)

-- A text that ends in something other than a blank.
abbrev HasInkEnd : Text → Type 0
HasInkEnd s = (trim_end s ≡ s) × (is_empty s ≡ false)

HasInkEnd-append : (s t : Text) → HasInkEnd t → HasInkEnd (s ++ t)
HasInkEnd-append s t (e, k) = (trim_end-append s t e k, is_empty-append s t k)

HasInkEnd-cons : (c : ℕ) (t : Text) → HasInkEnd t → HasInkEnd (c ∷ t)
HasInkEnd-cons c t e = HasInkEnd-append (c ∷ []) t e

some_id : (t : Text) → valid_container_id t ≡ true → is_empty t ≡ false
unfolding valid_container_id byte_len
some_id [] v = ground arith
some_id (c ∷ t) v = refl

inspect_line-Lacks : (c : Columns) → IsPrinted c → Lacks 10 (inspect_line c)
unfolding inspect_line
inspect_line-Lacks c h =
    let tab : ◌≢◌ {A = ℕ} 9 10 = omega arith in
    let add =
      λ (a b : Text) (p : Lacks 10 a) (q : Lacks 10 b). Lacks-append 10 a (9 ∷ b) p (tab, q) in
    add c.id _ h.id.no_newline (
      omega arith,
      add c.name _ h.name.no_newline (
          add c.status _ h.status.no_newline (
            add c.project _ h.project.no_newline
              (add c.service _ h.service.no_newline h.label.no_newline))),
    )

trim-inspect_line : (c : Columns) → IsPrinted c → trim (inspect_line c) ≡ inspect_line c
unfolding trim inspect_line
trim-inspect_line c h =
    let add = λ (a b : Text) (e : HasInkEnd b). HasInkEnd-append a (9 ∷ b) (HasInkEnd-cons 9 b e) in
    let end = HasInkEnd-cons b'/' _ (
      add c.name _ (
        add c.status _
          (add c.project _ (add c.service c.label (h.label.trimmed_end, h.some_label))))) in
    rw (trim_start-append c.id _ h.id.trimmed_start (some_id c.id h.valid_id)) (add c.id _ end).0

-- For every container whose printed columns hold no tab, no line feed and no blank at their ends,
-- whose id and name are valid, and whose status and control-plane label are not empty, parsing the
-- line that Docker prints gives the state that the columns describe.
pub parse_inspect_output-inspect_line :
    (c : Columns) → IsPrinted c → parse_inspect_output (inspect_line c ++ 10 ∷ []) ≡ ok (state_of c)
unfolding parse_inspect_output
parse_inspect_output-inspect_line c h =
    let one_line = first_line-append (inspect_line c) [] (inspect_line-Lacks c h) in
    rw (one_line, trim-inspect_line c h, split_tab-inspect_line c h) (parse_fields-state_of c h)
