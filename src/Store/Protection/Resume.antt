-- ===== src/Store/Protection/Resume.antt =====
-- Which incidents a resume restarts: crates/nopager-db/src/lib.rs, `set_protection_paused`.
use Prim.Native.String.{String}
use nopager.Prelude.{
  ℕ, ◌≤◌, ◌==◌, ◌&&◌, Bool, true, false, not, any, ◌≡◌, refl, ap, ◌∙◌, arith, List, [], ◌∷◌,
  Bool-cases, inl, inr,
}
use nopager.Store.Schema.{Database, IncidentRow, update_rows, count_rows}
use nopager.Store.Rows.{fewer_rows}
use nopager.Store.Protection.{
  ids_where, for_each, is_paused_incident, restart_row, resume_incident, is_paused_of,
  resume_project, change_project, set_protection_paused, enqueue_resume,
}

-- The incidents after the updates of a loop.
sweep : List ℕ → List IncidentRow → List IncidentRow
sweep [] rows = rows
sweep (id ∷ ids) rows = sweep ids (update_rows (is_paused_incident id) restart_row rows)

abbrev pub has : List ℕ → ℕ → Bool
has ids id = any (λ n. n == id) ids

abbrev is_missed : ℕ → List ℕ → IncidentRow → Bool
is_missed project ids i = is_paused_of project i && not (has ids i.id)

resume_incident-incidents :
    (project : ℕ) (actor : String) (id : ℕ) (db : Database)
    → (resume_incident project actor id db).incidents
      ≡ update_rows (is_paused_incident id) restart_row db.incidents
unfolding resume_incident enqueue_resume
resume_incident-incidents project actor id db = ground arith

loop-incidents :
    (project : ℕ) (actor : String) (ids : List ℕ) (db : Database)
    → (for_each ids (resume_incident project actor) db).incidents ≡ sweep ids db.incidents
unfolding for_each sweep
loop-incidents project actor [] db = refl
loop-incidents project actor (id ∷ ids) db =
    loop-incidents project actor ids (resume_incident project actor id db)
    ∙ ap (sweep ids) (resume_incident-incidents project actor id db)

still_covered :
    (project id : ℕ) (ids : List ℕ) (rows : List IncidentRow)
    → count_rows (is_missed project (id ∷ ids)) rows ≡ 0
    → count_rows (is_missed project ids) (update_rows (is_paused_incident id) restart_row rows) ≡ 0
unfolding count_rows update_rows
still_covered project id ids [] h = refl
still_covered project id ids (i ∷ rows) h = ground (arith, still_covered project id ids rows)

covered_swept :
    (project : ℕ) (ids : List ℕ) (rows : List IncidentRow)
    → count_rows (is_missed project ids) rows ≡ 0
    → count_rows (is_paused_of project) (sweep ids rows) ≡ 0
unfolding sweep
covered_swept project [] rows h =
    omega
      (arith, fewer_rows (is_paused_of project) (is_missed project []) (λ i t. ground arith) rows)
covered_swept project (id ∷ ids) rows h =
    covered_swept project ids _ (still_covered project id ids rows h)

selected_covered :
    (project : ℕ) (ids : List ℕ) (rows : List IncidentRow)
    → ((id : ℕ)
        → has (ids_where (is_paused_of project) (λ i. i.id) rows) id ≡ true
        → has ids id ≡ true)
    → count_rows (is_missed project ids) rows ≡ 0
unfolding ids_where count_rows
selected_covered project ids [] h = refl
selected_covered project ids (i ∷ rows) h = elim (Bool-cases (is_paused_of project i)) [
  | inl t ↦
      let rest = selected_covered project ids rows (λ id f. h id (ground arith)) in
      let own = h i.id (ground arith) in ground (arith, rest, own)
  | inr t ↦ ground (arith, selected_covered project ids rows (λ id f. h id (ground arith)))
]

fewer_paused :
    (project id : ℕ) (rows : List IncidentRow)
    → count_rows (is_paused_of project) (update_rows (is_paused_incident id) restart_row rows)
      ≤ count_rows (is_paused_of project) rows
unfolding count_rows update_rows
fewer_paused project id [] = omega arith
fewer_paused project id (i ∷ rows) = ground (arith, fewer_paused project id rows)

fewer_swept :
    (project : ℕ) (ids : List ℕ) (rows : List IncidentRow)
    → count_rows (is_paused_of project) (sweep ids rows) ≤ count_rows (is_paused_of project) rows
unfolding sweep
fewer_swept project [] rows = omega arith
fewer_swept project (id ∷ ids) rows = omega (
  arith,
  fewer_swept project ids (update_rows (is_paused_incident id) restart_row rows),
  fewer_paused project id rows,
)

resume_project-incidents :
    (actor : String) (project : ℕ) (db : Database)
    → (change_project false actor project db).incidents
      ≡ sweep (ids_where (is_paused_of project) (λ i. i.id) db.incidents) db.incidents
unfolding change_project resume_project
resume_project-incidents actor project db = loop-incidents project actor _ _

resumed :
    (actor : String) (project : ℕ) (db : Database)
    → count_rows (is_paused_of project) (change_project false actor project db).incidents ≡ 0
resumed actor project db =
    let ids = ids_where (is_paused_of project) (λ i. i.id) db.incidents in
    ap (count_rows (is_paused_of project)) (resume_project-incidents actor project db)
    ∙ covered_swept project ids db.incidents (selected_covered project ids db.incidents (λ id f. f))

fewer_resumed :
    (actor : String) (project : ℕ) (ids : List ℕ) (db : Database)
    → count_rows (is_paused_of project) (for_each ids (change_project false actor) db).incidents
      ≤ count_rows (is_paused_of project) db.incidents
unfolding for_each
fewer_resumed actor project [] db = omega arith
fewer_resumed actor project (id ∷ ids) db =
    let next = change_project false actor id db in
    let same = ap (count_rows (is_paused_of project)) (resume_project-incidents actor id db) in
    omega (
      arith,
      same,
      fewer_resumed actor project ids next,
      fewer_swept project (ids_where (is_paused_of id) (λ i. i.id) db.incidents) db.incidents,
    )

none_paused :
    (actor : String) (project : ℕ) (ids : List ℕ) (db : Database)
    → has ids project ≡ true
    → count_rows (is_paused_of project) (for_each ids (change_project false actor) db).incidents ≡ 0
unfolding for_each
none_paused actor project [] db h = absurd (ground arith)
none_paused actor project (id ∷ ids) db h =
    let next = change_project false actor id db in
    elim (Bool-cases (id == project)) [
      | inl own ↦
          let zero = resumed actor id db in
          ground (arith, fewer_resumed actor project ids next, zero)
      | inr other ↦ none_paused actor project ids next (ground arith)
    ]

-- A resume leaves no incident paused in a project that it resumes.
pub set_protection_paused-resumed :
    (actor : String) (project : ℕ) (db : Database)
    → has (set_protection_paused false actor db).0 project ≡ true
    → count_rows (is_paused_of project) (set_protection_paused false actor db).1.incidents ≡ 0
unfolding set_protection_paused
set_protection_paused-resumed actor project db h = none_paused actor project _ _ h
