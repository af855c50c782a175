-- ===== src/Store/Deployments/Laws.antt =====
-- The baseline that a rollback restores: `mark_deployment_known_good` of crates/nopager-db/src/lib.rs.
use nopager.Prelude.{
  ℕ, ◌+◌, ◌≤◌, ◌==◌, ==_iff, true, false, ◌≡◌, ◌≢◌, refl, arith, some, List, [], ◌∷◌, Text, text,
  text_eq, text_eq_of_eq, ◌∙◌, ok, Bool-cases, inl, inr,
}
use nopager.Store.Schema.{Database, DeploymentRow, count_rows, update_rows, find_row}
use nopager.Store.Rows.{found_test}
use nopager.Store.Deployments.{
  is_deployment, is_production, is_known_good, clear_known_good, set_known_good,
  mark_deployment_known_good, latest_known_good_deployment,
}

-- At most one deployment of a project is a known-good production deployment.
abbrev pub HasOneBaseline : ℕ → List DeploymentRow → Type 0
HasOneBaseline project ds = count_rows (is_known_good project) ds ≤ 1

-- No known-good production row is left of the project; the other projects keep theirs.
clear-count :
    (project other : ℕ) (ds : List DeploymentRow)
    → count_rows (is_known_good other) (clear_known_good project ds)
      ≤ count_rows (is_known_good other) ds
unfolding clear_known_good update_rows count_rows
clear-count project other [] = omega arith
clear-count project other (d ∷ ds) = ground (arith, clear-count project other ds)

clear-own :
    (project : ℕ) (ds : List DeploymentRow)
    → count_rows (is_known_good project) (clear_known_good project ds) ≡ 0
unfolding clear_known_good update_rows count_rows
clear-own project [] = refl
clear-own project (d ∷ ds) = ground (arith, clear-own project ds)

clear-deployments :
    (project other : ℕ) (id : Text) (ds : List DeploymentRow)
    → count_rows (is_deployment other id) (clear_known_good project ds)
      ≡ count_rows (is_deployment other id) ds
unfolding clear_known_good update_rows count_rows
clear-deployments project other id [] = refl
clear-deployments project other id (d ∷ ds) = ground (arith, clear-deployments project other id ds)

set-own :
    (project : ℕ) (id : Text) (ds : List DeploymentRow)
    → count_rows (is_known_good project) (set_known_good project id ds)
      ≤ count_rows (is_known_good project) ds + count_rows (is_deployment project id) ds
unfolding set_known_good update_rows count_rows
set-own project id [] = omega arith
set-own project id (d ∷ ds) = ground (arith, set-own project id ds)

set-other :
    (project other : ℕ) (id : Text) (ds : List DeploymentRow)
    → other ≢ project
    → count_rows (is_known_good other) (set_known_good project id ds)
      ≡ count_rows (is_known_good other) ds
unfolding set_known_good update_rows count_rows
set-other project other id [] h = refl
set-other project other id (d ∷ ds) h = ground (arith, set-other project other id ds h)

marked_rows :
    (project : ℕ) (id : Text) (db : Database) {db' : Database}
    → mark_deployment_known_good project id db ≡ ok db'
    → (count_rows (is_deployment project id) db.deployments ≡ 1)
      × (db'.deployments ≡ set_known_good project id (clear_known_good project db.deployments))
unfolding mark_deployment_known_good
marked_rows project id db h = grind arith

own_baseline :
    (project : ℕ) (id : Text) (db db' : Database)
    → db'.deployments ≡ set_known_good project id (clear_known_good project db.deployments)
    → count_rows (is_deployment project id) db.deployments ≡ 1
    → HasOneBaseline project db'.deployments
own_baseline project id db db' e c = rw e (
    omega (
      arith,
      c,
      set-own project id (clear_known_good project db.deployments),
      clear-own project db.deployments,
      clear-deployments project project id db.deployments,
    ))

other_baseline :
    (project other : ℕ) (id : Text) (db db' : Database)
    → db'.deployments ≡ set_known_good project id (clear_known_good project db.deployments)
    → HasOneBaseline other db.deployments
    → count_rows (is_deployment project id) db.deployments ≡ 1
    → HasOneBaseline other db'.deployments
other_baseline project other id db db' e k c = elim (Bool-cases (other == project)) [
  | inl same ↦ rw ((==_iff other project).0 same) (own_baseline project id db db' e c)
  | inr differs ↦ rw e (
      omega (
        arith,
        k,
        set-other project other id (clear_known_good project db.deployments) (ground arith),
        clear-count project other db.deployments,
      ))
]

-- Marking a deployment as known good leaves its project at most one known-good production deployment,
-- whatever there was before, and keeps every other project at most one that had so.
pub mark_deployment_known_good-HasOneBaseline :
    (project other : ℕ) (id : Text) (db : Database) {db' : Database}
    → mark_deployment_known_good project id db ≡ ok db'
    → (HasOneBaseline project db'.deployments)
      × (HasOneBaseline other db.deployments → HasOneBaseline other db'.deployments)
mark_deployment_known_good-HasOneBaseline project other id db {db'} h =
    let (c, e) = marked_rows project id db h in
    (own_baseline project id db db' e c, (λ k. other_baseline project other id db db' e k c))

find_marked :
    (project : ℕ) (id : Text) (ds : List DeploymentRow) {d : DeploymentRow}
    → count_rows (is_known_good project) ds ≡ 0
    → find_row (is_deployment project id) ds ≡ some d
    → text_eq d.environment (text "production") ≡ true
    → find_row (is_known_good project) (set_known_good project id ds)
      ≡ some (record d { known_good = true; status = text "READY" })
unfolding set_known_good update_rows count_rows find_row
find_marked project id [] {d} z f p = absurd (ground arith)
find_marked project id (x ∷ ds) {d} z f p = elim (Bool-cases (is_deployment project id x)) [
  | inl e ↦ ground arith
  | inr e ↦ ground (arith, find_marked project id ds {d = d})
]

find_cleared :
    (project : ℕ) (id : Text) (ds : List DeploymentRow) {d : DeploymentRow}
    → find_row (is_deployment project id) ds ≡ some d
    → (d' : DeploymentRow) × (find_row (is_deployment project id) (clear_known_good project ds)
        ≡ some d')
      × (d'.environment ≡ d.environment)
unfolding clear_known_good update_rows find_row
find_cleared project id [] {d} f = absurd (ground arith)
find_cleared project id (x ∷ ds) {d} f = elim (Bool-cases (is_deployment project id x)) [
  | inl e ↦ elim (Bool-cases (is_production project x)) [
    | inl p ↦ (record x { known_good = false }, ground arith, ground arith)
    | inr p ↦ (x, ground arith, ground arith)
  ]
  | inr e ↦
      let (d', f', same) = find_cleared project id ds {d = d} (ground arith) in
      (d', ground (arith, f'), same)
]

-- After a production deployment has been marked as known good, it is the one that a rollback of the
-- project restores.
pub mark_deployment_known_good-latest_known_good_deployment :
    (project : ℕ) (id : Text) (db : Database) {db' : Database} {d : DeploymentRow}
    → mark_deployment_known_good project id db ≡ ok db'
    → find_row (is_deployment project id) db.deployments ≡ some d
    → d.environment ≡ text "production"
    → (row : DeploymentRow) × (latest_known_good_deployment project db' ≡ some row)
      × (is_deployment project id row ≡ true)
      × (row.status ≡ text "READY")
unfolding latest_known_good_deployment
mark_deployment_known_good-latest_known_good_deployment project id db {db'} {d} h f p =
    let (c, e) = marked_rows project id db h in
    let (d', f', same) = find_cleared project id db.deployments {d = d} f in
    (
      record d' { known_good = true; status = text "READY" },
      rw e (
          find_marked project id (clear_known_good project db.deployments)
            (clear-own project db.deployments) f' (text_eq_of_eq _ _ (same ∙ p))),
      found_test (is_deployment project id) (clear_known_good project db.deployments) f',
      refl,
    )
