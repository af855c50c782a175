-- ===== src/Connectors/SourceCompatibility.antt =====
-- crates/nopager-connectors/src/source_compatibility.rs: is the repository that Vercel deploys the one
-- that is protected?
pub mod Laws
use nopager.Prelude.{
  ℕ, Bool, false, not, ◌&&◌, ◌||◌, Option, none, some, Text, text_eq, is_some, eq_ignore_ascii_case,
  ◌==◌, if◌then◌else◌, Result, ok, err, ◌>>◌, refuse_if,
}
use nopager.Connectors.Vercel.{
  ProjectDetails, ProjectLink, github_link, git_production_branch, non_blank,
}

pub record GitHubSourceIdentity : Type 0 where
  pub owner : Text
  pub repo : Text
  pub repo_id : Option ℕ
  pub default_branch : Text

pub data SourceCompatibilityError : Type 0 where
  unsupported_git_link missing_owner owner_mismatch repository_mismatch repository_id_mismatch
        missing_repository_identity missing_production_branch production_branch_mismatch :
      SourceCompatibilityError

unfoldable pub other_repository : Option Text → Text → Bool
other_repository none expected = false
other_repository (some linked) expected = not (eq_ignore_ascii_case linked expected)

unfoldable pub other_id : Option ℕ → Option ℕ → Bool
other_id (some expected) (some linked) = not (expected == linked)
other_id _ _ = false

unfoldable pub check_repository :
    ProjectLink → GitHubSourceIdentity → Result SourceCompatibilityError (Unit {0})
check_repository link expected =
    let linked_repo = non_blank link.repo in
    refuse_if (other_repository linked_repo expected.repo)
      SourceCompatibilityError.repository_mismatch
    >> (refuse_if (other_id expected.repo_id link.repo_id)
          SourceCompatibilityError.repository_id_mismatch
        >> refuse_if
            (not (is_some linked_repo)
              && (not (is_some expected.repo_id) || not (is_some link.repo_id)))
            SourceCompatibilityError.missing_repository_identity)

unfoldable pub check_branch :
    ProjectDetails → GitHubSourceIdentity → Result SourceCompatibilityError (Unit {0})
check_branch project expected = elim (git_production_branch project) [
  | none ↦ err SourceCompatibilityError.missing_production_branch
  | some branch ↦
      if text_eq branch expected.default_branch
      then ok tt
      else err SourceCompatibilityError.production_branch_mismatch
]

unfoldable pub validate_vercel_github_source :
    ProjectDetails → GitHubSourceIdentity → Result SourceCompatibilityError (Unit {0})
validate_vercel_github_source project expected = elim (github_link project) [
  | none ↦ err SourceCompatibilityError.unsupported_git_link
  | some link ↦ elim (non_blank link.org) [
    | none ↦ err SourceCompatibilityError.missing_owner
    | some owner ↦
        if not (eq_ignore_ascii_case owner expected.owner)
        then err SourceCompatibilityError.owner_mismatch
        else check_repository link expected >> check_branch project expected
  ]
]
