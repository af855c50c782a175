-- ===== src/Connectors/SourceCompatibility/Laws.antt =====
-- What is accepted as the protected source: crates/nopager-connectors/src/source_compatibility.rs.
use nopager.Prelude.{
  ℕ, true, ◌&&◌, ◌≡◌, ◌↔◌, ◌⊎◌, inl, inr, arith, some, Text, text, Bool-cases, text_eq_iff, is_some,
  Option-cases, ok, eq_ignore_ascii_case,
}
use nopager.Connectors.Vercel.{
  ProjectDetails, ProjectLink, github_link, git_production_branch, non_blank, is_text,
}
use nopager.Connectors.Vercel.Laws.{is_text-some, is_text_of_some}
use nopager.Connectors.SourceCompatibility.{
  GitHubSourceIdentity, other_repository, other_id, check_repository, check_branch,
  validate_vercel_github_source,
}

-- The repository behind a link: no name and no id contradicts it, and one of the two proves it.
pub record IsRepository (link : ProjectLink) (expected : GitHubSourceIdentity) : Type 0 where
  pub same_name :
      {name : Text}
      → non_blank link.repo ≡ some name
      → eq_ignore_ascii_case name expected.repo ≡ true
  pub same_id :
      {id linked : ℕ} → expected.repo_id ≡ some id → link.repo_id ≡ some linked → id ≡ linked
  pub is_proved :
      (is_some (non_blank link.repo) ≡ true)
      ⊎ ((is_some expected.repo_id && is_some link.repo_id) ≡ true)

check_repository_iff :
    (link : ProjectLink) (expected : GitHubSourceIdentity)
    → (check_repository link expected ≡ ok tt) ↔ IsRepository link expected
unfolding check_repository other_repository other_id
check_repository_iff link expected = (
  (λ h. record {
    same_name = λ e. grind arith;
    same_id = λ e e1. grind arith;
    is_proved = grind arith;
  }),
  (λ r. grind (arith, r.same_name, r.same_id, r.is_proved)),
)

-- The project's link is to GitHub.
abbrev pub IsGitHubLink : ProjectDetails → ProjectLink → Type 0
IsGitHubLink project link =
    (project.link ≡ some link)
    × ((link.kind ≡ some (text "github")) ⊎ (link.kind ≡ some (text "github-limited")))

github_link-IsGitHubLink :
    (project : ProjectDetails) (link : ProjectLink)
    → github_link project ≡ some link
    → IsGitHubLink project link
unfolding github_link
github_link-IsGitHubLink project link h = elim (Option-cases project.link) [
  | inl e ↦ absurd (ground arith)
  | inr (named, e) ↦ elim (Bool-cases (is_text named.kind (text "github"))) [
    | inl t ↦ (ground arith, inl (is_text-some link.kind (text "github") (ground arith)))
    | inr t ↦ (ground arith, inr (is_text-some link.kind (text "github-limited") (ground arith)))
  ]
]

IsGitHubLink-github_link :
    (project : ProjectDetails) (link : ProjectLink)
    → IsGitHubLink project link
    → github_link project ≡ some link
unfolding github_link
IsGitHubLink-github_link project link (e, kind) = elim kind [
  | inl k ↦ ground (arith, is_text_of_some link.kind (text "github") k)
  | inr k ↦ ground (arith, is_text_of_some link.kind (text "github-limited") k)
]

-- The project is linked to GitHub, to the owner, repository and default branch that are protected.
pub record IsProtected (project : ProjectDetails) (expected : GitHubSourceIdentity) : Type 0 where
  pub link : ProjectLink
  pub owner : Text
  pub is_link : IsGitHubLink project link
  pub is_owner : non_blank link.org ≡ some owner
  pub same_owner : eq_ignore_ascii_case owner expected.owner ≡ true
  pub repository : IsRepository link expected
  pub same_branch : git_production_branch project ≡ some expected.default_branch

check_branch_iff :
    (project : ProjectDetails) (expected : GitHubSourceIdentity)
    → (check_branch project expected ≡ ok tt)
      ↔ (git_production_branch project ≡ some expected.default_branch)
unfolding check_branch
check_branch_iff project expected = grind (arith, text_eq_iff)

-- A Vercel project passes as the protected source exactly if it is linked to GitHub with the owner
-- that is protected, its repository is proved by name or by id and contradicted by neither, and its
-- production branch is the default branch that is protected.
pub validate_vercel_github_source_iff :
    (project : ProjectDetails) (expected : GitHubSourceIdentity)
    → (validate_vercel_github_source project expected ≡ ok tt) ↔ IsProtected project expected
unfolding validate_vercel_github_source
validate_vercel_github_source_iff project expected = (
  (λ h. elim (Option-cases (github_link project)) [
    | inl e ↦ absurd (ground arith)
    | inr (link, e) ↦ elim (Option-cases (non_blank link.org)) [
      | inl e1 ↦ absurd (ground arith)
      | inr (owner, e1) ↦ record {
        link = link;
        owner = owner;
        is_link = github_link-IsGitHubLink project link e;
        is_owner = e1;
        same_owner = ground arith;
        repository = (check_repository_iff link expected).0 (ground arith);
        same_branch = (check_branch_iff project expected).0 (ground arith);
      }
    ]
  ]),
  (λ p. grind (
    arith,
    IsGitHubLink-github_link project p.link p.is_link,
    p.is_owner,
    p.same_owner,
    (check_repository_iff p.link expected).1 p.repository,
    (check_branch_iff project expected).1 p.same_branch,
  )),
)
