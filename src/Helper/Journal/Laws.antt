-- ===== src/Helper/Journal/Laws.antt =====
-- What a claim and a completion leave in the journal: apps/runtime-helper/src/lib.rs.
use nopager.Prelude.{
  ℕ, Bool, true, false, ◌≡◌, refl, arith, some, [], ◌∷◌, Text, ◌==◌, if◌then◌else◌, is_some, ok,
}
use nopager.Protocol.{RuntimeResponse}
use nopager.Helper.Journal.{
  Journal, JournalFile, ClaimResult, ClaimFault, CompleteFault, file_at, put_file, claim, complete,
}

pub file_at-put_file :
    (k id : ℕ) (f : JournalFile) (j : Journal)
    → file_at k (put_file id f j) ≡ (if id == k then some f else file_at k j)
unfolding file_at put_file
file_at-put_file k id f [] = refl
file_at-put_file k id f ((i, g) ∷ j) = ground (arith, file_at-put_file k id f j)

abbrev pub claimed : ℕ → Journal → Bool
claimed id j = is_some (file_at id j)

-- No claim removes a file.
pub claimed-claim :
    (k : ℕ) (x : ClaimFault) (id : ℕ) (t : Text) (j : Journal)
    → claimed k j ≡ true
    → claimed k (claim x id t j).1 ≡ true
unfolding claim
claimed-claim k x id t j h = grind (arith, file_at-put_file)

pub claimed-complete :
    (k : ℕ) (x : CompleteFault) (id : ℕ) (t : Text) (r : RuntimeResponse) (j : Journal)
    → claimed k j ≡ true
    → claimed k (complete x id t r j).1 ≡ true
unfolding complete
claimed-complete k x id t r j h = grind (arith, file_at-put_file)

-- A new claim is made only of a request that has no file, and leaves one.
pub claim-new :
    (x : ClaimFault) (id : ℕ) (t : Text) (j : Journal)
    → (claim x id t j).0 ≡ ok ClaimResult.new
    → (claimed id j ≡ false) × (claimed id (claim x id t j).1 ≡ true)
unfolding claim
claim-new x id t j h = grind (arith, file_at-put_file)
