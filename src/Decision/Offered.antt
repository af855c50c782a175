-- ===== src/Decision/Offered.antt =====
-- What an accepted decision of the model may contain: `OperationsDecision::validate_against` of
-- crates/nopager-providers/src/operations/types.rs.
use mathlib.Core.List.{Memᴰ}
use nopager.Prelude.{
  ◌≤◌, Bool, true, false, ◌≡◌, refl, arith, Option, none, some, List, [], ◌∷◌, Text, trim, length,
  is_empty, any, All, Bool-cases, inl, inr, text_eq_iff, Result, ok, err, ◌>>◌, try_all,
}
use nopager.Decision.{
  OperationsActionKind, OperationsVerificationKind, kind_index, verification_index,
  OperationsValidationError, AvailableOperationsAction, AvailableVerificationSignal,
  OperationsInput, SelectedVerificationSignal, OperationsDecision, is_mutating, requires_target,
  offers, matches_target, offers_signal, validate_identifier, validate_target,
  validate_verification, validate_selected, validate_against,
}

then_ok :
    (m k : Result OperationsValidationError (Unit {0})) → m >> k ≡ ok tt → (m ≡ ok tt) × (k ≡ ok tt)
then_ok (ok tt) k h = (refl, h)
then_ok (err e) k h = cc

try_all_ok {ℓ} :
    {T : Type 0} {P : T → Type ℓ} (check : T → Result OperationsValidationError (Unit {0}))
    → ((x : T) → check x ≡ ok tt → P x)
    → (xs : List T) → try_all check xs ≡ ok tt
    → All P xs
try_all_ok check one [] h = tt
try_all_ok check one (x ∷ xs) h =
    let (here, there) = then_ok (check x) (try_all check xs) h in
    (one x here, try_all_ok check one xs there)

find_member :
    {T : Type 0} (p : T → Bool) (xs : List T) → any p xs ≡ true → (x : T) × Memᴰ x xs × (p x ≡ true)
find_member p [] h = absurd (ground arith)
find_member p (x ∷ xs) h = elim (Bool-cases (p x)) [
  | inl here ↦ (x, Memᴰ.head refl, here)
  | inr away ↦ let (y, m, e) = find_member p xs (ground arith) in (y, Memᴰ.tail m, e)
]

kind_index_injective : (a b : OperationsActionKind) → kind_index a ≡ kind_index b → a ≡ b
kind_index_injective a b h = ground arith

verification_index_injective :
    (a b : OperationsVerificationKind) → verification_index a ≡ verification_index b → a ≡ b
verification_index_injective a b h = ground arith

-- An offered action with this kind and this target.
abbrev pub IsOffered : OperationsInput → OperationsActionKind → Text → Type 0
IsOffered input action target =
    (a : AvailableOperationsAction) × Memᴰ a input.available_actions
    × (a.kind ≡ action)
    × (a.target_id ≡ some target)

abbrev pub IsOfferedSignal : OperationsInput → SelectedVerificationSignal → Type 0
IsOfferedSignal input s =
    (a : AvailableVerificationSignal) × Memᴰ a input.verification_signals
    × (a.kind ≡ s.kind)
    × (a.source_id ≡ s.source_id)

-- What an accepted decision to mutate production brings.
pub record IsBounded (d : OperationsDecision) (input : OperationsInput) : Type 0 where
  pub offered : IsOffered input d.action (trim d.target_id)
  pub some_signal : 1 ≤ length d.verification_signals
  pub signals : All (IsOfferedSignal input) d.verification_signals
  pub some_success : 1 ≤ d.required_consecutive_successes
  pub few_successes : d.required_consecutive_successes ≤ 10
  pub some_time : 1 ≤ d.timeout_seconds
  pub one_hour : d.timeout_seconds ≤ 3600

chosen :
    (action : OperationsActionKind) (target : Text) (a : AvailableOperationsAction)
    → is_empty target ≡ false
    → offers action target a ≡ true
    → (a.kind ≡ action) × (a.target_id ≡ some target)
chosen action target a h o =
    (kind_index_injective a.kind action (ground arith), matched target a.target_id h (ground arith))
  where
    matched :
        (target : Text) (t : Option Text)
        → is_empty target ≡ false
        → matches_target target t ≡ true
        → t ≡ some target
    matched target none h m = absurd (ground arith)
    matched target (some t) h m = rw ((text_eq_iff t target).0 m) refl

selected :
    (input : OperationsInput) (s : SelectedVerificationSignal)
    → validate_selected input s ≡ ok tt
    → IsOfferedSignal input s
unfolding validate_selected
selected input s h =
    let (a, m, o) = find_member (offers_signal s) input.verification_signals (ground arith) in
    (
      a,
      m,
      verification_index_injective a.kind s.kind (ground arith),
      (text_eq_iff a.source_id s.source_id).0 (ground arith),
    )

-- The parts of an accepted decision.
record Accepted (d : OperationsDecision) (input : OperationsInput) : Type 0 where
  target : validate_target d.action (trim d.target_id) ≡ ok tt
  action : any (offers d.action (trim d.target_id)) input.available_actions ≡ true
  verification :
      validate_verification d.action d.verification_signals d.required_consecutive_successes
        d.timeout_seconds
      ≡ ok tt
  signals : try_all (validate_selected input) d.verification_signals ≡ ok tt

accepted :
    (d : OperationsDecision) (input : OperationsInput)
    → validate_against d input ≡ ok tt
    → Accepted d input
unfolding validate_against
accepted d input h = grind (arith, then_ok)

-- What is not blank is not empty.
not_blank : (s : Text) → is_empty (trim s) ≡ false → is_empty s ≡ false
unfolding trim
not_blank [] h = h
not_blank (c ∷ s) h = refl

named :
    (d : OperationsDecision)
    → validate_target d.action (trim d.target_id) ≡ ok tt
    → is_mutating d.action ≡ true
    → is_empty (trim d.target_id) ≡ false
unfolding is_mutating requires_target validate_target validate_identifier
named d h m = not_blank (trim d.target_id) (ground arith)

-- An accepted decision that mutates production names, up to blanks at the ends, a target that was
-- offered for just this kind of action, and only offered signals, of which there is at least one; it
-- asks for 1 to 10 successes within an hour.
pub validate_against-IsBounded :
    (d : OperationsDecision) (input : OperationsInput)
    → validate_against d input ≡ ok tt
    → is_mutating d.action ≡ true
    → IsBounded d input
unfolding is_mutating validate_verification
validate_against-IsBounded d input h m =
    let a = accepted d input h in
    let (x, member, o) =
      find_member (offers d.action (trim d.target_id)) input.available_actions a.action in
    let (kind, target) = chosen d.action (trim d.target_id) x (named d a.target m) o in
    record {
      offered = (x, member, kind, target);
      some_signal = ground (arith, a.verification);
      signals =
          try_all_ok (validate_selected input) (selected input) d.verification_signals a.signals;
      some_success = ground (arith, a.verification);
      few_successes = ground (arith, a.verification);
      some_time = ground (arith, a.verification);
      one_hour = ground (arith, a.verification);
    }

-- What an accepted decision brings that leaves production alone.
pub record IsInert (d : OperationsDecision) : Type 0 where
  pub no_target : is_empty (trim d.target_id) ≡ true
  pub no_signal : d.verification_signals ≡ []
  pub no_success : d.required_consecutive_successes ≡ 0
  pub no_time : d.timeout_seconds ≡ 0

-- An accepted decision that mutates nothing names no target and asks for no verification.
pub validate_against-IsInert :
    (d : OperationsDecision) (input : OperationsInput)
    → validate_against d input ≡ ok tt
    → is_mutating d.action ≡ false
    → IsInert d
unfolding is_mutating requires_target validate_target validate_verification
validate_against-IsInert d input h m =
    let a = accepted d input h in
    record {
      no_target = ground (arith, a.target);
      no_signal = ground (arith, a.verification);
      no_success = ground (arith, a.verification);
      no_time = ground (arith, a.verification);
    }
