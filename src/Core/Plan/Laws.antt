-- ===== src/Core/Plan/Laws.antt =====
-- Which plans `OperationsPlan::validate` accepts: crates/nopager-core/src/lib.rs.
use nopager.Prelude.{
  ℕ, ◌≤◌, ◌<◌, Bool, true, false, ◌≡◌, refl, ◌↔◌, arith, Option, none, some, List, [], ◌∷◌, Text,
  text, trim, length, is_empty, All, byte_len, any, is_control, Result, ok, err, ◌==◌, try_all,
  refuse_if, ◌>>◌,
}
use nopager.Core.Plan.{
  OperationsAction, OperationsVerificationPlan, VerificationSignal, OperationsEvidence,
  OperationsPlan, OperationsPlanError, is_mutating, target_id, escalate, observe_only,
  restart_service, restart_container, restart_instance, is_confidence, validate_bounded_identifier,
  validate_nonempty_bounded_text, validate_target, validate_reason, validate_action,
  validate_verification, validate_evidence, validate_pair, validate_plan,
}

-- Not blank, and of at most so many characters.
pub record IsBoundedText (max_chars : ℕ) (t : Text) : Type 0 where
  pub not_blank : is_empty (trim t) ≡ false
  pub short : length t ≤ max_chars

-- Not blank, at most 256 bytes, no control character, once it is trimmed.
pub record IsIdentifier (t : Text) : Type 0 where
  pub not_blank : is_empty (trim t) ≡ false
  pub short : byte_len (trim t) ≤ 256
  pub printable : any is_control (trim t) ≡ false

no_control : (c : ℕ) (t : Text) → c < 32 → any is_control t ≡ false → any (λ d. d == c) t ≡ false
no_control c [] h p = refl
no_control c (d ∷ t) h p = ground (arith, no_control c t)

IsIdentifier-iff : (t field : Text) → (validate_bounded_identifier t field ≡ ok tt) ↔ IsIdentifier t
unfolding validate_bounded_identifier
IsIdentifier-iff t field =
    (λ h. ground arith, λ h. ground (arith, no_control 10 (trim t), no_control 13 (trim t)))

text_iff :
    (t field : Text) (n : ℕ)
    → (validate_nonempty_bounded_text t field n ≡ ok tt) ↔ IsBoundedText n t
unfolding validate_nonempty_bounded_text
text_iff t field n = (λ h. ground arith, λ h. ground arith)

then_iff :
    (m k : Result OperationsPlanError (Unit {0})) → (m >> k ≡ ok tt) ↔ ((m ≡ ok tt) × (k ≡ ok tt))
then_iff (ok tt) k = (λ h. (refl, h), λ h. h.1)
then_iff (err e) k = (λ h. cc, λ h. ground arith)

try_all_iff {ℓ} :
    {T : Type 0} {P : T → Type ℓ} (check : T → Result OperationsPlanError (Unit {0}))
    → ((x : T) → (check x ≡ ok tt) ↔ P x)
    → (xs : List T) → (try_all check xs ≡ ok tt) ↔ All P xs
try_all_iff check one [] = (λ h. tt, λ h. refl)
try_all_iff check one (x ∷ xs) =
    let (split, join) = then_iff (check x) (try_all check xs) in
    let (down, up) = try_all_iff check one xs in
    (λ h. ((one x).0 (split h).0, down (split h).1), λ h. join ((one x).1 h.0, up h.1))

pub record IsValidVerification (v : OperationsVerificationPlan) : Type 0 where
  pub some_signal : 1 ≤ length v.signals
  pub few_signals : length v.signals ≤ 8
  pub sources : All (λ s. IsIdentifier s.source_id) v.signals
  pub some_success : 1 ≤ v.required_consecutive_successes
  pub few_successes : v.required_consecutive_successes ≤ 10
  pub some_time : 1 ≤ v.timeout_seconds
  pub one_hour : v.timeout_seconds ≤ 3600

source_iff :
    (s : VerificationSignal)
    → (validate_bounded_identifier s.source_id (text "verification source_id") ≡ ok tt)
      ↔ IsIdentifier s.source_id
source_iff s = IsIdentifier-iff s.source_id (text "verification source_id")

empty_iff : {T : Type 0} (xs : List T) → (is_empty xs ≡ false) ↔ (1 ≤ length xs)
empty_iff [] = (λ h. ground arith, λ h. ground arith)
empty_iff (x ∷ xs) = (λ h. ground arith, λ h. refl)

refuse_iff : (b : Bool) (e : OperationsPlanError) → (refuse_if b e ≡ ok tt) ↔ (b ≡ false)
refuse_iff true e = (λ h. cc, λ h. cc)
refuse_iff false e = (λ h. refl, λ h. refl)

verification_iff :
    (v : OperationsVerificationPlan) → (validate_verification v ≡ ok tt) ↔ IsValidVerification v
unfolding validate_verification
verification_iff v = (
  λ h. grind (arith, then_iff, refuse_iff, empty_iff v.signals, try_all_iff _ source_iff v.signals),
  λ h. grind (arith, then_iff, refuse_iff, empty_iff v.signals, try_all_iff _ source_iff v.signals),
)

pub record IsValidEvidence (e : OperationsEvidence) : Type 0 where
  pub source : IsBoundedText 256 e.source
  pub finding : IsBoundedText 8000 e.finding

evidence_iff : (e : OperationsEvidence) → (validate_evidence e ≡ ok tt) ↔ IsValidEvidence e
unfolding validate_evidence
evidence_iff e = (λ h. grind (arith, then_iff, text_iff), λ h. grind (arith, then_iff, text_iff))

abbrev pub IsValidTarget : Option Text → Type 0
IsValidTarget none = Unit
IsValidTarget (some target) = IsIdentifier target

abbrev pub IsValidReason : OperationsAction → Type 0
IsValidReason (escalate reason) = IsBoundedText 2000 reason
IsValidReason _ = Unit

abbrev pub IsVerifiable : OperationsAction → Option OperationsVerificationPlan → Type 0
IsVerifiable action none = is_mutating action ≡ false
IsVerifiable action (some v) = IsValidVerification v

pub record IsValidPlan (p : OperationsPlan) : Type 0 where
  pub summary : IsBoundedText 4000 p.summary
  pub confidence : is_confidence p.confidence ≡ true
  pub some_evidence : 1 ≤ length p.evidence
  pub few_evidence : length p.evidence ≤ 32
  pub evidence : All IsValidEvidence p.evidence
  pub target : IsValidTarget (target_id p.action)
  pub reason : IsValidReason p.action
  pub fallback : IsBoundedText 4000 p.rollback_or_fallback
  pub verifiable : IsVerifiable p.action p.verification

target_iff : (t : Option Text) → (validate_target t ≡ ok tt) ↔ IsValidTarget t
unfolding validate_target
target_iff none = (λ h. tt, λ h. refl)
target_iff (some t) = IsIdentifier-iff t (text "target_id")

reason_iff : (a : OperationsAction) → (validate_reason a ≡ ok tt) ↔ IsValidReason a
unfolding validate_reason
reason_iff (escalate r) = text_iff r (text "escalation reason") 2000
reason_iff observe_only = (λ h. tt, λ h. refl)
reason_iff (restart_service t) = (λ h. tt, λ h. refl)
reason_iff (restart_container t) = (λ h. tt, λ h. refl)
reason_iff (restart_instance t) = (λ h. tt, λ h. refl)

pair_iff :
    (a : OperationsAction) (v : Option OperationsVerificationPlan)
    → (validate_pair a v ≡ ok tt) ↔ IsVerifiable a v
unfolding validate_pair
pair_iff a none = grind (arith, refuse_iff)
pair_iff a (some v) = verification_iff v

action_iff :
    (a : OperationsAction)
    → (validate_action a ≡ ok tt) ↔ (IsValidTarget (target_id a) × IsValidReason a)
unfolding validate_action
action_iff a = (
  λ h.
      let (t, r) = (then_iff (validate_target (target_id a)) (validate_reason a)).0 h in
      ((target_iff (target_id a)).0 t, (reason_iff a).0 r),
  λ h.
      (then_iff (validate_target (target_id a)) (validate_reason a)).1
        ((target_iff (target_id a)).1 h.0, (reason_iff a).1 h.1),
)

-- A plan is accepted exactly if its summary and its fallback are bounded texts, its confidence is a
-- number from 0 to 1, it has 1 to 32 pieces of bounded evidence, its target, if it has one, is an
-- identifier, its reason, if it escalates, is a bounded text, and a verification plan is valid where
-- there is one, and is there where the action mutates production.
pub validate_plan-ok_iff : (p : OperationsPlan) → (validate_plan p ≡ ok tt) ↔ IsValidPlan p
unfolding validate_plan
validate_plan-ok_iff p = (
  λ h. grind (
    arith,
    then_iff,
    refuse_iff,
    text_iff p.summary (text "summary") 4000,
    text_iff p.rollback_or_fallback (text "rollback/fallback plan") 4000,
    empty_iff p.evidence,
    try_all_iff _ evidence_iff p.evidence,
    action_iff p.action,
    pair_iff p.action p.verification,
  ),
  λ v. grind (
    arith,
    then_iff,
    refuse_iff,
    text_iff p.summary (text "summary") 4000,
    text_iff p.rollback_or_fallback (text "rollback/fallback plan") 4000,
    empty_iff p.evidence,
    try_all_iff _ evidence_iff p.evidence,
    action_iff p.action,
    pair_iff p.action p.verification,
  ),
)
