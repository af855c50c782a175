-- ===== src/Core/Incident/Reach.antt =====
-- Which states an incident can reach by `Incident::transition` (crates/nopager-core/src/lib.rs).
use nopager.Prelude.{
  Bool, true, false, ◌≡◌, ◌≢◌, ◌⊎◌, inl, inr, arith, List, [], ◌∷◌, Result, ok, ◌>>=◌, >>=-eq-ok,
}
use nopager.Core.Incident.{
  IncidentState, verifying_production, rolling_back, rolled_back, resolved, can_transition_to,
  Incident, TransitionError, transition,
}

-- A sequence of calls of `transition`, each followed by `?`.
unfoldable pub transitions : Incident → List IncidentState → Result TransitionError Incident
transitions i [] = ok i
transitions i (s ∷ path) = do next ← transition i s; transitions next path

-- Whether a state stands in a sequence.
abbrev pub Visits : IncidentState → List IncidentState → Type 0
Visits s [] = ⊥
Visits s (t ∷ path) = (s ≡ t) ⊎ Visits s path

-- States that come only after a production verification.
abbrev is_verified : IncidentState → Bool
is_verified verifying_production = true
is_verified rolling_back = true
is_verified rolled_back = true
is_verified resolved = true
is_verified _ = false

verified-transition :
    (i j : Incident) (s : IncidentState)
    → is_verified i.state ≡ false
    → transition i s ≡ ok j
    → (verifying_production ≡ s) ⊎ (is_verified j.state ≡ false)
unfolding transition can_transition_to
verified-transition i j s h e = ground arith

verified-transitions :
    (i j : Incident) (path : List IncidentState)
    → is_verified i.state ≡ false
    → transitions i path ≡ ok j
    → is_verified j.state ≡ true
    → Visits verifying_production path
unfolding transitions
verified-transitions i j [] h e v = ground arith
verified-transitions i j (s ∷ path) h e v =
    let (next, first, rest) = >>=-eq-ok (transition i s) (λ n. transitions n path) e in
    elim (verified-transition i next s h first) [
      | inl here ↦ inl here
      | inr still ↦ inr (verified-transitions next j path still rest v)
    ]

-- An incident that is neither resolved nor past the start of its production verification becomes
-- resolved, by any sequence of accepted transitions, only by way of `verifying_production`.
pub resolved-needs-verification :
    (i j : Incident) (path : List IncidentState)
    → i.state ≢ verifying_production
    → i.state ≢ rolling_back
    → i.state ≢ rolled_back
    → i.state ≢ resolved
    → transitions i path ≡ ok j
    → j.state ≡ resolved
    → Visits verifying_production path
resolved-needs-verification i j path a b c d e r =
    verified-transitions i j path (ground arith) e (ground arith)
