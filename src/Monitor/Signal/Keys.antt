-- ===== src/Monitor/Signal/Keys.antt =====
-- When two signals share an incident: crates/nopager-monitor/src/signal.rs.
use mathlib.Core.List.{append_assoc}
use nopager.Prelude.{
  ◌↔◌, ◌≡◌, ◌∙◌, sym, arith, ◌∷◌, ◌++◌, Text, text, Lacks, separator_cancel, prefix_cancel,
}
use nopager.Monitor.Signal.{
  OperationalSignalKind, http_health, as_str, ProtectedResourceIdentity, OperationalSignal,
  normalize_key_part, incident_prefix, incident_key,
}

as_str-injective : (k l : OperationalSignalKind) → as_str k ≡ as_str l → k ≡ l
unfolding as_str
as_str-injective k l e = ground arith

as_str-Lacks_colon : (k : OperationalSignalKind) → Lacks b':' (as_str k)
unfolding as_str
as_str-Lacks_colon http_health = omega arith
as_str-Lacks_colon _ = omega arith

-- A resource whose normalised parts hold no colon.
pub record IsPlain (r : ProtectedResourceIdentity) : Type 0 where
  pub provider : Lacks b':' (normalize_key_part r.provider)
  pub resource_type : Lacks b':' (normalize_key_part r.resource_type)
  pub resource_id : Lacks b':' (normalize_key_part r.resource_id)

-- What a key tells apart.
pub record SameCondition (s t : OperationalSignal) : Type 0 where
  pub provider : normalize_key_part s.resource.provider ≡ normalize_key_part t.resource.provider
  pub resource_type :
      normalize_key_part s.resource.resource_type ≡ normalize_key_part t.resource.resource_type
  pub resource_id :
      normalize_key_part s.resource.resource_id ≡ normalize_key_part t.resource.resource_id
  pub kind : s.kind ≡ t.kind
  pub source : normalize_key_part s.source_id ≡ normalize_key_part t.source_id

-- The key with its parts nested to the right.
key_tail : OperationalSignal → Text
key_tail s =
    normalize_key_part s.resource.provider
    ++ (b':'
        ∷ (normalize_key_part s.resource.resource_type
            ++ (b':'
                ∷ (normalize_key_part s.resource.resource_id
                    ++ (b':' ∷ (as_str s.kind ++ (b':' ∷ normalize_key_part s.source_id)))))))

incident_key-tail : (s : OperationalSignal) → incident_key s ≡ text "ops:" ++ key_tail s
unfolding incident_key incident_prefix key_tail
incident_key-tail s = simp append_assoc

same_condition :
    (s t : OperationalSignal)
    → IsPlain s.resource
    → IsPlain t.resource
    → key_tail s ≡ key_tail t
    → SameCondition s t
unfolding key_tail
same_condition s t p q e =
    let (provider, e1) = separator_cancel b':' _ _ _ _ p.provider q.provider e in
    let (resource_type, e2) = separator_cancel b':' _ _ _ _ p.resource_type q.resource_type e1 in
    let (resource_id, e3) = separator_cancel b':' _ _ _ _ p.resource_id q.resource_id e2 in
    let (kind, source) =
      separator_cancel b':' _ _ _ _ (as_str-Lacks_colon s.kind) (as_str-Lacks_colon t.kind) e3 in
    record {
      provider = provider;
      resource_type = resource_type;
      resource_id = resource_id;
      kind = as_str-injective s.kind t.kind kind;
      source = source;
    }

key_of_condition : (s t : OperationalSignal) → SameCondition s t → incident_key s ≡ incident_key t
unfolding incident_key incident_prefix
key_of_condition s t c = cc (c.provider, c.resource_type, c.resource_id, c.kind, c.source)

-- Two signals on resources with no colon in their normalised parts share an incident key exactly if
-- they agree in kind and in the normalised provider, type, id and source.
pub incident_key_iff :
    (s t : OperationalSignal)
    → IsPlain s.resource
    → IsPlain t.resource
    → (incident_key s ≡ incident_key t) ↔ SameCondition s t
incident_key_iff s t p q = (
  λ e.
      same_condition s t p q
        (prefix_cancel (text "ops:") _ _ (sym (incident_key-tail s) ∙ (e ∙ incident_key-tail t))),
  key_of_condition s t,
)
