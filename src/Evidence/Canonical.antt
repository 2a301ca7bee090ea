-- ===== src/Evidence/Canonical.antt =====
-- The canonical text of an operation fixes its six values.
use safe_context.Base.{◌≡◌, ap, ◌∷◌, ◌++◌, drop}
use safe_context.Store.{Text}
use safe_context.Evidence.{
  Content, canonical_json, key_actor_id, key_artifact_digest, key_created_at, key_id, key_status,
  key_trace_id,
}
use safe_context.Evidence.Json.{escape, json_string, member}
use safe_context.Evidence.Literal.{escape-injective}

-- The six values have the same literals.
pub record SameContent (c d : Content) : Type 0 where
  pub same_actor_id : escape c.actor_id ≡ escape d.actor_id
  pub same_artifact_digest : escape c.artifact_digest ≡ escape d.artifact_digest
  pub same_created_at : escape c.created_at ≡ escape d.created_at
  pub same_id : escape c.id ≡ escape d.id
  pub same_status : escape c.status ≡ escape d.status
  pub same_trace_id : escape c.trace_id ≡ escape d.trace_id

-- Behind one key, equal texts have equal literals and equal ends.
member-injective :
    (key s t x y : Text) → member key s x ≡ member key t y → (escape s ≡ escape t) × (x ≡ y)
unfolding member json_string
member-injective key s t x y h = escape-injective s t x y (
    ap (drop 3)
      (escape-injective key key (b':' ∷ b' ' ∷ 34 ∷ (escape s ++ (34 ∷ x)))
        (b':' ∷ b' ' ∷ 34 ∷ (escape t ++ (34 ∷ y))) (ap (drop 1) h)).1)

-- Equal canonical texts come from operations with equal values, up to how a text is escaped.
pub canonical_json-SameContent :
    (c d : Content) → canonical_json c ≡ canonical_json d → SameContent c d
unfolding canonical_json
canonical_json-SameContent c d h =
    let a = member-injective key_actor_id c.actor_id d.actor_id _ _ (ap (drop 1) h) in
    let b =
      member-injective key_artifact_digest c.artifact_digest d.artifact_digest _ _
        (ap (drop 2) a.1) in
    let e = member-injective key_created_at c.created_at d.created_at _ _ (ap (drop 2) b.1) in
    let f = member-injective key_id c.id d.id _ _ (ap (drop 2) e.1) in
    let g = member-injective key_status c.status d.status _ _ (ap (drop 2) f.1) in
    let i = member-injective key_trace_id c.trace_id d.trace_id _ _ (ap (drop 2) g.1) in
    record {
      same_actor_id = a.0;
      same_artifact_digest = b.0;
      same_created_at = e.0;
      same_id = f.0;
      same_status = g.0;
      same_trace_id = i.0;
    }
