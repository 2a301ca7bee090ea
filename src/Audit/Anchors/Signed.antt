-- ===== src/Audit/Anchors/Signed.antt =====
-- What a new anchor says of the chain.
use safe_context.Base.{
  ℕ, ◌≡◌, refl, ap, ◌∙◌, Bool, true, false, ◌&&◌, List, [], ◌∷◌, ◌++◌, Option, none, some, All,
  is_some, leb, ◌==◌, ==_refl, if◌then◌else◌,
}
use safe_context.Store.{Text}
use safe_context.Evidence.{text_eq, genesis_hash, get_latest_chain_hash}
use safe_context.Evidence.Chained.{text_eq_refl}
use safe_context.Evidence.Seal.{sign_replied, after_vault, sign_operation_hash}
use safe_context.Audit.Keys.{reply-signed}
use safe_context.Audit.Anchors.{
  ChainAnchor, AnchorDb, verify_replied, AnchorHost, with_version, verify_signature, anchored,
  latest_anchor, anchor_status, verify_latest_anchor, Caller, AnchorReply, anchor_error,
  anchor_created, new_anchor, store_anchor, sign_head, create_chain_anchor,
}

-- What Vault documents: a signature that it made names its key version, and verifies.
pub record IsTransit (h : AnchorHost) : Type 0 where
  pub verifies :
      (data_hex sig : Text)
      → h.vault.sign data_hex ≡ sign_replied 200 sig
      → (is_some (after_vault sig) ≡ true)
        × (h.transit_verify data_hex sig ≡ verify_replied 200 true)

latest_anchor-append :
    (anchors : List ChainAnchor) (a : ChainAnchor)
    → All (λ b. leb b.created_at a.created_at ≡ true) anchors
    → latest_anchor a.tenant_id (anchors ++ (a ∷ [])) ≡ some a
unfolding latest_anchor
latest_anchor-append [] a h = rw (==_refl a.tenant_id) refl
latest_anchor-append (b ∷ anchors) a h =
    rw (latest_anchor-append anchors a h.1)
      (rw (h.0) (ap (λ k. if k then some b else some a) (and_false (b.tenant_id == a.tenant_id))))
  where
    and_false : (k : Bool) → (k && false) ≡ false
    and_false true = refl
    and_false false = refl

module _ (h : AnchorHost) (transit : IsTransit h) where
  -- What the endpoint comes to, by whether the caller may ask, a row is sealed, and Vault signs.
  abbrev pub Anchors : Caller → AnchorDb → AnchorDb × AnchorReply → Type 0
  Anchors actor t (t', anchor_error code) = (t' ≡ t)
  Anchors actor t (t', anchor_created a) =
      (a.chain_head_hash ≡ get_latest_chain_hash t.db.operations actor.tenant_id)
      × (t'.db.operations ≡ t.db.operations)
      × (t'.anchors ≡ t.anchors ++ (a ∷ []))
      × (verify_latest_anchor h actor.tenant_id t' ≡ anchored true true)

  signed_status :
      (actor : Caller) (sig : Text) (v : ℕ) (t : AnchorDb)
      → h.vault.sign (get_latest_chain_hash t.db.operations actor.tenant_id) ≡ sign_replied 200 sig
      → anchor_status h actor.tenant_id t.db.operations (
          some (new_anchor h actor (get_latest_chain_hash t.db.operations actor.tenant_id) sig v t))
        ≡ anchored true true
  unfolding anchor_status verify_signature with_version new_anchor
  signed_status actor sig v t reply =
      let head = get_latest_chain_hash t.db.operations actor.tenant_id in
      let law = transit.verifies head sig reply in
      rw (law.0) (rw (law.1) (rw (text_eq_refl head) refl))

  store_anchor-Anchors :
      (actor : Caller) (sig : Text) (v : ℕ) (t : AnchorDb)
      → All (λ b. leb b.created_at h.now ≡ true) t.anchors
      → h.vault.sign (get_latest_chain_hash t.db.operations actor.tenant_id) ≡ sign_replied 200 sig
      → Anchors actor t
          (store_anchor h actor (get_latest_chain_hash t.db.operations actor.tenant_id) sig v t)
  unfolding store_anchor verify_latest_anchor new_anchor
  store_anchor-Anchors actor sig v t clock reply =
      let head = get_latest_chain_hash t.db.operations actor.tenant_id in
      let a = new_anchor h actor head sig v t in
      let newest : latest_anchor actor.tenant_id (t.anchors ++ (a ∷ [])) ≡ some a =
        latest_anchor-append t.anchors a clock in
      (
        refl,
        refl,
        refl,
        ap (anchor_status h actor.tenant_id t.db.operations) newest
            ∙ signed_status actor sig v t reply,
      )

  sign_head-Anchors :
      (actor : Caller) (t : AnchorDb) (o : Option (Text × ℕ))
      → All (λ b. leb b.created_at h.now ≡ true) t.anchors
      → sign_operation_hash h.vault (get_latest_chain_hash t.db.operations actor.tenant_id) ≡ o
      → Anchors actor t
          (sign_head h actor (get_latest_chain_hash t.db.operations actor.tenant_id) o t)
  unfolding sign_head sign_operation_hash
  sign_head-Anchors actor t none clock e = refl
  sign_head-Anchors actor t (some (sig, v)) clock e =
      store_anchor-Anchors actor sig v t clock
        (reply-signed h.vault (h.vault.sign (get_latest_chain_hash t.db.operations actor.tenant_id))
          sig v e).0

  -- Where no anchor is younger than the clock, a request for an anchor either changes nothing or signs the
  -- live head, adds its anchor and leaves the operations as they are; the check that follows then finds an
  -- anchor of the tenant whose signature is valid and whose head is the live one.
  pub create_chain_anchor-Anchors :
      (actor : Caller) (t : AnchorDb)
      → All (λ b. leb b.created_at h.now ≡ true) t.anchors
      → Anchors actor t (create_chain_anchor h actor t)
  unfolding create_chain_anchor
  create_chain_anchor-Anchors actor t clock =
      by_case actor.is_admin
        (text_eq (get_latest_chain_hash t.db.operations actor.tenant_id) genesis_hash)
    where
      by_case :
          (admin genesis : Bool)
          → Anchors actor t (
              if admin
              then (if genesis
                  then (t, anchor_error 409)
                  else sign_head h actor
                      (get_latest_chain_hash t.db.operations actor.tenant_id)
                      (sign_operation_hash h.vault
                        (get_latest_chain_hash t.db.operations actor.tenant_id))
                      t)
              else (t, anchor_error 403))
      by_case false g = refl
      by_case true true = refl
      by_case true false = sign_head-Anchors actor t _ clock refl
