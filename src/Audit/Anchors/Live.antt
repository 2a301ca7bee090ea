-- ===== src/Audit/Anchors/Live.antt =====
-- What an anchor says of the chain as it is later.
use safe_context.Base.{
  ℕ, ◌≡◌, ◌≤◌, refl, sym, ap, ◌∙◌, ◌⊎◌, inl, inr, Bool, true, ◌||◌, List, [], ◌∷◌, Option, none,
  some, arith, length, take, take_all, if◌then◌else◌, Bool-cases, Option-cases,
}
use mathlib.Core.Path.{subst}
use safe_context.Store.{Text, Operation}
use safe_context.Evidence.{
  Host, IsSha256, genesis_hash, last_sealed, or_genesis, get_latest_chain_hash, tenant_rows,
  ChainReport, verify_chain,
}
use safe_context.Evidence.Chained.{text_eq_sound, IsChained, unsealed_ids, verify_chain-valid}
use safe_context.Evidence.Tamper.{Collision, SameRows, verify_chain-head_commits}
use safe_context.Evidence.Unsealed.{or_last, last_sealed-Is64, or_genesis-Is64}
use safe_context.Audit.Anchors.{
  ChainAnchor, AnchorDb, AnchorHost, AnchorStatus, anchored, latest_anchor, anchor_status,
  verify_latest_anchor, Caller, verify_chain_endpoint,
}

unsealed_ids-nil :
    (host : Host) (ops : List Operation)
    → unsealed_ids host ops ≡ []
    → last_sealed ops ≡ none
    → length ops ≡ 0
unfolding last_sealed
unsealed_ids-nil host [] g n = refl
unsealed_ids-nil host (op ∷ ops) g n = elim (Option-cases op.chain_hash) [
  | inl e ↦ absurd (cc (rw e at g))
  | inr (c, e) ↦ absurd (never_none (last_sealed ops) c e n)
]
  where
    never_none :
        (o : Option Text) (c : Text)
        → op.chain_hash ≡ some c
        → (elim o [ some h ↦ some h | none ↦ op.chain_hash ]) ≡ none
        → ⊥
    never_none none c e n = cc
    never_none (some d) c e n = cc

no_rows : (zs : List Operation) → length zs ≡ 0 → (d : Text) → last_sealed zs ≡ some d → ⊥
unfolding last_sealed
no_rows [] l d q = cc
no_rows (z ∷ zs) l d q = omega (arith, l)

-- The live head is the anchored one.
anchored-head :
    (h : AnchorHost) (tenant_id : ℕ) (operations : List Operation) (o : Option ChainAnchor)
    (v : Bool)
    → anchor_status h tenant_id operations o ≡ anchored v true
    → (a : ChainAnchor) × (o ≡ some a)
      × (get_latest_chain_hash operations tenant_id ≡ a.chain_head_hash)
unfolding anchor_status
anchored-head h tenant_id operations none v e = cc
anchored-head h tenant_id operations (some a) v e =
    (a, refl, text_eq_sound (get_latest_chain_hash operations tenant_id) a.chain_head_hash (cc e))

some_inj {ℓ} : {A : Type ℓ} {a b : A} → some a ≡ some b → a ≡ b
some_inj {a = a} e = ap (λ o. elim o [ none ↦ a | some x ↦ x ]) e

endpoint-parts :
    (h : AnchorHost) (actor : Caller) (t : AnchorDb) (r : ChainReport) (s : AnchorStatus)
    → verify_chain_endpoint h actor t ≡ some (r, s)
    → (verify_chain h.host t.db.operations actor.tenant_id 1000 ≡ r)
      × (verify_latest_anchor h actor.tenant_id t ≡ s)
unfolding verify_chain_endpoint
endpoint-parts h actor t r s e = elim (Bool-cases (actor.is_admin || actor.is_reviewer)) [
  | inl may ↦
      let both = some_inj (
        sym (
          ap
            (λ b.
              if b
              then some (
                verify_chain h.host t.db.operations actor.tenant_id 1000,
                verify_latest_anchor h actor.tenant_id t,
              )
              else none)
            may)
        ∙ e) in
      (ap (λ p. p.0) both, ap (λ p. p.1) both)
  | inr may ↦ absurd (cc (rw (may) at e))
]

module _ (host : Host) (lawful : IsSha256 host) where
  -- Two chains without gaps, of one length, whose heads are one text, end in the same hash.
  same_last :
      (xs ys : List Operation)
      → IsChained host genesis_hash xs
      → IsChained host genesis_hash ys
      → unsealed_ids host xs ≡ []
      → unsealed_ids host ys ≡ []
      → length xs ≡ length ys
      → or_genesis (last_sealed xs) ≡ or_genesis (last_sealed ys)
      → last_sealed xs ≡ last_sealed ys
  same_last xs ys cx cy gx gy len e = by_last (last_sealed xs) (last_sealed ys) refl refl (
      sym (
        or_genesis-Is64 host lawful (last_sealed xs)
          (last_sealed-Is64 host lawful genesis_hash xs cx))
      ∙ e
      ∙ or_genesis-Is64 host lawful (last_sealed ys)
          (last_sealed-Is64 host lawful genesis_hash ys cy))
    where
      by_last :
          (a b : Option Text)
          → last_sealed xs ≡ a
          → last_sealed ys ≡ b
          → or_last genesis_hash a ≡ or_last genesis_hash b
          → a ≡ b
      by_last none none p q r = refl
      by_last (some c) (some d) p q r = ap some r
      by_last none (some d) p q r =
          absurd (no_rows ys (omega (arith, len, unsealed_ids-nil host xs gx p)) d q)
      by_last (some c) none p q r =
          absurd (no_rows xs (omega (arith, len, unsealed_ids-nil host ys gy q)) c p)

-- Take two states of the tables with the same anchors, and a caller to whom the endpoint answers in both
-- that the chain is valid without gaps and that the live head is the anchored one. Where the tenant has
-- equally many rows in both, at most the 1,000 that are looked at, each row has in both the identity,
-- trace, actor, digest, status and creation time, or a collision of SHA-256 is at hand: who rewrites the
-- whole chain, all hashes with it, is found out by the anchor.
pub verify_chain_endpoint-SameRows :
    (h : AnchorHost) (lawful : IsSha256 h.host) (actor : Caller) (before after : AnchorDb)
    (r r' : ChainReport) (v v' : Bool)
    → latest_anchor actor.tenant_id before.anchors ≡ latest_anchor actor.tenant_id after.anchors
    → verify_chain_endpoint h actor before ≡ some (r, anchored v true)
    → verify_chain_endpoint h actor after ≡ some (r', anchored v' true)
    → r.valid ≡ true
    → r'.valid ≡ true
    → r.gaps ≡ []
    → r'.gaps ≡ []
    → length (tenant_rows before.db.operations actor.tenant_id)
      ≡ length (tenant_rows after.db.operations actor.tenant_id)
    → length (tenant_rows before.db.operations actor.tenant_id) ≤ 1000
    → SameRows h.host
        (tenant_rows before.db.operations actor.tenant_id)
        (tenant_rows after.db.operations actor.tenant_id)
      ⊎ Collision h.host
unfolding verify_latest_anchor get_latest_chain_hash
verify_chain_endpoint-SameRows h lawful actor before after r r' v v' same e e' valid valid' gaps
      gaps' len fits =
    let t = actor.tenant_id in
    let xs = tenant_rows before.db.operations t in
    let ys = tenant_rows after.db.operations t in
    let (report, status) = endpoint-parts h actor before r (anchored v true) e in
    let (report', status') = endpoint-parts h actor after r' (anchored v' true) e' in
    let (a, la, ha) =
      anchored-head h t before.db.operations (latest_anchor t before.anchors) v status in
    let (b, lb, hb) =
      anchored-head h t after.db.operations (latest_anchor t after.anchors) v' status' in
    let one : a ≡ b = some_inj (sym la ∙ same ∙ lb) in
    let tx : take 1000 xs ≡ xs = take_all 1000 xs fits in
    let ty : take 1000 ys ≡ ys = take_all 1000 ys (omega (arith, fits, len)) in
    let host = h.host in
    let vx = verify_chain-valid host before.db.operations t 1000 in
    let vy = verify_chain-valid host after.db.operations t 1000 in
    let ok = ap (λ c. c.valid) report ∙ valid in
    let ok' = ap (λ c. c.valid) report' ∙ valid' in
    let full = ap (λ c. c.gaps) report ∙ gaps in
    let full' = ap (λ c. c.gaps) report' ∙ gaps' in
    let cx = vx.0.0 ok in
    let cy = vy.0.0 ok' in
    let head : or_genesis (last_sealed xs) ≡ or_genesis (last_sealed ys) =
      ha ∙ ap (λ c. c.chain_head_hash) one ∙ sym hb in
    let last =
      same_last host lawful (take 1000 xs) (take 1000 ys) cx cy
        (sym (ap (λ c. c.gaps) (vx.1 cx)) ∙ full) (sym (ap (λ c. c.gaps) (vy.1 cy)) ∙ full')
        (ap length tx ∙ len ∙ sym (ap length ty))
        (ap (λ l. or_genesis (last_sealed l)) tx
          ∙ head
          ∙ sym (ap (λ l. or_genesis (last_sealed l)) ty)) in
    subst (λ l. SameRows host l ys ⊎ Collision host) tx
      (subst (λ l. SameRows host (take 1000 xs) l ⊎ Collision host) ty
        (verify_chain-head_commits host lawful before.db.operations after.db.operations t 1000 ok
          ok' full full' (ap length tx ∙ len ∙ sym (ap length ty)) last))
