-- ===== src/Evidence/Tamper.antt =====
-- Evidence against tampering. Nothing is assumed of the hash function but the length of its
-- digests: whoever changes a sealed row unnoticed has found two texts with one digest.
use safe_context.Base.{
  ℕ, ◌≡◌, ◌≢◌, refl, sym, ap, ◌∙◌, ◌⊎◌, inl, inr, true, List, [], ◌∷◌, Option, none, some, arith,
  take, drop, length, take-append_eq, drop-append_eq, Option-cases,
}
use safe_context.Store.{Text, Operation}
use safe_context.Evidence.{
  Host, IsSha256, content_of, compute_operation_hash, compute_chain_hash, genesis_hash, last_sealed,
  tenant_rows, verify_chain,
}
use safe_context.Evidence.Canonical.{SameContent, canonical_json-SameContent}
use safe_context.Evidence.Chained.{link, text_eq-cases, IsChained, unsealed_ids, verify_chain-valid}

-- Two different texts with one digest.
abbrev pub Collision : Host → Type 0
Collision host = (x : Text) × (y : Text) × (x ≢ y) × (host.sha256 x ≡ host.sha256 y)

-- The rows of the two lists have the same content, one by one.
abbrev pub SameRows : Host → List Operation → List Operation → Type 0
SameRows host [] [] = Unit
SameRows host [] (q ∷ qs) = ⊥
SameRows host (p ∷ ps) [] = ⊥
SameRows host (p ∷ ps) (q ∷ qs) =
    SameContent (content_of host p) (content_of host q) × SameRows host ps qs

module _ (host : Host) (lawful : IsSha256 host) where
  -- The head of the chain over the rows, from `prev` on.
  pub chain_head : Text → List Operation → Text
  chain_head prev [] = prev
  chain_head prev (op ∷ ops) = chain_head (link host prev op) ops

  same_digest : (x y : Text) → host.sha256 x ≡ host.sha256 y → (x ≡ y) ⊎ Collision host
  same_digest x y e = elim (text_eq-cases x y) [
    | inl same ↦ inl same
    | inr differ ↦ inr (x, y, differ, e)
  ]

  pub same_link :
      (p q : Text) (a b : Operation)
      → length p ≡ length q
      → link host p a ≡ link host q b
      → ((p ≡ q) × SameContent (content_of host a) (content_of host b)) ⊎ Collision host
  unfolding compute_chain_hash compute_operation_hash
  same_link p q a b len e = elim (same_digest _ _ e) [
    | inr c ↦ inr c
    | inl joined ↦
        let ha = compute_operation_hash host a in
        let hb = compute_operation_hash host b in
        let heads : p ≡ q =
          sym (take-append_eq (length p) p ha refl)
          ∙ ap (take (length p)) joined
          ∙ take-append_eq (length p) q hb (sym len) in
        let tails : ha ≡ hb =
          sym (drop-append_eq (length p) p ha refl)
          ∙ ap (drop (length p)) joined
          ∙ drop-append_eq (length p) q hb (sym len) in
        elim (same_digest _ _ tails) [
          | inr c ↦ inr c
          | inl texts ↦ inl (heads, canonical_json-SameContent _ _ texts)
        ]
  ]

  -- The head of the chain fixes the rows: where two lists of equally many rows lead from hashes of
  -- one length to one head, the starting hashes are equal and so are the contents of the rows one
  -- by one, or a collision of the hash function is at hand.
  pub chain_head-SameRows :
      (p q : Text) (xs ys : List Operation)
      → length p ≡ length q
      → length xs ≡ length ys
      → chain_head p xs ≡ chain_head q ys
      → ((p ≡ q) × SameRows host xs ys) ⊎ Collision host
  unfolding chain_head
  chain_head-SameRows p q [] [] lp lx e = inl (e, tt)
  chain_head-SameRows p q [] (y ∷ ys) lp lx e = absurd (omega arith)
  chain_head-SameRows p q (x ∷ xs) [] lp lx e = absurd (omega arith)
  chain_head-SameRows p q (x ∷ xs) (y ∷ ys) lp lx e =
      let lens : length (link host p x) ≡ length (link host q y) = link-length p q x y in
      elim (chain_head-SameRows (link host p x) (link host q y) xs ys lens (omega arith) e) [
        | inr c ↦ inr c
        | inl (links, rest) ↦ elim (same_link p q x y lp links) [
          | inr c ↦ inr c
          | inl (starts, here) ↦ inl (starts, (here, rest))
        ]
      ]
    where
      link-length : (p q : Text) (x y : Operation) → length (link host p x) ≡ length (link host q y)
      link-length p q x y =
          unfold compute_chain_hash in lawful.digest_length _ ∙ sym (lawful.digest_length _)

-- The last sealed hash, or the one before the rows.
abbrev last_or : Text → Option Text → Text
last_or prev none = prev
last_or prev (some h) = h

module _ (host : Host) (lawful : IsSha256 host) where
  last_sealed-chain_head :
      (prev : Text) (ops : List Operation)
      → IsChained host prev ops
      → unsealed_ids host ops ≡ []
      → chain_head host lawful prev ops ≡ last_or prev (last_sealed ops)
  unfolding chain_head last_sealed
  last_sealed-chain_head prev [] h g = refl
  last_sealed-chain_head prev (op ∷ ops) h g = elim (Option-cases op.chain_hash) [
    | inl e ↦ absurd (cc (rw e at g))
    | inr (c, e) ↦
        let k : (c ≡ link host prev op) × IsChained host c ops = rw e at h in
        let rest = last_sealed-chain_head c ops k.1 (rw e at g) in
        ap (λ z. chain_head host lawful z ops) (sym k.0) ∙ rest ∙ sealed_on c e (last_sealed ops)
  ]
    where
      sealed_on :
          (c : Text)
          → op.chain_hash ≡ some c
          → (o : Option Text)
          → last_or c o ≡ last_or prev (elim o [ some h ↦ some h | none ↦ op.chain_hash ])
      sealed_on c e none = rw e refl
      sealed_on c e (some h) = refl

  pub genesis_length : length genesis_hash ≡ 64
  unfolding genesis_hash
  genesis_length = refl

  -- Take two states of the table that both verify with no gap, with equally many rows looked at.
  -- Where their chains end in the same hash, the rows have the same content one by one, or a
  -- collision of SHA-256 is at hand. So the last hash alone, once anchored, commits to the identity,
  -- trace, actor, digest, status and creation time of every row before it.
  pub verify_chain-head_commits :
      (before after : List Operation) (tenant_id limit : ℕ)
      → let xs = take limit (tenant_rows before tenant_id) in
        let ys = take limit (tenant_rows after tenant_id) in
        (verify_chain host before tenant_id limit).valid ≡ true
        → (verify_chain host after tenant_id limit).valid ≡ true
        → (verify_chain host before tenant_id limit).gaps ≡ []
        → (verify_chain host after tenant_id limit).gaps ≡ []
        → length xs ≡ length ys
        → last_sealed xs ≡ last_sealed ys
        → SameRows host xs ys ⊎ Collision host
  verify_chain-head_commits before after tenant_id limit v w g k len e =
      let xs = take limit (tenant_rows before tenant_id) in
      let ys = take limit (tenant_rows after tenant_id) in
      let vx = verify_chain-valid host before tenant_id limit in
      let vy = verify_chain-valid host after tenant_id limit in
      let gx = sym (ap (λ r. r.gaps) (vx.1 (vx.0.0 v))) ∙ g in
      let gy = sym (ap (λ r. r.gaps) (vy.1 (vy.0.0 w))) ∙ k in
      let heads =
        last_sealed-chain_head genesis_hash xs (vx.0.0 v) gx
        ∙ ap (last_or genesis_hash) e
        ∙ sym (last_sealed-chain_head genesis_hash ys (vy.0.0 w) gy) in
      elim (chain_head-SameRows host lawful genesis_hash genesis_hash xs ys refl len heads) [
        | inl both ↦ inl both.1
        | inr c ↦ inr c
      ]
