-- ===== src/Evidence/Unsealed.antt =====
-- Chains that end in rows which are not sealed yet.

use safe_context.Base.{
  ℕ, zero, suc, ◌≡◌, refl, ap, ◌∙◌, inl, inr, List, [], ◌∷◌, ◌++◌, Option, none, some, arith, take,
  length, All, Option-cases,
}
use safe_context.Store.{Text, Operation}
use safe_context.Evidence.{
  Host, IsSha256, compute_chain_hash, genesis_hash, last_sealed, or_genesis,
}
use safe_context.Evidence.Chained.{link, IsChained}

abbrev pub IsUnsealed : Operation → Type 0
IsUnsealed op = op.chain_hash ≡ none

-- The hash that stands before a row behind those rows.
abbrev pub head_after : Text → List Operation → Text
head_after prev [] = prev
head_after prev (op ∷ ops) = elim op.chain_hash [
  | none ↦ head_after prev ops
  | some h ↦ head_after h ops
]

module _ (host : Host) where
  IsChained-unsealed :
      (prev : Text) (ops : List Operation) → All IsUnsealed ops → IsChained host prev ops
  IsChained-unsealed prev [] h = tt
  IsChained-unsealed prev (op ∷ ops) h = rw h.0 (IsChained-unsealed prev ops h.1)

  -- A sealed row fits behind the rows before it, where none behind it is sealed.
  pub IsChained-insert :
      (prev : Text) (front back : List Operation) (op : Operation) (c : Text)
      → op.chain_hash ≡ some c
      → c ≡ link host (head_after prev front) op
      → All IsUnsealed back
      → IsChained host prev front
      → IsChained host prev (front ++ (op ∷ back))
  IsChained-insert prev [] back op c e l u h = rw e (l, IsChained-unsealed c back u)
  IsChained-insert prev (r ∷ front) back op c e l u h = elim (Option-cases r.chain_hash) [
    | inl n ↦ rw n (IsChained-insert prev front back op c e (rw n at l) u (rw n at h))
    | inr (d, s) ↦
        let k : (d ≡ link host prev r) × IsChained host d front = rw s at h in
        rw s (k.0, IsChained-insert d front back op c e (rw s at l) u k.1)
  ]

  pub IsChained-front :
      (prev : Text) (front back : List Operation)
      → IsChained host prev (front ++ back)
      → IsChained host prev front
  IsChained-front prev [] back h = tt
  IsChained-front prev (r ∷ front) back h = elim (Option-cases r.chain_hash) [
    | inl n ↦ rw n (IsChained-front prev front back (rw n at h))
    | inr (d, s) ↦
        let k : (d ≡ link host prev r) × IsChained host d (front ++ back) = rw s at h in
        rw s (k.0, IsChained-front d front back k.1)
  ]

  pub IsChained-take :
      (n : ℕ) (prev : Text) (ops : List Operation)
      → IsChained host prev ops
      → IsChained host prev (take n ops)
  IsChained-take zero prev ops h = tt
  IsChained-take (suc n) prev [] h = tt
  IsChained-take (suc n) prev (r ∷ ops) h = elim (Option-cases r.chain_hash) [
    | inl e ↦ rw e (IsChained-take n prev ops (rw e at h))
    | inr (d, s) ↦
        let k : (d ≡ link host prev r) × IsChained host d ops = rw s at h in
        rw s (k.0, IsChained-take n d ops k.1)
  ]

  module _ (lawful : IsSha256 host) where
    length-link : (prev : Text) (op : Operation) → length (link host prev op) ≡ 64
    unfolding compute_chain_hash
    length-link prev op = lawful.digest_length _

    abbrev Is64 : Option Text → Type 0
    Is64 none = Unit
    Is64 (some h) = length h ≡ 64

    Is64-last : (o c : Option Text) → Is64 o → Is64 c → Is64 (elim o [ some h ↦ some h | none ↦ c ])
    Is64-last none c h k = k
    Is64-last (some d) c h k = h

    pub last_sealed-Is64 :
        (prev : Text) (ops : List Operation) → IsChained host prev ops → Is64 (last_sealed ops)
    unfolding last_sealed
    last_sealed-Is64 prev [] h = tt
    last_sealed-Is64 prev (r ∷ ops) h = elim (Option-cases r.chain_hash) [
      | inl e ↦
          Is64-last (last_sealed ops) r.chain_hash (last_sealed-Is64 prev ops (rw e at h)) (rw e tt)
      | inr (d, s) ↦
          let k : (d ≡ link host prev r) × IsChained host d ops = rw s at h in
          Is64-last (last_sealed ops) r.chain_hash (last_sealed-Is64 d ops k.1)
            (rw s (ap length k.0 ∙ length-link prev r))
    ]

abbrev pub or_last : Text → Option Text → Text
or_last prev none = prev
or_last prev (some h) = h

or_last-step :
    (prev : Text) (o c : Option Text)
    → or_last prev (elim o [ some h ↦ some h | none ↦ c ]) ≡ or_last (or_last prev c) o
or_last-step prev none c = refl
or_last-step prev (some h) c = refl

pub head_after-last :
    (prev : Text) (ops : List Operation) → or_last prev (last_sealed ops) ≡ head_after prev ops
unfolding last_sealed
head_after-last prev [] = refl
head_after-last prev (r ∷ ops) =
    or_last-step prev (last_sealed ops) r.chain_hash ∙ elim (Option-cases r.chain_hash) [
      | inl e ↦ rw e (head_after-last prev ops)
      | inr (d, s) ↦ rw s (head_after-last d ops)
    ]

pub or_genesis-Is64 :
    (host : Host) (lawful : IsSha256 host) (o : Option Text)
    → Is64 host lawful o
    → or_genesis o ≡ or_last genesis_hash o
unfolding or_genesis
or_genesis-Is64 host lawful none h = refl
or_genesis-Is64 host lawful (some []) h = absurd (omega (arith, h))
or_genesis-Is64 host lawful (some (c ∷ t)) h = refl

last_sealed-unsealed : (ops : List Operation) → All IsUnsealed ops → last_sealed ops ≡ none
unfolding last_sealed
last_sealed-unsealed [] h = refl
last_sealed-unsealed (r ∷ ops) h = rw (last_sealed-unsealed ops h.1) h.0

pub last_sealed-append :
    (front back : List Operation)
    → All IsUnsealed back
    → last_sealed (front ++ back) ≡ last_sealed front
unfolding last_sealed
last_sealed-append [] back h = last_sealed-unsealed back h
last_sealed-append (r ∷ front) back h = rw (last_sealed-append front back h) refl
