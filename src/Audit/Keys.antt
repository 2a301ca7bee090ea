-- ===== src/Audit/Keys.antt =====
-- The archive of public keys, against the keys that Vault signs with.
use safe_context.Base.{
  ℕ, ◌≡◌, refl, sym, ap, ◌∙◌, inl, inr, Bool, true, ◌&&◌, List, [], ◌∷◌, ◌++◌, Option, none, some,
  All, All-append, any, first, update_where, ◌==◌, ==_iff, if◌then◌else◌, Bool-cases,
}
use safe_context.Store.{Text, SigningKey}
use safe_context.Evidence.Seal.{
  SignReply, sign_raised, sign_replied, Vault, VaultConfig, truthy, signature_version,
  sign_operation_hash, try_sign, get_transit_public_key, archive_public_key_if_needed,
}
use safe_context.Audit.{base64_part, archived_pem}
use safe_context.Audit.Offline.{Ecdsa}

-- What Vault documents of an ECDSA key, whose public keys by version are `public`: a signature verifies
-- under the public key of the version that it names, and the listed keys are those.
pub record IsSigner (vault : Vault) (ecdsa : Ecdsa) (public : ℕ → Text) : Type 0 where
  pub signed :
      (h sig : Text)
      → vault.sign h ≡ sign_replied 200 sig
      → (truthy (some sig) ≡ true)
        × (ecdsa.verify (public (signature_version vault sig)) h (base64_part sig) ≡ some true)
  pub listed : (v : ℕ) (pem : Text) → get_transit_public_key vault v ≡ some pem → pem ≡ public v
  pub not_empty : (v : ℕ) → truthy (some (public v)) ≡ true

-- Every archived key is the public key of its version.
abbrev pub IsArchive : (ℕ → Text) → List SigningKey → Type 0
IsArchive public = All (λ r. r.public_key_pem ≡ public r.key_version)

-- A reply that yields a signature and its version.
abbrev pub signature_in : Vault → SignReply → Option (Text × ℕ)
signature_in vault r = elim r [
  | sign_raised ↦ none
  | sign_replied status s ↦ if status == 200 then some (s, signature_version vault s) else none
]

pub reply-signed :
    (vault : Vault) (r : SignReply) (sig : Text) (v : ℕ)
    → signature_in vault r ≡ some (sig, v)
    → (r ≡ sign_replied 200 sig) × (signature_version vault sig ≡ v)
reply-signed vault sign_raised sig v e = cc
reply-signed vault (sign_replied status s) sig v e = elim (Bool-cases (status == 200)) [
  | inl ok ↦
      let k : some (s, signature_version vault s) ≡ some (sig, v) = rw (ok) at e in
      let same : s ≡ sig = cc k in
      let number : signature_version vault s ≡ v = cc k in
      let status_200 : status ≡ 200 = (==_iff status 200).0 ok in
      (status_and_text status_200 same, ap (signature_version vault) (sym same) ∙ number)
  | inr bad ↦ absurd (cc (rw (bad) at e))
]
  where
    status_and_text : status ≡ 200 → s ≡ sig → sign_replied status s ≡ sign_replied 200 sig
    status_and_text p q = cc

pub try_sign-signed :
    (vault : Vault) (config : VaultConfig) (h sig : Text) (v : ℕ)
    → try_sign vault config h ≡ some (sig, v)
    → (vault.sign h ≡ sign_replied 200 sig) × (signature_version vault sig ≡ v)
unfolding try_sign sign_operation_hash
try_sign-signed vault config h sig v e =
    elim (Bool-cases
      (truthy config.vault_addr && (truthy config.vault_token && truthy config.vault_key))) [
        | inr off ↦ absurd (cc (rw (off) at e))
        | inl on ↦ reply-signed vault (vault.sign h) sig v (rw (on) at e)
      ]

module _ (public : ℕ → Text) where
  pub archive_public_key_if_needed-IsArchive :
      (vault : Vault) (ecdsa : Ecdsa) (signer : IsSigner vault ecdsa public) (v : ℕ)
      (rows : List SigningKey)
      → IsArchive public rows
      → IsArchive public (archive_public_key_if_needed vault v rows)
  unfolding archive_public_key_if_needed
  archive_public_key_if_needed-IsArchive vault ecdsa signer v rows h =
      elim (Bool-cases (any (λ r. r.key_version == v) rows)) [
        | inl there ↦ rw (there) h
        | inr missing ↦ rw (missing) (by_key (get_transit_public_key vault v) refl)
      ]
    where
      by_key :
          (o : Option Text)
          → get_transit_public_key vault v ≡ o
          → IsArchive public (elim o [
            | none ↦ rows
            | some pem ↦ rows ++ (record { key_version = v; public_key_pem = pem } ∷ [])
          ])
      by_key none e = h
      by_key (some pem) e =
          All-append _ rows (record { key_version = v; public_key_pem = pem } ∷ []) h
            (signer.listed v pem e, tt)

  first-key :
      (v : ℕ) (rows : List SigningKey)
      → IsArchive public rows
      → any (λ r. r.key_version == v) rows ≡ true
      → (r : SigningKey) × (first (λ r. r.key_version == v) rows ≡ some r)
        × (r.public_key_pem ≡ public v)
  first-key v [] h k = cc
  first-key v (r ∷ rows) h k = elim (Bool-cases (r.key_version == v)) [
    | inl e ↦ rw (e) (r, refl, h.0 ∙ ap public ((==_iff r.key_version v).0 e))
    | inr e ↦ rw (e) (first-key v rows h.1 (rw (e) at k))
  ]

  pub archived_pem-public :
      (v : ℕ) (rows : List SigningKey)
      → ((n : ℕ) → truthy (some (public n)) ≡ true)
      → IsArchive public rows
      → any (λ r. r.key_version == v) rows ≡ true
      → archived_pem (some v) rows ≡ some (public v)
  unfolding archived_pem
  archived_pem-public v rows full h k =
      let (r, e, pem) = first-key v rows h k in
      rw (e, archived_pem) (rw (pem) (ap (λ b. if b then some (public v) else none) (full v)))

pub first-update_where {ℓ} :
    {A : Type ℓ} (p q : A → Bool) (row r : A) (xs : List A)
    → first p xs ≡ some r
    → q r ≡ true
    → p row ≡ true
    → first p (update_where q (λ _. row) xs) ≡ some row
first-update_where p q row r [] f h k = cc
first-update_where p q row r (x ∷ xs) f h k = elim (Bool-cases (p x)) [
  | inl e ↦
      let same : x ≡ r = cc (rw (e) at f) in
      let here : q x ≡ true = ap q same ∙ h in rw (here) (rw (k) refl)
  | inr e ↦ elim (Bool-cases (q x)) [
    | inl g ↦ rw (g) (rw (k) refl)
    | inr g ↦ rw (g) (rw (e) (first-update_where p q row r xs (rw (e) at f) h k))
  ]
]
