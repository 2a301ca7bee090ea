-- ===== src/Waivers/Revoked.antt =====
-- A waiver that was revoked stays so.
use safe_context.Base.{
  ℕ, ◌≡◌, ◌<◌, refl, ap, ◌∙◌, inl, inr, Bool, true, false, ◌&&◌, List, [], ◌∷◌, Option, none, some,
  arith, All, All-append, any, any-filter, any-none, any-sorted_with, filter, update_where, ◌==◌,
  if◌then◌else◌, Bool-cases,
}
use safe_context.Store.{Text}
use safe_context.Waivers.{
  revoked, Waiver, WaiverDb, WaiverCreate, Editor, waiver_revoked, waiver_error, new_waiver,
  insert_waiver, create_waiver, is_active, not_expired, list_waivers, revoke_found, revoke_waiver,
}

module _ (compiles : Text → Bool) where
  -- What a request does to the table.
  pub data Step : WaiverDb → WaiverDb → Type 0 where
    create :
        (now : ℕ) (body : WaiverCreate) (editor : Editor) (t : WaiverDb)
        → Step t (create_waiver compiles now body editor t).0
    revoke : (editor : Editor) (id : ℕ) (t : WaiverDb) → Step t (revoke_waiver editor id t).0

  -- Any number of requests, one after the other.
  pub data Reach : WaiverDb → WaiverDb → Type 0 where
    done : (t : WaiverDb) → Reach t t
    more : {t u v : WaiverDb} → Step t u → Reach u v → Reach t v

-- No row with the id is active, and the id is not given again.
abbrev IsRevoked : ℕ → WaiverDb → Type 0
IsRevoked id t = All (λ w. (w.id == id && is_active w.status) ≡ false) t.waivers × (id < t.next_id)

revoked_rows :
    (id k : ℕ) (ws : List Waiver)
    → All (λ w. (w.id == id && is_active w.status) ≡ false) ws
    → All
        (λ w. (w.id == id && is_active w.status) ≡ false)
        (update_where (λ w. w.id == k) (λ w. record w { status = revoked }) ws)
revoked_rows id k [] h = tt
revoked_rows id k (w ∷ ws) h = elim (Bool-cases (w.id == k)) [
  | inl e ↦ rw (e) (and_false (w.id == id), revoked_rows id k ws h.1)
  | inr e ↦ rw (e) (h.0, revoked_rows id k ws h.1)
]
  where
    and_false : (b : Bool) → (b && false) ≡ false
    and_false true = refl
    and_false false = refl

own_rows :
    (id : ℕ) (ws : List Waiver)
    → All
        (λ w. (w.id == id && is_active w.status) ≡ false)
        (update_where (λ w. w.id == id) (λ w. record w { status = revoked }) ws)
own_rows id [] = tt
own_rows id (w ∷ ws) = elim (Bool-cases (w.id == id)) [
  | inl e ↦ rw (e) (and_false (w.id == id), own_rows id ws)
  | inr e ↦ rw (e) (ap (λ b. b && is_active w.status) e, own_rows id ws)
]
  where
    and_false : (b : Bool) → (b && false) ≡ false
    and_false true = refl
    and_false false = refl

create_waiver-IsRevoked :
    (compiles : Text → Bool) (now : ℕ) (body : WaiverCreate) (editor : Editor) (id : ℕ)
    (t : WaiverDb)
    → IsRevoked id t
    → IsRevoked id (create_waiver compiles now body editor t).0
unfolding create_waiver insert_waiver new_waiver
create_waiver-IsRevoked compiles now body editor id t h =
    by_case editor.is_privileged (compiles body.entity_pattern) editor.sub
  where
    other : ((t.next_id == id) && true) ≡ false
    other = ground (arith, h.1)

    by_case :
        (may fits : Bool) (sub : Option ℕ)
        → IsRevoked id
            (if may
              then if fits then insert_waiver now body editor sub t else (t, waiver_error 422)
              else (t, waiver_error 403)).0
    by_case false fits sub = h
    by_case true false sub = h
    by_case true true none = h
    by_case true true (some u) = (
      All-append _ t.waivers (new_waiver now body editor u t.next_id ∷ []) h.0 (other, tt),
      omega (arith, h.1),
    )

revoke_waiver-IsRevoked :
    (editor : Editor) (k id : ℕ) (t : WaiverDb)
    → IsRevoked id t
    → IsRevoked id (revoke_waiver editor k t).0
unfolding revoke_waiver revoke_found
revoke_waiver-IsRevoked editor k id t h =
    by_case editor.is_privileged (any (λ w. w.id == k) t.waivers)
  where
    by_case : (may there : Bool) → IsRevoked id (revoke_found may there k t).0
    by_case false there = h
    by_case true false = h
    by_case true true = (revoked_rows id k t.waivers h.0, h.1)

module _ (compiles : Text → Bool) where
  Step-IsRevoked : (id : ℕ) (t u : WaiverDb) → Step compiles t u → IsRevoked id t → IsRevoked id u
  Step-IsRevoked id t u (create now body editor _) h =
      create_waiver-IsRevoked compiles now body editor id t h
  Step-IsRevoked id t u (revoke editor k _) h = revoke_waiver-IsRevoked editor k id t h

  Reach-IsRevoked : (id : ℕ) (t u : WaiverDb) → Reach compiles t u → IsRevoked id t → IsRevoked id u
  Reach-IsRevoked id t u (done _) h = h
  Reach-IsRevoked id t u (more {u = v} s r) h = Reach-IsRevoked id v u r (Step-IsRevoked id t v s h)

  -- Take a revocation that is answered with 204, of an id that the table has given out. After any further
  -- sequence of requests that create and revoke, no waiver with that id is listed, at any moment.
  pub revoke_waiver-list_waivers :
      (editor : Editor) (id now : ℕ) (t u : WaiverDb)
      → id < t.next_id
      → (revoke_waiver editor id t).1 ≡ waiver_revoked
      → Reach compiles (revoke_waiver editor id t).0 u
      → any (λ w. w.id == id) (list_waivers now u) ≡ false
  unfolding revoke_waiver revoke_found list_waivers
  revoke_waiver-list_waivers editor id now t u given ok reach = unlisted u (
      Reach-IsRevoked id _ u reach
        (at_once editor.is_privileged (any (λ w. w.id == id) t.waivers) ok))
    where
      at_once :
          (may there : Bool)
          → (revoke_found may there id t).1 ≡ waiver_revoked
          → IsRevoked id (revoke_found may there id t).0
      at_once false there e = cc
      at_once true false e = cc
      at_once true true e = (own_rows id t.waivers, given)

      none_active :
          (ws : List Waiver)
          → All (λ w. (w.id == id && is_active w.status) ≡ false) ws
          → All
              (λ w. ((is_active w.status && not_expired now w.expires_at) && w.id == id) ≡ false)
              ws
      none_active [] h = tt
      none_active (w ∷ ws) h = (ground (arith, h.0), none_active ws h.1)

      unlisted :
          (v : WaiverDb) → IsRevoked id v → any (λ w. w.id == id) (list_waivers now v) ≡ false
      unlisted v h =
          any-sorted_with _ (λ w. w.id == id)
            (filter (λ w. is_active w.status && not_expired now w.expires_at) v.waivers)
          ∙ any-filter (λ w. is_active w.status && not_expired now w.expires_at) (λ w. w.id == id)
              v.waivers
          ∙ any-none _ v.waivers (none_active v.waivers h.0)
