-- ===== src/Policies/Polled.antt =====
-- The policy that the workers use after a sequence of polls.
use safe_context.Base.{ℕ, ◌≡◌, refl, ap, ◌∙◌, List, [], ◌∷◌, Option, none, some}
use safe_context.Policies.{
  PolicyDict, PolicyClient, new_client, default_policy, get_policy, refused, garbled, ok, Poll,
  unreachable, polled, empty_policy, refresh_policy, refresh, polls,
}

-- The policy that a poll brings: the policy's response counts unless the version's is no JSON.
abbrev pub brings : Poll → Option PolicyDict
brings unreachable = none
brings (polled garbled policy) = none
brings (polled version refused) = none
brings (polled version garbled) = none
brings (polled version (ok none)) = some empty_policy
brings (polled version (ok (some policy))) = some policy

abbrev pub or_else : Option PolicyDict → Option PolicyDict → Option PolicyDict
or_else none o = o
or_else (some p) o = some p

-- The policy of the last poll that brings one.
abbrev pub latest : List Poll → Option PolicyDict
latest [] = none
latest (p ∷ ps) = or_else (latest ps) (brings p)

refresh-brings :
    (p : Poll) (client : PolicyClient) → (refresh p client).base ≡ or_else (brings p) client.base
unfolding refresh refresh_policy
refresh-brings unreachable client = refl
refresh-brings (polled garbled policy) client = refl
refresh-brings (polled refused refused) client = refl
refresh-brings (polled refused garbled) client = refl
refresh-brings (polled refused (ok none)) client = refl
refresh-brings (polled refused (ok (some policy))) client = refl
refresh-brings (polled (ok none) refused) client = refl
refresh-brings (polled (ok none) garbled) client = refl
refresh-brings (polled (ok none) (ok none)) client = refl
refresh-brings (polled (ok none) (ok (some policy))) client = refl
refresh-brings (polled (ok (some version)) refused) client = refl
refresh-brings (polled (ok (some version)) garbled) client = refl
refresh-brings (polled (ok (some version)) (ok none)) client = refl
refresh-brings (polled (ok (some version)) (ok (some policy))) client = refl

or_else_assoc : (a b c : Option PolicyDict) → or_else a (or_else b c) ≡ or_else (or_else a b) c
or_else_assoc none b c = refl
or_else_assoc (some p) b c = refl

polls-latest :
    (ps : List Poll) (client : PolicyClient)
    → (polls ps client).base ≡ or_else (latest ps) client.base
unfolding polls
polls-latest [] client = refl
polls-latest (p ∷ ps) client =
    polls-latest ps (refresh p client)
    ∙ ap (or_else (latest ps)) (refresh-brings p client)
    ∙ or_else_assoc (latest ps) (brings p) client.base

abbrev pub or_default : ℕ → Option PolicyDict → PolicyDict
or_default threshold none = default_policy threshold
or_default threshold (some policy) = policy

-- After any sequence of polls, whichever of them fail, the detectors get the policy of the last poll that
-- brought one, and the default where none has: the cache is the abstract history of polls, cut down to its
-- last success. A version's response that is no JSON makes its poll bring none.
pub get_policy-polls :
    (threshold : ℕ) (ps : List Poll)
    → get_policy threshold (polls ps new_client) ≡ or_default threshold (latest ps)
unfolding get_policy
get_policy-polls threshold ps =
    by_base (polls ps new_client).base (polls-latest ps new_client ∙ or_none (latest ps))
  where
    or_none : (o : Option PolicyDict) → or_else o none ≡ o
    or_none none = refl
    or_none (some policy) = refl

    by_base :
        (o : Option PolicyDict)
        → o ≡ latest ps
        → (elim o [ none ↦ default_policy threshold | some policy ↦ policy ])
          ≡ or_default threshold (latest ps)
    by_base none e = ap (or_default threshold) e
    by_base (some policy) e = ap (or_default threshold) e
