-- ===== src/Policies.antt =====
-- The workers' policy client: `get_policy`, `get_policy_version`, `_refresh`, `_default_policy` and the polling
-- of apps/workers/core/opa_client.py. A confidence is counted in ten-thousandths.
pub mod Polled
use safe_context.Base.{ℕ, String, List, [], ◌∷◌, Option, none, some}
use safe_context.Agents.{Policy}

-- The keys of a policy that the code reads or writes.
pub record PolicyDict : Type 0 where
  pub entities : Option (List String)
  pub score_threshold : Option ℕ
  pub confidence_threshold : Option ℕ

-- `_policy_cache["base"]`, where there is one, and `_policy_version`
pub record PolicyClient : Type 0 where
  pub base : Option PolicyDict
  pub policy_version : String

-- The client as it is made.
abbrev pub new_client : PolicyClient
new_client = record { base = none; policy_version = "unknown" }

-- `_default_policy`, for `settings.detector_confidence_threshold`
unfoldable pub default_policy : ℕ → PolicyDict
default_policy detector_confidence_threshold = record {
  entities = some ("EMAIL_ADDRESS" ∷ "PHONE_NUMBER" ∷ "PERSON" ∷ "API_KEY" ∷ "PASSWORD" ∷ []);
  score_threshold = none;
  confidence_threshold = some detector_confidence_threshold;
}

-- `get_policy("base")`
unfoldable pub get_policy : ℕ → PolicyClient → PolicyDict
unfolding default_policy
get_policy threshold client = elim client.base [
  | none ↦ default_policy threshold
  | some policy ↦ policy
]

-- A response: another status than 200, a body that is no JSON, or its `result`, if the body has one.
pub data Response (A : Type 0) : Type 0 where
  refused garbled : Response A
  ok : Option A → Response A

-- A poll: the requests raise, or both responses are there.
pub data Poll : Type 0 where
  unreachable : Poll
  polled : (version : Response String) (policy : Response PolicyDict) → Poll

-- A policy without keys
abbrev pub empty_policy : PolicyDict
empty_policy = record { entities = none; score_threshold = none; confidence_threshold = none }

refresh_policy : Response PolicyDict → PolicyClient → PolicyClient
refresh_policy refused client = client
refresh_policy garbled client = client
refresh_policy (ok none) client = record client { base = some empty_policy }
refresh_policy (ok (some policy)) client = record client { base = some policy }

-- `_refresh`, with the `except` of the polling loop: what was set before an exception stays set.
unfoldable pub refresh : Poll → PolicyClient → PolicyClient
unfolding refresh_policy
refresh unreachable client = client
refresh (polled refused policy) client = refresh_policy policy client
refresh (polled garbled policy) client = client
refresh (polled (ok none) policy) client = refresh_policy policy client
refresh (polled (ok (some version)) policy) client =
    refresh_policy policy (record client { policy_version = version })

-- `start_polling` over a sequence of polls, the first one first.
unfoldable pub polls : List Poll → PolicyClient → PolicyClient
unfolding refresh
polls [] client = client
polls (p ∷ ps) client = polls ps (refresh p client)

-- What a detector reads of a policy.
abbrev pub for_detector : PolicyDict → Policy
for_detector policy = record {
  entities = policy.entities;
  score_threshold = policy.score_threshold;
}
