-- ===== src/Examples/Rules.antt =====
-- The theorems on waivers and policies, at a waiver that is revoked and polls that fail in between.
use safe_context.Base.{◌≡◌, refl, true, false, List, [], ◌∷◌, none, some, any, arith, ◌==◌}
use safe_context.Waivers.{
  active, WaiverDb, WaiverCreate, Editor, create_waiver, revoke_waiver, revoke_found, list_waivers,
}
use safe_context.Waivers.Revoked.{create, done, more, revoke_waiver-list_waivers}
use safe_context.Policies.{
  PolicyDict, refused, garbled, ok, Poll, unreachable, polled, new_client, get_policy, polls,
}
use safe_context.Policies.Polled.{latest, or_default, get_policy-polls}

abbrev test_editor : Editor
test_editor = record { is_privileged = true; sub = some 8; tenant_id = 3 }

abbrev test_body : WaiverCreate
test_body = record {
  rule_id = b'r' ∷ [];
  entity_pattern = b'e' ∷ [];
  justification = [];
  expires_at = none;
}

-- One waiver, with the id 5.
abbrev one_waiver : WaiverDb
one_waiver = record {
  waivers =
      record {
        id = 5;
        tenant_id = 3;
        rule_id = b'r' ∷ [];
        entity_pattern = b'e' ∷ [];
        justification = [];
        approved_by = 8;
        status = active;
        expires_at = none;
        created_at = 10;
      }
      ∷ [];
  next_id = 6;
}

revoke_waiver-list_waivers_example :
    any
      (λ w. w.id == 5)
      (list_waivers 50
        (create_waiver
          (λ t. true)
          40
          test_body
          test_editor
          (revoke_waiver test_editor 5 one_waiver).0).0)
    ≡ false
unfolding revoke_waiver revoke_found
revoke_waiver-list_waivers_example =
    revoke_waiver-list_waivers (λ t. true) test_editor 5 50 one_waiver
      (create_waiver (λ t. true) 40 test_body test_editor
        (revoke_waiver test_editor 5 one_waiver).0).0
      (omega arith) refl
      (more (create 40 test_body test_editor (revoke_waiver test_editor 5 one_waiver).0) (done _))

abbrev strict : PolicyDict
strict = record {
  entities = some ("SSN" ∷ []);
  score_threshold = some 4000;
  confidence_threshold = none;
}

abbrev test_polls : List Poll
test_polls =
    polled (ok (some "2.0.0")) (ok (some strict))
    ∷ unreachable
    ∷ polled garbled (ok none)
    ∷ polled refused refused
    ∷ []

get_policy-polls_example :
    get_policy 8500 (polls test_polls new_client) ≡ or_default 8500 (latest test_polls)
get_policy-polls_example = get_policy-polls 8500 test_polls
