-- ===== src/Waivers.antt =====
-- Waivers: apps/api/api/v1/waivers.py, as a state machine over the table. A moment is a number of
-- microseconds; the table is in the order of creation.
pub mod Revoked
use safe_context.Base.{
  ℕ, ◌+◌, Bool, true, false, ◌&&◌, List, [], ◌∷◌, ◌++◌, Option, none, some, any, filter,
  update_where, ltb, ◌==◌, if◌then◌else◌, sorted_desc, sorted_with,
}
use safe_context.Store.{Text}

-- The values of the column `status`
pub data WaiverStatus : Type 0 where
  active expired revoked : WaiverStatus

-- `db.models.waiver.Waiver`
pub record Waiver : Type 0 where
  pub id : ℕ
  pub tenant_id : ℕ
  pub rule_id : Text
  pub entity_pattern : Text
  pub justification : Text
  pub approved_by : ℕ
  pub status : WaiverStatus
  pub expires_at : Option ℕ
  pub created_at : ℕ

-- The table, and an id that no row has had.
pub record WaiverDb : Type 0 where
  pub waivers : List Waiver
  pub next_id : ℕ

-- `WaiverCreate`
pub record WaiverCreate : Type 0 where
  pub rule_id : Text
  pub entity_pattern : Text
  pub justification : Text
  pub expires_at : Option ℕ

-- The claims that the endpoints read: whether one of the roles is privileged, `sub` as a UUID, if it is one,
-- and the tenant, which the default tenant stands in for.
pub record Editor : Type 0 where
  pub is_privileged : Bool
  pub sub : Option ℕ
  pub tenant_id : ℕ

-- The row, or nothing but the status 204, or the status of an error.
pub data WaiverReply : Type 0 where
  waiver_created : Waiver → WaiverReply
  waiver_revoked : WaiverReply
  waiver_error : ℕ → WaiverReply

unfoldable pub new_waiver : ℕ → WaiverCreate → Editor → ℕ → ℕ → Waiver
new_waiver now body editor approved_by id = record {
  id = id;
  tenant_id = editor.tenant_id;
  rule_id = body.rule_id;
  entity_pattern = body.entity_pattern;
  justification = body.justification;
  approved_by = approved_by;
  status = active;
  expires_at = body.expires_at;
  created_at = now;
}

unfoldable pub insert_waiver :
    ℕ → WaiverCreate → Editor → Option ℕ → WaiverDb → WaiverDb × WaiverReply
unfolding new_waiver
insert_waiver now body editor none t = (t, waiver_error 500)
insert_waiver now body editor (some approved_by) t =
    let waiver = new_waiver now body editor approved_by t.next_id in
    (
      record { waivers = t.waivers ++ (waiver ∷ []); next_id = t.next_id + 1 },
      waiver_created waiver,
    )

-- `create_waiver`, where `compiles` says whether `re.compile` takes a pattern.
unfoldable pub create_waiver :
    (Text → Bool) → ℕ → WaiverCreate → Editor → WaiverDb → WaiverDb × WaiverReply
unfolding insert_waiver new_waiver
create_waiver compiles now body editor t =
    if editor.is_privileged
    then if compiles body.entity_pattern
      then insert_waiver now body editor editor.sub t
      else (t, waiver_error 422)
    else (t, waiver_error 403)

abbrev pub is_active : WaiverStatus → Bool
is_active active = true
is_active _ = false

abbrev pub not_expired : ℕ → Option ℕ → Bool
not_expired now none = true
not_expired now (some t) = ltb now t

-- `list_waivers`, for any caller
unfoldable pub list_waivers : ℕ → WaiverDb → List Waiver
unfolding sorted_with
list_waivers now t =
    sorted_desc (λ w. w.created_at)
      (filter (λ w. is_active w.status && not_expired now w.expires_at) t.waivers)

-- The answer to a caller who may revoke or not, by whether the row is there.
unfoldable pub revoke_found : (is_privileged found : Bool) → ℕ → WaiverDb → WaiverDb × WaiverReply
revoke_found false found waiver_id t = (t, waiver_error 403)
revoke_found true false waiver_id t = (t, waiver_error 404)
revoke_found true true waiver_id t = (
  record t {
    waivers = update_where (λ w. w.id == waiver_id) (λ w. record w { status = revoked }) t.waivers;
  },
  waiver_revoked,
)

-- `revoke_waiver`
unfoldable pub revoke_waiver : Editor → ℕ → WaiverDb → WaiverDb × WaiverReply
unfolding revoke_found
revoke_waiver editor waiver_id t =
    revoke_found editor.is_privileged (any (λ w. w.id == waiver_id) t.waivers) waiver_id t
