-- ===== src/Auth/Accepted.antt =====
-- What an accepted event has passed: `check_auth_with_context` taken apart, rule by rule.
use rezzy.Prelude.{◌≡◌, Option, false, arith, ok, ◌==◌}
use rezzy.Basespec.Version.{StateResVersion}
use rezzy.Basespec.Event.{
  LeanEvent, StateProvider, EventProvider, EventVerifier, m_room_create, m_room_member,
  m_room_power_levels, m_room_aliases, m_room_redaction,
}
use rezzy.Auth.State.{reject_flagged_auth_state, when}
use rezzy.Auth.PowerLevels.{check_power_levels_event}
use rezzy.Auth.Check.{
  check_limits, run_verifier, check_federate, check_aliases, check_redaction, check_citations,
  check_sender, check_level, check_user_state_key, check_member_event, check_rules,
  check_auth_with_context,
}

-- The rules that an event which is no create event has passed.
pub record Rules (event : LeanEvent) (state : StateProvider) (version : StateResVersion)
    (verifier : Option EventVerifier) (ctx : Option EventProvider) : Type 0 where
  pub federate : check_federate event state ≡ ok tt
  pub aliases : when (event.event_type == m_room_aliases) (check_aliases event state) ≡ ok tt
  pub redaction :
      when (event.event_type == m_room_redaction) (check_redaction event state version) ≡ ok tt
  pub citations : check_citations event state version ctx ≡ ok tt
  pub sender : check_sender event state ≡ ok tt
  pub level : check_level event state version ≡ ok tt
  pub user_state_key : check_user_state_key event ≡ ok tt
  pub power_levels :
      when (event.event_type == m_room_power_levels) (check_power_levels_event event state version)
      ≡ ok tt
  pub member :
      when (event.event_type == m_room_member) (check_member_event event state version verifier)
      ≡ ok tt

module _ (event : LeanEvent) (state : StateProvider) (version : StateResVersion)
    (verifier : Option EventVerifier) (ctx : Option EventProvider) where
  pub check_rules-Rules :
      check_rules event state version verifier ctx ≡ ok tt → Rules event state version verifier ctx
  unfolding check_rules
  check_rules-Rules h = ground arith

  pub accepted_parts :
      check_auth_with_context event state version verifier ctx ≡ ok tt
      → (check_limits event version ≡ ok tt)
        × (reject_flagged_auth_state event state ≡ ok tt)
        × (run_verifier verifier event ≡ ok tt)
  unfolding check_auth_with_context
  accepted_parts h = ground arith

  pub accepted-Rules :
      check_auth_with_context event state version verifier ctx ≡ ok tt
      → (event.event_type == m_room_create) ≡ false
      → Rules event state version verifier ctx
  unfolding check_auth_with_context
  accepted-Rules h other = check_rules-Rules (ground arith)
