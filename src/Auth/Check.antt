-- ===== src/Auth/Check.antt =====
-- `check_auth_with_context` and `validate_forward_extremity` (src/auth/mod.rs): the rules in their
-- order.
use Prim.Native.String.{◌++◌}
use rezzy.Prelude.{
  String, ◌&&◌, ◌||◌, not, Option, none, some, ltb, ltb_ℤ, ◌==◌, if◌then◌else◌, length, is_empty,
  is_some, is_some_and, opt_is, unwrap_or, contains, [], ◌∷◌, ok, err, ◌>>=◌, ◌>>◌, reject_if,
}
use rezzy.Basespec.Version.{StateResVersion, from_room_version, is_v2_2}
use rezzy.Basespec.Mxid.{is_valid_mxid, domain_matches, starts_with_at}
use rezzy.Basespec.Event.{
  LeanEvent, StateProvider, EventProvider, EventVerifier, prev_state_events, m_room_create,
  m_room_member, m_room_power_levels, m_room_aliases, m_room_redaction, mem_join, mem_leave,
  mem_ban,
}
use rezzy.Auth.Error.{
  AuthError, Check, not_member, insufficient_power_level, banned_user, invalid_state_key,
  create_with_prev_events, invalid_syntax, too_many_prev_events, too_many_auth_events,
  too_many_prev_state_events, empty_event_type, rejected_event, unrecognised_room_version,
  invalid_create_sender, cross_domain, aliases_without_state_key, aliases_domain_mismatch,
  redaction_not_allowed, member_without_state_key, member_without_membership,
}
use rezzy.Auth.State.{
  validated_room_version_or_v1, room_version_str_or_v1, reject_flagged_auth_state, when,
}
use rezzy.Auth.Levels.{get_sender_power_level, get_redact_power_level, get_required_power_level}
use rezzy.Auth.Members.{
  membership_of, verify_with, check_membership, check_membership_pl_hierarchies,
}
use rezzy.Auth.PowerLevels.{check_power_levels_event}
use rezzy.Auth.Citations.{check_auth_events}

-- Rule 0
unfoldable pub check_limits : LeanEvent → StateResVersion → Check
check_limits event version = do
  reject_if (ltb 20 (length event.prev_events)) (invalid_syntax too_many_prev_events)
  reject_if (not (is_v2_2 version) && ltb 10 (length event.auth_events))
      (invalid_syntax too_many_auth_events)
  reject_if (is_v2_2 version && ltb 20 (length (prev_state_events event)))
      (invalid_syntax too_many_prev_state_events)
  reject_if (event.event_type == "") (invalid_syntax empty_event_type)
  reject_if event.rejected (invalid_syntax rejected_event)

unfoldable pub run_verifier : Option EventVerifier → LeanEvent → Check
run_verifier verifier event = do
  verify_with verifier (λ v. v.verify_event_id_hash event.event_id)
  verify_with verifier (λ v. v.verify_signatures event.event_id)
  verify_with verifier (λ v. v.verify_content_hash event.event_id)

-- Rule 1
unfoldable pub check_create : LeanEvent → Check
check_create event = do
  reject_if (not (is_empty event.prev_events)) create_with_prev_events
  reject_if (not (is_valid_mxid event.sender)) (invalid_syntax invalid_create_sender)
  reject_if
      (event.content.has_malformed_room_version
        || is_some_and event.content.room_version (λ v. not (is_some (from_room_version v))))
      (invalid_syntax unrecognised_room_version)

-- Rule 3: `m.federate`
unfoldable pub check_federate : LeanEvent → StateProvider → Check
check_federate event state = elim (state m_room_create "") [
  | none ↦ ok tt
  | some create ↦
      reject_if
        (is_some_and create.content.m_federate not
          && not (domain_matches event.sender create.sender))
        (invalid_syntax (cross_domain event.sender))
]

-- Rule 4, of room versions 1 to 5
unfoldable pub check_aliases : LeanEvent → StateProvider → Check
check_aliases event state = do
  room_version ← room_version_str_or_v1 state
  when (contains ("1" ∷ "2" ∷ "3" ∷ "4" ∷ "5" ∷ []) room_version) (elim event.state_key [
    | none ↦ err (invalid_syntax aliases_without_state_key)
    | some state_key ↦
        reject_if (not (domain_matches state_key event.sender))
          (invalid_syntax aliases_domain_mismatch)
  ])

-- Rule 11, of room versions 1 and 2
unfoldable pub check_redaction : LeanEvent → StateProvider → StateResVersion → Check
check_redaction event state version = do
  room_version ← room_version_str_or_v1 state
  when (contains ("1" ∷ "2" ∷ []) room_version) (
      reject_if
        (ltb_ℤ (get_sender_power_level event.sender state version) (get_redact_power_level state)
          && not
              (is_some_and event.content.redacts (λ target. domain_matches target event.event_id)))
        (invalid_syntax redaction_not_allowed))

unfoldable pub check_citations :
    LeanEvent → StateProvider → StateResVersion → Option EventProvider → Check
check_citations event state version none = ok tt
check_citations event state version (some provider) =
    when (not (is_v2_2 version)) (check_auth_events event state version provider)

-- Rules 2 and 3: the sender is not banned, and is joined but for changes of its own membership.
unfoldable pub check_sender : LeanEvent → StateProvider → Check
check_sender event state = do
  let membership = unwrap_or (membership_of state event.sender) mem_leave
  let is_self_membership =
      event.event_type == m_room_member
      && opt_is event.state_key event.sender
      && not (opt_is event.content.membership mem_ban)
  reject_if (membership == mem_ban) (banned_user event.sender event.event_id)
  reject_if (not (membership == mem_join) && not is_self_membership)
      (not_member event.sender event.event_id)

-- Rule 4: the level that the event's type requires.
unfoldable pub check_level : LeanEvent → StateProvider → StateResVersion → Check
check_level event state version =
    let is_first_pl =
      not (is_some (state m_room_power_levels "")) && event.event_type == m_room_power_levels in
    let sender_pl = get_sender_power_level event.sender state version in
    let required_pl = get_required_power_level event.event_type event.state_key state in
    when (not (event.event_type == m_room_member) && not is_first_pl) (
      reject_if (ltb_ℤ sender_pl required_pl)
        (insufficient_power_level required_pl sender_pl event.event_type))

-- Rule 4b: a state key that is a user id is the sender's.
unfoldable pub check_user_state_key : LeanEvent → Check
check_user_state_key event = when (not (event.event_type == m_room_member)) (elim event.state_key [
  | none ↦ ok tt
  | some sk ↦
      reject_if (starts_with_at sk && not (sk == event.sender)) (invalid_state_key event.sender sk)
])

-- Rule 5, for a member event with its target and its membership.
unfoldable pub check_member_change :
    LeanEvent → StateProvider → StateResVersion → Option EventVerifier → String → String → Check
check_member_change event state version verifier target_user new_membership = do
  let current_membership = unwrap_or (membership_of state target_user) ""
  reject_if (new_membership == mem_ban && target_user == event.sender)
      (invalid_state_key ("!= " ++ event.sender) target_user)
  check_membership event state target_user new_membership current_membership version verifier
  check_membership_pl_hierarchies event state target_user new_membership version

unfoldable pub check_member_event :
    LeanEvent → StateProvider → StateResVersion → Option EventVerifier → Check
check_member_event event state version verifier = elim event.state_key [
  | none ↦ err (invalid_syntax member_without_state_key)
  | some target_user ↦ elim event.content.membership [
    | none ↦ err (invalid_syntax member_without_membership)
    | some new_membership ↦
        check_member_change event state version verifier target_user new_membership
  ]
]

-- The rules behind the early return for `m.room.create`.
unfoldable pub check_rules :
    LeanEvent
    → StateProvider
    → StateResVersion
    → Option EventVerifier
    → Option EventProvider
    → Check
check_rules event state version verifier auth_context = do
  label ← validated_room_version_or_v1 state
  check_federate event state
  when (event.event_type == m_room_aliases) (check_aliases event state)
  when (event.event_type == m_room_redaction) (check_redaction event state version)
  check_citations event state version auth_context
  check_sender event state
  check_level event state version
  check_user_state_key event
  when (event.event_type == m_room_power_levels) (check_power_levels_event event state version)
  when (event.event_type == m_room_member) (check_member_event event state version verifier)

unfoldable pub check_auth_with_context :
    LeanEvent
    → StateProvider
    → StateResVersion
    → Option EventVerifier
    → Option EventProvider
    → Check
check_auth_with_context event state version verifier auth_context = do
  check_limits event version
  reject_flagged_auth_state event state
  run_verifier verifier event
  if event.event_type == m_room_create
      then check_create event
      else check_rules event state version verifier auth_context

unfoldable pub check_auth :
    LeanEvent → StateProvider → StateResVersion → Option EventVerifier → Check
check_auth event state version verifier = check_auth_with_context event state version verifier none

pub data ForwardExtremityResult : Type 0 where
  valid : ForwardExtremityResult
  soft_failed rejected : AuthError → ForwardExtremityResult

unfoldable pub validate_forward_extremity :
    LeanEvent
    → StateProvider
    → StateProvider
    → StateResVersion
    → Option EventVerifier
    → ForwardExtremityResult
validate_forward_extremity event auth_events_state current_room_state version verifier =
    elim (check_auth event auth_events_state version verifier) [
      | err e ↦ rejected e
      | ok _ ↦ elim (check_auth event current_room_state version none) [
        | err e ↦ soft_failed e
        | ok _ ↦ valid
      ]
    ]
