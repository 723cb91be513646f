-- ===== src/Resolve/Overlay.antt =====
-- The state that an iterative auth check sees (src/state/at.rs, `OverlayState` and
-- `iterative_auth_ok`).
use rezzy.Prelude.{
  String, Bool, true, false, ◌&&◌, ◌||◌, Option, none, some, List, ◌==◌, if◌then◌else◌, is_some, ok,
  err,
}
use rezzy.Basespec.Version.{StateResVersion, has_ban_evasion_hardening}
use rezzy.Basespec.Event.{
  LeanEvent, StateProvider, m_room_create, m_room_member, m_room_power_levels, m_room_join_rules,
}
use rezzy.Auth.Check.{check_auth}
use rezzy.Resolve.State.{Key, get, SharedState, EventMap, get_or_else}

pub record OverlayState : Type 0 where
  pub resolved : SharedState
  pub auth_context : EventMap
  pub sort_set : EventMap
  pub local_auth : List (Key × LeanEvent)
  pub create_ev : Option LeanEvent
  pub version : StateResVersion
  pub is_power_phase : Bool
  pub candidate_event_type : String

-- The event of the resolved state.
abbrev pub resolved_event : OverlayState → String → String → Option LeanEvent
resolved_event s event_type state_key = elim (get event_type state_key s.resolved) [
  | none ↦ none
  | some eid ↦ get_or_else s.auth_context s.sort_set eid
]

-- What the local context may answer.
unfoldable pub local_event : OverlayState → String → String → LeanEvent → Option LeanEvent
local_event s event_type state_key ev =
    if s.is_power_phase
      && (has_ban_evasion_hardening s.version
          && (event_type == m_room_power_levels || event_type == m_room_join_rules))
    then (if is_some (get event_type state_key s.resolved)
        then none
        else if s.candidate_event_type == m_room_power_levels
            || (s.candidate_event_type == m_room_join_rules
                || s.candidate_event_type == m_room_member)
        then some ev
        else none)
    else some ev

-- `OverlayState::get_event`
unfoldable pub overlay : OverlayState → StateProvider
unfolding local_event
overlay s event_type state_key = elim (resolved_event s event_type state_key) [
  | some ev ↦ some ev
  | none ↦ elim (get event_type state_key s.local_auth) [
    | some ev ↦ local_event s event_type state_key ev
    | none ↦ if event_type == m_room_create && state_key == "" then s.create_ev else none
  ]
]

unfoldable pub iterative_auth_ok :
    LeanEvent
    → SharedState
    → EventMap
    → EventMap
    → List (Key × LeanEvent)
    → Option LeanEvent
    → StateResVersion
    → Bool
    → Bool
iterative_auth_ok ev resolved auth_context sort_set local_auth cached_create version
      is_power_phase =
    if ev.rejected
    then false
    else (elim (check_auth ev
        (overlay (record {
          resolved = resolved;
          auth_context = auth_context;
          sort_set = sort_set;
          local_auth = local_auth;
          create_ev = cached_create;
          version = version;
          is_power_phase = is_power_phase;
          candidate_event_type = ev.event_type;
        }))
        version none) [ ok _ ↦ true | err e ↦ false ])
