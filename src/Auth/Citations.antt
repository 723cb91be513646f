-- ===== src/Auth/Citations.antt =====
-- The rules on an event's `auth_events` (src/auth/mod.rs): the selection algorithm and the checks
-- of the citations against it.
use rezzy.Prelude.{
  String, Bool, true, false, ◌&&◌, ◌||◌, not, Option, none, some, List, [], ◌∷◌, ◌++◌, leb, ◌==◌,
  if◌then◌else◌, contains, is_some, is_some_and, opt_is, unwrap_or, ok, err, ◌>>=◌, ◌>>◌, reject_if,
  Result,
}
use rezzy.Basespec.Version.{StateResVersion, from_room_version, is_v2_1_plus}
use rezzy.Basespec.Mxid.{codes, before_dot, parse_u32}
use rezzy.Basespec.Event.{
  LeanEvent, StateProvider, EventProvider, m_room_create, m_room_member, m_room_power_levels,
  m_room_join_rules, m_room_third_party_invite, mem_join, mem_invite, mem_knock,
}
use rezzy.Auth.Error.{
  AuthError, Check, missing_auth_event, rejected_auth_event, incomplete_auth_events, invalid_syntax,
  missing_create_in_state, auth_events_without_create, create_cited, unexpected_auth_event_type,
  duplicate_auth_event,
}
use rezzy.Auth.State.{room_version_str_or_v1, when}

abbrev pub StateKey : Type 0
StateKey = String × String

abbrev when_keys : Bool → List StateKey → List StateKey
when_keys true keys = keys
when_keys false keys = []

abbrev key_of : String → Option String → List StateKey
key_of event_type none = []
key_of event_type (some state_key) = (event_type, state_key) ∷ []

-- Restricted joins: the label's first part is a number of at least 8, or the algorithm is V2.1+.
unfoldable pub supports_restricted_joins : String → Bool
supports_restricted_joins room_version =
    is_some_and (parse_u32 (before_dot (codes room_version))) (λ major. leb 8 major)
    || is_some_and (from_room_version room_version) is_v2_1_plus

-- `state_key.filter(|sk| *sk != sender)`
abbrev pub other_user : Option String → String → Option String
other_user none sender = none
other_user (some sk) sender = if sk == sender then none else some sk

unfoldable pub member_auth_types :
    String → Option String → Option String → Option String → Option String → String → List StateKey
member_auth_types sender state_key membership token authorising_user room_version =
    key_of m_room_member (other_user state_key sender)
    ++ (when_keys
          (opt_is membership mem_join
            || opt_is membership mem_invite
            || opt_is membership mem_knock)
          ((m_room_join_rules, "") ∷ [])
        ++ (when_keys (opt_is membership mem_invite) (key_of m_room_third_party_invite token)
            ++ when_keys (opt_is membership mem_join && supports_restricted_joins room_version)
                (key_of m_room_member authorising_user)))

unfoldable pub auth_types_for_event_core :
    String
    → String
    → Option String
    → Option String
    → Option String
    → Option String
    → StateResVersion
    → String
    → List StateKey
unfolding member_auth_types
auth_types_for_event_core event_type sender state_key membership token authorising_user version
      room_version =
    if event_type == m_room_create
    then []
    else when_keys (not (is_v2_1_plus version)) ((m_room_create, "") ∷ [])
      ++ ((m_room_member, sender)
          ∷ (m_room_power_levels, "")
          ∷ when_keys (event_type == m_room_member)
              (member_auth_types sender state_key membership token authorising_user room_version))

-- `required_auth_types_for`, which is `auth_types_for_event_like` too.
unfoldable pub required_auth_types_for : LeanEvent → StateResVersion → String → List StateKey
unfolding auth_types_for_event_core
required_auth_types_for event version room_version =
    auth_types_for_event_core event.event_type event.sender event.state_key event.content.membership
      event.content.third_party_invite_token event.content.join_authorised_via_users_server version
      room_version

abbrev pub valid_auth_types : List String
valid_auth_types =
    m_room_create ∷ m_room_member ∷ m_room_power_levels ∷ m_room_join_rules
    ∷ m_room_third_party_invite ∷ []

-- The map `seen_tuples`, from a state key to the id that was cited for it.
abbrev pub Seen : Type 0
Seen = List (String × String × String)

unfoldable pub cited : Seen → String → String → Option String
cited [] event_type state_key = none
cited ((t, k, id) ∷ rest) event_type state_key =
    if t == event_type && k == state_key then some id else cited rest event_type state_key

-- One round of the loop over `auth_events`: the checks of one citation.
unfoldable pub check_citation : LeanEvent → StateResVersion → Seen → String → LeanEvent → Check
check_citation event version seen auth_id auth_ev = do
  reject_if auth_ev.rejected (rejected_auth_event event.event_id auth_id)
  reject_if (is_v2_1_plus version && auth_ev.event_type == m_room_create)
      (invalid_syntax create_cited)
  reject_if (not (contains valid_auth_types auth_ev.event_type))
      (invalid_syntax (unexpected_auth_event_type auth_ev.event_type))
  reject_if (is_some (cited seen auth_ev.event_type (unwrap_or auth_ev.state_key "")))
      (invalid_syntax duplicate_auth_event)

unfoldable pub collect_citations :
    LeanEvent → StateResVersion → EventProvider → Seen → List String → Result AuthError Seen
collect_citations event version provider seen [] = ok seen
collect_citations event version provider seen (auth_id ∷ rest) = elim (provider auth_id) [
  | none ↦ err (missing_auth_event auth_id)
  | some auth_ev ↦ do
    check_citation event version seen auth_id auth_ev
    collect_citations event version provider
        ((auth_ev.event_type, unwrap_or auth_ev.state_key "", auth_id) ∷ seen) rest
]

-- Rule 2.2: each required key that the state has is cited, by the id that the state has.
unfoldable pub check_required : StateProvider → Seen → List StateKey → Check
check_required state seen [] = ok tt
check_required state seen ((req_type, req_key) ∷ rest) = elim (state req_type req_key) [
  | none ↦ check_required state seen rest
  | some state_ev ↦ do
    reject_if (not (opt_is (cited seen req_type req_key) state_ev.event_id))
        (incomplete_auth_events req_type req_key)
    check_required state seen rest
]

-- Rule 2.4, of room versions 1 to 11.
unfoldable pub check_create_cited : LeanEvent → StateProvider → Check
check_create_cited event state = elim (state m_room_create "") [
  | none ↦ err (invalid_syntax missing_create_in_state)
  | some create ↦
      reject_if (not (contains event.auth_events create.event_id))
        (invalid_syntax auth_events_without_create)
]

unfoldable pub check_auth_events :
    LeanEvent → StateProvider → StateResVersion → EventProvider → Check
unfolding check_create_cited
check_auth_events event state version provider = do
  when (not (is_v2_1_plus version)) (check_create_cited event state)
  seen ← collect_citations event version provider [] event.auth_events
  room_version ← room_version_str_or_v1 state
  check_required state seen (required_auth_types_for event version room_version)
