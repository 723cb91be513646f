-- ===== src/Basespec/Event.antt =====
-- Events and their content (src/basespec/rezzy_types.rs, src/basespec/event_types.rs), at the default
-- type parameters: ids and state keys are texts.
use rezzy.Prelude.{
  ℕ, String, Bool, false, Option, none, List, [], ℤ, pos, Result, if◌then◌else◌, lookup,
}
use rezzy.Basespec.Version.{StateResVersion, is_v2_2}

abbrev pub m_room_create : String
m_room_create = "m.room.create"

abbrev pub m_room_member : String
m_room_member = "m.room.member"

abbrev pub m_room_power_levels : String
m_room_power_levels = "m.room.power_levels"

abbrev pub m_room_join_rules : String
m_room_join_rules = "m.room.join_rules"

abbrev pub m_room_third_party_invite : String
m_room_third_party_invite = "m.room.third_party_invite"

abbrev pub m_room_aliases : String
m_room_aliases = "m.room.aliases"

abbrev pub m_room_redaction : String
m_room_redaction = "m.room.redaction"

abbrev pub mem_join : String
mem_join = "join"

abbrev pub mem_leave : String
mem_leave = "leave"

abbrev pub mem_ban : String
mem_ban = "ban"

abbrev pub mem_invite : String
mem_invite = "invite"

abbrev pub mem_knock : String
mem_knock = "knock"

-- The trait `EventContent`: the value of each accessor, and for each `visit_…` method the list of
-- what it visits, in order.
pub record EventContent : Type 0 where
  pub membership : Option String
  pub join_rule : Option String
  pub user_power_level : String → Option ℤ
  pub event_power_level : String → Option ℤ
  pub users_default : Option ℤ
  pub events_default : Option ℤ
  pub state_default : Option ℤ
  pub ban : Option ℤ
  pub kick : Option ℤ
  pub invite : Option ℤ
  pub redact : Option ℤ
  pub creator : Option String
  pub room_version : Option String
  pub has_malformed_room_version : Bool
  pub m_federate : Option Bool
  pub redacts : Option String
  pub has_additional_creator : String → Bool
  pub join_authorised_via_users_server : Option String
  pub has_third_party_invite : Bool
  pub third_party_invite_token : Option String
  pub third_party_invite_mxid : Option String
  pub has_third_party_invite_signatures : Bool
  pub event_power_levels : List (String × ℤ)
  pub user_power_levels : List (String × ℤ)
  pub notification_power_levels : List (String × ℤ)
  pub non_integer_scalar_pl : Option String
  pub non_integer_map_pl : Option String
  pub has_non_integer_users_pl : Bool → Bool
  pub user_keys : List String
  pub has_user_in_users : String → Bool

-- The content `{}` of the JSON implementation: every field is absent.
abbrev pub empty_content : EventContent
empty_content = record {
  membership = none;
  join_rule = none;
  user_power_level = λ user. none;
  event_power_level = λ event_type. none;
  users_default = none;
  events_default = none;
  state_default = none;
  ban = none;
  kick = none;
  invite = none;
  redact = none;
  creator = none;
  room_version = none;
  has_malformed_room_version = false;
  m_federate = none;
  redacts = none;
  has_additional_creator = λ sender. false;
  join_authorised_via_users_server = none;
  has_third_party_invite = false;
  third_party_invite_token = none;
  third_party_invite_mxid = none;
  has_third_party_invite_signatures = false;
  event_power_levels = [];
  user_power_levels = [];
  notification_power_levels = [];
  non_integer_scalar_pl = none;
  non_integer_map_pl = none;
  has_non_integer_users_pl = λ strict. false;
  user_keys = [];
  has_user_in_users = λ user. false;
}

-- `LeanEvent`
pub record LeanEvent : Type 0 where
  pub event_id : String
  pub event_type : String
  pub state_key : Option String
  pub power_level : ℤ
  pub origin_server_ts : ℕ
  pub sender : String
  pub content : EventContent
  pub prev_events : List String
  pub auth_events : List String
  pub depth : ℕ
  pub rejected : Bool
  pub soft_fail : Bool
  pub room_id : Option String

abbrev pub empty_event : LeanEvent
empty_event = record {
  event_id = "";
  event_type = "";
  state_key = none;
  power_level = pos 0;
  origin_server_ts = 0;
  sender = "";
  content = empty_content;
  prev_events = [];
  auth_events = [];
  depth = 0;
  rejected = false;
  soft_fail = false;
  room_id = none;
}

-- `LeanEvent` keeps `prev_state_events` in the field `auth_events`.
abbrev pub prev_state_events : LeanEvent → List String
prev_state_events e = e.auth_events

-- `DagNode::dag_edges`
unfoldable pub dag_edges : LeanEvent → StateResVersion → List String
unfolding is_v2_2
dag_edges e version = if is_v2_2 version then prev_state_events e else e.auth_events

-- `StateProvider::get_event`: the state event of a type and a state key.
abbrev pub StateProvider : Type 0
StateProvider = String → String → Option LeanEvent

-- `EventProvider::get_event`: the event of an id.
abbrev pub EventProvider : Type 0
EventProvider = String → Option LeanEvent

-- A `HashMap` of events as a provider, and the two maps of a `SortContext`.
abbrev pub provider_of : List (String × LeanEvent) → EventProvider
provider_of events id = lookup id events

-- The trait `EventVerifier`, which the host homeserver implements.
pub record EventVerifier : Type 0 where
  pub verify_event_id_hash : String → Result String (Unit {0})
  pub verify_signatures : String → Result String (Unit {0})
  pub verify_content_hash : String → Result String (Unit {0})
  pub verify_third_party_invite : String → String → Result String (Unit {0})
  pub verify_join_authorised_via_users_server : String → String → Result String (Unit {0})
