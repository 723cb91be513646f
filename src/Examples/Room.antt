-- ===== src/Examples/Room.antt =====
-- The room of the examples: Alice created it, Bob moderates, Carol is a member, Mallory is banned.
use rezzy.Prelude.{String, false, ◌&&◌, none, some, List, [], ◌∷◌, ℤ, pos, ◌==◌, if◌then◌else◌}
use rezzy.Basespec.Event.{
  EventContent, empty_content, LeanEvent, empty_event, StateProvider, m_room_create, m_room_member,
  m_room_power_levels, m_room_join_rules,
}
use rezzy.Auth.Escalation.{levels}

abbrev pub member_content : String → EventContent
member_content membership = record empty_content { membership = some membership }

-- A power-levels content that lists the users.
abbrev pub users_content : List (String × ℤ) → EventContent
users_content users = record empty_content {
  user_power_level = levels users;
  user_power_levels = users;
}

abbrev pub state_event : String → String → String → String → EventContent → LeanEvent
state_event id event_type key sender content = record empty_event {
  event_id = id;
  event_type = event_type;
  state_key = some key;
  sender = sender;
  content = content;
}

abbrev pub create : LeanEvent
create =
    state_event "$create" m_room_create "" "@alice:x"
      (record empty_content { room_version = some "10" })

abbrev pub level_list : List (String × ℤ)
level_list = ("@alice:x", pos 100) ∷ ("@bob:x", pos 50) ∷ []

abbrev pub power : LeanEvent
power = state_event "$power" m_room_power_levels "" "@alice:x" (users_content level_list)

abbrev pub join_rules : LeanEvent
join_rules =
    state_event "$rules" m_room_join_rules "" "@alice:x"
      (record empty_content { join_rule = some "public" })

abbrev pub member : String → String → LeanEvent
member user membership = state_event user m_room_member user user (member_content membership)

abbrev pub find : List LeanEvent → StateProvider
find [] event_type key = none
find (e ∷ rest) event_type key =
    if e.event_type == event_type && (elim e.state_key [ none ↦ false | some k ↦ k == key ])
    then some e
    else find rest event_type key

abbrev pub room : StateProvider
room = find (
    create
    ∷ power
    ∷ join_rules
    ∷ member "@alice:x" "join"
    ∷ member "@bob:x" "join"
    ∷ member "@carol:x" "join"
    ∷ member "@mallory:x" "ban"
    ∷ [])
