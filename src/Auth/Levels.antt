-- ===== src/Auth/Levels.antt =====
-- Power levels of senders and of actions (src/auth/user.rs, src/auth/mod.rs).
use rezzy.Prelude.{
  String, Bool, false, ◌||◌, Option, none, some, ℤ, pos, i64_max, leb_ℤ, ◌==◌, if◌then◌else◌,
  and_then, is_some, unwrap_or,
}
use rezzy.Basespec.Version.{StateResVersion, is_v2_1_plus}
use rezzy.Basespec.Event.{
  LeanEvent, EventContent, StateProvider, m_room_create, m_room_power_levels,
  m_room_third_party_invite,
}

-- `m.room.create`'s sender and its additional creators, of room versions 12 and later.
unfoldable pub is_creator : LeanEvent → String → Bool
is_creator create sender = create.sender == sender || create.content.has_additional_creator sender

-- The level that the power-levels event gives a user.
unfoldable pub level_in : EventContent → String → ℤ
level_in pl sender = elim (pl.user_power_level sender) [
  | some level ↦ level
  | none ↦ unwrap_or pl.users_default (pos 0)
]

-- Without a power-levels event, the creator of `content.creator`, or else the sender, has 100.
unfoldable pub level_without_pl : Option LeanEvent → String → ℤ
level_without_pl none sender = pos 0
level_without_pl (some create) sender =
    if unwrap_or create.content.creator create.sender == sender then pos 100 else pos 0

unfoldable pub has_infinite_power : StateProvider → StateResVersion → String → Bool
unfolding is_creator
has_infinite_power state version sender =
    if is_v2_1_plus version
    then elim (state m_room_create "") [ none ↦ false | some create ↦ is_creator create sender ]
    else false

unfoldable pub get_sender_power_level : String → StateProvider → StateResVersion → ℤ
unfolding level_in level_without_pl
get_sender_power_level sender state version =
    if has_infinite_power state version sender
    then i64_max
    else elim (state m_room_power_levels "") [
      | some pl ↦ level_in pl.content sender
      | none ↦ level_without_pl (state m_room_create "") sender
    ]

pl_field_or_default : StateProvider → (EventContent → Option ℤ) → ℤ → ℤ
pl_field_or_default state select default =
    unwrap_or (and_then (state m_room_power_levels "") (λ pl. select pl.content)) default

unfoldable pub get_redact_power_level : StateProvider → ℤ
unfolding pl_field_or_default
get_redact_power_level state = pl_field_or_default state (λ c. c.redact) (pos 50)

unfoldable pub get_kick_power_level : StateProvider → ℤ
unfolding pl_field_or_default
get_kick_power_level state = pl_field_or_default state (λ c. c.kick) (pos 50)

unfoldable pub get_invite_power_level : StateProvider → ℤ
unfolding pl_field_or_default
get_invite_power_level state = pl_field_or_default state (λ c. c.invite) (pos 0)

unfoldable pub get_ban_power_level : StateProvider → ℤ
unfolding pl_field_or_default
get_ban_power_level state = pl_field_or_default state (λ c. c.ban) (pos 50)

unfoldable pub pl_threshold_for_event : LeanEvent → String → Option String → ℤ
pl_threshold_for_event pl event_type state_key =
    if event_type == m_room_third_party_invite
    then unwrap_or pl.content.invite (pos 0)
    else elim (pl.content.event_power_level event_type) [
      | some level ↦ level
      | none ↦
          if is_some state_key
          then unwrap_or pl.content.state_default (pos 50)
          else unwrap_or pl.content.events_default (pos 0)
    ]

unfoldable pub get_required_power_level : String → Option String → StateProvider → ℤ
unfolding pl_threshold_for_event
get_required_power_level event_type state_key state = elim (state m_room_power_levels "") [
  | some pl ↦ pl_threshold_for_event pl event_type state_key
  | none ↦
      if event_type == m_room_third_party_invite
      then pos 0
      else if is_some state_key
      then pos 50
      else pos 0
]

-- `user_can_invite`, `user_can_ban`, `user_can_kick`, `user_can_redact`
meets_threshold : String → StateProvider → StateResVersion → ℤ → Bool
meets_threshold user state version threshold =
    leb_ℤ threshold (get_sender_power_level user state version)

unfoldable pub user_can_invite : String → StateProvider → StateResVersion → Bool
unfolding meets_threshold
user_can_invite user state version =
    meets_threshold user state version (get_invite_power_level state)

unfoldable pub user_can_ban : String → StateProvider → StateResVersion → Bool
unfolding meets_threshold
user_can_ban user state version = meets_threshold user state version (get_ban_power_level state)

unfoldable pub user_can_kick : String → StateProvider → StateResVersion → Bool
unfolding meets_threshold
user_can_kick user state version = meets_threshold user state version (get_kick_power_level state)

unfoldable pub user_can_redact : String → StateProvider → StateResVersion → Bool
unfolding meets_threshold
user_can_redact user state version =
    meets_threshold user state version (get_redact_power_level state)
