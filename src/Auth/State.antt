-- ===== src/Auth/State.antt =====
-- What the checks read of the state: the room's version, and whether auth state was rejected
-- (src/auth/mod.rs).
use rezzy.Prelude.{
  ℕ, String, Bool, true, false, ◌&&◌, ◌||◌, Option, none, some, leb, ◌==◌, if◌then◌else◌,
  is_some_and, opt_is, unwrap_or, Result, ok, err, ◌>>=◌, ◌>>◌, reject_if,
}
use rezzy.Basespec.Version.{from_room_version, is_v2_1_plus}
use rezzy.Basespec.Mxid.{codes, parse_u32}
use rezzy.Basespec.Event.{
  LeanEvent, StateProvider, m_room_create, m_room_member, m_room_power_levels, m_room_join_rules,
  m_room_third_party_invite, mem_join, mem_invite, mem_knock,
}
use rezzy.Auth.Error.{
  AuthError, Check, invalid_syntax, missing_create, unrecognised_room_version, rejected_auth_state,
}

-- The number that a recognised version label stands for; `1` where no arm fits.
unfoldable pub version_number : String → ℕ
version_number v = elim (parse_u32 (codes v)) [
  | some num ↦ num
  | none ↦ if is_some_and (from_room_version v) is_v2_1_plus then 12 else 1
]

unfoldable pub room_version_of_create : LeanEvent → Result AuthError ℕ
unfolding version_number
room_version_of_create create = elim create.content.room_version [
  | none ↦ ok 1
  | some v ↦ elim (from_room_version v) [
    | none ↦ err (invalid_syntax unrecognised_room_version)
    | some algorithm ↦ ok (version_number v)
  ]
]

unfoldable pub get_room_version_num : StateProvider → Result AuthError ℕ
unfolding room_version_of_create
get_room_version_num state = elim (state m_room_create "") [
  | none ↦ err missing_create
  | some create ↦ room_version_of_create create
]

unfoldable pub room_version_at_least : StateProvider → ℕ → Result AuthError Bool
room_version_at_least state minimum_version = do
  num ← get_room_version_num state
  ok (leb minimum_version num)

unfoldable pub validated_version_of_create : LeanEvent → Result AuthError (Option String)
validated_version_of_create create = elim create.content.room_version [
  | none ↦
      if create.content.has_malformed_room_version
      then err (invalid_syntax unrecognised_room_version)
      else ok none
  | some version ↦ elim (from_room_version version) [
    | none ↦ err (invalid_syntax unrecognised_room_version)
    | some algorithm ↦ ok (some version)
  ]
]

unfoldable pub validated_room_version_or_v1 : StateProvider → Result AuthError (Option String)
unfolding validated_version_of_create
validated_room_version_or_v1 state = elim (state m_room_create "") [
  | none ↦ ok none
  | some create ↦ validated_version_of_create create
]

unfoldable pub room_version_str_or_v1 : StateProvider → Result AuthError String
room_version_str_or_v1 state = do
  version ← validated_room_version_or_v1 state
  ok (unwrap_or version "1")

unfoldable pub reject_if_flagged_auth_state : StateProvider → String → String → Check
reject_if_flagged_auth_state state event_type state_key =
    reject_if (is_some_and (state event_type state_key) (λ e. e.rejected))
      (invalid_syntax (rejected_auth_state event_type state_key))

-- A check of the value, if there is one.
abbrev pub if_some : Option String → (String → Check) → Check
if_some none check = ok tt
if_some (some s) check = check s

abbrev pub when : Bool → Check → Check
when true check = check
when false check = ok tt

unfoldable pub reject_flagged_auth_state : LeanEvent → StateProvider → Check
unfolding reject_if_flagged_auth_state
reject_flagged_auth_state event state = do
  let is_member = event.event_type == m_room_member
  let membership = event.content.membership
  reject_if_flagged_auth_state state m_room_create ""
  reject_if_flagged_auth_state state m_room_power_levels ""
  reject_if_flagged_auth_state state m_room_member event.sender
  when is_member (if_some event.state_key (reject_if_flagged_auth_state state m_room_member))
  when
      (is_member
        && (opt_is membership mem_join
            || opt_is membership mem_invite
            || opt_is membership mem_knock))
      (reject_if_flagged_auth_state state m_room_join_rules "")
  when (is_member && opt_is membership mem_join) (
      if_some event.content.join_authorised_via_users_server
        (reject_if_flagged_auth_state state m_room_member))
  when (is_member && opt_is membership mem_invite) (
      if_some event.content.third_party_invite_token
        (reject_if_flagged_auth_state state m_room_third_party_invite))
