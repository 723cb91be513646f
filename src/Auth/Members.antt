-- ===== src/Auth/Members.antt =====
-- The rules of `m.room.member` events (src/auth/mod.rs): one function for each membership, and the
-- hierarchy check that follows them.
use Prim.Native.String.{◌++◌}
use rezzy.Prelude.{
  String, Bool, ◌&&◌, ◌||◌, not, Option, none, some, ℤ, ltb_ℤ, leb_ℤ, saturating_suc, ◌==◌,
  if◌then◌else◌, and_then, is_some_and, unwrap_or, ok, err, ◌>>=◌, ◌>>◌, reject_if, map_err, Result,
}
use rezzy.Basespec.Version.{StateResVersion}
use rezzy.Basespec.Event.{
  LeanEvent, StateProvider, EventVerifier, m_room_create, m_room_member, m_room_join_rules,
  m_room_third_party_invite, mem_join, mem_leave, mem_ban, mem_invite, mem_knock,
}
use rezzy.Auth.Error.{
  AuthError, Check, not_member, insufficient_power_level, banned_user, invalid_state_key,
  invalid_syntax, unverified, invite_without_token, invite_without_mxid, invite_without_signatures,
  unknown_membership,
}
use rezzy.Auth.State.{room_version_at_least}
use rezzy.Auth.Levels.{
  get_sender_power_level, get_kick_power_level, get_ban_power_level, get_invite_power_level,
}

-- The membership of a user in the state, if there is a member event with one.
abbrev pub membership_of : StateProvider → String → Option String
membership_of state user = and_then (state m_room_member user) (λ e. e.content.membership)

-- The error for a level below the required one.
abbrev pub require_level : ℤ → ℤ → String → Check
require_level required actual label =
    reject_if (ltb_ℤ actual required) (insufficient_power_level required actual label)

unfoldable pub check_leave_rules :
    LeanEvent → StateProvider → String → String → StateResVersion → Check
check_leave_rules event state target_user current_membership version =
    let sender_pl = get_sender_power_level event.sender state version in
    if target_user == event.sender
    then reject_if
        (not (
          current_membership == mem_invite
          || current_membership == mem_join
          || current_membership == mem_knock))
        (not_member event.sender event.event_id)
    else if current_membership == mem_ban
    then require_level (get_ban_power_level state) sender_pl "unban"
    else require_level (get_kick_power_level state) sender_pl "kick"

unfoldable pub check_ban_rules : LeanEvent → StateProvider → StateResVersion → Check
check_ban_rules event state version =
    require_level (get_ban_power_level state) (get_sender_power_level event.sender state version)
      "ban"

-- A call of the verifier, if there is one.
abbrev pub verify_with : Option EventVerifier → (EventVerifier → Result String (Unit {0})) → Check
verify_with none call = ok tt
verify_with (some v) call = map_err (λ reason. invalid_syntax (unverified reason)) (call v)

-- The invite of a `third_party_invite` with a token and an mxid.
unfoldable pub check_third_party_invite :
    LeanEvent
    → StateProvider
    → String
    → StateResVersion
    → Option EventVerifier
    → String
    → String
    → Check
check_third_party_invite event state target_user version verifier token mxid = do
  reject_if (not event.content.has_third_party_invite_signatures)
      (invalid_syntax invite_without_signatures)
  verify_with verifier (λ v. v.verify_third_party_invite event.event_id token)
  reject_if (not (mxid == target_user)) (invalid_state_key ("mxid == " ++ target_user) mxid)
  elim (state m_room_third_party_invite token) [
    | none ↦ err (invalid_state_key "m.room.third_party_invite event exists" "missing")
    | some tpi_event ↦ do
      reject_if (not (tpi_event.sender == event.sender))
          (invalid_state_key ("sender == " ++ tpi_event.sender) event.sender)
      require_level (get_invite_power_level state)
          (get_sender_power_level tpi_event.sender state version) "invite"
  ]

-- A missing text is the given error.
abbrev pub ok_or : Option String → AuthError → Result AuthError String
ok_or none e = err e
ok_or (some s) e = ok s

unfoldable pub check_invite_with_token :
    LeanEvent → StateProvider → String → String → StateResVersion → Option EventVerifier → Check
unfolding check_third_party_invite
check_invite_with_token event state target_user current_membership version verifier = do
  reject_if (current_membership == mem_ban) (banned_user target_user event.event_id)
  token ← ok_or event.content.third_party_invite_token (invalid_syntax invite_without_token)
  mxid ← ok_or event.content.third_party_invite_mxid (invalid_syntax invite_without_mxid)
  check_third_party_invite event state target_user version verifier token mxid

unfoldable pub check_plain_invite :
    LeanEvent → StateProvider → String → String → StateResVersion → Check
check_plain_invite event state target_user current_membership version = do
  require_level (get_invite_power_level state) (get_sender_power_level event.sender state version)
      "invite"
  reject_if (current_membership == mem_join) (not_member target_user event.event_id)
  reject_if (current_membership == mem_ban) (banned_user target_user event.event_id)

unfoldable pub check_invite_rules :
    LeanEvent → StateProvider → String → String → StateResVersion → Option EventVerifier → Check
unfolding check_invite_with_token check_plain_invite
check_invite_rules event state target_user current_membership version verifier = do
  reject_if (target_user == event.sender) (invalid_state_key ("!= " ++ event.sender) target_user)
  if event.content.has_third_party_invite
      then check_invite_with_token event state target_user current_membership version verifier
      else check_plain_invite event state target_user current_membership version

unfoldable pub check_membership_pl_hierarchies :
    LeanEvent → StateProvider → String → String → StateResVersion → Check
check_membership_pl_hierarchies event state target_user new_membership version =
    let sender_pl = get_sender_power_level event.sender state version in
    let target_pl = get_sender_power_level target_user state version in
    if not (target_user == event.sender)
      && (new_membership == mem_leave || new_membership == mem_ban)
    then reject_if (leb_ℤ sender_pl target_pl) (
        insufficient_power_level (saturating_suc target_pl) sender_pl
          "m.rezzy.member_pl_greater_than_target")
    else ok tt

unfoldable pub check_authorising_user :
    LeanEvent → StateProvider → String → StateResVersion → Option EventVerifier → Check
check_authorising_user event state authorising_user version verifier = do
  reject_if (not (unwrap_or (membership_of state authorising_user) "" == mem_join))
      (not_member event.sender event.event_id)
  reject_if
      (ltb_ℤ (get_sender_power_level authorising_user state version) (get_invite_power_level state))
      (not_member event.sender event.event_id)
  verify_with verifier
      (λ v. v.verify_join_authorised_via_users_server event.event_id authorising_user)

unfoldable pub join_rule_of : StateProvider → String
join_rule_of state =
    unwrap_or (and_then (state m_room_join_rules "") (λ e. e.content.join_rule)) "invite"

-- The branches on the join rule, for a sender who did not create the room.
unfoldable pub check_join_rule :
    LeanEvent
    → StateProvider
    → StateResVersion
    → Option EventVerifier
    → String
    → String
    → Bool
    → Bool
    → Check
check_join_rule event state version verifier current_membership join_rule restricted
      knock_restricted =
    let is_in = current_membership == mem_invite || current_membership == mem_join in
    let refused = err (not_member event.sender event.event_id) in
    if join_rule == "invite" || join_rule == "knock"
    then (if is_in then ok tt else refused)
    else if (join_rule == "restricted" && restricted)
        || (join_rule == "knock_restricted" && knock_restricted)
    then (if is_in then ok tt else elim event.content.join_authorised_via_users_server [
      | some authorising_user ↦ check_authorising_user event state authorising_user version verifier
      | none ↦ refused
    ])
    else reject_if (not (join_rule == "public")) (not_member event.sender event.event_id)

unfoldable pub check_join_rules :
    LeanEvent → StateProvider → String → StateResVersion → Option EventVerifier → Check
unfolding join_rule_of
check_join_rules event state target_user version verifier = do
  let current_membership = unwrap_or (membership_of state target_user) ""
  let join_rule = join_rule_of state
  reject_if (not (target_user == event.sender)) (invalid_state_key event.sender target_user)
  reject_if (current_membership == mem_ban) (banned_user event.sender event.event_id)
  restricted ← room_version_at_least state 8
  knock_restricted ← room_version_at_least state 10
  if is_some_and (state m_room_create "") (λ create. create.sender == event.sender)
      then ok tt
      else check_join_rule event state version verifier current_membership join_rule restricted
          knock_restricted

unfoldable pub check_knock_rules : LeanEvent → StateProvider → String → Check
unfolding join_rule_of
check_knock_rules event state target_user = do
  let current_membership = unwrap_or (membership_of state target_user) ""
  let join_rule = join_rule_of state
  reject_if (not (target_user == event.sender)) (invalid_state_key event.sender target_user)
  reject_if (current_membership == mem_ban) (banned_user event.sender event.event_id)
  reject_if (current_membership == mem_invite || current_membership == mem_join)
      (not_member event.sender event.event_id)
  knock_restricted ← room_version_at_least state 10
  reject_if
      (not (join_rule == "knock") && not (join_rule == "knock_restricted" && knock_restricted))
      (not_member event.sender event.event_id)

-- The `match` on the new membership.
unfoldable pub check_membership :
    LeanEvent
    → StateProvider
    → String
    → String
    → String
    → StateResVersion
    → Option EventVerifier
    → Check
check_membership event state target_user new_membership current_membership version verifier =
    if new_membership == mem_join
    then check_join_rules event state target_user version verifier
    else if new_membership == mem_leave
    then check_leave_rules event state target_user current_membership version
    else if new_membership == mem_ban
    then check_ban_rules event state version
    else if new_membership == mem_invite
    then check_invite_rules event state target_user current_membership version verifier
    else if new_membership == mem_knock
    then check_knock_rules event state target_user
    else err (invalid_syntax (unknown_membership new_membership))
