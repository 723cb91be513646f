-- ===== src/Auth/Senders.antt =====
-- What acceptance says of the sender: not banned, joined, and with the level that the type requires.
use rezzy.Prelude.{
  ◌≡◌, ◌≢◌, ◌⊎◌, inl, inr, &&-both, eq_of_test, opt_is_iff, String, Option, none, some, arith, ok,
  ◌==◌, eq_iff, ◌≤ℤ◌, is_some, Bool, true, not, ◌&&◌, opt_is, unwrap_or, reject_if, ◌>>◌,
}
use rezzy.Basespec.Version.{StateResVersion}
use rezzy.Basespec.Event.{
  LeanEvent, StateProvider, EventProvider, EventVerifier, m_room_create, m_room_member,
  m_room_power_levels, mem_join, mem_ban, mem_leave,
}
use rezzy.Auth.Error.{AuthError}
use rezzy.Auth.Levels.{get_sender_power_level, get_required_power_level}
use rezzy.Auth.Members.{membership_of}
use rezzy.Auth.Check.{
  check_sender, check_level, check_auth_with_context, check_auth, valid, validate_forward_extremity,
}
use rezzy.Auth.Accepted.{Rules, accepted-Rules}

-- The two tests of `check_sender`, over the membership and the test for an own-membership event.
sender_tests :
    (m : Option String) (own : Bool) (e f : AuthError)
    → (reject_if (unwrap_or m mem_leave == mem_ban) e
        >> reject_if (not (unwrap_or m mem_leave == mem_join) && not own) f)
      ≡ ok tt
    → (m ≢ some mem_ban) × ((m ≡ some mem_join) ⊎ (own ≡ true))
sender_tests none own e f h = (ground arith, ground arith)
sender_tests (some m) own e f h =
    (ground (arith, eq_iff m mem_ban), ground (arith, eq_iff m mem_join))

not-opt_is : (o : Option String) (s : String) → not (opt_is o s) ≡ true → o ≢ some s
not-opt_is o s h e = ground (arith, (opt_is_iff o s).1 e)

own_membership :
    (event : LeanEvent)
    → (event.event_type == m_room_member
        && opt_is event.state_key event.sender
        && not (opt_is event.content.membership mem_ban))
      ≡ true
    → (event.event_type ≡ m_room_member)
      × (event.state_key ≡ some event.sender)
      × (event.content.membership ≢ some mem_ban)
own_membership event h =
    let (both, unbanned) = &&-both _ _ h in
    let (typed, keyed) = &&-both _ _ both in
    (
      eq_of_test _ _ typed,
      (opt_is_iff event.state_key event.sender).0 keyed,
      not-opt_is event.content.membership mem_ban unbanned,
    )

pub check_sender-unbanned :
    (event : LeanEvent) (state : StateProvider)
    → check_sender event state ≡ ok tt
    → membership_of state event.sender ≢ some mem_ban
unfolding check_sender
check_sender-unbanned event state h = (sender_tests (membership_of state event.sender) _ _ _ h).0

pub check_sender-joined :
    (event : LeanEvent) (state : StateProvider)
    → check_sender event state ≡ ok tt
    → (membership_of state event.sender ≡ some mem_join)
      ⊎ (event.event_type ≡ m_room_member)
        × (event.state_key ≡ some event.sender)
        × (event.content.membership ≢ some mem_ban)
unfolding check_sender
check_sender-joined event state h =
    elim ((sender_tests (membership_of state event.sender) _ _ _ h).1) [
      | inl joined ↦ inl joined
      | inr own ↦ inr (own_membership event own)
    ]

check_level-le :
    (event : LeanEvent) (state : StateProvider) (version : StateResVersion)
    → check_level event state version ≡ ok tt
    → event.event_type ≢ m_room_member
    → (is_some (state m_room_power_levels "") ≡ true) ⊎ (event.event_type ≢ m_room_power_levels)
    → get_required_power_level event.event_type event.state_key state
      ≤ℤ get_sender_power_level event.sender state version
unfolding check_level
check_level-le event state version h other has_pl =
    ground
      (arith, eq_iff event.event_type m_room_member, eq_iff event.event_type m_room_power_levels)

module _ (event : LeanEvent) (state : StateProvider) (version : StateResVersion)
    (verifier : Option EventVerifier) (ctx : Option EventProvider)
    (accepted : check_auth_with_context event state version verifier ctx ≡ ok tt) where
  rules : event.event_type ≢ m_room_create → Rules event state version verifier ctx
  rules other =
      accepted-Rules event state version verifier ctx accepted
        (ground (arith, eq_iff event.event_type m_room_create))

  -- An accepted event, other than `m.room.create`, was not sent by a user whose membership in the
  -- state is `ban`; and its sender is joined, unless it is a member event of the sender itself that
  -- does not set `ban`.
  pub accepted-sender :
      event.event_type ≢ m_room_create
      → (membership_of state event.sender ≢ some mem_ban)
        × ((membership_of state event.sender ≡ some mem_join)
            ⊎ (event.event_type ≡ m_room_member)
              × (event.state_key ≡ some event.sender)
              × (event.content.membership ≢ some mem_ban))
  accepted-sender other = (
    check_sender-unbanned event state (rules other).sender,
    check_sender-joined event state (rules other).sender,
  )

  -- An accepted event, other than `m.room.create` and `m.room.member`, has a sender whose power
  -- level is at least the level that its type requires in the state; the first power-levels event of
  -- a room is excepted.
  pub accepted-level :
      event.event_type ≢ m_room_create
      → event.event_type ≢ m_room_member
      → (is_some (state m_room_power_levels "") ≡ true) ⊎ (event.event_type ≢ m_room_power_levels)
      → get_required_power_level event.event_type event.state_key state
        ≤ℤ get_sender_power_level event.sender state version
  accepted-level other unlike has_pl =
      check_level-le event state version (rules other).level unlike has_pl

-- Whatever the event's own auth events say, an event other than `m.room.create` of a sender who is
-- banned in the current state of the room is not valid: it is rejected or soft-failed.
pub validate_forward_extremity-banned :
    (event : LeanEvent) (auth_state current : StateProvider) (version : StateResVersion)
    (verifier : Option EventVerifier)
    → event.event_type ≢ m_room_create
    → membership_of current event.sender ≡ some mem_ban
    → validate_forward_extremity event auth_state current version verifier ≢ valid
unfolding validate_forward_extremity check_auth
validate_forward_extremity-banned event auth_state current version verifier other banned h =
    (accepted-sender event current version none none (ground arith) other).0 banned
