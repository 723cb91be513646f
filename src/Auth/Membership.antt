-- ===== src/Auth/Membership.antt =====
-- What acceptance says of a change of membership: bans and kicks need power over the target, a ban
-- holds until somebody with the power to ban lifts it, and joins follow the join rule.
use rezzy.Prelude.{
  ◌≡◌, ◌≢◌, ◌⊎◌, inl, inr, String, Option, none, some, false, arith, ok, ◌==◌, ◌&&◌, eq_iff, ◌≤ℤ◌,
  ◌<ℤ◌, unwrap_or, ap, refl, subst,
}
use rezzy.Basespec.Version.{StateResVersion}
use rezzy.Basespec.Event.{
  LeanEvent, StateProvider, EventProvider, EventVerifier, m_room_create, m_room_member, mem_leave,
  mem_ban,
}
use rezzy.Auth.Levels.{get_sender_power_level, get_ban_power_level, get_kick_power_level}
use rezzy.Auth.Members.{
  membership_of, check_leave_rules, check_ban_rules, check_invite_rules, check_join_rules,
  check_knock_rules, check_membership, check_membership_pl_hierarchies,
}
use rezzy.Auth.Check.{check_member_change, check_member_event, check_auth_with_context}
use rezzy.Auth.Accepted.{accepted-Rules}
use rezzy.Auth.Senders.{accepted-sender}

-- A banned user can neither join, nor knock, nor be invited.
module _ (event : LeanEvent) (state : StateProvider) (target : String) (version : StateResVersion)
    (verifier : Option EventVerifier) (banned : membership_of state target ≡ some mem_ban) where
  current : unwrap_or (membership_of state target) "" ≡ mem_ban
  current = ap (λ m. unwrap_or m "") banned

  join-banned : check_join_rules event state target version verifier ≢ ok tt
  unfolding check_join_rules
  join-banned h =
      ground (arith, current, eq_iff (unwrap_or (membership_of state target) "") mem_ban)

  knock-banned : check_knock_rules event state target ≢ ok tt
  unfolding check_knock_rules
  knock-banned h =
      ground (arith, current, eq_iff (unwrap_or (membership_of state target) "") mem_ban)

invite-banned :
    (event : LeanEvent) (state : StateProvider) (target : String) (version : StateResVersion)
    (verifier : Option EventVerifier)
    → check_invite_rules event state target mem_ban version verifier ≢ ok tt
unfolding check_invite_rules
invite-banned event state target version verifier h = ground arith

-- What the change to each membership requires of the sender, where it is not the target.
module _ (event : LeanEvent) (state : StateProvider) (target : String)
    (version : StateResVersion) where
  leave_unban :
      target ≢ event.sender
      → check_leave_rules event state target mem_ban version ≡ ok tt
      → get_ban_power_level state ≤ℤ get_sender_power_level event.sender state version
  unfolding check_leave_rules
  leave_unban other h = ground (arith, eq_iff target event.sender)

  leave_kick :
      (m : String)
      → m ≢ mem_ban
      → target ≢ event.sender
      → check_leave_rules event state target m version ≡ ok tt
      → get_kick_power_level state ≤ℤ get_sender_power_level event.sender state version
  unfolding check_leave_rules
  leave_kick m unbanned other h = ground (arith, eq_iff target event.sender, eq_iff m mem_ban)

  ban_level :
      check_ban_rules event state version ≡ ok tt
      → get_ban_power_level state ≤ℤ get_sender_power_level event.sender state version
  unfolding check_ban_rules
  ban_level h = ground arith

  hierarchy :
      (m : String)
      → target ≢ event.sender
      → (m ≡ mem_leave) ⊎ (m ≡ mem_ban)
      → check_membership_pl_hierarchies event state target m version ≡ ok tt
      → get_sender_power_level target state version
        <ℤ get_sender_power_level event.sender state version
  unfolding check_membership_pl_hierarchies
  hierarchy m other change h =
      ground (arith, eq_iff target event.sender, eq_iff m mem_leave, eq_iff m mem_ban)

not_unwrapped : (o : Option String) → o ≢ some mem_ban → unwrap_or o "" ≢ mem_ban
not_unwrapped none h e = ground (arith, eq_iff "" mem_ban)
not_unwrapped (some m) h e = h (ap some e)

-- The `match` on the membership, for a banned target who is not the sender.
check_membership-banned :
    (event : LeanEvent) (state : StateProvider) (target m : String) (version : StateResVersion)
    (verifier : Option EventVerifier)
    → membership_of state target ≡ some mem_ban
    → target ≢ event.sender
    → check_membership event state target m mem_ban version verifier ≡ ok tt
    → ((m ≡ mem_leave) ⊎ (m ≡ mem_ban))
      × (get_ban_power_level state ≤ℤ get_sender_power_level event.sender state version)
unfolding check_membership
check_membership-banned event state target m version verifier banned other h = ground (
  arith,
  eq_iff m mem_leave,
  eq_iff m mem_ban,
  join-banned event state target version verifier banned,
  knock-banned event state target version verifier banned,
  invite-banned event state target version verifier,
  leave_unban event state target version,
  ban_level event state target version,
)

-- The parts of an accepted member event with a target and a membership.
module _ (event : LeanEvent) (state : StateProvider) (version : StateResVersion)
    (verifier : Option EventVerifier) (ctx : Option EventProvider) (target m : String)
    (accepted : check_auth_with_context event state version verifier ctx ≡ ok tt)
    (typed : event.event_type ≡ m_room_member) (keyed : event.state_key ≡ some target)
    (changed : event.content.membership ≡ some m) where
  not_create : event.event_type ≢ m_room_create
  not_create e = ground (arith, eq_iff m_room_member m_room_create)

  member_rule : check_member_event event state version verifier ≡ ok tt
  member_rule =
      let passed =
        accepted-Rules event state version verifier ctx accepted
          (ground (arith, eq_iff event.event_type m_room_create, not_create)) in
      ground (arith, eq_iff event.event_type m_room_member, passed.member)

  member_change : check_member_change event state version verifier target m ≡ ok tt
  unfolding check_member_event
  member_change = ground (arith, member_rule)

  pub member_parts :
      ((m == mem_ban && target == event.sender) ≡ false)
      × (check_membership event state target m
            (unwrap_or (membership_of state target) "")
            version
            verifier
          ≡ ok tt)
      × (check_membership_pl_hierarchies event state target m version ≡ ok tt)
  unfolding check_member_change
  member_parts = ground (arith, member_change)

  -- A banned user stays banned unless somebody else, with the ban level and a level above the
  -- user's, bans again or lifts the ban: no other change of the user's membership is accepted.
  pub accepted-banned :
      membership_of state target ≡ some mem_ban
      → (target ≢ event.sender)
        × ((m ≡ mem_leave) ⊎ (m ≡ mem_ban))
        × (get_ban_power_level state ≤ℤ get_sender_power_level event.sender state version)
        × (get_sender_power_level target state version
            <ℤ get_sender_power_level event.sender state version)
  accepted-banned banned =
      let (self_ban, change, above) = member_parts in
      let current : unwrap_or (membership_of state target) "" ≡ mem_ban =
        ap (λ o. unwrap_or o "") banned in
      let other : target ≢ event.sender = λ same.
        (accepted-sender event state version verifier ctx accepted not_create).0
          (subst (λ u. membership_of state u ≡ some mem_ban) same banned) in
      let (removal, level) =
        check_membership-banned event state target m version verifier banned other
          (rw current at change) in
      (other, removal, level, hierarchy event state target version m other removal above)

-- Bans and kicks.
module _ (event : LeanEvent) (state : StateProvider) (version : StateResVersion)
    (verifier : Option EventVerifier) (ctx : Option EventProvider) (target : String)
    (accepted : check_auth_with_context event state version verifier ctx ≡ ok tt)
    (typed : event.event_type ≡ m_room_member) (keyed : event.state_key ≡ some target) where
  -- Whoever bans a user is not that user, has the level that the room sets for bans, and has a level
  -- above the user's.
  pub accepted-ban :
      event.content.membership ≡ some mem_ban
      → (target ≢ event.sender)
        × (get_ban_power_level state ≤ℤ get_sender_power_level event.sender state version)
        × (get_sender_power_level target state version
            <ℤ get_sender_power_level event.sender state version)
  unfolding check_membership
  accepted-ban changed =
      let (self_ban, change, above) =
        member_parts event state version verifier ctx target mem_ban accepted typed keyed changed in
      let other : target ≢ event.sender = λ same. ground (arith, eq_iff target event.sender) in
      (
        other,
        ban_level event state target version change,
        hierarchy event state target version mem_ban other (inr refl) above,
      )

  -- Whoever removes another user, who is not banned, from the room has the level that the room sets
  -- for kicks and a level above the user's.
  pub accepted-kick :
      event.content.membership ≡ some mem_leave
      → target ≢ event.sender
      → membership_of state target ≢ some mem_ban
      → (get_kick_power_level state ≤ℤ get_sender_power_level event.sender state version)
        × (get_sender_power_level target state version
            <ℤ get_sender_power_level event.sender state version)
  unfolding check_membership
  accepted-kick changed other unbanned =
      let (self_ban, change, above) =
        member_parts event state version verifier ctx target mem_leave accepted typed keyed
          changed in
      (
        leave_kick event state target version (unwrap_or (membership_of state target) "")
            (not_unwrapped (membership_of state target) unbanned) other change,
        hierarchy event state target version mem_leave other (inl refl) above,
      )
