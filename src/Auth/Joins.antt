-- ===== src/Auth/Joins.antt =====
-- What acceptance says of a join: who may join under each join rule.
use rezzy.Prelude.{
  ◌≡◌, ◌≢◌, ◌⊎◌, inl, inr, ap, subst, String, Bool, Option, none, some, true, arith, ok, ◌==◌,
  eq_iff, ◌≤ℤ◌, unwrap_or, eq_of_test, is_some_and,
}
use rezzy.Basespec.Version.{StateResVersion}
use rezzy.Basespec.Event.{
  LeanEvent, StateProvider, EventProvider, EventVerifier, m_room_create, m_room_member, mem_join,
  mem_invite,
}
use rezzy.Auth.State.{room_version_at_least}
use rezzy.Auth.Levels.{get_sender_power_level, get_invite_power_level}
use rezzy.Auth.Members.{
  membership_of, join_rule_of, check_authorising_user, check_join_rule, check_join_rules,
  check_membership,
}
use rezzy.Auth.Check.{check_auth_with_context}
use rezzy.Auth.Membership.{member_parts}

-- The join rule admits users that a member vouches for, in this version of the room.
abbrev pub IsRestricted : StateProvider → Type 0
IsRestricted state =
    (join_rule_of state ≡ "restricted") × (room_version_at_least state 8 ≡ ok true)
    ⊎ (join_rule_of state ≡ "knock_restricted") × (room_version_at_least state 10 ≡ ok true)

-- A member who is joined and may invite.
abbrev pub CanVouch : StateProvider → StateResVersion → String → Type 0
CanVouch state version user =
    (membership_of state user ≡ some mem_join)
    × (get_invite_power_level state ≤ℤ get_sender_power_level user state version)

-- The four ways to be let in.
pub data MayJoin (event : LeanEvent) (state : StateProvider) (version : StateResVersion)
    : Type 0 where
  created :
      (create : LeanEvent)
      → state m_room_create "" ≡ some create
      → create.sender ≡ event.sender
      → MayJoin event state version
  open_to_all : join_rule_of state ≡ "public" → MayJoin event state version
  admitted :
      (membership_of state event.sender ≡ some mem_invite)
        ⊎ (membership_of state event.sender ≡ some mem_join)
      → MayJoin event state version
  vouched_for :
      (user : String)
      → event.content.join_authorised_via_users_server ≡ some user
      → IsRestricted state
      → CanVouch state version user
      → MayJoin event state version

unwrapped : (o : Option String) (s : String) → s ≢ "" → unwrap_or o "" ≡ s → o ≡ some s
unwrapped none s nonempty e = ground arith
unwrapped (some m) s nonempty e = ap some e

creator_of :
    (o : Option LeanEvent) (s : String)
    → is_some_and o (λ create. create.sender == s) ≡ true
    → (create : LeanEvent) × (o ≡ some create) × (create.sender ≡ s)
creator_of none s h = ground arith
creator_of (some create) s h = (create, ground arith, eq_of_test _ _ h)

module _ (event : LeanEvent) (state : StateProvider) (version : StateResVersion)
    (verifier : Option EventVerifier) where
  authorising_user-CanVouch :
      (user : String)
      → check_authorising_user event state user version verifier ≡ ok tt
      → CanVouch state version user
  unfolding check_authorising_user
  authorising_user-CanVouch user h = (
    unwrapped (membership_of state user) mem_join (λ e. ground (arith, eq_iff mem_join "", e))
        (ground (arith, eq_iff (unwrap_or (membership_of state user) "") mem_join)),
    ground arith,
  )

  -- The branches of `check_join_rule`, over the membership and the rule.
  join_rule_cases :
      (m rule : String) (restricted knock_restricted : Bool)
      → check_join_rule event state version verifier m rule restricted knock_restricted ≡ ok tt
      → (rule ≡ "public")
        ⊎ ((m ≡ mem_invite) ⊎ (m ≡ mem_join))
        ⊎ ((user : String) × (event.content.join_authorised_via_users_server ≡ some user)
            × (check_authorising_user event state user version verifier ≡ ok tt)
            × ((rule ≡ "restricted") × (restricted ≡ true)
                ⊎ (rule ≡ "knock_restricted") × (knock_restricted ≡ true)))
  unfolding check_join_rule
  join_rule_cases m rule restricted knock_restricted h = ground (
    arith,
    eq_iff rule "public",
    eq_iff m mem_invite,
    eq_iff m mem_join,
    eq_iff rule "restricted",
    eq_iff rule "knock_restricted",
  )

  join_rule-MayJoin :
      (restricted knock_restricted : Bool)
      → room_version_at_least state 8 ≡ ok restricted
      → room_version_at_least state 10 ≡ ok knock_restricted
      → check_join_rule event state version verifier
          (unwrap_or (membership_of state event.sender) "")
          (join_rule_of state)
          restricted
          knock_restricted
        ≡ ok tt
      → MayJoin event state version
  join_rule-MayJoin restricted knock_restricted r k h =
      elim (join_rule_cases _ _ restricted knock_restricted h) [
        | inl public ↦ open_to_all public
        | inr (inl in_room) ↦ admitted (elim in_room [
          | inl e ↦ inl (
              unwrapped (membership_of state event.sender) mem_invite
                (λ x. ground (arith, eq_iff mem_invite "", x)) e)
          | inr e ↦ inr (
              unwrapped (membership_of state event.sender) mem_join
                (λ x. ground (arith, eq_iff mem_join "", x)) e)
        ])
        | inr (inr (user, named, checked, rule)) ↦
            vouched_for user named
              (elim rule [
                | inl (e, yes_8) ↦
                    inl (e, subst (λ b. room_version_at_least state 8 ≡ ok b) yes_8 r)
                | inr (e, yes_10) ↦
                    inr (e, subst (λ b. room_version_at_least state 10 ≡ ok b) yes_10 k)
              ])
              (authorising_user-CanVouch user checked)
      ]

  join_rules-own :
      (target : String)
      → check_join_rules event state target version verifier ≡ ok tt
      → target ≡ event.sender
  unfolding check_join_rules
  join_rules-own target h = ground (arith, eq_iff target event.sender)

  join_rules_parts :
      check_join_rules event state event.sender version verifier ≡ ok tt
      → (restricted : Bool) × (knock_restricted : Bool) × (room_version_at_least state 8
          ≡ ok restricted)
        × (room_version_at_least state 10 ≡ ok knock_restricted)
        × ((is_some_and (state m_room_create "") (λ create. create.sender == event.sender) ≡ true)
            ⊎ (check_join_rule event state version verifier
                  (unwrap_or (membership_of state event.sender) "")
                  (join_rule_of state)
                  restricted
                  knock_restricted
                ≡ ok tt))
  unfolding check_join_rules
  join_rules_parts h = ground (arith, eq_iff event.sender event.sender)

  join_rules-MayJoin :
      (target : String)
      → check_join_rules event state target version verifier ≡ ok tt
      → (target ≡ event.sender) × MayJoin event state version
  join_rules-MayJoin target h =
      let own = join_rules-own target h in
      let (restricted, knock_restricted, r, k, last) =
        join_rules_parts
          (subst (λ u. check_join_rules event state u version verifier ≡ ok tt) own h) in
      (
        own,
        elim last [
          | inl by_creator ↦
              let (create, here, same) =
                creator_of (state m_room_create "") event.sender by_creator in
              created create here same
          | inr checked ↦ join_rule-MayJoin restricted knock_restricted r k checked
        ],
      )

-- Whoever joins is the target of the event, and created the room, or finds it open to all, or was
-- invited or is joined already, or names a joined member with the power to invite under a restricted
-- join rule that the room's version supports.
pub accepted-join :
    (event : LeanEvent) (state : StateProvider) (version : StateResVersion)
    (verifier : Option EventVerifier) (ctx : Option EventProvider) (target : String)
    → check_auth_with_context event state version verifier ctx ≡ ok tt
    → event.event_type ≡ m_room_member
    → event.state_key ≡ some target
    → event.content.membership ≡ some mem_join
    → (target ≡ event.sender) × MayJoin event state version
unfolding check_membership
accepted-join event state version verifier ctx target accepted typed keyed changed =
    join_rules-MayJoin event state version verifier target
      (member_parts event state version verifier ctx target mem_join accepted typed keyed changed).1
