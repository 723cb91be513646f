-- ===== src/Examples/Auth.antt =====
-- Tests of the auth checks, and witnesses of the theorems of `Auth`.
use rezzy.Prelude.{
  ◌≡◌, ◌≢◌, ◌⊎◌, inl, refl, ap, String, Option, none, some, [], ◌∷◌, pos, ◌≤ℤ◌, ◌<ℤ◌, ok, arith,
  unwrap_or, eq_iff, lookup, btree_insert,
}
use rezzy.Basespec.Version.{v2, from_room_version, is_v2_2, is_v2_1_plus}
use rezzy.Basespec.Mxid.{parse_u32, is_valid_mxid, domain_matches, starts_with_at, contains_colon}
use rezzy.Basespec.Event.{
  LeanEvent, empty_content, m_room_create, m_room_member, m_room_power_levels, mem_join, mem_ban,
  mem_leave,
}
use rezzy.Auth.State.{
  get_room_version_num, room_version_at_least, validated_room_version_or_v1, room_version_str_or_v1,
  reject_flagged_auth_state,
}
use rezzy.Auth.Levels.{
  level_in, get_sender_power_level, has_infinite_power, get_required_power_level,
  get_ban_power_level, get_kick_power_level, get_invite_power_level,
}
use rezzy.Auth.Members.{
  membership_of, check_membership, check_membership_pl_hierarchies, check_join_rules,
  check_join_rule, check_leave_rules, check_ban_rules, check_invite_rules, check_knock_rules,
}
use rezzy.Auth.PowerLevels.{
  check_power_levels_event, check_integers, check_creators_unlisted, check_user_keys, last_failing,
  check_power_levels_rules, check_scalars, check_scalar_pl, check_level_map, check_users,
  check_removed, check_added, collect_levels,
}
use rezzy.Auth.Check.{
  check_limits, run_verifier, check_create, check_federate, check_aliases, check_redaction,
  check_citations, check_sender, check_level, check_user_state_key, check_member_event,
  check_member_change, check_rules, check_auth_with_context, check_auth, validate_forward_extremity,
  valid,
}
use rezzy.Auth.Senders.{accepted-sender, accepted-level, validate_forward_extremity-banned}
use rezzy.Auth.Membership.{accepted-banned, accepted-ban, accepted-kick}
use rezzy.Auth.Joins.{MayJoin, accepted-join}
use rezzy.Auth.Escalation.{
  accepted-grant, accepted-demotion, accepted-settings, no_escalation, SettingsKept, levels,
}
use rezzy.Examples.Room.{state_event, member_content, users_content, room, power}

-- The functions that the tests run.
unfoldable pub program : Unit {0}
unfolding from_room_version is_v2_2 is_v2_1_plus parse_u32 is_valid_mxid domain_matches
    starts_with_at contains_colon get_room_version_num room_version_at_least
    validated_room_version_or_v1 room_version_str_or_v1 reject_flagged_auth_state level_in
    get_sender_power_level has_infinite_power get_required_power_level get_ban_power_level
    get_kick_power_level get_invite_power_level check_membership check_membership_pl_hierarchies
    check_join_rules check_join_rule check_leave_rules check_ban_rules check_invite_rules
    check_knock_rules check_power_levels_event check_integers check_creators_unlisted
    check_user_keys last_failing check_power_levels_rules check_scalars check_scalar_pl
    check_level_map check_users check_removed check_added collect_levels lookup btree_insert
    check_limits run_verifier check_create check_federate check_aliases check_redaction
    check_citations check_sender check_level check_user_state_key check_member_event
    check_member_change check_rules check_auth_with_context check_auth validate_forward_extremity
program = tt

abbrev pub topic : LeanEvent
topic = state_event "$topic" "m.room.topic" "" "@bob:x" empty_content

topic_accepted : check_auth_with_context topic room v2 none none ≡ ok tt
unfolding program
topic_accepted = refl

topic_other : ◌≢◌ {A = String} "m.room.topic" m_room_create
topic_other e = ground (arith, (eq_iff "m.room.topic" m_room_create).1 e)

topic_not_member : ◌≢◌ {A = String} "m.room.topic" m_room_member
topic_not_member e = ground (arith, (eq_iff "m.room.topic" m_room_member).1 e)

accepted-sender_example :
    (membership_of room "@bob:x" ≢ some mem_ban)
    × ((membership_of room "@bob:x" ≡ some mem_join)
        ⊎ (topic.event_type ≡ m_room_member)
          × (topic.state_key ≡ some "@bob:x")
          × (topic.content.membership ≢ some mem_ban))
accepted-sender_example = accepted-sender topic room v2 none none topic_accepted topic_other

accepted-level_example :
    get_required_power_level "m.room.topic" (some "") room
    ≤ℤ get_sender_power_level "@bob:x" room v2
accepted-level_example =
    accepted-level topic room v2 none none topic_accepted topic_other topic_not_member (inl refl)

abbrev spam : LeanEvent
spam = state_event "$spam" "m.room.topic" "" "@mallory:x" empty_content

validate_forward_extremity-banned_example :
    validate_forward_extremity spam room room v2 none ≢ valid
validate_forward_extremity-banned_example =
    validate_forward_extremity-banned spam room room v2 none topic_other refl

abbrev change : String → String → String → LeanEvent
change target sender membership =
    state_event "$change" m_room_member target sender (member_content membership)

abbrev unban : LeanEvent
unban = change "@mallory:x" "@bob:x" mem_leave

unban_accepted : check_auth_with_context unban room v2 none none ≡ ok tt
unfolding program
unban_accepted = refl

accepted-banned_example :
    (◌≢◌ {A = String} "@mallory:x" "@bob:x")
    × ((◌≡◌ {A = String} mem_leave mem_leave) ⊎ (◌≡◌ {A = String} mem_leave mem_ban))
    × (get_ban_power_level room ≤ℤ get_sender_power_level "@bob:x" room v2)
    × (get_sender_power_level "@mallory:x" room v2 <ℤ get_sender_power_level "@bob:x" room v2)
accepted-banned_example =
    accepted-banned unban room v2 none none "@mallory:x" mem_leave unban_accepted refl refl refl
      refl

abbrev ban_carol : LeanEvent
ban_carol = change "@carol:x" "@bob:x" mem_ban

ban_accepted : check_auth_with_context ban_carol room v2 none none ≡ ok tt
unfolding program
ban_accepted = refl

accepted-ban_example :
    (◌≢◌ {A = String} "@carol:x" "@bob:x")
    × (get_ban_power_level room ≤ℤ get_sender_power_level "@bob:x" room v2)
    × (get_sender_power_level "@carol:x" room v2 <ℤ get_sender_power_level "@bob:x" room v2)
accepted-ban_example =
    accepted-ban ban_carol room v2 none none "@carol:x" ban_accepted refl refl refl

abbrev kick_carol : LeanEvent
kick_carol = change "@carol:x" "@bob:x" mem_leave

kick_accepted : check_auth_with_context kick_carol room v2 none none ≡ ok tt
unfolding program
kick_accepted = refl

carol_not_bob : ◌≢◌ {A = String} "@carol:x" "@bob:x"
carol_not_bob e = ground (arith, (eq_iff "@carol:x" "@bob:x").1 e)

join_not_ban : ◌≢◌ {A = Option String} (some mem_join) (some mem_ban)
join_not_ban e = ground (arith, (eq_iff mem_join mem_ban).1 (ap (λ o. unwrap_or o "") e))

accepted-kick_example :
    (get_kick_power_level room ≤ℤ get_sender_power_level "@bob:x" room v2)
    × (get_sender_power_level "@carol:x" room v2 <ℤ get_sender_power_level "@bob:x" room v2)
accepted-kick_example =
    accepted-kick kick_carol room v2 none none "@carol:x" kick_accepted refl refl refl carol_not_bob
      join_not_ban

abbrev join_dave : LeanEvent
join_dave = change "@dave:x" "@dave:x" mem_join

join_accepted : check_auth_with_context join_dave room v2 none none ≡ ok tt
unfolding program
join_accepted = refl

accepted-join_example : (◌≡◌ {A = String} "@dave:x" "@dave:x") × MayJoin join_dave room v2
accepted-join_example =
    accepted-join join_dave room v2 none none "@dave:x" join_accepted refl refl refl

-- Bob makes Carol a moderator.
abbrev promotion : LeanEvent
promotion =
    state_event "$promotion" m_room_power_levels "" "@bob:x"
      (users_content (("@alice:x", pos 100) ∷ ("@bob:x", pos 50) ∷ ("@carol:x", pos 50) ∷ []))

promotion_accepted : check_auth_with_context promotion room v2 none none ≡ ok tt
unfolding program
promotion_accepted = refl

listed_carol : levels promotion.content.user_power_levels "@carol:x" ≡ some (pos 50)
unfolding program
listed_carol = refl

unlisted_carol : levels power.content.user_power_levels "@carol:x" ≢ some (pos 50)
unfolding program
unlisted_carol e = ground arith

accepted-grant_example : pos 50 ≤ℤ get_sender_power_level "@bob:x" room v2
accepted-grant_example =
    accepted-grant promotion room v2 none none power promotion_accepted refl refl "@carol:x"
      (pos 50) listed_carol unlisted_carol

-- Alice drops Bob from the list.
abbrev demotion : LeanEvent
demotion =
    state_event "$demotion" m_room_power_levels "" "@alice:x"
      (users_content (("@alice:x", pos 100) ∷ []))

demotion_accepted : check_auth_with_context demotion room v2 none none ≡ ok tt
unfolding program
demotion_accepted = refl

bob_not_alice : ◌≢◌ {A = String} "@bob:x" "@alice:x"
bob_not_alice e = ground (arith, (eq_iff "@bob:x" "@alice:x").1 e)

listed_bob : levels power.content.user_power_levels "@bob:x" ≡ some (pos 50)
unfolding program
listed_bob = refl

unlisted_bob : levels demotion.content.user_power_levels "@bob:x" ≢ some (pos 50)
unfolding program
unlisted_bob e = ground arith

accepted-demotion_example : pos 50 <ℤ get_sender_power_level "@alice:x" room v2
accepted-demotion_example =
    accepted-demotion demotion room v2 none none power demotion_accepted refl refl "@bob:x" (pos 50)
      bob_not_alice listed_bob unlisted_bob

accepted-settings_example :
    SettingsKept power.content promotion.content "m.room.name"
      (get_sender_power_level "@bob:x" room v2)
accepted-settings_example =
    accepted-settings promotion room v2 none none power promotion_accepted refl refl "m.room.name"

no_escalation_example :
    (level_in promotion.content "@carol:x" ≤ℤ get_sender_power_level "@bob:x" room v2)
    ⊎ (level_in promotion.content "@carol:x" ≡ level_in power.content "@carol:x")
    ⊎ (promotion.content.user_power_level "@carol:x" ≡ none)
      × ((level_in promotion.content "@carol:x" ≡ pos 0)
          ⊎ (level_in promotion.content "@carol:x" ≡ pos 0))
no_escalation_example =
    no_escalation promotion room v2 none none power "@carol:x" promotion_accepted refl refl
      (λ u. refl) (λ u. refl)
