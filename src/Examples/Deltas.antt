-- ===== src/Examples/Deltas.antt =====
-- Examples of the variant that reports deltas: a banned user whom a conflicted event invites again.
use rezzy.Prelude.{◌≡◌, refl, some, [], ◌∷◌, pos, and_then}
use rezzy.Basespec.Version.{v2_1_1}
use rezzy.Basespec.Event.{
  LeanEvent, empty_content, m_room_create, m_room_member, m_room_power_levels, m_room_join_rules,
}
use rezzy.Resolve.State.{SharedState, EventMap}
use rezzy.Resolve.Iterative.{IterativeInputs}
use rezzy.Resolve.Iterative.Resolver.{resolve_iterative_sort}
use rezzy.Resolve.Iterative.Deltas.{
  track_power_event, track_event, track_all, track_non_power, track_phases,
  resolve_iterative_sort_with_cache_and_deltas, resolve_iterative_sort_with_deltas,
}
use rezzy.Examples.Room.{state_event, member_content, users_content, create, join_rules}
use rezzy.Examples.Auth.{program}
use rezzy.Examples.Resolve.{citing, joins, resolve_program}

abbrev power_of_three : LeanEvent
power_of_three =
    citing
      (state_event "$power" m_room_power_levels "" "@alice:x"
        (users_content (("@alice:x", pos 100) ∷ ("@bob:x", pos 75) ∷ ("@mallory:x", pos 50) ∷ [])))
      ("$create" ∷ [])

abbrev agreed_events : EventMap
agreed_events =
    ("$create", create)
    ∷ ("$power", power_of_three)
    ∷ ("$rules", citing join_rules ("$create" ∷ "$power" ∷ []))
    ∷ ("$bob", joins "$bob" "@bob:x")
    ∷ (
      "$ban",
      citing (state_event "$ban" m_room_member "@mallory:x" "@bob:x" (member_content "ban"))
          ("$create" ∷ "$power" ∷ "$bob" ∷ []),
    )
    ∷ []

abbrev agreed_state : SharedState
agreed_state =
    ((m_room_create, ""), "$create")
    ∷ ((m_room_join_rules, ""), "$rules")
    ∷ ((m_room_member, "@bob:x"), "$bob")
    ∷ ((m_room_member, "@mallory:x"), "$ban")
    ∷ ((m_room_power_levels, ""), "$power")
    ∷ []

abbrev invited : EventMap
invited =
    (
      "$invite",
      citing (state_event "$invite" m_room_member "@mallory:x" "@bob:x" (member_content "invite"))
          ("$create" ∷ "$rules" ∷ "$power" ∷ "$bob" ∷ []),
    )
    ∷ (
      "$join",
      citing (state_event "$join" m_room_member "@mallory:x" "@mallory:x" (member_content "join"))
          ("$create" ∷ "$rules" ∷ "$power" ∷ "$invite" ∷ []),
    )
    ∷ (
      "$topic",
      citing (state_event "$topic" "m.room.topic" "" "@mallory:x" empty_content)
          ("$create" ∷ "$power" ∷ "$join" ∷ []),
    )
    ∷ []

abbrev inputs : IterativeInputs
inputs = record {
  unconflicted_state = agreed_state;
  conflicted_events = invited;
  auth_context = agreed_events;
  version = v2_1_1;
}

-- The resolver screens the events of the banned user before the loop.
plain_test : resolve_iterative_sort 100 inputs ≡ some agreed_state
unfolding program resolve_program
plain_test = refl

-- The variant screens inside the loop, by a state in which she is invited.
deltas_test :
    and_then (resolve_iterative_sort_with_deltas 100 inputs) (λ r. some r.state)
    ≡ some (
        ((m_room_create, ""), "$create")
        ∷ ((m_room_join_rules, ""), "$rules")
        ∷ ((m_room_member, "@bob:x"), "$bob")
        ∷ ((m_room_member, "@mallory:x"), "$ban")
        ∷ ((m_room_power_levels, ""), "$power")
        ∷ (("m.room.topic", ""), "$topic")
        ∷ [])
unfolding program resolve_program track_power_event track_event track_all track_non_power
    track_phases resolve_iterative_sort_with_cache_and_deltas resolve_iterative_sort_with_deltas
deltas_test = refl
