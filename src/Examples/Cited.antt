-- ===== src/Examples/Cited.antt =====
-- Witnesses of the theorems on citations.
use rezzy.Prelude.{◌≡◌, ◌≤◌, refl, String, true, false, some, none, [], ◌∷◌, ok, contains}
use rezzy.Basespec.Version.{v2, is_v2_2}
use rezzy.Basespec.Event.{LeanEvent, EventProvider, provider_of, m_room_power_levels}
use rezzy.Auth.Citations.{
  collect_citations, check_citation, cited, check_required, required_auth_types_for,
  auth_types_for_event_core, member_auth_types, supports_restricted_joins, check_auth_events,
  check_create_cited,
}
use rezzy.Auth.Check.{check_auth_with_context}
use rezzy.Auth.State.{room_version_str_or_v1}
use rezzy.Auth.Cited.{accepted-IsCitable, accepted_complete}
use rezzy.Auth.Cited.Loop.{IsCitable, citations_of, state_key_of}
use rezzy.Auth.Cited.Required.{has_key}
use rezzy.Examples.Room.{create, power, member, room}
use rezzy.Examples.Auth.{program, topic}

abbrev cited_topic : LeanEvent
cited_topic = record topic { auth_events = "$create" ∷ "$power" ∷ "@bob:x" ∷ [] }

abbrev known : EventProvider
known =
    provider_of (("$create", create) ∷ ("$power", power) ∷ ("@bob:x", member "@bob:x" "join") ∷ [])

cited_topic-accepted : check_auth_with_context cited_topic room v2 none (some known) ≡ ok tt
unfolding program collect_citations check_citation cited check_required required_auth_types_for
    auth_types_for_event_core member_auth_types supports_restricted_joins check_auth_events
    check_create_cited
cited_topic-accepted = refl

v2_classic : is_v2_2 v2 ≡ false
unfolding is_v2_2
v2_classic = refl

read_label : room_version_str_or_v1 room ≡ ok "10"
unfolding program
read_label = refl

asked : has_key (required_auth_types_for cited_topic v2 "10") m_room_power_levels "" ≡ true
unfolding program required_auth_types_for auth_types_for_event_core member_auth_types
    supports_restricted_joins
asked = refl

accepted-IsCitable_example :
    IsCitable cited_topic v2 known "$power"
    × ((t k : String) → citations_of cited_topic v2 known t k cited_topic.auth_events ≤ 1)
accepted-IsCitable_example =
    accepted-IsCitable cited_topic room v2 none known "$power" cited_topic-accepted refl v2_classic
      refl

accepted_complete_example :
    (contains cited_topic.auth_events "$power" ≡ true)
    × ((source : LeanEvent) × (known "$power" ≡ some source)
        × (source.event_type ≡ m_room_power_levels)
        × (state_key_of source ≡ ""))
accepted_complete_example =
    accepted_complete cited_topic room v2 none known "10" m_room_power_levels "" power
      cited_topic-accepted refl v2_classic read_label asked refl
