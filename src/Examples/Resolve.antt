-- ===== src/Examples/Resolve.antt =====
-- Examples of the iterative resolution: the room of the examples, in which two states differ in a
-- ban of Mallory and in a topic that she sets.
use rezzy.Prelude.{
  ◌≡◌, ◌<◌, ◌⊎◌, ◌↔◌, ◌&&◌, refl, ◌∙◌, false, Option, none, not, String, true, some, List, [], ◌∷◌,
  arith, is_some, lookup, Distinct,
}
use rezzy.Basespec.Version.{v2}
use rezzy.Basespec.Event.{
  LeanEvent, empty_content, dag_edges, m_room_create, m_room_member, m_room_power_levels,
  m_room_join_rules,
}
use rezzy.Sorting.Kahn.Invariant.{IsKeyed}
use rezzy.Resolve.State.{SharedState, EventMap}
use rezzy.Resolve.LocalAuth.{compute_local_auth}
use rezzy.Resolve.Power.{Split, expand_v2_power_events_auth_chains, find_create}
use rezzy.Resolve.Power.Closure.{Ancestral}
use rezzy.Resolve.Power.Phase.{routed, IsRoot, expand_v2_power_events_auth_chains-Ancestral}
use rezzy.Resolve.Iterative.{IterativeInputs, sort_context}
use rezzy.Resolve.Iterative.Resolver.{
  select_local_auth_cache, ResolveCaches, resolve_iterative_sort_with_all_caches,
}
use rezzy.Resolve.Iterative.Returns.{fuel_bound}
use rezzy.Prelude.{run_queue, put, sort_by, insert_by}
use rezzy.Basespec.Version.{has_ban_evasion_hardening}
use rezzy.Sorting.Priority.{
  cmp, cmp_v1, cmp_v2, version_rank, get_power_level_from_auth_chain, find_pl_event,
  has_infinite_creators, is_creator_of, level_from_pl_event,
}
use rezzy.Sorting.Kahn.{
  with_cycle_diagnostics, build_graph, add_edges, add_edge, touch, fill_pl_cache, initial_queue,
  prioritise, pop, relax, relax_one, drain, stuck_ids, classify,
}
use rezzy.Sorting.Fallback.{sort, sort_stuck, insert_stuck, compare_stuck}
use rezzy.Sorting.Mainline.{
  compute_closest_mainline_positions, mainline_sort, climb, climb_all, turn, settle, pl_edge,
  number_from, decorate, cmp_mainline,
}
use rezzy.Sorting.BuildMainline.{
  build_mainline_with_cache, build_loop, pl_parent, nearest_pl, search_round,
}
use rezzy.Resolve.State.{get, insert}
use rezzy.Resolve.LocalAuth.{
  merge_entry, update_local_auth, merge_cached, is_transitive, with_event, local_round,
}
use rezzy.Resolve.Overlay.{overlay, local_event, iterative_auth_ok}
use rezzy.Resolve.Power.{
  is_ban_or_kick, is_power_event, route_power_events, remove, expand_one, expand_cited,
  expand_round, route_msc4297_ancestral_power_events, supplement, least_create, execute_power_phase,
}
use rezzy.Resolve.Iterative.{
  derive_all_conflicted_keys, decides_key, event_auth_ok, decide, check_event, check_events,
  events_by, run_power_phase_iterative_checks, get_initial_resolved_state, merge_type,
  merge_unconflicted_power_events, is_sender_banned, screen, merge_final_resolved,
}
use rezzy.Resolve.Iterative.Resolver.{
  non_power_phase, resolve_phases, resolve_iterative_sort_with_cache, resolve_iterative_sort,
}
use rezzy.Examples.Auth.{program}
use rezzy.Resolve.Iterative.Deltas.{resolve_iterative_sort_with_cache_and_deltas}
use rezzy.Resolve.Iterative.Deltas.Same.{
  tracked_result, resolve_iterative_sort_with_cache_and_deltas-same,
}
use rezzy.Examples.Room.{state_event, member_content, create, power, join_rules}
use rezzy.Examples.Sorting.{entries-hold}

abbrev pub citing : LeanEvent → List String → LeanEvent
citing ev auths = record ev { auth_events = auths }

abbrev ban : LeanEvent
ban =
    citing (state_event "$ban" m_room_member "@mallory:x" "@bob:x" (member_content "ban"))
      ("$create" ∷ "$power" ∷ "$bob" ∷ "$mallory" ∷ [])

abbrev topic : LeanEvent
topic =
    citing (state_event "$topic" "m.room.topic" "" "@mallory:x" empty_content)
      ("$create" ∷ "$power" ∷ "$mallory" ∷ [])

abbrev pub joins : String → String → LeanEvent
joins id user =
    citing (state_event id m_room_member user user (member_content "join"))
      ("$create" ∷ "$rules" ∷ "$power" ∷ [])

abbrev conflicted : EventMap
conflicted = ("$ban", ban) ∷ ("$topic", topic) ∷ ("$mallory", joins "$mallory" "@mallory:x") ∷ []

abbrev pub agreed_events : EventMap
agreed_events =
    ("$create", create)
    ∷ ("$power", citing power ("$create" ∷ []))
    ∷ ("$rules", citing join_rules ("$create" ∷ "$power" ∷ []))
    ∷ ("$bob", joins "$bob" "@bob:x")
    ∷ []

abbrev pub agreed_state : SharedState
agreed_state =
    ((m_room_create, ""), "$create")
    ∷ ((m_room_join_rules, ""), "$rules")
    ∷ ((m_room_member, "@bob:x"), "$bob")
    ∷ ((m_room_power_levels, ""), "$power")
    ∷ []

abbrev pub inputs : IterativeInputs
inputs = record {
  unconflicted_state = agreed_state;
  conflicted_events = conflicted;
  auth_context = agreed_events;
  version = v2;
}

abbrev pub caches : ResolveCaches
caches = record { external_auth_cache = none; mainline_cache = []; conflicted_keys = [] }

conflicted-IsKeyed : IsKeyed conflicted
conflicted-IsKeyed = entries-hold (λ k e. e.event_id ≡ k) conflicted (refl, (refl, (refl, tt)))

pub agreed_events-IsKeyed : IsKeyed agreed_events
agreed_events-IsKeyed =
    entries-hold (λ k e. e.event_id ≡ k) agreed_events (refl, (refl, (refl, (refl, tt))))

conflicted-Distinct : Distinct conflicted
unfolding lookup
conflicted-Distinct = (refl, (refl, (refl, tt)))

enough : fuel_bound inputs < 100
unfolding fuel_bound lookup dag_edges
enough = omega arith

expand_v2_power_events_auth_chains-Ancestral_example :
    (s : Split) × (expand_v2_power_events_auth_chains conflicted (routed conflicted v2) ≡ some s)
    × ((k : String)
        → (is_some (lookup k s.power) ≡ true) ↔ Ancestral (IsRoot conflicted v2) conflicted k)
    × ((k : String)
        → is_some (lookup k s.non_power)
          ≡ (is_some (lookup k conflicted) && not (is_some (lookup k s.power))))
    × ((k : String) (e : LeanEvent)
        → (lookup k s.power ≡ some e) ⊎ (lookup k s.non_power ≡ some e)
        → lookup k conflicted ≡ some e)
expand_v2_power_events_auth_chains-Ancestral_example =
    expand_v2_power_events_auth_chains-Ancestral conflicted v2 conflicted-Distinct

soft : has_ban_evasion_hardening v2 ≡ false
unfolding has_ban_evasion_hardening
soft = refl

state_events :
    (k : String) (ev : LeanEvent) → sort_context inputs k ≡ some ev → is_some ev.state_key ≡ true
state_events k ev = go (lookup k conflicted) refl
  where
    go :
        (o : Option LeanEvent)
        → lookup k conflicted ≡ o
        → (elim o [ some e ↦ some e | none ↦ lookup k agreed_events ]) ≡ some ev
        → is_some ev.state_key ≡ true
    go none l h =
        entries-hold (λ k e. is_some e.state_key ≡ true) agreed_events
          (refl, (refl, (refl, (refl, tt)))) k ev h
    go (some e) l h =
        entries-hold (λ k e. is_some e.state_key ≡ true) conflicted (refl, (refl, (refl, tt))) k ev
          (l ∙ h)

resolve_iterative_sort_with_cache_and_deltas-same_example :
    tracked_result (resolve_iterative_sort_with_cache_and_deltas 100 inputs none none)
    ≡ resolve_iterative_sort_with_cache 100 inputs none none
resolve_iterative_sort_with_cache_and_deltas-same_example =
    resolve_iterative_sort_with_cache_and_deltas-same 100 inputs none none soft conflicted-IsKeyed
      agreed_events-IsKeyed conflicted-Distinct state_events enough

-- The functions that the test runs.
unfoldable pub resolve_program : Unit {0}
unfolding resolve_iterative_sort resolve_iterative_sort_with_cache
    resolve_iterative_sort_with_all_caches select_local_auth_cache resolve_phases non_power_phase
    execute_power_phase route_power_events is_power_event is_ban_or_kick
    expand_v2_power_events_auth_chains expand_round expand_cited expand_one remove
    route_msc4297_ancestral_power_events supplement find_create least_create get insert
    get_initial_resolved_state run_power_phase_iterative_checks events_by check_events check_event
    event_auth_ok decide decides_key compute_local_auth local_round is_transitive with_event
    update_local_auth merge_entry merge_cached iterative_auth_ok overlay local_event
    has_ban_evasion_hardening merge_type merge_unconflicted_power_events screen is_sender_banned
    merge_final_resolved derive_all_conflicted_keys run_queue put sort dag_edges sort_stuck
    insert_stuck compare_stuck with_cycle_diagnostics build_graph add_edges add_edge touch
    fill_pl_cache get_power_level_from_auth_chain find_pl_event has_infinite_creators is_creator_of
    level_from_pl_event initial_queue prioritise pop relax relax_one drain stuck_ids classify cmp
    cmp_v1 cmp_v2 version_rank mainline_sort compute_closest_mainline_positions climb_all climb turn
    settle pl_edge number_from decorate cmp_mainline sort_by insert_by build_mainline_with_cache
    build_loop pl_parent nearest_pl search_round
resolve_program = tt

-- The ban is accepted in the power phase, and the topic is not, since its sender is banned.
resolve_test :
    resolve_iterative_sort 100 inputs
    ≡ some (
        ((m_room_create, ""), "$create")
        ∷ ((m_room_join_rules, ""), "$rules")
        ∷ ((m_room_member, "@bob:x"), "$bob")
        ∷ ((m_room_member, "@mallory:x"), "$ban")
        ∷ ((m_room_power_levels, ""), "$power")
        ∷ [])
unfolding program resolve_program
resolve_test = refl
