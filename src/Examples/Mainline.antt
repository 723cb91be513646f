-- ===== src/Examples/Mainline.antt =====
-- Examples of the mainline: two power-levels events, and events that cite them.
use rezzy.Prelude.{
  ◌≡◌, refl, String, true, none, some, List, [], ◌∷◌, arith, keys, contains, is_some, lookup, ◌<◌,
  unpaid, run_queue, put, sort_by, insert_by,
}
use rezzy.Basespec.Version.{v2}
use rezzy.Basespec.Event.{
  LeanEvent, empty_event, EventProvider, provider_of, m_room_power_levels, dag_edges,
}
use rezzy.Sorting.Kahn.{Events}
use rezzy.Sorting.Mainline.{
  compute_closest_mainline_positions, mainline_sort, climb, climb_all, turn, settle, pl_edge,
  number_from, decorate, cmp_mainline,
}
use rezzy.Sorting.BuildMainline.{
  ParentCache, build_mainline_with_cache, build_loop, pl_parent, nearest_pl, search_round,
}
use rezzy.Sorting.BuildMainline.Chain.{
  edges_of, IsChain, IsParentCache, build_mainline_with_cache-IsChain,
}
use rezzy.Resolve.Power.Routing.{contains-keys}

abbrev typed : String → String → List String → LeanEvent
typed id event_type auths = record empty_event {
  event_id = id;
  event_type = event_type;
  auth_events = auths;
}

abbrev topic_a : LeanEvent
topic_a = typed "$a" "m.room.topic" ("$power" ∷ [])

abbrev topic_b : LeanEvent
topic_b = typed "$b" "m.room.topic" ("$second" ∷ [])

abbrev powers : Events
powers =
    ("$power", typed "$power" m_room_power_levels [])
    ∷ ("$second", typed "$second" m_room_power_levels ("$power" ∷ []))
    ∷ ("$a", topic_a)
    ∷ ("$b", topic_b)
    ∷ []

abbrev context : EventProvider
context = provider_of powers

listed : (k : String) → is_some (context k) ≡ true → contains (keys powers) k ≡ true
listed k h = ground (arith, h, contains-keys k powers)

abbrev line : List String
line = "$second" ∷ "$power" ∷ []

build_test :
    build_mainline_with_cache 20 (some "$second") context [] v2
    ≡ some (line, ("$second", some "$power") ∷ ("$power", none) ∷ [])
unfolding build_mainline_with_cache build_loop pl_parent nearest_pl search_round lookup dag_edges
    run_queue put
build_test = refl

sort_test :
    mainline_sort 20 (topic_b ∷ topic_a ∷ []) line context v2 ≡ some (topic_a ∷ topic_b ∷ [])
unfolding mainline_sort compute_closest_mainline_positions climb_all climb turn settle pl_edge
    number_from decorate cmp_mainline lookup dag_edges put sort_by insert_by
sort_test = refl

no_parents : IsParentCache context v2 20 []
unfolding lookup
no_parents k p h = absurd (ground (arith, h))

few_edges : unpaid (edges_of context v2) [] (keys powers) < 20
unfolding lookup dag_edges
few_edges = omega arith

build_mainline_with_cache-IsChain_example :
    (mainline : List String) × (cache' : ParentCache) × (build_mainline_with_cache 20
        (some "$second")
        context
        []
        v2
      ≡ some (mainline, cache'))
    × IsChain context v2 20 (some "$second") [] mainline
    × IsParentCache context v2 20 cache'
build_mainline_with_cache-IsChain_example =
    build_mainline_with_cache-IsChain context v2 (keys powers) listed 20 (some "$second") []
      few_edges (omega arith) no_parents
