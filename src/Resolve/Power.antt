-- ===== src/Resolve/Power.antt =====
-- The events of the power phase (src/resolve/iterative.rs, src/resolve/semilattice.rs).
pub mod Routing
pub mod Expansion
pub mod Closure
pub mod Phase
pub mod Ancestry
use Prim.Native.Nat.{Ordering}
use Prim.Native.String
use text.Mathlib.Text.{is_lt}
use rezzy.Prelude.{
  ℕ, zero, suc, ◌+◌, String, Bool, true, false, not, ◌&&◌, ◌||◌, Option, none, some, List, [], ◌∷◌,
  ◌++◌, ◌==◌, if◌then◌else◌, is_some, opt_is, contains, length, lookup, put, keys, Round, push,
  run_queue,
}
use rezzy.Basespec.Version.{StateResVersion, v1, v2, v2_1, v2_1_1, v2_2, v3}
use rezzy.Basespec.Event.{
  LeanEvent, m_room_create, m_room_member, m_room_power_levels, m_room_join_rules, mem_ban,
  mem_leave,
}
use rezzy.Resolve.State.{Key, get, SharedState, EventMap, get_or_else, set_insert}

unfoldable pub is_ban_or_kick : LeanEvent → Bool
is_ban_or_kick ev =
    ev.event_type == m_room_member
    && ((opt_is ev.content.membership mem_ban || opt_is ev.content.membership mem_leave)
        && (elim ev.state_key [ none ↦ false | some state_key ↦ not (state_key == ev.sender) ]))

abbrev pub is_v1 : StateResVersion → Bool
is_v1 v1 = true
is_v1 _ = false

unfoldable pub is_power_event : LeanEvent → StateResVersion → Bool
unfolding is_ban_or_kick
is_power_event ev version =
    ev.event_type == m_room_create
    || (ev.event_type == m_room_power_levels
        || (ev.event_type == m_room_join_rules
            || (ev.event_type == m_room_member && (is_v1 version || is_ban_or_kick ev))))

-- `power_events` and `non_power_events`.
pub record Split : Type 0 where
  pub power : EventMap
  pub non_power : EventMap

unfoldable pub route_power_events : EventMap → StateResVersion → Split → Split
route_power_events [] version s = s
route_power_events ((id, ev) ∷ rest) version s = route_power_events rest version (
    if is_power_event ev version
    then record s { power = put id ev s.power }
    else record s { non_power = put id ev s.non_power })

-- `HashMap::remove`
unfoldable pub remove : String → EventMap → EventMap
remove key [] = []
remove key ((name, ev) ∷ rest) = if name == key then rest else (name, ev) ∷ remove key rest

-- One cited event, with what is pushed for it.
unfoldable pub expand_one : EventMap → String → Split → Split × List String
expand_one sort_set aid s =
    if is_some (lookup aid s.power) then (s, []) else (elim (lookup aid s.non_power) [
      | some owned ↦
          (record { power = put aid owned s.power; non_power = remove aid s.non_power }, aid ∷ [])
      | none ↦ elim (lookup aid sort_set) [
        | some aev ↦ (record s { power = put aid aev s.power }, aid ∷ [])
        | none ↦ (s, [])
      ]
    ])

unfoldable pub expand_cited : EventMap → List String → Split → Split × List String
expand_cited sort_set [] s = (s, [])
expand_cited sort_set (aid ∷ rest) s =
    let (s', pushed) = expand_one sort_set aid s in
    let (s'', later) = expand_cited sort_set rest s' in (s'', pushed ++ later)

unfoldable pub expand_round : EventMap → String → Split → Round Split String
expand_round sort_set id s = elim (lookup id sort_set) [
  | none ↦ push [] s
  | some ev ↦ let (s', pushed) = expand_cited sort_set ev.auth_events s in push pushed s'
]

-- A round of fuel for each power event, and for each event that can become one.
unfoldable pub expand_v2_power_events_auth_chains : EventMap → Split → Option Split
expand_v2_power_events_auth_chains sort_set s =
    run_queue (expand_round sort_set) (suc (length s.power + length sort_set)) (keys s.power) s

abbrev pub all_cited : EventMap → List String
all_cited [] = []
all_cited ((id, ev) ∷ rest) = ev.auth_events ++ all_cited rest

-- The set `conflicted_power_ancestry`.
unfoldable pub ancestry_round : EventMap → String → List String → Round (List String) String
ancestry_round auth_context aid ancestry =
    if contains ancestry aid then push [] ancestry else (elim (lookup aid auth_context) [
      | none ↦ push [] (set_insert aid ancestry)
      | some aev ↦ push aev.auth_events (set_insert aid ancestry)
    ])

-- The types of a supplemental event.
unfoldable pub is_supplemental : StateResVersion → LeanEvent → Bool
is_supplemental v2_1 ev =
    ev.event_type == m_room_power_levels
    || (ev.event_type == m_room_create || ev.event_type == m_room_join_rules)
is_supplemental _ ev = ev.event_type == m_room_power_levels || ev.event_type == m_room_create

unfoldable pub supplement :
    StateResVersion → EventMap → List String → List String → EventMap → EventMap
supplement version auth_context original [] power = power
supplement version auth_context original (id ∷ rest) power =
    supplement version auth_context original rest (
      if contains original id then power else (elim (lookup id auth_context) [
        | none ↦ power
        | some ev ↦ if is_supplemental version ev then put id ev power else power
      ]))

abbrev pub is_msc4297 : StateResVersion → Bool
is_msc4297 v2_1 = true
is_msc4297 v2_1_1 = true
is_msc4297 v2_2 = true
is_msc4297 _ = false

-- With a round of fuel for each event that the power events cite, and `fuel` for those pushed.
unfoldable pub route_msc4297_ancestral_power_events :
    ℕ → EventMap → List String → StateResVersion → EventMap → Option EventMap
route_msc4297_ancestral_power_events fuel auth_context original version power =
    if is_msc4297 version
    then (elim (run_queue (ancestry_round auth_context) (length (all_cited power) + fuel)
        (all_cited power) []) [
          | none ↦ none
          | some ancestry ↦ some (supplement version auth_context original ancestry power)
        ])
    else some power

-- `min_by_key(|ev| &ev.event_id)` over the create events; the first of equal ones.
unfoldable pub least_create : EventMap → Option LeanEvent
least_create [] = none
least_create ((id, ev) ∷ rest) =
    let later = least_create rest in
    if ev.event_type == m_room_create
    then (elim later [
      | none ↦ some ev
      | some other ↦
          if is_lt (String.compare other.event_id ev.event_id) then some other else some ev
    ])
    else later

unfoldable pub find_create : SharedState → EventMap → EventMap → Option LeanEvent
find_create unconflicted_state conflicted_events auth_context =
    let agreed : Option LeanEvent = elim (get m_room_create "" unconflicted_state) [
      | none ↦ none
      | some id ↦ get_or_else auth_context conflicted_events id
    ] in
    elim agreed [ some ev ↦ some ev | none ↦ least_create conflicted_events ]

-- `execute_power_phase`; the create event is `find_create`.
unfoldable pub execute_power_phase :
    ℕ → EventMap → EventMap → List String → StateResVersion → Option Split
execute_power_phase fuel conflicted_events auth_context original version =
    let routed =
      route_power_events conflicted_events version (record { power = []; non_power = [] }) in
    elim (if is_v1 version
      then some routed
      else expand_v2_power_events_auth_chains conflicted_events routed) [
        | none ↦ none
        | some s ↦
            elim (route_msc4297_ancestral_power_events fuel auth_context original version s.power) [
              | none ↦ none
              | some power ↦ some (record { power = power; non_power = s.non_power })
            ]
      ]
