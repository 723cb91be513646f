-- ===== src/Resolve/Iterative.antt =====
-- The iterative resolution (src/resolve/iterative.rs). `none` is the panic for V3, or fuel that ran
-- out.
pub mod Resolver
pub mod Accepted
pub mod Merge
pub mod Returns
pub mod Inputs
pub mod Run
pub mod View
pub mod Steps
pub mod Promise
pub mod Total
pub mod Senders
pub mod Deltas
use rezzy.Prelude.{
  ℕ, String, Bool, true, false, not, ◌&&◌, ◌||◌, Option, none, some, List, [], ◌∷◌, ◌==◌,
  if◌then◌else◌, is_some, is_some_and, opt_is, lookup, keys, unwrap_or, and_then,
}
use rezzy.Basespec.Version.{StateResVersion, v3, is_v2_1_plus, has_ban_evasion_hardening}
use rezzy.Basespec.Event.{
  LeanEvent, EventProvider, m_room_create, m_room_member, m_room_power_levels, m_room_join_rules,
  mem_ban,
}
use rezzy.Sorting.Fallback.{sort}
use rezzy.Sorting.Mainline.{mainline_sort}
use rezzy.Sorting.BuildMainline.{ParentCache, build_mainline_with_cache}
use rezzy.Resolve.State.{Key, get, insert, SharedState, EventMap, get_or_else}
use rezzy.Resolve.LocalAuth.{Cache, compute_local_auth}
use rezzy.Resolve.Overlay.{iterative_auth_ok}
use rezzy.Resolve.Power.{is_v1, execute_power_phase, find_create}

-- `IterativeInputs`, with a fresh `pl_cache` and an empty text for the empty key.
pub record IterativeInputs : Type 0 where
  pub unconflicted_state : SharedState
  pub conflicted_events : EventMap
  pub auth_context : EventMap
  pub version : StateResVersion

-- What the phases change.
pub record Resolving : Type 0 where
  pub resolved : SharedState
  pub local_auth_cache : Cache

-- `SortContext`: the conflicted events, and then the auth context.
abbrev pub sort_context : IterativeInputs → EventProvider
sort_context inputs = get_or_else inputs.conflicted_events inputs.auth_context

abbrev pub contains_key : String → String → List Key → Bool
contains_key t k [] = false
contains_key t k ((t', k') ∷ rest) = (t' == t && k' == k) || contains_key t k rest

-- `derive_all_conflicted_keys`
unfoldable pub derive_all_conflicted_keys : EventMap → List Key
derive_all_conflicted_keys [] = []
derive_all_conflicted_keys ((id, ev) ∷ rest) =
    (ev.event_type, unwrap_or ev.state_key "") ∷ derive_all_conflicted_keys rest

unfoldable pub decides_key : StateResVersion → List Key → String → String → Bool
decides_key version conflicted_keys t k = not (is_v1 version) || contains_key t k conflicted_keys

unfoldable pub event_auth_ok :
    ℕ
    → IterativeInputs
    → Option LeanEvent
    → LeanEvent
    → SharedState
    → Cache
    → Bool
    → Option (Bool × Cache)
event_auth_ok fuel inputs create_ev event resolved cache is_power =
    and_then
      (compute_local_auth fuel event inputs.auth_context inputs.conflicted_events cache
        inputs.version)
      (λ found. some (
        iterative_auth_ok event resolved inputs.auth_context inputs.conflicted_events found.0
            create_ev inputs.version is_power,
        found.1,
      ))

-- An accepted event decides its key, where it has a state key and may decide.
unfoldable pub decide : StateResVersion → List Key → LeanEvent → SharedState → SharedState
decide version conflicted_keys event resolved = elim event.state_key [
  | none ↦ resolved
  | some sk ↦
      if decides_key version conflicted_keys event.event_type sk
      then insert (event.event_type, sk) event.event_id resolved
      else resolved
]

abbrev pub checked : IterativeInputs → List Key → LeanEvent → Resolving → Bool × Cache → Resolving
checked inputs conflicted_keys event s (passes, cache') = record {
  resolved = if passes then decide inputs.version conflicted_keys event s.resolved else s.resolved;
  local_auth_cache = cache';
}

-- The body of both loops.
unfoldable pub check_event :
    ℕ
    → IterativeInputs
    → List Key
    → Option LeanEvent
    → Bool
    → LeanEvent
    → Resolving
    → Option Resolving
check_event fuel inputs conflicted_keys create_ev is_power event s =
    and_then (event_auth_ok fuel inputs create_ev event s.resolved s.local_auth_cache is_power)
      (λ verdict. some (checked inputs conflicted_keys event s verdict))

unfoldable pub check_events :
    ℕ
    → IterativeInputs
    → List Key
    → Option LeanEvent
    → Bool
    → List LeanEvent
    → Resolving
    → Option Resolving
check_events fuel inputs conflicted_keys create_ev is_power [] s = some s
check_events fuel inputs conflicted_keys create_ev is_power (event ∷ rest) s =
    and_then (check_event fuel inputs conflicted_keys create_ev is_power event s)
      (λ s'. check_events fuel inputs conflicted_keys create_ev is_power rest s')

-- The events of sorted ids; an id without an event is skipped.
unfoldable pub events_by : EventProvider → List String → List LeanEvent
events_by find [] = []
events_by find (id ∷ rest) =
    let later = events_by find rest in elim (find id) [ none ↦ later | some event ↦ event ∷ later ]

unfoldable pub run_power_phase_iterative_checks :
    ℕ → IterativeInputs → List Key → Option LeanEvent → EventMap → Resolving → Option Resolving
run_power_phase_iterative_checks fuel inputs conflicted_keys create_ev power_events s =
    and_then (sort power_events (sort_context inputs) create_ev inputs.version) (λ sorted_power_ids.
      check_events fuel inputs conflicted_keys create_ev true
        (events_by (sort_context inputs) sorted_power_ids) s)

unfoldable pub get_initial_resolved_state : SharedState → StateResVersion → SharedState
get_initial_resolved_state unconflicted_state version =
    if is_v2_1_plus version then [] else unconflicted_state

-- One event type of the loop: its value, where the resolved state has none.
unfoldable pub merge_type : SharedState → String → SharedState → SharedState
merge_type unconflicted_state t resolved = elim (get t "" unconflicted_state) [
  | none ↦ resolved
  | some v ↦ if is_some (get t "" resolved) then resolved else insert (t, "") v resolved
]

unfoldable pub merge_unconflicted_power_events :
    StateResVersion → SharedState → SharedState → SharedState
unfolding merge_type
merge_unconflicted_power_events version unconflicted_state resolved =
    if is_v2_1_plus version
    then merge_type unconflicted_state m_room_create (
        merge_type unconflicted_state m_room_join_rules
          (merge_type unconflicted_state m_room_power_levels resolved))
    else resolved

abbrev pub get_either : String → String → SharedState → SharedState → Option String
get_either t k first second = elim (get t k first) [ some id ↦ some id | none ↦ get t k second ]

unfoldable pub is_sender_banned : LeanEvent → SharedState → SharedState → EventProvider → Bool
is_sender_banned ev resolved unconflicted_state events =
    elim (get_either m_room_member ev.sender resolved unconflicted_state) [
      | none ↦ false
      | some id ↦ is_some_and (events id) (λ m. opt_is m.content.membership mem_ban)
    ]

-- The values of `non_power_events`, those of banned senders left out where the version asks for it.
unfoldable pub screen :
    StateResVersion → SharedState → SharedState → EventProvider → EventMap → List LeanEvent
unfolding is_sender_banned
screen version resolved unconflicted_state events [] = []
screen version resolved unconflicted_state events ((id, ev) ∷ rest) =
    let later = screen version resolved unconflicted_state events rest in
    if has_ban_evasion_hardening version && is_sender_banned ev resolved unconflicted_state events
    then later
    else ev ∷ later

-- The entries of the second state are inserted one after the other.
unfoldable pub merge_final_resolved : SharedState → SharedState → SharedState
merge_final_resolved f [] = f
merge_final_resolved f (((t, k), v) ∷ resolved) =
    merge_final_resolved (if is_some (get t k f) then f else insert (t, k) v f) resolved
