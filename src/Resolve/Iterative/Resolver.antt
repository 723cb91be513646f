-- ===== src/Resolve/Iterative/Resolver.antt =====
-- The entry points (src/resolve/iterative.rs, `resolve_iterative_sort` and its variants).
use rezzy.Prelude.{
  if◌then◌else◌, eqb, ℕ, Bool, true, false, Option, none, some, List, [], unwrap_or, and_then, keys,
}
use rezzy.Basespec.Version.{StateResVersion, v3}
use rezzy.Basespec.Event.{LeanEvent, m_room_power_levels}
use rezzy.Sorting.Priority.{version_rank}
use rezzy.Sorting.Mainline.{mainline_sort}
use rezzy.Sorting.BuildMainline.{ParentCache, build_mainline_with_cache}
use rezzy.Resolve.State.{Key, get, SharedState, EventMap}
use rezzy.Resolve.LocalAuth.{Cache}
use rezzy.Resolve.Power.{find_create, execute_power_phase}
use rezzy.Resolve.Iterative.{
  IterativeInputs, Resolving, sort_context, derive_all_conflicted_keys, check_events,
  run_power_phase_iterative_checks, get_initial_resolved_state, merge_unconflicted_power_events,
  screen, merge_final_resolved,
}

-- `LocalAuthCache`: the entries, and the version for which they were computed.
pub record LocalAuthCache : Type 0 where
  pub version : StateResVersion
  pub map : Cache

-- Without a cache of the caller, or with one of another version, the resolution starts with an empty
-- one.
unfoldable pub select_local_auth_cache : Option LocalAuthCache → StateResVersion → LocalAuthCache
select_local_auth_cache external version = elim external [
  | none ↦ record { version = version; map = [] }
  | some cache ↦
      if eqb (version_rank cache.version) (version_rank version)
      then cache
      else record { version = version; map = [] }
]

-- `ResolveCaches`
pub record ResolveCaches : Type 0 where
  pub external_auth_cache : Option LocalAuthCache
  pub mainline_cache : ParentCache
  pub conflicted_keys : List Key

-- The final state, and the caches that a caller keeps; the local one is of the version of the inputs.
pub record Resolution : Type 0 where
  pub state : SharedState
  pub local_auth_cache : Cache
  pub mainline_cache : ParentCache

-- The mainline sort of the screened events, and their checks; `resolved` holds the unconflicted
-- power events.
unfoldable pub non_power_phase :
    ℕ
    → IterativeInputs
    → ResolveCaches
    → Option LeanEvent
    → List LeanEvent
    → Resolving
    → Option Resolution
non_power_phase fuel inputs caches create_ev non_power_list s =
    and_then
      (build_mainline_with_cache fuel (get m_room_power_levels "" s.resolved) (sort_context inputs)
        caches.mainline_cache inputs.version)
      (λ built.
        and_then (mainline_sort fuel non_power_list built.0 (sort_context inputs) inputs.version)
          (λ events.
            and_then (check_events fuel inputs caches.conflicted_keys create_ev false events s)
              (λ s'. some (record {
                state = merge_final_resolved inputs.unconflicted_state s'.resolved;
                local_auth_cache = s'.local_auth_cache;
                mainline_cache = built.1;
              }))))

-- What stands between the two phases.
abbrev pub merge_power : IterativeInputs → Resolving → Resolving
merge_power inputs s = record s {
  resolved = merge_unconflicted_power_events inputs.version inputs.unconflicted_state s.resolved;
}

abbrev pub screened : IterativeInputs → EventMap → SharedState → List LeanEvent
screened inputs non_power resolved =
    screen inputs.version resolved inputs.unconflicted_state (sort_context inputs) non_power

abbrev pub initial : IterativeInputs → ResolveCaches → Resolving
initial inputs caches = record {
  resolved = get_initial_resolved_state inputs.unconflicted_state inputs.version;
  local_auth_cache = (select_local_auth_cache caches.external_auth_cache inputs.version).map;
}

unfoldable pub resolve_phases :
    ℕ → IterativeInputs → ResolveCaches → Option LeanEvent → Option Resolution
resolve_phases fuel inputs caches create_ev =
    and_then
      (execute_power_phase fuel inputs.conflicted_events inputs.auth_context
        (keys inputs.conflicted_events) inputs.version)
      (λ split.
        and_then
          (run_power_phase_iterative_checks fuel inputs caches.conflicted_keys create_ev split.power
            (initial inputs caches))
          (λ s.
            non_power_phase fuel inputs caches create_ev
              (screened inputs split.non_power (merge_power inputs s).resolved)
              (merge_power inputs s)))

abbrev pub is_v3 : StateResVersion → Bool
is_v3 v3 = true
is_v3 _ = false

unfoldable pub resolve_iterative_sort_with_all_caches :
    ℕ → IterativeInputs → ResolveCaches → Option Resolution
unfolding resolve_phases
resolve_iterative_sort_with_all_caches fuel inputs caches = elim (is_v3 inputs.version) [
  | true ↦ none
  | false ↦
      resolve_phases fuel inputs caches
        (find_create inputs.unconflicted_state inputs.conflicted_events inputs.auth_context)
]

-- `resolve_iterative_sort_with_cache`, with the option `conflicted_keys_override`.
unfoldable pub resolve_iterative_sort_with_cache :
    ℕ → IterativeInputs → Option LocalAuthCache → Option (List Key) → Option (SharedState × Cache)
resolve_iterative_sort_with_cache fuel inputs external_auth_cache conflicted_keys_override =
    elim (resolve_iterative_sort_with_all_caches fuel inputs (record {
      external_auth_cache = external_auth_cache;
      mainline_cache = [];
      conflicted_keys =
          unwrap_or conflicted_keys_override (derive_all_conflicted_keys inputs.conflicted_events);
    })) [ none ↦ none | some r ↦ some (r.state, r.local_auth_cache) ]

unfoldable pub resolve_iterative_sort : ℕ → IterativeInputs → Option SharedState
resolve_iterative_sort fuel inputs =
    elim (resolve_iterative_sort_with_cache fuel inputs none none) [
      | none ↦ none
      | some (state, cache) ↦ some state
    ]

unfoldable pub resolve_iterative_sort_with_conflicted_keys :
    ℕ → IterativeInputs → List Key → Option SharedState
resolve_iterative_sort_with_conflicted_keys fuel inputs conflicted_keys =
    elim (resolve_iterative_sort_with_cache fuel inputs none (some conflicted_keys)) [
      | none ↦ none
      | some (state, cache) ↦ some state
    ]
