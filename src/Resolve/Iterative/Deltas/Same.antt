-- ===== src/Resolve/Iterative/Deltas/Same.antt =====
-- The variant with deltas resolves as the plain one does (src/resolve/iterative.rs).
use rezzy.Prelude.{
  ℕ, ◌<◌, ◌≡◌, refl, String, Bool, true, false, Option, none, some, List, [], ◌∷◌, arith, is_some,
  Distinct, keys, All, unwrap_or,
}
use rezzy.Basespec.Version.{has_ban_evasion_hardening}
use rezzy.Basespec.Event.{LeanEvent, m_room_power_levels}
use rezzy.Sorting.Kahn.Invariant.{IsKeyed}
use rezzy.Sorting.Fallback.{sort}
use rezzy.Sorting.Mainline.{mainline_sort}
use rezzy.Sorting.Mainline.Members.{mainline_sort-All}
use rezzy.Sorting.BuildMainline.{ParentCache, build_mainline_with_cache}
use rezzy.Resolve.State.{Key, get, SharedState, EventMap}
use rezzy.Resolve.LocalAuth.{Cache}
use rezzy.Resolve.Power.{Split, find_create, execute_power_phase}
use rezzy.Resolve.Power.Routing.{Listed}
use rezzy.Resolve.Power.Ancestry.{execute_power_phase-IsPhase}
use rezzy.Resolve.Iterative.{
  IterativeInputs, sort_context, derive_all_conflicted_keys, check_events, events_by,
  run_power_phase_iterative_checks, screen,
}
use rezzy.Resolve.Iterative.Resolver.{
  LocalAuthCache, ResolveCaches, Resolution, non_power_phase, merge_power, screened, initial,
  resolve_phases, is_v3, resolve_iterative_sort_with_all_caches, resolve_iterative_sort_with_cache,
}
use rezzy.Resolve.Iterative.Returns.{fuel_bound}
use rezzy.Resolve.Iterative.Deltas.{
  Tracking, track_power_event, track_event, track_all, values, merge_tracking, ResolvedWithDeltas,
  track_non_power, track_phases, resolve_iterative_sort_with_cache_and_deltas,
}
use rezzy.Resolve.Iterative.Deltas.Loops.{
  IsStateEvent, plain, track_power_event-plain, track_event-plain, track_all-plain,
}

-- The state and the cache of a result.
abbrev pub tracked_result : Option ResolvedWithDeltas → Option (SharedState × Cache)
tracked_result o = elim o [ none ↦ none | some r ↦ some (r.state, r.local_auth_cache) ]

abbrev plain_result : Option Resolution → Option (SharedState × Cache)
plain_result o = elim o [ none ↦ none | some r ↦ some (r.state, r.local_auth_cache) ]

abbrev fresh_caches : Option LocalAuthCache → List Key → ResolveCaches
fresh_caches cache conflicted_keys = record {
  external_auth_cache = cache;
  mainline_cache = [];
  conflicted_keys = conflicted_keys;
}

module _ (fuel : ℕ) (inputs : IterativeInputs) (cache : Option LocalAuthCache)
    (conflicted_keys : List Key) (create_ev : Option LeanEvent)
    (soft : has_ban_evasion_hardening inputs.version ≡ false) where
  track_non_power-plain :
      (events : List LeanEvent) (s : Tracking)
      → All IsStateEvent events
      → tracked_result (track_non_power fuel inputs conflicted_keys create_ev events s)
        ≡ plain_result (
            non_power_phase fuel inputs
              (fresh_caches cache conflicted_keys)
              create_ev
              events
              s.resolving)
  unfolding track_non_power non_power_phase
  track_non_power-plain events s states =
      go
        (build_mainline_with_cache fuel (get m_room_power_levels "" s.resolving.resolved)
          (sort_context inputs) [] inputs.version)
        refl
    where
      last :
          (built : List String × ParentCache) (sorted : List LeanEvent)
          → build_mainline_with_cache fuel
              (get m_room_power_levels "" s.resolving.resolved)
              (sort_context inputs)
              []
              inputs.version
            ≡ some built
          → mainline_sort fuel events built.0 (sort_context inputs) inputs.version ≡ some sorted
          → (o : Option Tracking)
          → track_all (track_event fuel inputs conflicted_keys create_ev) sorted s ≡ o
          → plain o ≡ check_events fuel inputs conflicted_keys create_ev false sorted s.resolving
          → tracked_result (track_non_power fuel inputs conflicted_keys create_ev events s)
            ≡ plain_result (
                non_power_phase fuel inputs
                  (fresh_caches cache conflicted_keys)
                  create_ev
                  events
                  s.resolving)
      last built sorted b m none r h = ground (arith, b, m, r, h)
      last built sorted b m (some s') r h = ground (arith, b, m, r, h)

      next :
          (built : List String × ParentCache)
          → build_mainline_with_cache fuel
              (get m_room_power_levels "" s.resolving.resolved)
              (sort_context inputs)
              []
              inputs.version
            ≡ some built
          → (o : Option (List LeanEvent))
          → mainline_sort fuel events built.0 (sort_context inputs) inputs.version ≡ o
          → tracked_result (track_non_power fuel inputs conflicted_keys create_ev events s)
            ≡ plain_result (
                non_power_phase fuel inputs
                  (fresh_caches cache conflicted_keys)
                  create_ev
                  events
                  s.resolving)
      next built b none m = ground (arith, b, m)
      next built b (some sorted) m =
          last built sorted b m
            (track_all (track_event fuel inputs conflicted_keys create_ev) sorted s) refl
            (track_all-plain fuel inputs conflicted_keys create_ev false
              (track_event fuel inputs conflicted_keys create_ev)
              (track_event-plain fuel inputs conflicted_keys create_ev soft) sorted s
              (mainline_sort-All IsStateEvent fuel events built.0 (sort_context inputs)
                inputs.version sorted states m))

      go :
          (o : Option (List String × ParentCache))
          → build_mainline_with_cache fuel
              (get m_room_power_levels "" s.resolving.resolved)
              (sort_context inputs)
              []
              inputs.version
            ≡ o
          → tracked_result (track_non_power fuel inputs conflicted_keys create_ev events s)
            ≡ plain_result (
                non_power_phase fuel inputs
                  (fresh_caches cache conflicted_keys)
                  create_ev
                  events
                  s.resolving)
      go none b = ground (arith, b)
      go (some built) b =
          next built b (mainline_sort fuel events built.0 (sort_context inputs) inputs.version) refl

  screen-values :
      (resolved : SharedState) (non_power : EventMap)
      → screened inputs non_power resolved ≡ values non_power
  unfolding screen
  screen-values resolved [] = refl
  screen-values resolved ((id, ev) ∷ rest) = ground (arith, soft, screen-values resolved rest)

  module _
      (states : (k : String) (ev : LeanEvent)
        → sort_context inputs k ≡ some ev
        → IsStateEvent ev) where
    events_by-IsStateEvent :
        (ids : List String) → All IsStateEvent (events_by (sort_context inputs) ids)
    unfolding events_by
    events_by-IsStateEvent [] = tt
    events_by-IsStateEvent (id ∷ rest) =
        go (sort_context inputs id) refl (events_by-IsStateEvent rest)
      where
        go :
            (o : Option LeanEvent)
            → sort_context inputs id ≡ o
            → All IsStateEvent (events_by (sort_context inputs) rest)
            → All IsStateEvent (elim o [
              | none ↦ events_by (sort_context inputs) rest
              | some event ↦ event ∷ events_by (sort_context inputs) rest
            ])
        go none h later = later
        go (some event) h later = (states id event h, later)

    values-IsStateEvent :
        (m : EventMap) → Listed inputs.conflicted_events m → All IsStateEvent (values m)
    values-IsStateEvent [] l = tt
    values-IsStateEvent ((id, ev) ∷ rest) l =
        (states id ev (ground (arith, l.0)), values-IsStateEvent rest l.1)

    start : Tracking
    start = record { resolving = initial inputs (fresh_caches cache conflicted_keys); deltas = [] }

    tracked_phases : Option (SharedState × Cache)
    tracked_phases = tracked_result (track_phases fuel inputs cache conflicted_keys create_ev)

    plain_phases : Option (SharedState × Cache)
    plain_phases =
        plain_result (resolve_phases fuel inputs (fresh_caches cache conflicted_keys) create_ev)

    phases-same :
        (split : Split)
        → execute_power_phase fuel inputs.conflicted_events inputs.auth_context
            (keys inputs.conflicted_events)
            inputs.version
          ≡ some split
        → Listed inputs.conflicted_events split.non_power
        → tracked_phases ≡ plain_phases
    unfolding tracked_phases plain_phases track_phases resolve_phases
        run_power_phase_iterative_checks start
    phases-same split splits l =
        go (sort split.power (sort_context inputs) create_ev inputs.version) refl
      where
        second :
            (ids : List String)
            → sort split.power (sort_context inputs) create_ev inputs.version ≡ some ids
            → (o : Option Tracking)
            → track_all
                (track_power_event fuel inputs conflicted_keys create_ev)
                (events_by (sort_context inputs) ids)
                start
              ≡ o
            → plain o
              ≡ check_events fuel inputs conflicted_keys create_ev true
                  (events_by (sort_context inputs) ids)
                  start.resolving
            → tracked_phases ≡ plain_phases
        second ids h none r e = ground (arith, splits, h, r, e)
        second ids h (some s') r e = ground (
          arith,
          splits,
          h,
          r,
          e,
          screen-values (merge_power inputs s'.resolving).resolved split.non_power,
          track_non_power-plain (values split.non_power) (merge_tracking inputs s')
              (values-IsStateEvent split.non_power l),
        )

        go :
            (o : Option (List String))
            → sort split.power (sort_context inputs) create_ev inputs.version ≡ o
            → tracked_phases ≡ plain_phases
        go none h = ground (arith, splits, h)
        go (some ids) h =
            second ids h
              (track_all (track_power_event fuel inputs conflicted_keys create_ev)
                (events_by (sort_context inputs) ids) start)
              refl
              (track_all-plain fuel inputs conflicted_keys create_ev true
                (track_power_event fuel inputs conflicted_keys create_ev)
                (track_power_event-plain fuel inputs conflicted_keys create_ev)
                (events_by (sort_context inputs) ids) start (events_by-IsStateEvent ids))

-- For a version without the hardening against ban evasion, input events that have a state key and
-- stand under their own ids, distinct conflicted ids and fuel above `fuel_bound`, the variant that
-- reports deltas gives the same state and the same local cache as the plain resolution, whatever the
-- caller's cache and the conflicted keys.
pub resolve_iterative_sort_with_cache_and_deltas-same :
    (fuel : ℕ) (inputs : IterativeInputs) (cache : Option LocalAuthCache)
    (conflicted_keys_override : Option (List Key))
    → has_ban_evasion_hardening inputs.version ≡ false
    → IsKeyed inputs.conflicted_events
    → IsKeyed inputs.auth_context
    → Distinct inputs.conflicted_events
    → ((k : String) (ev : LeanEvent)
        → sort_context inputs k ≡ some ev
        → is_some ev.state_key ≡ true)
    → fuel_bound inputs < fuel
    → tracked_result
        (resolve_iterative_sort_with_cache_and_deltas fuel inputs cache conflicted_keys_override)
      ≡ resolve_iterative_sort_with_cache fuel inputs cache conflicted_keys_override
unfolding resolve_iterative_sort_with_cache_and_deltas resolve_iterative_sort_with_cache
    resolve_iterative_sort_with_all_caches fuel_bound tracked_phases plain_phases
resolve_iterative_sort_with_cache_and_deltas-same fuel inputs cache conflicted_keys_override soft
      keyed auth_keyed distinct states enough =
    let (split, splits, phase) =
      execute_power_phase-IsPhase fuel inputs.conflicted_events inputs.auth_context
        (keys inputs.conflicted_events) inputs.version distinct keyed auth_keyed
        (omega (arith, enough)) in
    let same =
      phases-same fuel inputs cache
        (unwrap_or conflicted_keys_override (derive_all_conflicted_keys inputs.conflicted_events))
        (find_create inputs.unconflicted_state inputs.conflicted_events inputs.auth_context) soft
        states split splits phase.non_power in
    go (is_v3 inputs.version) refl same
  where
    go :
        (b : Bool)
        → is_v3 inputs.version ≡ b
        → tracked_phases fuel inputs cache
            (unwrap_or conflicted_keys_override
              (derive_all_conflicted_keys inputs.conflicted_events))
            (find_create inputs.unconflicted_state inputs.conflicted_events inputs.auth_context)
            soft
            states
          ≡ plain_phases fuel inputs cache
              (unwrap_or conflicted_keys_override
                (derive_all_conflicted_keys inputs.conflicted_events))
              (find_create inputs.unconflicted_state inputs.conflicted_events inputs.auth_context)
              soft
              states
        → tracked_result (
            resolve_iterative_sort_with_cache_and_deltas fuel inputs cache conflicted_keys_override)
          ≡ resolve_iterative_sort_with_cache fuel inputs cache conflicted_keys_override
    go true h same = ground (arith, h)
    go false h same = ground (arith, h, same)
