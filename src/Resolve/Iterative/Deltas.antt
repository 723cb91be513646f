-- ===== src/Resolve/Iterative/Deltas.antt =====
-- The variant that also reports what each checked event did (src/resolve/iterative.rs,
-- `resolve_iterative_sort_with_cache_and_deltas`; the report is of src/state/delta.rs).
pub mod Loops
pub mod Same
use rezzy.Prelude.{
  ℕ, String, Bool, true, false, not, ◌&&◌, ◌||◌, Option, none, some, List, [], ◌∷◌, ◌++◌,
  if◌then◌else◌, contains, unwrap_or, and_then, keys,
}
use rezzy.Basespec.Version.{StateResVersion, has_ban_evasion_hardening}
use rezzy.Basespec.Event.{LeanEvent, m_room_power_levels}
use rezzy.Sorting.Fallback.{sort}
use rezzy.Sorting.Mainline.{mainline_sort}
use rezzy.Sorting.BuildMainline.{build_mainline_with_cache}
use rezzy.Resolve.State.{Key, get, insert, SharedState, EventMap}
use rezzy.Resolve.LocalAuth.{Cache}
use rezzy.Resolve.Power.{find_create, execute_power_phase}
use rezzy.Resolve.Iterative.{
  IterativeInputs, Resolving, sort_context, derive_all_conflicted_keys, decides_key, event_auth_ok,
  events_by, get_initial_resolved_state, is_sender_banned, merge_final_resolved,
}
use rezzy.Resolve.Iterative.Resolver.{LocalAuthCache, select_local_auth_cache, merge_power, is_v3}

pub data ResolvePhase : Type 0 where
  in_power in_non_power : ResolvePhase

pub record ResolutionDelta : Type 0 where
  pub event_id : String
  pub accepted : Bool
  pub key : Key
  pub replaced : Option String
  pub phase : ResolvePhase

-- What the loops change.
pub record Tracking : Type 0 where
  pub resolving : Resolving
  pub deltas : List ResolutionDelta

-- `insert` where the event was accepted and may decide.
abbrev pub update :
    StateResVersion → List Key → Bool → String → String → String → SharedState → SharedState
update version conflicted_keys passes t sk id resolved =
    if passes
    then (if decides_key version conflicted_keys t sk then insert (t, sk) id resolved else resolved)
    else resolved

abbrev pub report : LeanEvent → String → Bool → ResolvePhase → SharedState → ResolutionDelta
report event sk passes phase resolved = record {
  event_id = event.event_id;
  accepted = passes;
  key = (event.event_type, sk);
  replaced = get event.event_type sk resolved;
  phase = phase;
}

-- A state event that the check of its auth has judged.
abbrev pub tracked :
    IterativeInputs
    → List Key
    → ResolvePhase
    → Bool
    → LeanEvent
    → String
    → Tracking
    → Bool × Cache
    → Tracking
tracked inputs conflicted_keys phase reports event sk s (passes, cache') = record {
  resolving = record {
    resolved =
        update inputs.version conflicted_keys passes event.event_type sk event.event_id
          s.resolving.resolved;
    local_auth_cache = cache';
  };
  deltas =
      if reports
      then s.deltas ++ report event sk passes phase s.resolving.resolved ∷ []
      else s.deltas;
}

-- One event of the power phase; one that is not of the conflicted events is not reported.
unfoldable pub track_power_event :
    ℕ → IterativeInputs → List Key → Option LeanEvent → LeanEvent → Tracking → Option Tracking
track_power_event fuel inputs conflicted_keys create_ev event s = elim event.state_key [
  | none ↦ some s
  | some sk ↦
      and_then
        (event_auth_ok fuel inputs create_ev event s.resolving.resolved s.resolving.local_auth_cache
          true)
        (λ verdict. some (
          tracked inputs conflicted_keys in_power
            (contains (keys inputs.conflicted_events) event.event_id) event sk s verdict))
]

-- One event of the other phase, with the screening of banned senders.
unfoldable pub track_event :
    ℕ → IterativeInputs → List Key → Option LeanEvent → LeanEvent → Tracking → Option Tracking
track_event fuel inputs conflicted_keys create_ev event s = elim event.state_key [
  | none ↦ some s
  | some sk ↦
      elim (has_ban_evasion_hardening inputs.version
        && is_sender_banned event s.resolving.resolved inputs.unconflicted_state
            (sort_context inputs)) [
              | true ↦ some (record s {
                deltas = s.deltas ++ report event sk false in_non_power s.resolving.resolved ∷ [];
              })
              | false ↦
                  and_then
                    (event_auth_ok fuel inputs create_ev event s.resolving.resolved
                      s.resolving.local_auth_cache false)
                    (λ verdict.
                      some (tracked inputs conflicted_keys in_non_power true event sk s verdict))
            ]
]

-- A loop over events.
unfoldable pub track_all :
    (LeanEvent → Tracking → Option Tracking) → List LeanEvent → Tracking → Option Tracking
track_all body [] s = some s
track_all body (event ∷ rest) s = and_then (body event s) (λ s'. track_all body rest s')

-- The values of `non_power_events`, none screened before the sort.
abbrev pub values : EventMap → List LeanEvent
values [] = []
values ((id, ev) ∷ rest) = ev ∷ values rest

abbrev pub merge_tracking : IterativeInputs → Tracking → Tracking
merge_tracking inputs s = record s { resolving = merge_power inputs s.resolving }

-- `ResolvedWithDeltas`, and the cache that a caller keeps.
pub record ResolvedWithDeltas : Type 0 where
  pub state : SharedState
  pub deltas : List ResolutionDelta
  pub local_auth_cache : Cache

unfoldable pub track_non_power :
    ℕ
    → IterativeInputs
    → List Key
    → Option LeanEvent
    → List LeanEvent
    → Tracking
    → Option ResolvedWithDeltas
track_non_power fuel inputs conflicted_keys create_ev non_power_list s =
    and_then
      (build_mainline_with_cache fuel (get m_room_power_levels "" s.resolving.resolved)
        (sort_context inputs) [] inputs.version)
      (λ built.
        and_then (mainline_sort fuel non_power_list built.0 (sort_context inputs) inputs.version)
          (λ events.
            and_then (track_all (track_event fuel inputs conflicted_keys create_ev) events s) (λ s'.
              some (record {
                state = merge_final_resolved inputs.unconflicted_state s'.resolving.resolved;
                deltas = s'.deltas;
                local_auth_cache = s'.resolving.local_auth_cache;
              }))))

unfoldable pub track_phases :
    ℕ
    → IterativeInputs
    → Option LocalAuthCache
    → List Key
    → Option LeanEvent
    → Option ResolvedWithDeltas
track_phases fuel inputs external_auth_cache conflicted_keys create_ev =
    and_then
      (execute_power_phase fuel inputs.conflicted_events inputs.auth_context
        (keys inputs.conflicted_events) inputs.version)
      (λ split.
        and_then (sort split.power (sort_context inputs) create_ev inputs.version)
          (λ sorted_power_ids.
            and_then
              (track_all (track_power_event fuel inputs conflicted_keys create_ev)
                (events_by (sort_context inputs) sorted_power_ids)
                (record {
                  resolving = record {
                    resolved = get_initial_resolved_state inputs.unconflicted_state inputs.version;
                    local_auth_cache =
                        (select_local_auth_cache external_auth_cache inputs.version).map;
                  };
                  deltas = [];
                }))
              (λ s.
                track_non_power fuel inputs conflicted_keys create_ev (values split.non_power)
                  (merge_tracking inputs s))))

unfoldable pub resolve_iterative_sort_with_cache_and_deltas :
    ℕ → IterativeInputs → Option LocalAuthCache → Option (List Key) → Option ResolvedWithDeltas
resolve_iterative_sort_with_cache_and_deltas fuel inputs external_auth_cache
      conflicted_keys_override =
    elim (is_v3 inputs.version) [
      | true ↦ none
      | false ↦
          track_phases fuel inputs external_auth_cache
            (unwrap_or conflicted_keys_override
              (derive_all_conflicted_keys inputs.conflicted_events))
            (find_create inputs.unconflicted_state inputs.conflicted_events inputs.auth_context)
    ]

unfoldable pub resolve_iterative_sort_with_deltas : ℕ → IterativeInputs → Option ResolvedWithDeltas
resolve_iterative_sort_with_deltas fuel inputs =
    resolve_iterative_sort_with_cache_and_deltas fuel inputs none none
