-- ===== src/Resolve/Iterative/Total.antt =====
-- The iterative resolution returns, and what it returns (src/resolve/iterative.rs).
use rezzy.Prelude.{ℕ, ◌<◌, Option}
use rezzy.Basespec.Event.{LeanEvent}
use rezzy.Sorting.Kahn.Invariant.{IsKeyed}
use rezzy.Resolve.State.{SharedState}
use rezzy.Resolve.LocalAuth.Context.{CacheOf}
use rezzy.Resolve.Iterative.{merge_unconflicted_power_events, IterativeInputs, Resolving}
use rezzy.Resolve.Iterative.Resolver.{ResolveCaches}
use rezzy.Resolve.Iterative.Returns.{fuel_bound}
use rezzy.Resolve.Iterative.Inputs.{IsInput}

-- The state between the phases.
abbrev merged : IterativeInputs → SharedState → SharedState
merged inputs resolved =
    merge_unconflicted_power_events inputs.version inputs.unconflicted_state resolved

module _ (fuel : ℕ) (inputs : IterativeInputs) (caches : ResolveCaches)
    (create_ev : Option LeanEvent) (keyed : IsKeyed inputs.conflicted_events)
    (auth_keyed : IsKeyed inputs.auth_context) (enough : fuel_bound inputs < fuel) where
  abbrev IsCached : Resolving → Type 0
  IsCached s = CacheOf (IsInput inputs) s.local_auth_cache
