-- ===== src/Resolve/Iterative/Returns.antt =====
-- The checks of the iterative resolution return (src/resolve/iterative.rs).
use rezzy.Prelude.{
  ℕ, ◌+◌, ◌*◌, ◌<◌, ◌≡◌, refl, String, Bool, true, ◌||◌, Option, none, some, List, [], ◌∷◌, ◌++◌,
  arith, is_some, length, contains, contains-append, lookup, keys, and_then_returns, the_some,
  unpaid,
}
use rezzy.Basespec.Event.{LeanEvent}
use rezzy.Sorting.BuildMainline.Chain.{edges_of}
use rezzy.Resolve.State.{Key, EventMap, get_or_else}
use rezzy.Resolve.LocalAuth.{Cache, citations_by, compute_local_auth-returns}
use rezzy.Resolve.Overlay.{iterative_auth_ok}
use rezzy.Resolve.Power.Routing.{contains-keys}
use rezzy.Resolve.Power.Ancestry.{citations}
use rezzy.Resolve.Iterative.{
  IterativeInputs, Resolving, sort_context, event_auth_ok, checked, check_event, check_events,
}

-- The ids of all events.
abbrev pub all_ids : IterativeInputs → List String
all_ids inputs = keys inputs.conflicted_events ++ keys inputs.auth_context

-- What the loops may push, and the rounds of those over the ids.
unfoldable pub fuel_bound : IterativeInputs → ℕ
fuel_bound inputs =
    2 * length (all_ids inputs)
    + 1
    + unpaid (citations_by (get_or_else inputs.auth_context inputs.conflicted_events)) []
        (all_ids inputs)
    + unpaid (citations inputs.auth_context) [] (keys inputs.auth_context)
    + unpaid (edges_of (sort_context inputs) inputs.version) [] (all_ids inputs)

either_listed :
    (first second : EventMap) (k : String)
    → is_some (get_or_else first second k) ≡ true
    → (is_some (lookup k first) || is_some (lookup k second)) ≡ true
either_listed first second k = go (lookup k first)
  where
    go :
        (o : Option LeanEvent)
        → is_some (elim o [ some ev ↦ some ev | none ↦ lookup k second ]) ≡ true
        → (is_some o || is_some (lookup k second)) ≡ true
    go none h = h
    go (some ev) h = refl

module _ (inputs : IterativeInputs) where
  all_ids-contains :
      (k : String)
      → (is_some (lookup k inputs.conflicted_events) || is_some (lookup k inputs.auth_context))
        ≡ true
      → contains (all_ids inputs) k ≡ true
  all_ids-contains k h = ground (
    arith,
    h,
    contains-append k (keys inputs.conflicted_events) (keys inputs.auth_context),
    contains-keys k inputs.conflicted_events,
    contains-keys k inputs.auth_context,
  )

  pub context-listed :
      (k : String) → is_some (sort_context inputs k) ≡ true → contains (all_ids inputs) k ≡ true
  context-listed k h =
      all_ids-contains k (either_listed inputs.conflicted_events inputs.auth_context k h)

  pub local-listed :
      (k : String)
      → is_some (get_or_else inputs.auth_context inputs.conflicted_events k) ≡ true
      → contains (all_ids inputs) k ≡ true
  local-listed k h =
      all_ids-contains k
        (ground (arith, either_listed inputs.auth_context inputs.conflicted_events k h))

  module _ (fuel : ℕ) (enough : fuel_bound inputs < fuel) (conflicted_keys : List Key)
      (create_ev : Option LeanEvent) where
    check_event-returns :
        (is_power : Bool) (event : LeanEvent) (s : Resolving)
        → (s' : Resolving) × (check_event fuel inputs conflicted_keys create_ev is_power event s
            ≡ some s')
    unfolding fuel_bound check_event event_auth_ok
    check_event-returns is_power event s =
        let (found, computes) = the_some _ (
          compute_local_auth-returns fuel event inputs.auth_context inputs.conflicted_events
            s.local_auth_cache inputs.version (all_ids inputs) local-listed
            (omega (arith, enough))) in
        let verdict : Bool × Cache = (
          iterative_auth_ok event s.resolved inputs.auth_context inputs.conflicted_events found.0
              create_ev inputs.version is_power,
          found.1,
        ) in
        (
          checked inputs conflicted_keys event s verdict,
          and_then_returns _ _ verdict (and_then_returns _ _ found computes refl) refl,
        )

    pub check_events-returns :
        (is_power : Bool) (events : List LeanEvent) (s : Resolving)
        → (s' : Resolving) × (check_events fuel inputs conflicted_keys create_ev is_power events s
            ≡ some s')
    unfolding check_events
    check_events-returns is_power [] s = (s, refl)
    check_events-returns is_power (event ∷ rest) s =
        let (s', one) = check_event-returns is_power event s in
        let (s'', later) = check_events-returns is_power rest s' in
        (s'', and_then_returns _ _ s' one later)
