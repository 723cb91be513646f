-- ===== src/Sorting/Greedy/Determinism.antt =====
-- The result of the sort does not depend on the order in which its maps are iterated
-- (src/resolve/sorting.rs, `with_cycle_diagnostics`).
use rezzy.Prelude.{
  suc, ◌≡◌, refl, sym, ◌∙◌, subst, String, Option, some, List, [], ◌++◌, arith, unwrap_or, length,
  count, count-append, pos, lookup, Distinct, keys,
}
use rezzy.Basespec.Version.{StateResVersion}
use rezzy.Basespec.Event.{LeanEvent, EventProvider}
use rezzy.Sorting.Kahn.{
  Events, KahnSortResult, sorted_all, cycle_detected, classify, prioritise, fill_pl_cache,
  with_cycle_diagnostics,
}
use rezzy.Sorting.Kahn.Invariant.{IsKeyed}
use rezzy.Sorting.Kahn.Order.{drain-Final}
use rezzy.Sorting.Kahn.Start.{remaining-nil, graph, start, graph-linked, start-Round}
use rezzy.Sorting.Kahn.Spec.{SameIds, IsSort, count-keys, classify-IsSort}
use rezzy.Sorting.Greedy.{priority, IsGreedy, IsGreedy-unique}
use rezzy.Sorting.Greedy.Queue.{fill_pl_cache-lookup, initial_queue-IsRated}
use rezzy.Sorting.Greedy.Run.{drain-IsGreedy}

-- The sorted ids, and those of a cycle.
abbrev pub sorted_part : KahnSortResult → List String
sorted_part (sorted_all sorted) = sorted
sorted_part (cycle_detected sorted stuck) = sorted

abbrev pub stuck_part : KahnSortResult → List String
stuck_part (sorted_all sorted) = []
stuck_part (cycle_detected sorted stuck) = stuck

classify-sorted_part :
    (events : Events) (result : List String) → sorted_part (classify events result) ≡ result
unfolding classify
classify-sorted_part events result = ground arith

module _ (context : EventProvider) (create_ev : Option LeanEvent) (version : StateResVersion) where
  cache_rated :
      (events : Events) (k : String) (e : LeanEvent)
      → Distinct events
      → lookup k events ≡ some e
      → prioritise (fill_pl_cache context create_ev version events []) version k e
        ≡ priority context create_ev version e
  unfolding prioritise lookup
  cache_rated events k e distinct here =
      let level = fill_pl_cache-lookup context create_ev version events [] k e distinct here refl in
      λ i. record { event = e; power_level = unwrap_or (level i) (pos 0); version = version }

  -- For events under their own ids, each id once, the sort returns, without a panic and within its
  -- fuel. A result without a cycle holds each id once; one with a cycle holds each id once in its
  -- two parts, and names some stuck ids, each of which cites an event that is not sorted. The sorted
  -- ids are those of the greedy order: each is an event whose cited events among the events are
  -- sorted before it, and none of such events has a greater priority; behind the last there is none.
  pub with_cycle_diagnostics-IsGreedy :
      (events : Events)
      → IsKeyed events
      → Distinct events
      → (r : KahnSortResult) × (with_cycle_diagnostics events context create_ev version ≡ some r)
        × IsSort events version r
        × IsGreedy context create_ev version (λ k. lookup k events) [] (sorted_part r)
  unfolding with_cycle_diagnostics
  with_cycle_diagnostics-IsGreedy events keyed distinct =
      let cache = fill_pl_cache context create_ev version events [] in
      let rated : (k : String) (e : LeanEvent)
          → lookup k events ≡ some e
          → prioritise cache version k e ≡ priority context create_ev version e =
        λ k e h. cache_rated events k e distinct h in
      let linked = graph-linked events keyed distinct cache version in
      let adjacency = (graph events keyed distinct cache version).adjacency in
      let first = start events keyed distinct cache version in
      let round = start-Round events keyed distinct cache version in
      let (result, drains, final) =
        drain-Final events keyed distinct cache version adjacency linked (suc (length events)) first
          [] (omega (arith, remaining-nil events)) round in
      let (tail, split, greedy) =
        drain-IsGreedy events keyed distinct context create_ev version cache rated adjacency linked
          (suc (length events)) first [] result round
          (initial_queue-IsRated events keyed cache version (priority context create_ev version)
            rated first.in_degree)
          drains in
      (
        classify events result,
        ground (arith, drains),
        classify-IsSort events distinct version result final,
        subst (IsGreedy context create_ev version (λ k. lookup k events) [])
            (sym (classify-sorted_part events result ∙ split)) greedy,
      )

  parts-SameIds :
      (events : Events) (r : KahnSortResult)
      → IsSort events version r
      → SameIds (sorted_part r ++ stuck_part r) (keys events)
  parts-SameIds events (sorted_all sorted) spec k =
      omega (arith, count-append k sorted [], spec.0 k)
  parts-SameIds events (cycle_detected sorted stuck) spec k = spec.0 k

  -- Two maps with the same entries, whatever the order in which each is iterated, each id once and
  -- under the events' own ids: the sort returns on both, with the same sorted ids in the same order,
  -- and with the same stuck ids in some order.
  pub with_cycle_diagnostics-same :
      (events events' : Events)
      → IsKeyed events
      → Distinct events
      → Distinct events'
      → ((k : String) → lookup k events ≡ lookup k events')
      → (r : KahnSortResult) × (r' : KahnSortResult) × (with_cycle_diagnostics events context
            create_ev version
          ≡ some r)
        × (with_cycle_diagnostics events' context create_ev version ≡ some r')
        × (sorted_part r ≡ sorted_part r')
        × SameIds (stuck_part r) (stuck_part r')
  with_cycle_diagnostics-same events events' keyed distinct distinct' same =
      let keyed' : IsKeyed events' = λ k e h. keyed k e (same k ∙ h) in
      let (r, returns, spec, greedy) = with_cycle_diagnostics-IsGreedy events keyed distinct in
      let (r', returns', spec', greedy') =
        with_cycle_diagnostics-IsGreedy events' keyed' distinct' in
      let sorted : sorted_part r ≡ sorted_part r' =
        IsGreedy-unique context create_ev version (λ k. lookup k events) keyed [] (sorted_part r)
          (sorted_part r') greedy
          (subst (λ find. IsGreedy context create_ev version find [] (sorted_part r'))
            (λ i k. sym (same k) i) greedy') in
      (
        r,
        r',
        returns,
        returns',
        sorted,
        λ k.
            let moved : count k (sorted_part r) ≡ count k (sorted_part r') =
              λ i. count k (sorted i) in
            let listed : count k (keys events) ≡ count k (keys events') =
              ground
                (arith, same k, count-keys k events distinct, count-keys k events' distinct') in
            omega (
              arith,
              parts-SameIds events r spec k,
              parts-SameIds events' r' spec' k,
              moved,
              listed,
              count-append k (sorted_part r) (stuck_part r),
              count-append k (sorted_part r') (stuck_part r'),
            ),
      )
