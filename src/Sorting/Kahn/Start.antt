-- ===== src/Sorting/Kahn/Start.antt =====
-- The state before the first round.
use rezzy.Prelude.{
  ℕ, suc, ◌≡◌, refl, String, true, false, Option, none, some, List, [], ◌∷◌, ℤ, arith, eq_iff,
  is_some, length, count, lookup, Distinct, the_some, ap, ◌∙◌,
}
use rezzy.Basespec.Version.{StateResVersion}
use rezzy.Basespec.Event.{LeanEvent}
use rezzy.Sorting.Kahn.{Events, has, Graph, Loop, neighbors, prioritise, initial_queue, build_graph}
use rezzy.Sorting.Kahn.Degrees.{
  deps, citations, added_degree, build_graph-degree, build_graph-neighbors, build_graph-Distinct,
}
use rezzy.Sorting.Kahn.Invariant.{IsKeyed, open_count, queue_count, ready_count, expected}
use rezzy.Sorting.Kahn.Drain.{remaining}
use rezzy.Sorting.Kahn.Order.{Round}

open_count-nil : (ds : List String) → open_count [] ds ≡ length ds
open_count-nil [] = refl
open_count-nil (d ∷ ds) = ap suc (open_count-nil ds)

pub remaining-nil : (events : Events) → remaining [] events ≡ length events
remaining-nil [] = refl
remaining-nil ((id, e) ∷ rest) = ap suc (remaining-nil rest)

module _ (events : Events) (keyed : IsKeyed events) (cache : List (String × ℤ))
    (version : StateResVersion) where
  initial_queue-count :
      (degrees : List (String × ℕ)) (k : String)
      → Distinct degrees
      → ((j : String) → is_some (lookup j degrees) ≡ true → has events j ≡ true)
      → queue_count k (initial_queue events cache version degrees)
        ≡ ready_count (lookup k degrees) false
  unfolding initial_queue prioritise lookup
  initial_queue-count [] k d inside = refl
  initial_queue-count ((id, degree) ∷ rest) k d inside =
      let (e, listed) = the_some (lookup id events) (inside id (ground (arith, eq_iff id id))) in
      let later = initial_queue-count rest k d.1 (λ j h. inside j (ground (arith, eq_iff id j))) in
      ground (arith, eq_iff id k, eq_iff e.event_id k, keyed id e listed, later)

module _ (events : Events) (keyed : IsKeyed events) (distinct : Distinct events)
    (cache : List (String × ℤ)) (version : StateResVersion) where
  abbrev pub graph : Graph
  graph = build_graph events version events (record { in_degree = []; adjacency = [] })

  abbrev pub start : Loop
  start = record {
    in_degree = graph.in_degree;
    queue = initial_queue events cache version graph.in_degree;
  }

  graph-degree :
      (k : String) → lookup k graph.in_degree ≡ added_degree events version (lookup k events) none
  unfolding lookup
  graph-degree k =
      build_graph-degree events version events (record { in_degree = []; adjacency = [] }) k
        distinct

  pub graph-linked :
      (k x : String)
      → count k (neighbors graph.adjacency x) ≡ citations events version (lookup k events) x
  unfolding lookup
  graph-linked k x = omega (
    arith,
    build_graph-neighbors events version events (record { in_degree = []; adjacency = [] }) k x
        distinct,
  )

  start_expected :
      (o : Option LeanEvent) → added_degree events version o none ≡ expected events version [] 0 o
  start_expected none = refl
  start_expected (some e) = ground (arith, open_count-nil (deps events version e))

  pub start-Round : Round events keyed distinct cache version graph.adjacency graph-linked start []
  start-Round = record {
    inv = record {
      degree = λ k. graph-degree k ∙ start_expected (lookup k events);
      ready = λ k.
          initial_queue-count events keyed cache version graph.in_degree k
            (build_graph-Distinct events version events _ tt)
            (λ j h. ground (arith, graph-degree j));
      finished = λ k h. ground arith;
      once = λ k. omega arith;
      inside = λ k h. refl;
    };
    listed = λ k h. ground arith;
    ordered = tt;
    size = omega (arith, remaining-nil events);
  }
