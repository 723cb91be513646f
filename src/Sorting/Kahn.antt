-- ===== src/Sorting/Kahn.antt =====
-- Kahn's topological sort (src/resolve/sorting.rs). `BinaryHeap` is a list from which `pop` takes
-- a greatest element; a `HashMap` that the caller gives is a list of entries in any order.
pub mod Degrees
pub mod Invariant
pub mod Drain
pub mod Order
pub mod Start
pub mod Spec
pub mod Acyclic
use Prim.Native.Nat.{Ordering}
use rezzy.Prelude.{
  ℕ, zero, suc, ◌-◌, String, Bool, Option, none, some, List, [], ◌∷◌, ◌++◌, ℤ, pos, eqb, length,
  is_some, if◌then◌else◌, unwrap_or, contains, lookup, put,
}
use rezzy.Basespec.Version.{StateResVersion}
use rezzy.Basespec.Event.{LeanEvent, EventProvider, dag_edges}
use rezzy.Sorting.Priority.{SortPriority, cmp, get_power_level_from_auth_chain}

abbrev pub Events : Type 0
Events = List (String × LeanEvent)

abbrev pub has : Events → String → Bool
has events id = is_some (lookup id events)

-- The maps `in_degree` and `adjacency`.
pub record Graph : Type 0 where
  pub in_degree : List (String × ℕ)
  pub adjacency : List (String × List String)

abbrev pub neighbors : List (String × List String) → String → List String
neighbors adjacency id = unwrap_or (lookup id adjacency) []

-- An edge from an event to one that cites it. A degree counts entries of vectors in memory, so its
-- saturation at `usize::MAX` is not reached.
unfoldable pub add_edge : String → String → Graph → Graph
add_edge id auth g = record {
  in_degree = put id (suc (unwrap_or (lookup id g.in_degree) 0)) g.in_degree;
  adjacency = put auth (neighbors g.adjacency auth ++ id ∷ []) g.adjacency;
}

unfoldable pub add_edges : Events → String → List String → Graph → Graph
add_edges events id [] g = g
add_edges events id (auth ∷ rest) g =
    add_edges events id rest (if has events auth then add_edge id auth g else g)

-- `in_degree.entry(id).or_insert(0)`
unfoldable pub touch : String → Graph → Graph
touch id g = record g { in_degree = put id (unwrap_or (lookup id g.in_degree) 0) g.in_degree }

unfoldable pub build_graph : Events → StateResVersion → Events → Graph → Graph
build_graph events version [] g = g
build_graph events version ((id, event) ∷ rest) g =
    build_graph events version rest (add_edges events id (dag_edges event version) (touch id g))

-- The level of each event, computed once.
unfoldable pub fill_pl_cache :
    EventProvider
    → Option LeanEvent
    → StateResVersion
    → Events
    → List (String × ℤ)
    → List (String × ℤ)
fill_pl_cache context create_ev version [] cache = cache
fill_pl_cache context create_ev version ((id, ev) ∷ rest) cache =
    fill_pl_cache context create_ev version rest (
      if is_some (lookup id cache)
      then cache
      else put id (get_power_level_from_auth_chain ev context create_ev version) cache)

unfoldable pub prioritise : List (String × ℤ) → StateResVersion → String → LeanEvent → SortPriority
prioritise cache version id event = record {
  event = event;
  power_level = unwrap_or (lookup id cache) (pos 0);
  version = version;
}

-- The queue at the start: the events of degree zero.
unfoldable pub initial_queue :
    Events → List (String × ℤ) → StateResVersion → List (String × ℕ) → List SortPriority
initial_queue events cache version [] = []
initial_queue events cache version ((id, degree) ∷ rest) =
    let later = initial_queue events cache version rest in
    if eqb degree 0
    then (elim (lookup id events) [
      | none ↦ later
      | some event ↦ prioritise cache version id event ∷ later
    ])
    else later

-- `BinaryHeap::pop`: a greatest element, and the others.
unfoldable pub pop : List SortPriority → Option (SortPriority × List SortPriority)
pop [] = none
pop (p ∷ queue) = elim (pop queue) [
  | none ↦ some (p, [])
  | some (top, rest) ↦ elim (cmp p top) [ Ordering.lt ↦ some (top, p ∷ rest) | _ ↦ some (p, queue) ]
]

-- What the loop changes.
pub record Loop : Type 0 where
  pub in_degree : List (String × ℕ)
  pub queue : List SortPriority

-- One neighbour: its degree falls, and at zero it is pushed. `none` is a panic of an `unwrap`.
unfoldable pub relax_one :
    Events → List (String × ℤ) → StateResVersion → String → Loop → Option Loop
relax_one events cache version next s = elim (lookup next s.in_degree) [
  | none ↦ none
  | some degree ↦
      if eqb (degree - 1) 0
      then (elim (lookup next events) [
        | none ↦ none
        | some event ↦ some (record {
          in_degree = put next (degree - 1) s.in_degree;
          queue = prioritise cache version next event ∷ s.queue;
        })
      ])
      else some (record s { in_degree = put next (degree - 1) s.in_degree })
]

unfoldable pub relax :
    Events → List (String × ℤ) → StateResVersion → List String → Loop → Option Loop
relax events cache version [] s = some s
relax events cache version (next ∷ rest) s = elim (relax_one events cache version next s) [
  | none ↦ none
  | some s' ↦ relax events cache version rest s'
]

-- The loop over the queue, with fuel; `none` also stands for fuel that ran out.
unfoldable pub drain :
    Events
    → List (String × ℤ)
    → StateResVersion
    → List (String × List String)
    → ℕ
    → Loop
    → List String
    → Option (List String)
drain events cache version adjacency zero s result = none
drain events cache version adjacency (suc fuel) s result = elim (pop s.queue) [
  | none ↦ some result
  | some (top, rest) ↦
      let id = top.event.event_id in
      elim (relax events cache version (neighbors adjacency id) (record s { queue = rest })) [
        | none ↦ none
        | some s' ↦ drain events cache version adjacency fuel s' (result ++ id ∷ [])
      ]
]

pub data KahnSortResult : Type 0 where
  sorted_all : List String → KahnSortResult
  cycle_detected : List String → List String → KahnSortResult

-- The keys that the sort did not reach.
unfoldable pub stuck_ids : List String → Events → List String
stuck_ids result [] = []
stuck_ids result ((id, event) ∷ rest) =
    if contains result id then stuck_ids result rest else id ∷ stuck_ids result rest

unfoldable pub classify : Events → List String → KahnSortResult
classify events result =
    if eqb (length result) (length events)
    then sorted_all result
    else cycle_detected result (stuck_ids result events)

-- `KahnSortInputs::with_cycle_diagnostics`; one more unit of fuel than there are events is enough.
unfoldable pub with_cycle_diagnostics :
    Events → EventProvider → Option LeanEvent → StateResVersion → Option KahnSortResult
unfolding classify
with_cycle_diagnostics events context create_ev version =
    let graph = build_graph events version events (record { in_degree = []; adjacency = [] }) in
    let cache = fill_pl_cache context create_ev version events [] in
    let start : Loop = record {
      in_degree = graph.in_degree;
      queue = initial_queue events cache version graph.in_degree;
    } in
    elim (drain events cache version graph.adjacency (suc (length events)) start []) [
      | none ↦ none
      | some result ↦ some (classify events result)
    ]
