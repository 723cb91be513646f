-- ===== src/Sorting/Kahn/Degrees.antt =====
-- What `build_graph` builds: the degree of an event counts the citations that are among the events,
-- and an event stands among the neighbors of another as often as it cites it.
use rezzy.Prelude.{
  ℕ, suc, ◌+◌, ◌≡◌, refl, String, Option, none, some, List, [], ◌∷◌, arith, ◌==◌, eq_iff,
  if◌then◌else◌, unwrap_or, length, count, count-append, lookup, put, lookup-put, put-Distinct,
  Distinct, Bool-cases, inl, inr,
}
use rezzy.Basespec.Version.{StateResVersion}
use rezzy.Basespec.Event.{LeanEvent, dag_edges}
use rezzy.Sorting.Kahn.{Events, has, Graph, neighbors, add_edge, add_edges, touch, build_graph}

-- The citations that are among the events.
abbrev pub in_graph : Events → List String → List String
in_graph events [] = []
in_graph events (a ∷ rest) = if has events a then a ∷ in_graph events rest else in_graph events rest

-- The citations of the event of an id.
abbrev pub deps : Events → StateResVersion → LeanEvent → List String
deps events version event = in_graph events (dag_edges event version)

neighbors-put :
    (adjacency : List (String × List String)) (a x : String) (v : List String)
    → neighbors (put a v adjacency) x ≡ (if a == x then v else neighbors adjacency x)
neighbors-put adjacency a x v = ground (arith, lookup-put a x v adjacency)

add_edge-degree :
    (id auth : String) (g : Graph) (k : String)
    → lookup k (add_edge id auth g).in_degree
      ≡ (if id == k then some (suc (unwrap_or (lookup id g.in_degree) 0)) else lookup k g.in_degree)
unfolding add_edge
add_edge-degree id auth g k = lookup-put id k _ g.in_degree

add_edge-neighbors :
    (id auth : String) (g : Graph) (k x : String)
    → count k (neighbors (add_edge id auth g).adjacency x)
      ≡ count k (neighbors g.adjacency x) + (if auth == x then (if id == k then 1 else 0) else 0)
unfolding add_edge
add_edge-neighbors id auth g k x =
    rw neighbors-put
      (ground (arith, eq_iff auth x, count-append k (neighbors g.adjacency auth) (id ∷ [])))

add_edges-degree :
    (events : Events) (id : String) (auths : List String) (g : Graph) (d : ℕ) (k : String)
    → lookup id g.in_degree ≡ some d
    → lookup k (add_edges events id auths g).in_degree
      ≡ (if id == k then some (d + length (in_graph events auths)) else lookup k g.in_degree)
unfolding add_edges
add_edges-degree events id [] g d k here = ground (arith, eq_iff id k)
add_edges-degree events id (a ∷ rest) g d k here = elim (Bool-cases (has events a)) [
  | inl listed ↦ rw listed (
      ground (
        arith,
        eq_iff id k,
        eq_iff id id,
        add_edge-degree id a g k,
        add_edge-degree id a g id,
        add_edges-degree events id rest (add_edge id a g) (suc d) k,
      ))
  | inr absent ↦ ground (arith, add_edges-degree events id rest g d k)
]

add_edges-neighbors :
    (events : Events) (id : String) (auths : List String) (g : Graph) (k x : String)
    → count k (neighbors (add_edges events id auths g).adjacency x)
      ≡ count k (neighbors g.adjacency x) + (if id == k then count x (in_graph events auths) else 0)
unfolding add_edges
add_edges-neighbors events id [] g k x = ground arith
add_edges-neighbors events id (a ∷ rest) g k x = elim (Bool-cases (has events a)) [
  | inl listed ↦ rw listed (
      ground (
        arith,
        add_edge-neighbors id a g k x,
        add_edges-neighbors events id rest (add_edge id a g) k x,
      ))
  | inr absent ↦ ground (arith, add_edges-neighbors events id rest g k x)
]

touch-degree :
    (id : String) (g : Graph) (k : String)
    → lookup k (touch id g).in_degree
      ≡ (if id == k then some (unwrap_or (lookup id g.in_degree) 0) else lookup k g.in_degree)
unfolding touch
touch-degree id g k = lookup-put id k _ g.in_degree

-- The degree that the entry of `k` adds, and how often it cites `x`.
abbrev pub added_degree : Events → StateResVersion → Option LeanEvent → Option ℕ → Option ℕ
added_degree events version none d = d
added_degree events version (some e) d = some (unwrap_or d 0 + length (deps events version e))

abbrev pub citations : Events → StateResVersion → Option LeanEvent → String → ℕ
citations events version none x = 0
citations events version (some e) x = count x (deps events version e)

module _ (events : Events) (version : StateResVersion) where
  pub build_graph-degree :
      (todo : Events) (g : Graph) (k : String)
      → Distinct todo
      → lookup k (build_graph events version todo g).in_degree
        ≡ added_degree events version (lookup k todo) (lookup k g.in_degree)
  unfolding build_graph lookup
  build_graph-degree [] g k d = refl
  build_graph-degree ((id, e) ∷ rest) g k d =
      let g' = touch id g in
      let ds = dag_edges e version in
      let u = unwrap_or (lookup id g.in_degree) 0 in
      ground (
        arith,
        eq_iff id k,
        eq_iff id id,
        touch-degree id g k,
        touch-degree id g id,
        add_edges-degree events id ds g' u k,
        build_graph-degree rest (add_edges events id ds g') k,
      )

  pub build_graph-neighbors :
      (todo : Events) (g : Graph) (k x : String)
      → Distinct todo
      → count k (neighbors (build_graph events version todo g).adjacency x)
        ≡ count k (neighbors g.adjacency x) + citations events version (lookup k todo) x
  unfolding build_graph lookup touch
  build_graph-neighbors [] g k x d = omega arith
  build_graph-neighbors ((id, e) ∷ rest) g k x d =
      let g' = touch id g in
      let ds = dag_edges e version in
      ground (
        arith,
        eq_iff id k,
        add_edges-neighbors events id ds g' k x,
        build_graph-neighbors rest (add_edges events id ds g') k x,
      )

add_edges-Distinct :
    (events : Events) (id : String) (auths : List String) (g : Graph)
    → Distinct g.in_degree
    → Distinct (add_edges events id auths g).in_degree
unfolding add_edges add_edge
add_edges-Distinct events id [] g d = d
add_edges-Distinct events id (a ∷ rest) g d = elim (Bool-cases (has events a)) [
  | inl listed ↦ ground (
    arith,
    put-Distinct id (suc (unwrap_or (lookup id g.in_degree) 0)) g.in_degree d,
    add_edges-Distinct events id rest (add_edge id a g),
  )
  | inr absent ↦ ground (arith, add_edges-Distinct events id rest g)
]

pub build_graph-Distinct :
    (events : Events) (version : StateResVersion) (todo : Events) (g : Graph)
    → Distinct g.in_degree
    → Distinct (build_graph events version todo g).in_degree
unfolding build_graph touch
build_graph-Distinct events version [] g d = d
build_graph-Distinct events version ((id, e) ∷ rest) g d =
    build_graph-Distinct events version rest _
      (add_edges-Distinct events id (dag_edges e version) _ (put-Distinct id _ g.in_degree d))
