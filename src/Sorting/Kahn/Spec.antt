-- ===== src/Sorting/Kahn/Spec.antt =====
-- What the sort returns (src/resolve/sorting.rs, `with_cycle_diagnostics`).
use rezzy.Prelude.{
  suc, ◌<◌, ◌≡◌, refl, String, Bool, true, false, Option, some, List, [], ◌∷◌, ◌++◌, arith, eq_iff,
  eqb, if◌then◌else◌, length, count, count-append, contains, contains-count, lookup, Distinct, keys,
}
use rezzy.Basespec.Version.{StateResVersion}
use rezzy.Basespec.Event.{LeanEvent, EventProvider}
use rezzy.Sorting.Kahn.{
  Events, has, KahnSortResult, sorted_all, cycle_detected, stuck_ids, classify, fill_pl_cache,
  with_cycle_diagnostics,
}
use rezzy.Sorting.Kahn.Degrees.{deps}
use rezzy.Sorting.Kahn.Invariant.{IsKeyed, open_count}
use rezzy.Sorting.Kahn.Drain.{remaining}
use rezzy.Sorting.Kahn.Order.{IsOrdered, Final, drain-Final}
use rezzy.Sorting.Kahn.Start.{remaining-nil, graph, start, graph-linked, start-Round}

-- Both lists hold the same ids, each equally often.
abbrev pub SameIds : List String → List String → Type 0
SameIds xs ys = (k : String) → count k xs ≡ count k ys

-- Each of these ids names an event that cites an event outside of `sorted`.
abbrev pub AreBlocked : Events → StateResVersion → List String → List String → Type 0
AreBlocked events version sorted stuck =
    (k : String) (e : LeanEvent)
    → lookup k events ≡ some e
    → contains stuck k ≡ true
    → 0 < open_count sorted (deps events version e)

-- What a result promises of the events.
abbrev pub IsSort : Events → StateResVersion → KahnSortResult → Type 0
IsSort events version (sorted_all sorted) =
    SameIds sorted (keys events) × IsOrdered events version [] sorted
IsSort events version (cycle_detected sorted stuck) =
    SameIds (sorted ++ stuck) (keys events)
    × IsOrdered events version [] sorted
    × (0 < length stuck)
    × AreBlocked events version sorted stuck

pub count-keys :
    (k : String) (events : Events)
    → Distinct events
    → count k (keys events) ≡ (if has events k then 1 else 0)
unfolding lookup
count-keys k [] d = refl
count-keys k ((id, e) ∷ rest) d = ground (arith, eq_iff id k, count-keys k rest d.1)

stuck_ids-count :
    (k : String) (result : List String) (events : Events)
    → Distinct events
    → count k (stuck_ids result events)
      ≡ (if has events k then (if contains result k then 0 else 1) else 0)
unfolding stuck_ids lookup
stuck_ids-count k result [] d = refl
stuck_ids-count k result ((id, e) ∷ rest) d =
    ground (arith, eq_iff id k, stuck_ids-count k result rest d.1)

stuck_ids-length :
    (result : List String) (events : Events)
    → length (stuck_ids result events) ≡ remaining result events
unfolding stuck_ids
stuck_ids-length result [] = refl
stuck_ids-length result ((id, e) ∷ rest) = ground (arith, stuck_ids-length result rest)

remaining-zero :
    (result : List String) (events : Events) (k : String)
    → remaining result events ≡ 0
    → has events k ≡ true
    → contains result k ≡ true
unfolding lookup
remaining-zero result [] k h here = ground arith
remaining-zero result ((id, e) ∷ rest) k h here =
    ground (arith, eq_iff id k, remaining-zero result rest k)

module _ (events : Events) (distinct : Distinct events) (version : StateResVersion) where
  complete-SameIds :
      (result : List String)
      → Final events version result
      → length result ≡ length events
      → SameIds result (keys events)
  complete-SameIds result final all k =
      let empty : remaining result events ≡ 0 = omega (arith, final.size, all) in
      let inside = remaining-zero result events k empty in
      ground (
        arith,
        count-keys k events distinct,
        contains-count k result,
        final.once k,
        final.listed k,
        inside,
      )

  partial-SameIds :
      (result : List String)
      → Final events version result
      → SameIds (result ++ stuck_ids result events) (keys events)
  partial-SameIds result final k = ground (
    arith,
    count-keys k events distinct,
    contains-count k result,
    final.once k,
    final.listed k,
    stuck_ids-count k result events distinct,
    count-append k result (stuck_ids result events),
  )

  stuck-AreBlocked :
      (result : List String)
      → Final events version result
      → AreBlocked events version result (stuck_ids result events)
  stuck-AreBlocked result final k e here stuck = final.blocked k e here (
      ground (
        arith,
        contains-count k (stuck_ids result events),
        stuck_ids-count k result events distinct,
      ))

  pub classify-IsSort :
      (result : List String)
      → Final events version result
      → IsSort events version (classify events result)
  unfolding classify
  classify-IsSort result final = go (eqb (length result) (length events)) refl
    where
      go :
          (b : Bool)
          → eqb (length result) (length events) ≡ b
          → IsSort events version
              (if b then sorted_all result else cycle_detected result (stuck_ids result events))
      go true h = (complete-SameIds result final (ground (arith, h)), final.ordered)
      go false h = (
        partial-SameIds result final,
        final.ordered,
        ground (arith, h, final.size, stuck_ids-length result events),
        stuck-AreBlocked result final,
      )

module _ (events : Events) (context : EventProvider) (create_ev : Option LeanEvent)
    (version : StateResVersion) where
  -- For events under their own ids, each id once, the sort returns, without a panic and within its
  -- fuel. A sorted result holds each id once, each event behind all that it cites. On a cycle the
  -- sorted and the stuck ids together are the ids, each once, the sorted ones stand in that order, and there are
  -- stuck ones, each of which cites an event that is not sorted.
  pub with_cycle_diagnostics-IsSort :
      IsKeyed events
      → Distinct events
      → (r : KahnSortResult) × (with_cycle_diagnostics events context create_ev version ≡ some r)
        × IsSort events version r
  unfolding with_cycle_diagnostics
  with_cycle_diagnostics-IsSort keyed distinct =
      let cache = fill_pl_cache context create_ev version events [] in
      let (result, drains, final) =
        drain-Final events keyed distinct cache version
          (graph events keyed distinct cache version).adjacency
          (graph-linked events keyed distinct cache version) (suc (length events))
          (start events keyed distinct cache version) [] (omega (arith, remaining-nil events))
          (start-Round events keyed distinct cache version) in
      (
        classify events result,
        ground (arith, drains),
        classify-IsSort events distinct version result final,
      )
