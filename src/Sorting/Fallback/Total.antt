-- ===== src/Sorting/Fallback/Total.antt =====
-- What `sort` returns (src/resolve/sorting.rs, `KahnSortInputs::sort`).

use rezzy.Prelude.{
  [], ◌∷◌, false, ap, ◌∙◌, contains, lookup, the_some, eq_iff, IsUpTo, compare-IsUpTo, ◌≡◌, refl,
  String, true, Option, some, List, ◌++◌, arith, count-append, contains-count, Distinct, keys,
}
use rezzy.Basespec.Version.{StateResVersion}
use rezzy.Basespec.Event.{LeanEvent, EventProvider}
use rezzy.Sorting.Kahn.{Events, KahnSortResult, sorted_all, cycle_detected, with_cycle_diagnostics}
use rezzy.Sorting.Kahn.Invariant.{IsKeyed}
use rezzy.Sorting.Kahn.Spec.{SameIds, IsSort, count-keys, with_cycle_diagnostics-IsSort}
use rezzy.Sorting.Fallback.{compare_stuck, sort}
use rezzy.Sorting.Fallback.Insertion.{
  is_less, AreListed, is_ascending, sort_stuck-SameIds, sort_stuck-is_ascending,
}

module _ (events : Events) (context : EventProvider) (create_ev : Option LeanEvent)
    (version : StateResVersion) where
  -- What the sort makes of the result of Kahn's sort, with the order of the tail as the sort tests it.
  abbrev pub Compares : KahnSortResult → List String → Type 0
  Compares (sorted_all sorted) result = result ≡ sorted
  Compares (cycle_detected sorted stuck) result =
      (tail : List String) × (result ≡ sorted ++ tail)
      × SameIds tail stuck
      × (is_ascending events tail ≡ true)

  pub sort-Compares :
      IsKeyed events
      → Distinct events
      → (r : KahnSortResult) × (result : List String) × (with_cycle_diagnostics events context
            create_ev version
          ≡ some r)
        × (sort events context create_ev version ≡ some result)
        × SameIds result (keys events)
        × Compares r result
  unfolding sort
  sort-Compares keyed distinct =
      let (r, returns, spec) =
        with_cycle_diagnostics-IsSort events context create_ev version keyed distinct in
      go r returns spec
    where
      go :
          (r : KahnSortResult)
          → with_cycle_diagnostics events context create_ev version ≡ some r
          → IsSort events version r
          → (r : KahnSortResult) × (result : List String) × (with_cycle_diagnostics events context
                create_ev version
              ≡ some r)
            × (sort events context create_ev version ≡ some result)
            × SameIds result (keys events)
            × Compares r result
      go (sorted_all sorted) returns (same, ordered) =
          (sorted_all sorted, sorted, returns, ground (arith, returns), same, refl)
      go (cycle_detected sorted stuck) returns (same, ordered, some_stuck, blocked) =
          let listed : AreListed events stuck = λ k h. ground (
            arith,
            same k,
            count-append k sorted stuck,
            count-keys k events distinct,
            contains-count k stuck,
          ) in
          let (tail, sorts, same') = sort_stuck-SameIds events stuck listed in
          (
            cycle_detected sorted stuck,
            sorted ++ tail,
            returns,
            ground (arith, returns, sorts),
            λ k.
                ground
                  (arith, same k, same' k, count-append k sorted stuck, count-append k sorted tail),
            (tail, refl, same', sort_stuck-is_ascending events stuck tail sorts),
          )

-- Events of two ids, of which the first is earlier, or as early with an id that is not greater.
pub record IsEarlier (events : Events) (a b : String) : Type 0 where
  pub first : LeanEvent
  pub second : LeanEvent
  pub first_of : lookup a events ≡ some first
  pub second_of : lookup b events ≡ some second
  pub up_to : IsUpTo first.origin_server_ts second.origin_server_ts a b

is_less-IsEarlier :
    (events : Events) (a b : String) (first second : LeanEvent)
    → lookup a events ≡ some first
    → lookup b events ≡ some second
    → is_less events b a ≡ false
    → IsEarlier events a b
unfolding compare_stuck
is_less-IsEarlier events a b first second h k above = record {
  first = first;
  second = second;
  first_of = h;
  second_of = k;
  up_to =
      compare-IsUpTo first.origin_server_ts second.origin_server_ts a b
        (ground (arith, h, k, above));
}

-- Each id and the next one.
abbrev pub AreEarlier : Events → List String → Type 0
AreEarlier events [] = Unit
AreEarlier events (a ∷ []) = Unit
AreEarlier events (a ∷ b ∷ rest) = IsEarlier events a b × AreEarlier events (b ∷ rest)

is_ascending-AreEarlier :
    (events : Events) (ids : List String)
    → AreListed events ids
    → is_ascending events ids ≡ true
    → AreEarlier events ids
is_ascending-AreEarlier events [] listed h = tt
is_ascending-AreEarlier events (a ∷ []) listed h = tt
is_ascending-AreEarlier events (a ∷ b ∷ rest) listed h =
    let (first, here) = the_some (lookup a events) (listed a (ground (arith, eq_iff a a))) in
    let (second, there) = the_some (lookup b events) (listed b (ground (arith, eq_iff b b))) in
    (
      is_less-IsEarlier events a b first second here there (ground (arith, h)),
      is_ascending-AreEarlier events (b ∷ rest) (λ k l. listed k (ground (arith, l)))
          (ground (arith, h)),
    )

module _ (events : Events) where
  -- The sorted ids stay where they are. Behind them stand the stuck ids, each earlier than the next.
  abbrev pub Extends : KahnSortResult → List String → Type 0
  Extends (sorted_all sorted) result = result ≡ sorted
  Extends (cycle_detected sorted stuck) result =
      (tail : List String) × (result ≡ sorted ++ tail) × SameIds tail stuck × AreEarlier events tail

  Compares-Extends :
      (context : EventProvider) (create_ev : Option LeanEvent) (version : StateResVersion)
      (r : KahnSortResult) (result : List String)
      → AreListed events result
      → Compares events context create_ev version r result
      → Extends r result
  Compares-Extends context create_ev version (sorted_all sorted) result listed same = same
  Compares-Extends context create_ev version (cycle_detected sorted stuck) result listed
        (tail, joined, same, ordered) =
      (
        tail,
        joined,
        same,
        is_ascending-AreEarlier events tail
            (λ k h. listed k (
              let here : contains (sorted ++ tail) k ≡ true = ground (
                arith,
                h,
                count-append k sorted tail,
                contains-count k tail,
                contains-count k (sorted ++ tail),
              ) in
              ap (λ ids. contains ids k) joined ∙ here))
            ordered,
      )

  -- For events under their own ids, each id once, both sorts return, without a panic. The result
  -- holds each id once: the ids that Kahn's sort has sorted, in their order, and behind them those
  -- of a cycle, each followed by one whose event has a later timestamp, or the same timestamp and an
  -- id that is not smaller.
  pub sort-Extends :
      (context : EventProvider) (create_ev : Option LeanEvent) (version : StateResVersion)
      → IsKeyed events
      → Distinct events
      → (r : KahnSortResult) × (result : List String) × (with_cycle_diagnostics events context
            create_ev version
          ≡ some r)
        × (sort events context create_ev version ≡ some result)
        × SameIds result (keys events)
        × Extends r result
  sort-Extends context create_ev version keyed distinct =
      let (r, result, returns, sorts, same, compares) =
        sort-Compares events context create_ev version keyed distinct in
      (
        r,
        result,
        returns,
        sorts,
        same,
        Compares-Extends context create_ev version r result
            (λ k h.
              ground (arith, h, same k, count-keys k events distinct, contains-count k result))
            compares,
      )
