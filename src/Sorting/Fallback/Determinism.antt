-- ===== src/Sorting/Fallback/Determinism.antt =====
-- The result of `sort` does not depend on the order in which its maps are iterated
-- (src/resolve/sorting.rs, `KahnSortInputs::sort`).
use Prim.Native.Nat.{compare, Ordering}
use Prim.Native.String
use text.Mathlib.Text.{is_lt}
use text.Mathlib.TextEquality.{path_by_compare}
use mathlib.Core.List.{append-nil}
use rezzy.Prelude.{
  ℕ, ◌≡◌, refl, sym, ◌∙◌, ap, subst, String, true, false, Option, none, some, List, [], ◌∷◌, ◌++◌,
  arith, ◌==◌, eq_iff, or_else, flip, compare-flip, text-flip, compare-or_else_trans, text_trans,
  or_else_eq, count, count-append, contains, contains-count, lookup, Distinct, Bool-cases, inl, inr,
}
use rezzy.Basespec.Version.{StateResVersion}
use rezzy.Basespec.Event.{LeanEvent, EventProvider}
use rezzy.Sorting.Kahn.{Events, has, KahnSortResult, sorted_all, cycle_detected}
use rezzy.Sorting.Kahn.Invariant.{IsKeyed}
use rezzy.Sorting.Kahn.Spec.{SameIds, count-keys}
use rezzy.Sorting.Greedy.Determinism.{sorted_part, stuck_part, with_cycle_diagnostics-same}
use rezzy.Sorting.Fallback.{compare_stuck, sort}
use rezzy.Sorting.Fallback.Insertion.{AreListed, is_less, is_ascending}
use rezzy.Sorting.Fallback.Total.{Compares, sort-Compares}

module _ (events : Events) where
  abbrev ts : String → ℕ
  ts id = elim (lookup id events) [ none ↦ 0 | some e ↦ e.origin_server_ts ]

  abbrev order : String → String → Ordering
  order a b = or_else (compare (ts a) (ts b)) (String.compare a b)

  is_less-order :
      (a b : String)
      → has events a ≡ true
      → has events b ≡ true
      → is_less events a b ≡ is_lt (order a b)
  unfolding compare_stuck
  is_less-order a b ha hb = ground arith

  order-flip : (a b : String) → order b a ≡ flip (order a b)
  order-flip a b = ground (arith, compare-flip (ts a) (ts b), text-flip a b)

  order_trans :
      (a b c : String) → order a b ≡ Ordering.lt → order b c ≡ Ordering.lt → order a c ≡ Ordering.lt
  order_trans a b c h k =
      compare-or_else_trans (ts a) (ts b) (ts c) _ _ _ (λ p q. text_trans a b c) h k

  order-eq : (a b : String) → order a b ≡ Ordering.eq → a ≡ b
  order-eq a b h =
      let (stamps, ids) = or_else_eq (compare (ts a) (ts b)) (String.compare a b) h in
      path_by_compare a b ids

  not_less :
      (y z x : String)
      → is_lt (order y z) ≡ false
      → is_lt (order z x) ≡ false
      → is_lt (order y x) ≡ false
  not_less y z x h k =
      let same = order-eq z y in
      ground (arith, order-flip y z, order_trans z y x, same, ap (λ w. order w x))

  -- The first of an ascending list is least.
  first_least :
      (x : String) (rest : List String) (y : String)
      → AreListed events (x ∷ rest)
      → is_ascending events (x ∷ rest) ≡ true
      → contains rest y ≡ true
      → is_lt (order y x) ≡ false
  first_least x [] y listed h inside = ground arith
  first_least x (z ∷ rest) y listed h inside =
      let head : is_lt (order z x) ≡ false = ground (
        arith,
        h,
        is_less-order z x (listed z (ground (arith, eq_iff z z)))
            (listed x (ground (arith, eq_iff x x))),
      ) in
      elim (Bool-cases (z == y)) [
        | inl here ↦ subst (λ w. is_lt (order w x) ≡ false) ((eq_iff z y).0 here) head
        | inr apart ↦
            let low =
              first_least z rest y (λ k i. listed k (ground (arith, i))) (ground (arith, h))
                (ground (arith, inside, apart)) in
            not_less y z x low head
      ]

  moved_listed : (xs ys : List String) → AreListed events xs → SameIds xs ys → AreListed events ys
  moved_listed xs ys listed same k inside =
      listed k (ground (arith, same k, inside, contains-count k xs, contains-count k ys))

  same_first :
      (x y : String) (xs ys : List String)
      → AreListed events (x ∷ xs)
      → is_ascending events (x ∷ xs) ≡ true
      → is_ascending events (y ∷ ys) ≡ true
      → SameIds (x ∷ xs) (y ∷ ys)
      → x ≡ y
  same_first x y xs ys listed h k same = elim (Bool-cases (x == y)) [
    | inl here ↦ (eq_iff x y).0 here
    | inr apart ↦
        let later : contains xs y ≡ true =
          ground (arith, same y, eq_iff y y, apart, contains-count y xs) in
        let later' : contains ys x ≡ true =
          ground (arith, same x, eq_iff x x, eq_iff x y, eq_iff y x, apart, contains-count x ys) in
        let low = first_least x xs y listed h later in
        let low' = first_least y ys x (moved_listed (x ∷ xs) (y ∷ ys) listed same) k later' in
        ground (arith, low, low', order-flip x y, order-eq x y)
  ]

  -- An ascending list is determined by its ids.
  ascending_unique :
      (xs ys : List String)
      → AreListed events xs
      → is_ascending events xs ≡ true
      → is_ascending events ys ≡ true
      → SameIds xs ys
      → xs ≡ ys
  ascending_unique [] [] listed h k same = refl
  ascending_unique [] (y ∷ ys) listed h k same = absurd (ground (arith, same y, eq_iff y y))
  ascending_unique (x ∷ xs) [] listed h k same = absurd (ground (arith, same x, eq_iff x x))
  ascending_unique (x ∷ xs) (y ∷ ys) listed h k same =
      let first = same_first x y xs ys listed h k same in
      let rest =
        ascending_unique xs ys (λ j i. listed j (ground (arith, i))) (ground (arith, h))
          (ground (arith, k)) (λ j. ground (arith, same j, first, eq_iff x j, eq_iff y j)) in
      λ i. first i ∷ rest i

is_ascending-same :
    (events events' : Events) (xs : List String)
    → ((k : String) → lookup k events ≡ lookup k events')
    → is_ascending events' xs ≡ true
    → is_ascending events xs ≡ true
unfolding compare_stuck
is_ascending-same events events' [] same h = refl
is_ascending-same events events' (a ∷ []) same h = refl
is_ascending-same events events' (a ∷ b ∷ rest) same h =
    ground (arith, h, same a, same b, is_ascending-same events events' (b ∷ rest) same)

tail_of :
    (events : Events) (context : EventProvider) (create_ev : Option LeanEvent)
    (version : StateResVersion) (r : KahnSortResult) (result : List String)
    → Compares events context create_ev version r result
    → (tail : List String) × (result ≡ sorted_part r ++ tail)
      × SameIds tail (stuck_part r)
      × (is_ascending events tail ≡ true)
tail_of events context create_ev version (sorted_all sorted) result h =
    ([], h ∙ sym (append-nil sorted), λ k. refl, refl)
tail_of events context create_ev version (cycle_detected sorted stuck) result h = h

module _ (context : EventProvider) (create_ev : Option LeanEvent) (version : StateResVersion) where
  -- Two maps with the same entries, whatever the order in which each is iterated, each id once and
  -- under the events' own ids: the sort with its fallback returns on both, without a panic, and
  -- returns the same list, whether or not there is a cycle.
  pub sort-same :
      (events events' : Events)
      → IsKeyed events
      → Distinct events
      → Distinct events'
      → ((k : String) → lookup k events ≡ lookup k events')
      → (result : List String) × (sort events context create_ev version ≡ some result)
        × (sort events' context create_ev version ≡ some result)
  sort-same events events' keyed distinct distinct' same =
      let keyed' : IsKeyed events' = λ k e h. keyed k e (same k ∙ h) in
      let (q, q', kahns, kahns', sorted, stuck) =
        with_cycle_diagnostics-same context create_ev version events events' keyed distinct
          distinct' same in
      let (r, result, kahn, sorts, ids, extends) =
        sort-Compares events context create_ev version keyed distinct in
      let (r', result', kahn', sorts', ids', extends') =
        sort-Compares events' context create_ev version keyed' distinct' in
      let one : r ≡ q = ground (arith, kahn, kahns) in
      let one' : r' ≡ q' = ground (arith, kahn', kahns') in
      let (tail, split, from, ordered) =
        tail_of events context create_ev version r result extends in
      let (tail', split', from', ordered') =
        tail_of events' context create_ev version r' result' extends' in
      let listed : AreListed events tail = λ k inside. ground (
        arith,
        inside,
        ids k,
        ap (count k) split,
        count-append k (sorted_part r) tail,
        contains-count k tail,
        count-keys k events distinct,
      ) in
      let moved : SameIds tail tail' = λ k. ground (
        arith,
        from k,
        from' k,
        stuck k,
        ap (λ p. count k (stuck_part p)) one,
        ap (λ p. count k (stuck_part p)) one',
      ) in
      let tails =
        ascending_unique events tail tail' listed ordered
          (is_ascending-same events events' tail' same ordered') moved in
      let fronts : sorted_part r ≡ sorted_part r' =
        ap sorted_part one ∙ sorted ∙ ap sorted_part (sym one') in
      let results : result ≡ result' = split ∙ (λ i. fronts i ++ tails i) ∙ sym split' in
      (result, sorts, sorts' ∙ ap some (sym results))
