-- ===== src/Sorting/Kahn/Acyclic.antt =====
-- Citations without a cycle (src/resolve/sorting.rs, `with_cycle_diagnostics`).
use rezzy.Prelude.{
  ℕ, zero, suc, ◌<◌, ◌≡◌, refl, String, Bool, true, false, Option, some, List, [], ◌∷◌, ◌++◌, arith,
  eq_iff, length, count-append, contains, contains-count, lookup, Distinct, keys, the_some,
}
use rezzy.Basespec.Version.{StateResVersion}
use rezzy.Basespec.Event.{LeanEvent, EventProvider, dag_edges}
use rezzy.Sorting.Kahn.{
  Events, has, KahnSortResult, sorted_all, cycle_detected, with_cycle_diagnostics,
}
use rezzy.Sorting.Kahn.Degrees.{in_graph, deps}
use rezzy.Sorting.Kahn.Invariant.{IsKeyed, open_count}
use rezzy.Sorting.Kahn.Order.{IsOrdered}
use rezzy.Sorting.Kahn.Spec.{SameIds, IsSort, count-keys, with_cycle_diagnostics-IsSort}

-- A rank that falls along each citation: there is one just when no citations form a cycle.
abbrev pub IsRanked : Events → StateResVersion → (String → ℕ) → Type 0
IsRanked events version rank =
    (k a : String) (e : LeanEvent)
    → lookup k events ≡ some e
    → has events a ≡ true
    → contains (dag_edges e version) a ≡ true
    → rank a < rank k

pub open-cited :
    (events : Events) (done cites : List String)
    → 0 < open_count done (in_graph events cites)
    → (a : String) × (contains cites a ≡ true) × (has events a ≡ true) × (contains done a ≡ false)
open-cited events done [] h = absurd (omega arith)
open-cited events done (c ∷ rest) h =
    go
      (λ more.
        let (a, cited, listed, fresh) = open-cited events done rest more in
        (a, ground (arith, cited), listed, fresh))
      (has events c) refl (contains done c) refl
  where
    go :
        (0 < open_count done (in_graph events rest)
          → (a : String) × (contains (c ∷ rest) a ≡ true)
            × (has events a ≡ true)
            × (contains done a ≡ false))
        → (b : Bool) → has events c ≡ b
        → (d : Bool) → contains done c ≡ d
        → (a : String) × (contains (c ∷ rest) a ≡ true)
          × (has events a ≡ true)
          × (contains done a ≡ false)
    go later true listed false fresh = (c, ground (arith, eq_iff c c), listed, fresh)
    go later true listed true old = later (ground (arith, h, listed, old))
    go later false foreign d e = later (ground (arith, h, foreign))

has_head : (xs : List String) → 0 < length xs → (x : String) × (contains xs x ≡ true)
has_head [] h = absurd (omega arith)
has_head (x ∷ xs) h = (x, ground (arith, eq_iff x x))

module _ (events : Events) (distinct : Distinct events) (version : StateResVersion)
    (rank : String → ℕ) (ranked : IsRanked events version rank) (sorted stuck : List String)
    (same : SameIds (sorted ++ stuck) (keys events))
    (blocked : (k : String) (e : LeanEvent)
      → lookup k events ≡ some e
      → contains stuck k ≡ true
      → 0 < open_count sorted (deps events version e)) where
  stuck-has : (k : String) → contains stuck k ≡ true → has events k ≡ true
  stuck-has k h = ground (
    arith,
    same k,
    count-append k sorted stuck,
    count-keys k events distinct,
    contains-count k stuck,
  )

  unsorted-stuck :
      (k : String) → has events k ≡ true → contains sorted k ≡ false → contains stuck k ≡ true
  unsorted-stuck k h f = ground (
    arith,
    same k,
    count-append k sorted stuck,
    count-keys k events distinct,
    contains-count k stuck,
    contains-count k sorted,
  )

  -- By induction on the rank, nothing is stuck.
  none_stuck : (n : ℕ) (k : String) → rank k < n → contains stuck k ≡ true → ⊥
  none_stuck zero k h inside = omega arith
  none_stuck (suc n) k h inside =
      let (e, listed) = the_some (lookup k events) (stuck-has k inside) in
      let (a, cited, here, fresh) =
        open-cited events sorted (dag_edges e version) (blocked k e listed inside) in
      none_stuck n a (omega (arith, ranked k a e listed here cited)) (unsorted-stuck a here fresh)

module _ (events : Events) (context : EventProvider) (create_ev : Option LeanEvent)
    (version : StateResVersion) (rank : String → ℕ) where
  -- With events under their own ids, each id once, and a rank of the ids that falls along each
  -- citation of an event by an event, the sort reports no cycle: it returns each id once, each event
  -- behind all that it cites.
  pub with_cycle_diagnostics-acyclic :
      IsKeyed events
      → Distinct events
      → IsRanked events version rank
      → (sorted : List String) × (with_cycle_diagnostics events context create_ev version
          ≡ some (sorted_all sorted))
        × SameIds sorted (keys events)
        × IsOrdered events version [] sorted
  with_cycle_diagnostics-acyclic keyed distinct ranked =
      let (r, returns, sort) =
        with_cycle_diagnostics-IsSort events context create_ev version keyed distinct in
      go r returns sort
    where
      go :
          (r : KahnSortResult)
          → with_cycle_diagnostics events context create_ev version ≡ some r
          → IsSort events version r
          → (sorted : List String) × (with_cycle_diagnostics events context create_ev version
              ≡ some (sorted_all sorted))
            × SameIds sorted (keys events)
            × IsOrdered events version [] sorted
      go (sorted_all sorted) returns sort = (sorted, returns, sort.0, sort.1)
      go (cycle_detected sorted stuck) returns (same, ordered, some_stuck, blocked) =
          let (k, inside) = has_head stuck some_stuck in
          absurd (
            none_stuck events distinct version rank ranked sorted stuck same blocked (suc (rank k))
              k (omega arith) inside)
