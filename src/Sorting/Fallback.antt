-- ===== src/Sorting/Fallback.antt =====
-- `KahnSortInputs::sort` (src/resolve/sorting.rs): Kahn's sort, with the ids of a cycle behind the
-- others, by their timestamps and then their texts.
pub mod Insertion
pub mod Total
pub mod Determinism
use Prim.Native.Nat.{compare, Ordering}
use Prim.Native.String
use text.Mathlib.Text.{is_lt}
use rezzy.Prelude.{
  ◌≡◌, refl, String, Bool, true, false, not, ◌&&◌, Option, none, some, List, [], ◌∷◌, ◌++◌, arith,
  eq_iff, if◌then◌else◌, is_some, or_else, compare-flip, text-flip, count-append, contains,
  contains-count, lookup, Distinct, keys, the_some,
}
use rezzy.Basespec.Version.{StateResVersion}
use rezzy.Basespec.Event.{LeanEvent, EventProvider}
use rezzy.Sorting.Kahn.{
  Events, has, KahnSortResult, sorted_all, cycle_detected, with_cycle_diagnostics,
}
use rezzy.Sorting.Kahn.Invariant.{IsKeyed}
use rezzy.Sorting.Kahn.Spec.{SameIds, IsSort, count-keys, with_cycle_diagnostics-IsSort}

-- The comparison of the closure; `none` is a panic of an `unwrap`.
unfoldable pub compare_stuck : Events → String → String → Option Ordering
compare_stuck events a b = elim (lookup a events) [
  | none ↦ none
  | some ev_a ↦ elim (lookup b events) [
    | none ↦ none
    | some ev_b ↦
        some (or_else (compare ev_a.origin_server_ts ev_b.origin_server_ts) (String.compare a b))
  ]
]

-- `sort_by` as an insertion sort, which is stable as it is.
unfoldable pub insert_stuck : Events → String → List String → Option (List String)
insert_stuck events a [] = some (a ∷ [])
insert_stuck events a (b ∷ rest) =
    let later = insert_stuck events a rest in
    elim (compare_stuck events b a) [
      | none ↦ none
      | some order ↦
          if is_lt order
          then (elim later [ none ↦ none | some inserted ↦ some (b ∷ inserted) ])
          else some (a ∷ b ∷ rest)
    ]

unfoldable pub sort_stuck : Events → List String → Option (List String)
sort_stuck events [] = some []
sort_stuck events (a ∷ rest) = elim (sort_stuck events rest) [
  | none ↦ none
  | some sorted ↦ insert_stuck events a sorted
]

-- `KahnSortInputs::sort`
unfoldable pub sort :
    Events → EventProvider → Option LeanEvent → StateResVersion → Option (List String)
sort events context create_ev version =
    elim (with_cycle_diagnostics events context create_ev version) [
      | none ↦ none
      | some (sorted_all sorted) ↦ some sorted
      | some (cycle_detected sorted stuck) ↦ elim (sort_stuck events stuck) [
        | none ↦ none
        | some tail ↦ some (sorted ++ tail)
      ]
    ]
