-- ===== src/Sorting/Fallback/Insertion.antt =====
-- The insertion sort of the stuck ids: it does not panic, keeps the ids and puts them in order
-- (src/resolve/sorting.rs, `KahnSortInputs::sort`).
use Prim.Native.Nat.{Ordering}
use text.Mathlib.Text.{is_lt}
use rezzy.Prelude.{
  ◌≡◌, refl, String, Bool, true, false, not, ◌&&◌, Option, none, some, List, [], ◌∷◌, arith, eq_iff,
  is_some, compare-flip, text-flip, contains, contains-count, lookup, the_some,
}
use rezzy.Basespec.Event.{LeanEvent}
use rezzy.Sorting.Kahn.{Events, has}
use rezzy.Sorting.Kahn.Spec.{SameIds}
use rezzy.Sorting.Fallback.{compare_stuck, insert_stuck, sort_stuck}

abbrev pub AreListed : Events → List String → Type 0
AreListed events ids = (k : String) → contains ids k ≡ true → has events k ≡ true

compare_stuck-listed :
    (events : Events) (a b : String)
    → has events a ≡ true
    → has events b ≡ true
    → is_some (compare_stuck events a b) ≡ true
unfolding compare_stuck
compare_stuck-listed events a b ha hb = ground arith

-- An insertion between listed ids does not panic, and adds just the id.
pub insert_stuck-SameIds :
    (events : Events) (a : String) (ids : List String)
    → AreListed events (a ∷ ids)
    → (inserted : List String) × (insert_stuck events a ids ≡ some inserted)
      × SameIds inserted (a ∷ ids)
unfolding insert_stuck
insert_stuck-SameIds events a [] listed = (a ∷ [], refl, λ k. refl)
insert_stuck-SameIds events a (b ∷ rest) listed =
    let (later, inserts, same) =
      insert_stuck-SameIds events a rest (λ k h. listed k (ground arith)) in
    let (order, compares) = the_some (compare_stuck events b a) (
      compare_stuck-listed events b a (listed b (ground (arith, eq_iff b b)))
        (listed a (ground (arith, eq_iff a a)))) in
    go later inserts same order compares (is_lt order) refl
  where
    go :
        (later : List String)
        → insert_stuck events a rest ≡ some later
        → SameIds later (a ∷ rest)
        → (order : Ordering) → compare_stuck events b a ≡ some order
        → (t : Bool) → is_lt order ≡ t
        → (inserted : List String) × (insert_stuck events a (b ∷ rest) ≡ some inserted)
          × SameIds inserted (a ∷ b ∷ rest)
    go later inserts same order compares true less =
        (b ∷ later, ground (arith, inserts, compares, less), λ k. ground (arith, same k))
    go later inserts same order compares false less =
        (a ∷ b ∷ rest, ground (arith, compares, less), λ k. refl)

pub sort_stuck-SameIds :
    (events : Events) (ids : List String)
    → AreListed events ids
    → (sorted : List String) × (sort_stuck events ids ≡ some sorted) × SameIds sorted ids
unfolding sort_stuck
sort_stuck-SameIds events [] listed = ([], refl, λ k. refl)
sort_stuck-SameIds events (a ∷ rest) listed =
    let (later, sorts, same) = sort_stuck-SameIds events rest (λ k h. listed k (ground arith)) in
    let (inserted, inserts, same') =
      insert_stuck-SameIds events a later
        (λ k h. listed k (ground (arith, same k, contains-count k later, contains-count k rest))) in
    (inserted, ground (arith, sorts, inserts), λ k. ground (arith, same k, same' k))

-- No id is followed directly by one that the comparison puts before it.
abbrev pub is_less : Events → String → String → Bool
is_less events a b = elim (compare_stuck events a b) [ none ↦ false | some order ↦ is_lt order ]

abbrev pub is_before : Events → String → List String → Bool
is_before events a [] = true
is_before events a (b ∷ rest) = not (is_less events b a)

abbrev pub is_ascending : Events → List String → Bool
is_ascending events [] = true
is_ascending events (a ∷ rest) = is_before events a rest && is_ascending events rest

pub is_less-flip :
    (events : Events) (a b : String) → is_less events a b ≡ true → is_less events b a ≡ false
unfolding compare_stuck
is_less-flip events a b h = go (lookup a events) refl (lookup b events) refl
  where
    go :
        (o : Option LeanEvent)
        → lookup a events ≡ o
        → (p : Option LeanEvent) → lookup b events ≡ p
        → is_less events b a ≡ false
    go none e p f = ground arith
    go (some ev_a) e none f = ground arith
    go (some ev_a) e (some ev_b) f =
        ground (arith, text-flip a b, compare-flip ev_a.origin_server_ts ev_b.origin_server_ts)

module _ (events : Events) (a : String) where
  insert_stuck-is_before :
      (b : String) (rest inserted : List String)
      → insert_stuck events a rest ≡ some inserted
      → is_less events a b ≡ false
      → is_before events b rest ≡ true
      → is_before events b inserted ≡ true
  unfolding insert_stuck
  insert_stuck-is_before b [] inserted h first next = ground arith
  insert_stuck-is_before b (c ∷ rest) inserted h first next =
      go (insert_stuck events a rest) refl (compare_stuck events c a) refl
    where
      go :
          (o : Option (List String))
          → insert_stuck events a rest ≡ o
          → (p : Option Ordering) → compare_stuck events c a ≡ p
          → is_before events b inserted ≡ true
      go none e none f = ground arith
      go none e (some order) f = ground arith
      go (some later) e none f = ground arith
      go (some later) e (some order) f = ground arith

  insert_stuck-is_ascending :
      (ids inserted : List String)
      → insert_stuck events a ids ≡ some inserted
      → is_ascending events ids ≡ true
      → is_ascending events inserted ≡ true
  unfolding insert_stuck
  insert_stuck-is_ascending [] inserted h ordered = ground arith
  insert_stuck-is_ascending (b ∷ rest) inserted h ordered =
      go (insert_stuck-is_ascending rest) (insert_stuck events a rest) refl
        (compare_stuck events b a) refl
    where
      go :
          ((later : List String)
            → insert_stuck events a rest ≡ some later
            → is_ascending events rest ≡ true
            → is_ascending events later ≡ true)
          → (o : Option (List String)) → insert_stuck events a rest ≡ o
          → (p : Option Ordering) → compare_stuck events b a ≡ p
          → is_ascending events inserted ≡ true
      go ih o e none f = ground arith
      go ih none e (some order) f = ground arith
      go ih (some later) e (some order) f =
          ground (arith, ih later e, is_less-flip events b a, insert_stuck-is_before b rest later e)

pub sort_stuck-is_ascending :
    (events : Events) (ids sorted : List String)
    → sort_stuck events ids ≡ some sorted
    → is_ascending events sorted ≡ true
unfolding sort_stuck
sort_stuck-is_ascending events [] sorted h = ground arith
sort_stuck-is_ascending events (a ∷ rest) sorted h =
    go (sort_stuck-is_ascending events rest) (sort_stuck events rest) refl
  where
    go :
        ((later : List String)
          → sort_stuck events rest ≡ some later
          → is_ascending events later ≡ true)
        → (o : Option (List String)) → sort_stuck events rest ≡ o
        → is_ascending events sorted ≡ true
    go ih none e = ground arith
    go ih (some later) e =
        insert_stuck-is_ascending events a later sorted (ground arith) (ih later e)
