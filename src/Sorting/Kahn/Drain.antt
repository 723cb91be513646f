-- ===== src/Sorting/Kahn/Drain.antt =====
-- The loop of the sort: it panics nowhere, ends within its fuel, and keeps the order.
use rezzy.Prelude.{
  ℕ, suc, ◌+◌, ◌≡◌, refl, String, true, false, Option, none, some, List, [], ◌∷◌, ◌++◌, ℤ, arith,
  eq_iff, if◌then◌else◌, count, count-append, contains, contains-append, contains-count, lookup,
  Distinct, the_some,
}
use rezzy.Basespec.Version.{StateResVersion}
use rezzy.Basespec.Event.{LeanEvent}
use rezzy.Sorting.Priority.{SortPriority}
use rezzy.Sorting.Kahn.{Events, has, Loop, neighbors, pop, relax}
use rezzy.Sorting.Kahn.Degrees.{deps, citations}
use rezzy.Sorting.Kahn.Invariant.{
  IsKeyed, open_count, open_count-snoc, pop-some, expected, Inv, relaxed, relax_one-some,
  relaxed-Inv,
}

-- How many events are not sorted.
abbrev pub remaining : List String → Events → ℕ
remaining done [] = 0
remaining done ((id, e) ∷ rest) =
    if contains done id then remaining done rest else suc (remaining done rest)

pub remaining-snoc :
    (done : List String) (x : String) (events : Events)
    → Distinct events
    → contains done x ≡ false
    → remaining done events ≡ remaining (done ++ x ∷ []) events + (if has events x then 1 else 0)
unfolding lookup
remaining-snoc done x [] d fresh = omega arith
remaining-snoc done x ((id, e) ∷ rest) d fresh = ground (
  arith,
  eq_iff id x,
  eq_iff x id,
  contains-append id done (x ∷ []),
  remaining-snoc done x rest d.1 fresh,
)

module _ (events : Events) (keyed : IsKeyed events) (distinct : Distinct events)
    (cache : List (String × ℤ)) (version : StateResVersion)
    (adjacency : List (String × List String))
    (linked : (k x : String)
      → count k (neighbors adjacency x) ≡ citations events version (lookup k events) x) where
  known :
      (n : String) (ns : List String) (s : Loop) (done : List String)
      → Inv events version (n ∷ ns) s done
      → (e : LeanEvent) × (lookup n events ≡ some e)
  known n ns s done inv = the_some (lookup n events) (ground (arith, inv.inside n, eq_iff n n))

  pub relax-Inv :
      (ns : List String) (s : Loop) (done : List String)
      → Inv events version ns s done
      → (s' : Loop) × (relax events cache version ns s ≡ some s') × Inv events version [] s' done
  unfolding relax
  relax-Inv [] s done inv = (s, refl, inv)
  relax-Inv (n ∷ ns) s done inv =
      let (e, listed) = known n ns s done inv in
      let d = open_count done (deps events version e) + count n (n ∷ ns) in
      let here : lookup n s.in_degree ≡ some d = ground (arith, inv.degree n) in
      let (s', run, inv') =
        relax-Inv ns (relaxed events keyed cache version n s e d) done
          (relaxed-Inv events keyed cache version n s e d ns done listed here inv) in
      (s', ground (arith, relax_one-some events keyed cache version n s e d here listed, run), inv')

  expected-snoc :
      (done : List String) (x : String) (o : Option LeanEvent)
      → contains done x ≡ false
      → expected events version done 0 o
        ≡ expected events version (done ++ x ∷ []) (citations events version o x) o
  expected-snoc done x none fresh = refl
  expected-snoc done x (some e) fresh =
      ground (arith, open_count-snoc done x (deps events version e) fresh)

  -- What is popped is an event of degree zero that is not sorted.
  pub popped :
      (s : Loop) (done : List String) (top : SortPriority) (rest : List SortPriority)
      → Inv events version [] s done
      → pop s.queue ≡ some (top, rest)
      → (lookup top.event.event_id s.in_degree ≡ some 0)
        × (contains done top.event.event_id ≡ false)
        × (has events top.event.event_id ≡ true)
  popped s done top rest inv run =
      let x = top.event.event_id in
      ground (arith, pop-some s.queue top rest x run, inv.ready x, inv.degree x, eq_iff x x)

  pub popped-Inv :
      (s : Loop) (done : List String) (top : SortPriority) (rest : List SortPriority)
      → Inv events version [] s done
      → pop s.queue ≡ some (top, rest)
      → Inv events version
          (neighbors adjacency top.event.event_id)
          (record s { queue = rest })
          (done ++ top.event.event_id ∷ [])
  popped-Inv s done top rest inv run =
      let x = top.event.event_id in
      let (zero_degree, fresh, listed) = popped s done top rest inv run in
      record {
        degree = λ k.
            ground (arith, inv.degree k, expected-snoc done x (lookup k events) fresh, linked k x);
        ready = λ k. ground (
          arith,
          inv.ready k,
          pop-some s.queue top rest k run,
          eq_iff x k,
          contains-append k done (x ∷ []),
        );
        finished =
            λ k h. ground (arith, inv.finished k, eq_iff x k, contains-append k done (x ∷ []));
        once = λ k.
            ground
              (arith, inv.once k, eq_iff x k, count-append k done (x ∷ []), contains-count k done);
        inside = λ k h. ground (arith, linked k x);
      }
