-- ===== src/Sorting/Greedy/Run.antt =====
-- The sort's loop returns the greedy order, whatever the iteration order of its maps
-- (src/resolve/sorting.rs, `with_cycle_diagnostics`).
use text.Mathlib.Text.{is_lt}
use mathlib.Core.List.{append-nil, append_assoc}
use rezzy.Prelude.{
  ℕ, zero, suc, ◌<◌, ◌≡◌, refl, ◌∙◌, subst, String, true, false, Option, none, some, List, [], ◌∷◌,
  ◌++◌, ℤ, arith, eq_iff, count, contains, lookup, Distinct, All,
}
use rezzy.Basespec.Version.{StateResVersion}
use rezzy.Basespec.Event.{LeanEvent, EventProvider, dag_edges}
use rezzy.Sorting.Priority.{SortPriority, cmp}
use rezzy.Sorting.Kahn.{Events, has, Loop, neighbors, prioritise, pop, drain}
use rezzy.Sorting.Kahn.Degrees.{in_graph, citations}
use rezzy.Sorting.Kahn.Invariant.{IsKeyed, open_count, queue_count}
use rezzy.Sorting.Kahn.Drain.{popped}
use rezzy.Sorting.Kahn.Order.{Round, next-Round, last-Final}
use rezzy.Sorting.Order.{is_beaten, pop-is_beaten, pop-greatest, cmp-flip}
use rezzy.Sorting.Greedy.{priority, IsNext, IsGreedy}
use rezzy.Sorting.Greedy.Queue.{IsRated, relax-IsRated, pop-IsRated, unbeaten}

closed-zero :
    (events : Events) (done cites : List String)
    → ((a : String) → contains cites a ≡ true → has events a ≡ true → contains done a ≡ true)
    → open_count done (in_graph events cites) ≡ 0
closed-zero events done [] h = refl
closed-zero events done (c ∷ rest) h =
    ground (
      arith,
      eq_iff c c,
      h c,
      closed-zero events done rest (λ a cited. h a (ground (arith, cited))),
    )

zero_closed :
    (events : Events) (done cites : List String) (a : String)
    → open_count done (in_graph events cites) ≡ 0
    → contains cites a ≡ true
    → has events a ≡ true
    → contains done a ≡ true
zero_closed events done [] a h cited listed = ground arith
zero_closed events done (c ∷ rest) a h cited listed =
    ground (arith, eq_iff c a, zero_closed events done rest a)

module _ (events : Events) (keyed : IsKeyed events) (distinct : Distinct events)
    (context : EventProvider) (create_ev : Option LeanEvent) (version : StateResVersion)
    (cache : List (String × ℤ))
    (rated : (k : String) (e : LeanEvent)
      → lookup k events ≡ some e
      → prioritise cache version k e ≡ priority context create_ev version e)
    (adjacency : List (String × List String))
    (linked : (k x : String)
      → count k (neighbors adjacency x) ≡ citations events version (lookup k events) x) where
  popped-IsNext :
      (s : Loop) (done : List String) (top : SortPriority) (rest : List SortPriority)
      → Round events keyed distinct cache version adjacency linked s done
      → All (IsRated events keyed cache version (priority context create_ev version) rated) s.queue
      → pop s.queue ≡ some (top, rest)
      → IsNext context create_ev version (λ k. lookup k events) done top.event.event_id
  popped-IsNext s done top rest r queued run =
      let x = top.event.event_id in
      let (zero_degree, fresh, listed) =
        popped events keyed distinct cache version adjacency linked s done top rest r.inv run in
      let (own, others) =
        pop-IsRated events keyed cache version (priority context create_ev version) rated s.queue
          top rest run queued in
      record {
        event = top.event;
        ready = record {
          listed = own.0;
          fresh = fresh;
          closed = λ a cited here.
              zero_closed events done (dag_edges top.event version) a
                (ground (arith, own.0, r.inv.degree x)) cited here;
        };
        greatest = λ k e ready.
            let closed = closed-zero events done (dag_edges e version) ready.closed in
            let queued_once : 0 < queue_count k s.queue =
              ground (arith, closed, r.inv.ready k, r.inv.degree k, ready.listed, ready.fresh) in
            let best : is_beaten top s.queue ≡ false = ground (
              arith,
              pop-is_beaten top s.queue top rest run,
              pop-greatest s.queue top rest run,
              cmp-flip top top,
            ) in
            let kept =
              unbeaten events keyed cache version (priority context create_ev version) rated top
                s.queue k e queued best ready.listed queued_once in
            let seen =
              subst (λ p. is_lt (cmp p (priority context create_ev version e)) ≡ false) own.1
                kept in
            λ less. ground (arith, less, seen);
      }

  last-IsGreedy :
      (s : Loop) (done : List String)
      → Round events keyed distinct cache version adjacency linked s done
      → pop s.queue ≡ none
      → IsGreedy context create_ev version (λ k. lookup k events) done []
  last-IsGreedy s done r run k e ready =
      let final = last-Final events keyed distinct cache version adjacency linked s done r run in
      let closed = closed-zero events done (dag_edges e version) ready.closed in
      absurd (omega (arith, closed, final.blocked k e ready.listed ready.fresh))

  pub drain-IsGreedy :
      (fuel : ℕ) (s : Loop) (done result : List String)
      → Round events keyed distinct cache version adjacency linked s done
      → All (IsRated events keyed cache version (priority context create_ev version) rated) s.queue
      → drain events cache version adjacency fuel s done ≡ some result
      → (tail : List String) × (result ≡ done ++ tail)
        × IsGreedy context create_ev version (λ k. lookup k events) done tail
  unfolding drain
  drain-IsGreedy zero s done result r queued h = absurd (ground arith)
  drain-IsGreedy (suc fuel) s done result r queued h = go (drain-IsGreedy fuel) (pop s.queue) refl
    where
      go :
          ((s' : Loop) (done' result' : List String)
            → Round events keyed distinct cache version adjacency linked s' done'
            → All
                (IsRated events keyed cache version (priority context create_ev version) rated)
                s'.queue
            → drain events cache version adjacency fuel s' done' ≡ some result'
            → (tail : List String) × (result' ≡ done' ++ tail)
              × IsGreedy context create_ev version (λ k. lookup k events) done' tail)
          → (o : Option (SortPriority × List SortPriority)) → pop s.queue ≡ o
          → (tail : List String) × (result ≡ done ++ tail)
            × IsGreedy context create_ev version (λ k. lookup k events) done tail
      go later none run = ([], ground (arith, run, append-nil done), last-IsGreedy s done r run)
      go later (some (top, rest)) run =
          let x = top.event.event_id in
          let (s', relaxes, r', fewer) =
            next-Round events keyed distinct cache version adjacency linked s done top rest r run in
          let (own, others) =
            pop-IsRated events keyed cache version (priority context create_ev version) rated
              s.queue top rest run queued in
          let queued' =
            relax-IsRated events keyed cache version (priority context create_ev version) rated
              (neighbors adjacency x) (record s { queue = rest }) s' relaxes others in
          let (tail, split, greedy) =
            later s' (done ++ x ∷ []) result r' queued' (ground (arith, run, relaxes)) in
          (
            x ∷ tail,
            split ∙ append_assoc done (x ∷ []) tail,
            (popped-IsNext s done top rest r queued run, greedy),
          )
