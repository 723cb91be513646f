-- ===== src/Sorting/Greedy/Queue.antt =====
-- Every element of the queue is an event of the map at its priority (src/resolve/sorting.rs).
use Prim.Native.Nat.{Ordering}
use rezzy.Prelude.{
  ℕ, ◌-◌, subst, ◌<◌, ◌≡◌, refl, String, Bool, true, false, Option, none, some, List, [], ◌∷◌, ℤ,
  arith, eq_iff, eqb, if◌then◌else◌, lookup, put, lookup-put, Distinct, All,
}
use text.Mathlib.Text.{is_lt}
use rezzy.Basespec.Version.{StateResVersion}
use rezzy.Basespec.Event.{LeanEvent, EventProvider}
use rezzy.Sorting.Priority.{SortPriority, cmp, get_power_level_from_auth_chain}
use rezzy.Sorting.Kahn.{
  Events, Loop, fill_pl_cache, prioritise, initial_queue, pop, relax_one, relax,
}
use rezzy.Sorting.Kahn.Invariant.{IsKeyed, queue_count}
use rezzy.Sorting.Order.{is_beaten}

fill_pl_cache-keeps :
    (context : EventProvider) (create_ev : Option LeanEvent) (version : StateResVersion)
    (events : Events) (cache : List (String × ℤ)) (k : String) (level : ℤ)
    → lookup k cache ≡ some level
    → lookup k (fill_pl_cache context create_ev version events cache) ≡ some level
unfolding fill_pl_cache
fill_pl_cache-keeps context create_ev version [] cache k level here = here
fill_pl_cache-keeps context create_ev version ((id, ev) ∷ rest) cache k level here =
    let own = get_power_level_from_auth_chain ev context create_ev version in
    ground (
      arith,
      eq_iff id k,
      lookup-put id k own cache,
      fill_pl_cache-keeps context create_ev version rest cache k level here,
      fill_pl_cache-keeps context create_ev version rest (put id own cache) k level,
    )

-- The cache holds the level of each event.
pub fill_pl_cache-lookup :
    (context : EventProvider) (create_ev : Option LeanEvent) (version : StateResVersion)
    (events : Events) (cache : List (String × ℤ)) (k : String) (e : LeanEvent)
    → Distinct events
    → lookup k events ≡ some e
    → lookup k cache ≡ none
    → lookup k (fill_pl_cache context create_ev version events cache)
      ≡ some (get_power_level_from_auth_chain e context create_ev version)
unfolding fill_pl_cache lookup
fill_pl_cache-lookup context create_ev version [] cache k e d here fresh = ground arith
fill_pl_cache-lookup context create_ev version ((id, ev) ∷ rest) cache k e d here fresh =
    let own = get_power_level_from_auth_chain ev context create_ev version in
    ground (
      arith,
      eq_iff id k,
      lookup-put id k own cache,
      d.1,
      fill_pl_cache-keeps context create_ev version rest (put id own cache) k own,
      fill_pl_cache-lookup context create_ev version rest cache k e d.1,
      fill_pl_cache-lookup context create_ev version rest (put id own cache) k e d.1,
    )

module _ (events : Events) (keyed : IsKeyed events) (cache : List (String × ℤ))
    (version : StateResVersion) (rate : LeanEvent → SortPriority)
    (rated : (k : String) (e : LeanEvent)
      → lookup k events ≡ some e
      → prioritise cache version k e ≡ rate e) where
  abbrev pub IsRated : SortPriority → Type 0
  IsRated p = (lookup p.event.event_id events ≡ some p.event) × (p ≡ rate p.event)

  prioritise-IsRated :
      (id : String) (e : LeanEvent)
      → lookup id events ≡ some e
      → IsRated (prioritise cache version id e)
  unfolding prioritise
  prioritise-IsRated id e here = (ground (arith, keyed id e here), rated id e here)

  pub initial_queue-IsRated :
      (degrees : List (String × ℕ)) → All IsRated (initial_queue events cache version degrees)
  unfolding initial_queue
  initial_queue-IsRated [] = tt
  initial_queue-IsRated ((id, degree) ∷ rest) =
      go (initial_queue-IsRated rest) (eqb degree 0) (lookup id events) refl
    where
      go :
          All IsRated (initial_queue events cache version rest)
          → (b : Bool) (o : Option LeanEvent) → lookup id events ≡ o
          → All IsRated (
              if b
              then (elim o [
                | none ↦ initial_queue events cache version rest
                | some event ↦
                    prioritise cache version id event ∷ initial_queue events cache version rest
              ])
              else initial_queue events cache version rest)
      go later false o e = later
      go later true none e = later
      go later true (some event) e = (prioritise-IsRated id event e, later)

  abbrev queue_of : Option Loop → List SortPriority
  queue_of none = []
  queue_of (some s) = s.queue

  relax_one-IsRated :
      (n : String) (s : Loop)
      → All IsRated s.queue
      → All IsRated (queue_of (relax_one events cache version n s))
  unfolding relax_one
  relax_one-IsRated n s all = go (lookup n s.in_degree) (lookup n events) refl
    where
      go :
          (d : Option ℕ) (o : Option LeanEvent)
          → lookup n events ≡ o
          → All IsRated (
              queue_of (elim d [
                | none ↦ none
                | some degree ↦
                    if eqb (degree - 1) 0
                    then (elim o [
                      | none ↦ none
                      | some event ↦ some (record {
                        in_degree = put n (degree - 1) s.in_degree;
                        queue = prioritise cache version n event ∷ s.queue;
                      })
                    ])
                    else some (record s { in_degree = put n (degree - 1) s.in_degree })
              ]))
      go none o e = tt
      go (some degree) o e = at (eqb (degree - 1) 0) o e
        where
          at :
              (b : Bool) (o : Option LeanEvent)
              → lookup n events ≡ o
              → All IsRated (
                  queue_of (
                    if b
                    then (elim o [
                      | none ↦ none
                      | some event ↦ some (record {
                        in_degree = put n (degree - 1) s.in_degree;
                        queue = prioritise cache version n event ∷ s.queue;
                      })
                    ])
                    else some (record s { in_degree = put n (degree - 1) s.in_degree })))
          at false o e = all
          at true none e = tt
          at true (some event) e = (prioritise-IsRated n event e, all)

  pub relax-IsRated :
      (ns : List String) (s s' : Loop)
      → relax events cache version ns s ≡ some s'
      → All IsRated s.queue
      → All IsRated s'.queue
  unfolding relax
  relax-IsRated [] s s' h all = subst (λ o. All IsRated (queue_of o)) h all
  relax-IsRated (n ∷ ns) s s' h all =
      go (relax-IsRated ns) (relax_one events cache version n s) refl
    where
      go :
          ((m m' : Loop)
            → relax events cache version ns m ≡ some m'
            → All IsRated m.queue
            → All IsRated m'.queue)
          → (o : Option Loop) → relax_one events cache version n s ≡ o
          → All IsRated s'.queue
      go later none e = absurd (ground arith)
      go later (some m) e =
          later m s' (ground arith)
            (subst (λ o. All IsRated (queue_of o)) e (relax_one-IsRated n s all))

  abbrev IsPopRated : Option (SortPriority × List SortPriority) → Type 0
  IsPopRated none = Unit
  IsPopRated (some (top, rest)) = IsRated top × All IsRated rest

  pop-IsPopRated : (queue : List SortPriority) → All IsRated queue → IsPopRated (pop queue)
  unfolding pop
  pop-IsPopRated [] all = tt
  pop-IsPopRated (p ∷ queue) all = go (pop queue) (pop-IsPopRated queue all.1)
    where
      go :
          (taken : Option (SortPriority × List SortPriority))
          → IsPopRated taken
          → IsPopRated (elim taken [
            | none ↦ some (p, [])
            | some (top, rest) ↦ elim (cmp p top) [
              | Ordering.lt ↦ some (top, p ∷ rest)
              | _ ↦ some (p, queue)
            ]
          ])
      go none rated = (all.0, tt)
      go (some (top, rest)) rated = at (cmp p top)
        where
          at :
              (o : Ordering)
              → IsPopRated (elim o [ Ordering.lt ↦ some (top, p ∷ rest) | _ ↦ some (p, queue) ])
          at Ordering.lt = (rated.0, (all.0, rated.1))
          at Ordering.eq = all
          at Ordering.gt = all

  pub pop-IsRated :
      (queue : List SortPriority) (top : SortPriority) (rest : List SortPriority)
      → pop queue ≡ some (top, rest)
      → All IsRated queue
      → IsRated top × All IsRated rest
  pop-IsRated queue top rest h all = subst IsPopRated h (pop-IsPopRated queue all)

  -- What beats none of the queue beats none of the events in it.
  pub unbeaten :
      (p : SortPriority) (queue : List SortPriority) (k : String) (e : LeanEvent)
      → All IsRated queue
      → is_beaten p queue ≡ false
      → lookup k events ≡ some e
      → 0 < queue_count k queue
      → is_lt (cmp p (rate e)) ≡ false
  unbeaten p [] k e all best here h = absurd (omega arith)
  unbeaten p (q ∷ queue) k e all best here h =
      ground (arith, eq_iff q.event.event_id k, all.0.0, all.0.1, unbeaten p queue k e all.1)
