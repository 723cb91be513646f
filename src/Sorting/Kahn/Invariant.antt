-- ===== src/Sorting/Kahn/Invariant.antt =====
-- The invariant of the sort's loop: degrees count the citations that are not sorted yet, and the
-- queue holds, once each, the events of degree zero that are not sorted.
use rezzy.Prelude.{
  ℕ, suc, ◌+◌, ◌-◌, ◌≤◌, ◌≡◌, refl, ap, String, Bool, true, false, Option, none, some, List, [],
  ◌∷◌, ◌++◌, ℤ, arith, ◌==◌, eq_iff, eqb, if◌then◌else◌, count, contains, contains-append, lookup,
  put, lookup-put,
}
use rezzy.Basespec.Version.{StateResVersion}
use rezzy.Basespec.Event.{LeanEvent}
use rezzy.Sorting.Priority.{SortPriority}
use rezzy.Sorting.Kahn.{Events, Loop, prioritise, pop, relax_one}
use rezzy.Sorting.Kahn.Degrees.{deps}

-- The key of each event is its id.
abbrev pub IsKeyed : Events → Type 0
IsKeyed events = (k : String) (e : LeanEvent) → lookup k events ≡ some e → e.event_id ≡ k

-- How many of the citations are not sorted.
abbrev pub open_count : List String → List String → ℕ
open_count done [] = 0
open_count done (a ∷ rest) =
    if contains done a then open_count done rest else suc (open_count done rest)

pub open_count-snoc :
    (done : List String) (x : String) (ds : List String)
    → contains done x ≡ false
    → open_count done ds ≡ open_count (done ++ x ∷ []) ds + count x ds
open_count-snoc done x [] fresh = omega arith
open_count-snoc done x (a ∷ rest) fresh = ground (
  arith,
  eq_iff x a,
  eq_iff a x,
  contains-append a done (x ∷ []),
  open_count-snoc done x rest fresh,
)

-- How often an id stands in the queue.
abbrev pub queue_count : String → List SortPriority → ℕ
queue_count k [] = 0
queue_count k (p ∷ queue) =
    if p.event.event_id == k then suc (queue_count k queue) else queue_count k queue

pub pop-none : (queue : List SortPriority) → pop queue ≡ none → queue ≡ []
unfolding pop
pop-none [] h = refl
pop-none (p ∷ queue) h = ground arith

-- One step of `pop`, on what it took from the others.
pick :
    (p : SortPriority) (queue : List SortPriority) (top : SortPriority) (rest : List SortPriority)
    (k : String) (taken : Option (SortPriority × List SortPriority))
    → pop queue ≡ taken
    → ((m : SortPriority) (r : List SortPriority)
        → pop queue ≡ some (m, r)
        → queue_count k queue ≡ (if m.event.event_id == k then 1 else 0) + queue_count k r)
    → pop (p ∷ queue) ≡ some (top, rest)
    → queue_count k (p ∷ queue) ≡ (if top.event.event_id == k then 1 else 0) + queue_count k rest
unfolding pop
pick p queue top rest k none e ih h =
    let bare = ap (queue_count k) (pop-none queue e) in ground arith
pick p queue top rest k (some (m, r)) e ih h = ground (arith, ih m r e)

pub pop-some :
    (queue : List SortPriority) (top : SortPriority) (rest : List SortPriority) (k : String)
    → pop queue ≡ some (top, rest)
    → queue_count k queue ≡ (if top.event.event_id == k then 1 else 0) + queue_count k rest
unfolding pop
pop-some [] top rest k h = ground arith
pop-some (p ∷ queue) top rest k h =
    pick p queue top rest k (pop queue) refl (λ m r e. pop-some queue m r k e) h

abbrev pub expected : Events → StateResVersion → List String → ℕ → Option LeanEvent → Option ℕ
expected events version done waiting none = none
expected events version done waiting (some e) =
    some (open_count done (deps events version e) + waiting)

abbrev pub ready_count : Option ℕ → Bool → ℕ
ready_count none sorted = 0
ready_count (some d) sorted = if eqb d 0 then (if sorted then 0 else 1) else 0

-- `ns` are the neighbors of the last sorted event that are still to be visited.
pub record Inv (events : Events) (version : StateResVersion) (ns : List String) (s : Loop)
    (done : List String) : Type 0 where
  pub degree :
      (k : String)
      → lookup k s.in_degree ≡ expected events version done (count k ns) (lookup k events)
  pub ready :
      (k : String) → queue_count k s.queue ≡ ready_count (lookup k s.in_degree) (contains done k)
  pub finished : (k : String) → contains done k ≡ true → lookup k s.in_degree ≡ some 0
  pub once : (k : String) → count k done ≤ 1
  pub inside : (k : String) → lookup k events ≡ none → count k ns ≡ 0

module _ (events : Events) (keyed : IsKeyed events) (cache : List (String × ℤ))
    (version : StateResVersion) (n : String) (s : Loop) (e : LeanEvent) (d : ℕ) where
  -- The loop state after one neighbour.
  abbrev pub relaxed : Loop
  relaxed = record {
    in_degree = put n (d - 1) s.in_degree;
    queue = if eqb (d - 1) 0 then prioritise cache version n e ∷ s.queue else s.queue;
  }

  pub relax_one-some :
      lookup n s.in_degree ≡ some d
      → lookup n events ≡ some e
      → relax_one events cache version n s ≡ some relaxed
  unfolding relax_one
  relax_one-some here listed = ground arith

  relaxed-queue :
      (k : String)
      → e.event_id ≡ n
      → queue_count k relaxed.queue
        ≡ (if eqb (d - 1) 0 then (if n == k then 1 else 0) else 0) + queue_count k s.queue
  unfolding prioritise
  relaxed-queue k same = ground (arith, eq_iff e.event_id k, eq_iff n k)

  pub relaxed-Inv :
      (ns done : List String)
      → lookup n events ≡ some e
      → lookup n s.in_degree ≡ some d
      → Inv events version (n ∷ ns) s done
      → Inv events version ns relaxed done
  relaxed-Inv ns done listed here inv = record {
    degree = λ k. ground (
      arith,
      eq_iff n k,
      eq_iff n n,
      lookup-put n k (d - 1) s.in_degree,
      inv.degree k,
      inv.degree n,
    );
    ready = λ k. ground (
      arith,
      eq_iff n k,
      eq_iff n n,
      lookup-put n k (d - 1) s.in_degree,
      inv.degree n,
      inv.ready k,
      inv.ready n,
      inv.finished n,
      relaxed-queue k (keyed n e listed),
    );
    finished = λ k h. ground (
      arith,
      eq_iff n k,
      eq_iff n n,
      lookup-put n k (d - 1) s.in_degree,
      inv.finished k h,
      inv.degree n,
    );
    once = inv.once;
    inside = λ k h. ground (arith, eq_iff n k, inv.inside k h);
  }
