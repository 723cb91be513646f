-- ===== src/Sorting/Kahn/Order.antt =====
-- The result of the loop: each event behind what it cites, and what is left waits for itself.
use mathlib.Core.List.{append-nil, append_assoc}
use rezzy.Prelude.{
  ℕ, zero, suc, ◌+◌, ◌≤◌, ◌<◌, ◌≡◌, refl, ap, sym, subst, String, true, false, Option, none, some,
  List, [], ◌∷◌, ◌++◌, ℤ, arith, eq_iff, length, count, contains, contains-append, length-append,
  lookup, Distinct,
}
use rezzy.Basespec.Version.{StateResVersion}
use rezzy.Basespec.Event.{LeanEvent}
use rezzy.Sorting.Priority.{SortPriority}
use rezzy.Sorting.Kahn.{Events, has, Loop, neighbors, pop, relax, drain}
use rezzy.Sorting.Kahn.Degrees.{deps, citations}
use rezzy.Sorting.Kahn.Invariant.{IsKeyed, open_count, queue_count, pop-none, Inv}
use rezzy.Sorting.Kahn.Drain.{remaining, remaining-snoc, relax-Inv, popped, popped-Inv}

module _ (events : Events) (version : StateResVersion) where
  -- All that the event of this id cites among the events stands in `seen`.
  abbrev pub IsClosed : List String → String → Type 0
  IsClosed seen id =
      (e : LeanEvent) → lookup id events ≡ some e → open_count seen (deps events version e) ≡ 0

  -- Each event stands behind the events that it cites.
  abbrev pub IsOrdered : List String → List String → Type 0
  IsOrdered seen [] = Unit
  IsOrdered seen (id ∷ rest) = IsClosed seen id × IsOrdered (seen ++ id ∷ []) rest

  IsOrdered-snoc :
      (seen xs : List String) (id : String)
      → IsOrdered seen xs
      → IsClosed (seen ++ xs) id
      → IsOrdered seen (xs ++ id ∷ [])
  IsOrdered-snoc seen [] id o c = (subst (λ l. IsClosed l id) (append-nil seen) c, tt)
  IsOrdered-snoc seen (x ∷ xs) id o c = (
    o.0,
    IsOrdered-snoc (seen ++ x ∷ []) xs id o.1
        (subst (λ l. IsClosed l id) (sym (append_assoc seen (x ∷ []) xs)) c),
  )

  pub record Final (result : List String) : Type 0 where
    pub once : (k : String) → count k result ≤ 1
    pub listed : (k : String) → contains result k ≡ true → has events k ≡ true
    pub ordered : IsOrdered [] result
    pub size : length result + remaining result events ≡ length events
    pub blocked :
        (k : String) (e : LeanEvent)
        → lookup k events ≡ some e
        → contains result k ≡ false
        → 0 < open_count result (deps events version e)

module _ (events : Events) (keyed : IsKeyed events) (distinct : Distinct events)
    (cache : List (String × ℤ)) (version : StateResVersion)
    (adjacency : List (String × List String))
    (linked : (k x : String)
      → count k (neighbors adjacency x) ≡ citations events version (lookup k events) x) where
  -- What holds between two rounds.
  pub record Round (s : Loop) (done : List String) : Type 0 where
    pub inv : Inv events version [] s done
    pub listed : (k : String) → contains done k ≡ true → has events k ≡ true
    pub ordered : IsOrdered events version [] done
    pub size : length done + remaining done events ≡ length events

  pub next-Round :
      (s : Loop) (done : List String) (top : SortPriority) (rest : List SortPriority)
      → Round s done
      → pop s.queue ≡ some (top, rest)
      → (s' : Loop) × (relax events cache version
            (neighbors adjacency top.event.event_id)
            (record s { queue = rest })
          ≡ some s')
        × Round s' (done ++ top.event.event_id ∷ [])
        × (suc (remaining (done ++ top.event.event_id ∷ []) events) ≡ remaining done events)
  next-Round s done top rest r run =
      let x = top.event.event_id in
      let (zero_degree, fresh, listed) =
        popped events keyed distinct cache version adjacency linked s done top rest r.inv run in
      let (s', relaxes, inv') =
        relax-Inv events keyed distinct cache version adjacency linked (neighbors adjacency x)
          (record s { queue = rest }) (done ++ x ∷ [])
          (popped-Inv events keyed distinct cache version adjacency linked s done top rest r.inv
            run) in
      let fewer = remaining-snoc done x events distinct fresh in
      (
        s',
        relaxes,
        record {
          inv = inv';
          listed = λ k h. ground (arith, r.listed k, eq_iff x k, contains-append k done (x ∷ []));
          ordered =
              IsOrdered-snoc events version [] done x r.ordered
                (λ e here. ground (arith, r.inv.degree x));
          size = ground (arith, r.size, fewer, length-append done (x ∷ []));
        },
        ground (arith, fewer),
      )

  pub last-Final :
      (s : Loop) (done : List String)
      → Round s done
      → pop s.queue ≡ none
      → Final events version done
  last-Final s done r run = record {
    once = r.inv.once;
    listed = r.listed;
    ordered = r.ordered;
    size = r.size;
    blocked = λ k e here absent.
        let bare = ap (queue_count k) (pop-none s.queue run) in
        ground (arith, bare, r.inv.ready k, r.inv.degree k);
  }

  -- With more fuel than there are events left, the loop returns.
  pub drain-Final :
      (fuel : ℕ) (s : Loop) (done : List String)
      → remaining done events < fuel
      → Round s done
      → (result : List String) × (drain events cache version adjacency fuel s done ≡ some result)
        × Final events version result
  unfolding drain
  drain-Final zero s done h r = absurd (omega arith)
  drain-Final (suc fuel) s done h r = go (drain-Final fuel) (pop s.queue) refl
    where
      go :
          ((s' : Loop) (done' : List String)
            → remaining done' events < fuel
            → Round s' done'
            → (result : List String) × (drain events cache version adjacency fuel s' done'
                ≡ some result)
              × Final events version result)
          → (o : Option (SortPriority × List SortPriority)) → pop s.queue ≡ o
          → (result : List String) × (drain events cache version adjacency (suc fuel) s done
              ≡ some result)
            × Final events version result
      go later none run = (done, ground arith, last-Final s done r run)
      go later (some (top, rest)) run =
          let (s', relaxes, r', fewer) = next-Round s done top rest r run in
          let (result, drains, final) =
            later s' (done ++ top.event.event_id ∷ []) (omega (arith, fewer)) r' in
          (result, ground (arith, run, relaxes, drains), final)
