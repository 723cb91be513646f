-- ===== src/Sorting/Greedy.antt =====
-- The order that Kahn's sort returns, described without its loop: always the greatest event whose
-- cited events are sorted already (src/resolve/sorting.rs).
pub mod Queue
pub mod Run
pub mod Determinism
use Prim.Native.Nat.{Ordering}
use rezzy.Prelude.{
  ◌≡◌, ◌≢◌, refl, ap, sym, subst, String, Bool, true, false, Option, none, some, List, [], ◌∷◌,
  ◌++◌, arith, ◌==◌, eq_iff, flip, is_some, contains,
}
use rezzy.Basespec.Version.{StateResVersion}
use rezzy.Basespec.Event.{LeanEvent, EventProvider, dag_edges}
use rezzy.Sorting.Priority.{SortPriority, cmp, get_power_level_from_auth_chain}
use rezzy.Sorting.Order.{cmp-flip, cmp-same_id}

-- The priority of an event.
abbrev pub priority : EventProvider → Option LeanEvent → StateResVersion → LeanEvent → SortPriority
priority context create_ev version e = record {
  event = e;
  power_level = get_power_level_from_auth_chain e context create_ev version;
  version = version;
}

module _ (context : EventProvider) (create_ev : Option LeanEvent) (version : StateResVersion)
    (find : EventProvider) where
  -- The event of this id is to be sorted, and all that it cites among the events is sorted.
  pub record IsReady (done : List String) (id : String) (e : LeanEvent) : Type 0 where
    pub listed : find id ≡ some e
    pub fresh : contains done id ≡ false
    pub closed :
        (a : String)
        → contains (dag_edges e version) a ≡ true
        → is_some (find a) ≡ true
        → contains done a ≡ true

  -- It is greatest among those that are ready.
  pub record IsNext (done : List String) (id : String) : Type 0 where
    pub event : LeanEvent
    pub ready : IsReady done id event
    pub greatest :
        (k : String) (e : LeanEvent)
        → IsReady done k e
        → cmp (priority context create_ev version event) (priority context create_ev version e)
          ≢ Ordering.lt

  -- Each id is next behind those before it, and no event is ready behind the last.
  abbrev pub IsGreedy : List String → List String → Type 0
  IsGreedy done [] = (k : String) (e : LeanEvent) → IsReady done k e → ⊥
  IsGreedy done (id ∷ rest) = IsNext done id × IsGreedy (done ++ id ∷ []) rest

  module _ (keyed : (k : String) (e : LeanEvent) → find k ≡ some e → e.event_id ≡ k) where
    next_same : (done : List String) (x y : String) → IsNext done x → IsNext done y → x ≡ y
    next_same done x y n m =
        let px = priority context create_ev version n.event in
        let py = priority context create_ev version m.event in
        ground (
          arith,
          n.greatest y m.event m.ready,
          m.greatest x n.event n.ready,
          cmp-flip px py,
          cmp-same_id px py,
          keyed x n.event n.ready.listed,
          keyed y m.event m.ready.listed,
        )

    -- There is only one such order.
    pub IsGreedy-unique : (done xs ys : List String) → IsGreedy done xs → IsGreedy done ys → xs ≡ ys
    IsGreedy-unique done [] [] g h = refl
    IsGreedy-unique done [] (y ∷ ys) g h = absurd (g y h.0.event h.0.ready)
    IsGreedy-unique done (x ∷ xs) [] g h = absurd (h x g.0.event g.0.ready)
    IsGreedy-unique done (x ∷ xs) (y ∷ ys) g h =
        let same = next_same done x y g.0 h.0 in
        let later =
          IsGreedy-unique (done ++ x ∷ []) xs ys g.1
            (subst (λ z. IsGreedy (done ++ z ∷ []) ys) (sym same) h.1) in
        λ i. same i ∷ later i
