-- ===== src/Resolve/Iterative/Steps.antt =====
-- The loops of the iterative checks take the steps of a run (src/resolve/iterative.rs,
-- `run_power_phase_iterative_checks` and the loop of the resolver).
use mathlib.Core.Path.{ap₂}
use mathlib.Core.List.{Memᴰ}
use rezzy.Prelude.{
  ℕ, ◌≡◌, refl, sym, ap, subst, ◌∙◌, String, Bool, true, false, ◌&&◌, Option, none, some, List, [],
  ◌∷◌, arith, ◌==◌, eq_iff, if◌then◌else◌, All, &&-both, Bool-cases, inl, inr, ◌⊎◌, and_then-some,
}
use rezzy.Basespec.Version.{StateResVersion, v1, v2, v2_1, v2_1_1, v2_2, v3}
use rezzy.Basespec.Event.{LeanEvent}
use rezzy.Resolve.State.{Key, get, insert, get-insert, SharedState, get_or_else}
use rezzy.Resolve.LocalAuth.{Cache, compute_local_auth}
use rezzy.Resolve.LocalAuth.Context.{IsContext, CacheOf, compute_local_auth-CacheOf}
use rezzy.Resolve.Overlay.{iterative_auth_ok}
use rezzy.Resolve.Power.{is_v1}
use rezzy.Resolve.Iterative.{
  IterativeInputs, Resolving, contains_key, decides_key, event_auth_ok, decide, checked,
  check_event, check_events,
}
use rezzy.Resolve.Iterative.Inputs.{IsInput}
use rezzy.Resolve.Iterative.View.{iterative_auth_ok-IsJudged}
use rezzy.Resolve.Iterative.Run.{MayDecide, IsDecided, IsStep, AreSteps}

contains_key-Memᴰ :
    (t k : String) (conflicted_keys : List Key)
    → contains_key t k conflicted_keys ≡ true
    → Memᴰ (t, k) conflicted_keys
contains_key-Memᴰ t k [] h = absurd (ground (arith, h))
contains_key-Memᴰ t k ((t', k') ∷ rest) h = elim (Bool-cases (t' == t && k' == k)) [
  | inl same ↦
      let (ht, hk) = &&-both (t' == t) (k' == k) same in
      Memᴰ.head (ap₂ (λ a b. (a, b)) (sym ((eq_iff t' t).0 ht)) (sym ((eq_iff k' k).0 hk)))
  | inr apart ↦ Memᴰ.tail (contains_key-Memᴰ t k rest (ground (arith, apart, h)))
]

Memᴰ-contains_key :
    (t k : String) (conflicted_keys : List Key)
    → Memᴰ (t, k) conflicted_keys
    → contains_key t k conflicted_keys ≡ true
Memᴰ-contains_key t k [] m = elim m [ ]
Memᴰ-contains_key t k ((t', k') ∷ rest) (Memᴰ.head same) =
    ground (
      arith,
      (eq_iff t' t).1 (sym (ap (λ x. x.0) same)),
      (eq_iff k' k).1 (sym (ap (λ x. x.1) same)),
    )
Memᴰ-contains_key t k ((t', k') ∷ rest) (Memᴰ.tail m) = ground (arith, Memᴰ-contains_key t k rest m)

decides_key-MayDecide :
    (version : StateResVersion) (conflicted_keys : List Key) (t k : String)
    → decides_key version conflicted_keys t k ≡ true
    → MayDecide version conflicted_keys t k
unfolding decides_key
decides_key-MayDecide version conflicted_keys t k h legacy =
    contains_key-Memᴰ t k conflicted_keys (ground (arith, h, ap is_v1 legacy))

MayDecide-decides_key :
    (version : StateResVersion) (conflicted_keys : List Key) (t k : String)
    → MayDecide version conflicted_keys t k
    → decides_key version conflicted_keys t k ≡ true
unfolding decides_key
MayDecide-decides_key v1 conflicted_keys t k may =
    ground (arith, Memᴰ-contains_key t k conflicted_keys (may refl))
MayDecide-decides_key v2 conflicted_keys t k may = refl
MayDecide-decides_key v2_1 conflicted_keys t k may = refl
MayDecide-decides_key v2_1_1 conflicted_keys t k may = refl
MayDecide-decides_key v2_2 conflicted_keys t k may = refl
MayDecide-decides_key v3 conflicted_keys t k may = refl

decide-keeps :
    (version : StateResVersion) (conflicted_keys : List Key) (event : LeanEvent)
    (resolved : SharedState) (t k : String)
    → (get t k (decide version conflicted_keys event resolved) ≡ get t k resolved)
      ⊎ ((event.event_type ≡ t)
          × (event.state_key ≡ some k)
          × (decides_key version conflicted_keys t k ≡ true))
unfolding decide
decide-keeps version conflicted_keys event resolved t k = go event.state_key refl
  where
    go :
        (o : Option String)
        → event.state_key ≡ o
        → (get t k (elim o [
          | none ↦ resolved
          | some sk ↦
              if decides_key version conflicted_keys event.event_type sk
              then insert (event.event_type, sk) event.event_id resolved
              else resolved
        ])
            ≡ get t k resolved)
          ⊎ ((event.event_type ≡ t)
              × (event.state_key ≡ some k)
              × (decides_key version conflicted_keys t k ≡ true))
    go none hk = inl refl
    go (some sk) hk = elim (Bool-cases (decides_key version conflicted_keys event.event_type sk)) [
      | inr barred ↦ inl (ground (arith, barred))
      | inl may ↦ elim (Bool-cases (event.event_type == t && sk == k)) [
        | inr apart ↦
            inl (
              ground
                (arith, may, apart, get-insert event.event_type sk t k event.event_id resolved))
        | inl here ↦
            let (ht, hs) = &&-both (event.event_type == t) (sk == k) here in
            let same_type = (eq_iff event.event_type t).0 ht in
            let same_key = (eq_iff sk k).0 hs in
            inr (same_type, hk ∙ ap some same_key, rw (sym same_type, sym same_key) may)
      ]
    ]

decide-IsDecided :
    (inputs : IterativeInputs) (conflicted_keys : List Key) (event : LeanEvent)
    (resolved : SharedState)
    → IsDecided inputs conflicted_keys event resolved
        (decide inputs.version conflicted_keys event resolved)
unfolding decide
decide-IsDecided inputs conflicted_keys event resolved = record {
  sets = λ k h may. ground (
    arith,
    h,
    MayDecide-decides_key inputs.version conflicted_keys event.event_type k may,
    get-insert event.event_type k event.event_type k event.event_id resolved,
    eq_iff event.event_type event.event_type,
    eq_iff k k,
  );
  keeps = λ t k. elim (decide-keeps inputs.version conflicted_keys event resolved t k) [
    | inl same ↦ inl same
    | inr (of_type, of_key, may) ↦
        inr (of_type, of_key, decides_key-MayDecide inputs.version conflicted_keys t k may)
  ];
}

module _ (fuel : ℕ) (inputs : IterativeInputs) (conflicted_keys : List Key)
    (create_ev : Option LeanEvent) (is_power : Bool)
    (from_input : (k : String) (ev : LeanEvent)
      → get_or_else inputs.auth_context inputs.conflicted_events k ≡ some ev
      → IsInput inputs ev × (ev.event_id ≡ k)) where
  checked-IsStep :
      (event : LeanEvent) (s : Resolving) (found : List (Key × LeanEvent) × Cache) (b : Bool)
      → iterative_auth_ok event s.resolved inputs.auth_context inputs.conflicted_events found.0
          create_ev inputs.version is_power
        ≡ b
      → All (λ x. IsContext (IsInput inputs) event.event_id x.0 x.1) found.0
      → IsStep inputs conflicted_keys create_ev is_power event s.resolved
          (if b then decide inputs.version conflicted_keys event s.resolved else s.resolved)
  checked-IsStep event s found true passes context = inl (
    iterative_auth_ok-IsJudged event s.resolved inputs found.0 create_ev is_power true context
        passes,
    decide-IsDecided inputs conflicted_keys event s.resolved,
  )
  checked-IsStep event s found false passes context = inr (
    iterative_auth_ok-IsJudged event s.resolved inputs found.0 create_ev is_power false context
        passes,
    refl,
  )

  check_event-IsStep :
      (event : LeanEvent) (s s' : Resolving)
      → IsInput inputs event
      → CacheOf (IsInput inputs) s.local_auth_cache
      → check_event fuel inputs conflicted_keys create_ev is_power event s ≡ some s'
      → IsStep inputs conflicted_keys create_ev is_power event s.resolved s'.resolved
        × CacheOf (IsInput inputs) s'.local_auth_cache
  unfolding check_event event_auth_ok
  check_event-IsStep event s s' p cached h =
      let (verdict, judged, same) =
        and_then-some
          (event_auth_ok fuel inputs create_ev event s.resolved s.local_auth_cache is_power)
          (λ verdict. some (checked inputs conflicted_keys event s verdict)) h in
      let (found, computed, outcome) =
        and_then-some
          (compute_local_auth fuel event inputs.auth_context inputs.conflicted_events
            s.local_auth_cache inputs.version)
          (λ found. some (
            iterative_auth_ok event s.resolved inputs.auth_context inputs.conflicted_events found.0
                create_ev inputs.version is_power,
            found.1,
          ))
          judged in
      let consulted =
        compute_local_auth-CacheOf (IsInput inputs) fuel event inputs.auth_context
          inputs.conflicted_events s.local_auth_cache inputs.version found from_input p cached
          computed in
      (
        subst (IsStep inputs conflicted_keys create_ev is_power event s.resolved)
            (ground (arith, outcome, same)) (checked-IsStep event s found _ refl consulted.0),
        subst (CacheOf (IsInput inputs)) (ground (arith, outcome, same)) consulted.1,
      )

  pub check_events-AreSteps :
      (events : List LeanEvent) (s s' : Resolving)
      → All (IsInput inputs) events
      → CacheOf (IsInput inputs) s.local_auth_cache
      → check_events fuel inputs conflicted_keys create_ev is_power events s ≡ some s'
      → AreSteps inputs conflicted_keys create_ev is_power events s.resolved s'.resolved
        × CacheOf (IsInput inputs) s'.local_auth_cache
  unfolding check_events
  check_events-AreSteps [] s s' ps cached h =
      (ground (arith, h), subst (CacheOf (IsInput inputs)) (ground (arith, h)) cached)
  check_events-AreSteps (event ∷ rest) s s' ps cached h =
      let (next, one, later) =
        and_then-some (check_event fuel inputs conflicted_keys create_ev is_power event s)
          (λ s'. check_events fuel inputs conflicted_keys create_ev is_power rest s') h in
      let (step, cached') = check_event-IsStep event s next ps.0 cached one in
      let (others, cached'') = check_events-AreSteps rest next s' ps.1 cached' later in
      ((next.resolved, ps.0, step, others), cached'')
