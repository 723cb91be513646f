-- ===== src/Resolve/Iterative/Promise.antt =====
-- What a resolution promises: the run behind it, and where its values come from
-- (src/resolve/iterative.rs, `resolve_iterative_sort_with_all_caches`).
use rezzy.Basespec.Version.{is_v2_1_plus}
use rezzy.Prelude.{
  Bool, true, false, none, [], arith, Bool-cases, inl, inr, ◌⊎◌, subst, refl, ℕ, ◌≡◌, String, true,
  false, Option, some, List, keys,
}
use rezzy.Basespec.Event.{LeanEvent, m_room_power_levels}
use rezzy.Sorting.Fallback.{sort}
use rezzy.Sorting.Mainline.{mainline_sort}
use rezzy.Sorting.BuildMainline.{build_mainline_with_cache}
use rezzy.Sorting.BuildMainline.Chain.{IsParentCache}
use rezzy.Resolve.State.{get, SharedState}
use rezzy.Resolve.LocalAuth.Context.{CacheOf}
use rezzy.Resolve.Power.{Split, execute_power_phase}
use rezzy.Resolve.Iterative.{IterativeInputs, sort_context, events_by, get_either}
use rezzy.Resolve.Iterative.Resolver.{ResolveCaches, Resolution, screened}
use rezzy.Resolve.Iterative.Run.{IsStart, IsMerged, AreSteps}
use rezzy.Resolve.Iterative.Accepted.{IsAccepted, AreSteps-source}
use rezzy.Resolve.Iterative.Inputs.{IsInput}

-- The run behind a resolution. The power events are checked in the order of Kahn's sort, from the
-- first state on. With the unconflicted power events behind it, the others follow, in the order of the
-- mainline sort, by the mainline of the power levels so far. A value of the result is the unconflicted
-- one, where there is one, and the last working state's elsewhere.
pub record IsRun (fuel : ℕ) (inputs : IterativeInputs) (caches : ResolveCaches)
    (create_ev : Option LeanEvent) (r : Resolution) : Type 0 where
  pub split : Split
  pub ids : List String
  pub first : SharedState
  pub worked : SharedState
  pub between : SharedState
  pub mainline : List String
  pub order : List LeanEvent
  pub final : SharedState
  pub starts_at : IsStart inputs first
  pub splits :
      execute_power_phase fuel inputs.conflicted_events inputs.auth_context
        (keys inputs.conflicted_events)
        inputs.version
      ≡ some split
  pub sorts : sort split.power (sort_context inputs) create_ev inputs.version ≡ some ids
  pub power_checks :
      AreSteps inputs caches.conflicted_keys create_ev true
        (events_by (sort_context inputs) ids)
        first
        worked
  pub merges_to : IsMerged inputs worked between
  pub builds :
      build_mainline_with_cache fuel
        (get m_room_power_levels "" between)
        (sort_context inputs)
        caches.mainline_cache
        inputs.version
      ≡ some (mainline, r.mainline_cache)
  pub orders :
      mainline_sort fuel
        (screened inputs split.non_power between)
        mainline
        (sort_context inputs)
        inputs.version
      ≡ some order
  pub checks : AreSteps inputs caches.conflicted_keys create_ev false order between final
  pub result : (t k : String) → get t k r.state ≡ get_either t k inputs.unconflicted_state final

module _ (fuel : ℕ) (inputs : IterativeInputs) (caches : ResolveCaches)
    (create_ev : Option LeanEvent) (r : Resolution)
    (run : IsRun fuel inputs caches create_ev r) where
  -- The events of the power phase (`true`) and of the phase behind it, and where each starts.
  abbrev pub phase_events : Bool → List LeanEvent
  phase_events true = events_by (sort_context inputs) run.ids
  phase_events false = run.order

  abbrev pub phase_start : Bool → SharedState
  phase_start true = run.first
  phase_start false = run.between

  -- An event of one of the phases of the run decided the value.
  pub record IsDecidedBy (t k id : String) : Type 0 where
    pub is_power : Bool
    pub by :
        IsAccepted inputs caches.conflicted_keys create_ev is_power
          (phase_events is_power)
          (phase_start is_power)
          t
          k
          id

  abbrev pub Source : String → String → String → Type 0
  Source t k id = (get t k inputs.unconflicted_state ≡ some id) ⊎ IsDecidedBy t k id

  first-Source : (t k id : String) → get t k run.first ≡ some id → Source t k id
  unfolding get
  first-Source t k id h = elim (Bool-cases (is_v2_1_plus inputs.version)) [
    | inl fresh ↦
        let empty : run.first ≡ [] = ground (arith, run.starts_at, fresh) in
        absurd (ground (arith, subst (λ m. get t k m ≡ some id) empty h))
    | inr older ↦
        let same : run.first ≡ inputs.unconflicted_state = ground (arith, run.starts_at, older) in
        inl (subst (λ m. get t k m ≡ some id) same h)
  ]

  between-cases :
      (t k id : String)
      → get t k run.between ≡ some id
      → (get t k inputs.unconflicted_state ≡ some id) ⊎ (get t k run.worked ≡ some id)
  between-cases t k id h = go (get t k run.worked) refl
    where
      go :
          (o : Option String)
          → get t k run.worked ≡ o
          → (get t k inputs.unconflicted_state ≡ some id) ⊎ (get t k run.worked ≡ some id)
      go none e = inl (ground (arith, e, h, run.merges_to t k))
      go (some v) e = inr (ground (arith, e, h, run.merges_to t k))

  pub IsRun-Source : (t k id : String) → get t k r.state ≡ some id → Source t k id
  IsRun-Source t k id h = go (get t k inputs.unconflicted_state) refl
    where
      power : get t k run.worked ≡ some id → Source t k id
      power g =
          elim (AreSteps-source inputs caches.conflicted_keys create_ev true (phase_events true)
            run.first run.worked run.power_checks t k id g) [
              | inl old ↦ first-Source t k id old
              | inr a ↦ inr (record { is_power = true; by = a })
            ]

      others : get t k run.final ≡ some id → Source t k id
      others g =
          elim (AreSteps-source inputs caches.conflicted_keys create_ev false run.order run.between
            run.final run.checks t k id g) [
              | inr a ↦ inr (record { is_power = false; by = a })
              | inl old ↦ elim (between-cases t k id old) [
                | inl agreed ↦ inl agreed
                | inr worked ↦ power worked
              ]
            ]

      go : (o : Option String) → get t k inputs.unconflicted_state ≡ o → Source t k id
      go none e = others (ground (arith, e, h, run.result t k))
      go (some v) e = inl (ground (arith, e, h, run.result t k))

-- What a resolution promises. There is a run behind it. An agreed value stays, and a value of another
-- key was decided in the run. The caches hold events that their owners cite, and the parents that a
-- search finds.
pub record IsResolution (fuel : ℕ) (inputs : IterativeInputs) (caches : ResolveCaches)
    (create_ev : Option LeanEvent) (r : Resolution) : Type 0 where
  pub run : IsRun fuel inputs caches create_ev r
  pub agreed :
      (t k id : String) → get t k inputs.unconflicted_state ≡ some id → get t k r.state ≡ some id
  pub sourced :
      (t k id : String)
      → get t k r.state ≡ some id
      → Source fuel inputs caches create_ev r run t k id
  pub local_cache : CacheOf (IsInput inputs) r.local_auth_cache
  pub parents : IsParentCache (sort_context inputs) inputs.version fuel r.mainline_cache
