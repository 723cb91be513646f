-- ===== src/Resolve/Power/Ancestry.antt =====
-- The supplemental power events, and what the power phase returns (src/resolve/iterative.rs,
-- `route_msc4297_ancestral_power_events` and `execute_power_phase`).
use rezzy.Prelude.{
  ℕ, ◌+◌, ◌<◌, ◌≡◌, refl, String, Bool, true, false, Option, none, some, List, [], ◌∷◌, arith,
  if◌then◌else◌, length, contains, lookup, put, put-Distinct, Distinct, keys, All, put-All, All-map,
  push, Keeps, run_queue-returns, unpaid, unpaid-le, unpaid-visit, Bool-cases, inl, inr,
}
use rezzy.Basespec.Version.{StateResVersion}
use rezzy.Basespec.Event.{LeanEvent}
use rezzy.Sorting.Kahn.Invariant.{IsKeyed}
use rezzy.Resolve.State.{EventMap, set_insert, contains-set_insert}
use rezzy.Resolve.Power.{
  is_v1, Split, expand_v2_power_events_auth_chains, all_cited, ancestry_round, is_supplemental,
  supplement, is_msc4297, route_msc4297_ancestral_power_events, execute_power_phase,
}
use rezzy.Resolve.Power.Routing.{contains-keys, Listed, IsSplit}
use rezzy.Resolve.Power.Phase.{routed, routed-IsSplit, expanded}

-- The key of each entry is the id of its event.
abbrev pub Keyed : EventMap → Type 0
Keyed = All (λ x. x.1.event_id ≡ x.0)

supplement-Keyed :
    (version : StateResVersion) (auth_context : EventMap) (original ids : List String)
    (power : EventMap)
    → IsKeyed auth_context
    → Keyed power × Distinct power
    → Keyed (supplement version auth_context original ids power)
      × Distinct (supplement version auth_context original ids power)
unfolding supplement
supplement-Keyed version auth_context original [] power keyed inv = inv
supplement-Keyed version auth_context original (id ∷ rest) power keyed inv =
    supplement-Keyed version auth_context original rest _ keyed
      (go (contains original id) (lookup id auth_context) refl)
  where
    go :
        (b : Bool) (o : Option LeanEvent)
        → lookup id auth_context ≡ o
        → (let power' : EventMap = if b then power else (elim o [
          | none ↦ power
          | some ev ↦ if is_supplemental version ev then put id ev power else power
        ]) in
            Keyed power' × Distinct power')
    go true o h = inv
    go false none h = inv
    go false (some ev) h = elim (Bool-cases (is_supplemental version ev)) [
      | inl here ↦
          rw here (put-All _ id ev power (keyed id ev h) inv.0, put-Distinct id ev power inv.1)
      | inr apart ↦ rw apart inv
    ]

module _ (auth_context : EventMap) where
  abbrev pub citations : String → ℕ
  citations id = elim (lookup id auth_context) [ none ↦ 0 | some ev ↦ length ev.auth_events ]

  ancestry_round-Keeps :
      (aid : String) (ancestry : List String)
      → Unit {0}
      → Keeps
          (ancestry_round auth_context)
          (λ _. Unit {0})
          (λ ancestry. unpaid citations ancestry (keys auth_context))
          ancestry
          (ancestry_round auth_context aid ancestry)
  unfolding ancestry_round
  ancestry_round-Keeps aid ancestry p = elim (Bool-cases (contains ancestry aid)) [
    | inl old ↦ rw old (tt, omega arith)
    | inr fresh ↦ rw fresh (go fresh (lookup aid auth_context) refl)
  ]
    where
      go :
          contains ancestry aid ≡ false
          → (o : Option LeanEvent) → lookup aid auth_context ≡ o
          → Keeps
              (ancestry_round auth_context)
              (λ _. Unit {0})
              (λ ancestry. unpaid citations ancestry (keys auth_context))
              ancestry
              (elim o [
                | none ↦ push [] (set_insert aid ancestry)
                | some aev ↦ push aev.auth_events (set_insert aid ancestry)
              ])
      go fresh none h = (
        tt,
        omega (
          arith,
          unpaid-le citations aid ancestry (set_insert aid ancestry)
              (contains-set_insert aid ancestry) (keys auth_context),
        ),
      )
      go fresh (some aev) h =
          let paid =
            unpaid-visit citations aid ancestry (set_insert aid ancestry)
              (contains-set_insert aid ancestry) (keys auth_context)
              (ground (arith, contains-keys aid auth_context, h)) fresh in
          (tt, ground (arith, h, paid))

  route_msc4297-Keyed :
      (fuel : ℕ) (original : List String) (version : StateResVersion) (power : EventMap)
      → IsKeyed auth_context
      → unpaid citations [] (keys auth_context) < fuel
      → Keyed power × Distinct power
      → (power' : EventMap) × (route_msc4297_ancestral_power_events fuel auth_context original
            version power
          ≡ some power')
        × Keyed power'
        × Distinct power'
  unfolding route_msc4297_ancestral_power_events
  route_msc4297-Keyed fuel original version power keyed enough inv =
      let (ancestry, runs, _) =
        run_queue-returns (ancestry_round auth_context) (λ _. Unit {0})
          (λ ancestry. unpaid citations ancestry (keys auth_context)) ancestry_round-Keeps
          (length (all_cited power) + fuel) (all_cited power) [] (omega (arith, enough)) tt in
      elim (Bool-cases (is_msc4297 version)) [
        | inl here ↦ (
          supplement version auth_context original ancestry power,
          ground (arith, here, runs),
          (supplement-Keyed version auth_context original ancestry power keyed inv).0,
          (supplement-Keyed version auth_context original ancestry power keyed inv).1,
        )
        | inr apart ↦ (power, ground (arith, apart), inv.0, inv.1)
      ]

-- What the phase promises: the power events under their ids, each id once, and the others as they
-- stand among the conflicted events.
pub record IsPhase (conflicted_events : EventMap) (s : Split) : Type 0 where
  pub keyed : Keyed s.power
  pub distinct : Distinct s.power
  pub non_power : Listed conflicted_events s.non_power

module _ (fuel : ℕ) (conflicted_events auth_context : EventMap) (original : List String)
    (version : StateResVersion) (distinct : Distinct conflicted_events)
    (keyed : IsKeyed conflicted_events) where
  powers :
      (s : Split) × ((if is_v1 version
          then some (routed conflicted_events version)
          else expand_v2_power_events_auth_chains conflicted_events
              (routed conflicted_events version))
        ≡ some s)
      × IsSplit conflicted_events [] s
  powers =
      let (s, returns, inv) = expanded conflicted_events version distinct in
      elim (Bool-cases (is_v1 version)) [
        | inl here ↦ (
          routed conflicted_events version,
          ground (arith, here),
          routed-IsSplit conflicted_events version distinct,
        )
        | inr apart ↦ (s, ground (arith, apart, returns), inv.split)
      ]

  pub execute_power_phase-IsPhase :
      IsKeyed auth_context
      → unpaid (citations auth_context) [] (keys auth_context) < fuel
      → (s : Split) × (execute_power_phase fuel conflicted_events auth_context original version
          ≡ some s)
        × IsPhase conflicted_events s
  unfolding execute_power_phase
  execute_power_phase-IsPhase auth_keyed enough =
      let (s, returns, split) = powers in
      let (power', routes, keys_kept, once) =
        route_msc4297-Keyed auth_context fuel original version s.power auth_keyed enough
          (All-map _ _ (λ x h. keyed x.0 x.1 h) s.power split.power, split.distinct) in
      (
        record { power = power'; non_power = s.non_power },
        ground (arith, returns, routes),
        record { keyed = keys_kept; distinct = once; non_power = split.non_power },
      )
