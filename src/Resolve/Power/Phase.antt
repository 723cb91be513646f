-- ===== src/Resolve/Power/Phase.antt =====
-- The power phase as a whole (src/resolve/iterative.rs, `execute_power_phase`).
use rezzy.Prelude.{
  ◌≡◌, refl, ap, String, true, not, ◌&&◌, ◌||◌, Option, none, some, [], ◌∷◌, arith, eq_iff, ◌==◌,
  is_some, is_some_and, lookup, put, lookup-put, Distinct, lookup-All, Bool-cases, inl, inr, ◌⊎◌,
  ◌↔◌,
}
use rezzy.Basespec.Version.{StateResVersion}
use rezzy.Basespec.Event.{LeanEvent}
use rezzy.Resolve.State.{EventMap}
use rezzy.Resolve.Power.{
  is_power_event, Split, route_power_events, expand_v2_power_events_auth_chains,
}
use rezzy.Resolve.Power.Routing.{Listed, IsSplit, route-IsSplit, lookup-cons}
use rezzy.Resolve.Power.Closure.{Ancestral, IsExpanding, expand-IsExpanding, Ancestral-power}

abbrev pub routed : EventMap → StateResVersion → Split
routed conflicted_events version =
    route_power_events conflicted_events version (record { power = []; non_power = [] })

-- The id of a power event among the conflicted events.
abbrev pub IsRoot : EventMap → StateResVersion → String → Type 0
IsRoot conflicted_events version k =
    is_some_and (lookup k conflicted_events) (λ ev. is_power_event ev version) ≡ true

Listed-self : (m : EventMap) → Distinct m → Listed m m
Listed-self m d = go m m d (λ k e h. h)
  where
    go :
        (all m : EventMap)
        → Distinct m
        → ((k : String) (e : LeanEvent) → lookup k m ≡ some e → lookup k all ≡ some e)
        → Listed all m
    go all [] d sub = tt
    go all ((name, ev) ∷ rest) d sub = (
      sub name ev (ground (arith, lookup-cons name name ev rest, eq_iff name name)),
      go all rest d.1 (λ k e h. sub k e (elim (Bool-cases (name == k)) [
        | inl same ↦
            absurd (ground (arith, h, d.0, ap (λ x. lookup x rest) ((eq_iff name k).0 same)))
        | inr other ↦ ground (arith, h, other, lookup-cons k name ev rest)
      ])),
    )

route-power :
    (version : StateResVersion) (m : EventMap) (s : Split) (k : String)
    → Distinct m
    → is_some (lookup k (route_power_events m version s).power)
      ≡ (is_some (lookup k s.power) || is_some_and (lookup k m) (λ ev. is_power_event ev version))
unfolding route_power_events lookup
route-power version [] s k d = ground arith
route-power version ((id, ev) ∷ rest) s k d = elim (Bool-cases (is_power_event ev version)) [
  | inl here ↦
      let later = route-power version rest (record s { power = put id ev s.power }) k d.1 in
      ground (arith, here, later, lookup-put id k ev s.power, absent)
  | inr apart ↦
      let later = route-power version rest (record s { non_power = put id ev s.non_power }) k d.1 in
      ground (arith, apart, later, absent)
]
  where
    absent : (id == k) ≡ true → lookup k rest ≡ none
    absent same = ground (arith, d.0, ap (λ x. lookup x rest) ((eq_iff id k).0 same))

empty-IsSplit : (m : EventMap) → Distinct m → IsSplit m m (record { power = []; non_power = [] })
unfolding lookup
empty-IsSplit m d = record {
  power = tt;
  non_power = tt;
  distinct = tt;
  distinct_rest = tt;
  apart = λ k. refl;
  covered = λ k h. h;
  untouched = λ k h. refl;
}

module _ (conflicted_events : EventMap) (version : StateResVersion)
    (distinct : Distinct conflicted_events) where
  pub routed-IsSplit : IsSplit conflicted_events [] (routed conflicted_events version)
  routed-IsSplit =
      route-IsSplit conflicted_events version conflicted_events _
        (Listed-self conflicted_events distinct) distinct (empty-IsSplit conflicted_events distinct)

  routed-IsRoot :
      (k : String)
      → is_some (lookup k (routed conflicted_events version).power)
        ≡ is_some_and (lookup k conflicted_events) (λ ev. is_power_event ev version)
  unfolding lookup
  routed-IsRoot k =
      route-power version conflicted_events (record { power = []; non_power = [] }) k distinct

  pub expanded :
      (s : Split) × (expand_v2_power_events_auth_chains conflicted_events
          (routed conflicted_events version)
        ≡ some s)
      × IsExpanding conflicted_events (IsRoot conflicted_events version) [] s
  expanded =
      expand-IsExpanding conflicted_events (IsRoot conflicted_events version)
        (routed conflicted_events version) routed-IsSplit
        (λ k. (λ h. ground (arith, h, routed-IsRoot k), λ h. ground (arith, h, routed-IsRoot k)))

  rest_of :
      (s : Split)
      → IsSplit conflicted_events [] s
      → (k : String) (o : Option LeanEvent) → lookup k s.non_power ≡ o
      → is_some (lookup k s.non_power)
        ≡ (is_some (lookup k conflicted_events) && not (is_some (lookup k s.power)))
  unfolding lookup
  rest_of s split k none h = ground (arith, h, split.covered k)
  rest_of s split k (some e) h =
      ground (arith, h, split.apart k, lookup-All _ k e s.non_power h split.non_power)

  -- For distinct conflicted ids, the expansion of the routed events ends within its fuel. The power
  -- events are then exactly the conflicted events that a power event reaches by citations among
  -- them, the other conflicted ids are exactly those of the non-power events, and each entry of the
  -- two maps is one of the conflicted events.
  pub expand_v2_power_events_auth_chains-Ancestral :
      (s : Split) × (expand_v2_power_events_auth_chains conflicted_events
          (routed conflicted_events version)
        ≡ some s)
      × ((k : String)
          → (is_some (lookup k s.power) ≡ true)
            ↔ Ancestral (IsRoot conflicted_events version) conflicted_events k)
      × ((k : String)
          → is_some (lookup k s.non_power)
            ≡ (is_some (lookup k conflicted_events) && not (is_some (lookup k s.power))))
      × ((k : String) (e : LeanEvent)
          → (lookup k s.power ≡ some e) ⊎ (lookup k s.non_power ≡ some e)
          → lookup k conflicted_events ≡ some e)
  unfolding lookup
  expand_v2_power_events_auth_chains-Ancestral =
      let (s, returns, inv) = expanded in
      (
        s,
        returns,
        λ k. (
          inv.ancestral k,
          Ancestral-power conflicted_events (IsRoot conflicted_events version) s inv k,
        ),
        λ k. rest_of s inv.split k (lookup k s.non_power) refl,
        λ k e h. elim h [
          | inl p ↦ lookup-All _ k e s.power p inv.split.power
          | inr n ↦ lookup-All _ k e s.non_power n inv.split.non_power
        ],
      )
