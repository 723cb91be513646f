-- ===== src/Resolve/Power/Routing.antt =====
-- The split into power events and other events (src/resolve/semilattice.rs, `route_power_events`).
use rezzy.Prelude.{
  ◌≡◌, refl, ap, String, true, false, ◌&&◌, ◌||◌, some, [], ◌∷◌, arith, eq_iff, ◌==◌, if◌then◌else◌,
  is_some, length, contains, lookup, lookup-put, put-Distinct, Distinct, keys, All, put-All,
  Bool-cases, inl, inr,
}
use rezzy.Basespec.Version.{StateResVersion}
use rezzy.Basespec.Event.{LeanEvent}
use rezzy.Resolve.State.{EventMap}
use rezzy.Resolve.Power.{is_power_event, Split, route_power_events, remove}

pub contains-keys : (k : String) (m : EventMap) → contains (keys m) k ≡ is_some (lookup k m)
unfolding lookup
contains-keys k [] = refl
contains-keys k ((name, ev) ∷ rest) = ground (arith, contains-keys k rest)

pub length-keys : (m : EventMap) → length (keys m) ≡ length m
length-keys [] = refl
length-keys ((name, ev) ∷ rest) = ground (arith, length-keys rest)

-- An entry is one of the map that is routed.
abbrev pub Listed : EventMap → EventMap → Type 0
Listed sort_set = All (λ x. lookup x.0 sort_set ≡ some x.1)

module _ (P : String × LeanEvent → Type 0) where
  pub remove-All : (id : String) (m : EventMap) → All P m → All P (remove id m)
  unfolding remove
  remove-All id [] ps = tt
  remove-All id ((name, old) ∷ rest) ps = elim (Bool-cases (name == id)) [
    | inl here ↦ rw here ps.1
    | inr apart ↦ rw apart (ps.0, remove-All id rest ps.1)
  ]

module _ (id : String) where
  pub lookup-remove :
      (k : String) (m : EventMap)
      → Distinct m
      → is_some (lookup k (remove id m)) ≡ (if id == k then false else is_some (lookup k m))
  unfolding lookup remove
  lookup-remove k [] d = ground arith
  lookup-remove k ((name, old) ∷ rest) d =
      ground (arith, lookup-remove k rest d.1, d.0, eq_iff name id, eq_iff id k, eq_iff name k)

  pub remove-Distinct : (m : EventMap) → Distinct m → Distinct (remove id m)
  unfolding lookup remove
  remove-Distinct [] d = tt
  remove-Distinct ((name, old) ∷ rest) d = elim (Bool-cases (name == id)) [
    | inl here ↦ rw here d.1
    | inr apart ↦
        rw apart (
          ground (arith, d.0, lookup-remove name rest d.1, eq_iff id name),
          remove-Distinct rest d.1,
        )
  ]

-- Both maps hold entries of the one that is routed, each id once and in one of them, but those
-- still to be routed.
pub record IsSplit (sort_set todo : EventMap) (s : Split) : Type 0 where
  pub power : Listed sort_set s.power
  pub non_power : Listed sort_set s.non_power
  pub distinct : Distinct s.power
  pub distinct_rest : Distinct s.non_power
  pub apart : (k : String) → (is_some (lookup k s.power) && is_some (lookup k s.non_power)) ≡ false
  pub covered :
      (k : String)
      → is_some (lookup k sort_set) ≡ true
      → (is_some (lookup k s.power) || is_some (lookup k s.non_power) || is_some (lookup k todo))
        ≡ true
  pub untouched :
      (k : String)
      → is_some (lookup k todo) ≡ true
      → (is_some (lookup k s.power) || is_some (lookup k s.non_power)) ≡ false

pub lookup-cons :
    (k id : String) (ev : LeanEvent) (rest : EventMap)
    → lookup k ((id, ev) ∷ rest) ≡ (if id == k then some ev else lookup k rest)
unfolding lookup
lookup-cons k id ev rest = refl

module _ (sort_set : EventMap) where
  pub route-IsSplit :
      (version : StateResVersion) (m : EventMap) (s : Split)
      → Listed sort_set m
      → Distinct m
      → IsSplit sort_set m s
      → IsSplit sort_set [] (route_power_events m version s)
  unfolding route_power_events
  route-IsSplit version [] s l d inv = inv
  route-IsSplit version ((id, ev) ∷ rest) s l d inv =
      route-IsSplit version rest _ l.1 d.1 (elim (Bool-cases (is_power_event ev version)) [
        | inl here ↦ rw here (record {
          power = put-All _ id ev s.power l.0 inv.power;
          non_power = inv.non_power;
          distinct = put-Distinct id ev s.power inv.distinct;
          distinct_rest = inv.distinct_rest;
          apart =
              λ k. ground (arith, inv.apart k, inv.untouched k, step k, lookup-put id k ev s.power);
          covered = λ k h. ground (arith, inv.covered k h, step k, lookup-put id k ev s.power);
          untouched = λ k h.
              ground (arith, inv.untouched k, step k, fresh k h, h, lookup-put id k ev s.power);
        })
        | inr apart ↦ rw apart (record {
          power = inv.power;
          non_power = put-All _ id ev s.non_power l.0 inv.non_power;
          distinct = inv.distinct;
          distinct_rest = put-Distinct id ev s.non_power inv.distinct_rest;
          apart = λ k.
              ground (arith, inv.apart k, inv.untouched k, step k, lookup-put id k ev s.non_power);
          covered = λ k h. ground (arith, inv.covered k h, step k, lookup-put id k ev s.non_power);
          untouched = λ k h.
              ground (arith, inv.untouched k, step k, fresh k h, h, lookup-put id k ev s.non_power);
        })
      ])
    where
      step :
          (k : String) → lookup k ((id, ev) ∷ rest) ≡ (if id == k then some ev else lookup k rest)
      step k = lookup-cons k id ev rest

      fresh : (k : String) → is_some (lookup k rest) ≡ true → (id == k) ≡ false
      fresh k h = elim (Bool-cases (id == k)) [
        | inl same ↦ absurd (ground (arith, d.0, h, ap (λ x. lookup x rest) ((eq_iff id k).0 same)))
        | inr other ↦ other
      ]
