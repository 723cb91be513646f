-- ===== src/Resolve/Power/Expansion.antt =====
-- The expansion of the power events by what they cite (src/resolve/iterative.rs,
-- `expand_v2_power_events_auth_chains`).
use rezzy.Prelude.{
  ◌+◌, ◌≤◌, ◌≡◌, refl, ap, String, true, false, ◌||◌, Option, none, some, List, [], ◌∷◌, arith,
  eq_iff, ◌==◌, if◌then◌else◌, is_some, length, contains, contains-append, lookup, put, lookup-put,
  put-Distinct, Distinct, keys, put-All, lookup-All, unpaid, unpaid-visit, Bool-cases, inl, inr,
  length-append,
}
use rezzy.Basespec.Event.{LeanEvent}
use rezzy.Resolve.State.{EventMap}
use rezzy.Resolve.Power.{Split, remove, expand_one, expand_cited}
use rezzy.Resolve.Power.Routing.{
  contains-keys, Listed, remove-All, lookup-remove, remove-Distinct, IsSplit,
}

module _ (sort_set : EventMap) where
  nothing : (k : String) → is_some (lookup {Value = LeanEvent} k []) ≡ false
  unfolding lookup
  nothing k = refl

  -- What the events that are cited come to.
  pub record Expands (aids : List String) (s s' : Split) (pushed : List String) : Type 0 where
    pub inv : IsSplit sort_set [] s'
    pub grows :
        (k : String)
        → is_some (lookup k s'.power) ≡ (is_some (lookup k s.power) || contains pushed k)
    pub covers :
        (k : String)
        → contains aids k ≡ true
        → is_some (lookup k sort_set) ≡ true
        → is_some (lookup k s'.power) ≡ true
    pub paid :
        unpaid (λ k. 1) (keys s'.power) (keys sort_set) + length pushed
        ≤ unpaid (λ k. 1) (keys s.power) (keys sort_set)
    pub only :
        (k : String)
        → contains pushed k ≡ true
        → (contains aids k ≡ true) × (is_some (lookup k sort_set) ≡ true)

  -- An event that becomes a power event.
  promote :
      (aid : String) (ev : LeanEvent) (s : Split) (non_power : EventMap)
      → lookup aid sort_set ≡ some ev
      → is_some (lookup aid s.power) ≡ false
      → IsSplit sort_set [] s
      → Listed sort_set non_power
      → Distinct non_power
      → ((k : String)
          → is_some (lookup k non_power)
            ≡ (if aid == k then false else is_some (lookup k s.non_power)))
      → Expands
          (aid ∷ [])
          s
          (record { power = put aid ev s.power; non_power = non_power })
          (aid ∷ [])
  unfolding lookup
  promote aid ev s non_power h fresh inv rest distinct_rest without = record {
    inv = record {
      power = put-All _ aid ev s.power h inv.power;
      non_power = rest;
      distinct = put-Distinct aid ev s.power inv.distinct;
      distinct_rest = distinct_rest;
      apart = λ k. ground (arith, without k, inv.apart k, lookup-put aid k ev s.power);
      covered = λ k l. ground (arith, without k, inv.covered k l, lookup-put aid k ev s.power);
      untouched = λ k l. ground (arith, l);
    };
    grows = λ k. ground (arith, lookup-put aid k ev s.power, eq_iff aid k);
    covers = λ k c l. ground (arith, c, lookup-put aid k ev s.power, eq_iff aid k);
    paid =
        let once =
          unpaid-visit (λ k. 1) aid (keys s.power) (keys (put aid ev s.power))
            (λ k. ground (
              arith,
              contains-keys k s.power,
              contains-keys k (put aid ev s.power),
              lookup-put aid k ev s.power,
            ))
            (keys sort_set) (ground (arith, contains-keys aid sort_set, h))
            (ground (arith, contains-keys aid s.power, fresh)) in
        omega (arith, once);
    only = λ k c. (
      c,
      ground (arith, h, c, ap (λ x. lookup x sort_set) ((eq_iff aid k).0 (ground (arith, c)))),
    );
  }

  stay :
      (aids : List String) (s : Split)
      → IsSplit sort_set [] s
      → ((k : String)
          → contains aids k ≡ true
          → is_some (lookup k sort_set) ≡ true
          → is_some (lookup k s.power) ≡ true)
      → Expands aids s s []
  stay aids s inv covers = record {
    inv = inv;
    grows = λ k. ground arith;
    covers = covers;
    paid = omega arith;
    only = λ k c. absurd (ground (arith, c));
  }

  expand_one-Expands :
      (aid : String) (s : Split)
      → IsSplit sort_set [] s
      → Expands (aid ∷ []) s (expand_one sort_set aid s).0 (expand_one sort_set aid s).1
  unfolding expand_one
  expand_one-Expands aid s inv =
      go (lookup aid s.power) refl (lookup aid s.non_power) refl (lookup aid sort_set) refl
    where
      go :
          (p : Option LeanEvent)
          → lookup aid s.power ≡ p
          → (n : Option LeanEvent) → lookup aid s.non_power ≡ n
          → (l : Option LeanEvent) → lookup aid sort_set ≡ l
          → (let r : Split × List String = if is_some p then (s, []) else (elim n [
            | some owned ↦ (
              record { power = put aid owned s.power; non_power = remove aid s.non_power },
              aid ∷ [],
            )
            | none ↦ elim l [
              | some aev ↦ (record s { power = put aid aev s.power }, aid ∷ [])
              | none ↦ (s, [])
            ]
          ]) in
              Expands (aid ∷ []) s r.0 r.1)
      go (some ev) hp n hn l hl = stay (aid ∷ []) s inv (λ k c l. ground (
        arith,
        c,
        hp,
        eq_iff aid k,
        ap (λ x. lookup x s.power) ((eq_iff aid k).0 (ground (arith, c))),
      ))
      go none hp (some owned) hn l hl =
          promote aid owned s (remove aid s.non_power)
            (lookup-All _ aid owned s.non_power hn inv.non_power) (ground (arith, hp)) inv
            (remove-All _ aid s.non_power inv.non_power)
            (remove-Distinct aid s.non_power inv.distinct_rest)
            (λ k. lookup-remove aid k s.non_power inv.distinct_rest)
      go none hp none hn (some aev) hl =
          absurd (ground (arith, hp, hn, hl, inv.covered aid (ground (arith, hl)), nothing aid))
      go none hp none hn none hl = stay (aid ∷ []) s inv (λ k c l.
          ground
            (arith, c, l, hl, ap (λ x. lookup x sort_set) ((eq_iff aid k).0 (ground (arith, c)))))

  pub expand_cited-Expands :
      (aids : List String) (s : Split)
      → IsSplit sort_set [] s
      → Expands aids s (expand_cited sort_set aids s).0 (expand_cited sort_set aids s).1
  unfolding expand_cited
  expand_cited-Expands [] s inv = stay [] s inv (λ k c l. absurd (ground (arith, c)))
  expand_cited-Expands (aid ∷ rest) s inv =
      let one = expand_one-Expands aid s inv in
      let s' = (expand_one sort_set aid s).0 in
      let pushed = (expand_one sort_set aid s).1 in
      let later = expand_cited-Expands rest s' one.inv in
      let more = (expand_cited sort_set rest s').1 in
      record {
        inv = later.inv;
        grows = λ k. ground (arith, one.grows k, later.grows k, contains-append k pushed more);
        covers = λ k c l. elim (Bool-cases (aid == k)) [
          | inl here ↦ ground (arith, later.grows k, one.covers k (ground (arith, here)) l)
          | inr apart ↦ later.covers k (ground (arith, apart, c)) l
        ];
        paid = omega (arith, one.paid, later.paid, length-append pushed more);
        only = λ k c.
            let split = contains-append k pushed more in
            elim (Bool-cases (contains pushed k)) [
              | inl early ↦ let (named, l) = one.only k early in (ground (arith, named), l)
              | inr not_early ↦
                  let (named, l) = later.only k (ground (arith, c, split, not_early)) in
                  (ground (arith, named), l)
            ];
      }
