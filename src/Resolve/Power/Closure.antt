-- ===== src/Resolve/Power/Closure.antt =====
-- The expansion ends, with the power events and what they cite, directly or through each other
-- (src/resolve/iterative.rs, `expand_v2_power_events_auth_chains`).
use rezzy.Prelude.{
  suc, ◌+◌, ◌≡◌, refl, ap, String, true, false, Option, none, some, List, [], ◌∷◌, arith, eq_iff,
  ◌==◌, is_some, length, contains, contains-append, lookup, keys, push, run_queue-KeepsQueue,
  KeepsQueue, unpaid, unpaid-size, Bool-cases, inl, inr, ◌↔◌,
}
use rezzy.Basespec.Event.{LeanEvent}
use rezzy.Resolve.State.{EventMap}
use rezzy.Resolve.Power.{Split, expand_cited, expand_round, expand_v2_power_events_auth_chains}
use rezzy.Resolve.Power.Routing.{contains-keys, length-keys, IsSplit}
use rezzy.Resolve.Power.Expansion.{expand_cited-Expands}

-- The ids that power events cite, directly or through each other; `Root` is what they start from.
pub data Ancestral (Root : String → Type 0) (sort_set : EventMap) : String → Type 0 where
  root : {k : String} → Root k → Ancestral Root sort_set k
  cited :
      {k a : String} (e : LeanEvent)
      → Ancestral Root sort_set k
      → lookup k sort_set ≡ some e
      → contains e.auth_events a ≡ true
      → is_some (lookup a sort_set) ≡ true
      → Ancestral Root sort_set a

module _ (sort_set : EventMap) where
  -- Each power event that is not in the queue has its cited events among the power events.
  pub record IsExpanding (Root : String → Type 0) (queue : List String) (s : Split) : Type 0 where
    pub split : IsSplit sort_set [] s
    pub closed :
        (k a : String) (e : LeanEvent)
        → lookup k sort_set ≡ some e
        → is_some (lookup k s.power) ≡ true
        → contains e.auth_events a ≡ true
        → is_some (lookup a sort_set) ≡ true
        → contains queue k ≡ false
        → is_some (lookup a s.power) ≡ true
    pub queued : (k : String) → contains queue k ≡ true → is_some (lookup k s.power) ≡ true
    pub rooted : (k : String) → Root k → is_some (lookup k s.power) ≡ true
    pub ancestral : (k : String) → is_some (lookup k s.power) ≡ true → Ancestral Root sort_set k

  expand_round-Keeps :
      (Root : String → Type 0) (id : String) (queue : List String) (s : Split)
      → IsExpanding Root (id ∷ queue) s
      → KeepsQueue
          (expand_round sort_set)
          (IsExpanding Root)
          (λ s. unpaid (λ k. 1) (keys s.power) (keys sort_set))
          queue
          s
          (expand_round sort_set id s)
  unfolding expand_round
  expand_round-Keeps Root id queue s inv = go (lookup id sort_set) refl
    where
      go :
          (o : Option LeanEvent)
          → lookup id sort_set ≡ o
          → KeepsQueue
              (expand_round sort_set)
              (IsExpanding Root)
              (λ s. unpaid (λ k. 1) (keys s.power) (keys sort_set))
              queue
              s
              (elim o [
                | none ↦ push [] s
                | some ev ↦
                    let (s', pushed) = expand_cited sort_set ev.auth_events s in push pushed s'
              ])
      go none h = (
        record {
          split = inv.split;
          closed = λ k a e he hk c la q. elim (Bool-cases (id == k)) [
            | inl here ↦
                absurd (ground (arith, h, he, ap (λ x. lookup x sort_set) ((eq_iff id k).0 here)))
            | inr apart ↦
                inv.closed k a e he hk c la (ground (arith, q, apart, contains-append k queue []))
          ];
          queued = λ k q. inv.queued k (ground (arith, q, contains-append k queue []));
          rooted = inv.rooted;
          ancestral = inv.ancestral;
        },
        omega arith,
      )
      go (some ev) h =
          let exp = expand_cited-Expands sort_set ev.auth_events s inv.split in
          let pushed = (expand_cited sort_set ev.auth_events s).1 in
          (
            record {
              split = exp.inv;
              closed = λ k a e he hk c la q. elim (Bool-cases (id == k)) [
                | inl here ↦
                    exp.covers a
                      (ground (arith, h, he, c, ap (λ x. lookup x sort_set) ((eq_iff id k).0 here)))
                      la
                | inr apart ↦
                    let split_queue = contains-append k queue pushed in
                    let old =
                      inv.closed k a e he (ground (arith, q, hk, split_queue, exp.grows k)) c la
                        (ground (arith, q, apart, split_queue)) in
                    ground (arith, old, exp.grows a)
              ];
              queued = λ k q.
                  ground (arith, q, contains-append k queue pushed, exp.grows k, inv.queued k);
              rooted = λ k r. ground (arith, inv.rooted k r, exp.grows k);
              ancestral = λ k hk. elim (Bool-cases (is_some (lookup k s.power))) [
                | inl old ↦ inv.ancestral k old
                | inr fresh ↦
                    let (named, l) = exp.only k (ground (arith, hk, fresh, exp.grows k)) in
                    cited ev (inv.ancestral id (inv.queued id (ground (arith, eq_iff id id)))) h
                      named l
              ];
            },
            exp.paid,
          )

  pub expand-IsExpanding :
      (Root : String → Type 0) (s : Split)
      → IsSplit sort_set [] s
      → ((k : String) → (is_some (lookup k s.power) ≡ true) ↔ Root k)
      → (s' : Split) × (expand_v2_power_events_auth_chains sort_set s ≡ some s')
        × IsExpanding Root [] s'
  unfolding expand_v2_power_events_auth_chains
  expand-IsExpanding Root s split roots =
      run_queue-KeepsQueue (expand_round sort_set) (IsExpanding Root)
        (λ s. unpaid (λ k. 1) (keys s.power) (keys sort_set)) (expand_round-Keeps Root)
        (suc (length s.power + length sort_set)) (keys s.power) s
        (omega (
          arith,
          unpaid-size (keys s.power) (keys sort_set),
          length-keys sort_set,
          length-keys s.power,
        ))
        (record {
          split = split;
          closed = λ k a e he hk c la q. absurd (ground (arith, q, hk, contains-keys k s.power));
          queued = λ k q. ground (arith, q, contains-keys k s.power);
          rooted = λ k r. (roots k).1 r;
          ancestral = λ k hk. root ((roots k).0 hk);
        })

  -- With nothing left in the queue, the power events are the ancestral ids.
  pub Ancestral-power :
      (Root : String → Type 0) (s : Split)
      → IsExpanding Root [] s
      → (k : String) → Ancestral Root sort_set k
      → is_some (lookup k s.power) ≡ true
  Ancestral-power Root s inv k (root r) = inv.rooted k r
  Ancestral-power Root s inv k (cited e from he c la) =
      inv.closed _ k e he (Ancestral-power Root s inv _ from) c la refl
