-- ===== src/State/Checkpoints/Rebuilt.antt =====
-- Each state of a chain can be rebuilt (src/state/delta.rs, `reconstruct_state_at`).
use rezzy.Prelude.{
  ℕ, zero, suc, ◌<◌, ◌≡◌, ◌⊎◌, refl, ap, subst, ◌∙◌, String, Bool, true, false, Option, none, some,
  List, [], ◌∷◌, arith, eq_iff, ltb, if◌then◌else◌, inl, inr, unwrap_or,
}
use rezzy.Resolve.State.{get, SharedState}
use rezzy.State.Delta.{StateDelta, compute_state_delta, apply_state_delta}
use rezzy.State.Delta.Reads.{IsMap}
use rezzy.State.Delta.RoundTrip.{apply-compute_state_delta}
use rezzy.State.Checkpoints.Hops.{hops_at, hops_at-bound, hops_at-step, hops_at-start}
use rezzy.State.Checkpoints.{
  CompactedCheckpoint, Before, base_of, checkpoint_on, next_before, chain_from,
  compute_compacted_delta_chain_from_resolved, entry_at, parent_index, apply_stack, walk_back,
  reconstruct_state_at,
}

abbrev state_before : ℕ → Option SharedState → List (String × SharedState) → Option SharedState
state_before zero prev states = prev
state_before (suc n) prev [] = none
state_before (suc n) prev ((event_id, state) ∷ rest) = state_before n (some state) rest

state_before-entry_at :
    (n : ℕ) (prev : Option SharedState) (states : List (String × SharedState)) (base : SharedState)
    → state_before (suc n) prev states ≡ some base
    → (event_id : String) × (entry_at n states ≡ some (event_id, base))
state_before-entry_at n prev [] base h = absurd (ground (arith, h))
state_before-entry_at zero prev ((event_id, state) ∷ rest) base h = (event_id, ground (arith, h))
state_before-entry_at (suc n) prev ((event_id, state) ∷ rest) base h =
    state_before-entry_at n (some state) rest base h

-- A checkpoint is a snapshot of its state, or a delta from the state before.
record IsEntry (hash : SharedState → String) (prev : Option SharedState) (state : SharedState)
    (cp : CompactedCheckpoint) : Type 0 where
  hashed : cp.state_hash ≡ hash state
  kind :
      (cp.snapshot ≡ some state)
      ⊎ ((base : SharedState) × (prev ≡ some base)
          × (cp.snapshot ≡ none)
          × (cp.parent_hash ≡ some (hash base))
          × (cp.deltas ≡ compute_state_delta base state))

abbrev IsHashed : (SharedState → String) → Before → Type 0
IsHashed hash b = (base : SharedState) → b.prev_state ≡ some base → b.prev_hash ≡ some (hash base)

module _ (hash : SharedState → String) (max_hops : ℕ) where
  checkpoint_on-IsEntry :
      (b : Before) (event_id : String) (state : SharedState)
      → IsHashed hash b
      → IsEntry hash b.prev_state state (checkpoint_on hash (base_of max_hops b) b event_id state)
  checkpoint_on-IsEntry b event_id state hashed = go b.prev_state refl
    where
      go :
          (o : Option SharedState)
          → b.prev_state ≡ o
          → IsEntry hash b.prev_state state (
              checkpoint_on hash
                (elim o [
                  | none ↦ none
                  | some base ↦ if ltb (suc b.hops_since_snapshot) max_hops then some base else none
                ])
                b
                event_id
                state)
      go none h = record { hashed = refl; kind = inl refl }
      go (some base) h = choose (ltb (suc b.hops_since_snapshot) max_hops)
        where
          choose :
              (short : Bool)
              → IsEntry hash b.prev_state state
                  (checkpoint_on hash (if short then some base else none) b event_id state)
          choose false = record { hashed = refl; kind = inl refl }
          choose true = record { hashed = refl; kind = inr (base, h, refl, hashed base h, refl) }

  chain_from-IsEntry :
      (n : ℕ) (states : List (String × SharedState)) (b : Before) (event_id : String)
      (state : SharedState)
      → IsHashed hash b
      → entry_at n states ≡ some (event_id, state)
      → (cp : CompactedCheckpoint) × (entry_at n (chain_from hash max_hops b states) ≡ some cp)
        × IsEntry hash (state_before n b.prev_state states) state cp
  unfolding chain_from
  chain_from-IsEntry n [] b event_id state hashed h = absurd (ground (arith, h))
  chain_from-IsEntry zero ((e, s) ∷ rest) b event_id state hashed h =
      let same : s ≡ state = ground (arith, h) in
      (
        checkpoint_on hash (base_of max_hops b) b e s,
        refl,
        subst (λ t. IsEntry hash b.prev_state t (checkpoint_on hash (base_of max_hops b) b e s))
            same (checkpoint_on-IsEntry b e s hashed),
      )
  chain_from-IsEntry (suc n) ((e, s) ∷ rest) b event_id state hashed h =
      chain_from-IsEntry n rest (next_before hash (base_of max_hops b) b s) event_id state
        (λ base eq. ground (arith, eq)) h

-- A state that holds what another one does.
abbrev pub IsSame : SharedState → SharedState → Type 0
IsSame s s' = (t k : String) → get t k s ≡ get t k s'

abbrev start : Before
start = record { prev_state = none; prev_hash = none; hops_since_snapshot = 0 }

module _ (hash : SharedState → String) (max_hops : ℕ) (states : List (String × SharedState))
    (maps : (n : ℕ) (event_id : String) (state : SharedState)
      → entry_at n states ≡ some (event_id, state)
      → IsMap state) where
  abbrev chain : List CompactedCheckpoint
  chain = chain_from hash max_hops start states

  described :
      (n : ℕ) (event_id : String) (state : SharedState)
      → entry_at n states ≡ some (event_id, state)
      → (cp : CompactedCheckpoint) × (entry_at n chain ≡ some cp)
        × IsEntry hash (state_before n none states) state cp
  described n event_id state h =
      chain_from-IsEntry hash max_hops n states start event_id state
        (λ base eq. absurd (ground (arith, eq))) h

  walk_back-IsSame :
      (n fuel : ℕ) (event_id : String) (state : SharedState) (stack : List (List StateDelta))
      → entry_at n states ≡ some (event_id, state)
      → hops_at hash max_hops n start states < fuel
      → (s : SharedState) × (walk_back chain fuel n stack ≡ some (apply_stack s stack))
        × IsSame s state
  unfolding walk_back parent_index
  walk_back-IsSame n zero event_id state stack h enough = absurd (omega (arith, enough))
  walk_back-IsSame zero (suc fuel) event_id state stack h enough =
      let (cp, here, entry) = described zero event_id state h in
      elim entry.kind [
        | inl snap ↦ (state, ground (arith, here, snap), λ t k. refl)
        | inr (base, before, _, _, _) ↦ absurd (ground (arith, before))
      ]
  walk_back-IsSame (suc n) (suc fuel) event_id state stack h enough =
      let (cp, here, entry) = described (suc n) event_id state h in
      elim entry.kind [
        | inl snap ↦ (state, ground (arith, here, snap), λ t k. refl)
        | inr (base, before, snap, parent, deltas) ↦
            let (event_id', h') = state_before-entry_at n none states base before in
            let (cp', here', entry') = described n event_id' base h' in
            let step = hops_at-step hash max_hops n start states cp here snap in
            let (s, walks, same) =
              walk_back-IsSame n fuel event_id' base (cp.deltas ∷ stack) h'
                (omega (arith, enough, step)) in
            (
              apply_state_delta s cp.deltas,
              ground (
                arith,
                here,
                snap,
                parent,
                here',
                entry'.hashed,
                walks,
                eq_iff (hash base) (hash base),
              ),
              λ t k.
                  ap (λ d. get t k (apply_state_delta s d)) deltas
                  ∙ apply-compute_state_delta base state s t k (maps (suc n) event_id state h)
                      (same t k),
            )
      ]

-- For states in which no key comes twice, and whatever the hash of a state is and after how many
-- hops a snapshot is kept, the state of each checkpoint of the compacted chain can be rebuilt from
-- the chain, and holds what the state at that position did.
pub reconstruct_state_at-IsSame :
    (hash : SharedState → String) (states : List (String × SharedState)) (max_hops : Option ℕ)
    → ((n : ℕ) (event_id : String) (state : SharedState)
        → entry_at n states ≡ some (event_id, state)
        → IsMap state)
    → (n : ℕ) (event_id : String) (state : SharedState) → entry_at n states ≡ some (event_id, state)
    → (s : SharedState) × (reconstruct_state_at
          (compute_compacted_delta_chain_from_resolved hash states max_hops)
          n
        ≡ some s)
      × IsSame s state
unfolding reconstruct_state_at compute_compacted_delta_chain_from_resolved
reconstruct_state_at-IsSame hash states max_hops maps n event_id state h =
    walk_back-IsSame hash (unwrap_or max_hops 100) states maps n (suc n) event_id state [] h (
      let few = hops_at-start hash (unwrap_or max_hops 100) n start states refl in
      omega (arith, few))

-- For states in which no key comes twice and a positive number of hops, whatever the hash of a state
-- is: the walk back through the compacted chain that looks at no more checkpoints than that number
-- of hops finds a snapshot, and the state it rebuilds holds what the state at the position did.
pub walk_back-max_hops :
    (hash : SharedState → String) (states : List (String × SharedState)) (max_hops : ℕ)
    → 0 < max_hops
    → ((n : ℕ) (event_id : String) (state : SharedState)
        → entry_at n states ≡ some (event_id, state)
        → IsMap state)
    → (n : ℕ) (event_id : String) (state : SharedState) → entry_at n states ≡ some (event_id, state)
    → (s : SharedState) × (walk_back
          (compute_compacted_delta_chain_from_resolved hash states (some max_hops))
          max_hops
          n
          []
        ≡ some s)
      × IsSame s state
unfolding compute_compacted_delta_chain_from_resolved
walk_back-max_hops hash states max_hops some_hops maps n event_id state h =
    walk_back-IsSame hash max_hops states maps n max_hops event_id state [] h
      (hops_at-bound hash max_hops n start states some_hops)
