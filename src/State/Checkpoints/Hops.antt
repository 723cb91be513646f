-- ===== src/State/Checkpoints/Hops.antt =====
-- How many deltas lie behind a snapshot (src/state/delta.rs,
-- `compute_compacted_delta_chain_from_resolved`).
use rezzy.Prelude.{
  ℕ, zero, suc, ◌+◌, ◌≤◌, ◌<◌, ◌≡◌, refl, String, Bool, true, false, Option, none, some, List, [],
  ◌∷◌, arith, ltb, if◌then◌else◌,
}
use rezzy.Resolve.State.{SharedState}
use rezzy.State.Checkpoints.{
  CompactedCheckpoint, Before, base_of, checkpoint_on, next_before, chain_from, entry_at,
}

module _ (hash : SharedState → String) (max_hops : ℕ) where
  -- The hops of the checkpoint at a position.
  abbrev pub hops_at : ℕ → Before → List (String × SharedState) → ℕ
  hops_at n b [] = 0
  hops_at zero b ((event_id, state) ∷ rest) =
      (next_before hash (base_of max_hops b) b state).hops_since_snapshot
  hops_at (suc n) b ((event_id, state) ∷ rest) =
      hops_at n (next_before hash (base_of max_hops b) b state) rest

  next_before-bound :
      (b : Before) (state : SharedState)
      → 0 < max_hops
      → (next_before hash (base_of max_hops b) b state).hops_since_snapshot < max_hops
  next_before-bound b state some_hops = go b.prev_state
    where
      choose :
          (base : SharedState) (short : Bool)
          → ltb (suc b.hops_since_snapshot) max_hops ≡ short
          → (next_before hash (if short then some base else none) b state).hops_since_snapshot
            < max_hops
      choose base true h = ground (arith, h)
      choose base false h = omega (arith, some_hops)

      go :
          (o : Option SharedState)
          → (let base : Option SharedState = elim o [
            | none ↦ none
            | some base ↦ if ltb (suc b.hops_since_snapshot) max_hops then some base else none
          ] in
              (next_before hash base b state).hops_since_snapshot < max_hops)
      go none = omega (arith, some_hops)
      go (some base) = choose base (ltb (suc b.hops_since_snapshot) max_hops) refl

  pub hops_at-bound :
      (n : ℕ) (b : Before) (states : List (String × SharedState))
      → 0 < max_hops
      → hops_at n b states < max_hops
  hops_at-bound n b [] some_hops = omega (arith, some_hops)
  hops_at-bound zero b ((e, s) ∷ rest) some_hops = next_before-bound b s some_hops
  hops_at-bound (suc n) b ((e, s) ∷ rest) some_hops =
      hops_at-bound n (next_before hash (base_of max_hops b) b s) rest some_hops

  -- A checkpoint without a snapshot is one hop behind the one before it.
  pub hops_at-step :
      (n : ℕ) (b : Before) (states : List (String × SharedState)) (cp : CompactedCheckpoint)
      → entry_at (suc n) (chain_from hash max_hops b states) ≡ some cp
      → cp.snapshot ≡ none
      → hops_at (suc n) b states ≡ suc (hops_at n b states)
  unfolding chain_from
  hops_at-step n b [] cp h snap = absurd (ground (arith, h))
  hops_at-step n b ((e, s) ∷ []) cp h snap = absurd (ground (arith, h))
  hops_at-step zero b ((e, s) ∷ ((e', s') ∷ rest)) cp h snap =
      go (next_before hash (base_of max_hops b) b s)
        (base_of max_hops (next_before hash (base_of max_hops b) b s)) h
    where
      go :
          (b' : Before) (base : Option SharedState)
          → some (checkpoint_on hash base b' e' s') ≡ some cp
          → (next_before hash base b' s').hops_since_snapshot ≡ suc b'.hops_since_snapshot
      go b' none h = absurd (ground (arith, h, snap))
      go b' (some base) h = refl
  hops_at-step (suc n) b ((e, s) ∷ ((e', s') ∷ rest)) cp h snap =
      hops_at-step n (next_before hash (base_of max_hops b) b s) ((e', s') ∷ rest) cp h snap

  next_before_le :
      (b : Before) (state : SharedState) (base : Option SharedState)
      → (next_before hash base b state).hops_since_snapshot ≤ suc b.hops_since_snapshot
  next_before_le b state none = omega arith
  next_before_le b state (some base) = omega arith

  hops_at_le :
      (n : ℕ) (b : Before) (states : List (String × SharedState))
      → hops_at n b states ≤ suc n + b.hops_since_snapshot
  hops_at_le n b [] = omega arith
  hops_at_le zero b ((e, s) ∷ rest) =
      let step = next_before_le b s (base_of max_hops b) in omega (arith, step)
  hops_at_le (suc n) b ((e, s) ∷ rest) =
      let later = hops_at_le n (next_before hash (base_of max_hops b) b s) rest in
      let step = next_before_le b s (base_of max_hops b) in omega (arith, later, step)

  -- A chain starts with a snapshot.
  pub hops_at-start :
      (n : ℕ) (b : Before) (states : List (String × SharedState))
      → b.prev_state ≡ none
      → hops_at n b states ≤ n
  hops_at-start n b [] empty = omega arith
  hops_at-start zero b ((e, s) ∷ rest) empty = ground (arith, empty)
  hops_at-start (suc n) b ((e, s) ∷ rest) empty =
      let later = hops_at_le n (next_before hash (base_of max_hops b) b s) rest in
      let first : (next_before hash (base_of max_hops b) b s).hops_since_snapshot ≡ 0 =
        ground (arith, empty) in
      omega (arith, later, first)
