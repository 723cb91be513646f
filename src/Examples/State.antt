-- ===== src/Examples/State.antt =====
-- Examples of the changes between two states.
use rezzy.Prelude.{ℕ, zero, suc, String, ◌≡◌, refl, subst, arith, some, none, List, [], ◌∷◌, All}
use rezzy.Resolve.State.{SharedState, get, insert}
use rezzy.State.Delta.{
  additions, deletions, compute_state_delta, apply_state_delta, apply_delta_to_state, remove_key,
}
use rezzy.State.Delta.Reads.{IsMap}
use rezzy.State.Delta.RoundTrip.{
  IsChange, apply_state_delta-compute_state_delta, compute_state_delta-IsChange,
}
use rezzy.State.Checkpoints.{
  compute_compacted_delta_chain_from_resolved, chain_from, entry_at, parent_index, walk_back,
  reconstruct_state_at,
}
use rezzy.State.Checkpoints.Rebuilt.{IsSame, reconstruct_state_at-IsSame, walk_back-max_hops}

abbrev before : SharedState
before =
    (("m.room.name", ""), "$name")
    ∷ (("m.room.topic", ""), "$topic")
    ∷ (("m.room.pinned", ""), "$pins")
    ∷ []

abbrev after : SharedState
after =
    (("m.room.avatar", ""), "$avatar")
    ∷ (("m.room.name", ""), "$renamed")
    ∷ (("m.room.topic", ""), "$topic")
    ∷ []

before-IsMap : IsMap before
unfolding get
before-IsMap = (refl, (refl, (refl, tt)))

after-IsMap : IsMap after
unfolding get
after-IsMap = (refl, (refl, (refl, tt)))

delta_test :
    compute_state_delta before after
    ≡ (record { event_type = "m.room.avatar"; state_key = ""; event_id = some "$avatar" })
      ∷ (record { event_type = "m.room.name"; state_key = ""; event_id = some "$renamed" })
      ∷ (record { event_type = "m.room.pinned"; state_key = ""; event_id = none })
      ∷ []
unfolding compute_state_delta additions deletions get
delta_test = refl

apply_state_delta-compute_state_delta_example :
    get "m.room.pinned" "" (apply_state_delta before (compute_state_delta before after))
    ≡ get "m.room.pinned" "" after
apply_state_delta-compute_state_delta_example =
    apply_state_delta-compute_state_delta before after after-IsMap "m.room.pinned" ""

compute_state_delta-IsChange_example :
    All (IsChange before after) (compute_state_delta before after)
compute_state_delta-IsChange_example =
    compute_state_delta-IsChange before after before-IsMap after-IsMap

abbrev history : List (String × SharedState)
history = ("$first", before) ∷ ("$second", after) ∷ []

history-IsMap :
    (n : ℕ) (event_id : String) (state : SharedState)
    → entry_at n history ≡ some (event_id, state)
    → IsMap state
history-IsMap zero event_id state h =
    let same : before ≡ state = ground (arith, h) in subst IsMap same before-IsMap
history-IsMap (suc zero) event_id state h =
    let same : after ≡ state = ground (arith, h) in subst IsMap same after-IsMap
history-IsMap (suc (suc n)) event_id state h = absurd (ground (arith, h))

-- The second state, behind a snapshot of the first, and all hashes the same.
rebuild_test :
    reconstruct_state_at (compute_compacted_delta_chain_from_resolved (λ s. "hash") history none) 1
    ≡ some after
unfolding reconstruct_state_at compute_compacted_delta_chain_from_resolved chain_from walk_back
    parent_index compute_state_delta additions deletions apply_state_delta apply_delta_to_state
    remove_key insert get
rebuild_test = refl

reconstruct_state_at-IsSame_example :
    (s : SharedState) × (reconstruct_state_at
        (compute_compacted_delta_chain_from_resolved (λ s. "hash") history none)
        1
      ≡ some s)
    × IsSame s after
reconstruct_state_at-IsSame_example =
    reconstruct_state_at-IsSame (λ s. "hash") history none history-IsMap 1 "$second" after refl

walk_back-max_hops_example :
    (s : SharedState) × (walk_back
        (compute_compacted_delta_chain_from_resolved (λ s. "hash") history (some 2))
        2
        1
        []
      ≡ some s)
    × IsSame s after
walk_back-max_hops_example =
    walk_back-max_hops (λ s. "hash") history 2 (ground arith) history-IsMap 1 "$second" after refl
