-- ===== src/State/Checkpoints.antt =====
-- Chains of deltas with snapshots between them (src/state/delta.rs). The hash of a state,
-- `compute_state_hash`, is a parameter: the chain is right for any.
pub mod Hops
pub mod Rebuilt
use rezzy.Prelude.{
  ℕ, zero, suc, String, Bool, true, false, Option, none, some, List, [], ◌∷◌, ◌==◌, ltb,
  if◌then◌else◌, unwrap_or,
}
use rezzy.Resolve.State.{SharedState}
use rezzy.State.Delta.{StateDelta, compute_state_delta, apply_state_delta}

pub record CompactedCheckpoint : Type 0 where
  pub state_hash : String
  pub parent_hash : Option String
  pub event_id : String
  pub deltas : List StateDelta
  pub snapshot : Option SharedState

-- What the loop keeps of the state before: the state, its hash and the hops since a snapshot.
pub record Before : Type 0 where
  pub prev_state : Option SharedState
  pub prev_hash : Option String
  pub hops_since_snapshot : ℕ

abbrev pub max_delta_chain_hops : ℕ
max_delta_chain_hops = 100

-- The state before, where it may be the base of a delta.
abbrev pub base_of : ℕ → Before → Option SharedState
base_of max_hops b = elim b.prev_state [
  | none ↦ none
  | some base ↦ if ltb (suc b.hops_since_snapshot) max_hops then some base else none
]

abbrev pub checkpoint_on :
    (SharedState → String)
    → Option SharedState
    → Before
    → String
    → SharedState
    → CompactedCheckpoint
checkpoint_on hash none b event_id state = record {
  state_hash = hash state;
  parent_hash = b.prev_hash;
  event_id = event_id;
  deltas = [];
  snapshot = some state;
}
checkpoint_on hash (some base) b event_id state = record {
  state_hash = hash state;
  parent_hash = b.prev_hash;
  event_id = event_id;
  deltas = compute_state_delta base state;
  snapshot = none;
}

abbrev pub next_before : (SharedState → String) → Option SharedState → Before → SharedState → Before
next_before hash base b state = record {
  prev_state = some state;
  prev_hash = some (hash state);
  hops_since_snapshot = elim base [ none ↦ 0 | some base ↦ suc b.hops_since_snapshot ];
}

unfoldable pub chain_from :
    (SharedState → String) → ℕ → Before → List (String × SharedState) → List CompactedCheckpoint
chain_from hash max_hops b [] = []
chain_from hash max_hops b ((event_id, state) ∷ rest) =
    checkpoint_on hash (base_of max_hops b) b event_id state
    ∷ chain_from hash max_hops (next_before hash (base_of max_hops b) b state) rest

unfoldable pub compute_compacted_delta_chain_from_resolved :
    (SharedState → String) → List (String × SharedState) → Option ℕ → List CompactedCheckpoint
compute_compacted_delta_chain_from_resolved hash resolved_states max_hops =
    chain_from hash (unwrap_or max_hops max_delta_chain_hops)
      (record { prev_state = none; prev_hash = none; hops_since_snapshot = 0 }) resolved_states

abbrev pub entry_at {ℓ} : {A : Type ℓ} → ℕ → List A → Option A
entry_at n [] = none
entry_at zero (x ∷ xs) = some x
entry_at (suc n) (x ∷ xs) = entry_at n xs

abbrev pub has_hash : List CompactedCheckpoint → ℕ → String → Bool
has_hash checkpoints n h = elim (entry_at n checkpoints) [
  | none ↦ false
  | some cp ↦ cp.state_hash == h
]

-- `rposition` among the first `n` checkpoints.
unfoldable pub last_with : List CompactedCheckpoint → String → ℕ → Option ℕ
last_with checkpoints h zero = none
last_with checkpoints h (suc n) =
    let earlier = last_with checkpoints h n in if has_hash checkpoints n h then some n else earlier

-- The predecessor, where it has the hash, and otherwise an earlier one.
unfoldable pub parent_index : List CompactedCheckpoint → ℕ → String → Option ℕ
parent_index checkpoints zero h = none
parent_index checkpoints (suc n) h =
    if has_hash checkpoints n h then some n else last_with checkpoints h (suc n)

abbrev pub apply_stack : SharedState → List (List StateDelta) → SharedState
apply_stack state [] = state
apply_stack state (deltas ∷ delta_stack) = apply_stack (apply_state_delta state deltas) delta_stack

-- The loop; an index falls in each round.
unfoldable pub walk_back :
    List CompactedCheckpoint → ℕ → ℕ → List (List StateDelta) → Option SharedState
walk_back checkpoints zero n delta_stack = none
walk_back checkpoints (suc fuel) n delta_stack = elim (entry_at n checkpoints) [
  | none ↦ none
  | some cp ↦ elim cp.snapshot [
    | some snapshot ↦ some (apply_stack snapshot delta_stack)
    | none ↦ elim cp.parent_hash [
      | none ↦ none
      | some parent_hash ↦ elim (parent_index checkpoints n parent_hash) [
        | none ↦ none
        | some parent ↦ walk_back checkpoints fuel parent (cp.deltas ∷ delta_stack)
      ]
    ]
  ]
]

unfoldable pub reconstruct_state_at : List CompactedCheckpoint → ℕ → Option SharedState
reconstruct_state_at checkpoints target_index =
    walk_back checkpoints (suc target_index) target_index []

-- `position` of the event, from `n` on.
unfoldable pub index_of_event : List CompactedCheckpoint → String → ℕ → Option ℕ
index_of_event [] event_id n = none
index_of_event (cp ∷ rest) event_id n =
    let later = index_of_event rest event_id (suc n) in
    if cp.event_id == event_id then some n else later

unfoldable pub reconstruct_state_at_by_event_id :
    List CompactedCheckpoint → String → Option SharedState
reconstruct_state_at_by_event_id checkpoints event_id =
    elim (index_of_event checkpoints event_id 0) [
      | none ↦ none
      | some idx ↦ reconstruct_state_at checkpoints idx
    ]
