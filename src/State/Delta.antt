-- ===== src/State/Delta.antt =====
-- The changes from one state to another, and their application (src/state/delta.rs).
pub mod Reads
pub mod RoundTrip
use rezzy.Prelude.{
  String, Bool, true, false, ◌&&◌, Option, none, some, List, [], ◌∷◌, ◌++◌, ◌==◌, if◌then◌else◌,
  is_some, opt_is,
}
use rezzy.Resolve.State.{Key, get, insert, SharedState}

pub record StateDelta : Type 0 where
  pub event_type : String
  pub state_key : String
  pub event_id : Option String

-- The entries of `current` that `parent` does not hold so.
unfoldable pub additions : SharedState → SharedState → List StateDelta
additions parent [] = []
additions parent (((t, k), id) ∷ current) =
    let rest = additions parent current in
    if opt_is (get t k parent) id
    then rest
    else (record { event_type = t; state_key = k; event_id = some id }) ∷ rest

-- The keys of `parent` that `current` lacks.
unfoldable pub deletions : SharedState → SharedState → List StateDelta
deletions current [] = []
deletions current (((t, k), id) ∷ parent) =
    let rest = deletions current parent in
    if is_some (get t k current)
    then rest
    else (record { event_type = t; state_key = k; event_id = none }) ∷ rest

unfoldable pub compute_state_delta : SharedState → SharedState → List StateDelta
compute_state_delta parent current = additions parent current ++ deletions current parent

-- `SharedState::remove`; a map holds a key once, and all entries of the key go.
unfoldable pub remove_key : String → String → SharedState → SharedState
remove_key t k [] = []
remove_key t k (((t', k'), id) ∷ rest) =
    let later = remove_key t k rest in if t' == t && k' == k then later else ((t', k'), id) ∷ later

unfoldable pub apply_delta_to_state : SharedState → StateDelta → SharedState
apply_delta_to_state state delta = elim delta.event_id [
  | some event_id ↦ insert (delta.event_type, delta.state_key) event_id state
  | none ↦ remove_key delta.event_type delta.state_key state
]

unfoldable pub apply_state_delta : SharedState → List StateDelta → SharedState
apply_state_delta base [] = base
apply_state_delta base (delta ∷ deltas) = apply_state_delta (apply_delta_to_state base delta) deltas
