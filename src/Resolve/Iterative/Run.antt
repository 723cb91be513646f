-- ===== src/Resolve/Iterative/Run.antt =====
-- What a run of the iterative checks is, without the loops: the state that a check sees, its
-- verdict and the steps (src/resolve/iterative.rs).
use mathlib.Core.List.{Memᴰ}
use rezzy.Prelude.{
  ◌≡◌, String, Bool, true, false, not, ◌&&◌, ◌||◌, ◌⊎◌, Option, none, some, List, [], ◌∷◌, ◌==◌,
  if◌then◌else◌, All, Result, ok, err,
}
use rezzy.Basespec.Version.{StateResVersion, v1, is_v2_1_plus, has_ban_evasion_hardening}
use rezzy.Basespec.Event.{
  LeanEvent, StateProvider, m_room_create, m_room_member, m_room_power_levels, m_room_join_rules,
}
use rezzy.Auth.Error.{AuthError}
use rezzy.Auth.Check.{check_auth_with_context}
use rezzy.Resolve.State.{Key, get, SharedState, get_or_else}
use rezzy.Resolve.LocalAuth.Context.{IsContext}
use rezzy.Resolve.Iterative.{IterativeInputs, get_either}
use rezzy.Resolve.Iterative.Inputs.{IsInput}

-- Only V1 restricts the keys that an event may decide.
abbrev pub MayDecide : StateResVersion → List Key → String → String → Type 0
MayDecide version conflicted_keys t k = version ≡ v1 → Memᴰ (t, k) conflicted_keys

-- From V2.1 on, the first working state is empty.
abbrev pub IsStart : IterativeInputs → SharedState → Type 0
IsStart inputs resolved =
    resolved ≡ (if is_v2_1_plus inputs.version then [] else inputs.unconflicted_state)

-- The keys whose unconflicted value is put in between the phases.
abbrev pub is_carried : String → String → Bool
is_carried t k =
    k == "" && (t == m_room_create || (t == m_room_join_rules || t == m_room_power_levels))

-- From V2.1 on, the unconflicted creation event, join rules and power levels are put in where the
-- working state has none.
abbrev pub IsMerged : IterativeInputs → SharedState → SharedState → Type 0
IsMerged inputs resolved after =
    (t k : String)
    → get t k after ≡ (
        if is_v2_1_plus inputs.version && is_carried t k
        then get_either t k resolved inputs.unconflicted_state
        else get t k resolved)

-- The state that a check sees. The working state comes first, then the local context, of which
-- a hardened version shows power levels and join rules in the power phase only to events of power
-- levels, join rules or membership, and last the creation event.
pub record IsView (inputs : IterativeInputs) (create_ev : Option LeanEvent) (is_power : Bool)
    (event_type : String) (resolved : SharedState) (local : List (Key × LeanEvent))
    (state : StateProvider) : Type 0 where
  pub worked :
      (t k id : String) (ev : LeanEvent)
      → get t k resolved ≡ some id
      → get_or_else inputs.auth_context inputs.conflicted_events id ≡ some ev
      → state t k ≡ some ev
  pub supplied :
      (t k : String) (ev : LeanEvent)
      → get t k resolved ≡ none
      → get t k local ≡ some ev
      → (is_power
          && (has_ban_evasion_hardening inputs.version
              && (t == m_room_power_levels || t == m_room_join_rules)))
        ≡ false
      → state t k ≡ some ev
  pub limited :
      (t k : String) (ev : LeanEvent)
      → get t k resolved ≡ none
      → get t k local ≡ some ev
      → (is_power
          && (has_ban_evasion_hardening inputs.version
              && (t == m_room_power_levels || t == m_room_join_rules)))
        ≡ true
      → state t k ≡ (
          if event_type == m_room_power_levels
            || (event_type == m_room_join_rules || event_type == m_room_member)
          then some ev
          else none)
  pub created :
      get m_room_create "" resolved ≡ none
      → get m_room_create "" local ≡ none
      → state m_room_create "" ≡ create_ev
  pub only :
      (t k : String) (ev : LeanEvent)
      → state t k ≡ some ev
      → ((id : String) × (get t k resolved ≡ some id)
          × (get_or_else inputs.auth_context inputs.conflicted_events id ≡ some ev))
        ⊎ ((get t k local ≡ some ev) ⊎ ((t ≡ m_room_create) × (k ≡ "") × (create_ev ≡ some ev)))

abbrev pub is_ok : Result AuthError (Unit {0}) → Bool
is_ok (ok u) = true
is_ok (err e) = false

-- The verdict on an event in a working state: it is not rejected, and the auth rules let it pass in
-- the state that the check sees.
pub record IsJudged (inputs : IterativeInputs) (create_ev : Option LeanEvent) (is_power : Bool)
    (event : LeanEvent) (resolved : SharedState) (passes : Bool) : Type 0 where
  pub local : List (Key × LeanEvent)
  pub context : All (λ x. IsContext (IsInput inputs) event.event_id x.0 x.1) local
  pub state : StateProvider
  pub view : IsView inputs create_ev is_power event.event_type resolved local state
  pub verdict :
      passes
      ≡ (not event.rejected && is_ok (check_auth_with_context event state inputs.version none none))

-- An accepted event is the value of its key, where it may decide it; the other values stay.
pub record IsDecided (inputs : IterativeInputs) (conflicted_keys : List Key) (event : LeanEvent)
    (resolved after : SharedState) : Type 0 where
  pub sets :
      (k : String)
      → event.state_key ≡ some k
      → MayDecide inputs.version conflicted_keys event.event_type k
      → get event.event_type k after ≡ some event.event_id
  pub keeps :
      (t k : String)
      → (get t k after ≡ get t k resolved)
        ⊎ ((event.event_type ≡ t)
            × (event.state_key ≡ some k)
            × MayDecide inputs.version conflicted_keys t k)

module _ (inputs : IterativeInputs) (conflicted_keys : List Key)
    (create_ev : Option LeanEvent) where
  -- An event that passes decides, and one that does not changes nothing.
  abbrev pub IsStep : Bool → LeanEvent → SharedState → SharedState → Type 0
  IsStep is_power event resolved after =
      (IsJudged inputs create_ev is_power event resolved true
        × IsDecided inputs conflicted_keys event resolved after)
      ⊎ (IsJudged inputs create_ev is_power event resolved false × (after ≡ resolved))

  -- The steps of input events, one after the other.
  abbrev pub AreSteps : Bool → List LeanEvent → SharedState → SharedState → Type 0
  AreSteps is_power [] resolved after = after ≡ resolved
  AreSteps is_power (event ∷ rest) resolved after =
      (next : SharedState) × IsInput inputs event
      × IsStep is_power event resolved next
      × AreSteps is_power rest next after
