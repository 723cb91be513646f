-- ===== src/Resolve/Iterative/Inputs.antt =====
-- The events that are checked are those of the input (src/resolve/iterative.rs).
use rezzy.Prelude.{
  ◌≡◌, refl, ap, ◌∙◌, String, Bool, true, false, ◌&&◌, Option, none, some, List, [], ◌∷◌,
  if◌then◌else◌, lookup, All, inl, inr, ◌⊎◌,
}
use rezzy.Basespec.Version.{has_ban_evasion_hardening}
use rezzy.Basespec.Event.{LeanEvent}
use rezzy.Sorting.Kahn.Invariant.{IsKeyed}
use rezzy.Resolve.State.{SharedState, EventMap, get_or_else}
use rezzy.Resolve.Power.Routing.{Listed}
use rezzy.Resolve.Iterative.{IterativeInputs, sort_context, events_by, is_sender_banned, screen}
use rezzy.Resolve.Iterative.Resolver.{screened}

-- An event of the conflicted events or the auth context.
abbrev pub IsInput : IterativeInputs → LeanEvent → Type 0
IsInput inputs event =
    (lookup event.event_id inputs.conflicted_events ≡ some event)
    ⊎ (lookup event.event_id inputs.auth_context ≡ some event)

module _ (inputs : IterativeInputs) (keyed : IsKeyed inputs.conflicted_events)
    (auth_keyed : IsKeyed inputs.auth_context) where
  conflicted-IsInput :
      (k : String) (event : LeanEvent)
      → lookup k inputs.conflicted_events ≡ some event
      → IsInput inputs event
  conflicted-IsInput k event h =
      inl (ap (λ x. lookup x inputs.conflicted_events) (keyed k event h) ∙ h)

  auth-IsInput :
      (k : String) (event : LeanEvent)
      → lookup k inputs.auth_context ≡ some event
      → IsInput inputs event
  auth-IsInput k event h = inr (ap (λ x. lookup x inputs.auth_context) (auth_keyed k event h) ∙ h)

  context-IsInput :
      (k : String) (event : LeanEvent) → sort_context inputs k ≡ some event → IsInput inputs event
  context-IsInput k event = go (lookup k inputs.conflicted_events) refl
    where
      go :
          (o : Option LeanEvent)
          → lookup k inputs.conflicted_events ≡ o
          → (elim o [ some ev ↦ some ev | none ↦ lookup k inputs.auth_context ]) ≡ some event
          → IsInput inputs event
      go none l h = auth-IsInput k event h
      go (some ev) l h = conflicted-IsInput k event (l ∙ h)

  pub local-IsInput :
      (k : String) (event : LeanEvent)
      → get_or_else inputs.auth_context inputs.conflicted_events k ≡ some event
      → IsInput inputs event × (event.event_id ≡ k)
  local-IsInput k event = go (lookup k inputs.auth_context) refl
    where
      go :
          (o : Option LeanEvent)
          → lookup k inputs.auth_context ≡ o
          → (elim o [ some ev ↦ some ev | none ↦ lookup k inputs.conflicted_events ]) ≡ some event
          → IsInput inputs event × (event.event_id ≡ k)
      go none l h = (conflicted-IsInput k event h, keyed k event h)
      go (some ev) l h = (auth-IsInput k event (l ∙ h), auth_keyed k event (l ∙ h))

  pub events_by-IsInput :
      (ids : List String) → All (IsInput inputs) (events_by (sort_context inputs) ids)
  unfolding events_by
  events_by-IsInput [] = tt
  events_by-IsInput (id ∷ rest) = go (sort_context inputs id) refl (events_by-IsInput rest)
    where
      go :
          (o : Option LeanEvent)
          → sort_context inputs id ≡ o
          → All (IsInput inputs) (events_by (sort_context inputs) rest)
          → All (IsInput inputs) (elim o [
            | none ↦ events_by (sort_context inputs) rest
            | some event ↦ event ∷ events_by (sort_context inputs) rest
          ])
      go none h later = later
      go (some event) h later = (context-IsInput id event h, later)

  pub screen-IsInput :
      (resolved : SharedState) (non_power : EventMap)
      → Listed inputs.conflicted_events non_power
      → All (IsInput inputs) (screened inputs non_power resolved)
  unfolding screen
  screen-IsInput resolved [] l = tt
  screen-IsInput resolved ((id, ev) ∷ rest) l =
      go
        (has_ban_evasion_hardening inputs.version
          && is_sender_banned ev resolved inputs.unconflicted_state (sort_context inputs))
        (screen-IsInput resolved rest l.1)
    where
      go :
          (b : Bool)
          → All (IsInput inputs) (screened inputs rest resolved)
          → All
              (IsInput inputs)
              (if b then screened inputs rest resolved else ev ∷ screened inputs rest resolved)
      go true later = later
      go false later = (conflicted-IsInput id ev l.0, later)
