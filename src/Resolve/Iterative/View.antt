-- ===== src/Resolve/Iterative/View.antt =====
-- What the overlay of a check shows, and the verdict in it (src/state/at.rs, `OverlayState` and
-- `iterative_auth_ok`).
use rezzy.Prelude.{
  ◌≡◌, refl, sym, ap, ◌∙◌, String, Bool, true, false, not, ◌&&◌, Option, none, some, List, arith,
  ◌==◌, eq_iff, if◌then◌else◌, All, &&-both, Bool-cases, inl, inr, ◌⊎◌, Result, ok, err,
}
use rezzy.Basespec.Event.{LeanEvent, m_room_create}
use rezzy.Auth.Error.{AuthError}
use rezzy.Auth.Check.{check_auth}
use rezzy.Resolve.State.{Key, get, SharedState, get_or_else}
use rezzy.Resolve.LocalAuth.Context.{IsContext}
use rezzy.Resolve.Overlay.{OverlayState, resolved_event, local_event, overlay, iterative_auth_ok}
use rezzy.Resolve.Iterative.{IterativeInputs}
use rezzy.Resolve.Iterative.Inputs.{IsInput}
use rezzy.Resolve.Iterative.Run.{IsView, is_ok, IsJudged}

-- The overlay of a check.
abbrev pub seen_by :
    LeanEvent
    → SharedState
    → IterativeInputs
    → List (Key × LeanEvent)
    → Option LeanEvent
    → Bool
    → OverlayState
seen_by event resolved inputs local_auth create_ev is_power = record {
  resolved = resolved;
  auth_context = inputs.auth_context;
  sort_set = inputs.conflicted_events;
  local_auth = local_auth;
  create_ev = create_ev;
  version = inputs.version;
  is_power_phase = is_power;
  candidate_event_type = event.event_type;
}

local_event-same :
    (s : OverlayState) (t k : String) (found ev : LeanEvent)
    → local_event s t k found ≡ some ev
    → found ≡ ev
unfolding local_event
local_event-same s t k found ev h = ground (arith, h)

overlay-IsView :
    (event : LeanEvent) (resolved : SharedState) (inputs : IterativeInputs)
    (local : List (Key × LeanEvent)) (create_ev : Option LeanEvent) (is_power : Bool)
    → IsView inputs create_ev is_power event.event_type resolved local
        (overlay (seen_by event resolved inputs local create_ev is_power))
unfolding overlay local_event
overlay-IsView event resolved inputs local create_ev is_power = record {
  worked = λ t k id ev h found. ground (arith, h, found);
  supplied = λ t k ev h found free. ground (arith, h, found, free);
  limited = λ t k ev h found held. ground (arith, h, found, held);
  created = λ h found. ground (arith, h, found);
  only = λ t k ev seen. only t k ev seen (get t k resolved) refl;
}
  where
    find : String → Option LeanEvent
    find = get_or_else inputs.auth_context inputs.conflicted_events

    Seen : String → String → LeanEvent → Type 0
    Seen t k ev =
        ((id : String) × (get t k resolved ≡ some id) × (find id ≡ some ev))
        ⊎ ((get t k local ≡ some ev) ⊎ ((t ≡ m_room_create) × (k ≡ "") × (create_ev ≡ some ev)))

    supply :
        (t k : String) (ev : LeanEvent) (l : Option LeanEvent)
        → get t k local ≡ l
        → resolved_event (seen_by event resolved inputs local create_ev is_power) t k ≡ none
        → overlay (seen_by event resolved inputs local create_ev is_power) t k ≡ some ev
        → (get t k local ≡ some ev) ⊎ ((t ≡ m_room_create) × (k ≡ "") × (create_ev ≡ some ev))
    supply t k ev (some found) g away seen = inl (
        g
        ∙ ap some (
            local_event-same (seen_by event resolved inputs local create_ev is_power) t k found ev
              (ground (arith, away, g, seen))))
    supply t k ev none g away seen = elim (Bool-cases (t == m_room_create && k == "")) [
      | inl here ↦
          let (is_create, empty) = &&-both (t == m_room_create) (k == "") here in
          inr (
            (eq_iff t m_room_create).0 is_create,
            (eq_iff k "").0 empty,
            ground (arith, away, g, here, seen),
          )
      | inr apart ↦ absurd (ground (arith, away, g, apart, seen))
    ]

    only :
        (t k : String) (ev : LeanEvent)
        → overlay (seen_by event resolved inputs local create_ev is_power) t k ≡ some ev
        → (o : Option String) → get t k resolved ≡ o
        → Seen t k ev
    only t k ev seen none h = inr (supply t k ev (get t k local) refl (ground (arith, h)) seen)
    only t k ev seen (some id) h = known_id (find id) refl
      where
        known_id : (e : Option LeanEvent) → find id ≡ e → Seen t k ev
        known_id none l = inr (supply t k ev (get t k local) refl (ground (arith, h, l)) seen)
        known_id (some found) l = inl (id, h, ground (arith, h, l, seen))

pub iterative_auth_ok-IsJudged :
    (event : LeanEvent) (resolved : SharedState) (inputs : IterativeInputs)
    (local : List (Key × LeanEvent)) (create_ev : Option LeanEvent) (is_power passes : Bool)
    → All (λ x. IsContext (IsInput inputs) event.event_id x.0 x.1) local
    → iterative_auth_ok event resolved inputs.auth_context inputs.conflicted_events local create_ev
        inputs.version is_power
      ≡ passes
    → IsJudged inputs create_ev is_power event resolved passes
unfolding iterative_auth_ok check_auth
iterative_auth_ok-IsJudged event resolved inputs local create_ev is_power passes context h =
    record {
      local = local;
      context = context;
      state = overlay (seen_by event resolved inputs local create_ev is_power);
      view = overlay-IsView event resolved inputs local create_ev is_power;
      verdict = sym h ∙ same event.rejected _;
    }
  where
    same :
        (rejected : Bool) (r : Result AuthError (Unit {0}))
        → (if rejected then false else (elim r [ ok _ ↦ true | err e ↦ false ]))
          ≡ (not rejected && is_ok r)
    same true r = refl
    same false (ok u) = refl
    same false (err e) = refl
