-- ===== src/Resolve/Iterative/Deltas/Loops.antt =====
-- The loops of the variant with deltas run as the plain ones do (src/resolve/iterative.rs).
use rezzy.Prelude.{
  ℕ, ◌≡◌, refl, String, Bool, true, false, Option, none, some, List, [], ◌∷◌, arith, is_some,
  contains, keys, All,
}
use rezzy.Basespec.Version.{has_ban_evasion_hardening}
use rezzy.Basespec.Event.{LeanEvent}
use rezzy.Resolve.State.{Key}
use rezzy.Resolve.LocalAuth.{Cache}
use rezzy.Resolve.Iterative.{
  IterativeInputs, Resolving, decide, event_auth_ok, checked, check_event, check_events,
}
use rezzy.Resolve.Iterative.Deltas.{
  ResolvePhase, in_power, in_non_power, Tracking, tracked, track_power_event, track_event,
  track_all,
}

abbrev pub IsStateEvent : LeanEvent → Type 0
IsStateEvent event = is_some event.state_key ≡ true

-- What the plain resolution knows of a tracking, if there is one.
abbrev pub plain : Option Tracking → Option Resolving
plain o = elim o [ none ↦ none | some s ↦ some s.resolving ]

module _ (fuel : ℕ) (inputs : IterativeInputs) (conflicted_keys : List Key)
    (create_ev : Option LeanEvent) where
  checked-tracked :
      (event : LeanEvent) (sk : String) (phase : ResolvePhase) (reports : Bool) (s : Tracking)
      (verdict : Bool × Cache)
      → event.state_key ≡ some sk
      → (tracked inputs conflicted_keys phase reports event sk s verdict).resolving
        ≡ checked inputs conflicted_keys event s.resolving verdict
  unfolding decide
  checked-tracked event sk phase reports s (passes, cache') h = ground (arith, h)

  pub track_power_event-plain :
      (event : LeanEvent) (s : Tracking)
      → IsStateEvent event
      → plain (track_power_event fuel inputs conflicted_keys create_ev event s)
        ≡ check_event fuel inputs conflicted_keys create_ev true event s.resolving
  unfolding track_power_event check_event
  track_power_event-plain event s state =
      go event.state_key refl state
        (event_auth_ok fuel inputs create_ev event s.resolving.resolved s.resolving.local_auth_cache
          true)
        refl
    where
      go :
          (k : Option String)
          → event.state_key ≡ k
          → is_some k ≡ true
          → (o : Option (Bool × Cache))
          → event_auth_ok fuel inputs create_ev event s.resolving.resolved
              s.resolving.local_auth_cache true
            ≡ o
          → plain (track_power_event fuel inputs conflicted_keys create_ev event s)
            ≡ check_event fuel inputs conflicted_keys create_ev true event s.resolving
      go none h state o r = absurd (ground (arith, state))
      go (some sk) h state none r = ground (arith, h, r)
      go (some sk) h state (some verdict) r = ground (
        arith,
        h,
        r,
        checked-tracked event sk in_power (contains (keys inputs.conflicted_events) event.event_id)
            s verdict h,
      )

  pub track_event-plain :
      has_ban_evasion_hardening inputs.version ≡ false
      → (event : LeanEvent) (s : Tracking) → IsStateEvent event
      → plain (track_event fuel inputs conflicted_keys create_ev event s)
        ≡ check_event fuel inputs conflicted_keys create_ev false event s.resolving
  unfolding track_event check_event
  track_event-plain soft event s state =
      go event.state_key refl state
        (event_auth_ok fuel inputs create_ev event s.resolving.resolved s.resolving.local_auth_cache
          false)
        refl
    where
      go :
          (k : Option String)
          → event.state_key ≡ k
          → is_some k ≡ true
          → (o : Option (Bool × Cache))
          → event_auth_ok fuel inputs create_ev event s.resolving.resolved
              s.resolving.local_auth_cache false
            ≡ o
          → plain (track_event fuel inputs conflicted_keys create_ev event s)
            ≡ check_event fuel inputs conflicted_keys create_ev false event s.resolving
      go none h state o r = absurd (ground (arith, state))
      go (some sk) h state none r = ground (arith, h, r, soft)
      go (some sk) h state (some verdict) r =
          ground (arith, h, r, soft, checked-tracked event sk in_non_power true s verdict h)

  pub track_all-plain :
      (is_power : Bool) (body : LeanEvent → Tracking → Option Tracking)
      → ((event : LeanEvent) (s : Tracking)
          → IsStateEvent event
          → plain (body event s)
            ≡ check_event fuel inputs conflicted_keys create_ev is_power event s.resolving)
      → (events : List LeanEvent) (s : Tracking) → All IsStateEvent events
      → plain (track_all body events s)
        ≡ check_events fuel inputs conflicted_keys create_ev is_power events s.resolving
  unfolding track_all check_events
  track_all-plain is_power body same [] s states = refl
  track_all-plain is_power body same (event ∷ rest) s states =
      go (track_all-plain is_power body same rest) (body event s) refl (same event s states.0)
    where
      go :
          ((s' : Tracking)
            → All IsStateEvent rest
            → plain (track_all body rest s')
              ≡ check_events fuel inputs conflicted_keys create_ev is_power rest s'.resolving)
          → (o : Option Tracking) → body event s ≡ o
          → plain o ≡ check_event fuel inputs conflicted_keys create_ev is_power event s.resolving
          → plain (track_all body (event ∷ rest) s)
            ≡ check_events fuel inputs conflicted_keys create_ev is_power (event ∷ rest) s.resolving
      go later none r h = ground (arith, r, h)
      go later (some s') r h = ground (arith, r, h, later s' states.1)
