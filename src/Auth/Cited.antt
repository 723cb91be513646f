-- ===== src/Auth/Cited.antt =====
-- What an accepted event cites (src/auth/mod.rs, the rules 2.1 to 2.4).
pub mod Loop
pub mod Required
use rezzy.Prelude.{
  ℕ, suc, ◌+◌, ◌≤◌, ◌≡◌, refl, String, Bool, true, false, not, ◌&&◌, Option, none, some, List, [],
  ◌∷◌, arith, ◌==◌, eq_iff, if◌then◌else◌, opt_is, opt_is_iff, unwrap_or, is_some, contains, Result,
  ok, err, ◌>>=◌, ◌>>◌, reject_if, >>-ok, >>=-ok, Bool-cases, inl, inr, &&-both, reject_if-ok, ap,
  sym, subst, ◌∙◌,
}
use mathlib.Core.Path.{ap₂}
use rezzy.Basespec.Version.{StateResVersion, is_v2_2, is_v2_1_plus}
use rezzy.Basespec.Event.{LeanEvent, StateProvider, EventProvider, EventVerifier, m_room_create}
use rezzy.Auth.Error.{AuthError, Check, missing_auth_event, incomplete_auth_events}
use rezzy.Auth.State.{when, room_version_str_or_v1}
use rezzy.Auth.Citations.{
  StateKey, Seen, cited, valid_auth_types, check_citation, collect_citations, check_required,
  check_create_cited, check_auth_events, required_auth_types_for,
}
use rezzy.Auth.Check.{check_citations, check_auth_with_context}
use rezzy.Auth.Accepted.{Rules, accepted-Rules}
use rezzy.Auth.Cited.Loop.{
  state_key_of, IsCitable, citations_of, collected-IsCitable, collected_once, collected-IsBacked,
}
use rezzy.Auth.Cited.Required.{has_key, required_cited}

module _ (event : LeanEvent) (state : StateProvider) (version : StateResVersion)
    (verifier : Option EventVerifier) (provider : EventProvider) where
  -- The runs of the two loops.
  accepted_loops :
      check_auth_with_context event state version verifier (some provider) ≡ ok tt
      → (event.event_type == m_room_create) ≡ false
      → is_v2_2 version ≡ false
      → (seen : Seen) × (label : String) × (collect_citations event version provider []
            event.auth_events
          ≡ ok seen)
        × (room_version_str_or_v1 state ≡ ok label)
        × (check_required state seen (required_auth_types_for event version label) ≡ ok tt)
  unfolding check_citations check_auth_events
  accepted_loops h other classic =
      let rules = accepted-Rules event state version verifier (some provider) h other in
      let checked : check_auth_events event state version provider ≡ ok tt =
        ground (arith, rules.citations, classic) in
      let (_, later) =
        >>-ok (when (not (is_v2_1_plus version)) (check_create_cited event state)) _ checked in
      let (seen, collected, later') =
        >>=-ok (collect_citations event version provider [] event.auth_events) _ later in
      let (label, read, required) = >>=-ok (room_version_str_or_v1 state) _ later' in
      (seen, label, collected, read, required)

  -- Where the cited events are known, each event that an accepted one cites is known, was not
  -- rejected, is of one of the five types that may be cited, and is no create event where the
  -- version is V2.1 or later; and no type and state key is cited twice. The accepted event is no
  -- create event, and the version is not V2.2.
  pub accepted-IsCitable :
      (id : String)
      → check_auth_with_context event state version verifier (some provider) ≡ ok tt
      → (event.event_type == m_room_create) ≡ false
      → is_v2_2 version ≡ false
      → contains event.auth_events id ≡ true
      → IsCitable event version provider id
        × ((t k : String) → citations_of event version provider t k event.auth_events ≤ 1)
  accepted-IsCitable id h other classic inside =
      let (seen, label, collected, read, required) = accepted_loops h other classic in
      (
        collected-IsCitable event version provider event.auth_events [] seen id collected inside,
        λ t k.
            omega (
              arith,
              collected_once event version provider event.auth_events [] seen t k collected,
            ),
      )

  -- Where the cited events are known, an accepted event cites the event that the state has for each
  -- type and state key that the selection asks for under the room's version, and the event of that
  -- id has this type and this state key. The accepted event is no create event, and the version is
  -- not V2.2.
  pub accepted_complete :
      (label t k : String) (e : LeanEvent)
      → check_auth_with_context event state version verifier (some provider) ≡ ok tt
      → (event.event_type == m_room_create) ≡ false
      → is_v2_2 version ≡ false
      → room_version_str_or_v1 state ≡ ok label
      → has_key (required_auth_types_for event version label) t k ≡ true
      → state t k ≡ some e
      → (contains event.auth_events e.event_id ≡ true)
        × ((source : LeanEvent) × (provider e.event_id ≡ some source)
            × (source.event_type ≡ t)
            × (state_key_of source ≡ k))
  unfolding cited
  accepted_complete label t k e h other classic read asked here =
      let (seen, label', collected, read', required) = accepted_loops h other classic in
      let same : label ≡ label' = ground (arith, read, read') in
      let found =
        required_cited state seen (required_auth_types_for event version label') t k e required
          (subst (λ l. has_key (required_auth_types_for event version l) t k ≡ true) same asked)
          here in
      collected-IsBacked event version provider event.auth_events event.auth_events [] seen
        (λ id i. i) (λ t' k' id none_seen. absurd (ground arith)) collected t k e.event_id found
