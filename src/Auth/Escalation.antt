-- ===== src/Auth/Escalation.antt =====
-- What acceptance says of a new `m.room.power_levels` event: nobody gives out, or takes away, more
-- power than they have.
mod Maps
use rezzy.Prelude.{
  ◌≡◌, ◌≢◌, ◌⊎◌, inl, inr, refl, sym, String, Bool, Option, none, some, true, false, not, List, [],
  ◌∷◌, arith, ok, ◌==◌, eq_iff, ℤ, pos, eqb_ℤ, ltb_ℤ, leb_ℤ, ◌≤ℤ◌, ◌<ℤ◌, lookup, unwrap_or,
  eqb_ℤ→eq, Option-cases, leb_ℤ_false→lt, ltb_ℤ_false→le, ◌∙◌,
}
use rezzy.Basespec.Version.{StateResVersion}
use rezzy.Basespec.Event.{
  LeanEvent, EventContent, StateProvider, EventProvider, EventVerifier, m_room_create,
  m_room_power_levels,
}
use rezzy.Auth.Levels.{level_in, get_sender_power_level}
use rezzy.Auth.PowerLevels.{
  opt_eq, changed_in, collect_levels, check_scalar_pl, check_removed, check_added, check_level_map,
  check_users, check_scalars, check_power_levels_rules, check_power_levels_event,
}
use rezzy.Auth.Check.{check_auth_with_context}
use rezzy.Auth.Accepted.{Rules, accepted-Rules}
pub use Maps.{KeepsOrBounds, levels}
use Maps.{scalar_pl-KeepsOrBounds, level_map-KeepsOrBounds, check_users-le, check_users-low}

-- Each scalar setting, and the entries of a key in the maps `events` and `notifications`.
abbrev pub SettingsKept : EventContent → EventContent → String → ℤ → Type 0
SettingsKept old new k bound =
    KeepsOrBounds old.users_default new.users_default bound
    × KeepsOrBounds old.events_default new.events_default bound
    × KeepsOrBounds old.state_default new.state_default bound
    × KeepsOrBounds old.ban new.ban bound
    × KeepsOrBounds old.redact new.redact bound
    × KeepsOrBounds old.kick new.kick bound
    × KeepsOrBounds old.invite new.invite bound
    × KeepsOrBounds (levels old.event_power_levels k) (levels new.event_power_levels k) bound
    × KeepsOrBounds (levels old.notification_power_levels k)
        (levels new.notification_power_levels k) bound

module _ (event : LeanEvent) (state : StateProvider) (version : StateResVersion)
    (verifier : Option EventVerifier) (ctx : Option EventProvider) (prev : LeanEvent)
    (accepted : check_auth_with_context event state version verifier ctx ≡ ok tt)
    (typed : event.event_type ≡ m_room_power_levels)
    (before : state m_room_power_levels "" ≡ some prev) where
  abbrev own : ℤ
  own = get_sender_power_level event.sender state version

  rules_passed : check_power_levels_rules event.sender event.content prev.content own ≡ ok tt
  unfolding check_power_levels_event
  rules_passed =
      let passed = accepted-Rules event state version verifier ctx accepted (
        ground (
          arith,
          eq_iff event.event_type m_room_create,
          eq_iff m_room_power_levels m_room_create,
        )) in
      ground (arith, eq_iff event.event_type m_room_power_levels, passed.power_levels)

  users_passed :
      check_users event.sender prev.content.user_power_levels event.content.user_power_levels own
      ≡ ok tt
  unfolding check_power_levels_rules
  users_passed = ground (arith, rules_passed)

  maps_passed :
      (check_scalars event.content prev.content own ≡ ok tt)
      × (check_level_map "events" prev.content.event_power_levels event.content.event_power_levels
            own
          ≡ ok tt)
      × (check_level_map "notifications" prev.content.notification_power_levels
            event.content.notification_power_levels own
          ≡ ok tt)
  unfolding check_power_levels_rules
  maps_passed = ground (arith, rules_passed)

  -- In an accepted power-levels event that replaces another, each user whose entry is new or changed
  -- has at most the sender's level.
  pub accepted-grant :
      (u : String) (v : ℤ)
      → levels event.content.user_power_levels u ≡ some v
      → levels prev.content.user_power_levels u ≢ some v
      → v ≤ℤ own
  accepted-grant u v = check_users-le event.sender _ _ own u v users_passed

  -- In an accepted power-levels event that replaces another, each user other than the sender whose
  -- entry was removed or changed had a level strictly below the sender's.
  pub accepted-demotion :
      (u : String) (w : ℤ)
      → u ≢ event.sender
      → levels prev.content.user_power_levels u ≡ some w
      → levels event.content.user_power_levels u ≢ some w
      → w <ℤ own
  accepted-demotion u w = check_users-low event.sender _ _ own u w users_passed

  -- In an accepted power-levels event that replaces another, each of the seven scalar settings, and
  -- each entry of `events` and of `notifications`, is as it was, or both its old and its new value
  -- are at most the sender's level.
  pub accepted-settings : (k : String) → SettingsKept prev.content event.content k own
  unfolding check_scalars
  accepted-settings k =
      let (scalars, events, notifications) = maps_passed in
      (
        scalar_pl-KeepsOrBounds "users_default" _ _ own (ground arith),
        scalar_pl-KeepsOrBounds "events_default" _ _ own (ground arith),
        scalar_pl-KeepsOrBounds "state_default" _ _ own (ground arith),
        scalar_pl-KeepsOrBounds "ban" _ _ own (ground arith),
        scalar_pl-KeepsOrBounds "redact" _ _ own (ground arith),
        scalar_pl-KeepsOrBounds "kick" _ _ own (ground arith),
        scalar_pl-KeepsOrBounds "invite" _ _ own (ground arith),
        level_map-KeepsOrBounds "events" _ _ own k events,
        level_map-KeepsOrBounds "notifications" _ _ own k notifications,
      )

-- The accessor for one user agrees with the visit of all users, as the trait asks of its
-- implementations.
abbrev pub IsCoherent : EventContent → Type 0
IsCoherent c = (u : String) → c.user_power_level u ≡ levels c.user_power_levels u

-- What a user may have under the new event, where `o` and `n` are the entries, `d` and `e` the
-- defaults.
level_cases :
    (o n d e : Option ℤ) (bound : ℤ)
    → ((v : ℤ) → n ≡ some v → o ≢ some v → v ≤ℤ bound)
    → KeepsOrBounds d e bound
    → (unwrap_or n (unwrap_or e (pos 0)) ≤ℤ bound)
      ⊎ (unwrap_or n (unwrap_or e (pos 0)) ≡ unwrap_or o (unwrap_or d (pos 0)))
      ⊎ (n ≡ none)
        × ((unwrap_or n (unwrap_or e (pos 0)) ≡ unwrap_or d (pos 0))
            ⊎ (unwrap_or n (unwrap_or e (pos 0)) ≡ pos 0))
level_cases o (some v) d e bound grant keep = elim (Option-cases o (some v)) [
  | inl same ↦ inr (inl (ground arith))
  | inr other ↦ inl (grant v refl other)
]
level_cases o none d (some e) bound grant keep = ground arith
level_cases o none d none bound grant keep = inr (inr (refl, inr refl))

level_in_lem :
    (c : EventContent) (u : String)
    → level_in c u ≡ unwrap_or (c.user_power_level u) (unwrap_or c.users_default (pos 0))
unfolding level_in
level_in_lem c u = ground arith

-- An accepted power-levels event that replaces another raises nobody above its sender: each user's
-- level under the new content is at most the sender's level, or what it was, or the user is not
-- listed in it and has the old default, or zero. Both contents are coherent.
pub no_escalation :
    (event : LeanEvent) (state : StateProvider) (version : StateResVersion)
    (verifier : Option EventVerifier) (ctx : Option EventProvider) (prev : LeanEvent) (u : String)
    → check_auth_with_context event state version verifier ctx ≡ ok tt
    → event.event_type ≡ m_room_power_levels
    → state m_room_power_levels "" ≡ some prev
    → IsCoherent event.content
    → IsCoherent prev.content
    → (level_in event.content u ≤ℤ get_sender_power_level event.sender state version)
      ⊎ (level_in event.content u ≡ level_in prev.content u)
      ⊎ (event.content.user_power_level u ≡ none)
        × ((level_in event.content u ≡ unwrap_or prev.content.users_default (pos 0))
            ⊎ (level_in event.content u ≡ pos 0))
no_escalation event state version verifier ctx prev u accepted typed before new_coherent
      old_coherent =
    rw (level_in_lem event.content u, level_in_lem prev.content u)
      (level_cases (prev.content.user_power_level u) (event.content.user_power_level u)
        prev.content.users_default event.content.users_default
        (get_sender_power_level event.sender state version)
        (λ v f g.
          accepted-grant event state version verifier ctx prev accepted typed before u v
            (sym (new_coherent u) ∙ f) (λ x. g (old_coherent u ∙ x)))
        (accepted-settings event state version verifier ctx prev accepted typed before "").0)
