-- ===== src/Auth/PowerLevels.antt =====
-- The rules of `m.room.power_levels` events (src/auth/mod.rs).
use rezzy.Prelude.{
  String, Bool, true, false, ◌&&◌, ◌||◌, not, Option, none, some, List, [], ◌∷◌, ℤ, ltb_ℤ, leb_ℤ,
  eqb_ℤ, ◌==◌, if◌then◌else◌, leb, lookup, btree_insert, ok, err, ◌>>=◌, ◌>>◌, reject_if,
}
use rezzy.Basespec.Version.{StateResVersion, is_v2_1_plus}
use rezzy.Basespec.Mxid.{codes, starts_with_at, contains_colon}
use rezzy.Basespec.Event.{
  LeanEvent, EventContent, StateProvider, m_room_create, m_room_power_levels,
}
use rezzy.Auth.Error.{
  Check, invalid_syntax, non_integer_scalar, non_integer_map, users_contains_creator,
  users_contains_additional_creator, non_integer_users, invalid_user_id, cannot_change, cannot_set,
  cannot_change_entry, cannot_set_entry,
}
use rezzy.Auth.State.{get_room_version_num, if_some, when}
use rezzy.Auth.Levels.{get_sender_power_level}

abbrev pub opt_eq : Option ℤ → Option ℤ → Bool
opt_eq none none = true
opt_eq (some a) (some b) = eqb_ℤ a b
opt_eq _ _ = false

-- `is_some_and(|v| v > bound)`
abbrev pub exceeds : Option ℤ → ℤ → Bool
exceeds none bound = false
exceeds (some v) bound = ltb_ℤ bound v

abbrev value : Option ℤ → ℤ → ℤ
value none d = d
value (some v) d = v

unfoldable pub check_scalar_pl : String → Option ℤ → Option ℤ → ℤ → Check
check_scalar_pl field old new sender_pl = if opt_eq old new then ok tt else do
  reject_if (exceeds old sender_pl)
      (invalid_syntax (cannot_change field (value old sender_pl) sender_pl))
  reject_if (exceeds new sender_pl)
      (invalid_syntax (cannot_set field (value new sender_pl) sender_pl))

-- The `BTreeMap` that a visit fills: a later entry of a key replaces an earlier one.
unfoldable pub collect_levels : List (String × ℤ) → List (String × ℤ) → List (String × ℤ)
collect_levels acc [] = acc
collect_levels acc ((k, v) ∷ rest) = collect_levels (btree_insert k v acc) rest

-- `levels.get(key).is_none_or(|&v| v != val)`
abbrev pub changed_in : List (String × ℤ) → String → ℤ → Bool
changed_in levels key val = not (opt_eq (lookup key levels) (some val))

-- The loop over the old entries: `exempt` is the sender's own key, and `too_high` the comparison.
unfoldable pub check_removed :
    String → (String → Bool) → (ℤ → Bool) → ℤ → List (String × ℤ) → List (String × ℤ) → Check
check_removed field exempt too_high sender_pl new_levels [] = ok tt
check_removed field exempt too_high sender_pl new_levels ((key, old_val) ∷ rest) =
    reject_if (not (exempt key) && changed_in new_levels key old_val && too_high old_val)
      (invalid_syntax (cannot_change_entry field key old_val sender_pl))
    >> check_removed field exempt too_high sender_pl new_levels rest

-- The loop over the new entries.
unfoldable pub check_added : String → ℤ → List (String × ℤ) → List (String × ℤ) → Check
check_added field sender_pl old_levels [] = ok tt
check_added field sender_pl old_levels ((key, new_val) ∷ rest) =
    reject_if (changed_in old_levels key new_val && ltb_ℤ sender_pl new_val)
      (invalid_syntax (cannot_set_entry field key new_val sender_pl))
    >> check_added field sender_pl old_levels rest

-- Rules 10.7 and 10.8, for one of the maps `events` and `notifications`.
unfoldable pub check_level_map : String → List (String × ℤ) → List (String × ℤ) → ℤ → Check
check_level_map field old new sender_pl = do
  let old_levels = collect_levels [] old
  let new_levels = collect_levels [] new
  check_removed field (λ key. false) (ltb_ℤ sender_pl) sender_pl new_levels old_levels
  check_added field sender_pl old_levels new_levels

-- Rules 10.9 and 10.10.
unfoldable pub check_users : String → List (String × ℤ) → List (String × ℤ) → ℤ → Check
check_users sender old new sender_pl = do
  let old_users = collect_levels [] old
  let new_users = collect_levels [] new
  check_removed "users" (λ key. key == sender) (leb_ℤ sender_pl) sender_pl new_users old_users
  check_added "users" sender_pl old_users new_users

unfoldable pub check_scalars : EventContent → EventContent → ℤ → Check
check_scalars new prev sender_pl = do
  check_scalar_pl "users_default" prev.users_default new.users_default sender_pl
  check_scalar_pl "events_default" prev.events_default new.events_default sender_pl
  check_scalar_pl "state_default" prev.state_default new.state_default sender_pl
  check_scalar_pl "ban" prev.ban new.ban sender_pl
  check_scalar_pl "redact" prev.redact new.redact sender_pl
  check_scalar_pl "kick" prev.kick new.kick sender_pl
  check_scalar_pl "invite" prev.invite new.invite sender_pl

unfoldable pub check_power_levels_rules : String → EventContent → EventContent → ℤ → Check
check_power_levels_rules sender new prev sender_pl = do
  check_scalars new prev sender_pl
  check_level_map "events" prev.event_power_levels new.event_power_levels sender_pl
  check_level_map "notifications" prev.notification_power_levels new.notification_power_levels
      sender_pl
  check_users sender prev.user_power_levels new.user_power_levels sender_pl

-- The visitor keeps the last key that fails.
unfoldable pub last_failing : (String → Bool) → List String → Option String → Option String
last_failing bad [] found = found
last_failing bad (key ∷ rest) found = last_failing bad rest (if bad key then some key else found)

-- Rule 10.4, against the create event of the state.
unfoldable pub check_creators_unlisted : EventContent → StateProvider → Check
check_creators_unlisted new state = elim (state m_room_create "") [
  | none ↦ ok tt
  | some create ↦ do
    if_some create.content.creator (λ creator.
        reject_if (new.has_user_in_users creator) (invalid_syntax (users_contains_creator creator)))
    if_some (last_failing create.content.has_additional_creator new.user_keys none)
        (λ user. err (invalid_syntax (users_contains_additional_creator user)))
]

-- Rule 10.3
unfoldable pub check_user_keys : EventContent → Bool → Check
check_user_keys new strict = do
  reject_if (new.has_non_integer_users_pl strict) (invalid_syntax non_integer_users)
  if_some
      (last_failing (λ user. not (starts_with_at user) || not (contains_colon (codes user)))
        new.user_keys none)
      (λ user. err (invalid_syntax (invalid_user_id user)))

-- Rules 10.1 and 10.2, of room versions 10 and later.
unfoldable pub check_integers : EventContent → Check
check_integers new = do
  if_some new.non_integer_scalar_pl (λ field. err (invalid_syntax (non_integer_scalar field)))
  if_some new.non_integer_map_pl (λ field. err (invalid_syntax (non_integer_map field)))

-- Rule 10 of `check_auth_with_context`.
unfoldable pub check_power_levels_event : LeanEvent → StateProvider → StateResVersion → Check
check_power_levels_event event state version = do
  num ← get_room_version_num state
  let strict = leb 10 num
  when strict (check_integers event.content)
  when (is_v2_1_plus version) (check_creators_unlisted event.content state)
  check_user_keys event.content strict
  elim (state m_room_power_levels "") [
    | none ↦ ok tt
    | some prev ↦
        check_power_levels_rules event.sender event.content prev.content
          (get_sender_power_level event.sender state version)
  ]
