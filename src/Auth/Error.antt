-- ===== src/Auth/Error.antt =====
-- `AuthError` (src/auth/mod.rs). The message texts of `InvalidSyntax` are the constructors of
-- `Syntax`, with the values that a message shows.
use rezzy.Prelude.{String, Option, ℤ, Result}

pub data Syntax : Type 0 where
  too_many_prev_events too_many_auth_events too_many_prev_state_events : Syntax
  empty_event_type rejected_event : Syntax
  unrecognised_room_version : Syntax
  rejected_auth_state : String → String → Syntax
  unverified : String → Syntax
  invalid_create_sender : Syntax
  cross_domain : String → Syntax
  aliases_without_state_key aliases_domain_mismatch : Syntax
  redaction_not_allowed : Syntax
  missing_create_in_state auth_events_without_create : Syntax
  create_cited : Syntax
  unexpected_auth_event_type : String → Syntax
  duplicate_auth_event : Syntax
  non_integer_scalar non_integer_map users_contains_creator : String → Syntax
  users_contains_additional_creator : String → Syntax
  non_integer_users : Syntax
  invalid_user_id : String → Syntax
  cannot_change cannot_set : String → ℤ → ℤ → Syntax
  cannot_change_entry cannot_set_entry : String → String → ℤ → ℤ → Syntax
  member_without_state_key member_without_membership : Syntax
  unknown_membership : String → Syntax
  invite_without_token invite_without_mxid invite_without_signatures : Syntax

pub data AuthError : Type 0 where
  not_member : String → String → AuthError
  insufficient_power_level : ℤ → ℤ → String → AuthError
  banned_user : String → String → AuthError
  invalid_state_key : String → String → AuthError
  create_with_prev_events : AuthError
  missing_auth_event : String → AuthError
  missing_create : AuthError
  invalid_syntax : Syntax → AuthError
  incomplete_auth_events : String → String → AuthError
  foreign_room_event : String → String → String → Option String → AuthError
  rejected_auth_event : String → String → AuthError

-- A check that returns `Result<(), AuthError>`.
abbrev pub Check : Type 0
Check = Result AuthError (Unit {0})
