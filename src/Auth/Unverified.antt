-- ===== src/Auth/Unverified.antt =====
-- A verifier only rejects more (src/auth/mod.rs, `check_auth_with_context`).
use rezzy.Prelude.{◌≡◌, refl, String, Bool, true, false, Option, none, some, arith, ok, unwrap_or}
use rezzy.Basespec.Version.{StateResVersion}
use rezzy.Basespec.Event.{LeanEvent, StateProvider, EventProvider, EventVerifier}
use rezzy.Auth.Members.{
  check_third_party_invite, check_invite_with_token, check_invite_rules, check_authorising_user,
  check_join_rule, check_join_rules, check_membership, membership_of, join_rule_of,
}
use rezzy.Auth.Check.{
  run_verifier, check_member_change, check_member_event, check_rules, check_auth_with_context,
}

module _ (event : LeanEvent) (state : StateProvider) (version : StateResVersion)
    (verifier : Option EventVerifier) where
  third_party_unverified :
      (target token mxid : String)
      → check_third_party_invite event state target version verifier token mxid ≡ ok tt
      → check_third_party_invite event state target version none token mxid ≡ ok tt
  unfolding check_third_party_invite
  third_party_unverified target token mxid h = ground (arith, h)

  authorising_unverified :
      (user : String)
      → check_authorising_user event state user version verifier ≡ ok tt
      → check_authorising_user event state user version none ≡ ok tt
  unfolding check_authorising_user
  authorising_unverified user h = ground (arith, h)

  with_token_unverified :
      (target current : String)
      → check_invite_with_token event state target current version verifier ≡ ok tt
      → check_invite_with_token event state target current version none ≡ ok tt
  unfolding check_invite_with_token
  with_token_unverified target current h = ground (arith, h, third_party_unverified target)

  invite_unverified :
      (target current : String)
      → check_invite_rules event state target current version verifier ≡ ok tt
      → check_invite_rules event state target current version none ≡ ok tt
  unfolding check_invite_rules
  invite_unverified target current h = ground (arith, h, with_token_unverified target current)

  join_rule_unverified :
      (current rule : String) (restricted knock : Bool)
      → check_join_rule event state version verifier current rule restricted knock ≡ ok tt
      → check_join_rule event state version none current rule restricted knock ≡ ok tt
  unfolding check_join_rule
  join_rule_unverified current rule restricted knock h =
      go event.content.join_authorised_via_users_server refl
    where
      go :
          (o : Option String)
          → event.content.join_authorised_via_users_server ≡ o
          → check_join_rule event state version none current rule restricted knock ≡ ok tt
      go none p = ground (arith, h, p)
      go (some user) p = ground (arith, h, p, authorising_unverified user)

  join_unverified :
      (target : String)
      → check_join_rules event state target version verifier ≡ ok tt
      → check_join_rules event state target version none ≡ ok tt
  unfolding check_join_rules
  join_unverified target h =
      let current = unwrap_or (membership_of state target) "" in
      let rule = join_rule_of state in
      ground (
        arith,
        h,
        join_rule_unverified current rule true true,
        join_rule_unverified current rule true false,
        join_rule_unverified current rule false true,
        join_rule_unverified current rule false false,
      )

  membership_unverified :
      (target new current : String)
      → check_membership event state target new current version verifier ≡ ok tt
      → check_membership event state target new current version none ≡ ok tt
  unfolding check_membership
  membership_unverified target new current h =
      ground (arith, h, join_unverified target, invite_unverified target current)

  change_unverified :
      (target new : String)
      → check_member_change event state version verifier target new ≡ ok tt
      → check_member_change event state version none target new ≡ ok tt
  unfolding check_member_change
  change_unverified target new h =
      ground
        (arith, h, membership_unverified target new (unwrap_or (membership_of state target) ""))

  member_unverified :
      check_member_event event state version verifier ≡ ok tt
      → check_member_event event state version none ≡ ok tt
  unfolding check_member_event
  member_unverified h = go event.state_key refl event.content.membership refl
    where
      go :
          (key : Option String)
          → event.state_key ≡ key
          → (new : Option String) → event.content.membership ≡ new
          → check_member_event event state version none ≡ ok tt
      go none p new q = ground (arith, h, p)
      go (some target) p none q = ground (arith, h, p, q)
      go (some target) p (some new) q = ground (arith, h, p, q, change_unverified target new)

  rules_unverified :
      (ctx : Option EventProvider)
      → check_rules event state version verifier ctx ≡ ok tt
      → check_rules event state version none ctx ≡ ok tt
  unfolding check_rules
  rules_unverified ctx h = ground (arith, h, member_unverified)

  -- Whatever event is accepted with a verifier is accepted without one, over all rules: the host's
  -- verifier can only reject more.
  pub check_auth_with_context-unverified :
      (ctx : Option EventProvider)
      → check_auth_with_context event state version verifier ctx ≡ ok tt
      → check_auth_with_context event state version none ctx ≡ ok tt
  unfolding check_auth_with_context run_verifier
  check_auth_with_context-unverified ctx h = ground (arith, h, rules_unverified ctx)
