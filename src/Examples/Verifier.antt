-- ===== src/Examples/Verifier.antt =====
-- A verifier that knows one event, and the witness of the theorem on verifiers.
use rezzy.Prelude.{◌≡◌, refl, String, Result, ok, err, none, some, ◌==◌, if◌then◌else◌}
use rezzy.Basespec.Version.{v2}
use rezzy.Basespec.Event.{EventVerifier}
use rezzy.Auth.Check.{check_auth_with_context}
use rezzy.Auth.Unverified.{check_auth_with_context-unverified}
use rezzy.Examples.Room.{room}
use rezzy.Examples.Auth.{program, topic}

abbrev knows_topic : String → Result String (Unit {0})
knows_topic id = if id == "$topic" then ok tt else err "unknown event"

abbrev verifier : EventVerifier
verifier = record {
  verify_event_id_hash = knows_topic;
  verify_signatures = knows_topic;
  verify_content_hash = knows_topic;
  verify_third_party_invite = λ id token. knows_topic id;
  verify_join_authorised_via_users_server = λ id user. knows_topic id;
}

topic_verified : check_auth_with_context topic room v2 (some verifier) none ≡ ok tt
unfolding program
topic_verified = refl

check_auth_with_context-unverified_example : check_auth_with_context topic room v2 none none ≡ ok tt
check_auth_with_context-unverified_example =
    check_auth_with_context-unverified topic room v2 (some verifier) none topic_verified
