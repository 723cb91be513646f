-- ===== src/Resolve/Iterative/Senders.antt =====
-- Who decided a value of the resolved state (src/resolve/iterative.rs, with the auth checks of
-- src/auth/mod.rs).
use rezzy.Prelude.{◌≡◌, String, Bool, false, Option, some, List, ◌≤ℤ◌}
use rezzy.Basespec.Event.{LeanEvent, mem_join}
use rezzy.Auth.Members.{membership_of}
use rezzy.Auth.Levels.{get_required_power_level, get_sender_power_level}
use rezzy.Resolve.State.{Key, SharedState}
use rezzy.Resolve.Iterative.{IterativeInputs}
use rezzy.Resolve.Iterative.Accepted.{IsAccepted}

-- An accepted event that is not rejected, and whose sender, in the state that the check saw, was
-- joined and had the level that the event needs.
pub record IsEntitled (inputs : IterativeInputs) (conflicted_keys : List Key)
    (create_ev : Option LeanEvent) (is_power : Bool) (events : List LeanEvent) (first : SharedState)
    (t k id : String) : Type 0 where
  pub by : IsAccepted inputs conflicted_keys create_ev is_power events first t k id
  pub sound : by.event.rejected ≡ false
  pub joined : membership_of by.judged.state by.event.sender ≡ some mem_join
  pub level :
      get_required_power_level t (some k) by.judged.state
      ≤ℤ get_sender_power_level by.event.sender by.judged.state inputs.version
