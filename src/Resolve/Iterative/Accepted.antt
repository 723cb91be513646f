-- ===== src/Resolve/Iterative/Accepted.antt =====
-- Where the values of a working state come from (src/resolve/iterative.rs).
use rezzy.Prelude.{
  ◌≡◌, refl, ap, arith, sym, subst, ◌∙◌, String, Bool, true, Option, some, List, [], ◌∷◌, ◌++◌, inl,
  inr, ◌⊎◌,
}
use rezzy.Basespec.Event.{LeanEvent}
use rezzy.Resolve.State.{Key, get, SharedState}
use rezzy.Resolve.Iterative.{IterativeInputs}
use rezzy.Resolve.Iterative.Inputs.{IsInput}
use rezzy.Resolve.Iterative.Run.{MayDecide, IsJudged, IsStep, AreSteps}

-- One of the events of a phase: an input event of a key that may decide it, and that its check let
-- pass, in the working state to which the events before it lead from the first one.
pub record IsAccepted (inputs : IterativeInputs) (conflicted_keys : List Key)
    (create_ev : Option LeanEvent) (is_power : Bool) (events : List LeanEvent) (first : SharedState)
    (t k id : String) : Type 0 where
  pub before : List LeanEvent
  pub event : LeanEvent
  pub behind : List LeanEvent
  pub in_order : events ≡ before ++ event ∷ behind
  pub resolved : SharedState
  pub reached : AreSteps inputs conflicted_keys create_ev is_power before first resolved
  pub judged : IsJudged inputs create_ev is_power event resolved true
  pub from : IsInput inputs event
  pub of_id : event.event_id ≡ id
  pub of_type : event.event_type ≡ t
  pub of_key : event.state_key ≡ some k
  pub may_decide : MayDecide inputs.version conflicted_keys t k

module _ (inputs : IterativeInputs) (conflicted_keys : List Key) (create_ev : Option LeanEvent)
    (is_power : Bool) where
  -- The value was there before the phase, or an event of the phase decided it.
  abbrev pub KeptOrAccepted : List LeanEvent → SharedState → String → String → String → Type 0
  KeptOrAccepted events first t k id =
      (get t k first ≡ some id)
      ⊎ IsAccepted inputs conflicted_keys create_ev is_power events first t k id

  step-source :
      (event : LeanEvent) (behind : List LeanEvent) (first next : SharedState)
      → IsInput inputs event
      → IsStep inputs conflicted_keys create_ev is_power event first next
      → (t k id : String) → get t k next ≡ some id
      → KeptOrAccepted (event ∷ behind) first t k id
  step-source event behind first next p (inr (judged, same)) t k id h =
      inl (subst (λ m. get t k m ≡ some id) same h)
  step-source event behind first next p (inl (judged, decided)) t k id h =
      let sets = decided.sets in
      elim (decided.keeps t k) [
        | inl same ↦ inl (sym same ∙ h)
        | inr (of_type, of_key, may) ↦
            let may' : MayDecide inputs.version conflicted_keys event.event_type k =
              subst (λ u. MayDecide inputs.version conflicted_keys u k) (sym of_type) may in
            let here : get t k next ≡ some event.event_id =
              subst (λ u. get u k next ≡ some event.event_id) of_type (sets k of_key may') in
            inr (record {
              before = [];
              event = event;
              behind = behind;
              in_order = refl;
              resolved = first;
              reached = refl;
              judged = judged;
              from = p;
              of_id = ground (arith, here, h);
              of_type = of_type;
              of_key = of_key;
              may_decide = may;
            })
      ]

  pub AreSteps-source :
      (events : List LeanEvent) (first after : SharedState)
      → AreSteps inputs conflicted_keys create_ev is_power events first after
      → (t k id : String) → get t k after ≡ some id
      → KeptOrAccepted events first t k id
  AreSteps-source [] first after same t k id h = inl (subst (λ m. get t k m ≡ some id) same h)
  AreSteps-source (event ∷ rest) first after (next, p, step, later) t k id h =
      elim (AreSteps-source rest next after later t k id h) [
        | inl old ↦ step-source event rest first next p step t k id old
        | inr a ↦ inr (record {
          before = event ∷ a.before;
          event = a.event;
          behind = a.behind;
          in_order = ap (λ l. event ∷ l) a.in_order;
          resolved = a.resolved;
          reached = (next, p, step, a.reached);
          judged = a.judged;
          from = a.from;
          of_id = a.of_id;
          of_type = a.of_type;
          of_key = a.of_key;
          may_decide = a.may_decide;
        })
      ]
