-- ===== src/Examples/Senders.antt =====
-- Examples of who decides a value of the iterative resolution: Bob, who is joined, sets a topic.
use rezzy.Prelude.{◌≡◌, refl, some, [], ◌∷◌, and_then}
use rezzy.Basespec.Event.{empty_content}
use rezzy.Resolve.State.{get, EventMap}
use rezzy.Resolve.Iterative.{IterativeInputs}
use rezzy.Resolve.Iterative.Resolver.{resolve_iterative_sort}
use rezzy.Examples.Auth.{program}
use rezzy.Examples.Room.{state_event}
use rezzy.Examples.Resolve.{citing, inputs, resolve_program}

abbrev titles : EventMap
titles =
    (
      "$title",
      citing (state_event "$title" "m.room.topic" "" "@bob:x" empty_content)
          ("$create" ∷ "$power" ∷ "$bob" ∷ []),
    )
    ∷ []

abbrev titled : IterativeInputs
titled = record inputs { conflicted_events = titles }

-- Bob's topic is accepted.
title_test :
    and_then (resolve_iterative_sort 100 titled) (λ state. get "m.room.topic" "" state)
    ≡ some "$title"
unfolding program resolve_program
title_test = refl
