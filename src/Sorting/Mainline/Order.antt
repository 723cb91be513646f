-- ===== src/Sorting/Mainline/Order.antt =====
-- What the mainline sort returns (src/resolve/sorting.rs, `mainline_sort`).
use Prim.Native.Nat.{Ordering}
use Prim.Native.String
use rezzy.Prelude.{ℕ, ◌<◌, ◌≡◌, String, List, [], ◌∷◌, ◌⊎◌, IsUpTo}
use rezzy.Basespec.Event.{LeanEvent}
use rezzy.Sorting.Mainline.{Decorated, cmp_mainline}

-- The comparison of events that have these positions: farther first, then earlier, then by id.
abbrev pub cmp_at : (String → ℕ) → LeanEvent → LeanEvent → Ordering
cmp_at dist a b = cmp_mainline (a, dist a.event_id) (b, dist b.event_id)

module _ (dist : String → ℕ) where
  abbrev place_all : List LeanEvent → List Decorated
  place_all [] = []
  place_all (ev ∷ events) = (ev, dist ev.event_id) ∷ place_all events

-- An event is farther along the mainline than another, or as far and not after it, by timestamp and
-- then by id.
abbrev pub IsFarther : (String → ℕ) → LeanEvent → LeanEvent → Type 0
IsFarther dist a b =
    (dist b.event_id < dist a.event_id)
    ⊎ ((dist a.event_id ≡ dist b.event_id)
        × IsUpTo a.origin_server_ts b.origin_server_ts a.event_id b.event_id)
